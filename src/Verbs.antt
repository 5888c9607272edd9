-- ===== src/Verbs.antt =====
-- The calls of libibverbs/verbs.cpp that choose between this library's device and those of the real
-- library, which is a parameter: its functions as they were bound by `dlsym`. Devices stand on a
-- heap, since the list of devices is copied and freed. The calls that only return an error, and the
-- log lines, are left out.
pub mod DeviceList
pub mod Dangling
use soft_ui_warp.Prelude.{
  ℕ, ◌+◌, Option, none, some, List, [], ◌∷◌, ◌++◌, if◌then◌else◌, ℤ, pos, length,
}
use soft_ui_warp.Memory.{update}
use soft_ui_warp.Suiw.Device.{
  IbvDevice, create_suiw_device, suiw_is_device_softuiwarp, suiw_get_device_guid, suiw_query_device,
}

-- The devices by address; nothing stands where memory was never given or has been freed.
abbrev pub DeviceHeap : Type 0
DeviceHeap = ℕ → Option IbvDevice

-- `struct ibv_context`: the address of its device.
pub record OpenContext : Type 0 where
  pub device : ℕ

-- The real library's functions, with the results that the calls pass on: the list of its devices, a
-- name, a number, a context or none, and results of type `int`.
pub record RealVerbs : Type 0 where
  pub get_device_list : List ℕ
  pub get_device_name : ℕ → List ℕ
  pub get_device_guid : ℕ → ℕ
  pub open_device : ℕ → Option OpenContext
  pub close_device : OpenContext → ℤ
  pub query_device : OpenContext → ℤ

-- `ibv_free_device_list`: each device up to the end of the list is freed, and then the list.
unfoldable pub ibv_free_device_list : List ℕ → DeviceHeap → DeviceHeap
ibv_free_device_list [] h = h
ibv_free_device_list (a ∷ list) h = ibv_free_device_list list (update h a none)

-- The `for` that copies each device of a list to an address that `malloc` gave.
unfoldable pub copy_devices : List ℕ → List ℕ → DeviceHeap → DeviceHeap
copy_devices [] fresh h = h
copy_devices (a ∷ list) [] h = h
copy_devices (a ∷ list) (f ∷ fresh) h = copy_devices list fresh (update h f (h a))

-- `ibv_get_device_list`: the list returned, its number of devices, and the heap. `fresh` and `own` are
-- the addresses that `malloc` gives, `own` that of the copy of this library's device.
unfoldable pub ibv_get_device_list : RealVerbs → List ℕ → ℕ → DeviceHeap → List ℕ × ℕ × DeviceHeap
unfolding copy_devices ibv_free_device_list
ibv_get_device_list real fresh own h =
    let device_list = real.get_device_list in
    let copied = copy_devices device_list fresh h in
    let with_own = update copied own (some create_suiw_device) in
    (fresh ++ own ∷ [], length device_list + 1, ibv_free_device_list device_list with_own)

-- Each call reads the device at an address; `none` means that there is none, which C leaves open. A
-- null pointer is not tested for but by `suiw_is_device_softuiwarp`.
unfoldable pub ibv_get_device_name : RealVerbs → DeviceHeap → ℕ → Option (List ℕ)
unfolding suiw_is_device_softuiwarp
ibv_get_device_name real h a = elim (h a) [
  | none ↦ none
  | some d ↦
      if suiw_is_device_softuiwarp (some d) then some d.dev_name else some (real.get_device_name a)
]

unfoldable pub ibv_get_device_guid : RealVerbs → DeviceHeap → ℕ → Option ℕ
unfolding suiw_is_device_softuiwarp suiw_get_device_guid
ibv_get_device_guid real h a = elim (h a) [
  | none ↦ none
  | some d ↦
      if suiw_is_device_softuiwarp (some d)
      then some (suiw_get_device_guid (some d))
      else some (real.get_device_guid a)
]

-- A context for the device, or a null pointer.
unfoldable pub ibv_open_device : RealVerbs → DeviceHeap → ℕ → Option (Option OpenContext)
unfolding suiw_is_device_softuiwarp
ibv_open_device real h a = elim (h a) [
  | none ↦ none
  | some d ↦
      if suiw_is_device_softuiwarp (some d)
      then some (some (record { device = a }))
      else some (real.open_device a)
]

unfoldable pub ibv_close_device : RealVerbs → DeviceHeap → OpenContext → Option ℤ
unfolding suiw_is_device_softuiwarp
ibv_close_device real h c = elim (h c.device) [
  | none ↦ none
  | some d ↦ if suiw_is_device_softuiwarp (some d) then some (pos 0) else some (real.close_device c)
]

unfoldable pub ibv_query_device : RealVerbs → DeviceHeap → OpenContext → Option ℤ
unfolding suiw_is_device_softuiwarp suiw_query_device
ibv_query_device real h c = elim (h c.device) [
  | none ↦ none
  | some d ↦
      if suiw_is_device_softuiwarp (some d)
      then some (suiw_query_device (record { device = d }))
      else some (real.query_device c)
]
