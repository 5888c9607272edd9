-- ===== src/Tests/Verbs.antt =====
-- The devices of a machine that has one of its own.
use soft_ui_warp.Prelude.{
  ◌≡◌, refl, inl, inr, none, some, [], ◌∷◌, map, arith, ◌==◌, if◌then◌else◌, pos, length,
}
use soft_ui_warp.Suiw.Device.{IbvDevice, create_suiw_device, dev_path}
use soft_ui_warp.Verbs.{
  DeviceHeap, OpenContext, RealVerbs, ibv_free_device_list, ibv_get_device_list, ibv_open_device,
  ibv_close_device, ibv_query_device,
}
use soft_ui_warp.Verbs.DeviceList.{AllFreed, ibv_get_device_list_lem}
use soft_ui_warp.Verbs.Dangling.{open_then_free}

-- "mlx"
abbrev other_device : IbvDevice
other_device = record {
  transport_type = 0;
  name = b'm' ∷ b'l' ∷ b'x' ∷ [];
  dev_name = b'm' ∷ b'l' ∷ b'x' ∷ [];
  dev_path = dev_path;
  ibdev_path = dev_path;
}

abbrev one_device : DeviceHeap
one_device a = if a == 10 then some other_device else none

abbrev real : RealVerbs
real = record {
  get_device_list = 10 ∷ [];
  get_device_name = λ a. [];
  get_device_guid = λ a. 0;
  open_device = λ a. none;
  close_device = λ c. pos 0;
  query_device = λ c. pos 0;
}

ibv_get_device_list_example :
    let (list, n, h') = ibv_get_device_list real (20 ∷ []) 30 one_device in
    (map h' list ≡ some other_device ∷ some create_suiw_device ∷ [])
    × (n ≡ length list)
    × AllFreed h' (10 ∷ [])
ibv_get_device_list_example =
    ibv_get_device_list_lem real (20 ∷ []) 30 one_device refl (omega arith)

-- The machine when the devices have been listed.
abbrev listed : DeviceHeap
listed a = if a == 30 then some create_suiw_device else none

open_then_free_example :
    (c : OpenContext) × (ibv_open_device real listed 30 ≡ some (some c))
    × (ibv_close_device real listed c ≡ some (pos 0))
    × (ibv_close_device real (ibv_free_device_list (20 ∷ 30 ∷ []) listed) c ≡ none)
    × (ibv_query_device real (ibv_free_device_list (20 ∷ 30 ∷ []) listed) c ≡ none)
open_then_free_example =
    open_then_free real (20 ∷ 30 ∷ []) listed 30 create_suiw_device (inr (inl refl)) refl refl
