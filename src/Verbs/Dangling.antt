-- ===== src/Verbs/Dangling.antt =====
-- What becomes of an open device when the list that it came from is freed (libibverbs/verbs.cpp).
use soft_ui_warp.Prelude.{ℕ, ◌≡◌, ◌⊎◌, inl, inr, none, some, List, [], ◌∷◌, arith, pos}
use soft_ui_warp.Memory.{update}
use soft_ui_warp.Suiw.Device.{IbvDevice, dev_name, suiw_is_device_softuiwarp, same_string_lem}
use soft_ui_warp.Verbs.{
  DeviceHeap, OpenContext, RealVerbs, ibv_free_device_list, ibv_open_device, ibv_close_device,
  ibv_query_device,
}
use soft_ui_warp.Verbs.DeviceList.{freed_head}

-- The address stands in the list.
abbrev pub Lists : ℕ → List ℕ → Type 0
Lists a [] = ⊥
Lists a (b ∷ list) = (a ≡ b) ⊎ Lists a list

freed_at :
    (list : List ℕ) (h : DeviceHeap) (a : ℕ) → Lists a list → ibv_free_device_list list h a ≡ none
unfolding ibv_free_device_list
freed_at [] h a l = elim l [ ]
freed_at (b ∷ list) h a (inl e) = freed_head list (update h b none) a (ground (arith, e))
freed_at (b ∷ list) h a (inr l) = freed_at list (update h b none) a l

-- When a device of this library's name has been opened and the list that it stands on has been
-- freed, the context still has the device's address, where nothing is any more: neither a query nor
-- the closing of the device can go on without reading it.
pub open_then_free :
    (real : RealVerbs) (list : List ℕ) (h : DeviceHeap) (a : ℕ) (d : IbvDevice)
    → Lists a list
    → h a ≡ some d
    → d.dev_name ≡ dev_name
    → (c : OpenContext) × (ibv_open_device real h a ≡ some (some c))
      × (ibv_close_device real h c ≡ some (pos 0))
      × (ibv_close_device real (ibv_free_device_list list h) c ≡ none)
      × (ibv_query_device real (ibv_free_device_list list h) c ≡ none)
unfolding ibv_open_device ibv_close_device ibv_query_device suiw_is_device_softuiwarp
open_then_free real list h a d stands live named =
    let gone = freed_at list h a stands in
    let ours = (same_string_lem d.dev_name dev_name).1 named in
    (
      record { device = a },
      ground (arith, live, ours),
      ground (arith, live, ours),
      ground (arith, gone),
      ground (arith, gone),
    )
