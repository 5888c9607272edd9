-- ===== src/Verbs/DeviceList.antt =====
-- What the list of devices holds (libibverbs/verbs.cpp).
use soft_ui_warp.Prelude.{
  ℕ, ◌≡◌, refl, sym, ap, ◌∙◌, ◌≢◌, Option, none, some, List, [], ◌∷◌, ◌++◌, map, arith, length,
  length-append,
}
use mathlib.Core.List.{map-append}
use soft_ui_warp.Memory.{update}
use soft_ui_warp.Suiw.Device.{IbvDevice, create_suiw_device}
use soft_ui_warp.Verbs.{
  DeviceHeap, RealVerbs, ibv_free_device_list, copy_devices, ibv_get_device_list,
}

-- No address of the list is the one given.
abbrev pub Misses : ℕ → List ℕ → Type 0
Misses a [] = Unit {0}
Misses a (b ∷ bs) = (a ≢ b) × Misses a bs

-- No address stands in both lists, and none twice in the first.
abbrev pub AreFresh : List ℕ → List ℕ → Type 0
AreFresh [] used = Unit {0}
AreFresh (f ∷ fs) used = Misses f used × Misses f fs × AreFresh fs used

-- Where none of a list is freed nothing changes, and each of the list is freed.
free-Misses :
    (list : List ℕ) (h : DeviceHeap) (a : ℕ) → Misses a list → ibv_free_device_list list h a ≡ h a
unfolding ibv_free_device_list
free-Misses [] h a m = refl
free-Misses (b ∷ list) h a m = free-Misses list (update h b none) a m.1 ∙ ground (arith, m.0)

pub freed_head :
    (list : List ℕ) (h : DeviceHeap) (a : ℕ) → h a ≡ none → ibv_free_device_list list h a ≡ none
unfolding ibv_free_device_list
freed_head [] h a e = e
freed_head (b ∷ list) h a e = freed_head list (update h b none) a (ground (arith, e))

copy-Misses :
    (list fresh : List ℕ) (h : DeviceHeap) (a : ℕ)
    → Misses a fresh
    → copy_devices list fresh h a ≡ h a
unfolding copy_devices
copy-Misses [] fresh h a m = refl
copy-Misses (b ∷ list) [] h a m = refl
copy-Misses (b ∷ list) (f ∷ fresh) h a m =
    copy-Misses list fresh (update h f (h b)) a m.1 ∙ ground (arith, m.0)

AreFresh-tail : (fs : List ℕ) (a : ℕ) (used : List ℕ) → AreFresh fs (a ∷ used) → AreFresh fs used
AreFresh-tail [] a used new = tt
AreFresh-tail (f ∷ fs) a used new = (new.0.1, new.1, AreFresh-tail fs a used new.2)

map-update :
    (h : DeviceHeap) (f : ℕ) (d : Option IbvDevice) (list : List ℕ)
    → Misses f list
    → map (update h f d) list ≡ map h list
map-update h f d [] m = refl
map-update h f d (a ∷ list) m =
    let e : update h f d a ≡ h a = ground (arith, m.0) in
    rw e (ap (◌∷◌ (h a)) (map-update h f d list m.1))

-- The copies, in order.
copy_devices_lem :
    (list fresh : List ℕ) (h : DeviceHeap)
    → length fresh ≡ length list
    → AreFresh fresh list
    → map (copy_devices list fresh h) fresh ≡ map h list
unfolding copy_devices
copy_devices_lem [] [] h len new = refl
copy_devices_lem [] (f ∷ fresh) h len new = absurd (omega (arith, len))
copy_devices_lem (a ∷ list) [] h len new = absurd (omega (arith, len))
copy_devices_lem (a ∷ list) (f ∷ fresh) h len new =
    let h' = update h f (h a) in
    let same : h' f ≡ h a = ground arith in
    let first = copy-Misses list fresh h' f new.1 ∙ same in
    let rest =
      copy_devices_lem list fresh h' (omega (arith, len)) (AreFresh-tail fresh a list new.2)
      ∙ map-update h f (h a) list new.0.1 in
    rw first (ap (◌∷◌ (h a)) rest)

map-free :
    (list fresh : List ℕ) (h : DeviceHeap)
    → AreFresh fresh list
    → map (ibv_free_device_list list h) fresh ≡ map h fresh
map-free list [] h new = refl
map-free list (f ∷ fresh) h new =
    rw (free-Misses list h f new.0) (ap (◌∷◌ (h f)) (map-free list fresh h new.2))

-- Every address of the list holds nothing.
abbrev pub AllFreed : DeviceHeap → List ℕ → Type 0
AllFreed h [] = Unit {0}
AllFreed h (a ∷ list) = (h a ≡ none) × AllFreed h list

pub free-AllFreed : (list : List ℕ) (h : DeviceHeap) → AllFreed (ibv_free_device_list list h) list
unfolding ibv_free_device_list
free-AllFreed [] h = tt
free-AllFreed (a ∷ list) h =
    (freed_head list (update h a none) a (ground arith), free-AllFreed list (update h a none))

-- The parts of fresh addresses of which the last is named.
Misses-last : (f own : ℕ) (fs : List ℕ) → Misses f (fs ++ own ∷ []) → Misses f fs × (f ≢ own)
Misses-last f own [] m = (tt, m.0)
Misses-last f own (g ∷ fs) m = let (r, e) = Misses-last f own fs m.1 in ((m.0, r), e)

AreFresh-last :
    (own : ℕ) (fs used : List ℕ)
    → AreFresh (fs ++ own ∷ []) used
    → AreFresh fs used × Misses own fs × Misses own used
AreFresh-last own [] used new = (tt, tt, new.0)
AreFresh-last own (f ∷ fs) used new =
    let (m, apart) = Misses-last f own fs new.1 in
    let (new', misses, unused) = AreFresh-last own fs used new.2 in
    ((new.0, m, new'), (λ e. apart (sym e), misses), unused)

-- On addresses that are new, each once and none of a device of the real library, the list returned
-- holds a copy of each device of the real library, in order, and behind them this library's device;
-- the number is its length; and every device that the real library had listed has been freed.
pub ibv_get_device_list_lem :
    (real : RealVerbs) (fresh : List ℕ) (own : ℕ) (h : DeviceHeap)
    → length fresh ≡ length real.get_device_list
    → AreFresh (fresh ++ own ∷ []) real.get_device_list
    → let (list, n, h') = ibv_get_device_list real fresh own h in
      (map h' list ≡ map h real.get_device_list ++ some create_suiw_device ∷ [])
      × (n ≡ length list)
      × AllFreed h' real.get_device_list
unfolding ibv_get_device_list
ibv_get_device_list_lem real fresh own h len new =
    let rl = real.get_device_list in
    let (new', misses, unused) = AreFresh-last own fresh rl new in
    let copied = copy_devices rl fresh h in
    let with_own = update copied own (some create_suiw_device) in
    let here : with_own own ≡ some create_suiw_device = ground arith in
    (
      map-free rl (fresh ++ own ∷ []) with_own new
          ∙ map-append with_own fresh (own ∷ [])
          ∙ rw
              (
                map-update copied own (some create_suiw_device) fresh misses,
                copy_devices_lem rl fresh h len new',
                here,
              )
              refl,
      omega (arith, length-append fresh (own ∷ []), len),
      free-AllFreed rl with_own,
    )
