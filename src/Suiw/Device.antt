-- ===== src/Suiw/Device.antt =====
-- The device that the library shows to the verbs (libsuiw/softuiwarp.cpp).
use soft_ui_warp.Prelude.{
  ℕ, ◌≡◌, refl, ◌↔◌, Bool, true, false, ◌&&◌, Option, none, some, List, [], ◌∷◌, arith, ◌==◌, ℤ,
  pos, negsuc,
}
use soft_ui_warp.Wire.{swap_bytes}

-- The members of `struct ibv_device` that the library sets; the rest is 0. Names are C strings,
-- without their zero byte.
pub record IbvDevice : Type 0 where
  pub transport_type : ℕ
  pub name : List ℕ
  pub dev_name : List ℕ
  pub dev_path : List ℕ
  pub ibdev_path : List ℕ

-- `IBV_TRANSPORT_IWARP`.
abbrev pub ibv_transport_iwarp : ℕ
ibv_transport_iwarp = 1

-- "enp94s0f0", "softuiwarp0" and "/dev/zero".
abbrev pub kernel_dev_name : List ℕ
kernel_dev_name = b'e' ∷ b'n' ∷ b'p' ∷ b'9' ∷ b'4' ∷ b's' ∷ b'0' ∷ b'f' ∷ b'0' ∷ []

abbrev pub dev_name : List ℕ
dev_name = b's' ∷ b'o' ∷ b'f' ∷ b't' ∷ b'u' ∷ b'i' ∷ b'w' ∷ b'a' ∷ b'r' ∷ b'p' ∷ b'0' ∷ []

abbrev pub dev_path : List ℕ
dev_path = b'/' ∷ b'd' ∷ b'e' ∷ b'v' ∷ b'/' ∷ b'z' ∷ b'e' ∷ b'r' ∷ b'o' ∷ []

abbrev pub dev_guid : ℕ
dev_guid = 0xdeadbeef

-- `create_suiw_device`, of which `suiw_get_ibv_device` gives a copy.
abbrev pub create_suiw_device : IbvDevice
create_suiw_device = record {
  transport_type = ibv_transport_iwarp;
  name = kernel_dev_name;
  dev_name = dev_name;
  dev_path = dev_path;
  ibdev_path = dev_path;
}

-- `strcmp(a, b) == 0`.
unfoldable pub same_string : List ℕ → List ℕ → Bool
same_string [] [] = true
same_string [] (b ∷ bs) = false
same_string (a ∷ as_) [] = false
same_string (a ∷ as_) (b ∷ bs) = a == b && same_string as_ bs

-- `suiw_is_device_softuiwarp`; `none` is a null pointer.
unfoldable pub suiw_is_device_softuiwarp : Option IbvDevice → Bool
unfolding same_string
suiw_is_device_softuiwarp none = false
suiw_is_device_softuiwarp (some d) = same_string d.dev_name dev_name

-- `struct ibv_context`, of which only the device is set.
pub record IbvContext : Type 0 where
  pub device : IbvDevice

unfoldable pub suiw_open_device : Option IbvDevice → Option IbvContext
suiw_open_device none = none
suiw_open_device (some d) = some (record { device = d })

unfoldable pub suiw_close_device : Option IbvContext → ℤ
suiw_close_device none = pos 0
suiw_close_device (some c) = pos 0

-- `htobe64` swaps the bytes on a little-endian machine.
unfoldable pub suiw_get_device_guid : Option IbvDevice → ℕ
suiw_get_device_guid device = swap_bytes 8 dev_guid

unfoldable pub suiw_query_device : IbvContext → ℤ
suiw_query_device context = negsuc 0

-- The test accepts exactly the devices of the library's name, and no null pointer.
pub same_string_lem : (as_ bs : List ℕ) → (same_string as_ bs ≡ true) ↔ (as_ ≡ bs)
unfolding same_string
same_string_lem [] [] = (λ h. refl, λ h. refl)
same_string_lem [] (b ∷ bs) = (λ h. cc, λ h. cc)
same_string_lem (a ∷ as_) [] = (λ h. cc, λ h. cc)
same_string_lem (a ∷ as_) (b ∷ bs) =
    let ih = same_string_lem as_ bs in (λ h. ground (arith, ih.0), λ h. ground (arith, ih.1))
