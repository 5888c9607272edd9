-- ===== src/Wire/Control/Layout.antt =====
-- The control field of an iWARP header as its parts (common/common.h), and what the accessors do to
-- these.
use Prim.Native.Nat.{bit_and, bit_or}
use soft_ui_warp.Prelude.{ℕ, ◌+◌, ◌*◌, ◌/◌, ◌%◌, ◌^◌, ◌<◌, ◌≡◌, refl, sym, ap, ◌∙◌, arith}
use soft_ui_warp.Wire.{htons, swap_bytes, le_bytes, from_le}
use soft_ui_warp.Wire.Bits.{
  bit_and-parts, bit_or-parts, bit_and-zero, bit_and-ones, bit_or-zero, zero-bit_or,
}
use soft_ui_warp.Wire.Control.{
  IwarpCtrl, ddp_mask_version, rdmap_mask_version, rdmap_mask_opcode, ddp_version, rdmap_version,
  rdma_opcode,
}

-- The flags and reserved bits of the first byte, its version, and the version, the reserved bits
-- and the operation of the second.
pub record Parts : Type 0 where
  pub flags : ℕ
  pub ddp : ℕ
  pub rdmap : ℕ
  pub reserved : ℕ
  pub opcode : ℕ

abbrev pub AreParts : Parts → Type 0
AreParts p =
    (p.flags < 2 ^ 6)
    × (p.ddp < 2 ^ 2)
    × (p.rdmap < 2 ^ 2)
    × (p.reserved < 2 ^ 2)
    × (p.opcode < 2 ^ 4)

-- The field in memory, as a little-endian integer.
unfoldable pub layout : Parts → ℕ
layout p = ((p.rdmap * 2 ^ 2 + p.reserved) * 2 ^ 4 + p.opcode) * 2 ^ 8 + (p.flags * 2 ^ 2 + p.ddp)

-- The masks pick parts.
bit_and-layout :
    (p q : Parts)
    → AreParts p
    → AreParts q
    → bit_and (layout p) (layout q)
      ≡ layout record {
        flags = bit_and p.flags q.flags;
        ddp = bit_and p.ddp q.ddp;
        rdmap = bit_and p.rdmap q.rdmap;
        reserved = bit_and p.reserved q.reserved;
        opcode = bit_and p.opcode q.opcode;
      }
unfolding layout
bit_and-layout p q h g =
    rw
      (
        bit_and-parts 8 ((p.rdmap * 2 ^ 2 + p.reserved) * 2 ^ 4 + p.opcode)
            (p.flags * 2 ^ 2 + p.ddp) ((q.rdmap * 2 ^ 2 + q.reserved) * 2 ^ 4 + q.opcode)
            (q.flags * 2 ^ 2 + q.ddp) (omega arith) (omega arith),
        bit_and-parts 4 (p.rdmap * 2 ^ 2 + p.reserved) p.opcode (q.rdmap * 2 ^ 2 + q.reserved)
            q.opcode h.4 g.4,
        bit_and-parts 2 p.rdmap p.reserved q.rdmap q.reserved h.3 g.3,
        bit_and-parts 2 p.flags p.ddp q.flags q.ddp h.1 g.1,
      )
      refl

bit_or-layout :
    (p q : Parts)
    → AreParts p
    → AreParts q
    → bit_or (layout p) (layout q)
      ≡ layout record {
        flags = bit_or p.flags q.flags;
        ddp = bit_or p.ddp q.ddp;
        rdmap = bit_or p.rdmap q.rdmap;
        reserved = bit_or p.reserved q.reserved;
        opcode = bit_or p.opcode q.opcode;
      }
unfolding layout
bit_or-layout p q h g =
    rw
      (
        bit_or-parts 8 ((p.rdmap * 2 ^ 2 + p.reserved) * 2 ^ 4 + p.opcode) (p.flags * 2 ^ 2 + p.ddp)
            ((q.rdmap * 2 ^ 2 + q.reserved) * 2 ^ 4 + q.opcode) (q.flags * 2 ^ 2 + q.ddp)
            (omega arith) (omega arith),
        bit_or-parts 4 (p.rdmap * 2 ^ 2 + p.reserved) p.opcode (q.rdmap * 2 ^ 2 + q.reserved)
            q.opcode h.4 g.4,
        bit_or-parts 2 p.rdmap p.reserved q.rdmap q.reserved h.3 g.3,
        bit_or-parts 2 p.flags p.ddp q.flags q.ddp h.1 g.1,
      )
      refl

-- A header whose control field has such parts.
abbrev pub control : ℕ → Parts → IwarpCtrl
control len p = record { mpa_len = len; ddp_rdmap_ctrl = layout p }

module _ (p : Parts) (h : AreParts p) where
  open p use {flags, ddp, rdmap, reserved, opcode}

  -- What each mask leaves, and what its complement does.
  pub pick_ddp : bit_and (layout p) 0x0003 ≡ ddp
  unfolding layout
  pick_ddp =
      bit_and-layout p (record { flags = 0; ddp = 3; rdmap = 0; reserved = 0; opcode = 0 }) h
        (omega arith)
      ∙ rw (bit_and-ones 2 ddp h.1) (simp bit_and-zero (omega arith))

  pub pick_rdmap : bit_and (layout p) 0xc000 ≡ rdmap * 2 ^ 14
  unfolding layout
  pick_rdmap =
      bit_and-layout p (record { flags = 0; ddp = 0; rdmap = 3; reserved = 0; opcode = 0 }) h
        (omega arith)
      ∙ rw (bit_and-ones 2 rdmap h.2) (simp bit_and-zero (omega arith))

  pub pick_opcode : bit_and (layout p) 0x0f00 ≡ opcode * 2 ^ 8
  unfolding layout
  pick_opcode =
      bit_and-layout p (record { flags = 0; ddp = 0; rdmap = 0; reserved = 0; opcode = 15 }) h
        (omega arith)
      ∙ rw (bit_and-ones 4 opcode h.4) (simp bit_and-zero (omega arith))

  pub drop_ddp : bit_and (layout p) 0xfffc ≡ layout (record p { ddp = 0 })
  unfolding layout
  drop_ddp =
      bit_and-layout p (record { flags = 63; ddp = 0; rdmap = 3; reserved = 3; opcode = 15 }) h
        (omega arith)
      ∙ rw
          (
            bit_and-ones 6 flags h.0,
            bit_and-ones 2 rdmap h.2,
            bit_and-ones 2 reserved h.3,
            bit_and-ones 4 opcode h.4,
            bit_and-zero ddp,
          )
          refl

  pub drop_rdmap : bit_and (layout p) 0x3fff ≡ layout (record p { rdmap = 0 })
  unfolding layout
  drop_rdmap =
      bit_and-layout p (record { flags = 63; ddp = 3; rdmap = 0; reserved = 3; opcode = 15 }) h
        (omega arith)
      ∙ rw
          (
            bit_and-ones 6 flags h.0,
            bit_and-ones 2 ddp h.1,
            bit_and-ones 2 reserved h.3,
            bit_and-ones 4 opcode h.4,
            bit_and-zero rdmap,
          )
          refl

  pub drop_opcode : bit_and (layout p) 0xf0ff ≡ layout (record p { opcode = 0 })
  unfolding layout
  drop_opcode =
      bit_and-layout p (record { flags = 63; ddp = 3; rdmap = 3; reserved = 3; opcode = 0 }) h
        (omega arith)
      ∙ rw
          (
            bit_and-ones 6 flags h.0,
            bit_and-ones 2 ddp h.1,
            bit_and-ones 2 rdmap h.2,
            bit_and-ones 2 reserved h.3,
            bit_and-zero opcode,
          )
          refl

  pub ddp_version-control : (len : ℕ) → ddp_version (control len p) ≡ ddp
  unfolding ddp_version ddp_mask_version htons swap_bytes le_bytes from_le
  ddp_version-control len = rw pick_ddp (omega (arith, h))

  pub rdmap_version-control : (len : ℕ) → rdmap_version (control len p) ≡ rdmap
  unfolding rdmap_version rdmap_mask_version htons swap_bytes le_bytes from_le
  rdmap_version-control len = rw pick_rdmap (omega (arith, h))

  pub rdma_opcode-control : (len : ℕ) → rdma_opcode (control len p) ≡ opcode
  unfolding rdma_opcode rdmap_mask_opcode htons swap_bytes le_bytes from_le
  rdma_opcode-control len = rw pick_opcode (omega (arith, h))

  -- A part that has been cleared is filled.
  pub fill_ddp :
      (v : ℕ) → v < 2 ^ 2 → bit_or (layout (record p { ddp = 0 })) v ≡ layout (record p { ddp = v })
  unfolding layout
  fill_ddp v l =
      let q : Parts = record { flags = 0; ddp = v; rdmap = 0; reserved = 0; opcode = 0 } in
      let e : layout q ≡ v = omega arith in
      ap (bit_or (layout (record p { ddp = 0 }))) (sym e)
      ∙ bit_or-layout (record p { ddp = 0 }) q (omega (arith, h)) (omega arith)
      ∙ simp (bit_or-zero, zero-bit_or) refl

  pub fill_rdmap :
      (v : ℕ)
      → v < 2 ^ 2
      → bit_or (layout (record p { rdmap = 0 })) (v * 2 ^ 14) ≡ layout (record p { rdmap = v })
  unfolding layout
  fill_rdmap v l =
      let q : Parts = record { flags = 0; ddp = 0; rdmap = v; reserved = 0; opcode = 0 } in
      let e : layout q ≡ v * 2 ^ 14 = omega arith in
      ap (bit_or (layout (record p { rdmap = 0 }))) (sym e)
      ∙ bit_or-layout (record p { rdmap = 0 }) q (omega (arith, h)) (omega arith)
      ∙ simp (bit_or-zero, zero-bit_or) refl

  pub fill_opcode :
      (v : ℕ)
      → v < 2 ^ 4
      → bit_or (layout (record p { opcode = 0 })) (v * 2 ^ 8) ≡ layout (record p { opcode = v })
  unfolding layout
  fill_opcode v l =
      let q : Parts = record { flags = 0; ddp = 0; rdmap = 0; reserved = 0; opcode = v } in
      let e : layout q ≡ v * 2 ^ 8 = omega arith in
      ap (bit_or (layout (record p { opcode = 0 }))) (sym e)
      ∙ bit_or-layout (record p { opcode = 0 }) q (omega (arith, h)) (omega arith)
      ∙ simp (bit_or-zero, zero-bit_or) refl

-- Every field of 16 bits has such parts.
pub parts_of : ℕ → Parts
parts_of x = record {
  flags = x / 4 % 64;
  ddp = x % 4;
  rdmap = x / 2 ^ 14 % 4;
  reserved = x / 2 ^ 12 % 4;
  opcode = x / 2 ^ 8 % 16;
}

pub layout-parts_of : (x : ℕ) → x < 2 ^ 16 → AreParts (parts_of x) × (layout (parts_of x) ≡ x)
unfolding layout parts_of
layout-parts_of x h = (omega arith, omega (arith, h))
