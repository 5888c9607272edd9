-- ===== src/Wire/Control/Accessors.antt =====
-- The accessors of an iWARP header's control field (common/common.h) as operations on its parts.
use Prim.Native.Nat.{bit_and}
use soft_ui_warp.Prelude.{ℕ, ◌*◌, ◌/◌, ◌%◌, ◌^◌, ◌<◌, ◌≡◌, ap, arith}
use soft_ui_warp.Wire.{htons, swap_bytes, le_bytes, from_le}
use soft_ui_warp.Wire.Control.{
  IwarpCtrl, ddp_mask_version, rdmap_mask_version, rdmap_mask_opcode, ddp_version, ddp_set_version,
  rdmap_version, rdmap_set_version, rdma_opcode, rdmap_set_opcode,
}
use soft_ui_warp.Wire.Control.Layout.{
  Parts, AreParts, layout, control, pick_ddp, pick_rdmap, pick_opcode, drop_ddp, drop_rdmap,
  drop_opcode, fill_ddp, fill_rdmap, fill_opcode, ddp_version-control, rdmap_version-control,
  rdma_opcode-control,
}

-- What stands in the field's place for a value that is shifted and swapped.
ddp_value : (v : ℕ) → v < 2 ^ 8 → bit_and (htons (v * 2 ^ 8 % 2 ^ 16)) 0x0003 ≡ v % 4
unfolding layout htons swap_bytes le_bytes from_le
ddp_value v l =
    let q : Parts = record { flags = v / 4; ddp = v % 4; rdmap = 0; reserved = 0; opcode = 0 } in
    let e : htons (v * 2 ^ 8 % 2 ^ 16) ≡ layout q = omega (arith, l) in
    rw e (pick_ddp q (omega (arith, l)))

rdmap_value : (v : ℕ) → v < 2 ^ 8 → bit_and (htons (v * 2 ^ 6 % 2 ^ 16)) 0xc000 ≡ v % 4 * 2 ^ 14
unfolding layout htons swap_bytes le_bytes from_le
rdmap_value v l =
    let q : Parts = record {
      flags = v / 16;
      ddp = v / 4 % 4;
      rdmap = v % 4;
      reserved = 0;
      opcode = 0;
    } in
    let e : htons (v * 2 ^ 6 % 2 ^ 16) ≡ layout q = omega (arith, l) in
    rw e (pick_rdmap q (omega (arith, l)))

opcode_value : (v : ℕ) → v < 2 ^ 8 → bit_and (htons v) 0x0f00 ≡ v % 16 * 2 ^ 8
unfolding layout htons swap_bytes le_bytes from_le
opcode_value v l =
    let q : Parts = record {
      flags = 0;
      ddp = 0;
      rdmap = v / 64;
      reserved = v / 16 % 4;
      opcode = v % 16;
    } in
    let e : htons v ≡ layout q = omega (arith, l) in rw e (pick_opcode q (omega (arith, l)))

-- A header by its length and control field.
abbrev header : ℕ → ℕ → IwarpCtrl
header len bits = record { mpa_len = len; ddp_rdmap_ctrl = bits }

module _ (len : ℕ) (p : Parts) (h : AreParts p) (v : ℕ) (l : v < 2 ^ 8) where
  ddp_set_version-control :
      ddp_set_version (control len p) v ≡ control len (record p { ddp = v % 4 })
  unfolding ddp_set_version ddp_mask_version htons swap_bytes le_bytes from_le
  ddp_set_version-control =
      ap (header len) (rw (drop_ddp p h, ddp_value v l) (fill_ddp p h (v % 4) (omega arith)))

  rdmap_set_version-control :
      rdmap_set_version (control len p) v ≡ control len (record p { rdmap = v % 4 })
  unfolding rdmap_set_version rdmap_mask_version htons swap_bytes le_bytes from_le
  rdmap_set_version-control =
      ap (header len) (rw (drop_rdmap p h, rdmap_value v l) (fill_rdmap p h (v % 4) (omega arith)))

  rdmap_set_opcode-control :
      rdmap_set_opcode (control len p) v ≡ control len (record p { opcode = v % 16 })
  unfolding rdmap_set_opcode rdmap_mask_opcode htons swap_bytes le_bytes from_le
  rdmap_set_opcode-control =
      ap (header len)
        (rw (drop_opcode p h, opcode_value v l) (fill_opcode p h (v % 16) (omega arith)))

  -- On a header whose control field has given parts, each getter gives its part, and each setter,
  -- for a byte, changes its part only: to the byte's low two bits for a version, and its low four
  -- for the operation. The length stays.
  pub accessors_lem :
      (ddp_version (control len p) ≡ p.ddp)
      × (rdmap_version (control len p) ≡ p.rdmap)
      × (rdma_opcode (control len p) ≡ p.opcode)
      × (ddp_set_version (control len p) v ≡ control len (record p { ddp = v % 4 }))
      × (rdmap_set_version (control len p) v ≡ control len (record p { rdmap = v % 4 }))
      × (rdmap_set_opcode (control len p) v ≡ control len (record p { opcode = v % 16 }))
  accessors_lem = (
    ddp_version-control p h len,
    rdmap_version-control p h len,
    rdma_opcode-control p h len,
    ddp_set_version-control,
    rdmap_set_version-control,
    rdmap_set_opcode-control,
  )
