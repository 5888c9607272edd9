-- ===== src/Wire/Control.antt =====
-- The control fields of the iWARP headers and the fields of a terminate message, by their bits
-- (common/common.h), on a little-endian machine. `__cpu_to_be16` and `__be16_to_cpu` are `htons`
-- there, and those of 32 bits `htonl`.
pub mod Accessors
pub mod Layout
pub mod Terminate
use Prim.Native.Nat.{bit_and, bit_or}
use soft_ui_warp.Prelude.{ℕ, ◌-◌, ◌*◌, ◌/◌, ◌%◌, ◌^◌}
use soft_ui_warp.Wire.{htons, htonl}

-- `struct iwarp_ctrl`.
pub record IwarpCtrl : Type 0 where
  pub mpa_len : ℕ
  pub ddp_rdmap_ctrl : ℕ

-- `DDP_MASK_VERSION`, `RDMAP_MASK_VERSION` and `RDMAP_MASK_OPCODE`.
unfoldable pub ddp_mask_version : ℕ
unfolding htons
ddp_mask_version = htons 0x0300

unfoldable pub rdmap_mask_version : ℕ
unfolding htons
rdmap_mask_version = htons 0x00c0

unfoldable pub rdmap_mask_opcode : ℕ
unfolding htons
rdmap_mask_opcode = htons 0x000f

-- `~m`, within the 16 bits of the field.
abbrev pub bit_not16 : ℕ → ℕ
bit_not16 m = 2 ^ 16 - 1 - m

-- `__ddp_version`.
unfoldable pub ddp_version : IwarpCtrl → ℕ
unfolding htons ddp_mask_version
ddp_version ctrl = htons (bit_and ctrl.ddp_rdmap_ctrl ddp_mask_version) / 2 ^ 8 % 2 ^ 8

-- `__ddp_set_version`; `version` is a `__u8`.
unfoldable pub ddp_set_version : IwarpCtrl → ℕ → IwarpCtrl
unfolding htons ddp_mask_version
ddp_set_version ctrl version = record ctrl {
  ddp_rdmap_ctrl =
      bit_or (bit_and ctrl.ddp_rdmap_ctrl (bit_not16 ddp_mask_version))
        (bit_and (htons (version * 2 ^ 8 % 2 ^ 16)) ddp_mask_version);
}

-- `__rdmap_version`.
unfoldable pub rdmap_version : IwarpCtrl → ℕ
unfolding htons rdmap_mask_version
rdmap_version ctrl =
    let ver = bit_and ctrl.ddp_rdmap_ctrl rdmap_mask_version in htons ver / 2 ^ 6 % 2 ^ 8

-- `__rdmap_set_version`.
unfoldable pub rdmap_set_version : IwarpCtrl → ℕ → IwarpCtrl
unfolding htons rdmap_mask_version
rdmap_set_version ctrl version = record ctrl {
  ddp_rdmap_ctrl =
      bit_or (bit_and ctrl.ddp_rdmap_ctrl (bit_not16 rdmap_mask_version))
        (bit_and (htons (version * 2 ^ 6 % 2 ^ 16)) rdmap_mask_version);
}

-- `__rdma_opcode`.
unfoldable pub rdma_opcode : IwarpCtrl → ℕ
unfolding htons rdmap_mask_opcode
rdma_opcode ctrl = htons (bit_and ctrl.ddp_rdmap_ctrl rdmap_mask_opcode) % 2 ^ 8

-- `__rdmap_set_opcode`.
unfoldable pub rdmap_set_opcode : IwarpCtrl → ℕ → IwarpCtrl
unfolding htons rdmap_mask_opcode
rdmap_set_opcode ctrl opcode = record ctrl {
  ddp_rdmap_ctrl =
      bit_or (bit_and ctrl.ddp_rdmap_ctrl (bit_not16 rdmap_mask_opcode))
        (bit_and (htons opcode) rdmap_mask_opcode);
}

-- `struct iwarp_terminate`.
pub record IwarpTerminate : Type 0 where
  pub ctrl : IwarpCtrl
  pub rsvd : ℕ
  pub ddp_qn : ℕ
  pub ddp_msn : ℕ
  pub ddp_mo : ℕ
  pub term_ctrl : ℕ

-- `RDMAP_TERM_MASK_LAYER`, `RDMAP_TERM_MASK_ETYPE` and `RDMAP_TERM_MASK_ECODE`.
unfoldable pub rdmap_term_mask_layer : ℕ
unfolding htonl
rdmap_term_mask_layer = htonl 0xf0000000

unfoldable pub rdmap_term_mask_etype : ℕ
unfolding htonl
rdmap_term_mask_etype = htonl 0x0f000000

unfoldable pub rdmap_term_mask_ecode : ℕ
unfolding htonl
rdmap_term_mask_ecode = htonl 0x00ff0000

-- `__rdmap_term_layer`, `__rdmap_term_etype` and `__rdmap_term_ecode`.
unfoldable pub rdmap_term_layer : IwarpTerminate → ℕ
unfolding htonl rdmap_term_mask_layer
rdmap_term_layer t = htonl (bit_and t.term_ctrl rdmap_term_mask_layer) / 2 ^ 28 % 2 ^ 8

unfoldable pub rdmap_term_etype : IwarpTerminate → ℕ
unfolding htonl rdmap_term_mask_etype
rdmap_term_etype t = htonl (bit_and t.term_ctrl rdmap_term_mask_etype) / 2 ^ 24 % 2 ^ 8

unfoldable pub rdmap_term_ecode : IwarpTerminate → ℕ
unfolding htonl rdmap_term_mask_ecode
rdmap_term_ecode t = htonl (bit_and t.term_ctrl rdmap_term_mask_ecode) / 2 ^ 20 % 2 ^ 8
