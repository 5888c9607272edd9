-- ===== src/Ddp/UntaggedHeader.antt =====
-- The headers of untagged messages (suiw/ddp/ddp.h, suiw/ddp/ddp.cpp): what they decode to, and how
-- the receive loop reads those of later segments.
use soft_ui_warp.Prelude.{ℕ, ◌^◌, ◌<◌, ◌≡◌, refl, ap, arith, length}
use soft_ui_warp.Wire.{le_bytes, from_le, htons, htonl}
use soft_ui_warp.Wire.Bytes.{from_le-le_bytes}
use soft_ui_warp.Ddp.{UntaggedBuffer, UntaggedMeta, untagged_bytes, ddp_flag_last}
use soft_ui_warp.Ddp.Send.{advance_mo}
use soft_ui_warp.Ddp.Message.{field_at, decode_untagged, untagged_format, is_last_segment}
use soft_ui_warp.Ddp.Segments.{flags}
use soft_ui_warp.Ddp.Codec.{IsCodec}

-- The integers of a header fit their fields.
pub record InUntaggedFields (h : UntaggedMeta) : Type 0 where
  pub rsvd1_fits : h.rsvd_ulp1 < 2 ^ 8
  pub rsvd2_fits : h.rsvd_ulp2 < 2 ^ 32
  pub qn_fits : h.qn < 2 ^ 32
  pub msn_fits : h.msn < 2 ^ 32
  pub mo_fits : h.mo < 2 ^ 32

-- The header in the machine's byte order, but for `rsvdULP2`, which the code does not swap.
abbrev pub untagged_host_order : UntaggedMeta → UntaggedMeta
untagged_host_order h = record h { qn = htonl h.qn; msn = htonl h.msn; mo = htonl h.mo }

pub length-untagged_bytes : (h : UntaggedMeta) → length (untagged_bytes h) ≡ 17
unfolding untagged_bytes le_bytes
length-untagged_bytes h = refl

-- Version 1.
abbrev pub untagged_bits : ℕ
untagged_bits = 1

pub untagged-IsCodec :
    (b : UntaggedBuffer)
    → IsCodec
        (untagged_format b)
        untagged_bytes
        advance_mo
        (λ h. htonl h.mo)
        (λ h. h.mo < 2 ^ 32)
        untagged_bits
unfolding untagged_format untagged_bytes advance_mo field_at le_bytes flags ddp_flag_last htons
    from_le is_last_segment
untagged-IsCodec b = record {
  size = λ h. refl;
  small = omega arith;
  advance-IsGood = λ n h g. omega arith;
  reads_bits = λ k h left l. omega arith;
  reads_offset = λ k h left g. ap htonl (from_le-le_bytes 4 h.mo g);
  plain = (omega arith, refl);
  marked = (omega arith, refl);
}

-- An untagged header whose integers fit their fields is decoded to what was encoded, in the
-- machine's order.
pub decode_untagged-untagged_bytes :
    (h : UntaggedMeta)
    → InUntaggedFields h
    → decode_untagged (untagged_bytes h) ≡ untagged_host_order h
unfolding decode_untagged untagged_bytes field_at le_bytes
decode_untagged-untagged_bytes h f = ground (
  arith,
  from_le-le_bytes 1 h.rsvd_ulp1 f.rsvd1_fits,
  from_le-le_bytes 4 h.rsvd_ulp2 f.rsvd2_fits,
  from_le-le_bytes 4 h.qn f.qn_fits,
  from_le-le_bytes 4 h.msn f.msn_fits,
  from_le-le_bytes 4 h.mo f.mo_fits,
)
