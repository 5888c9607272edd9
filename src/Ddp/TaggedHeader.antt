-- ===== src/Ddp/TaggedHeader.antt =====
-- The headers of tagged messages (suiw/ddp/ddp.h, suiw/ddp/ddp.cpp): what they decode to, and where
-- the segments that they head are stored.
use mathlib.Core.List.{flatten}
use soft_ui_warp.Prelude.{
  ℕ, ◌+◌, ◌%◌, ◌^◌, ◌≤◌, ◌<◌, ◌≡◌, refl, sym, ap, ◌∙◌, List, [], ◌∷◌, append-nil, arith, length,
  length-append,
}
use soft_ui_warp.Wire.{le_bytes, from_le, htons, htonl, htonll}
use soft_ui_warp.Wire.Bytes.{from_le-le_bytes, htonll-lt, htonll_twice}
use soft_ui_warp.Memory.{Memory, poke, poke-append}
use soft_ui_warp.Ddp.{TaggedMeta, tagged_bytes, ddp_flag_last}
use soft_ui_warp.Ddp.Send.{advance_to}
use soft_ui_warp.Ddp.Message.{field_at, decode_tagged, tagged_format, is_last_segment}
use soft_ui_warp.Ddp.Segments.{Fit, flags, deposit}
use soft_ui_warp.Ddp.Codec.{IsCodec}

-- The integers of a header fit their fields.
pub record InFields (h : TaggedMeta) : Type 0 where
  pub rsvd_fits : h.rsvd_ulp1 < 2 ^ 8
  pub tag_fits : h.tag < 2 ^ 32
  pub to_fits : h.to < 2 ^ 64

-- The header in the machine's byte order.
abbrev pub host_order : TaggedMeta → TaggedMeta
host_order h = record { rsvd_ulp1 = h.rsvd_ulp1; tag = htonl h.tag; to = htonll h.to }

pub length-tagged_bytes : (h : TaggedMeta) → length (tagged_bytes h) ≡ 13
unfolding tagged_bytes le_bytes
length-tagged_bytes h = refl

-- `DDP_HDR_T` and version 1.
abbrev pub tagged_bits : ℕ
tagged_bits = 0x81

pub tagged-IsCodec :
    IsCodec tagged_format tagged_bytes advance_to
      (λ h. htonll h.to)
      (λ h. h.to < 2 ^ 64)
      tagged_bits
unfolding tagged_format tagged_bytes advance_to field_at le_bytes flags ddp_flag_last htons from_le
    is_last_segment
tagged-IsCodec = record {
  size = λ h. refl;
  small = omega arith;
  advance-IsGood = λ n h g. htonll-lt ((htonll h.to + n) % 2 ^ 64);
  reads_bits = λ k h left l. omega arith;
  reads_offset = λ k h left g. ap htonll (from_le-le_bytes 8 h.to g);
  plain = (omega arith, refl);
  marked = (omega arith, refl);
}

-- A tagged header whose integers fit their fields is decoded to what was encoded, in the machine's
-- order.
pub decode_tagged-tagged_bytes :
    (h : TaggedMeta) → InFields h → decode_tagged (tagged_bytes h) ≡ host_order h
unfolding decode_tagged tagged_bytes field_at le_bytes
decode_tagged-tagged_bytes h f = ground (
  arith,
  from_le-le_bytes 1 h.rsvd_ulp1 f.rsvd_fits,
  from_le-le_bytes 4 h.tag f.tag_fits,
  from_le-le_bytes 8 h.to f.to_fits,
)

-- Segments that follow one another in the address space are one store.
pub deposit-poke :
    (mem : Memory) (h : TaggedMeta) (cs : List (List ℕ))
    → h.to < 2 ^ 64
    → Fit cs
    → htonll h.to + length (flatten cs) ≤ 2 ^ 64
    → deposit tagged_bytes advance_to (λ k. htonll k.to) mem h cs
      ≡ poke mem (htonll h.to) (flatten cs)
unfolding deposit flatten
deposit-poke mem h [] g fit room = unfold poke in refl
deposit-poke mem h (c ∷ []) g fit room = ap (poke mem (htonll h.to)) (sym (append-nil c))
deposit-poke mem h (c ∷ d ∷ ds) g fit room =
    let h' = advance_to (length c) h in
    let l : length (flatten (c ∷ d ∷ ds)) ≡ length c + length (flatten (d ∷ ds)) =
      length-append c (flatten (d ∷ ds)) in
    let l' : length (flatten (d ∷ ds)) ≡ length d + length (flatten ds) =
      length-append d (flatten ds) in
    let e : htonll h'.to ≡ htonll h.to + length c =
      unfold advance_to in
      htonll_twice ((htonll h.to + length c) % 2 ^ 64) (omega arith)
      ∙ (let z : (htonll h.to + length c) % 2 ^ 64 ≡ htonll h.to + length c = omega arith in z) in
    deposit-poke (poke mem (htonll h.to) c) h' (d ∷ ds)
      (unfold advance_to in htonll-lt ((htonll h.to + length c) % 2 ^ 64)) fit.2 (omega arith)
    ∙ ap (λ a. poke (poke mem (htonll h.to) c) a (flatten (d ∷ ds))) e
    ∙ sym (poke-append mem (htonll h.to) c (flatten (d ∷ ds)))
