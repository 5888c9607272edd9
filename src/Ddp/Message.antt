-- ===== src/Ddp/Message.antt =====
-- Messages and their headers as `ddp_recv` (suiw/ddp/ddp.cpp, suiw/ddp/ddp.h) reads them.
use Prim.Native.Nat.{bit_and}
use soft_ui_warp.Prelude.{
  ℕ, ◌+◌, ◌*◌, ◌%◌, ◌^◌, Bool, not, List, ◌++◌, ◌==◌, ℤ, take, drop, replicate,
}
use soft_ui_warp.Wire.{le_bytes, from_le, htonl, htonll}
use soft_ui_warp.Ddp.{
  UntaggedBuffer, TaggedBuffer, TaggedMeta, UntaggedMeta, ddp_ctrl_size, ddp_tagged_hdr_size,
  ddp_untagged_hdr_size, ddp_flag_last,
}

-- The unions of `struct ddp_message`.
pub data Meta : Type 0 where
  tagged : TaggedMeta → Meta
  untagged : UntaggedMeta → Meta

pub data Buffer : Type 0 where
  untag_buf : UntaggedBuffer → Buffer
  tag_buf : TaggedBuffer → Buffer

-- `struct ddp_message`.
pub record DdpMessage : Type 0 where
  pub bits : ℕ
  pub metadata : Meta
  pub buf : Buffer
  pub len : ℤ

-- The second union read as an untagged buffer: a tagged one shows its tag and protection domain as
-- the address, and its address as the length.
unfoldable pub as_untagged : Buffer → UntaggedBuffer
as_untagged (untag_buf b) = b
as_untagged (tag_buf b) = record {
  buf_addr = b.stag.tag + 2 ^ 32 * b.stag.pd_id;
  len = b.buf_addr % 2 ^ 32;
  next = b.len;
}

-- n bytes of a header from offset i, as an integer.
unfoldable pub field_at : ℕ → ℕ → List ℕ → ℕ
field_at i n bytes = from_le (take n (drop i bytes))

-- The headers behind the control byte, swapped to the machine's order as the code swaps them.
unfoldable pub decode_tagged : List ℕ → TaggedMeta
unfolding field_at
decode_tagged bs = record {
  rsvd_ulp1 = field_at 0 1 bs;
  tag = htonl (field_at 1 4 bs);
  to = htonll (field_at 5 8 bs);
}

unfoldable pub decode_untagged : List ℕ → UntaggedMeta
unfolding field_at
decode_untagged bs = record {
  rsvd_ulp1 = field_at 0 1 bs;
  rsvd_ulp2 = field_at 1 4 bs;
  qn = htonl (field_at 5 4 bs);
  msn = htonl (field_at 9 4 bs);
  mo = htonl (field_at 13 4 bs);
}

-- What the loop reads of `packed_hdr`: the flags, and the offset, swapped in place.
pub record PackedHdr : Type 0 where
  pub bits : ℕ
  pub offset : ℕ

-- A kind of header of later segments: its length, `packed_hdr` in memory, the offset read from it,
-- and the address that an offset stands for.
pub record Format : Type 0 where
  pub hdr_size : ℕ
  pub bytes : PackedHdr → List ℕ
  pub offset_of : List ℕ → ℕ
  pub place : ℕ → ℕ

-- The fields between are never read.
unfoldable pub tagged_format : Format
unfolding field_at
tagged_format = record {
  hdr_size = ddp_ctrl_size + ddp_tagged_hdr_size;
  bytes = λ h. le_bytes 1 h.bits ++ (replicate 5 0 ++ le_bytes 8 h.offset);
  offset_of = λ bs. htonll (field_at 6 8 bs);
  place = λ to. to;
}

unfoldable pub untagged_format : UntaggedBuffer → Format
unfolding field_at
untagged_format b = record {
  hdr_size = ddp_ctrl_size + ddp_untagged_hdr_size;
  bytes = λ h. le_bytes 1 h.bits ++ (replicate 13 0 ++ le_bytes 4 h.offset);
  offset_of = λ bs. htonl (field_at 14 4 bs);
  place = λ mo. (b.buf_addr + mo) % 2 ^ 64;
}

-- The test of `DDP_FLAG_LAST`.
unfoldable pub is_last_segment : ℕ → Bool
unfolding ddp_flag_last
is_last_segment bits = not (bit_and bits ddp_flag_last == 0)
