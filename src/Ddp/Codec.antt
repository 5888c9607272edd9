-- ===== src/Ddp/Codec.antt =====
-- The headers of later segments (suiw/ddp/ddp.cpp): what the receive loop needs of a kind of header,
-- and its rounds, the last one and another.
use soft_ui_warp.Prelude.{
  ℕ, suc, ◌+◌, ◌≤◌, ◌<◌, ◌≡◌, true, false, some, List, [], ◌++◌, arith, ℤ, pos, ◌+ℤ◌, ◌-ℤ◌, length,
  take, overwrite,
}
use soft_ui_warp.Wire.{le_bytes, from_le}
use soft_ui_warp.Memory.{Memory, poke}
use soft_ui_warp.Tcp.{Tcp}
use soft_ui_warp.Mpa.{Packet, MpaRecv, mpa_recv}
use soft_ui_warp.Ddp.Recv.{segment_loop}
use soft_ui_warp.Ddp.Message.{Format, PackedHdr, is_last_segment}
use soft_ui_warp.Ddp.Segments.{flags}

-- A header's bytes are read back as the format reads them, and the flags `b` of a message tell its
-- last segment.
pub record IsCodec (fmt : Format) {H : Type 0} (bytes : H → List ℕ) (advance : ℕ → H → H)
    (offset : H → ℕ) (IsGood : H → Type 0) (b : ℕ) : Type 0 where
  pub size : (h : H) → 1 + length (bytes h) ≡ fmt.hdr_size
  pub small : fmt.hdr_size ≤ 18
  pub advance-IsGood : (n : ℕ) (h : H) → IsGood h → IsGood (advance n h)
  pub reads_bits :
      (k : ℕ) (h : H) (left : List ℕ)
      → k < 256
      → from_le (take 1 (le_bytes 1 k ++ bytes h ++ left)) ≡ k
  pub reads_offset :
      (k : ℕ) (h : H) (left : List ℕ)
      → IsGood h
      → fmt.offset_of (le_bytes 1 k ++ bytes h ++ left) ≡ offset h
  pub plain : (b < 256) × (is_last_segment b ≡ false)
  pub marked : (flags true b [] < 256) × (is_last_segment (flags true b []) ≡ true)

-- The two ways through a round that reads well.
module _ (tcp : Tcp) (fuel : ℕ) (fmt : Format) where
  pub segment_loop-last :
      (segs : ℕ) (s : tcp.State) (mem : Memory) (p : Packet) (hdr : PackedHdr)
      (payload_len total : ℤ) (r : MpaRecv tcp) (k : ℕ)
      → mpa_recv tcp fuel s p payload_len ≡ some r
      → r.ret ≡ pos k
      → is_last_segment hdr.bits ≡ true
      → segment_loop tcp fuel fmt (suc segs) s mem p hdr payload_len total
        ≡ some (record {
          ret = pos 0;
          total = total +ℤ payload_len;
          mem = poke mem (fmt.place hdr.offset) r.image;
          sock = r.sock;
        })
  unfolding segment_loop
  segment_loop-last segs s mem p hdr payload_len total r k q ok last = ground arith

  pub segment_loop-next :
      (segs : ℕ) (s : tcp.State) (mem : Memory) (p : Packet) (hdr : PackedHdr)
      (payload_len total : ℤ) (r g : MpaRecv tcp) (k j : ℕ)
      → mpa_recv tcp fuel s p payload_len ≡ some r
      → r.ret ≡ pos k
      → is_last_segment hdr.bits ≡ false
      → mpa_recv tcp fuel r.sock (record r.packet { bytes_rcvd = pos 0 }) (pos fmt.hdr_size)
        ≡ some g
      → g.ret ≡ pos j
      → let raw = overwrite (fmt.bytes hdr) 0 g.image in
        segment_loop tcp fuel fmt (suc segs) s mem p hdr payload_len total
        ≡ segment_loop tcp fuel fmt segs g.sock
            (poke mem (fmt.place hdr.offset) r.image)
            g.packet
            (record { bits = from_le (take 1 raw); offset = fmt.offset_of raw })
            (pos g.packet.ulpdu_len -ℤ pos fmt.hdr_size)
            (total +ℤ payload_len)
  unfolding segment_loop
  segment_loop-next segs s mem p hdr payload_len total r g k j q ok more q' ok' = ground arith
