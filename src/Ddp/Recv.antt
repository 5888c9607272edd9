-- ===== src/Ddp/Recv.antt =====
-- `ddp_recv` (suiw/ddp/ddp.cpp): one message, segment after segment, into the buffer that its header
-- names.
use Prim.Native.Nat.{bit_and}
use soft_ui_warp.Prelude.{
  ℕ, zero, suc, ◌+◌, true, false, Option, none, some, [], ◌∷◌, ◌==◌, if◌then◌else◌, ℤ, pos, negsuc,
  ◌+ℤ◌, ◌-ℤ◌, ltb_ℤ, take, overwrite,
}
use soft_ui_warp.Wire.{from_le}
use soft_ui_warp.Memory.{Memory, poke, update}
use soft_ui_warp.Queue.{ConcurrentQueue}
use soft_ui_warp.Tcp.{Tcp}
use soft_ui_warp.Mpa.{Packet, new_packet, mpa_recv}
use soft_ui_warp.Ddp.{
  UntaggedBuffer, Context, ddp_ctrl_size, ddp_tagged_hdr_size, ddp_untagged_hdr_size, ddp_hdr_t,
  ddp_check_stag, ddp_check_untagged_hdr,
}
use soft_ui_warp.Ddp.Message.{
  Meta, tagged, untagged, Buffer, untag_buf, tag_buf, DdpMessage, as_untagged, decode_tagged,
  decode_untagged, PackedHdr, Format, tagged_format, untagged_format, is_last_segment,
}

-- The socket and the memory after a loop, and the loop's result: -1, or 0 with the length.
pub record Received (tcp : Tcp) : Type 0 where
  pub ret : ℤ
  pub total : ℤ
  pub mem : Memory
  pub sock : tcp.State

module _ (tcp : Tcp) (fuel : ℕ) (fmt : Format) where
  -- `while (true)`: a payload to its place, then, but for the last segment, the next header. The
  -- first argument bounds the segments. The total is an `int` in the code; it has no bound here, so
  -- that a message of 2^31 bytes, whose overflow C leaves undefined, is not modelled.
  unfoldable pub segment_loop :
      ℕ → tcp.State → Memory → Packet → PackedHdr → ℤ → ℤ → Option (Received tcp)
  segment_loop zero s mem p hdr payload_len total = none
  segment_loop (suc segs) s mem p hdr payload_len total = elim (mpa_recv tcp fuel s p payload_len) [
    | none ↦ none
    | some r ↦
        let mem' = poke mem (fmt.place hdr.offset) r.image in
        let total' = total +ℤ payload_len in
        let stop : Received tcp = record {
          ret = negsuc 0;
          total = total';
          mem = mem';
          sock = r.sock;
        } in
        elim (ltb_ℤ r.ret (pos 0)) [
          | true ↦ some stop
          | false ↦ elim (is_last_segment hdr.bits) [
            | true ↦ some (record stop { ret = pos 0 })
            | false ↦
                elim (mpa_recv tcp fuel r.sock (record r.packet { bytes_rcvd = pos 0 })
                  (pos fmt.hdr_size)) [
                    | none ↦ none
                    | some h ↦
                        let raw = overwrite (fmt.bytes hdr) 0 h.image in
                        let hdr' : PackedHdr = record {
                          bits = from_le (take 1 raw);
                          offset = fmt.offset_of raw;
                        } in
                        elim (ltb_ℤ h.ret (pos 0)) [
                          | true ↦ some (record stop { sock = h.sock })
                          | false ↦
                              segment_loop segs h.sock mem' h.packet hdr'
                                (pos h.packet.ulpdu_len -ℤ pos fmt.hdr_size) total'
                        ]
                  ]
          ]
        ]
  ]

-- What `ddp_recv` can change besides the message.
pub record World (cq : ConcurrentQueue) (tcp : Tcp) : Type 0 where
  pub ctx : Context cq
  pub sock : tcp.State
  pub mem : Memory

module _ (cq : ConcurrentQueue) (tcp : Tcp) (fuel segs : ℕ) where
  abbrev pub Outcome : Type 0
  Outcome = Option (ℤ × DdpMessage × World cq tcp)

  -- The payload, and the end of the call. A message of a kind that has a header in `fmt`.
  unfoldable pub recv_segments :
      World cq tcp → DdpMessage → Packet → Format → ℕ → ℤ → Meta → Outcome
  unfolding segment_loop
  recv_segments w msg p fmt offset payload_len metadata_after =
      let hdr : PackedHdr = record { bits = msg.bits; offset = offset } in
      elim (segment_loop tcp fuel fmt segs w.sock w.mem p hdr payload_len (pos 0)) [
        | none ↦ none
        | some t ↦
            let w' = record w { sock = t.sock; mem = t.mem } in
            if ltb_ℤ t.ret (pos 0)
            then some (negsuc 0, msg, w')
            else some (pos 0, record msg { metadata = metadata_after; len = t.total }, w')
      ]

  -- The branch of a tagged message.
  unfoldable pub recv_tagged : World cq tcp → DdpMessage → Packet → Outcome
  unfolding recv_segments decode_tagged tagged_format
  recv_tagged w msg p =
      let payload_len = pos p.ulpdu_len -ℤ pos (ddp_ctrl_size + ddp_tagged_hdr_size) in
      let header = mpa_recv tcp fuel w.sock p (pos ddp_tagged_hdr_size) in
      let rest : Outcome = elim header [
        | none ↦ none
        | some h ↦
            let w' = record w { sock = h.sock } in
            let m = decode_tagged h.image in
            let msg' = record msg { metadata = tagged m } in
            let body : Outcome = elim (ddp_check_stag cq w.ctx m) [
              | none ↦ some (negsuc 0, msg', w')
              | some b ↦
                  recv_segments w' (record msg' { buf = tag_buf b }) h.packet tagged_format m.to
                    payload_len (tagged m)
            ] in
            if ltb_ℤ h.ret (pos 0) then some (h.ret, msg, w') else body
      ] in
      if ltb_ℤ payload_len (pos 0) then some (negsuc 0, msg, w) else rest

  -- The branch of an untagged message. When its queue is empty the code logs that, and goes on with
  -- the buffer that the message held before.
  unfoldable pub recv_untagged : World cq tcp → DdpMessage → Packet → Outcome
  unfolding recv_segments decode_untagged untagged_format as_untagged
  recv_untagged w msg p =
      let payload_len = pos p.ulpdu_len -ℤ pos (ddp_ctrl_size + ddp_untagged_hdr_size) in
      let header = mpa_recv tcp fuel w.sock p (pos ddp_untagged_hdr_size) in
      let rest : Outcome = elim header [
        | none ↦ none
        | some h ↦
            let w' = record w { sock = h.sock } in
            let m = decode_untagged h.image in
            let msg' = record msg { metadata = untagged m } in
            let body : Outcome = elim (ddp_check_untagged_hdr cq w.ctx m) [
              | none ↦ some (negsuc 0, msg', w')
              | some qn ↦
                  let queue = w.ctx.queues qn in
                  let (found, q') = cq.try_dequeue UntaggedBuffer queue.q in
                  let buf : Buffer = elim found [ none ↦ msg.buf | some b ↦ untag_buf b ] in
                  let ctx' = record w.ctx {
                    queues = update w.ctx.queues qn (record queue { q = q' });
                  } in
                  recv_segments (record w' { ctx = ctx' }) (record msg' { buf = buf }) h.packet
                    (untagged_format (as_untagged buf)) m.mo payload_len
                    (untagged (record m { mo = 0 }))
            ] in
            if ltb_ℤ h.ret (pos 0) then some (h.ret, msg, w') else body
      ] in
      if ltb_ℤ payload_len (pos 0) then some (negsuc 0, msg, w) else rest

  -- `ddp_recv`: 0 and the message, or a negative result.
  unfoldable pub ddp_recv : World cq tcp → DdpMessage → Outcome
  unfolding recv_tagged recv_untagged
  ddp_recv w msg = elim (mpa_recv tcp fuel w.sock new_packet (pos ddp_ctrl_size)) [
    | none ↦ none
    | some r ↦
        let w' = record w { sock = r.sock } in
        let bits : ℕ = elim r.image [ [] ↦ msg.bits | b ∷ _ ↦ b ] in
        let msg' = record msg { bits = bits } in
        if ltb_ℤ r.ret (pos ddp_ctrl_size)
        then some (r.ret, msg', w')
        else if bit_and bits ddp_hdr_t == 0
        then recv_untagged w' msg' r.packet
        else recv_tagged w' msg' r.packet
  ]
