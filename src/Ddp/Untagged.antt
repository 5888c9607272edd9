-- ===== src/Ddp/Untagged.antt =====
-- An untagged message through `ddp_recv` (suiw/ddp/ddp.cpp): header, check, buffer, payload.
use Prim.Native.Nat.{bit_and}
use mathlib.Core.List.{flatten}
use soft_ui_warp.Prelude.{
  ℕ, ◌+◌, ◌%◌, ◌^◌, ◌≤◌, ◌<◌, ◌≡◌, refl, ap, ◌∙◌, true, Option, some, List, [], ◌∷◌, ◌++◌, arith,
  ◌==◌, ℤ, pos, pos--ℤ, length,
}
use soft_ui_warp.Wire.{le_bytes, from_le, htons, htonl}
use soft_ui_warp.Memory.{update}
use soft_ui_warp.Queue.{ConcurrentQueue}
use soft_ui_warp.Tcp.{Tcp, IsReliable}
use soft_ui_warp.Mpa.{Packet, MpaRecv, new_packet, mpa_recv}
use soft_ui_warp.Ddp.{
  ddp_hdr_t, UntaggedBuffer, UntaggedMeta, Context, untagged_bytes, ddp_check_untagged_hdr,
  ddp_flag_last,
}
use soft_ui_warp.Ddp.Send.{mulpdu, advance_mo}
use soft_ui_warp.Ddp.Recv.{
  World, Received, segment_loop, recv_segments, recv_untagged, ddp_recv, Outcome,
}
use soft_ui_warp.Ddp.Message.{
  untagged, untag_buf, as_untagged, DdpMessage, decode_untagged, untagged_format, PackedHdr,
}
use soft_ui_warp.Ddp.Segments.{Fit, flags, wire, deposit}
use soft_ui_warp.Ddp.FirstReads.{first_header}
use soft_ui_warp.Ddp.Reassembly.{segment_loop_lem}
use soft_ui_warp.Ddp.UntaggedHeader.{
  InUntaggedFields, untagged_host_order, length-untagged_bytes, untagged_bits, untagged-IsCodec,
  decode_untagged-untagged_bytes,
}

-- The context when a buffer has been taken from a queue.
abbrev pub taken : (cq : ConcurrentQueue) → Context cq → ℕ → cq.Q UntaggedBuffer → Context cq
taken cq ctx qn q' = record ctx {
  queues = update ctx.queues qn (record (ctx.queues qn) { q = q' });
}

-- The place of a header's offset in a buffer.
abbrev pub in_buffer : UntaggedBuffer → UntaggedMeta → ℕ
in_buffer b h = (b.buf_addr + htonl h.mo) % 2 ^ 64

module _ (cq : ConcurrentQueue) (tcp : Tcp) (fuel segs : ℕ) where
  recv_untagged-step :
      (w : World cq tcp) (msg : DdpMessage) (p : Packet) (g : MpaRecv tcp) (b : UntaggedBuffer)
      (n k qn : ℕ) (m : UntaggedMeta) (q' : cq.Q UntaggedBuffer) (t : Received tcp)
      → p.ulpdu_len ≡ 18 + n
      → mpa_recv tcp fuel w.sock p (pos 17) ≡ some g
      → g.ret ≡ pos k
      → decode_untagged g.image ≡ m
      → ddp_check_untagged_hdr cq w.ctx m ≡ some qn
      → cq.try_dequeue UntaggedBuffer (w.ctx.queues qn).q ≡ (some b, q')
      → segment_loop tcp fuel
          (untagged_format b)
          segs
          g.sock
          w.mem
          g.packet
          (record { bits = msg.bits; offset = m.mo })
          (pos n)
          (pos 0)
        ≡ some t
      → t.ret ≡ pos 0
      → recv_untagged cq tcp fuel segs w msg p
        ≡ some (
          pos 0,
          record msg {
            metadata = untagged (record m { mo = 0 });
            buf = untag_buf b;
            len = t.total;
          },
          record w { ctx = taken cq w.ctx qn q'; sock = t.sock; mem = t.mem },
        )
  unfolding recv_untagged recv_segments as_untagged
  recv_untagged-step w msg p g b n k qn m q' t u q ok d c took run ok' =
      ground (arith, u, q, ok, d, c, took, run, ok', pos--ℤ (18 + n) 18 (omega arith))

-- A receiver that is about to read an untagged message `c ∷ cs`: its check passes for a queue with a
-- buffer, and there is fuel.
pub record CanReceiveUntagged (cq : ConcurrentQueue) {tcp : Tcp} (net : IsReliable tcp)
    (fuel segs : ℕ) (w : World cq tcp) (h : UntaggedMeta) (cs : List (List ℕ)) (b : UntaggedBuffer)
    (q' : cq.Q UntaggedBuffer) (rest : List ℕ) : Type 0 where
  pub arrived : net.pending w.sock ≡ wire untagged_bytes advance_mo true untagged_bits h cs ++ rest
  pub fields : InUntaggedFields h
  pub checked : ddp_check_untagged_hdr cq w.ctx (untagged_host_order h) ≡ some (htonl h.qn)
  pub posted : cq.try_dequeue UntaggedBuffer (w.ctx.queues (htonl h.qn)).q ≡ (some b, q')
  pub fit : Fit cs
  pub enough_fuel : mulpdu + 18 < fuel
  pub enough_segs : length cs ≤ segs

module _ (cq : ConcurrentQueue) {tcp : Tcp} (net : IsReliable tcp) (fuel segs : ℕ)
    (w : World cq tcp) (msg : DdpMessage) (h : UntaggedMeta) (b : UntaggedBuffer)
    (q' : cq.Q UntaggedBuffer) (rest : List ℕ) where
  open net use {pending}

  -- What `ddp_recv` leaves when it has received the segments `cs` behind the header `h` into the
  -- buffer `b`.
  abbrev pub DeliversUntagged : List (List ℕ) → Option (ℤ × DdpMessage × World cq tcp) → Type 0
  DeliversUntagged cs out =
      (msg' : DdpMessage) × (s' : tcp.State) × (out
        ≡ some (
          pos 0,
          msg',
          record w {
            ctx = taken cq w.ctx (htonl h.qn) q';
            sock = s';
            mem = deposit untagged_bytes advance_mo (in_buffer b) w.mem h cs;
          },
        ))
      × ((bit_and ddp_hdr_t msg'.bits == 0) ≡ true)
      × (msg'.metadata ≡ untagged (record (untagged_host_order h) { mo = 0 }))
      × (msg'.buf ≡ untag_buf b)
      × (msg'.len ≡ pos (length (flatten cs)))
      × (pending s' ≡ rest)

  untagged_flags :
      (cs : List (List ℕ))
      → (le_bytes 1 (flags true untagged_bits cs) ≡ flags true untagged_bits cs ∷ [])
        × ((bit_and (flags true untagged_bits cs) ddp_hdr_t == 0) ≡ true)
        × ((bit_and ddp_hdr_t (flags true untagged_bits cs) == 0) ≡ true)
  unfolding flags le_bytes ddp_flag_last htons from_le
  untagged_flags [] = (refl, refl, refl)
  untagged_flags (c ∷ cs) = (refl, refl, refl)

  ddp_recv-untagged_step :
      (r : MpaRecv tcp) (k : ℕ)
      → mpa_recv tcp fuel w.sock new_packet (pos 1) ≡ some r
      → r.ret ≡ pos 3
      → r.image ≡ k ∷ []
      → (bit_and k ddp_hdr_t == 0) ≡ true
      → ddp_recv cq tcp fuel segs w msg
        ≡ recv_untagged cq tcp fuel segs
            (record w { sock = r.sock })
            (record msg { bits = k })
            r.packet
  unfolding ddp_recv
  ddp_recv-untagged_step r k q ok e t = ground arith

  -- An untagged message is received whole into the oldest buffer of its queue: the call gives 0, the
  -- message is untagged and names the header and the buffer, its length is that of the payload, the
  -- buffer is taken from the queue, and the stream stands behind the message. Each segment is stored
  -- at the place that its header's offset has in network order, and nothing else of the memory
  -- changes. The header must fit its fields and pass the check, and the fuel cover a segment and the
  -- segments.
  pub ddp_recv_untagged :
      (c : List ℕ) (cs : List (List ℕ))
      → CanReceiveUntagged cq net fuel segs w h (c ∷ cs) b q' rest
      → DeliversUntagged (c ∷ cs) (ddp_recv cq tcp fuel segs w msg)
  unfolding untagged_format
  ddp_recv_untagged c cs can =
      let k = flags true untagged_bits cs in
      let n = 18 + length c in
      let p = record new_packet { ulpdu_len = n; bytes_rcvd = pos 3 } in
      let (s₁, s₂, q₁, q₂, left) =
        first_header net untagged_bytes advance_mo untagged_bits 17 length-untagged_bytes
          (omega arith) fuel w.sock h c cs rest can.arrived can.fit.0 can.fit.1 can.enough_fuel in
      let (byte, is_untagged, in_message) = untagged_flags cs in
      let r : MpaRecv tcp = record { ret = pos 3; packet = p; image = le_bytes 1 k; sock = s₁ } in
      let g : MpaRecv tcp = record {
        ret = pos 20;
        packet = record p { bytes_rcvd = pos 20 };
        image = untagged_bytes h;
        sock = s₂;
      } in
      let hdr : PackedHdr = record { bits = k; offset = htonl h.mo } in
      let (t, run, ok, total, dep, end) =
        segment_loop_lem net fuel (untagged-IsCodec b) segs s₂ w.mem g.packet hdr h c cs rest 0
          (
            (refl, unfold untagged_format in refl, omega arith, left),
            refl,
            refl,
            can.fields.mo_fits,
          )
          can.fit can.enough_fuel (omega (arith, can.enough_segs)) in
      (
        _,
        t.sock,
        ddp_recv-untagged_step r k q₁ refl byte is_untagged
            ∙ recv_untagged-step cq tcp fuel segs (record w { sock = s₁ }) (record msg { bits = k })
                p g b (length c) 20 (htonl h.qn) (untagged_host_order h) q' t refl q₂ refl
                (decode_untagged-untagged_bytes h can.fields) can.checked can.posted run ok
            ∙ ap {B = Outcome cq tcp fuel segs}
                (λ m. some (
                  pos 0,
                  record msg {
                    bits = k;
                    metadata = untagged (record (untagged_host_order h) { mo = 0 });
                    buf = untag_buf b;
                    len = t.total;
                  },
                  record w { ctx = taken cq w.ctx (htonl h.qn) q'; sock = t.sock; mem = m },
                ))
                dep,
        in_message,
        refl,
        refl,
        total
            ∙ ap pos (
                let z : 0 + length (flatten (c ∷ cs)) ≡ length (flatten (c ∷ cs)) = omega arith in
                z),
        end,
      )
