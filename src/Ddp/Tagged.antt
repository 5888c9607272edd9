-- ===== src/Ddp/Tagged.antt =====
-- A tagged message through `ddp_recv` (suiw/ddp/ddp.cpp): header, check, payload.
use mathlib.Core.List.{flatten}
use soft_ui_warp.Prelude.{
  ℕ, ◌+◌, ◌^◌, ◌≤◌, ◌<◌, ◌≡◌, refl, ap, ◌∙◌, true, false, Option, some, List, [], ◌∷◌, ◌++◌, arith,
  ◌==◌, ℤ, pos, pos--ℤ, length,
}
use soft_ui_warp.Wire.{le_bytes, from_le, htons, htonll}
use soft_ui_warp.Memory.{poke}
use soft_ui_warp.Queue.{ConcurrentQueue}
use soft_ui_warp.Tcp.{Tcp, IsReliable}
use soft_ui_warp.Mpa.{Packet, MpaRecv, new_packet, mpa_recv}
use Prim.Native.Nat.{bit_and}
use soft_ui_warp.Ddp.{
  ddp_hdr_t, TaggedMeta, TaggedBuffer, tagged_bytes, ddp_check_stag, ddp_flag_last,
}
use soft_ui_warp.Ddp.Send.{mulpdu, advance_to}
use soft_ui_warp.Ddp.Recv.{
  World, Received, segment_loop, recv_segments, recv_tagged, ddp_recv, Outcome,
}
use soft_ui_warp.Ddp.Message.{tagged, tag_buf, DdpMessage, decode_tagged, tagged_format, PackedHdr}
use soft_ui_warp.Ddp.Segments.{Fit, flags, wire}
use soft_ui_warp.Ddp.FirstReads.{first_header}
use soft_ui_warp.Ddp.Reassembly.{segment_loop_lem}
use soft_ui_warp.Ddp.TaggedHeader.{
  InFields, host_order, length-tagged_bytes, tagged_bits, tagged-IsCodec,
  decode_tagged-tagged_bytes, deposit-poke,
}

-- The two ways through the checks: what `recv_tagged` and `ddp_recv` come to when the reads go well.
module _ (cq : ConcurrentQueue) (tcp : Tcp) (fuel segs : ℕ) where
  recv_tagged-step :
      (w : World cq tcp) (msg : DdpMessage) (p : Packet) (g : MpaRecv tcp) (b : TaggedBuffer)
      (n k : ℕ) (m : TaggedMeta) (t : Received tcp)
      → p.ulpdu_len ≡ 14 + n
      → mpa_recv tcp fuel w.sock p (pos 13) ≡ some g
      → g.ret ≡ pos k
      → decode_tagged g.image ≡ m
      → ddp_check_stag cq w.ctx m ≡ some b
      → segment_loop tcp fuel tagged_format segs g.sock w.mem g.packet
          (record { bits = msg.bits; offset = m.to })
          (pos n)
          (pos 0)
        ≡ some t
      → t.ret ≡ pos 0
      → recv_tagged cq tcp fuel segs w msg p
        ≡ some (
          pos 0,
          record msg { metadata = tagged m; buf = tag_buf b; len = t.total },
          record w { sock = t.sock; mem = t.mem },
        )
  unfolding recv_tagged recv_segments
  recv_tagged-step w msg p g b n k m t u q ok d c run ok' =
      ground (arith, u, q, ok, d, c, run, ok', pos--ℤ (14 + n) 14 (omega arith))

-- A receiver that is about to read a tagged message `c ∷ cs`: it has a buffer under the tag whose
-- check the offset passes, room in the address space, and fuel.
pub record CanReceive (cq : ConcurrentQueue) {tcp : Tcp} (net : IsReliable tcp) (fuel segs : ℕ)
    (w : World cq tcp) (h : TaggedMeta) (cs : List (List ℕ)) (b : TaggedBuffer) (rest : List ℕ)
    : Type 0 where
  pub arrived : net.pending w.sock ≡ wire tagged_bytes advance_to true tagged_bits h cs ++ rest
  pub fields : InFields h
  pub checked : ddp_check_stag cq w.ctx (host_order h) ≡ some b
  pub fit : Fit cs
  pub room : htonll h.to + length (flatten cs) ≤ 2 ^ 64
  pub enough_fuel : mulpdu + 18 < fuel
  pub enough_segs : length cs ≤ segs

module _ (cq : ConcurrentQueue) {tcp : Tcp} (net : IsReliable tcp) (fuel segs : ℕ)
    (w : World cq tcp) (msg : DdpMessage) (h : TaggedMeta) (b : TaggedBuffer) (rest : List ℕ) where
  open net use {pending}

  -- What `ddp_recv` leaves when it has received the bytes `bs` for the header `h`.
  abbrev pub Delivers : List ℕ → Option (ℤ × DdpMessage × World cq tcp) → Type 0
  Delivers bs out =
      (msg' : DdpMessage) × (s' : tcp.State) × (out
        ≡ some (pos 0, msg', record w { sock = s'; mem = poke w.mem (htonll h.to) bs }))
      × ((bit_and ddp_hdr_t msg'.bits == 0) ≡ false)
      × (msg'.metadata ≡ tagged (host_order h))
      × (msg'.buf ≡ tag_buf b)
      × (msg'.len ≡ pos (length bs))
      × (pending s' ≡ rest)

  tagged_flags :
      (cs : List (List ℕ))
      → (le_bytes 1 (flags true tagged_bits cs) ≡ flags true tagged_bits cs ∷ [])
        × ((bit_and (flags true tagged_bits cs) ddp_hdr_t == 0) ≡ false)
        × ((bit_and ddp_hdr_t (flags true tagged_bits cs) == 0) ≡ false)
  unfolding flags le_bytes ddp_flag_last htons from_le
  tagged_flags [] = (refl, refl, refl)
  tagged_flags (c ∷ cs) = (refl, refl, refl)

  ddp_recv-step :
      (r : MpaRecv tcp) (k : ℕ)
      → mpa_recv tcp fuel w.sock new_packet (pos 1) ≡ some r
      → r.ret ≡ pos 3
      → r.image ≡ k ∷ []
      → (bit_and k ddp_hdr_t == 0) ≡ false
      → ddp_recv cq tcp fuel segs w msg
        ≡ recv_tagged cq tcp fuel segs
            (record w { sock = r.sock })
            (record msg { bits = k })
            r.packet
  unfolding ddp_recv
  ddp_recv-step r k q ok e t = ground arith

  -- A tagged message is received whole: the call gives 0, the message is tagged and names the tag, the offset and
  -- the registered buffer, its length is that of the payload, the payload is stored from the offset
  -- on and nothing else of the memory changes, and the stream stands behind the message.
  pub ddp_recv_tagged :
      (c : List ℕ) (cs : List (List ℕ))
      → CanReceive cq net fuel segs w h (c ∷ cs) b rest
      → Delivers (flatten (c ∷ cs)) (ddp_recv cq tcp fuel segs w msg)
  unfolding tagged_format
  ddp_recv_tagged c cs can =
      let k = flags true tagged_bits cs in
      let n = 14 + length c in
      let p = record new_packet { ulpdu_len = n; bytes_rcvd = pos 3 } in
      let (s₁, s₂, q₁, q₂, left) =
        first_header net tagged_bytes advance_to tagged_bits 13 length-tagged_bytes (omega arith)
          fuel w.sock h c cs rest can.arrived can.fit.0 can.fit.1 can.enough_fuel in
      let (byte, is_tagged, in_message) = tagged_flags cs in
      let r : MpaRecv tcp = record { ret = pos 3; packet = p; image = le_bytes 1 k; sock = s₁ } in
      let g : MpaRecv tcp = record {
        ret = pos 16;
        packet = record p { bytes_rcvd = pos 16 };
        image = tagged_bytes h;
        sock = s₂;
      } in
      let hdr : PackedHdr = record { bits = k; offset = htonll h.to } in
      let (t, run, ok, total, dep, end) =
        segment_loop_lem net fuel tagged-IsCodec segs s₂ w.mem g.packet hdr h c cs rest 0
          ((refl, unfold tagged_format in refl, omega arith, left), refl, refl, can.fields.to_fits)
          can.fit can.enough_fuel (omega (arith, can.enough_segs)) in
      (
        _,
        t.sock,
        ddp_recv-step r k q₁ refl byte is_tagged
            ∙ recv_tagged-step cq tcp fuel segs (record w { sock = s₁ }) (record msg { bits = k }) p
                g b (length c) 16 (host_order h) t refl q₂ refl
                (decode_tagged-tagged_bytes h can.fields) can.checked run ok
            ∙ ap {B = Outcome cq tcp fuel segs}
                (λ m. some (
                  pos 0,
                  record msg {
                    bits = k;
                    metadata = tagged (host_order h);
                    buf = tag_buf b;
                    len = t.total;
                  },
                  record w { sock = t.sock; mem = m },
                ))
                (dep
                  ∙ (unfold tagged_format in
                      deposit-poke w.mem h (c ∷ cs) can.fields.to_fits can.fit can.room)),
        in_message,
        refl,
        refl,
        total
            ∙ ap pos (
                let z : 0 + length (flatten (c ∷ cs)) ≡ length (flatten (c ∷ cs)) = omega arith in
                z),
        end,
      )
