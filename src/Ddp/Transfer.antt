-- ===== src/Ddp/Transfer.antt =====
-- A tagged message from sender to receiver (suiw/ddp/ddp.cpp): `ddp_send_tagged` on one machine,
-- `ddp_recv` on another.
use mathlib.Core.List.{flatten}
use soft_ui_warp.Prelude.{
  ℕ, ◌+◌, ◌^◌, ◌≤◌, ◌<◌, ◌≡◌, refl, sym, ap, subst, ◌∙◌, ◌≢◌, true, some, List, [], ◌∷◌, ◌++◌,
  arith, pos, length, append-cancel_left,
}
use soft_ui_warp.Wire.{le_bytes, htonll}
use soft_ui_warp.Memory.{Memory}
use soft_ui_warp.Queue.{ConcurrentQueue}
use soft_ui_warp.Tcp.{Tcp, IsOpen, IsReliable}
use soft_ui_warp.Ddp.{
  Sge, TaggedMeta, TaggedBuffer, UntaggedMeta, tagged_bytes, untagged_bytes, ddp_check_stag,
}
use soft_ui_warp.Ddp.Send.{
  mulpdu, Sending, advance_to, advance_mo, ddp_send_tagged, ddp_send_untagged,
}
use soft_ui_warp.Ddp.Recv.{World, ddp_recv}
use soft_ui_warp.Ddp.Message.{DdpMessage}
use soft_ui_warp.Ddp.Segments.{
  last_len, all_pieces_nonempty, wire, all_pieces, all_pieces-Fit, InRange, gathered,
  flatten-all_pieces,
}
use soft_ui_warp.Ddp.Emission.{send_sges_lem}
use soft_ui_warp.Ddp.TaggedHeader.{InFields, host_order, tagged_bits, length-tagged_bytes}
use soft_ui_warp.Ddp.Tagged.{CanReceive, Delivers, ddp_recv_tagged}

module _ {tcp : Tcp} (net : IsOpen tcp) (mem : Memory) (s : tcp.State) (sgs : List Sge) where
  open net use {sent}

  -- On a connection that takes what it is given, a tagged send of a gather list whose last entry
  -- is not empty gives 0 and puts the frames of the message on the wire, the last one marked.
  pub ddp_send_tagged_emits :
      (h : TaggedMeta)
      → 0 < last_len sgs
      → (s' : tcp.State) × (ddp_send_tagged tcp mem s h sgs ≡ some (pos 0, s'))
        × (sent s' ≡ sent s ++ wire tagged_bytes advance_to true tagged_bits h (all_pieces mem sgs))
  unfolding ddp_send_tagged
  ddp_send_tagged_emits h some_bytes =
      let v : Sending tcp TaggedMeta = record {
        ret = pos 0;
        bits = tagged_bits;
        hdr2 = h;
        sock = s;
      } in
      let (v', run, ok, hdr, keep, out) =
        send_sges_lem net mem tagged_bytes advance_to (λ k. omega (arith, length-tagged_bytes k))
          sgs v some_bytes refl in
      (v'.sock, ground (arith, run, ok), out)

  -- On a connection that takes what it is given, an untagged send of a gather list whose last entry
  -- is not empty gives 0 and puts the frames of the message on the wire, the last one marked; the
  -- header's offset starts at 0 and grows by each segment's length, in the machine's byte order.
  pub ddp_send_untagged_emits :
      (h : UntaggedMeta)
      → 0 < last_len sgs
      → (s' : tcp.State) × (ddp_send_untagged tcp mem s h sgs ≡ some (pos 0, s'))
        × (sent s'
            ≡ sent s
              ++ wire untagged_bytes advance_mo true 1 (record h { mo = 0 }) (all_pieces mem sgs))
  unfolding ddp_send_untagged
  ddp_send_untagged_emits h some_bytes =
      let v : Sending tcp UntaggedMeta = record {
        ret = pos 0;
        bits = 1;
        hdr2 = record h { mo = 0 };
        sock = s;
      } in
      let (v', run, ok, hdr, keep, out) =
        send_sges_lem net mem untagged_bytes advance_mo
          (λ k. unfold untagged_bytes le_bytes in omega arith) sgs v some_bytes refl in
      (v'.sock, ground (arith, run, ok), out)

module _ (cq : ConcurrentQueue) {tcp : Tcp} (net : IsReliable tcp) (fuel segs : ℕ)
    (w : World cq tcp) (msg : DdpMessage) (h : TaggedMeta) (b : TaggedBuffer) (rest : List ℕ) where
  delivered :
      (ds : List (List ℕ))
      → ds ≢ []
      → CanReceive cq net fuel segs w h ds b rest
      → Delivers cq net fuel segs w msg h b rest (flatten ds) (ddp_recv cq tcp fuel segs w msg)
  delivered [] ne can = absurd (ne refl)
  delivered (d ∷ ds) ne can = ddp_recv_tagged cq net fuel segs w msg h b rest d ds can

  -- End to end: when a tagged send has given 0 and the bytes that it sent have arrived, the
  -- receiver's call gives 0 and its memory holds the sender's gather list from the header's offset
  -- on, however the list was cut into segments and the stream into reads. The receiver's check must
  -- pass, the message fit the address space, and the fuel cover a segment and the segments.
  pub tagged_transfer :
      {tcp' : Tcp} (out : IsOpen tcp') (mem : Memory) (s s' : tcp'.State) (sgs : List Sge)
      (bytes : List ℕ)
      → 0 < last_len sgs
      → InRange sgs
      → ddp_send_tagged tcp' mem s h sgs ≡ some (pos 0, s')
      → out.sent s' ≡ out.sent s ++ bytes
      → net.pending w.sock ≡ bytes ++ rest
      → InFields h
      → ddp_check_stag cq w.ctx (host_order h) ≡ some b
      → htonll h.to + length (gathered mem sgs) ≤ 2 ^ 64
      → mulpdu + 18 < fuel
      → length (all_pieces mem sgs) ≤ segs
      → Delivers cq net fuel segs w msg h b rest
          (gathered mem sgs)
          (ddp_recv cq tcp fuel segs w msg)
  tagged_transfer out mem s s' sgs bytes some_bytes range run went arrived fields checked room f g =
      let ds = all_pieces mem sgs in
      let e = flatten-all_pieces mem sgs range in
      let (s'', run', went') = ddp_send_tagged_emits out mem s sgs h some_bytes in
      let same : s'' ≡ s' = cc in
      let b' : bytes ≡ wire tagged_bytes advance_to true tagged_bits h ds =
        (append-cancel_left (out.sent s) bytes (out.sent s) _
          (sym went ∙ ap out.sent (sym same) ∙ went') refl).1 in
      let can : CanReceive cq net fuel segs w h ds b rest = record {
        arrived = arrived ∙ ap (λ t. t ++ rest) b';
        fields = fields;
        checked = checked;
        fit = all_pieces-Fit mem sgs;
        room = omega (arith, ap length e);
        enough_fuel = f;
        enough_segs = g;
      } in
      subst (λ bs. Delivers cq net fuel segs w msg h b rest bs (ddp_recv cq tcp fuel segs w msg)) e
        (delivered ds (all_pieces_nonempty mem sgs some_bytes) can)
