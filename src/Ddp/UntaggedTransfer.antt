-- ===== src/Ddp/UntaggedTransfer.antt =====
-- An untagged message from sender to receiver (suiw/ddp/ddp.cpp): `ddp_send_untagged` on one machine,
-- `ddp_recv` on another.
use soft_ui_warp.Prelude.{
  ℕ, zero, suc, ◌+◌, ◌-◌, ◌%◌, ◌^◌, ◌≤◌, ◌<◌, ◌≡◌, refl, sym, ap, ◌∙◌, ◌≢◌, true, some, List, [],
  ◌∷◌, ◌++◌, arith, pos, length, append-cancel_left,
}
use soft_ui_warp.Wire.{htonl}
use soft_ui_warp.Memory.{Memory, load}
use soft_ui_warp.Queue.{ConcurrentQueue}
use soft_ui_warp.Tcp.{Tcp, IsOpen, IsReliable}
use soft_ui_warp.Ddp.{Sge, UntaggedMeta, UntaggedBuffer, untagged_bytes, ddp_check_untagged_hdr}
use soft_ui_warp.Ddp.Send.{mulpdu, packet_length, to_send, advance_mo, ddp_send_untagged}
use soft_ui_warp.Ddp.Recv.{World, ddp_recv}
use soft_ui_warp.Ddp.Message.{DdpMessage}
use soft_ui_warp.Ddp.Segments.{
  last_len, all_pieces_nonempty, wire, pieces_from, pieces, all_pieces, all_pieces-Fit,
}
use soft_ui_warp.Ddp.UntaggedHeader.{InUntaggedFields, untagged_host_order, untagged_bits}
use soft_ui_warp.Ddp.Untagged.{CanReceiveUntagged, DeliversUntagged, ddp_recv_untagged}
use soft_ui_warp.Ddp.Transfer.{ddp_send_untagged_emits}

-- The header that a send of `h` begins with.
abbrev pub from_start : UntaggedMeta → UntaggedMeta
from_start h = record h { mo = 0 }

none_left : (mem : Memory) (fuel : ℕ) (sg : Sge) → pieces_from mem fuel sg 0 ≡ []
unfolding pieces_from
none_left mem zero sg = refl
none_left mem (suc fuel) sg = refl

-- A buffer that one segment takes is cut into one piece.
pub one_piece :
    (mem : Memory) (sg : Sge)
    → 0 < sg.len
    → sg.len ≤ mulpdu
    → sg.addr < 2 ^ 64
    → all_pieces mem (sg ∷ []) ≡ load mem sg.addr sg.len ∷ []
unfolding all_pieces pieces
one_piece mem sg some_bytes few low =
    let e : to_send sg.len ≡ sg.len = ground arith in
    ap (λ n. pieces_from mem n sg n ++ []) e ∙ go sg.len refl some_bytes
  where
    go : (n : ℕ) → n ≡ sg.len → 0 < n → pieces_from mem n sg n ++ [] ≡ load mem sg.addr sg.len ∷ []
    go zero eq pos_n = absurd (omega arith)
    go (suc n) eq pos_n =
        let at : (sg.addr + (sg.len - suc n)) % 2 ^ 64 ≡ sg.addr = omega arith in
        let all : packet_length (suc n) ≡ suc n = ground arith in
        let left : suc n - suc n ≡ 0 = omega arith in
        unfold pieces_from in
        rw (at, all, left, none_left mem n sg) (ap (λ k. load mem sg.addr k ∷ []) eq)

module _ (cq : ConcurrentQueue) {tcp : Tcp} (net : IsReliable tcp) (fuel segs : ℕ)
    (w : World cq tcp) (msg : DdpMessage) (h : UntaggedMeta) (b : UntaggedBuffer)
    (q' : cq.Q UntaggedBuffer) (rest : List ℕ) where
  delivered_untagged :
      (cs : List (List ℕ))
      → cs ≢ []
      → CanReceiveUntagged cq net fuel segs w h cs b q' rest
      → DeliversUntagged cq net fuel segs w msg h b q' rest cs (ddp_recv cq tcp fuel segs w msg)
  delivered_untagged [] ne can = absurd (ne refl)
  delivered_untagged (c ∷ cs) ne can = ddp_recv_untagged cq net fuel segs w msg h b q' rest c cs can

module _ (cq : ConcurrentQueue) {tcp : Tcp} (net : IsReliable tcp) (fuel segs : ℕ)
    (w : World cq tcp) (msg : DdpMessage) (h : UntaggedMeta) (b : UntaggedBuffer)
    (q' : cq.Q UntaggedBuffer) (rest : List ℕ) where
  -- End to end: when an untagged send has given 0 and the bytes that it sent have arrived, the
  -- receiver's call gives 0, the oldest buffer of the queue that the header names is taken, and the
  -- pieces of the gather list are stored into it, each at the place that its header's offset has in
  -- network order. The receiver's check must pass, its queue have a buffer, and the fuel cover a
  -- segment and the segments.
  pub untagged_transfer :
      {tcp' : Tcp} (out : IsOpen tcp') (mem : Memory) (s s' : tcp'.State) (sgs : List Sge)
      (bytes : List ℕ)
      → 0 < last_len sgs
      → ddp_send_untagged tcp' mem s h sgs ≡ some (pos 0, s')
      → out.sent s' ≡ out.sent s ++ bytes
      → net.pending w.sock ≡ bytes ++ rest
      → InUntaggedFields h
      → ddp_check_untagged_hdr cq w.ctx (untagged_host_order (from_start h)) ≡ some (htonl h.qn)
      → cq.try_dequeue UntaggedBuffer (w.ctx.queues (htonl h.qn)).q ≡ (some b, q')
      → mulpdu + 18 < fuel
      → length (all_pieces mem sgs) ≤ segs
      → DeliversUntagged cq net fuel segs w msg
          (from_start h)
          b
          q'
          rest
          (all_pieces mem sgs)
          (ddp_recv cq tcp fuel segs w msg)
  untagged_transfer out mem s s' sgs bytes some_bytes run went arrived fields checked posted f g =
      let ds = all_pieces mem sgs in
      let (s'', run', went') = ddp_send_untagged_emits out mem s sgs h some_bytes in
      let same : s'' ≡ s' = cc in
      let b' : bytes ≡ wire untagged_bytes advance_mo true untagged_bits (from_start h) ds =
        (append-cancel_left (out.sent s) bytes (out.sent s) _
          (sym went ∙ ap out.sent (sym same) ∙ went') refl).1 in
      delivered_untagged cq net fuel segs w msg (from_start h) b q' rest ds
        (all_pieces_nonempty mem sgs some_bytes)
        (record {
          arrived = arrived ∙ ap (λ t. t ++ rest) b';
          fields = record {
            rsvd1_fits = fields.rsvd1_fits;
            rsvd2_fits = fields.rsvd2_fits;
            qn_fits = fields.qn_fits;
            msn_fits = fields.msn_fits;
            mo_fits = omega arith;
          };
          checked = checked;
          posted = posted;
          fit = all_pieces-Fit mem sgs;
          enough_fuel = f;
          enough_segs = g;
        })
