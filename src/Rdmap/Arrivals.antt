-- ===== src/Rdmap/Arrivals.antt =====
-- Untagged messages in a round of the receive loop (`rnic_recv` in suiw/rdmap/rdmap.cpp): which case
-- of the `switch` a received message comes to, and with what stream.
use mathlib.Core.Path.{ap₂}
use soft_ui_warp.Prelude.{
  ℕ, suc, ◌≡◌, refl, ap, ◌∙◌, ◌⊎◌, inl, inr, Bool, some, List, [], ◌∷◌, ◌++◌, arith, pos,
}
use soft_ui_warp.Wire.{htonl}
use soft_ui_warp.Queue.{ConcurrentQueue, IsFifo}
use soft_ui_warp.Tcp.{Tcp, IsReliable}
use soft_ui_warp.Ddp.{UntaggedBuffer, UntaggedMeta, untagged_bytes}
use soft_ui_warp.Ddp.Send.{advance_mo}
use soft_ui_warp.Ddp.Segments.{deposit}
use soft_ui_warp.Ddp.Recv.{ddp_recv}
use soft_ui_warp.Ddp.Message.{untag_buf, as_untagged}
use soft_ui_warp.Ddp.Untagged.{taken, in_buffer, DeliversUntagged}
use soft_ui_warp.WorkQueue.{opcode_of, wc_success, RecvWr, SendWr}
use soft_ui_warp.Rdmap.{Stream, complete, get_rdmap_op, ReadReqFields, read_qn}
use soft_ui_warp.Rdmap.RecvLoop.{
  RecvLocals, goes_on, ddp_is_tagged, rsvd_ulp1, asserted, dispatch, recv_round, handle_send,
  handle_read_req, read_req_fields,
}
use soft_ui_warp.Rdmap.ReadRequests.{response, requested, handle_read_req_lem}
use soft_ui_warp.Rdmap.Handlers.{completions, waiting, handle_send_lem}
use soft_ui_warp.Rdmap.Rounds.{world}

module _ (cq : ConcurrentQueue) {tcp : Tcp} (net : IsReliable tcp) (fuel segs : ℕ)
    (st : Stream cq tcp) (l : RecvLocals) (h : UntaggedMeta) (b : UntaggedBuffer)
    (q' : cq.Q UntaggedBuffer) (rest : List ℕ) (cs : List (List ℕ)) where
  -- The stream after the message's bytes have been stored.
  abbrev pub filled : tcp.State → Stream cq tcp
  filled s = record st {
    ddp_ctx = taken cq st.ddp_ctx (htonl h.qn) q';
    sock = s;
    mem = deposit untagged_bytes advance_mo (in_buffer b) st.mem h cs;
  }

  -- The message has been received by `ddp_recv`.
  abbrev pub Came : Type 0
  Came =
      DeliversUntagged cq net fuel segs (world cq tcp st) l.msg h b q' rest cs
        (ddp_recv cq tcp fuel segs (world cq tcp st) l.msg)

module _ (cq : ConcurrentQueue) {tcp : Tcp} (net : IsReliable tcp) (asserts : Bool) (fuel segs : ℕ)
    (st : Stream cq tcp) (l : RecvLocals) (h : UntaggedMeta) (b : UntaggedBuffer)
    (q' : cq.Q UntaggedBuffer) (rest : List ℕ) (cs : List (List ℕ)) where
  -- A send comes to `handle_send`.
  pub send_came :
      (op : ℕ)
      → (op ≡ 3) ⊎ (op ≡ 5)
      → get_rdmap_op h.rsvd_ulp1 ≡ op
      → Came cq net fuel segs st l h b q' rest cs
      → (l' : RecvLocals) × (s' : tcp.State) × (recv_round cq asserts fuel segs st l
          ≡ some (
            goes_on,
            handle_send cq op (pos 0) (filled cq net fuel segs st l h b q' rest cs s') l',
          ))
        × (l'.wce ≡ l.wce)
        × (net.pending s' ≡ rest)
  unfolding recv_round dispatch rsvd_ulp1 ddp_is_tagged asserted opcode_of
  send_came op (inl e) is_op (msg', s', run, is_untagged, meta, buf, len, end) =
      (record l { msg = msg' }, s', ground (arith, e, run, is_untagged, meta, is_op), refl, end)
  send_came op (inr e) is_op (msg', s', run, is_untagged, meta, buf, len, end) =
      (record l { msg = msg' }, s', ground (arith, e, run, is_untagged, meta, is_op), refl, end)

  -- A read request comes to `handle_read_req`, with the buffer that took it.
  pub read_came :
      get_rdmap_op h.rsvd_ulp1 ≡ 1
      → Came cq net fuel segs st l h b q' rest cs
      → (l' : RecvLocals) × (s' : tcp.State) × (recv_round cq asserts fuel segs st l
          ≡ handle_read_req cq fuel (filled cq net fuel segs st l h b q' rest cs s') l')
        × (l'.msg.buf ≡ untag_buf b)
        × (l'.read_wr_id ≡ l.read_wr_id)
        × (net.pending s' ≡ rest)
  unfolding recv_round dispatch rsvd_ulp1 ddp_is_tagged asserted opcode_of
  read_came is_op (msg', s', run, is_untagged, meta, buf, len, end) =
      (record l { msg = msg' }, s', ground (arith, run, is_untagged, meta, is_op), buf, refl, end)

  -- A send whose segments `ddp_recv` has received takes the oldest receive request and reports it.
  pub send_received :
      (fifo : IsFifo cq) (op : ℕ) (wr : RecvWr) (wrs : List RecvWr)
      → (op ≡ 3) ⊎ (op ≡ 5)
      → get_rdmap_op h.rsvd_ulp1 ≡ op
      → fifo.items RecvWr st.recv_q ≡ wr ∷ wrs
      → Came cq net fuel segs st l h b q' rest cs
      → (st' : Stream cq tcp) × (l' : RecvLocals) × (recv_round cq asserts fuel segs st l
          ≡ some (goes_on, (st', l')))
        × (st'.mem ≡ deposit untagged_bytes advance_mo (in_buffer b) st.mem h cs)
        × (st'.ddp_ctx ≡ taken cq st.ddp_ctx (htonl h.qn) q')
        × (net.pending st'.sock ≡ rest)
        × (fifo.items RecvWr st'.recv_q ≡ wrs)
        × (completions cq fifo st' st.send_cq
            ≡ completions cq fifo st st.send_cq
              ++ record l.wce { wr_id = wr.wr_id; status = wc_success; opcode = op; byte_len = 0 }
                ∷ [])
        × (waiting cq fifo st' st.send_cq ≡ waiting cq fifo st st.send_cq)
  send_received fifo op wr wrs which is_op some_wr came =
      let (l', s', run, same, end) = send_came op which is_op came in
      let out = handle_send cq op (pos 0) (filled cq net fuel segs st l h b q' rest cs s') l' in
      let (took, now, later, others) =
        handle_send_lem cq fifo op (pos 0) (filled cq net fuel segs st l h b q' rest cs s') l' wr
          wrs 0 some_wr in
      let (first, left) = fifo.try_dequeue_head RecvWr st.recv_q wr wrs some_wr in
      (
        out.0,
        out.1,
        run,
        unfold handle_send complete in ground (arith, first),
        unfold handle_send complete in ground (arith, first),
        (unfold handle_send complete in ground (arith, first, end)),
        took,
        ground (arith, now, same),
        later,
      )

  -- A read request whose segments `ddp_recv` has received, and have left its fields in the buffer, is
  -- answered.
  pub read_request_received :
      (fifo : IsFifo cq) (tries : ℕ) (fs : ReadReqFields)
      → fuel ≡ suc tries
      → get_rdmap_op h.rsvd_ulp1 ≡ 1
      → read_req_fields (deposit untagged_bytes advance_mo (in_buffer b) st.mem h cs) b.buf_addr
        ≡ fs
      → Came cq net fuel segs st l h b q' rest cs
      → (st' : Stream cq tcp) × (l' : RecvLocals) × (recv_round cq asserts fuel segs st l
          ≡ some (goes_on, (st', l')))
        × (fifo.items SendWr st'.send_q ≡ fifo.items SendWr st.send_q ++ response l fs ∷ [])
        × (st'.read_sg ≡ requested fs)
        × (fifo.items UntaggedBuffer (st'.ddp_ctx.queues read_qn).q
            ≡ fifo.items UntaggedBuffer ((taken cq st.ddp_ctx (htonl h.qn) q').queues read_qn).q
              ++ b ∷ [])
        × (st'.mem ≡ deposit untagged_bytes advance_mo (in_buffer b) st.mem h cs)
        × (st'.recv_q ≡ st.recv_q)
        × (st'.cqs ≡ st.cqs)
        × (net.pending st'.sock ≡ rest)
  unfolding as_untagged
  read_request_received fifo tries fs enough is_op there came =
      let (l', s, round, buf, counter, end) = read_came is_op came in
      let st₂ = filled cq net fuel segs st l h b q' rest cs s in
      let to_b : as_untagged l'.msg.buf ≡ b = ap as_untagged buf in
      let fields : read_req_fields st₂.mem (as_untagged l'.msg.buf).buf_addr ≡ fs =
        ap (λ c. read_req_fields st₂.mem c.buf_addr) to_b ∙ there in
      let (st', l'', answered, queued, shared, posted, mem, recvs, cqs, msg, next, sock) =
        handle_read_req_lem cq fifo tries st₂ l' in
      (
        st',
        l'',
        round ∙ ap (λ n. handle_read_req cq n st₂ l') enough ∙ answered,
        queued
            ∙ ap₂ (λ n f. fifo.items SendWr st.send_q ++ record (response l f) { wr_id = n } ∷ [])
                counter fields,
        shared ∙ ap requested fields,
        posted ∙ ap (λ c. fifo.items UntaggedBuffer (st₂.ddp_ctx.queues read_qn).q ++ c ∷ []) to_b,
        mem,
        recvs,
        cqs,
        ap net.pending sock ∙ end,
      )
