-- ===== src/Rdmap/Ledger/RecvRounds.antt =====
-- What a round of the receive loop (`rnic_recv` in suiw/rdmap/rdmap.cpp) does to the work that its
-- stream holds.
use soft_ui_warp.Prelude.{
  ℕ, zero, suc, ◌≡◌, refl, sym, ap, ◌∙◌, Bool, some, List, [], ◌∷◌, ◌++◌, arith, ℤ, count_if,
  count_if-append,
}
use soft_ui_warp.Queue.{ConcurrentQueue, IsFifo}
use soft_ui_warp.Tcp.{Tcp}
use soft_ui_warp.Ddp.Message.{as_untagged}
use soft_ui_warp.WorkQueue.{wc_success, SendWr, RecvWr, WorkCompletion, to_u32}
use soft_ui_warp.Rdmap.{Stream, complete, rdma_invalidate}
use soft_ui_warp.Rdmap.RecvLoop.{
  RecvLocals, Round, push_until, read_req_fields, handle_read_req, handle_read_resp, handle_send,
  recv_round,
}
use soft_ui_warp.Rdmap.Handlers.{
  completions, waiting, handle_send_lem, handle_send_empty, handle_read_resp_lem,
  handle_read_resp_empty,
}
use soft_ui_warp.Rdmap.ReadRequests.{response, handle_read_req_lem}
use soft_ui_warp.Rdmap.Ledger.{is_sent, is_done, held}
use soft_ui_warp.Rdmap.RecvCases.{Keeps, recv_round_keeps}

module _ (cq : ConcurrentQueue) {tcp : Tcp} (fifo : IsFifo cq) (x : ℕ) where
  handle_send-held :
      (op : ℕ) (ret : ℤ) (st : Stream cq tcp) (l : RecvLocals)
      → held cq fifo x (handle_send cq op ret st l).0 ≡ held cq fifo x st
  unfolding held count_if
  handle_send-held op ret st l = go (fifo.items RecvWr st.recv_q) refl
    where
      go :
          (xs : List RecvWr)
          → fifo.items RecvWr st.recv_q ≡ xs
          → held cq fifo x (handle_send cq op ret st l).0 ≡ held cq fifo x st
      go [] none_left =
          ap (λ s. held cq fifo x s.0) (handle_send_empty cq fifo op ret st l none_left)
      go (wr ∷ wrs) first =
          let wce : WorkCompletion = record l.wce {
            wr_id = wr.wr_id;
            status = wc_success;
            opcode = op;
            byte_len = to_u32 ret;
          } in
          let (recvs, now, later, others) = handle_send_lem cq fifo op ret st l wr wrs 0 first in
          let added = count_if-append (is_done x) (completions cq fifo st st.send_cq) (wce ∷ []) in
          let (took, left) = fifo.try_dequeue_head RecvWr st.recv_q wr wrs first in
          let sends : (handle_send cq op ret st l).0.send_q ≡ st.send_q =
            unfold handle_send complete in ground (arith, took) in
          let at : (handle_send cq op ret st l).0.send_cq ≡ st.send_cq =
            unfold handle_send complete in ground (arith, took) in
          ground (arith, first, recvs, now, later, added, sends, at)

  handle_read_resp-held :
      (ret : ℤ) (st : Stream cq tcp) (l : RecvLocals)
      → held cq fifo x (handle_read_resp cq ret st l).0 ≡ held cq fifo x st
  unfolding held count_if
  handle_read_resp-held ret st l = go (waiting cq fifo st st.send_cq) refl
    where
      go :
          (xs : List WorkCompletion)
          → waiting cq fifo st st.send_cq ≡ xs
          → held cq fifo x (handle_read_resp cq ret st l).0 ≡ held cq fifo x st
      go [] none_left =
          let out = (handle_read_resp cq ret st l).0 in
          let same : out.cqs st.send_cq ≡ st.cqs st.send_cq =
            (handle_read_resp_empty cq fifo ret st l st.send_cq none_left).0 in
          let took =
            fifo.try_dequeue_empty WorkCompletion (st.cqs st.send_cq).pending_q none_left in
          let sends : out.send_q ≡ st.send_q = unfold handle_read_resp in ground (arith, took) in
          let recvs : out.recv_q ≡ st.recv_q = unfold handle_read_resp in ground (arith, took) in
          let at : out.send_cq ≡ st.send_cq = unfold handle_read_resp in ground (arith, took) in
          ground (arith, same, sends, recvs, at)
      go (wce ∷ wces) first =
          let out = (handle_read_resp cq ret st l).0 in
          let done : WorkCompletion = record wce { byte_len = to_u32 ret } in
          let (now, later, others) = handle_read_resp_lem cq fifo ret st l wce wces 0 first in
          let added = count_if-append (is_done x) (completions cq fifo st st.send_cq) (done ∷ []) in
          let (took, left) =
            fifo.try_dequeue_head WorkCompletion (st.cqs st.send_cq).pending_q wce wces first in
          let sends : out.send_q ≡ st.send_q =
            unfold handle_read_resp complete in ground (arith, took) in
          let recvs : out.recv_q ≡ st.recv_q =
            unfold handle_read_resp complete in ground (arith, took) in
          let at : out.send_cq ≡ st.send_cq =
            unfold handle_read_resp complete in ground (arith, took) in
          ground (arith, first, now, later, added, sends, recvs, at)

  handle_read_req-held :
      (fuel : ℕ) (r : Round) (st st' : Stream cq tcp) (l l' : RecvLocals)
      → handle_read_req cq fuel st l ≡ some (r, (st', l'))
      → held cq fifo x st' ≡ held cq fifo x st
  unfolding held count_if
  handle_read_req-held zero r st st' l l' e = unfold handle_read_req push_until in ground (arith, e)
  handle_read_req-held (suc fuel) r st st' l l' e =
      let wr = response l (read_req_fields st.mem (as_untagged l.msg.buf).buf_addr) in
      let (s, k, run, queued, shared, posted, mem, recvs, cqs, msg, next, sock) =
        handle_read_req_lem cq fifo fuel st l in
      let same : s ≡ st' = cc in
      let pushed = fifo.enqueued SendWr st.send_q wr in
      let at : st'.send_cq ≡ st.send_cq =
        unfold handle_read_req push_until in ground (arith, e, pushed) in
      let sends : fifo.items SendWr st'.send_q ≡ fifo.items SendWr st.send_q ++ wr ∷ [] =
        ap (λ t. fifo.items SendWr t.send_q) (sym same) ∙ queued in
      let recvs' : st'.recv_q ≡ st.recv_q = ap (λ t. t.recv_q) (sym same) ∙ recvs in
      let cqs' : st'.cqs ≡ st.cqs = ap (λ t. t.cqs) (sym same) ∙ cqs in
      let added = count_if-append (is_sent x) (fifo.items SendWr st.send_q) (wr ∷ []) in
      ground (arith, at, sends, recvs', cqs', added)

  -- Every case keeps the count.
  held-Keeps :
      (n : ℕ)
      → Keeps cq (λ (st : Stream cq tcp). held cq fifo x st ≡ n) (λ st. held cq fifo x st ≡ n)
  held-Keeps n = record {
    receives = λ st ctx sock mem h. unfold held in h;
    leaves = λ st h. h;
    invalidates = λ st stag h. unfold rdma_invalidate held in h;
    terminates = λ st h. unfold held in h;
    sends = λ op ret st l h. handle_send-held op ret st l ∙ h;
    responds = λ ret st l h. handle_read_resp-held ret st l ∙ h;
    requests = λ fuel r st st' l l' h e. handle_read_req-held fuel r st st' l l' e ∙ h;
  }

  -- A round of the receive loop keeps the work of each number that its stream holds, however it
  -- ends.
  pub recv_round-held :
      (asserts : Bool) (fuel segs : ℕ) (r : Round) (st st' : Stream cq tcp) (l l' : RecvLocals)
      → recv_round cq asserts fuel segs st l ≡ some (r, (st', l'))
      → held cq fifo x st' ≡ held cq fifo x st
  recv_round-held asserts fuel segs r st st' l l' e =
      recv_round_keeps cq (held-Keeps (held cq fifo x st)) asserts fuel segs r st st' l l' refl e
