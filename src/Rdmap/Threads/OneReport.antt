-- ===== src/Rdmap/Threads/OneReport.antt =====
-- How much a round of either loop (suiw/rdmap/rdmap.cpp) reports on the send queue's completion queue.
use soft_ui_warp.Prelude.{
  ℕ, zero, suc, ◌+◌, ◌≤◌, ◌≡◌, refl, sym, ap, subst, ◌∙◌, inl, inr, Bool, false, some, List, [],
  ◌∷◌, arith, ℤ, length, length-append,
}
use soft_ui_warp.Queue.{ConcurrentQueue, IsFifo}
use soft_ui_warp.Tcp.{Tcp}
use soft_ui_warp.WorkQueue.{
  RdmaOpcode, rdma_write, rdma_read_req, rdma_read_resp, send, send_inval, send_se, send_se_inval,
  terminate, not_supported, wc_success, SendWr, RecvWr, WorkCompletion, to_u32,
}
use soft_ui_warp.Rdmap.{Stream, complete, rdma_invalidate}
use soft_ui_warp.Rdmap.SendLoop.{SendLocals, send_request, send_round}
use soft_ui_warp.Rdmap.RecvLoop.{
  RecvLocals, Round, push_until, handle_read_req, handle_read_resp, handle_send, recv_round,
}
use soft_ui_warp.Rdmap.RecvCases.{Keeps, recv_round_keeps}
use soft_ui_warp.Rdmap.Handlers.{
  completions, waiting, handle_send_lem, handle_send_empty, handle_read_resp_lem,
  handle_read_resp_empty,
}
use soft_ui_warp.Rdmap.ReadRequests.{handle_read_req_lem}
use soft_ui_warp.Rdmap.Requests.{Promise, Completes, Waits, Silent, send_request_lem}
use soft_ui_warp.Rdmap.Ledger.SendRounds.{send_request-kept}

module _ (cq : ConcurrentQueue) {tcp : Tcp} (fifo : IsFifo cq) where
  -- The completions on the send queue's completion queue.
  abbrev pub on_queue : Stream cq tcp → ℕ
  on_queue st = length (completions cq fifo st st.send_cq)

  -- The stream is not connected, and has so many completions at most.
  abbrev pub IsOff : ℕ → Stream cq tcp → Type 0
  IsOff n st = (st.connected ≡ false) × (on_queue st ≤ n)

  module _ (st st' : Stream cq tcp) (l l' : SendLocals) (req : SendWr)
      (ran : send_request cq st l req ≡ some (st', l')) where
    abbrev grown : Stream cq tcp → ℕ
    grown s = length (completions cq fifo s st.send_cq)

    Completes-grown :
        Completes cq fifo st l req (send_request cq st l req) → grown st' ≤ grown st + 1
    Completes-grown (s, k, w, run, rep, now, later) =
        let same : s ≡ st' = cc in
        subst (λ t. grown t ≤ grown st + 1) same
          (omega (arith, ap length now, length-append (completions cq fifo st st.send_cq) (w ∷ [])))

    Waits-grown : Waits cq fifo st l req (send_request cq st l req) → grown st' ≤ grown st + 1
    Waits-grown (s, k, w, run, rep, ok, now, later) =
        let same : s ≡ st' = cc in
        subst (λ t. grown t ≤ grown st + 1) same (omega (arith, ap length now))

    Silent-grown : Silent cq fifo st l req (send_request cq st l req) → grown st' ≤ grown st + 1
    Silent-grown (s, k, run, same_cqs) =
        let same : s ≡ st' = cc in
        let now : completions cq fifo s st.send_cq ≡ completions cq fifo st st.send_cq =
          ap (λ c. fifo.items WorkCompletion (c st.send_cq).q) same_cqs in
        subst (λ t. grown t ≤ grown st + 1) same (omega (arith, ap length now))

    Promise-grown :
        (op : RdmaOpcode)
        → Promise cq fifo st l req op (send_request cq st l req)
        → grown st' ≤ grown st + 1
    Promise-grown rdma_write p = Completes-grown p
    Promise-grown send p = Completes-grown p
    Promise-grown send_se p = Completes-grown p
    Promise-grown send_inval p = Completes-grown p
    Promise-grown send_se_inval p = Completes-grown p
    Promise-grown rdma_read_resp p = Silent-grown p
    Promise-grown terminate p = Silent-grown p
    Promise-grown not_supported p = Silent-grown p
    Promise-grown rdma_read_req (inl (one, inl p)) = Completes-grown p
    Promise-grown rdma_read_req (inl (one, inr p)) = Waits-grown p
    Promise-grown rdma_read_req (inr (other, p)) = Silent-grown p

  module _ (st st' : Stream cq tcp) (l l' : SendLocals) where
    -- A round of the send loop reports one completion at most, and connects nothing.
    pub send_round-IsOff :
        (n : ℕ) → IsOff n st → send_round cq st l ≡ some (st', l') → IsOff (n + 1) st'
    unfolding send_round
    send_round-IsOff n (off, few) e = go (fifo.items SendWr st.send_q) refl
      where
        go : (xs : List SendWr) → fifo.items SendWr st.send_q ≡ xs → IsOff (n + 1) st'
        go [] none_left =
            let took = fifo.try_dequeue_empty SendWr st.send_q none_left in
            let same : st ≡ st' = ground (arith, took, e) in
            subst (IsOff (n + 1)) same (off, omega (arith, few))
        go (req ∷ wrs) first =
            let (took, left) = fifo.try_dequeue_head SendWr st.send_q req wrs first in
            let st₁ : Stream cq tcp = record st { send_q = fifo.rest SendWr st.send_q } in
            let ran : send_request cq st₁ l req ≡ some (st', l') = ground (arith, took, e) in
            let same = send_request-kept cq st₁ st' l l' req req.opcode refl ran in
            let more =
              Promise-grown st₁ st' l l' req ran req.opcode (send_request_lem cq fifo st₁ l req) in
            let at : st'.send_cq ≡ st.send_cq = ap (λ k. k.1.1.0) same in
            (ap (λ k. k.1.1.1) same ∙ off, rw at (omega (arith, more, few)))

  handle_send-IsOff :
      (n op : ℕ) (ret : ℤ) (st : Stream cq tcp) (l : RecvLocals)
      → IsOff n st
      → IsOff (n + 1) (handle_send cq op ret st l).0
  handle_send-IsOff n op ret st l (off, few) = go (fifo.items RecvWr st.recv_q) refl
    where
      go :
          (xs : List RecvWr)
          → fifo.items RecvWr st.recv_q ≡ xs
          → IsOff (n + 1) (handle_send cq op ret st l).0
      go [] none_left =
          subst (λ s. IsOff (n + 1) s.0) (sym (handle_send_empty cq fifo op ret st l none_left))
            (off, omega (arith, few))
      go (wr ∷ wrs) first =
          let wce : WorkCompletion = record l.wce {
            wr_id = wr.wr_id;
            status = wc_success;
            opcode = op;
            byte_len = to_u32 ret;
          } in
          let (recvs, now, later, others) = handle_send_lem cq fifo op ret st l wr wrs 0 first in
          let more = length-append (completions cq fifo st st.send_cq) (wce ∷ []) in
          let (took, left) = fifo.try_dequeue_head RecvWr st.recv_q wr wrs first in
          let at : (handle_send cq op ret st l).0.send_cq ≡ st.send_cq =
            unfold handle_send complete in ground (arith, took) in
          (
            unfold handle_send complete in ground (arith, took, off),
            rw (at, now) (omega (arith, more, few)),
          )

  handle_read_resp-IsOff :
      (n : ℕ) (ret : ℤ) (st : Stream cq tcp) (l : RecvLocals)
      → IsOff n st
      → IsOff (n + 1) (handle_read_resp cq ret st l).0
  handle_read_resp-IsOff n ret st l (off, few) = go (waiting cq fifo st st.send_cq) refl
    where
      go :
          (xs : List WorkCompletion)
          → waiting cq fifo st st.send_cq ≡ xs
          → IsOff (n + 1) (handle_read_resp cq ret st l).0
      go [] none_left =
          let same = (handle_read_resp_empty cq fifo ret st l st.send_cq none_left).0 in
          let took =
            fifo.try_dequeue_empty WorkCompletion (st.cqs st.send_cq).pending_q none_left in
          let now : completions cq fifo (handle_read_resp cq ret st l).0 st.send_cq
              ≡ completions cq fifo st st.send_cq =
            ap (λ c. fifo.items WorkCompletion c.q) same in
          let at : (handle_read_resp cq ret st l).0.send_cq ≡ st.send_cq =
            unfold handle_read_resp in ground (arith, took) in
          (unfold handle_read_resp in ground (arith, took, off), rw (at, now) (omega (arith, few)))
      go (wce ∷ wces) first =
          let done : WorkCompletion = record wce { byte_len = to_u32 ret } in
          let (now, later, others) = handle_read_resp_lem cq fifo ret st l wce wces 0 first in
          let more = length-append (completions cq fifo st st.send_cq) (done ∷ []) in
          let (took, left) =
            fifo.try_dequeue_head WorkCompletion (st.cqs st.send_cq).pending_q wce wces first in
          let at : (handle_read_resp cq ret st l).0.send_cq ≡ st.send_cq =
            unfold handle_read_resp complete in ground (arith, took) in
          (
            unfold handle_read_resp complete in ground (arith, took, off),
            rw (at, now) (omega (arith, more, few)),
          )

  handle_read_req-IsOff :
      (n fuel : ℕ) (r : Round) (st st' : Stream cq tcp) (l l' : RecvLocals)
      → IsOff n st
      → handle_read_req cq fuel st l ≡ some (r, (st', l'))
      → IsOff (n + 1) st'
  handle_read_req-IsOff n zero r st st' l l' h e =
      unfold handle_read_req push_until in ground (arith, e)
  handle_read_req-IsOff n (suc fuel) r st st' l l' (off, few) e =
      let (s, k, run, queued, shared, posted, mem, recvs, cqs, msg, next, sock) =
        handle_read_req_lem cq fifo fuel st l in
      let same : s ≡ st' = cc in
      let cqs' : st'.cqs ≡ st.cqs = ap (λ t. t.cqs) (sym same) ∙ cqs in
      let now : completions cq fifo st' st.send_cq ≡ completions cq fifo st st.send_cq =
        ap (λ c. fifo.items WorkCompletion (c st.send_cq).q) cqs' in
      let pushed = fifo.enqueued SendWr st.send_q in
      let at : st'.send_cq ≡ st.send_cq =
        unfold handle_read_req push_until in ground (arith, e, pushed) in
      (
        unfold handle_read_req push_until in ground (arith, e, pushed, off),
        rw (at, now) (omega (arith, few)),
      )

  -- So does a round of the receive loop.
  pub recv_round-IsOff :
      (asserts : Bool) (fuel segs n : ℕ) (r : Round) (st st' : Stream cq tcp) (l l' : RecvLocals)
      → IsOff n st
      → recv_round cq asserts fuel segs st l ≡ some (r, (st', l'))
      → IsOff (n + 1) st'
  recv_round-IsOff asserts fuel segs n r st st' l l' h e =
      let keeps : Keeps cq (IsOff n) (IsOff (n + 1)) = record {
        receives = λ s ctx sock mem h. h;
        leaves = λ s h. (h.0, omega (arith, h.1));
        invalidates = λ s stag h. unfold rdma_invalidate in h;
        terminates = λ s h. (refl, omega (arith, h.1));
        sends = λ op ret s k h. handle_send-IsOff n op ret s k h;
        responds = λ ret s k h. handle_read_resp-IsOff n ret s k h;
        requests = λ fuel r s s' k k' h e. handle_read_req-IsOff n fuel r s s' k k' h e;
      } in
      recv_round_keeps cq keeps asserts fuel segs r st st' l l' h e
