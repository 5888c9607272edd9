-- ===== src/Ping/Receives.antt =====
-- The receive request that the example client (fake_ping_client.cpp) keeps posted.
use soft_ui_warp.Prelude.{
  ℕ, ◌+◌, ◌≡◌, ◌≢◌, ◌⊎◌, inl, inr, List, [], ◌∷◌, arith, ◌==◌, ==_iff, Bool-cases, count_if,
  count_if-append,
}
use soft_ui_warp.Queue.{ConcurrentQueue, IsFifo}
use soft_ui_warp.Tcp.{Tcp}
use soft_ui_warp.WorkQueue.{wc_success, WorkCompletion, RecvWr}
use soft_ui_warp.Rdmap.{rdma_post_recv}
use soft_ui_warp.Rdmap.Handlers.{completions}
use soft_ui_warp.Rdmap.Ledger.{is_recv, held}
use soft_ui_warp.Ping.{PingContext, continues, wc_send, ping_recv_wr, cq_round}

-- A round of the client's thread on the completion of one of its receives, when the two work queues
-- share a completion queue and the completion reports success: if it is of a plain send, the request
-- is posted again, so that the stream holds as many receives as before, and the semaphore is posted;
-- if it is of any other operation, such as a send with solicited event, the receive is lost.
pub cq_round_lem :
    (cq : ConcurrentQueue) {tcp : Tcp} (fifo : IsFifo cq) (buf : ℕ) (p : PingContext cq tcp)
    (wc : WorkCompletion) (wcs : List WorkCompletion)
    → p.stream.recv_cq ≡ p.stream.send_cq
    → completions cq fifo p.stream p.stream.recv_cq ≡ wc ∷ wcs
    → wc.wr_id ≡ 1901
    → wc.status ≡ wc_success
    → let (r, p') = cq_round cq buf p in
      (r ≡ continues)
      × (((wc.opcode ≡ wc_send)
            × (held cq fifo 1901 p'.stream ≡ held cq fifo 1901 p.stream)
            × (p'.sem ≡ p.sem + 1))
          ⊎ ((wc.opcode ≢ wc_send)
              × (held cq fifo 1901 p'.stream + 1 ≡ held cq fifo 1901 p.stream)
              × (p'.sem ≡ p.sem)))
unfolding cq_round held rdma_post_recv count_if
cq_round_lem cq fifo buf p wc wcs shared first id ok =
    let q = (p.stream.cqs p.stream.recv_cq).q in
    let (took, left) = fifo.try_dequeue_head WorkCompletion q wc wcs first in
    let wr = ping_recv_wr buf in
    let again = fifo.items-enqueue RecvWr p.stream.recv_q wr in
    let added = count_if-append (is_recv 1901) (fifo.items RecvWr p.stream.recv_q) (wr ∷ []) in
    elim (Bool-cases (wc.opcode == wc_send)) [
      | inl t ↦ (
        ground (arith, took, id, ok, t),
        inl (
          (==_iff wc.opcode wc_send).0 t,
          ground (arith, took, left, first, id, ok, t, shared, again, added),
          ground (arith, took, id, ok, t),
        ),
      )
      | inr f ↦ (
        ground (arith, took, id, ok, f),
        inr (
          (λ e. ground (arith, f, e)),
          ground (arith, took, left, first, id, ok, f, shared),
          ground (arith, took, id, ok, f),
        ),
      )
    ]
