-- ===== src/Rdmap/Threads/Flush.antt =====
-- What becomes of outstanding work when a stream is disconnected (suiw/rdmap/rdmap.cpp).
use soft_ui_warp.Prelude.{
  ℕ, ◌+◌, ◌≤◌, ◌≡◌, refl, inl, inr, Bool, false, arith, if◌then◌else◌, length, length-append,
  length-take, length-drop, List-cases,
}
use soft_ui_warp.Queue.{ConcurrentQueue, IsFifo}
use soft_ui_warp.Tcp.{Tcp}
use soft_ui_warp.WorkQueue.{WorkCompletion, poll_cq}
use soft_ui_warp.Rdmap.{rdmap_send, rdma_post_recv, rdma_register, rdma_invalidate}
use soft_ui_warp.Rdmap.Threads.OneReport.{on_queue, send_round-IsOff, recv_round-IsOff}
use soft_ui_warp.Rdmap.Threads.{
  Process, poll_send_cq, take_one, Step, takes, send_enters, recv_enters, posts_send, posts_recv,
  polls, registers, invalidates, disconnects, arrives, sends, receives, Reach, here, later,
}

module _ (cq : ConcurrentQueue) {tcp : Tcp} (fifo : IsFifo cq) where
  -- The completions that have been reported, polled or not.
  abbrev pub reported : Process cq tcp → ℕ
  reported p = on_queue cq fifo p.stream + length p.polled

  -- The loops that are in a round.
  abbrev pub in_rounds : Process cq tcp → ℕ
  in_rounds p = (if p.send_in_round then 1 else 0) + (if p.recv_in_round then 1 else 0)

  -- The stream is not connected, and at most `n` completions have been reported or may be by the
  -- rounds that the loops are in.
  abbrev pub IsEnding : ℕ → Process cq tcp → Type 0
  IsEnding n p = (p.stream.connected ≡ false) × (reported p + in_rounds p ≤ n)

  module _ (asserts : Bool) (fuel segs : ℕ) (n : ℕ) where
    Step-IsEnding :
        {p q : Process cq tcp} → Step cq asserts fuel segs p q → IsEnding n p → IsEnding n q
    Step-IsEnding (posts_send wr) h = unfold rdmap_send in h
    Step-IsEnding (posts_recv wr) h = unfold rdma_post_recv in h
    Step-IsEnding {p} (polls k) (off, few) =
        let q = (p.stream.cqs p.stream.send_cq).q in
        let (taken, left) = fifo.try_dequeue_bulk_first WorkCompletion q k in
        let wcs = (cq.try_dequeue_bulk WorkCompletion q k).0 in
        let some_taken = length-take k (fifo.items WorkCompletion q) in
        let some_left = length-drop k (fifo.items WorkCompletion q) in
        let moved = length-append wcs p.polled in
        unfold poll_send_cq poll_cq in
        (off, ground (arith, taken, left, some_taken, some_left, moved, few))
    Step-IsEnding {p} takes (off, few) =
        let q = (p.stream.cqs p.stream.send_cq).q in
        elim (List-cases (fifo.items WorkCompletion q)) [
          | inl e ↦
              unfold take_one in
              (off, ground (arith, e, few, fifo.try_dequeue_empty WorkCompletion q e))
          | inr (w, ws, e) ↦
              (let (found, left) = fifo.try_dequeue_head WorkCompletion q w ws e in
                unfold take_one in (off, ground (arith, e, found, left, few)))
        ]
    Step-IsEnding (registers b) h = unfold rdma_register in h
    Step-IsEnding (invalidates s) h = unfold rdma_invalidate in h
    Step-IsEnding disconnects (off, few) = (refl, few)
    Step-IsEnding (arrives s m) h = h
    Step-IsEnding (send_enters on head) (off, few) = absurd (ground (arith, on, off))
    Step-IsEnding {p} (sends st' l' inside e) (off, few) =
        let (off', more) =
          send_round-IsOff cq fifo p.stream st' p.send_locals l' (on_queue cq fifo p.stream)
            (off, omega arith) e in
        (off', ground (arith, few, more, inside))
    Step-IsEnding (recv_enters on runs head) (off, few) = absurd (ground (arith, on, off))
    Step-IsEnding {p} (receives r st' l' inside e) (off, few) =
        let (off', more) =
          recv_round-IsOff cq fifo asserts fuel segs (on_queue cq fifo p.stream) r p.stream st'
            p.recv_locals l' (off, omega arith) e in
        (off', ground (arith, few, more, inside))

    Reach-IsEnding :
        {p q : Process cq tcp} → Reach cq asserts fuel segs p q → IsEnding n p → IsEnding n q
    Reach-IsEnding here h = h
    Reach-IsEnding (later r s) h = Step-IsEnding s (Reach-IsEnding r h)

  -- Once a stream is not connected it stays so, and whatever the user and the network do, each loop
  -- that is in a round then reports one completion more at most, and the other loops none: work that
  -- is outstanding is never flushed.
  pub never_flushed :
      (asserts : Bool) (fuel segs : ℕ) (p q : Process cq tcp)
      → p.stream.connected ≡ false
      → Reach cq asserts fuel segs p q
      → (q.stream.connected ≡ false) × (reported q + in_rounds q ≤ reported p + in_rounds p)
  never_flushed asserts fuel segs p q off reached =
      Reach-IsEnding asserts fuel segs (reported p + in_rounds p) reached (off, omega arith)
