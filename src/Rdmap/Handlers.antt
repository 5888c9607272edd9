-- ===== src/Rdmap/Handlers.antt =====
-- What the receive loop's cases (`rnic_recv` in suiw/rdmap/rdmap.cpp) do to the stream's queues.
use soft_ui_warp.Prelude.{ℕ, ◌≡◌, ◌≢◌, ◌⊎◌, List, [], ◌∷◌, ◌++◌, arith, ℤ}
use soft_ui_warp.Queue.{ConcurrentQueue, IsFifo}
use soft_ui_warp.Tcp.{Tcp}
use soft_ui_warp.WorkQueue.{wc_success, WorkCompletion, to_u32, RecvWr}
use soft_ui_warp.Rdmap.{Stream, complete, complete_later}
use soft_ui_warp.Rdmap.RecvLoop.{RecvLocals, handle_read_resp, handle_send}

module _ (cq : ConcurrentQueue) {tcp : Tcp} (fifo : IsFifo cq) where
  open fifo use {items}

  -- The completions that are to be polled, and those that wait.
  abbrev pub completions : Stream cq tcp → ℕ → List WorkCompletion
  completions st i = items WorkCompletion (st.cqs i).q

  abbrev pub waiting : Stream cq tcp → ℕ → List WorkCompletion
  waiting st i = items WorkCompletion (st.cqs i).pending_q

  pub complete_lem :
      (st : Stream cq tcp) (i : ℕ) (wce : WorkCompletion)
      → (completions (complete cq st i wce) i ≡ completions st i ++ wce ∷ [])
        × (waiting (complete cq st i wce) i ≡ waiting st i)
        × ((j : ℕ) → i ≢ j → (complete cq st i wce).cqs j ≡ st.cqs j)
  unfolding complete
  complete_lem st i wce = (
    ground (arith, fifo.items-enqueue WorkCompletion (st.cqs i).q wce),
    ground arith,
    λ j ne. ground arith,
  )

  pub complete_later_lem :
      (st : Stream cq tcp) (i : ℕ) (wce : WorkCompletion)
      → (completions (complete_later cq st i wce) i ≡ completions st i)
        × (waiting (complete_later cq st i wce) i ≡ waiting st i ++ wce ∷ [])
        × ((j : ℕ) → i ≢ j → (complete_later cq st i wce).cqs j ≡ st.cqs j)
  unfolding complete_later
  complete_later_lem st i wce = (
    ground arith,
    ground (arith, fifo.items-enqueue WorkCompletion (st.cqs i).pending_q wce),
    λ j ne. ground arith,
  )

  -- A received send takes the oldest receive request, and puts one completion with that request's
  -- number, the operation and success on the send queue's completion queue, behind those there.
  -- Completions that wait and the other completion queues do not change.
  pub handle_send_lem :
      (opcode : ℕ) (ret : ℤ) (st : Stream cq tcp) (l : RecvLocals) (wr : RecvWr) (wrs : List RecvWr)
      (j : ℕ)
      → items RecvWr st.recv_q ≡ wr ∷ wrs
      → let (st', l') = handle_send cq opcode ret st l in
        (items RecvWr st'.recv_q ≡ wrs)
        × (completions st' st.send_cq
            ≡ completions st st.send_cq
              ++ record l.wce {
                wr_id = wr.wr_id;
                status = wc_success;
                opcode = opcode;
                byte_len = to_u32 ret;
              }
                ∷ [])
        × (waiting st' st.send_cq ≡ waiting st st.send_cq)
        × ((st.send_cq ≡ j) ⊎ (st'.cqs j ≡ st.cqs j))
  unfolding handle_send complete
  handle_send_lem opcode ret st l wr wrs j some_wr =
      let (took, left) = fifo.try_dequeue_head RecvWr st.recv_q wr wrs some_wr in
      let wce' : WorkCompletion = record l.wce {
        wr_id = wr.wr_id;
        status = wc_success;
        opcode = opcode;
        byte_len = to_u32 ret;
      } in
      (
        ground (arith, took, left),
        ground (arith, took, fifo.items-enqueue WorkCompletion (st.cqs st.send_cq).q wce'),
        ground (arith, took),
        ground (arith, took),
      )

  -- A received send for which no receive request is left changes nothing.
  pub handle_send_empty :
      (opcode : ℕ) (ret : ℤ) (st : Stream cq tcp) (l : RecvLocals)
      → items RecvWr st.recv_q ≡ []
      → handle_send cq opcode ret st l ≡ (st, l)
  unfolding handle_send
  handle_send_empty opcode ret st l none_left =
      ground (arith, fifo.try_dequeue_empty RecvWr st.recv_q none_left)

  -- A read response for which a completion waits moves the oldest one, with the result of `ddp_recv`
  -- as its length, behind the completions that are to be polled; the other completion queues do not
  -- change.
  pub handle_read_resp_lem :
      (ret : ℤ) (st : Stream cq tcp) (l : RecvLocals) (wce : WorkCompletion)
      (wces : List WorkCompletion) (j : ℕ)
      → waiting st st.send_cq ≡ wce ∷ wces
      → let (st', l') = handle_read_resp cq ret st l in
        (completions st' st.send_cq
          ≡ completions st st.send_cq ++ record wce { byte_len = to_u32 ret } ∷ [])
        × (waiting st' st.send_cq ≡ wces)
        × ((st.send_cq ≡ j) ⊎ (st'.cqs j ≡ st.cqs j))
  unfolding handle_read_resp complete
  handle_read_resp_lem ret st l wce wces j some_wce =
      let (took, left) =
        fifo.try_dequeue_head WorkCompletion (st.cqs st.send_cq).pending_q wce wces some_wce in
      let wce' : WorkCompletion = record wce { byte_len = to_u32 ret } in
      (
        ground (arith, took, fifo.items-enqueue WorkCompletion (st.cqs st.send_cq).q wce'),
        ground (arith, took, left),
        ground (arith, took),
      )

  -- A read response that no read waits for changes nothing.
  pub handle_read_resp_empty :
      (ret : ℤ) (st : Stream cq tcp) (l : RecvLocals) (j : ℕ)
      → waiting st st.send_cq ≡ []
      → let (st', l') = handle_read_resp cq ret st l in (st'.cqs j ≡ st.cqs j) × (l' ≡ l)
  unfolding handle_read_resp
  handle_read_resp_empty ret st l j none_left =
      let e = fifo.try_dequeue_empty WorkCompletion (st.cqs st.send_cq).pending_q none_left in
      (ground (arith, e), ground (arith, e))
