-- ===== src/Rdmap/Threads.antt =====
-- A stream and the threads that share it (suiw/rdmap/rdmap.cpp, common/cq.cpp): the two loops that
-- `rdmap_init_stream` starts, and the user's calls. A step is one call, the test at the head of a
-- loop, or what one round of a loop does; the steps come in any order, so that a stream may be
-- disconnected when a loop is already in a round.
pub mod OneReport
pub mod Flush
use soft_ui_warp.Prelude.{
  ℕ, ◌+◌, ◌≡◌, refl, ap, ◌∙◌, inl, inr, Bool, true, false, Option, none, some, List, [], ◌∷◌, ◌++◌,
  arith, ◌==◌, ==_iff, Bool-cases, count_if, count_if-append, count_if-take-drop, List-cases,
}
use mathlib.Core.Path.{fun_ext}
use soft_ui_warp.Memory.{Memory, update}
use soft_ui_warp.Queue.{ConcurrentQueue, IsFifo}
use soft_ui_warp.Tcp.{Tcp}
use soft_ui_warp.Ddp.{Stag, TaggedBuffer}
use soft_ui_warp.WorkQueue.{SendWr, RecvWr, WorkCompletion, Cq, poll_cq, create_cq}
use soft_ui_warp.Rdmap.{
  Stream, rdmap_send, rdma_post_recv, rdma_register, rdma_invalidate, rdmap_init_stream,
}
use soft_ui_warp.Rdmap.RecvLoop.{RecvLocals, Round, goes_on, returns_error, aborts, recv_round}
use soft_ui_warp.Rdmap.SendLoop.{SendLocals, send_round}
use soft_ui_warp.Rdmap.Ledger.{is_sent, is_recv, is_done, held}
use soft_ui_warp.Rdmap.Ledger.SendRounds.{send_round-held}
use soft_ui_warp.Rdmap.Ledger.RecvRounds.{recv_round-held}

-- The stream, the variables of the two loops, whether the receive loop still runs, which of the loops
-- has found the stream connected and is in a round, and what the user has done: the requests posted on the two work queues, and the completions polled from the send
-- queue's completion queue.
pub record Process (cq : ConcurrentQueue) (tcp : Tcp) : Type 0 where
  pub stream : Stream cq tcp
  pub send_locals : SendLocals
  pub recv_locals : RecvLocals
  pub receiving : Bool
  pub send_in_round : Bool
  pub recv_in_round : Bool
  pub asked : List SendWr
  pub awaited : List RecvWr
  pub polled : List WorkCompletion

-- Whether the loop goes on after a round.
abbrev pub still_runs : Round → Bool
still_runs goes_on = true
still_runs returns_error = false
still_runs aborts = false

module _ (cq : ConcurrentQueue) {tcp : Tcp} where
  -- The stream when completions have been polled from the send queue's completion queue.
  unfoldable pub poll_send_cq : Stream cq tcp → ℕ → List WorkCompletion × Stream cq tcp
  poll_send_cq st n =
      let (wcs, c) = poll_cq cq (st.cqs st.send_cq) n in
      (wcs, record st { cqs = update st.cqs st.send_cq c })

  -- The stream when one completion has been taken from a completion queue, where there is one.
  unfoldable pub take_one : Stream cq tcp → ℕ → Option WorkCompletion × Stream cq tcp
  take_one st i =
      let c = st.cqs i in
      let (found, q') = cq.try_dequeue WorkCompletion c.q in
      (found, record st { cqs = update st.cqs i (record c { q = q' }) })

module _ (cq : ConcurrentQueue) {tcp : Tcp} (fifo : IsFifo cq) (st : Stream cq tcp) (i : ℕ) where
  -- Of an empty queue nothing is taken, and the stream stays.
  pub take_one-empty : fifo.items WorkCompletion (st.cqs i).q ≡ [] → take_one cq st i ≡ (none, st)
  unfolding take_one
  take_one-empty e =
      let same : update st.cqs i (st.cqs i) ≡ st.cqs = fun_ext (λ j. elim (Bool-cases (i == j)) [
        | inl t ↦ rw (t, (==_iff i j).0 t) refl
        | inr f ↦ rw f refl
      ]) in
      rw (fifo.try_dequeue_empty WorkCompletion (st.cqs i).q e, same) refl

-- A completion found, before those that were polled earlier.
abbrev pub and_polled : Option WorkCompletion → List WorkCompletion → List WorkCompletion
and_polled none ws = ws
and_polled (some w) ws = w ∷ ws

module _ (cq : ConcurrentQueue) {tcp : Tcp} (asserts : Bool) (fuel segs : ℕ) where
  -- One step. A loop enters a round while the stream is connected, and goes through it whatever has
  -- become of the connection. Bytes that arrive and the user's stores may change the socket and the
  -- memory in any way.
  pub data Step (p : Process cq tcp) : Process cq tcp → Type 0 where
    posts_send :
        (wr : SendWr)
        → Step p (record p { stream = (rdmap_send cq p.stream wr).1; asked = wr ∷ p.asked })
    posts_recv :
        (wr : RecvWr)
        → Step p (record p { stream = rdma_post_recv cq p.stream wr; awaited = wr ∷ p.awaited })
    polls :
        (n : ℕ)
        → Step p (record p {
          stream = (poll_send_cq cq p.stream n).1;
          polled = (poll_send_cq cq p.stream n).0 ++ p.polled;
        })
    takes : Step p (record p {
      stream = (take_one cq p.stream p.stream.send_cq).1;
      polled = and_polled (take_one cq p.stream p.stream.send_cq).0 p.polled;
    })
    registers : (b : TaggedBuffer) → Step p (record p { stream = (rdma_register cq p.stream b).1 })
    invalidates : (s : Stag) → Step p (record p { stream = (rdma_invalidate cq p.stream s).1 })
    disconnects : Step p (record p { stream = record p.stream { connected = false } })
    arrives :
        (s : tcp.State) (m : Memory)
        → Step p (record p { stream = record p.stream { sock = s; mem = m } })
    send_enters :
        p.stream.connected ≡ true
        → p.send_in_round ≡ false
        → Step p (record p { send_in_round = true })
    sends :
        (st' : Stream cq tcp) (l' : SendLocals)
        → p.send_in_round ≡ true
        → send_round cq p.stream p.send_locals ≡ some (st', l')
        → Step p (record p { stream = st'; send_locals = l'; send_in_round = false })
    recv_enters :
        p.stream.connected ≡ true
        → p.receiving ≡ true
        → p.recv_in_round ≡ false
        → Step p (record p { recv_in_round = true })
    receives :
        (r : Round) (st' : Stream cq tcp) (l' : RecvLocals)
        → p.recv_in_round ≡ true
        → recv_round cq asserts fuel segs p.stream p.recv_locals ≡ some (r, (st', l'))
        → Step p (record p {
          stream = st';
          recv_locals = l';
          receiving = still_runs r;
          recv_in_round = false;
        })

  pub data Reach (p : Process cq tcp) : Process cq tcp → Type 0 where
    here : Reach p p
    later : {q r : Process cq tcp} → Reach p q → Step q r → Reach p r

-- A process whose stream has just been made, on new queues.
unfoldable pub new_process :
    (cq : ConcurrentQueue) {tcp : Tcp}
    → tcp.State
    → Memory
    → ℕ
    → ℕ
    → ℕ
    → List ℕ
    → SendLocals
    → RecvLocals
    → Process cq tcp
new_process cq sock mem send_cq recv_cq max addrs sl rl = record {
  stream =
      rdmap_init_stream cq sock mem 0 0 (cq.new SendWr max) (cq.new RecvWr max)
        (λ i. create_cq cq max) send_cq recv_cq addrs;
  send_locals = sl;
  recv_locals = rl;
  receiving = true;
  send_in_round = false;
  recv_in_round = false;
  asked = [];
  awaited = [];
  polled = [];
}

module _ (cq : ConcurrentQueue) {tcp : Tcp} (fifo : IsFifo cq) (x : ℕ) where
  -- The work of number `x` that has been posted, and that which is held or has been polled.
  abbrev pub posted : Process cq tcp → ℕ
  posted p = count_if (is_sent x) p.asked + count_if (is_recv x) p.awaited

  abbrev pub accounted : Process cq tcp → ℕ
  accounted p = held cq fifo x p.stream + count_if (is_done x) p.polled

  abbrev pub IsBalanced : Process cq tcp → Type 0
  IsBalanced p = accounted p ≡ posted p

module _ (cq : ConcurrentQueue) (tcp : Tcp) (fifo : IsFifo cq) (x : ℕ) where
  -- A new process has posted nothing, and holds nothing.
  new-IsBalanced :
      (sock : tcp.State) (mem : Memory) (send_cq recv_cq max : ℕ) (addrs : List ℕ) (sl : SendLocals)
      (rl : RecvLocals)
      → IsBalanced cq {tcp = tcp} fifo x (new_process cq sock mem send_cq recv_cq max addrs sl rl)
  unfolding new_process rdmap_init_stream create_cq held count_if
  new-IsBalanced sock mem send_cq recv_cq max addrs sl rl = ground (
    arith,
    fifo.items-new SendWr max,
    fifo.items-new RecvWr max,
    fifo.items-new WorkCompletion max,
  )

module _ (cq : ConcurrentQueue) {tcp : Tcp} (fifo : IsFifo cq) (x : ℕ) (asserts : Bool)
    (fuel segs : ℕ) where
  -- A completion that is taken is polled.
  take_one-IsBalanced :
      (p : Process cq tcp)
      → IsBalanced cq fifo x p
      → IsBalanced cq fifo x (record p {
        stream = (take_one cq p.stream p.stream.send_cq).1;
        polled = and_polled (take_one cq p.stream p.stream.send_cq).0 p.polled;
      })
  unfolding take_one held count_if
  take_one-IsBalanced p h =
      let q = (p.stream.cqs p.stream.send_cq).q in
      elim (List-cases (fifo.items WorkCompletion q)) [
        | inl e ↦ ground (arith, h, e, fifo.try_dequeue_empty WorkCompletion q e)
        | inr (w, ws, e) ↦
            (let (found, left) = fifo.try_dequeue_head WorkCompletion q w ws e in
              ground (arith, h, e, found, left))
      ]

  pub Step-IsBalanced :
      {p q : Process cq tcp}
      → Step cq asserts fuel segs p q
      → IsBalanced cq fifo x p
      → IsBalanced cq fifo x q
  unfolding count_if
  Step-IsBalanced {p} (posts_send wr) h =
      let st = p.stream in
      let new = fifo.items-enqueue SendWr st.send_q wr in
      let added = count_if-append (is_sent x) (fifo.items SendWr st.send_q) (wr ∷ []) in
      unfold rdmap_send held in ground (arith, h, new, added)
  Step-IsBalanced {p} (posts_recv wr) h =
      let st = p.stream in
      let new = fifo.items-enqueue RecvWr st.recv_q wr in
      let added = count_if-append (is_recv x) (fifo.items RecvWr st.recv_q) (wr ∷ []) in
      unfold rdma_post_recv held in ground (arith, h, new, added)
  Step-IsBalanced {p} (polls n) h =
      let st = p.stream in
      let q = (st.cqs st.send_cq).q in
      let (taken, left) = fifo.try_dequeue_bulk_first WorkCompletion q n in
      let wcs = (cq.try_dequeue_bulk WorkCompletion q n).0 in
      let parts = count_if-take-drop (is_done x) n (fifo.items WorkCompletion q) in
      let moved = count_if-append (is_done x) wcs p.polled in
      unfold poll_send_cq poll_cq held in ground (arith, h, taken, left, parts, moved)
  Step-IsBalanced {p} takes h = take_one-IsBalanced p h
  Step-IsBalanced (registers b) h = unfold rdma_register held in h
  Step-IsBalanced (invalidates s) h = unfold rdma_invalidate held in h
  Step-IsBalanced disconnects h = unfold held in h
  Step-IsBalanced (arrives s m) h = unfold held in h
  Step-IsBalanced (send_enters on head) h = h
  Step-IsBalanced {p} (sends st' l' inside e) h =
      ap (λ k. k + count_if (is_done x) p.polled)
        (send_round-held cq fifo x p.stream st' p.send_locals l' e)
      ∙ h
  Step-IsBalanced (recv_enters on runs head) h = h
  Step-IsBalanced {p} (receives r st' l' inside e) h =
      ap (λ k. k + count_if (is_done x) p.polled)
        (recv_round-held cq fifo x asserts fuel segs r p.stream st' p.recv_locals l' e)
      ∙ h

  pub Reach-IsBalanced :
      {p q : Process cq tcp}
      → Reach cq asserts fuel segs p q
      → IsBalanced cq fifo x p
      → IsBalanced cq fifo x q
  Reach-IsBalanced here h = h
  Reach-IsBalanced (later r s) h = Step-IsBalanced s (Reach-IsBalanced r h)

  -- Whatever the two loops, the user and the network do to a new stream, and in whatever order,
  -- no work is lost and none is reported twice: for each number, the requests and completions of
  -- that number that the stream holds and the completions that have been polled are together as
  -- many as the receive requests and the sends, writes and reads of one entry of that number that
  -- were posted.
  pub none_lost_or_repeated :
      (sock : tcp.State) (mem : Memory) (send_cq recv_cq max : ℕ) (addrs : List ℕ) (sl : SendLocals)
      (rl : RecvLocals) (p : Process cq tcp)
      → Reach cq asserts fuel segs (new_process cq sock mem send_cq recv_cq max addrs sl rl) p
      → held cq fifo x p.stream + count_if (is_done x) p.polled
        ≡ count_if (is_sent x) p.asked + count_if (is_recv x) p.awaited
  none_lost_or_repeated sock mem send_cq recv_cq max addrs sl rl p reached =
      Reach-IsBalanced reached
        (new-IsBalanced cq tcp fifo x sock mem send_cq recv_cq max addrs sl rl)
