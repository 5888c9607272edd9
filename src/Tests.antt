-- ===== src/Tests.antt =====
-- A small network and a list as a queue, with which the tests run the code.
pub mod Data
pub mod Handshakes
pub mod Invalidate
pub mod Loops
pub mod Rounds
pub mod Checks
pub mod Daemon
pub mod Suiw
pub mod Verbs
pub mod Control
pub mod Transport
pub mod Streams
pub mod Untagged
pub mod Perftest
pub mod Ping
pub mod PingMain
pub mod Sends
pub mod Reads
pub mod Threads
pub mod Exchange
use Prim.Native.Nat.{min}
use soft_ui_warp.Prelude.{
  ℕ, ◌≡◌, refl, sym, true, false, Option, none, some, List, [], ◌∷◌, ◌++◌, arith, ltb,
  if◌then◌else◌, pos, length, take, drop, length-take, take-append-drop,
}
use soft_ui_warp.Tcp.{Tcp, IsReliable, IsOpen, got}
use soft_ui_warp.Queue.{ConcurrentQueue, IsFifo}

-- The bytes to read and the bytes sent.
abbrev pub Pipe : Type 0
Pipe = List ℕ × List ℕ

-- A read gives five bytes at most.
abbrev pub piece : ℕ → ℕ
piece n = if ltb n 5 then n else 5

pub piece-min : (n : ℕ) → piece n ≡ min n 5
piece-min n = ground arith

abbrev pub demo_tcp : Tcp
demo_tcp = record {
  State = Pipe;
  recv = λ s n. (got (take (piece n) s.0), (drop (piece n) s.0, s.1));
  recv_now = λ s n. (got (take (piece n) s.0), false, (drop (piece n) s.0, s.1));
  sendmsg = λ s bs. (pos (length bs), (s.0, s.1 ++ bs));
}

abbrev pub demo_net : IsReliable demo_tcp
demo_net = record {
  pending = λ s. s.0;
  chunk = λ s n. take (piece n) s.0;
  next = λ s n. (drop (piece n) s.0, s.1);
  recv_gives = λ s n. refl;
  in_order = λ s n. sym (take-append-drop (piece n) s.0);
  at_most = λ s n. omega (arith, piece-min n, length-take (piece n) s.0);
  progress = λ s n h g. omega (arith, piece-min n, length-take (piece n) s.0);
  whole = λ s n h g. omega (arith, piece-min n, length-take (piece n) s.0);
}

abbrev pub demo_open : IsOpen demo_tcp
demo_open = record {
  sent = λ s. s.1;
  put = λ s bs. (s.0, s.1 ++ bs);
  sendmsg_takes = λ s bs. refl;
  sent-put = λ s bs. refl;
}

-- A list as a queue.
abbrev pub demo_pop : (A : Type 0) → List A → Option A × List A
demo_pop A [] = (none, [])
demo_pop A (a ∷ l) = (some a, l)

abbrev pub demo_rest : (A : Type 0) → List A → List A
demo_rest A [] = []
demo_rest A (a ∷ l) = l

abbrev pub demo_queue : ConcurrentQueue
demo_queue = record {
  Q = λ A. List A;
  new = λ A n. [];
  enqueue = λ A q a. (true, q ++ a ∷ []);
  enqueue_bulk = λ A q l. (true, q ++ l);
  try_dequeue = λ A q. demo_pop A q;
  try_dequeue_bulk = λ A q n. (take n q, drop n q);
}

pub empty_pop : (A : Type 0) (q : List A) → q ≡ [] → demo_pop A q ≡ (none, q)
empty_pop A [] e = refl
empty_pop A (a ∷ q) e = ground (arith, e)

pub head_pop :
    (A : Type 0) (q : List A) (a : A) (l : List A)
    → q ≡ a ∷ l
    → (demo_pop A q ≡ (some a, demo_rest A q)) × (demo_rest A q ≡ l)
head_pop A [] a l e = ground (arith, e)
head_pop A (x ∷ q) a l e = (ground (arith, e), ground (arith, e))

abbrev pub demo_fifo : IsFifo demo_queue
demo_fifo = record {
  items = λ A q. q;
  items-new = λ A n. refl;
  enqueued = λ A q a. refl;
  items-enqueue = λ A q a. refl;
  items-enqueue_bulk = λ A q l. refl;
  try_dequeue_empty = empty_pop;
  rest = λ A q. demo_rest A q;
  try_dequeue_head = head_pop;
  try_dequeue_bulk_first = λ A q n. (refl, refl);
}
