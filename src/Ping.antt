-- ===== src/Ping.antt =====
-- The example client (fake_ping_client.cpp): its arguments, the text that it puts in its buffer, and
-- the thread that serves its completion queue. Its main thread (Ping/Main) waits on a semaphore that
-- this thread posts; `snprintf` is the C library's, and what it prints is a parameter.
pub mod Fill
pub mod Receives
pub mod Main
pub mod Turns
pub mod Hang
use soft_ui_warp.Prelude.{
  ℕ, zero, suc, ◌+◌, ◌-◌, Bool, true, false, not, ◌||◌, Option, none, some, List, [], ◌∷◌, ◌++◌,
  ltb, ◌==◌, if◌then◌else◌, length, overwrite,
}
use soft_ui_warp.Memory.{update}
use soft_ui_warp.Queue.{ConcurrentQueue}
use soft_ui_warp.Tcp.{Tcp}
use soft_ui_warp.Ddp.{Sge}
use soft_ui_warp.WorkQueue.{WcStatus, wc_success, WorkCompletion, RecvWr}
use soft_ui_warp.Rdmap.{Stream, rdma_post_recv}

-- `struct Config`.
pub record Config : Type 0 where
  pub ip : List ℕ
  pub port : List ℕ

-- The client's arguments, the name of the program first; any other number of them ends it.
unfoldable pub ping_config : List (List ℕ) → Option Config
ping_config (name ∷ ip ∷ port ∷ []) = some (record { ip = ip; port = port })
ping_config [] = none
ping_config (name ∷ []) = none
ping_config (name ∷ ip ∷ []) = none
ping_config (name ∷ ip ∷ port ∷ arg ∷ args) = none

abbrev pub buf_len : ℕ
buf_len = 64

-- `c++; if (c > 122) c = 65;`
abbrev pub next_char : ℕ → ℕ
next_char c = if ltb 122 (c + 1) then 65 else c + 1

-- The `for` that fills the last `left` bytes of the buffer from the character `c` on.
unfoldable pub chars : ℕ → ℕ → List ℕ
chars zero c = []
chars (suc left) c = c ∷ chars left (next_char c)

-- The buffer of a ping: the text that was printed, characters up to the end, and a 0 in the last
-- place.
unfoldable pub ping_buffer : List ℕ → ℕ → List ℕ
unfolding chars
ping_buffer text start =
    overwrite (text ++ chars (buf_len - length text) start) (buf_len - 1) (0 ∷ [])

-- `struct ping_context`: the stream, and how often the semaphore has been posted.
pub record PingContext (cq : ConcurrentQueue) (tcp : Tcp) : Type 0 where
  pub stream : Stream cq tcp
  pub sem : ℕ

abbrev pub wc_send : ℕ
wc_send = 3

-- The thread's receive request, for the buffer at `buf`.
abbrev pub ping_recv_wr : ℕ → RecvWr
ping_recv_wr buf = record {
  wr_id = 1901;
  sg_list = record { addr = buf; len = 1000; lkey = 0 } ∷ [];
}

-- How a round of the thread ends: the loop goes on, or is left.
pub data PingRound : Type 0 where
  continues breaks : PingRound

abbrev pub succeeded : WcStatus → Bool
succeeded s = elim s [ wc_success ↦ true | _ ↦ false ]

module _ (cq : ConcurrentQueue) {tcp : Tcp} where
  -- A round of `cq_thread`.
  unfoldable pub cq_round : ℕ → PingContext cq tcp → PingRound × PingContext cq tcp
  cq_round buf p =
      let wr = ping_recv_wr buf in
      let c = p.stream.cqs p.stream.recv_cq in
      let (found, q') = cq.try_dequeue WorkCompletion c.q in
      let st : Stream cq tcp = record (p.stream) {
        cqs = update p.stream.cqs p.stream.recv_cq (record c { q = q' });
      } in
      let p' : PingContext cq tcp = record p { stream = st } in
      elim found [
        | none ↦ (continues, p')
        | some wc ↦
            if not (wc.opcode == wc_send) || not (wc.wr_id == wr.wr_id)
            then (continues, p')
            else if not (succeeded wc.status)
            then (breaks, record p' { stream = record st { connected = false } })
            else (continues, record p' { stream = rdma_post_recv cq st wr; sem = p.sem + 1 })
      ]

  -- What the thread does before its loop.
  unfoldable pub cq_thread_start : ℕ → PingContext cq tcp → PingContext cq tcp
  cq_thread_start buf p = record p { stream = rdma_post_recv cq p.stream (ping_recv_wr buf) }
