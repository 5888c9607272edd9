-- ===== src/Perftest/Completed.antt =====
-- Writes that a benchmark posts, and completions that report them (perftest/write_bw.cpp).
use soft_ui_warp.Prelude.{◌<◌, ◌≡◌, none, some, List, [], ◌∷◌, ◌++◌}
use soft_ui_warp.Queue.{ConcurrentQueue}
use soft_ui_warp.Tcp.{Tcp}
use soft_ui_warp.Ddp.{Sge}
use soft_ui_warp.Ddp.Segments.{last_len}
use soft_ui_warp.WorkQueue.{rdma_write, wc_success, WorkCompletion, own, SendWr}
use soft_ui_warp.Rdmap.SendLoop.{send_round}
use soft_ui_warp.Perftest.Iterations.{Machine, wc_write}

-- A round of the send loop, as what the other threads do between two polls.
unfoldable pub send_loop : (cq : ConcurrentQueue) {tcp : Tcp} → Machine cq tcp → Machine cq tcp
unfolding send_round
send_loop cq m = elim (send_round cq m.stream m.send_locals) [
  | none ↦ m
  | some (st, l) ↦ record { stream = st; send_locals = l }
]

-- A write of a list of the user's whose last entry is not empty.
pub record IsWrite (wr : SendWr) : Type 0 where
  pub sgs : List Sge
  pub is_write : wr.opcode ≡ rdma_write
  pub is_own : wr.sg_list ≡ own sgs
  pub some_bytes : 0 < last_len sgs

abbrev pub AllWrites : List SendWr → Type 0
AllWrites [] = Unit {0}
AllWrites (wr ∷ wrs) = IsWrite wr × AllWrites wrs

-- A completion that reports a write done.
abbrev pub IsWritten : WorkCompletion → Type 0
IsWritten w = (w.status ≡ wc_success) × (w.opcode ≡ wc_write)

abbrev pub AllWritten : List WorkCompletion → Type 0
AllWritten [] = Unit {0}
AllWritten (w ∷ ws) = IsWritten w × AllWritten ws

pub AllWrites-append : (xs ys : List SendWr) → AllWrites xs → AllWrites ys → AllWrites (xs ++ ys)
AllWrites-append [] ys h g = g
AllWrites-append (x ∷ xs) ys h g = (h.0, AllWrites-append xs ys h.1 g)

pub AllWritten-append :
    (xs ys : List WorkCompletion) → AllWritten xs → AllWritten ys → AllWritten (xs ++ ys)
AllWritten-append [] ys h g = g
AllWritten-append (x ∷ xs) ys h g = (h.0, AllWritten-append xs ys h.1 g)
