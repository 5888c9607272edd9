-- ===== src/Rdmap/Ledger.antt =====
-- The work that a stream holds (suiw/rdmap/rdmap.cpp, common/cq.h), counted by the number that its
-- user gave it: requests on the two work queues, completions that wait and completions to be polled.
-- The children say what the rounds of the two loops do to the counts.
pub mod SendRounds
pub mod RecvRounds
use soft_ui_warp.Prelude.{ℕ, ◌+◌, Bool, true, false, ◌&&◌, ◌==◌, length, count_if}
use soft_ui_warp.Queue.{ConcurrentQueue, IsFifo}
use soft_ui_warp.Tcp.{Tcp}
use soft_ui_warp.Ddp.{Sge}
use soft_ui_warp.WorkQueue.{
  RdmaOpcode, rdma_write, rdma_read_req, rdma_read_resp, send, send_inval, send_se, send_se_inval,
  terminate, not_supported, SgList, own, read_resp_sg, SendWr, RecvWr, WorkCompletion,
}
use soft_ui_warp.Rdmap.{Stream}
use soft_ui_warp.Rdmap.Handlers.{completions, waiting}

abbrev pub num_sge : SgList → ℕ
num_sge (own xs) = length xs
num_sge read_resp_sg = 1

-- The requests that the send loop is to report: sends, writes, and reads of one entry.
abbrev pub op_reported : RdmaOpcode → ℕ → Bool
op_reported rdma_write n = true
op_reported rdma_read_req n = n == 1
op_reported rdma_read_resp n = false
op_reported send n = true
op_reported send_inval n = true
op_reported send_se n = true
op_reported send_se_inval n = true
op_reported terminate n = false
op_reported not_supported n = false

-- The tests that count: by the number `x` of the work.
abbrev pub is_sent : ℕ → SendWr → Bool
is_sent x wr = op_reported wr.opcode (num_sge wr.sg_list) && (wr.wr_id == x)

abbrev pub is_recv : ℕ → RecvWr → Bool
is_recv x wr = wr.wr_id == x

abbrev pub is_done : ℕ → WorkCompletion → Bool
is_done x w = w.wr_id == x

module _ (cq : ConcurrentQueue) {tcp : Tcp} (fifo : IsFifo cq) (x : ℕ) where
  -- The pieces of work of number `x` that the stream holds.
  unfoldable pub held : Stream cq tcp → ℕ
  held st =
      count_if (is_sent x) (fifo.items SendWr st.send_q)
      + count_if (is_recv x) (fifo.items RecvWr st.recv_q)
      + count_if (is_done x) (completions cq fifo st st.send_cq)
      + count_if (is_done x) (waiting cq fifo st st.send_cq)
