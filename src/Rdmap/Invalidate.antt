-- ===== src/Rdmap/Invalidate.antt =====
-- Sends with invalidate (suiw/rdmap/rdmap.cpp) at the receiver.
use soft_ui_warp.Prelude.{ℕ, ◌≡◌, ◌≢◌, Bool, some, arith, ℤ}
use soft_ui_warp.Queue.{ConcurrentQueue}
use soft_ui_warp.Tcp.{Tcp}
use soft_ui_warp.Ddp.{deregister_tagged_buffer}
use soft_ui_warp.WorkQueue.{opcode_of}
use soft_ui_warp.Rdmap.{Stream, get_rdmap_op, complete, rdma_invalidate}
use soft_ui_warp.Rdmap.RecvLoop.{RecvLocals, Round, rsvd_ulp1, asserted, handle_send, dispatch}

handle_send-ctx :
    (cq : ConcurrentQueue) {tcp : Tcp} (opcode : ℕ) (ret : ℤ) (st : Stream cq tcp) (l : RecvLocals)
    → (handle_send cq opcode ret st l).0.ddp_ctx ≡ st.ddp_ctx
unfolding handle_send complete
handle_send-ctx cq opcode ret st l = ground arith

-- Whatever a received message of the operation send with invalidate comes to, it leaves every tag
-- other than its control byte registered or not as it was.
pub invalidate_elsewhere :
    (cq : ConcurrentQueue) {tcp : Tcp} (asserts : Bool) (fuel : ℕ) (ret : ℤ)
    (st st' : Stream cq tcp) (l l' : RecvLocals) (r : Round) (tag : ℕ)
    → get_rdmap_op (rsvd_ulp1 l.msg.metadata) ≡ 4
    → tag ≢ rsvd_ulp1 l.msg.metadata
    → dispatch cq asserts fuel ret st l ≡ some (r, (st', l'))
    → st'.ddp_ctx.tagged_buffers tag ≡ st.ddp_ctx.tagged_buffers tag
unfolding dispatch asserted opcode_of rdma_invalidate deregister_tagged_buffer
invalidate_elsewhere cq asserts fuel ret st st' l l' r tag op other e = ground (
  arith,
  e,
  op,
  handle_send-ctx cq 4 ret
      (rdma_invalidate cq st (record { tag = rsvd_ulp1 l.msg.metadata; pd_id = 0 })).1 l,
)
