-- ===== src/Tests/Invalidate.antt =====
-- A send with invalidate for the registered region.
use soft_ui_warp.Prelude.{◌≡◌, refl, ◌≢◌, true, some, arith, pos}
use soft_ui_warp.Ddp.{
  deregister_tagged_buffer, register_tagged_buffer, ddp_init_stream, ddp_post_recv,
}
use soft_ui_warp.Ddp.Message.{untagged}
use soft_ui_warp.WorkQueue.{opcode_of}
use soft_ui_warp.Rdmap.{Stream, get_rdmap_op, rdma_invalidate, rdma_register, rdmap_init_stream}
use soft_ui_warp.Rdmap.RecvLoop.{RecvLocals, returns_error, dispatch, rsvd_ulp1}
use soft_ui_warp.Rdmap.Invalidate.{invalidate_elsewhere}
use soft_ui_warp.Tests.Data.{receiver, recv_locals, no_message}
use soft_ui_warp.Tests.{demo_tcp, demo_queue}

abbrev asking : RecvLocals
asking = record recv_locals {
  msg = record no_message {
    metadata = untagged (record { rsvd_ulp1 = 68; rsvd_ulp2 = 1000; qn = 0; msn = 1; mo = 0 });
  };
}

abbrev refused : Stream demo_queue demo_tcp
refused = (rdma_invalidate demo_queue receiver (record { tag = 68; pd_id = 0 })).1

is_invalidate : get_rdmap_op (rsvd_ulp1 asking.msg.metadata) ≡ 4
unfolding get_rdmap_op rsvd_ulp1
is_invalidate = refl

is_other : 1000 ≢ rsvd_ulp1 asking.msg.metadata
unfolding rsvd_ulp1
is_other = omega arith

invalidate_ran :
    dispatch demo_queue true 5 (pos 0) receiver asking ≡ some (returns_error, (refused, asking))
unfolding get_rdmap_op dispatch rdma_invalidate rdma_register rdmap_init_stream
    register_tagged_buffer deregister_tagged_buffer opcode_of ddp_init_stream ddp_post_recv
invalidate_ran = refl

invalidate_elsewhere_example :
    refused.ddp_ctx.tagged_buffers 1000 ≡ receiver.ddp_ctx.tagged_buffers 1000
invalidate_elsewhere_example =
    invalidate_elsewhere demo_queue true 5 (pos 0) receiver refused asking asking returns_error 1000
      is_invalidate is_other invalidate_ran
