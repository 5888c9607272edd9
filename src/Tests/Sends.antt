-- ===== src/Tests/Sends.antt =====
-- A send from machine to machine, run.
use soft_ui_warp.Prelude.{◌≡◌, refl, inl, true, some, [], ◌∷◌, ◌++◌, arith}
use soft_ui_warp.Memory.{load, poke}
use soft_ui_warp.Ddp.{Sge, UntaggedBuffer, ddp_post_recv, ddp_init_stream, untagged_bytes}
use soft_ui_warp.Ddp.Send.{ddp_send_untagged}
use soft_ui_warp.Mpa.{mpa_send}
use soft_ui_warp.Wire.{le_bytes}
use mathlib.Core.List.{flatten}
use soft_ui_warp.Ddp.Untagged.{taken}
use soft_ui_warp.WorkQueue.{send, wc_success, own, SendWr, RecvWr}
use soft_ui_warp.Rdmap.{Stream, rdma_post_recv, rdmap_init_stream}
use soft_ui_warp.Rdmap.RecvLoop.{RecvLocals, goes_on, recv_round}
use soft_ui_warp.Rdmap.SendLoop.{SendState, send_request}
use soft_ui_warp.Rdmap.Messages.{HasArrived}
use soft_ui_warp.Rdmap.Sends.{IsSend, send_transfer}
use soft_ui_warp.Tests.Data.{
  demo_stream, zeros, no_completion, send_locals, recv_locals, sender, outcome,
}
use soft_ui_warp.Tests.{demo_tcp, demo_net, demo_open, demo_queue, demo_fifo}

abbrev entry : Sge
entry = record { addr = 10; len = 5; lkey = 0 }

abbrev request : SendWr
request = record {
  wr_id = 4;
  sg_list = own (entry ∷ []);
  opcode = send;
  invalidate_rkey = 0;
  remote_addr = 0;
  rkey = 0;
}

abbrev posted_wr : RecvWr
posted_wr = record { wr_id = 8; sg_list = record { addr = 3000; len = 100; lkey = 0 } ∷ [] }

abbrev buffer : UntaggedBuffer
buffer = record { buf_addr = 3000; len = 100; next = 0 }

abbrev done : SendState demo_queue demo_tcp
done = outcome (sender, send_locals) (send_request demo_queue sender send_locals request)

abbrev listener : Stream demo_queue demo_tcp
listener = rdma_post_recv demo_queue (demo_stream (done.0.sock.1 ++ 7 ∷ [], []) zeros) posted_wr

request-IsSend : IsSend demo_queue sender send_locals request entry
unfolding rdmap_init_stream
request-IsSend = record {
  which = inl refl;
  one_entry = refl;
  short = record { some_bytes = omega arith; few_bytes = omega arith; in_range = omega arith };
  garbage_fits = omega arith;
  msn_fits = omega arith;
}

ran : send_request demo_queue sender send_locals request ≡ some (done.0, done.1)
unfolding send_request ddp_send_untagged mpa_send le_bytes untagged_bytes load flatten
ran = refl

has_arrived :
    HasArrived demo_queue demo_net demo_open 70000 5 sender.sock done.0.sock listener 0 1 buffer []
      (7 ∷ [])
unfolding rdma_post_recv rdmap_init_stream ddp_post_recv ddp_init_stream
has_arrived = record {
  bytes = done.0.sock.1;
  went = refl;
  arrived = refl;
  posted = refl;
  not_old = omega arith;
  enough_fuel = omega arith;
  enough_segs = omega arith;
}

awaited : listener.recv_q ≡ posted_wr ∷ []
unfolding rdma_post_recv rdmap_init_stream
awaited = refl

send_transfer_example :
    (st' : Stream demo_queue demo_tcp) × (l' : RecvLocals) × (recv_round demo_queue true 70000 5
        listener recv_locals
      ≡ some (goes_on, (st', l')))
    × (st'.mem ≡ poke listener.mem 3000 (load sender.mem 10 5))
    × (st'.ddp_ctx ≡ taken demo_queue listener.ddp_ctx 0 [])
    × (st'.sock.0 ≡ 7 ∷ [])
    × (st'.recv_q ≡ [])
    × ((st'.cqs 0).q
        ≡ (listener.cqs 0).q
          ++ record no_completion { wr_id = 8; status = wc_success; opcode = 3; byte_len = 0 } ∷ [])
    × ((st'.cqs 0).pending_q ≡ (listener.cqs 0).pending_q)
unfolding rdma_post_recv rdmap_init_stream
send_transfer_example =
    send_transfer demo_queue demo_fifo demo_net demo_open true 70000 5 sender done.0 send_locals
      done.1 request entry listener recv_locals buffer [] posted_wr [] (7 ∷ []) request-IsSend ran
      has_arrived awaited
