-- ===== src/Tests/Data.antt =====
-- The streams, requests and buffers of the tests.
use soft_ui_warp.Prelude.{ℕ, ◌%◌, ◌≡◌, refl, Option, none, some, List, [], ◌∷◌, ◌++◌, arith, pos}
use soft_ui_warp.Memory.{Memory}
use soft_ui_warp.Ddp.{Sge, TaggedBuffer}
use soft_ui_warp.Ddp.Message.{tagged, untag_buf, DdpMessage}
use soft_ui_warp.WorkQueue.{rdma_write, wc_success, WorkCompletion, own, SendWr, Cq}
use soft_ui_warp.Rdmap.{Stream, rdmap_init_stream, rdma_register, complete_later}
use soft_ui_warp.Rdmap.SendLoop.{SendLocals, SendState, send_request}
use soft_ui_warp.Rdmap.RecvLoop.{RecvLocals}
use soft_ui_warp.Rdmap.Write.{IsRemote}
use soft_ui_warp.Tests.{demo_tcp, demo_queue, Pipe}

abbrev pub demo_cqs : ℕ → Cq demo_queue
demo_cqs i = record { q = []; pending_q = [] }

abbrev pub demo_stream : Pipe → Memory → Stream demo_queue demo_tcp
demo_stream sock mem =
    rdmap_init_stream demo_queue sock mem 3 0 [] [] demo_cqs 0 1 (5000 ∷ 6000 ∷ [])

-- The bytes 0, 1, 2, … over and over.
abbrev pub ramp : Memory
ramp i = i % 256

abbrev pub zeros : Memory
zeros i = 0

abbrev pub no_completion : WorkCompletion
no_completion = record { wr_id = 0; status = wc_success; opcode = 0; byte_len = 0; src_qp = 0 }

abbrev pub send_locals : SendLocals
send_locals = record {
  wce = no_completion;
  msn_send = 1;
  msn_inval = 1;
  msn_read = 1;
  garbage = 0;
  fields_at = 9000;
}

abbrev pub no_message : DdpMessage
no_message = record {
  bits = 0;
  metadata = tagged (record { rsvd_ulp1 = 0; tag = 0; to = 0 });
  buf = untag_buf (record { buf_addr = 0; len = 0; next = 0 });
  len = pos 0;
}

abbrev pub recv_locals : RecvLocals
recv_locals = record { msg = no_message; wce = no_completion; read_wr_id = 1001 }

abbrev pub two_entries : List Sge
two_entries = record { addr = 10; len = 3; lkey = 0 } ∷ record { addr = 20; len = 2; lkey = 0 } ∷ []

abbrev pub write_request : SendWr
write_request = record {
  wr_id = 42;
  sg_list = own two_entries;
  opcode = rdma_write;
  invalidate_rkey = 0;
  remote_addr = 1010;
  rkey = 1000;
}

abbrev pub write_request-IsRemote : IsRemote write_request
write_request-IsRemote = record {
  is_write = refl;
  rkey_fits = omega arith;
  addr_fits = omega arith;
}

abbrev pub region : TaggedBuffer
region = record {
  stag = record { tag = 1000; pd_id = 0 };
  buf_addr = 1000;
  len = 100;
  access_ctrl = 0;
}

abbrev pub sender : Stream demo_queue demo_tcp
sender = demo_stream ([], []) ramp

-- The stream and the loop's variables after a request, or those given.
abbrev pub outcome :
    Stream demo_queue demo_tcp × SendLocals
    → Option (SendState demo_queue demo_tcp)
    → SendState demo_queue demo_tcp
outcome d none = d
outcome d (some s) = s

abbrev pub written : SendState demo_queue demo_tcp
written = outcome (sender, send_locals) (send_request demo_queue sender send_locals write_request)

-- The machine that the write goes to, when it has arrived with a byte of what follows.
abbrev pub receiver : Stream demo_queue demo_tcp
receiver = (rdma_register demo_queue (demo_stream (written.0.sock.1 ++ 7 ∷ [], []) zeros) region).1

-- A stream on which a read waits for its response.
abbrev pub read_completion : WorkCompletion
read_completion = record { wr_id = 9; status = wc_success; opcode = 1; byte_len = 0; src_qp = 0 }

abbrev pub reading : Stream demo_queue demo_tcp
reading = complete_later demo_queue receiver 0 read_completion

pub read_waits : (reading.cqs reading.send_cq).pending_q ≡ read_completion ∷ []
unfolding complete_later rdmap_init_stream rdma_register
read_waits = refl
