-- ===== src/Tests/Loops.antt =====
-- Runs of the two loops' cases.
use soft_ui_warp.Prelude.{ℕ, ◌+◌, ◌^◌, ◌≡◌, refl, ◌⊎◌, none, some, [], ◌∷◌, ◌++◌, pos}
use soft_ui_warp.Ddp.Message.{untag_buf, DdpMessage, as_untagged}
use soft_ui_warp.WorkQueue.{wc_success, RecvWr, SendWr}
use soft_ui_warp.Rdmap.{Stream, ReadReqFields, rdmap_init_stream, rdma_post_recv}
use soft_ui_warp.Rdmap.SendLoop.{send_request, sges}
use soft_ui_warp.Rdmap.RecvLoop.{RecvLocals, goes_on, handle_send, handle_read_req, read_req_fields}
use soft_ui_warp.Rdmap.Handlers.{handle_send_lem}
use soft_ui_warp.Rdmap.Requests.{Completes, send_request_lem}
use soft_ui_warp.Rdmap.ReadRequests.{requested, response, handle_read_req_lem, two_requests_share}
use soft_ui_warp.Tests.Data.{
  demo_stream, zeros, no_message, send_locals, recv_locals, write_request, sender,
}
use soft_ui_warp.Tests.{demo_tcp, demo_queue, demo_fifo}

send_request_example :
    Completes demo_queue demo_fifo sender send_locals write_request
      (send_request demo_queue sender send_locals write_request)
send_request_example = send_request_lem demo_queue demo_fifo sender send_locals write_request

-- A stream with two receive requests.
abbrev request_of : ℕ → RecvWr
request_of n = record { wr_id = n; sg_list = record { addr = 2000 + n; len = 10; lkey = 0 } ∷ [] }

abbrev idle : Stream demo_queue demo_tcp
idle = demo_stream ([], []) zeros

abbrev posted : Stream demo_queue demo_tcp
posted = rdma_post_recv demo_queue (rdma_post_recv demo_queue idle (request_of 7)) (request_of 8)

posted_requests : posted.recv_q ≡ request_of 7 ∷ request_of 8 ∷ []
unfolding rdma_post_recv rdmap_init_stream
posted_requests = refl

handle_send_example :
    let (st', l') = handle_send demo_queue 3 (pos 0) posted recv_locals in
    (st'.recv_q ≡ request_of 8 ∷ [])
    × ((st'.cqs posted.send_cq).q
        ≡ (posted.cqs posted.send_cq).q
          ++ record { wr_id = 7; status = wc_success; opcode = 3; byte_len = 0; src_qp = 0 } ∷ [])
    × ((st'.cqs posted.send_cq).pending_q ≡ (posted.cqs posted.send_cq).pending_q)
    × ((posted.send_cq ≡ 1) ⊎ (st'.cqs 1 ≡ posted.cqs 1))
handle_send_example =
    handle_send_lem demo_queue demo_fifo 3 (pos 0) posted recv_locals (request_of 7)
      (request_of 8 ∷ []) 1 posted_requests

abbrev fields : ReadReqFields
fields = record { sink_tag = 1; sink_to = 70000; rdma_rd_sz = 12; src_tag = 2; src_to = 2 ^ 40 }

-- A message whose buffer is that at an address.
abbrev message_at : ℕ → DdpMessage
message_at a = record no_message { buf = untag_buf (record { buf_addr = a; len = 28; next = 0 }) }

abbrev asked : ℕ → RecvLocals
asked a = record recv_locals { msg = message_at a }

handle_read_req_example :
    let req = read_req_fields idle.mem 5000 in
    (st' : Stream demo_queue demo_tcp) × (l' : RecvLocals) × (handle_read_req demo_queue 1 idle
        (asked 5000)
      ≡ some (goes_on, (st', l')))
    × (st'.send_q ≡ idle.send_q ++ response (asked 5000) req ∷ [])
    × (st'.read_sg ≡ requested req)
    × ((st'.ddp_ctx.queues 1).q
        ≡ (idle.ddp_ctx.queues 1).q ++ record { buf_addr = 5000; len = 28; next = 0 } ∷ [])
    × (st'.mem ≡ idle.mem)
    × (st'.recv_q ≡ idle.recv_q)
    × (st'.cqs ≡ idle.cqs)
    × (l'.msg ≡ message_at 5000)
    × (l'.read_wr_id ≡ 1002)
    × (st'.sock ≡ idle.sock)
unfolding as_untagged
handle_read_req_example = handle_read_req_lem demo_queue demo_fifo 0 idle (asked 5000)

-- The stream after a request for which one try is enough.
abbrev after : Stream demo_queue demo_tcp → RecvLocals → Stream demo_queue demo_tcp × RecvLocals
after st l = elim (handle_read_req demo_queue 1 st l) [ none ↦ (st, l) | some r ↦ r.1 ]

abbrev once : Stream demo_queue demo_tcp × RecvLocals
once = after idle (asked 5000)

abbrev twice : Stream demo_queue demo_tcp × RecvLocals
twice = after once.0 (record once.1 { msg = message_at 6000 })

once_ran : handle_read_req demo_queue 1 idle (asked 5000) ≡ some (goes_on, (once.0, once.1))
unfolding handle_read_req
once_ran = refl

twice_ran :
    handle_read_req demo_queue 1 once.0 (record once.1 { msg = message_at 6000 })
    ≡ some (goes_on, (twice.0, twice.1))
unfolding handle_read_req
twice_ran = refl

two_requests_example :
    let req₁ = read_req_fields idle.mem 5000 in
    let req₂ = read_req_fields once.0.mem 6000 in
    (wr₁ wr₂ : SendWr) × (twice.0.send_q ≡ idle.send_q ++ wr₁ ∷ wr₂ ∷ [])
    × (wr₁.rkey ≡ req₁.sink_tag)
    × (wr₂.rkey ≡ req₂.sink_tag)
    × (sges twice.0.read_sg wr₁.sg_list ≡ requested req₂ ∷ [])
    × (sges twice.0.read_sg wr₂.sg_list ≡ requested req₂ ∷ [])
unfolding as_untagged
two_requests_example =
    two_requests_share demo_queue demo_fifo 0 idle once.0 twice.0 (asked 5000) once.1 twice.1
      (message_at 6000) once_ran twice_ran
