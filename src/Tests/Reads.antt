-- ===== src/Tests/Reads.antt =====
-- An RDMA read from machine to machine, run.
use mathlib.Core.List.{flatten}
use soft_ui_warp.Prelude.{◌≡◌, refl, true, Option, none, some, [], ◌∷◌, ◌++◌, arith, ◌+ℤ◌, ◌-ℤ◌}
use soft_ui_warp.Memory.{load, poke}
use soft_ui_warp.Wire.{le_bytes, from_le, htonl, htonll, htons}
use soft_ui_warp.Mpa.{
  mpa_send, after_payload, mpa_recv, recv_all, recv_header, recv_payload, recv_trailers,
}
use soft_ui_warp.Ddp.{
  Sge, UntaggedBuffer, ddp_post_recv, ddp_init_stream, untagged_bytes, tagged_bytes,
  register_tagged_buffer, ddp_check_stag, ddp_check_untagged_hdr, ddp_flag_last,
}
use soft_ui_warp.Ddp.Send.{ddp_send_untagged, ddp_send_tagged}
use soft_ui_warp.Ddp.Segments.{gathered, all_pieces}
use soft_ui_warp.WorkQueue.{rdma_read_req, own, SendWr, opcode_of}
use soft_ui_warp.Rdmap.{Stream, rdmap_init_stream, rdma_register, complete_later, get_rdmap_op}
use soft_ui_warp.Rdmap.RecvLoop.{
  RecvLocals, RecvState, Round, goes_on, recv_round, asserted, ddp_is_tagged, dispatch,
  handle_read_req, push_until, read_req_fields, rsvd_ulp1,
}
use soft_ui_warp.Rdmap.SendLoop.{
  SendState, send_request, send_round, fields_of, do_read_resp, fields_bytes, tagged_meta,
}
use soft_ui_warp.Rdmap.Messages.{HasArrived}
use soft_ui_warp.Rdmap.TaggedRequests
use soft_ui_warp.Rdmap.ReadRequests.{response}
use soft_ui_warp.Rdmap.Reads.{IsRead}
use soft_ui_warp.Rdmap.ReadTransfer.{source, asked_mem, read_transfer}
use soft_ui_warp.Tests.Data.{demo_stream, zeros, ramp, region, send_locals, recv_locals, outcome}
use soft_ui_warp.Tests.{demo_tcp, demo_net, demo_open, demo_queue, demo_fifo}
use soft_ui_warp.Ddp.Recv.{ddp_recv, recv_segments, recv_tagged, recv_untagged, segment_loop}
use soft_ui_warp.Ddp.Message.{
  as_untagged, decode_tagged, decode_untagged, field_at, is_last_segment, tagged_format,
  untagged_format,
}

-- The entry that is to be filled, in a registered region.
abbrev entry : Sge
entry = record { addr = 1010; len = 5; lkey = 1000 }

abbrev request : SendWr
request = record {
  wr_id = 4;
  sg_list = own (entry ∷ []);
  opcode = rdma_read_req;
  invalidate_rkey = 0;
  remote_addr = 20;
  rkey = 77;
}

abbrev reader : Stream demo_queue demo_tcp
reader = (rdma_register demo_queue (demo_stream ([], []) zeros) region).1

abbrev asked : SendState demo_queue demo_tcp
asked = outcome (reader, send_locals) (send_request demo_queue reader send_locals request)

-- The machine that is read, when the request has arrived with a byte of what follows.
abbrev owner : Stream demo_queue demo_tcp
owner = demo_stream (asked.0.sock.1 ++ 7 ∷ [], []) ramp

abbrev buffer : UntaggedBuffer
buffer = record { buf_addr = 5000; len = 28; next = 0 }

abbrev after_round :
    RecvState demo_queue demo_tcp
    → Option (Round × RecvState demo_queue demo_tcp)
    → RecvState demo_queue demo_tcp
after_round d none = d
after_round d (some r) = r.1

abbrev answering : RecvState demo_queue demo_tcp
answering = after_round (owner, recv_locals) (recv_round demo_queue true 70000 5 owner recv_locals)

abbrev answered : SendState demo_queue demo_tcp
answered = outcome (answering.0, send_locals) (send_round demo_queue answering.0 send_locals)

-- The reader when the response has arrived.
abbrev resumed : Stream demo_queue demo_tcp
resumed = record asked.0 { sock = (answered.0.sock.1 ++ 9 ∷ [], asked.0.sock.1) }

request-IsRead : IsRead demo_queue reader send_locals request entry
unfolding rdmap_init_stream rdma_register fields_of
request-IsRead = record {
  is_read = refl;
  one_entry = refl;
  fields_fit = record {
    sink_tag_fits = omega arith;
    sink_to_fits = omega arith;
    size_fits = omega arith;
    src_tag_fits = omega arith;
    src_to_fits = omega arith;
  };
  at_fits = omega arith;
  garbage_fits = omega arith;
  msn_fits = omega arith;
}

request_ran : send_request demo_queue reader send_locals request ≡ some (asked.0, asked.1)
unfolding send_request ddp_send_untagged mpa_send le_bytes untagged_bytes load flatten
request_ran = refl

request_arrived :
    HasArrived demo_queue demo_net demo_open 70000 5 reader.sock asked.0.sock owner 1 1 buffer
      (record { buf_addr = 6000; len = 28; next = 0 } ∷ [])
      (7 ∷ [])
unfolding rdmap_init_stream rdma_register ddp_post_recv ddp_init_stream
request_arrived = record {
  bytes = asked.0.sock.1;
  went = refl;
  arrived = refl;
  posted = refl;
  not_old = omega arith;
  enough_fuel = omega arith;
  enough_segs = omega arith;
}

round_ran :
    recv_round demo_queue true 70000 5 owner recv_locals
    ≡ some (goes_on, (answering.0, answering.1))
unfolding recv_round mpa_recv recv_header recv_payload after_payload recv_all recv_trailers ◌-ℤ◌
    ◌+ℤ◌ rdmap_init_stream send_request ddp_send_untagged mpa_send le_bytes untagged_bytes load poke
    flatten rdma_register from_le ddp_check_untagged_hdr htonl htons ddp_post_recv ddp_init_stream
    fields_of fields_bytes read_req_fields handle_read_req push_until dispatch asserted rsvd_ulp1
    ddp_is_tagged get_rdmap_op opcode_of ddp_flag_last ddp_recv as_untagged field_at decode_tagged
    decode_untagged tagged_format untagged_format is_last_segment segment_loop recv_segments
    recv_tagged recv_untagged
round_ran = refl

answer_ran : send_round demo_queue answering.0 send_locals ≡ some (answered.0, answered.1)
unfolding recv_round mpa_recv recv_header recv_payload after_payload recv_all recv_trailers ◌-ℤ◌
    ◌+ℤ◌ rdmap_init_stream send_request ddp_send_untagged mpa_send le_bytes untagged_bytes load poke
    flatten rdma_register from_le ddp_check_untagged_hdr htonl htons ddp_post_recv ddp_init_stream
    fields_of fields_bytes read_req_fields handle_read_req push_until dispatch asserted rsvd_ulp1
    ddp_is_tagged get_rdmap_op opcode_of ddp_flag_last ddp_recv as_untagged field_at decode_tagged
    decode_untagged tagged_format untagged_format is_last_segment segment_loop recv_segments
    recv_tagged recv_untagged send_round ddp_send_tagged tagged_bytes tagged_meta htonll
    do_read_resp
answer_ran = refl

response_checked :
    ddp_check_stag demo_queue resumed.ddp_ctx
      (TaggedRequests.tagged_header (response recv_locals (fields_of request entry)))
    ≡ some region
unfolding rdmap_init_stream rdma_register ddp_check_stag register_tagged_buffer fields_of
    send_request ddp_send_untagged mpa_send le_bytes untagged_bytes load flatten
response_checked = refl

response_arrived :
    TaggedRequests.HasArrived demo_queue demo_net demo_open 70000 5 answering.0.sock answered.0.sock
      (asked_mem owner buffer request entry)
      (source request entry ∷ [])
      resumed
      (response recv_locals (fields_of request entry))
      region
      (9 ∷ [])
unfolding recv_round mpa_recv recv_header recv_payload after_payload recv_all recv_trailers ◌-ℤ◌
    ◌+ℤ◌ rdmap_init_stream send_request ddp_send_untagged mpa_send le_bytes untagged_bytes load poke
    flatten rdma_register from_le ddp_check_untagged_hdr htonl htons ddp_post_recv ddp_init_stream
    fields_of fields_bytes read_req_fields handle_read_req push_until dispatch asserted rsvd_ulp1
    ddp_is_tagged get_rdmap_op opcode_of ddp_flag_last ddp_recv as_untagged field_at decode_tagged
    decode_untagged tagged_format untagged_format is_last_segment segment_loop recv_segments
    recv_tagged recv_untagged send_round ddp_send_tagged tagged_bytes tagged_meta htonll
    do_read_resp gathered all_pieces
response_arrived = record {
  bytes = answered.0.sock.1;
  went = refl;
  arrived = refl;
  checked = response_checked;
  room = omega arith;
  enough_fuel = omega arith;
  enough_segs = omega arith;
}

no_work : owner.send_q ≡ []
unfolding rdmap_init_stream
no_work = refl

waited : (resumed.cqs resumed.send_cq).pending_q ≡ asked.1.wce ∷ []
unfolding rdmap_init_stream rdma_register complete_later send_request ddp_send_untagged mpa_send
    le_bytes untagged_bytes load flatten
waited = refl

read_transfer_example :
    (a₃ : Stream demo_queue demo_tcp) × (l₃ : RecvLocals) × (recv_round demo_queue true 70000 5
        resumed recv_locals
      ≡ some (goes_on, (a₃, l₃)))
    × (a₃.mem ≡ poke resumed.mem 1010 (load (asked_mem owner buffer request entry) 20 5))
    × (a₃.sock.0 ≡ 9 ∷ [])
    × ((a₃.cqs resumed.send_cq).q
        ≡ (resumed.cqs resumed.send_cq).q ++ record asked.1.wce { byte_len = 0 } ∷ [])
    × ((a₃.cqs resumed.send_cq).pending_q ≡ [])
read_transfer_example =
    read_transfer demo_queue demo_fifo demo_net demo_open demo_net demo_open true 70000 5 reader
      asked.0 send_locals asked.1 request entry owner answering.0 answered.0 recv_locals answering.1
      send_locals answered.1 buffer (record { buf_addr = 6000; len = 28; next = 0 } ∷ []) (7 ∷ [])
      (9 ∷ []) resumed recv_locals region asked.1.wce [] request-IsRead request_ran (omega arith)
      request_arrived no_work round_ran answer_ran (omega arith, omega arith, omega arith)
      response_arrived waited
