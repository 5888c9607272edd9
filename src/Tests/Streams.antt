-- ===== src/Tests/Streams.antt =====
-- An RDMA write, and its tagged message alone, from one machine to another.
use soft_ui_warp.Prelude.{
  ◌+◌, ◌^◌, ◌≤◌, ◌≡◌, refl, ap, ◌∙◌, true, none, some, [], ◌∷◌, ◌++◌, arith, ℤ, pos, length,
}
use mathlib.Core.List.{flatten}
use soft_ui_warp.Wire.{le_bytes}
use soft_ui_warp.Mpa.{mpa_send}
use soft_ui_warp.Memory.{poke, load}
use soft_ui_warp.Ddp.Send.{ddp_send_tagged}
use soft_ui_warp.Ddp.Segments.{gathered, all_pieces}
use soft_ui_warp.Wire.{htonl, htonll}
use soft_ui_warp.Wire.Bytes.{htonl_twice, htonll_twice, htonl-lt, htonll-lt}
use soft_ui_warp.Ddp.Recv.{World, ddp_recv}
use soft_ui_warp.Ddp.TaggedHeader.{host_order}
use soft_ui_warp.Ddp.Tagged.{Delivers}
use soft_ui_warp.Ddp.Transfer.{tagged_transfer}
use soft_ui_warp.Ddp.{TaggedMeta, tagged_bytes, register_tagged_buffer, ddp_check_stag}
use soft_ui_warp.Rdmap.{rdmap_init_stream, rdma_register}
use soft_ui_warp.Rdmap.SendLoop.{send_request}
use soft_ui_warp.Rdmap.RecvLoop.{RecvLocals, goes_on, recv_round}
use soft_ui_warp.Rdmap.TaggedRequests.{tagged_header}
use soft_ui_warp.Rdmap.Write.{write_transfer}
use soft_ui_warp.Tests.Data.{
  no_message, two_entries, send_locals, recv_locals, two_entries, write_request,
  write_request-IsRemote, region, sender, written, receiver,
}
use soft_ui_warp.Tests.{demo_tcp, demo_net, demo_open, demo_queue, Pipe}

write_ran : send_request demo_queue sender send_locals write_request ≡ some (written.0, written.1)
unfolding send_request ddp_send_tagged mpa_send le_bytes tagged_bytes load flatten
write_ran = refl

wrote : written.0.sock.1 ≡ sender.sock.1 ++ written.0.sock.1
unfolding rdmap_init_stream
wrote = refl

write_arrived : receiver.sock.0 ≡ written.0.sock.1 ++ 7 ∷ []
unfolding rdmap_init_stream rdma_register
write_arrived = refl

write_checked :
    ddp_check_stag demo_queue receiver.ddp_ctx (tagged_header write_request) ≡ some region
unfolding rdmap_init_stream rdma_register ddp_check_stag register_tagged_buffer
write_checked = refl

write_room : 1010 + length (gathered sender.mem two_entries) ≤ 2 ^ 64
unfolding gathered load
write_room = omega arith

write_segments : length (all_pieces sender.mem two_entries) ≤ 5
unfolding all_pieces
write_segments = omega arith

write_transfer_example :
    (s' : Pipe) × (l' : RecvLocals) × (recv_round demo_queue true 70000 5 receiver recv_locals
      ≡ some (
        goes_on,
        (
          record receiver {
            sock = s';
            mem = poke receiver.mem 1010 (gathered sender.mem two_entries);
          },
          l',
        ),
      ))
    × (s'.0 ≡ 7 ∷ [])
write_transfer_example =
    write_transfer demo_queue demo_net demo_open true 70000 5 sender written.0 send_locals written.1
      write_request receiver recv_locals region written.0.sock.1 (7 ∷ []) write_request-IsRemote
      (omega arith) (omega arith, omega arith, (omega arith, omega arith, _)) write_ran wrote
      write_arrived write_checked write_room (omega arith) write_segments

-- The sender's message alone, at the DDP layer.
abbrev message_header : TaggedMeta
message_header = record { rsvd_ulp1 = 64; tag = htonl 1000; to = htonll 1010 }

abbrev message_sent : ℤ × Pipe
message_sent = elim (ddp_send_tagged demo_tcp sender.mem ([], []) message_header two_entries) [
  | none ↦ (pos 0, ([], []))
  | some r ↦ r
]

message_ran :
    ddp_send_tagged demo_tcp sender.mem ([], []) message_header two_entries
    ≡ some (pos 0, message_sent.1)
unfolding ddp_send_tagged mpa_send le_bytes tagged_bytes load flatten
message_ran = refl

abbrev message_world : World demo_queue demo_tcp
message_world = record {
  ctx = receiver.ddp_ctx;
  sock = (message_sent.1.1 ++ 7 ∷ [], []);
  mem = receiver.mem;
}

message_order : host_order message_header ≡ record { rsvd_ulp1 = 64; tag = 1000; to = 1010 }
message_order = ground (arith, htonl_twice 1000 (omega arith), htonll_twice 1010 (omega arith))

tagged_transfer_example :
    Delivers demo_queue demo_net 70000 5 message_world no_message message_header region
      (7 ∷ [])
      (gathered sender.mem two_entries)
      (ddp_recv demo_queue demo_tcp 70000 5 message_world no_message)
tagged_transfer_example =
    tagged_transfer demo_queue demo_net 70000 5 message_world no_message message_header region
      (7 ∷ []) demo_open sender.mem ([], []) message_sent.1 two_entries message_sent.1.1
      (omega arith) (omega arith, omega arith, (omega arith, omega arith, _)) message_ran refl refl
      (record { rsvd_fits = omega arith; tag_fits = htonl-lt 1000; to_fits = htonll-lt 1010 })
      (ap (ddp_check_stag demo_queue receiver.ddp_ctx) message_order ∙ write_checked)
      (omega (arith, htonll_twice 1010 (omega arith), write_room)) (omega arith) write_segments
