-- ===== src/Tests/Untagged.antt =====
-- An untagged message of two segments from one machine to another.
use mathlib.Core.List.{flatten}
use soft_ui_warp.Prelude.{◌≤◌, ◌≡◌, refl, none, some, [], ◌∷◌, ◌++◌, arith, ℤ, pos, length}
use soft_ui_warp.Memory.{load}
use soft_ui_warp.Wire.{le_bytes, from_le, htonl}
use soft_ui_warp.Mpa.{mpa_send}
use soft_ui_warp.Ddp.{
  UntaggedMeta, UntaggedBuffer, Context, untagged_bytes, ddp_init_stream, ddp_post_recv,
  ddp_check_untagged_hdr,
}
use soft_ui_warp.Ddp.Send.{ddp_send_untagged}
use soft_ui_warp.Ddp.Recv.{World, ddp_recv}
use soft_ui_warp.Ddp.Segments.{all_pieces}
use soft_ui_warp.Ddp.UntaggedHeader.{untagged_host_order}
use soft_ui_warp.Ddp.Untagged.{DeliversUntagged}
use soft_ui_warp.Ddp.UntaggedTransfer.{from_start, untagged_transfer}
use soft_ui_warp.Tests.Data.{ramp, zeros, no_message, two_entries}
use soft_ui_warp.Tests.{demo_tcp, demo_net, demo_open, demo_queue, Pipe}

abbrev header : UntaggedMeta
header = record { rsvd_ulp1 = 67; rsvd_ulp2 = 0; qn = 0; msn = 0x01000000; mo = 5 }

abbrev buffer : UntaggedBuffer
buffer = record { buf_addr = 3000; len = 100; next = 0 }

abbrev posted : Context demo_queue
posted = ddp_post_recv demo_queue (ddp_init_stream demo_queue 3 0) (pos 0) (buffer ∷ [])

abbrev sent : ℤ × Pipe
sent = elim (ddp_send_untagged demo_tcp ramp ([], []) header two_entries) [
  | none ↦ (pos 0, ([], []))
  | some r ↦ r
]

ran : ddp_send_untagged demo_tcp ramp ([], []) header two_entries ≡ some (pos 0, sent.1)
unfolding ddp_send_untagged mpa_send le_bytes untagged_bytes load flatten
ran = refl

abbrev world : World demo_queue demo_tcp
world = record { ctx = posted; sock = (sent.1.1 ++ 7 ∷ [], []); mem = zeros }

checked :
    ddp_check_untagged_hdr demo_queue posted (untagged_host_order (from_start header))
    ≡ some (htonl header.qn)
unfolding ddp_check_untagged_hdr ddp_post_recv ddp_init_stream htonl from_le le_bytes
checked = refl

there :
    demo_queue.try_dequeue UntaggedBuffer (posted.queues (htonl header.qn)).q ≡ (some buffer, [])
unfolding ddp_post_recv ddp_init_stream htonl from_le le_bytes
there = refl

two_segments : length (all_pieces ramp two_entries) ≤ 5
unfolding all_pieces
two_segments = omega arith

untagged_transfer_example :
    DeliversUntagged demo_queue demo_net 70000 5 world no_message
      (from_start header)
      buffer
      []
      (7 ∷ [])
      (all_pieces ramp two_entries)
      (ddp_recv demo_queue demo_tcp 70000 5 world no_message)
untagged_transfer_example =
    untagged_transfer demo_queue demo_net 70000 5 world no_message header buffer [] (7 ∷ [])
      demo_open ramp ([], []) sent.1 two_entries sent.1.1 (omega arith) ran refl refl
      (record {
        rsvd1_fits = omega arith;
        rsvd2_fits = omega arith;
        qn_fits = omega arith;
        msn_fits = omega arith;
        mo_fits = omega arith;
      })
      checked there (omega arith) two_segments
