-- ===== src/Tests/Rounds.antt =====
-- Runs of whole rounds of the receive loop.
use mathlib.Core.List.{flatten}
use soft_ui_warp.Prelude.{ℕ, ◌≡◌, refl, ap, ◌∙◌, true, some, List, [], ◌∷◌, ◌++◌, arith}
use soft_ui_warp.Wire.{htonl, htonll}
use soft_ui_warp.Wire.Bytes.{htonl_twice, htonll_twice, htonl-lt, htonll-lt}
use soft_ui_warp.Ddp.{TaggedMeta, tagged_bytes, ddp_check_stag, register_tagged_buffer}
use soft_ui_warp.Ddp.Send.{advance_to}
use soft_ui_warp.Ddp.Segments.{wire}
use soft_ui_warp.Ddp.TaggedHeader.{host_order, tagged_bits}
use soft_ui_warp.Ddp.Tagged.{CanReceive, Delivers, ddp_recv_tagged}
use soft_ui_warp.Ddp.Recv.{ddp_recv}
use soft_ui_warp.Rdmap.{Stream, rdmap_init_stream, rdma_register, complete_later}
use soft_ui_warp.Rdmap.Rounds.{world}
use soft_ui_warp.Tests.Data.{recv_locals, region, reading}
use soft_ui_warp.Tests.{demo_tcp, demo_net, demo_queue}

-- A read response of two segments.
abbrev response_header : TaggedMeta
response_header = record { rsvd_ulp1 = 66; tag = htonl 1000; to = htonll 1010 }

abbrev response_bytes : List ℕ
response_bytes =
    wire tagged_bytes advance_to true tagged_bits response_header
      ((1 ∷ 2 ∷ 3 ∷ []) ∷ (4 ∷ 5 ∷ []) ∷ [])

abbrev answered : Stream demo_queue demo_tcp
answered = record reading { sock = (response_bytes ++ 7 ∷ [], []) }

answered_checked :
    ddp_check_stag demo_queue answered.ddp_ctx (record { rsvd_ulp1 = 66; tag = 1000; to = 1010 })
    ≡ some region
unfolding complete_later rdmap_init_stream rdma_register register_tagged_buffer ddp_check_stag
answered_checked = refl

response_order : host_order response_header ≡ record { rsvd_ulp1 = 66; tag = 1000; to = 1010 }
response_order = ground (arith, htonl_twice 1000 (omega arith), htonll_twice 1010 (omega arith))

response_CanReceive :
    CanReceive demo_queue demo_net 70000 5
      (world demo_queue demo_tcp answered)
      response_header
      ((1 ∷ 2 ∷ 3 ∷ []) ∷ (4 ∷ 5 ∷ []) ∷ [])
      region
      (7 ∷ [])
unfolding flatten
response_CanReceive = record {
  arrived = refl;
  fields = record { rsvd_fits = omega arith; tag_fits = htonl-lt 1000; to_fits = htonll-lt 1010 };
  checked = ap (ddp_check_stag demo_queue answered.ddp_ctx) response_order ∙ answered_checked;
  fit = (omega arith, omega arith, (omega arith, omega arith, _));
  room = omega (arith, htonll_twice 1010 (omega arith));
  enough_fuel = omega arith;
  enough_segs = omega arith;
}

ddp_recv_tagged_example :
    Delivers demo_queue demo_net 70000 5
      (world demo_queue demo_tcp answered)
      recv_locals.msg
      response_header
      region
      (7 ∷ [])
      (1 ∷ 2 ∷ 3 ∷ 4 ∷ 5 ∷ [])
      (ddp_recv demo_queue demo_tcp 70000 5 (world demo_queue demo_tcp answered) recv_locals.msg)
unfolding flatten
ddp_recv_tagged_example =
    ddp_recv_tagged demo_queue demo_net 70000 5 (world demo_queue demo_tcp answered) recv_locals.msg
      response_header region (7 ∷ []) (1 ∷ 2 ∷ 3 ∷ []) ((4 ∷ 5 ∷ []) ∷ []) response_CanReceive
