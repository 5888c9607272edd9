-- ===== src/Tests/Checks.antt =====
-- Runs of the DDP layer's checks and queues.
use soft_ui_warp.Prelude.{◌≤◌, ◌≡◌, refl, ◌↔◌, some, List, [], ◌∷◌, arith}
use soft_ui_warp.Wire.Bytes.{htonll-swap_bytes}
use soft_ui_warp.Wire.{htonll, swap_bytes}
use soft_ui_warp.Ddp.{
  Stag, TaggedMeta, UntaggedMeta, UntaggedBuffer, Context, ddp_init_stream, register_tagged_buffer,
  ddp_check_stag,
}
use soft_ui_warp.Ddp.Checks.{check_stag_accepts}
use soft_ui_warp.Tests.{demo_queue}
use soft_ui_warp.Tests.Data.{region}

abbrev fresh : Context demo_queue
fresh = ddp_init_stream demo_queue 3 0

abbrev registered : Context demo_queue
registered = (register_tagged_buffer demo_queue fresh region).1

-- Just behind the region, where the check still passes.
abbrev at_end : TaggedMeta
at_end = record { rsvd_ulp1 = 64; tag = 1000; to = 1100 }

region_there : registered.tagged_buffers 1000 ≡ some region
unfolding register_tagged_buffer ddp_init_stream
region_there = refl

check_stag_accepts_example :
    (ddp_check_stag demo_queue registered at_end ≡ some region) ↔ ((1000 ≤ 1100) × (1100 ≤ 1100))
check_stag_accepts_example =
    check_stag_accepts demo_queue registered at_end region region_there (omega arith)

abbrev region_tag : Stag
region_tag = record { tag = 1000; pd_id = 0 }

abbrev receive_buffers : List UntaggedBuffer
receive_buffers =
    record { buf_addr = 2000; len = 10; next = 0 }
    ∷ record { buf_addr = 3000; len = 20; next = 0 }
    ∷ []

abbrev first_send : UntaggedMeta
first_send = record { rsvd_ulp1 = 67; rsvd_ulp2 = 0; qn = 0; msn = 1; mo = 0 }

htonll-swap_bytes_example : htonll 0x0102030405060708 ≡ swap_bytes 8 0x0102030405060708
htonll-swap_bytes_example = htonll-swap_bytes 0x0102030405060708 (omega arith)
