-- ===== src/Tests/Transport.antt =====
-- Runs of MPA, and of the DDP layer's sends.
use mathlib.Core.List.{flatten}
use soft_ui_warp.Prelude.{ℕ, ◌≡◌, refl, some, List, [], ◌∷◌, ◌++◌, arith, ℤ, pos, length}
use soft_ui_warp.Wire.{le_bytes, htons}
use soft_ui_warp.Mpa.{MpaRecv, new_packet, mpa_send, mpa_recv}
use soft_ui_warp.Mpa.Frame.{frame, trailer, mpa_send_any}
use soft_ui_warp.Mpa.Recv.{mpa_recv-frame}
use soft_ui_warp.Ddp.{TaggedMeta}
use soft_ui_warp.Ddp.Send.{ddp_send_tagged}
use soft_ui_warp.Ddp.Segments.{all_pieces, gathered, flatten-all_pieces}
use soft_ui_warp.Ddp.Ends.{ddp_send_tagged_ends}
use soft_ui_warp.Tests.Data.{ramp, two_entries}
use soft_ui_warp.Tests.{demo_tcp, demo_net, Pipe}

mpa_send_any_example :
    mpa_send demo_tcp ([], []) ((1 ∷ 2 ∷ []) ∷ (3 ∷ []) ∷ [])
    ≡ demo_tcp.sendmsg ([], []) (le_bytes 2 (htons 3) ++ ((1 ∷ 2 ∷ 3 ∷ []) ++ trailer 3))
unfolding flatten
mpa_send_any_example = mpa_send_any demo_tcp ([], []) ((1 ∷ 2 ∷ []) ∷ (3 ∷ []) ∷ [])

abbrev payload : List ℕ
payload = 1 ∷ 2 ∷ 3 ∷ 4 ∷ 5 ∷ 6 ∷ 7 ∷ []

mpa_recv-frame_example :
    (r : MpaRecv demo_tcp) × (mpa_recv demo_tcp 8 (frame payload ++ 9 ∷ [], []) new_packet (pos 100)
      ≡ some r)
    × (r.ret ≡ pos (length (frame payload)))
    × (r.image ≡ payload)
    × (r.sock.0 ≡ 9 ∷ [])
mpa_recv-frame_example =
    mpa_recv-frame demo_net 8 (frame payload ++ 9 ∷ [], []) new_packet 100 payload (9 ∷ []) refl
      (omega arith) (omega arith) (omega arith) (omega arith) refl

abbrev header : TaggedMeta
header = record { rsvd_ulp1 = 64; tag = 1000; to = 1010 }

ddp_send_tagged_ends_example :
    (ret : ℤ) × (s' : Pipe) × (ddp_send_tagged demo_tcp ramp ([], []) header two_entries
      ≡ some (ret, s'))
ddp_send_tagged_ends_example = ddp_send_tagged_ends demo_tcp ramp ([], []) two_entries header

flatten-all_pieces_example : flatten (all_pieces ramp two_entries) ≡ gathered ramp two_entries
flatten-all_pieces_example =
    flatten-all_pieces ramp two_entries (omega arith, omega arith, (omega arith, omega arith, _))
