-- ===== src/Tests/Daemon.antt =====
-- Runs of the daemon.
use soft_ui_warp.Prelude.{
  ℕ, ◌+◌, ◌≡◌, refl, true, List, [], ◌∷◌, arith, pos, negsuc, length, take, drop,
}
use soft_ui_warp.Tcp.{got}
use soft_ui_warp.Wire.{le_bytes}
use soft_ui_warp.Daemon.{Os, Daemon, build_fds, ec_handle_recv, serve}
use soft_ui_warp.Daemon.Routes.{build_fds_lem}
use soft_ui_warp.Daemon.Growth.{idle, readable, with_channel, queue_taken_for_channel}

-- The bytes to read, and the next descriptor.
abbrev demo_os : Os
demo_os = record {
  State = List ℕ × ℕ;
  accept = λ s. (pos s.1, (s.0, s.1 + 1));
  recv_whole = λ s fd n. (got (take n s.0), (drop n s.0, s.1));
  recv = λ s fd n. (got (take n s.0), (drop n s.0, s.1));
  send = λ s fd bs. (pos (length bs), s);
  poll = λ s fds. (pos 0, [], s);
}

abbrev started : Daemon demo_os
started = record {
  ec_fds = pos 5 ∷ [];
  cq_fds = pos 6 ∷ [];
  ret = pos 0;
  sys = (0 ∷ 0 ∷ 0 ∷ 0 ∷ [], 7);
}

build_fds_example :
    build_fds (pos 3) (negsuc 0) (pos 5 ∷ []) (pos 6 ∷ []) 0 4
    ≡ pos 3 ∷ negsuc 0 ∷ pos 5 ∷ pos 6 ∷ []
build_fds_example = build_fds_lem (pos 3) (negsuc 0) (pos 5 ∷ []) (pos 6 ∷ []) (omega arith)

create_came : demo_os.recv_whole started.sys (pos 3) 4 ≡ (got (le_bytes 4 0), ([], 7))
unfolding le_bytes
create_came = refl

-- The library asks for an event channel, and the completion queue is readable.
queue_taken_for_channel_example :
    (serve demo_os true 80
      (pos 0)
      3
      0
      (build_fds (pos 3) (negsuc 0) (pos 5 ∷ []) (pos 6 ∷ []) 0 4)
      (readable ∷ idle ∷ idle ∷ readable ∷ [])
      2
      started).1
    ≡ let (ret, d') =
        ec_handle_recv demo_os 80
          (with_channel demo_os true 80 (pos 0) (pos 3) (negsuc 0) (pos 6) [] started ([], 7))
          (pos 6) in
      record d' { ret = ret }
queue_taken_for_channel_example =
    queue_taken_for_channel demo_os true 80 (pos 0) (pos 3) (negsuc 0) (pos 6) [] started ([], 7) []
      (omega arith) refl create_came
