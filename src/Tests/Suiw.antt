-- ===== src/Tests/Suiw.antt =====
-- Runs of the library's calls and of the daemon on the two ends of a channel.
use soft_ui_warp.Prelude.{
  ℕ, ◌≤◌, ◌<◌, ◌≡◌, refl, sym, ◌⊎◌, true, false, List, [], ◌∷◌, ◌++◌, arith, ltb, if◌then◌else◌,
  pos, negsuc, length, take, drop, replicate, length-take, take-append-drop, count_if,
}
use soft_ui_warp.Wire.{le_bytes, from_le}
use soft_ui_warp.Tcp.{got}
use soft_ui_warp.Daemon.{
  Os, Daemon, Revents, goes_on, ec_handle_recv, lib_handle_recv, handle, route, serve,
}
use soft_ui_warp.Daemon.Passes.{is_ready, GoesWell, handle_ready, serve_lem}
use soft_ui_warp.Suiw.{
  Calls, CmEvent, CmId, cm_event_size, resolved, addr_resolved, suiw_resolve_addr,
  suiw_get_cm_event, suiw_create_event_channel,
}
use soft_ui_warp.Suiw.Link.{IsLink}
use soft_ui_warp.Suiw.Channel.{
  Channel, Reach, here, later, resolves_addr, serves, gets, AllAre, HasFailed, events_bytes,
}
use soft_ui_warp.Suiw.Order.{events_in_order}
use soft_ui_warp.Suiw.Created.{channel_created}

-- A `recv` gives a hundred bytes at most.
abbrev piece : ℕ → ℕ
piece n = if ltb n 100 then n else 100

piece_at_most : (n : ℕ) (bs : List ℕ) → length (take (piece n) bs) ≤ n
piece_at_most n bs = ground (arith, length-take (piece n) bs)

piece_some : (n : ℕ) (bs : List ℕ) → 0 < n → 0 < length bs → 0 < length (take (piece n) bs)
piece_some n bs h g = ground (arith, h, g, length-take (piece n) bs)

-- The bytes on their way to the daemon, and to the library.
abbrev pair_os : Os
pair_os = record {
  State = List ℕ × List ℕ;
  accept = λ s. (pos 9, s);
  recv_whole = λ s fd n. (got (take n s.0), (drop n s.0, s.1));
  recv = λ s fd n. (got (take (piece n) s.0), (drop (piece n) s.0, s.1));
  send = λ s fd bs. (pos (length bs), (s.0, s.1 ++ bs));
  poll = λ s fds. (pos 0, [], s);
}

abbrev pair_calls : Calls pair_os
pair_calls = record {
  socket = λ s. (pos 3, s);
  getaddrinfo = λ s. (pos 0, s);
  connect = λ s fd. (pos 0, s);
  send = λ s fd bs. (pos (length bs), (s.0 ++ bs, s.1));
  recv = λ s fd n. (got (take (piece n) s.1), (s.0, drop (piece n) s.1));
}

abbrev pair_link : IsLink pair_os pair_calls (pos 3) (pos 4)
pair_link = record {
  up = λ s. s.0;
  down = λ s. s.1;
  asked = λ s bs. (s.0 ++ bs, s.1);
  asks = λ s bs. refl;
  up-asked = λ s bs. refl;
  down-asked = λ s bs. refl;
  heard = λ s n. (drop (piece n) s.0, s.1);
  hears_bytes = λ s n. take (piece n) s.0;
  hears = λ s n. refl;
  up-heard = λ s n. sym (take-append-drop (piece n) s.0);
  down-heard = λ s n. refl;
  hears_at_most = λ s n. piece_at_most n s.0;
  hears_some = λ s n h g. piece_some n s.0 h g;
  answered = λ s bs. (s.0, s.1 ++ bs);
  answers = λ s bs. refl;
  up-answered = λ s bs. refl;
  down-answered = λ s bs. refl;
  taken = λ s n. (s.0, drop (piece n) s.1);
  takes_bytes = λ s n. take (piece n) s.1;
  takes = λ s n. refl;
  up-taken = λ s n. refl;
  down-taken = λ s n. sym (take-append-drop (piece n) s.1);
  takes_at_most = λ s n. piece_at_most n s.1;
}

abbrev demo_id : CmId
demo_id = record { address = 4096; channel_fd = pos 3; context = 0 }

abbrev quiet_daemon : Daemon pair_os
quiet_daemon = record { ec_fds = pos 4 ∷ []; cq_fds = []; ret = pos 0; sys = ([], []) }

abbrev fresh : Channel pair_os
fresh = record { daemon = quiet_daemon; wanted = []; got = []; results = []; served = [] }

-- The library asks, the daemon answers, the library takes the event.
abbrev asking : Channel pair_os
asking = record fresh {
  daemon = record quiet_daemon { sys = (suiw_resolve_addr pair_os pair_calls demo_id ([], [])).1 };
  wanted = resolved addr_resolved 4096 ∷ [];
  results = pos 0 ∷ [];
}

abbrev serving : Channel pair_os
serving = record asking {
  daemon = (ec_handle_recv pair_os cm_event_size asking.daemon (pos 4)).1;
  served = pos 80 ∷ [];
}

abbrev getting : Channel pair_os
getting = record serving {
  daemon = record serving.daemon {
    sys = (suiw_get_cm_event pair_os pair_calls (replicate 80 7) (pos 3) serving.daemon.sys).2;
  };
  got = resolved addr_resolved 4096 ∷ [];
  results = pos 0 ∷ pos 0 ∷ [];
}

channel_used : Reach pair_link fresh getting
unfolding suiw_resolve_addr suiw_get_cm_event ec_handle_recv le_bytes from_le
channel_used =
    later
      (later (later here (resolves_addr demo_id (pos 0) asking.daemon.sys refl (omega arith) refl))
        (serves (pos 80) serving.daemon (omega arith) refl))
      (gets (replicate 80 7) (pos 0) (resolved addr_resolved 4096) getting.daemon.sys refl
        (omega arith) refl)

events_in_order_example :
    (((coming : List CmEvent) × (resolved addr_resolved 4096 ∷ []
          ≡ (resolved addr_resolved 4096 ∷ []) ++ coming)
        × (getting.daemon.sys.1 ++ getting.daemon.sys.0 ≡ events_bytes coming))
      × AllAre (pos 0) (pos 0 ∷ pos 0 ∷ [])
      × AllAre (pos cm_event_size) (pos 80 ∷ []))
    ⊎ HasFailed getting
events_in_order_example =
    events_in_order pair_link fresh getting refl refl refl refl refl refl channel_used

channel_created_example :
    let (fd, s) = suiw_create_event_channel pair_os pair_calls (pos 2) ([], []) in
    let (ret, d') = lib_handle_recv pair_os (record quiet_daemon { sys = s }) (pos 5) in
    (fd ≡ pos 3)
    × (ret ≡ pos 4)
    × (d'.ec_fds ≡ pos 4 ∷ pos 9 ∷ [])
    × (d'.cq_fds ≡ [])
    × (d'.sys ≡ ([], []))
unfolding le_bytes
channel_created_example =
    channel_created pair_os pair_calls quiet_daemon (pos 2) (pos 5) (pos 4) 3 (le_bytes 4 0, [])
      (le_bytes 4 0, []) (le_bytes 4 0, []) (le_bytes 4 0, []) ([], []) refl refl refl refl refl

abbrev readable : Revents
readable = record { pollin = true; pollerr = false; pollhup = false; pollnval = false }

abbrev idle : Revents
idle = record { pollin = false; pollerr = false; pollhup = false; pollnval = false }

-- An event has come on the only channel.
abbrev called : Daemon pair_os
called = record quiet_daemon { sys = (replicate 80 1, []) }

called_well :
    GoesWell pair_os true 80
      (pos 0)
      3
      0
      (pos 2 ∷ negsuc 0 ∷ pos 4 ∷ [])
      (idle ∷ idle ∷ readable ∷ [])
      called
unfolding handle route
called_well = (λ e. cc, (λ e. cc, (λ e. ((refl, refl, refl, refl), refl, refl), tt)))

one_ready : ◌≡◌ {A = ℕ} 1 (count_if is_ready (idle ∷ idle ∷ readable ∷ []))
unfolding count_if
one_ready = refl

serve_lem_example :
    serve pair_os true 80
      (pos 0)
      3
      0
      (pos 2 ∷ negsuc 0 ∷ pos 4 ∷ [])
      (idle ∷ idle ∷ readable ∷ [])
      1
      called
    ≡ (
      goes_on,
      handle_ready pair_os true 80
          (pos 0)
          3
          0
          (pos 2 ∷ negsuc 0 ∷ pos 4 ∷ [])
          (idle ∷ idle ∷ readable ∷ [])
          called,
    )
serve_lem_example =
    serve_lem pair_os true 80 (pos 0) 3 0 1 (pos 2 ∷ negsuc 0 ∷ pos 4 ∷ [])
      (idle ∷ idle ∷ readable ∷ []) called one_ready called_well refl
