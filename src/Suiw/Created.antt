-- ===== src/Suiw/Created.antt =====
-- A new event channel (libsuiw/softuiwarp.cpp), from the library's call to the daemon's list
-- (libsuiw/libsuiwd.cpp).
use soft_ui_warp.Prelude.{
  ℕ, ◌≡◌, refl, not, ◌&&◌, [], ◌∷◌, ◌++◌, arith, if◌then◌else◌, ℤ, pos, negsuc, ◌==ℤ◌,
}
use soft_ui_warp.Tcp.{got}
use soft_ui_warp.Wire.{le_bytes}
use soft_ui_warp.Daemon.{Os, Daemon, daemon_msg_size, lib_handle_recv}
use soft_ui_warp.Daemon.Routes.{lib_handle_recv_lem}
use soft_ui_warp.Suiw.{Calls, connect_to_daemon, suiw_create_event_channel}

module _ (os : Os) (calls : Calls os) where
  module _ (dfd r sock found ret : ℤ) (s s₁ s₂ s₃ s₄ : os.State)
      (asked : calls.send s dfd (le_bytes daemon_msg_size 0) ≡ (r, s₁))
      (made : calls.socket s₁ ≡ (sock, s₂)) (looked_up : calls.getaddrinfo s₂ ≡ (found, s₃))
      (connects : calls.connect s₃ sock ≡ (ret, s₄)) where
    -- The request goes to the daemon whether or not a connection can then be made, and its result
    -- does not matter; the descriptor is that of the connection, or -1.
    pub suiw_create_event_channel_lem : (suiw_create_event_channel os calls dfd s).0 ≡ (
        if not (sock ==ℤ negsuc 0) && ((found ==ℤ pos 0) && not (ret ==ℤ negsuc 0))
        then sock
        else negsuc 0)
    unfolding suiw_create_event_channel connect_to_daemon
    suiw_create_event_channel_lem = ground (arith, asked, made, looked_up, connects)

    connected :
        (k : ℕ)
        → sock ≡ pos k
        → found ≡ pos 0
        → ret ≡ pos 0
        → suiw_create_event_channel os calls dfd s ≡ (pos k, s₄)
    unfolding suiw_create_event_channel connect_to_daemon
    connected k e f g = ground (arith, asked, made, looked_up, connects, e, f, g)

  -- When the library has asked for an event channel and has connected to the daemon, and the request
  -- has come, the daemon's handler accepts one connection and puts it behind the daemon's event
  -- channels; its completion queues stay. The result of the library's `send` does not matter.
  pub channel_created :
      (d : Daemon os) (dfd lib_fd r : ℤ) (k : ℕ) (s₁ s₂ s₃ s₄ s₅ : os.State)
      → calls.send d.sys dfd (le_bytes daemon_msg_size 0) ≡ (r, s₁)
      → calls.socket s₁ ≡ (pos k, s₂)
      → calls.getaddrinfo s₂ ≡ (pos 0, s₃)
      → calls.connect s₃ (pos k) ≡ (pos 0, s₄)
      → os.recv_whole s₄ lib_fd daemon_msg_size ≡ (got (le_bytes daemon_msg_size 0), s₅)
      → let (fd, s) = suiw_create_event_channel os calls dfd d.sys in
        let (ret, d') = lib_handle_recv os (record d { sys = s }) lib_fd in
        (fd ≡ pos k)
        × (ret ≡ pos daemon_msg_size)
        × (d'.ec_fds ≡ d.ec_fds ++ (os.accept s₅).0 ∷ [])
        × (d'.cq_fds ≡ d.cq_fds)
        × (d'.sys ≡ (os.accept s₅).1)
  channel_created d dfd lib_fd r k s₁ s₂ s₃ s₄ s₅ asked made looked_up connects came =
      let done =
        connected dfd r (pos k) (pos 0) (pos 0) d.sys s₁ s₂ s₃ s₄ asked made looked_up connects k
          refl refl refl in
      let (ret, ecs, cqs, sys) =
        lib_handle_recv_lem os (record d { sys = s₄ }) lib_fd 0 s₅ (omega arith) came in
      rw done (refl, ret, ecs, cqs, sys)
