-- ===== src/Daemon/Start.antt =====
-- How the daemon starts (libsuiw/libsuiwd.cpp): its listening socket, the connection with the
-- library, and the work loop.
use soft_ui_warp.Prelude.{
  ℕ, Bool, not, Option, none, some, [], ◌∷◌, if◌then◌else◌, ℤ, pos, negsuc, ◌==ℤ◌,
}
use soft_ui_warp.Daemon.{Os, Daemon, Pass, returns, workloop}

-- The operating system's calls for the listening socket, for the daemon's address.
pub record Setup (os : Os) : Type 0 where
  pub socket : os.State → ℤ × os.State
  pub getaddrinfo : os.State → ℤ × os.State
  pub bind : os.State → ℤ → ℤ × os.State
  pub listen : os.State → ℤ → ℤ × os.State
  pub close : os.State → ℤ → os.State

module _ (os : Os) (setup : Setup os) where
  -- `bind_server`.
  unfoldable pub bind_server : ℤ → os.State → ℤ × os.State
  bind_server server_fd s =
      let (found, s₁) = setup.getaddrinfo s in
      let (bound, s₂) = setup.bind s₁ server_fd in
      let (listens, s₃) = setup.listen s₂ server_fd in
      if not (found ==ℤ pos 0)
      then (found, s₁)
      else if not (bound ==ℤ pos 0)
      then (bound, s₂)
      else (listens, s₃)

  -- `main`: its result, where `returns` is that of the work loop, and the daemon's lists at the
  -- end. The work loop starts with a poll list of the library's descriptor and the packet socket's.
  unfoldable pub main : Bool → ℕ → ℤ → ℕ → os.State → Option (Pass × Daemon os)
  unfolding bind_server
  main asserts size garbage rounds s =
      let start : os.State → Daemon os =
        λ t. record { ec_fds = []; cq_fds = []; ret = pos 0; sys = t } in
      let (server_fd, s₁) = setup.socket s in
      let (bound, s₂) = bind_server server_fd s₁ in
      let (lib_fd, s₃) = os.accept s₂ in
      let dpdk_fd : ℤ = negsuc 0 in
      let fds = lib_fd ∷ dpdk_fd ∷ [] in
      if server_fd ==ℤ negsuc 0
      then some (returns (negsuc 0), start s₁)
      else if not (bound ==ℤ pos 0)
      then some (returns (negsuc 0), start s₂)
      else if lib_fd ==ℤ negsuc 0
      then some (returns (negsuc 0), start s₃)
      else elim (workloop os asserts size garbage lib_fd dpdk_fd rounds fds (start s₃)) [
        | none ↦ none
        | some (pass, d) ↦
            let closed = setup.close (setup.close d.sys lib_fd) server_fd in
            some (pass, record d { sys = closed })
      ]
