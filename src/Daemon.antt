-- ===== src/Daemon.antt =====
-- The daemon (libsuiw/libsuiwd.cpp, libsuiw/libsuiw_internal.h): its work loop, which polls the
-- library's connection, the event channels and the completion queues, and hands each to its
-- handler. The setting up of the listening socket and the log lines are left out.
pub mod Passes
pub mod Routes
pub mod Growth
pub mod Start
use soft_ui_warp.Prelude.{
  ℕ, zero, suc, ◌+◌, ◌-◌, ◌%◌, ◌^◌, Bool, not, ◌&&◌, ◌||◌, Option, none, some, List, [], ◌∷◌, ◌++◌,
  ltb, ◌==◌, if◌then◌else◌, ℤ, pos, negsuc, ◌==ℤ◌, to_size, length,
}
use soft_ui_warp.Wire.{from_le}
use soft_ui_warp.Tcp.{Received, got, failed}

-- `revents` of a polled descriptor.
pub record Revents : Type 0 where
  pub pollin : Bool
  pub pollerr : Bool
  pub pollhup : Bool
  pub pollnval : Bool

-- The operating system's calls; descriptors are of type ℤ. `recv_whole` is `recv` with
-- `MSG_WAITALL`, and `accept` is on the listening socket. The answer of `poll` is the number that
-- it returns and `revents` by position.
pub record Os : Type 1 where
  pub State : Type 0
  pub accept : State → ℤ × State
  pub recv_whole : State → ℤ → ℕ → Received × State
  pub recv : State → ℤ → ℕ → Received × State
  pub send : State → ℤ → List ℕ → ℤ × State
  pub poll : State → List ℤ → ℤ × List Revents × State

-- `enum daemon_msg_t`.
pub data DaemonMsg : Type 0 where
  create_ec create_cq create_qp : DaemonMsg

-- `msg.type` as the `switch` reads it, and the size of a message.
unfoldable pub daemon_msg : ℕ → Option DaemonMsg
daemon_msg zero = some create_ec
daemon_msg (suc zero) = some create_cq
daemon_msg (suc (suc zero)) = some create_qp
daemon_msg (suc (suc (suc n))) = none

abbrev pub daemon_msg_size : ℕ
daemon_msg_size = 4

-- Whose descriptor a position of the poll list is taken for.
pub data Route : Type 0 where
  library dpdk : Route
  event_channel completion_queue : ℕ → Route
  nobody : Route

-- The chain of tests on the position i. The differences are of type `size_t`; the list of event
-- channels has `ecs` members, that of completion queues `cqs`, and `cq_start` is `cq_fd_start`.
unfoldable pub route : ℕ → ℕ → ℕ → ℕ → Route
route cq_start ecs cqs i =
    let ec = (i + 2 ^ 64 - 2) % 2 ^ 64 in
    let cq = (i + 2 ^ 64 - cq_start) % 2 ^ 64 in
    if i == 0
    then library
    else if i == 1
    then dpdk
    else if ltb ec ecs
    then event_channel ec
    else if ltb cq cqs
    then completion_queue cq
    else nobody

-- The descriptor at an index, -1 where there is none.
unfoldable pub fd_at : List ℤ → ℕ → ℤ
fd_at [] i = negsuc 0
fd_at (fd ∷ fds) zero = fd
fd_at (fd ∷ fds) (suc i) = fd_at fds i

-- The `for` that fills the poll list: the descriptors of n positions from i on.
unfoldable pub build_fds : ℤ → ℤ → List ℤ → List ℤ → ℕ → ℕ → List ℤ
unfolding route fd_at
build_fds lib_fd dpdk_fd ec_fds cq_fds i zero = []
build_fds lib_fd dpdk_fd ec_fds cq_fds i (suc n) =
    let fd : ℤ = elim (route (2 + length ec_fds) (length ec_fds) (length cq_fds) i) [
      | library ↦ lib_fd
      | dpdk ↦ dpdk_fd
      | event_channel k ↦ fd_at ec_fds k
      | completion_queue k ↦ fd_at cq_fds k
      | nobody ↦ pos 0
    ] in
    fd ∷ build_fds lib_fd dpdk_fd ec_fds cq_fds (i + 1) n

-- How a pass over the poll list ends.
pub data Pass : Type 0 where
  goes_on : Pass
  returns : ℤ → Pass
  aborts : Pass
  -- The pass has read behind the poll list.
  overruns : Pass

module _ (os : Os) where
  -- The daemon's lists, the `ret` of its loop, and the operating system.
  pub record Daemon : Type 0 where
    pub ec_fds : List ℤ
    pub cq_fds : List ℤ
    pub ret : ℤ
    pub sys : os.State

  unfoldable pub create_event_channel : Daemon → Daemon
  create_event_channel d =
      let (fd, s) = os.accept d.sys in record d { ec_fds = d.ec_fds ++ fd ∷ []; sys = s }

  unfoldable pub create_completion_queue : Daemon → Daemon
  create_completion_queue d =
      let (fd, s) = os.accept d.sys in record d { cq_fds = d.cq_fds ++ fd ∷ []; sys = s }

  -- `lib_handle_recv`: its result and the daemon after.
  unfoldable pub lib_handle_recv : Daemon → ℤ → ℤ × Daemon
  unfolding create_event_channel create_completion_queue daemon_msg
  lib_handle_recv d fd =
      let (answer, s) = os.recv_whole d.sys fd daemon_msg_size in
      let d' : Daemon = record d { sys = s } in
      elim answer [
        | failed ↦ (negsuc 0, d')
        | got bs ↦
            if length bs == 0
            then (pos 0, d')
            else if ltb (length bs) daemon_msg_size
            then (negsuc 0, d')
            else elim (daemon_msg (from_le bs)) [
              | some create_ec ↦ (pos (length bs), create_event_channel d')
              | some create_cq ↦ (pos (length bs), create_completion_queue d')
              | some create_qp ↦ (pos (length bs), d')
              | none ↦ (pos (length bs), d')
            ]
      ]

  -- `ec_handle_recv`: an event is sent back as it came. `size` is the size of an event.
  unfoldable pub ec_handle_recv : ℕ → Daemon → ℤ → ℤ × Daemon
  ec_handle_recv size d fd =
      let (answer, s) = os.recv d.sys fd size in
      let d' : Daemon = record d { sys = s } in
      elim answer [
        | failed ↦ (negsuc 0, d')
        | got bs ↦
            let (sent, s') = os.send s fd bs in
            let d'' : Daemon = record d { sys = s' } in
            if length bs == 0
            then (pos 0, d')
            else if ltb (length bs) size
            then (negsuc 0, d')
            else if sent ==ℤ negsuc 0
            then (negsuc 0, d'')
            else if sent ==ℤ pos 0
            then (pos 0, d'')
            else if ltb (to_size sent) size
            then (negsuc 0, d'')
            else (sent, d'')
      ]

  -- The handler of a position; `garbage` is what the two handlers without a `return` give.
  unfoldable pub handle : ℕ → ℤ → ℕ → ℕ → ℤ → Daemon → Daemon
  unfolding lib_handle_recv ec_handle_recv
  handle size garbage cq_start i fd d =
      elim (route cq_start (length d.ec_fds) (length d.cq_fds) i) [
        | library ↦ let (ret, d') = lib_handle_recv d fd in record d' { ret = ret }
        | dpdk ↦ record d { ret = garbage }
        | event_channel k ↦ let (ret, d') = ec_handle_recv size d fd in record d' { ret = ret }
        | completion_queue k ↦ record d { ret = garbage }
        | nobody ↦ d
      ]

  -- `while (pollret > 0)` from position i on; `asserts` tells whether assertions are compiled in.
  unfoldable pub serve : Bool → ℕ → ℤ → ℕ → ℕ → List ℤ → List Revents → ℕ → Daemon → Pass × Daemon
  unfolding handle
  serve asserts size garbage cq_start i fds revs zero d = (goes_on, d)
  serve asserts size garbage cq_start i [] revs (suc n) d = (overruns, d)
  serve asserts size garbage cq_start i (fd ∷ fds) [] (suc n) d = (overruns, d)
  serve asserts size garbage cq_start i (fd ∷ fds) (r ∷ revs) (suc n) d =
      let d' = handle size garbage cq_start i fd d in
      let quiet = serve asserts size garbage cq_start (i + 1) fds revs (suc n) d in
      let served = serve asserts size garbage cq_start (i + 1) fds revs n d' in
      if not (r.pollin || r.pollerr || r.pollhup || r.pollnval)
      then quiet
      else if r.pollhup
      then (returns (negsuc 0), d)
      else if r.pollerr || r.pollnval
      then (returns (negsuc 0), d)
      else if asserts && not r.pollin
      then (aborts, d)
      else if (i == 0) && (d'.ret ==ℤ pos 0)
      then (returns (pos 0), d')
      else if d'.ret ==ℤ negsuc 0
      then (returns (negsuc 0), d')
      else served

  -- `workloop`, whose iterations `rounds` bounds; `fds` is the poll list of the last one. The list
  -- is built anew when its length is no longer right.
  unfoldable pub workloop : Bool → ℕ → ℤ → ℤ → ℤ → ℕ → List ℤ → Daemon → Option (Pass × Daemon)
  unfolding build_fds serve
  workloop asserts size garbage lib_fd dpdk_fd zero fds d = none
  workloop asserts size garbage lib_fd dpdk_fd (suc rounds) fds d =
      let cq_start = 2 + length d.ec_fds in
      let n = cq_start + length d.cq_fds in
      let fds' = if length fds == n then fds else build_fds lib_fd dpdk_fd d.ec_fds d.cq_fds 0 n in
      let (pollret, revs, s) = os.poll d.sys fds' in
      let d' : Daemon = record d { sys = s } in
      let again = workloop asserts size garbage lib_fd dpdk_fd rounds fds' d' in
      elim pollret [
        | negsuc k ↦ some (returns (negsuc 0), d')
        | pos zero ↦ again
        | pos (suc k) ↦
            let (pass, d'') = serve asserts size garbage cq_start 0 fds' revs (suc k) d' in
            elim pass [
              | goes_on ↦ workloop asserts size garbage lib_fd dpdk_fd rounds fds' d''
              | returns r ↦ some (returns r, d'')
              | aborts ↦ some (aborts, d'')
              | overruns ↦ some (overruns, d'')
            ]
      ]
