-- ===== src/Suiw.antt =====
-- The library's calls (libsuiw/softuiwarp.cpp, with the structure of an event from
-- librdmacm/rdma_cma.h): event channels, identifiers and events, which pass over sockets to the
-- daemon (libsuiw/libsuiwd.cpp) and back. Log lines, and the freeing of objects, are left out.
pub mod Channel
pub mod Created
pub mod Device
pub mod Events
pub mod Link
pub mod Order
use soft_ui_warp.Prelude.{
  ℕ, not, List, ◌++◌, ◌==◌, if◌then◌else◌, ℤ, pos, negsuc, ◌==ℤ◌, to_size, take, drop, replicate,
}
use soft_ui_warp.Wire.{le_bytes, from_le}
use soft_ui_warp.Tcp.{Received, recv_result}
use soft_ui_warp.Mpa.{stored}
use soft_ui_warp.Daemon.{Os, daemon_msg_size}

-- The library's calls of the operating system, on the state that it shares with the daemon.
-- `getaddrinfo` and `connect` are for the daemon's address. Every flag of `send` and `recv` is 0.
pub record Calls (os : Os) : Type 0 where
  pub socket : os.State → ℤ × os.State
  pub getaddrinfo : os.State → ℤ × os.State
  pub connect : os.State → ℤ → ℤ × os.State
  pub send : os.State → ℤ → List ℕ → ℤ × os.State
  pub recv : os.State → ℤ → ℕ → Received × os.State

-- `RDMA_CM_EVENT_ADDR_RESOLVED` and `RDMA_CM_EVENT_ROUTE_RESOLVED`.
abbrev pub addr_resolved : ℕ
addr_resolved = 0

abbrev pub route_resolved : ℕ
route_resolved = 2

-- `struct rdma_cm_event`; a pointer is a number. `param` is the bytes of the union, of which the
-- larger member, `rdma_ud_param`, has 56.
pub record CmEvent : Type 0 where
  pub id : ℕ
  pub listen_id : ℕ
  pub event : ℕ
  pub status : ℕ
  pub param : List ℕ

abbrev pub param_size : ℕ
param_size = 56

abbrev pub cm_event_size : ℕ
cm_event_size = 80

-- The structure in memory, and what a memory of that size holds.
unfoldable pub event_bytes : CmEvent → List ℕ
event_bytes e =
    le_bytes 8 e.id
    ++ (le_bytes 8 e.listen_id ++ (le_bytes 4 e.event ++ (le_bytes 4 e.status ++ e.param)))

unfoldable pub event_of : List ℕ → CmEvent
event_of bs = record {
  id = from_le (take 8 bs);
  listen_id = from_le (take 8 (drop 8 bs));
  event = from_le (take 4 (drop 16 bs));
  status = from_le (take 4 (drop 20 bs));
  param = drop 24 bs;
}

-- An event that has been cleared, with its kind and its identifier set.
unfoldable pub resolved : ℕ → ℕ → CmEvent
resolved kind id = record {
  id = id;
  listen_id = 0;
  event = kind;
  status = 0;
  param = replicate param_size 0;
}

-- What the library sets of a `struct rdma_cm_id`, with its address, which events carry, and the
-- descriptor of its channel.
pub record CmId : Type 0 where
  pub address : ℕ
  pub channel_fd : ℤ
  pub context : ℕ

module _ (os : Os) (calls : Calls os) where
  -- `connect_to_daemon`: a descriptor, or -1.
  unfoldable pub connect_to_daemon : os.State → ℤ × os.State
  connect_to_daemon s =
      let (sock, s₁) = calls.socket s in
      let (found, s₂) = calls.getaddrinfo s₁ in
      let (ret, s₃) = calls.connect s₂ sock in
      if sock ==ℤ negsuc 0
      then (negsuc 0, s₁)
      else if not (found ==ℤ pos 0)
      then (negsuc 0, s₂)
      else if ret ==ℤ negsuc 0
      then (negsuc 0, s₃)
      else (sock, s₃)

  -- `suiw_create_event_channel`: the channel's descriptor. `dfd` is the connection to the daemon, on
  -- which the request goes, `DAEMON_CREATE_EC`; the result of that `send` is not tested.
  unfoldable pub suiw_create_event_channel : ℤ → os.State → ℤ × os.State
  unfolding connect_to_daemon
  suiw_create_event_channel dfd s =
      let (_, s₁) = calls.send s dfd (le_bytes daemon_msg_size 0) in connect_to_daemon s₁

  -- `suiw_create_id`, at the address that `malloc` gave.
  unfoldable pub suiw_create_id : ℕ → ℤ → ℕ → ℤ × CmId
  suiw_create_id address channel_fd context =
      (pos 0, record { address = address; channel_fd = channel_fd; context = context })

  -- `suiw_resolve_addr` and `suiw_resolve_route`: nothing is resolved, the event that says so is
  -- sent to the daemon.
  unfoldable pub suiw_resolve_addr : CmId → os.State → ℤ × os.State
  unfolding resolved event_bytes
  suiw_resolve_addr id s =
      let (ret, s₁) =
        calls.send s id.channel_fd (event_bytes (resolved addr_resolved id.address)) in
      ((if to_size ret == cm_event_size then pos 0 else negsuc 0), s₁)

  unfoldable pub suiw_resolve_route : CmId → os.State → ℤ × os.State
  unfolding resolved event_bytes
  suiw_resolve_route id s =
      let (ret, s₁) =
        calls.send s id.channel_fd (event_bytes (resolved route_resolved id.address)) in
      ((if to_size ret == cm_event_size then pos 0 else negsuc 0), s₁)

  -- `suiw_get_cm_event`: its result and the new event; `garbage` is the bytes that `malloc` gave.
  unfoldable pub suiw_get_cm_event : List ℕ → ℤ → os.State → ℤ × CmEvent × os.State
  unfolding event_of
  suiw_get_cm_event garbage channel_fd s =
      let (answer, s₁) = calls.recv s channel_fd cm_event_size in
      let ret = recv_result answer in
      (
        (if to_size ret == cm_event_size then pos 0 else negsuc 0),
        event_of (stored garbage 0 answer),
        s₁,
      )
