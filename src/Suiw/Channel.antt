-- ===== src/Suiw/Channel.antt =====
-- An event channel in use: the library's calls (libsuiw/softuiwarp.cpp) and the daemon's handler
-- (libsuiw/libsuiwd.cpp), in any order, on the two ends of one connection.
use soft_ui_warp.Prelude.{
  ℕ, ◌^◌, ◌<◌, ◌≡◌, refl, sym, ap, ◌∙◌, ◌⊎◌, List, [], ◌∷◌, ◌++◌, append_assoc, ℤ, pos, negsuc,
  length,
}
use soft_ui_warp.Daemon.{Os, Daemon, ec_handle_recv}
use soft_ui_warp.Suiw.{
  Calls, CmEvent, CmId, cm_event_size, event_bytes, resolved, addr_resolved, route_resolved,
  suiw_resolve_addr, suiw_resolve_route, suiw_get_cm_event,
}
use soft_ui_warp.Suiw.Link.{IsLink}
use soft_ui_warp.Suiw.Events.{IsEvent}

-- The daemon, with the state of the sockets; the events that the library has asked for and those
-- that it has got, in order; and the results of the calls and of the handler.
pub record Channel (os : Os) : Type 0 where
  pub daemon : Daemon os
  pub wanted : List CmEvent
  pub got : List CmEvent
  pub results : List ℤ
  pub served : List ℤ

module _ {os : Os} {calls : Calls os} {lib_fd daemon_fd : ℤ}
    (link : IsLink os calls lib_fd daemon_fd) where
  open link use {up, down}

  -- The channel when its sockets have changed.
  abbrev pub moved : Channel os → os.State → Channel os
  moved c s = record c { daemon = record c.daemon { sys = s } }

  -- One step: a call of the library with an identifier of this channel, a run of the daemon's
  -- handler when something has come, a call that takes an event when something has come, or
  -- anything that does not concern this channel.
  pub data Step (c : Channel os) : Channel os → Type 0 where
    resolves_addr :
        (id : CmId) (ret : ℤ) (s : os.State)
        → id.channel_fd ≡ lib_fd
        → id.address < 2 ^ 64
        → suiw_resolve_addr os calls id c.daemon.sys ≡ (ret, s)
        → Step c (record (moved c s) {
          wanted = c.wanted ++ resolved addr_resolved id.address ∷ [];
          results = ret ∷ c.results;
        })
    resolves_route :
        (id : CmId) (ret : ℤ) (s : os.State)
        → id.channel_fd ≡ lib_fd
        → id.address < 2 ^ 64
        → suiw_resolve_route os calls id c.daemon.sys ≡ (ret, s)
        → Step c (record (moved c s) {
          wanted = c.wanted ++ resolved route_resolved id.address ∷ [];
          results = ret ∷ c.results;
        })
    serves :
        (ret : ℤ) (d : Daemon os)
        → 0 < length (up c.daemon.sys)
        → ec_handle_recv os cm_event_size c.daemon daemon_fd ≡ (ret, d)
        → Step c (record c { daemon = d; served = ret ∷ c.served })
    gets :
        (garbage : List ℕ) (ret : ℤ) (e : CmEvent) (s : os.State)
        → length garbage ≡ cm_event_size
        → 0 < length (down c.daemon.sys)
        → suiw_get_cm_event os calls garbage lib_fd c.daemon.sys ≡ (ret, e, s)
        → Step c (record (moved c s) { got = c.got ++ e ∷ []; results = ret ∷ c.results })
    others :
        (d : Daemon os)
        → up d.sys ≡ up c.daemon.sys
        → down d.sys ≡ down c.daemon.sys
        → Step c (record c { daemon = d })

  pub data Reach (c : Channel os) : Channel os → Type 0 where
    here : Reach c c
    later : {d e : Channel os} → Reach c d → Step d e → Reach c e

-- Every result is the one given.
abbrev pub AllAre : ℤ → List ℤ → Type 0
AllAre r [] = Unit {0}
AllAre r (x ∷ xs) = (x ≡ r) × AllAre r xs

abbrev pub AreEvents : List CmEvent → Type 0
AreEvents [] = Unit {0}
AreEvents (e ∷ es) = IsEvent e × AreEvents es

-- The bytes of several events.
abbrev pub events_bytes : List CmEvent → List ℕ
events_bytes [] = []
events_bytes (e ∷ es) = event_bytes e ++ events_bytes es

pub events_bytes-append :
    (xs ys : List CmEvent) → events_bytes (xs ++ ys) ≡ events_bytes xs ++ events_bytes ys
events_bytes-append [] ys = refl
events_bytes-append (x ∷ xs) ys =
    ap (◌++◌ (event_bytes x)) (events_bytes-append xs ys)
    ∙ sym (append_assoc (event_bytes x) (events_bytes xs) (events_bytes ys))

-- One of the results is the one given.
abbrev pub HasOne : ℤ → List ℤ → Type 0
HasOne r [] = ⊥
HasOne r (x ∷ xs) = (x ≡ r) ⊎ HasOne r xs

-- A call of the library, or a run of the daemon's handler, has returned -1.
abbrev pub HasFailed : {os : Os} → Channel os → Type 0
HasFailed c = HasOne (negsuc 0) c.results ⊎ HasOne (negsuc 0) c.served

pub AreEvents-append : (xs ys : List CmEvent) → AreEvents xs → AreEvents ys → AreEvents (xs ++ ys)
AreEvents-append [] ys h g = g
AreEvents-append (x ∷ xs) ys h g = (h.0, AreEvents-append xs ys h.1 g)

module _ {os : Os} {calls : Calls os} {lib_fd daemon_fd : ℤ}
    (link : IsLink os calls lib_fd daemon_fd) where
  open link use {
    up, down, asked, up-asked, down-asked, heard, up-heard, down-heard, answered, up-answered,
    down-answered, taken, up-taken, down-taken,
  }

  -- The events asked for are those that the library has got, then those on their way back, then
  -- those on their way to the daemon; every call has succeeded.
  pub record IsOrdered (c : Channel os) : Type 0 where
    pub back : List CmEvent
    pub forth : List CmEvent
    pub in_order : c.wanted ≡ c.got ++ (back ++ forth)
    pub on_way_back : down c.daemon.sys ≡ events_bytes back
    pub on_way_forth : up c.daemon.sys ≡ events_bytes forth
    pub back_are : AreEvents back
    pub forth_are : AreEvents forth
    pub all_succeed : AllAre (pos 0) c.results
    pub whole : AllAre (pos cm_event_size) c.served
