-- ===== src/Suiw/Order.antt =====
-- The order of the events of a channel (libsuiw/softuiwarp.cpp, libsuiw/libsuiwd.cpp), whatever the
-- order of the steps of the library and the daemon.
use soft_ui_warp.Prelude.{
  ℕ, ◌<◌, ◌≡◌, refl, sym, ap, subst, ◌∙◌, ◌⊎◌, inl, inr, List, [], ◌∷◌, ◌++◌, append-nil,
  append_assoc, arith, ℤ, pos, length,
}
use soft_ui_warp.Daemon.{Os, Daemon, ec_handle_recv}
use soft_ui_warp.Suiw.{
  Calls, CmEvent, cm_event_size, event_bytes, resolved, addr_resolved, route_resolved,
  suiw_get_cm_event,
}
use soft_ui_warp.Suiw.Link.{IsLink}
use soft_ui_warp.Suiw.Events.{
  IsEvent, resolved-IsEvent, suiw_resolve_addr_asks, suiw_resolve_route_asks,
  ec_handle_recv_answers, suiw_get_cm_event_takes,
}
use soft_ui_warp.Suiw.Channel.{
  Channel, Step, resolves_addr, resolves_route, serves, gets, others, Reach, here, later, AllAre,
  AreEvents, events_bytes, events_bytes-append, AreEvents-append, IsOrdered, HasFailed,
}

-- Bytes that are there are those of a first event.
first_event :
    (es : List CmEvent)
    → 0 < length (events_bytes es)
    → (e : CmEvent) × (rest : List CmEvent) × (es ≡ e ∷ rest)
first_event [] h = absurd (omega arith)
first_event (e ∷ rest) h = (e, rest, refl)

module _ {os : Os} {calls : Calls os} {lib_fd daemon_fd : ℤ}
    (link : IsLink os calls lib_fd daemon_fd) where
  open link use {
    up, down, asked, up-asked, down-asked, heard, up-heard, down-heard, answered, up-answered,
    down-answered, taken, up-taken, down-taken,
  }

  -- A call that has put an event on its way.
  asked-IsOrdered :
      (c : Channel os) (ev : CmEvent) (ret : ℤ) (s : os.State)
      → IsEvent ev
      → ◌≡◌ {A = ℤ × os.State} (ret, s) (pos 0, asked c.daemon.sys (event_bytes ev))
      → IsOrdered link c
      → IsOrdered link (record c {
        daemon = record c.daemon { sys = s };
        wanted = c.wanted ++ ev ∷ [];
        results = ret ∷ c.results;
      })
  asked-IsOrdered c ev ret s h e o =
      let moved : s ≡ asked c.daemon.sys (event_bytes ev) = ap (λ r. r.1) e in
      record {
        back = o.back;
        forth = o.forth ++ ev ∷ [];
        in_order =
            ap (λ es. es ++ ev ∷ []) o.in_order
            ∙ append_assoc c.got (o.back ++ o.forth) (ev ∷ [])
            ∙ ap (◌++◌ c.got) (append_assoc o.back o.forth (ev ∷ []));
        on_way_back = ap down moved ∙ down-asked c.daemon.sys (event_bytes ev) ∙ o.on_way_back;
        on_way_forth =
            ap up moved
            ∙ up-asked c.daemon.sys (event_bytes ev)
            ∙ ap (λ bs. bs ++ event_bytes ev) o.on_way_forth
            ∙ ap (◌++◌ (events_bytes o.forth)) (sym (append-nil (event_bytes ev)))
            ∙ sym (events_bytes-append o.forth (ev ∷ []));
        back_are = o.back_are;
        forth_are = AreEvents-append o.forth (ev ∷ []) o.forth_are (h, tt);
        all_succeed = (ap (λ r. r.0) e, o.all_succeed);
        whole = o.whole;
      }

  abbrev GoesOn : Channel os → Type 0
  GoesOn c = IsOrdered link c ⊎ HasFailed c

  -- A run of the handler that has moved the first event.
  moved-IsOrdered :
      (c : Channel os) (e : CmEvent) (rest : List CmEvent) (ret : ℤ) (d : Daemon os)
      → (o : IsOrdered link c) → o.forth ≡ e ∷ rest
      → ◌≡◌ {A = ℤ × Daemon os}
          (ret, d)
          (
            pos cm_event_size,
            record (c.daemon) { sys = answered (heard c.daemon.sys cm_event_size) (event_bytes e) },
          )
      → up (heard c.daemon.sys cm_event_size) ≡ events_bytes rest
      → IsOrdered link (record c { daemon = d; served = ret ∷ c.served })
  moved-IsOrdered c e rest ret d o split result left =
      let are : AreEvents (e ∷ rest) = subst AreEvents split o.forth_are in
      let sys = c.daemon.sys in
      let bs = event_bytes e in
      let after : d.sys ≡ answered (heard sys cm_event_size) bs = ap (λ r. r.1.sys) result in
      record {
        back = o.back ++ e ∷ [];
        forth = rest;
        in_order =
            o.in_order
            ∙ ap (λ es. c.got ++ (o.back ++ es)) split
            ∙ ap (◌++◌ c.got) (sym (append_assoc o.back (e ∷ []) rest));
        on_way_back =
            ap down after
            ∙ down-answered (heard sys cm_event_size) bs
            ∙ ap (λ ws. ws ++ bs) (down-heard sys cm_event_size ∙ o.on_way_back)
            ∙ ap (◌++◌ (events_bytes o.back)) (sym (append-nil bs))
            ∙ sym (events_bytes-append o.back (e ∷ []));
        on_way_forth = ap up after ∙ up-answered (heard sys cm_event_size) bs ∙ left;
        back_are = AreEvents-append o.back (e ∷ []) o.back_are (are.0, tt);
        forth_are = are.1;
        all_succeed = o.all_succeed;
        whole = (ap (λ r. r.0) result, o.whole);
      }

  serves-GoesOn :
      (c : Channel os) (ret : ℤ) (d : Daemon os)
      → 0 < length (up c.daemon.sys)
      → ec_handle_recv os cm_event_size c.daemon daemon_fd ≡ (ret, d)
      → IsOrdered link c
      → GoesOn (record c { daemon = d; served = ret ∷ c.served })
  serves-GoesOn c ret d some_bytes ran o =
      let (e, rest, split) =
        first_event o.forth (subst (λ bs. 0 < length bs) o.on_way_forth some_bytes) in
      let are : AreEvents (e ∷ rest) = subst AreEvents split o.forth_are in
      let waiting : up c.daemon.sys ≡ event_bytes e ++ events_bytes rest =
        o.on_way_forth ∙ ap events_bytes split in
      elim (ec_handle_recv_answers link c.daemon e (events_bytes rest) are.0 waiting) [
        | inl (whole, left) ↦ inl (moved-IsOrdered c e rest ret d o split (sym ran ∙ whole) left)
        | inr part ↦ inr (inr (inl (ap (λ r. r.0) (sym ran) ∙ part)))
      ]

  -- A call that has taken the first event.
  taken-IsOrdered :
      (c : Channel os) (e : CmEvent) (rest : List CmEvent) (ret : ℤ) (ev : CmEvent) (s : os.State)
      → (o : IsOrdered link c) → o.back ≡ e ∷ rest
      → ◌≡◌ {A = ℤ × CmEvent × os.State} (ret, ev, s) (pos 0, e, taken c.daemon.sys cm_event_size)
      → down (taken c.daemon.sys cm_event_size) ≡ events_bytes rest
      → IsOrdered link (record c {
        daemon = record c.daemon { sys = s };
        got = c.got ++ ev ∷ [];
        results = ret ∷ c.results;
      })
  taken-IsOrdered c e rest ret ev s o split result left =
      let are : AreEvents (e ∷ rest) = subst AreEvents split o.back_are in
      let sys = c.daemon.sys in
      let same : ev ≡ e = ap (λ r. r.1) result in
      let after : s ≡ taken sys cm_event_size = ap (λ r. r.2) result in
      record {
        back = rest;
        forth = o.forth;
        in_order =
            o.in_order
            ∙ ap (λ es. c.got ++ (es ++ o.forth)) split
            ∙ sym (append_assoc c.got (e ∷ []) (rest ++ o.forth))
            ∙ ap (λ x. (c.got ++ x ∷ []) ++ (rest ++ o.forth)) (sym same);
        on_way_back = ap down after ∙ left;
        on_way_forth = ap up after ∙ up-taken sys cm_event_size ∙ o.on_way_forth;
        back_are = are.1;
        forth_are = o.forth_are;
        all_succeed = (ap (λ r. r.0) result, o.all_succeed);
        whole = o.whole;
      }

  gets-GoesOn :
      (c : Channel os) (garbage : List ℕ) (ret : ℤ) (ev : CmEvent) (s : os.State)
      → length garbage ≡ cm_event_size
      → 0 < length (down c.daemon.sys)
      → suiw_get_cm_event os calls garbage lib_fd c.daemon.sys ≡ (ret, ev, s)
      → IsOrdered link c
      → GoesOn (record c {
        daemon = record c.daemon { sys = s };
        got = c.got ++ ev ∷ [];
        results = ret ∷ c.results;
      })
  gets-GoesOn c garbage ret ev s size some_bytes ran o =
      let (e, rest, split) =
        first_event o.back (subst (λ bs. 0 < length bs) o.on_way_back some_bytes) in
      let are : AreEvents (e ∷ rest) = subst AreEvents split o.back_are in
      let waiting : down c.daemon.sys ≡ event_bytes e ++ events_bytes rest =
        o.on_way_back ∙ ap events_bytes split in
      elim (suiw_get_cm_event_takes link garbage c.daemon.sys e (events_bytes rest) size are.0
        waiting) [
          | inl (whole, left) ↦
              inl (taken-IsOrdered c e rest ret ev s o split (sym ran ∙ whole) left)
          | inr part ↦ inr (inl (inl (ap (λ r. r.0) (sym ran) ∙ part)))
        ]

  Step-GoesOn : {c d : Channel os} → Step link c d → IsOrdered link c → GoesOn d
  Step-GoesOn {c} (resolves_addr id ret s on fits ran) o = inl (
      asked-IsOrdered c (resolved addr_resolved id.address) ret s
        (resolved-IsEvent addr_resolved id.address (omega arith) fits)
        (sym ran ∙ suiw_resolve_addr_asks link id c.daemon.sys on fits) o)
  Step-GoesOn {c} (resolves_route id ret s on fits ran) o = inl (
      asked-IsOrdered c (resolved route_resolved id.address) ret s
        (resolved-IsEvent route_resolved id.address (omega arith) fits)
        (sym ran ∙ suiw_resolve_route_asks link id c.daemon.sys on fits) o)
  Step-GoesOn {c} (serves ret d some_bytes ran) o = serves-GoesOn c ret d some_bytes ran o
  Step-GoesOn {c} (gets garbage ret ev s size some_bytes ran) o =
      gets-GoesOn c garbage ret ev s size some_bytes ran o
  Step-GoesOn (others d same_up same_down) o = inl record {
    back = o.back;
    forth = o.forth;
    in_order = o.in_order;
    on_way_back = same_down ∙ o.on_way_back;
    on_way_forth = same_up ∙ o.on_way_forth;
    back_are = o.back_are;
    forth_are = o.forth_are;
    all_succeed = o.all_succeed;
    whole = o.whole;
  }

  -- A failure stays among the results.
  Step-HasFailed : {c d : Channel os} → Step link c d → HasFailed c → HasFailed d
  Step-HasFailed (resolves_addr id ret s on fits ran) (inl h) = inl (inr h)
  Step-HasFailed (resolves_addr id ret s on fits ran) (inr h) = inr h
  Step-HasFailed (resolves_route id ret s on fits ran) (inl h) = inl (inr h)
  Step-HasFailed (resolves_route id ret s on fits ran) (inr h) = inr h
  Step-HasFailed (serves ret d some_bytes ran) (inl h) = inl h
  Step-HasFailed (serves ret d some_bytes ran) (inr h) = inr (inr h)
  Step-HasFailed (gets garbage ret ev s size some_bytes ran) (inl h) = inl (inr h)
  Step-HasFailed (gets garbage ret ev s size some_bytes ran) (inr h) = inr h
  Step-HasFailed (others d same_up same_down) h = h

  Reach-GoesOn : {c d : Channel os} → Reach link c d → GoesOn c → GoesOn d
  Reach-GoesOn here h = h
  Reach-GoesOn (later r s) h = elim (Reach-GoesOn r h) [
    | inl o ↦ Step-GoesOn s o
    | inr failed ↦ inr (Step-HasFailed s failed)
  ]

  -- On a channel that starts with nothing on its way, between two ends of a connection on which no
  -- call fails: whatever the order of the library's calls, the runs of the daemon's handler and what
  -- others do, and however many bytes each `recv` gives, either a call or a run has returned -1, or
  -- the library gets the events that it has asked for, in that order, each once and as it was made,
  -- while the others are still on their way; then every call of the library has returned 0, and every
  -- run of the handler the size of an event.
  pub events_in_order :
      (start c : Channel os)
      → start.wanted ≡ []
      → start.got ≡ []
      → start.results ≡ []
      → start.served ≡ []
      → up start.daemon.sys ≡ []
      → down start.daemon.sys ≡ []
      → Reach link start c
      → (((coming : List CmEvent) × (c.wanted ≡ c.got ++ coming)
            × (down c.daemon.sys ++ up c.daemon.sys ≡ events_bytes coming))
          × AllAre (pos 0) c.results
          × AllAre (pos cm_event_size) c.served)
        ⊎ HasFailed c
  events_in_order start c w g r v u d reached =
      let begun : IsOrdered link start = record {
        back = [];
        forth = [];
        in_order = rw (w, g) refl;
        on_way_back = d;
        on_way_forth = u;
        back_are = tt;
        forth_are = tt;
        all_succeed = rw r tt;
        whole = rw v tt;
      } in
      elim (Reach-GoesOn reached (inl begun)) [
        | inl o ↦ inl (
          (
            o.back ++ o.forth,
            o.in_order,
            rw (o.on_way_back, o.on_way_forth) (sym (events_bytes-append o.back o.forth)),
          ),
          o.all_succeed,
          o.whole,
        )
        | inr failed ↦ inr failed
      ]
