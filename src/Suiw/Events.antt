-- ===== src/Suiw/Events.antt =====
-- Events of the library (libsuiw/softuiwarp.cpp) as bytes, and what each end of a channel does with
-- those that wait on it.
use soft_ui_warp.Prelude.{
  ℕ, ◌^◌, ◌<◌, ◌≡◌, refl, sym, ap, ◌∙◌, ◌⊎◌, inl, inr, List, [], ◌++◌, append-nil, arith, ◌==◌,
  ==_iff, Bool-cases, ℤ, pos, negsuc, length, take, drop, length-append, drop-length, take-append,
  drop-append,
}
use soft_ui_warp.Tcp.{got}
use soft_ui_warp.Wire.{le_bytes, from_le}
use soft_ui_warp.Wire.Bytes.{length-le_bytes, from_le-le_bytes}
use soft_ui_warp.Daemon.{Os, Daemon, ec_handle_recv}
use soft_ui_warp.Suiw.{
  Calls, CmEvent, CmId, param_size, cm_event_size, event_bytes, event_of, resolved, addr_resolved,
  route_resolved, suiw_resolve_addr, suiw_resolve_route, suiw_get_cm_event,
}
use soft_ui_warp.Suiw.Link.{IsLink}

-- An event whose members have their sizes.
abbrev pub IsEvent : CmEvent → Type 0
IsEvent e =
    (e.id < 2 ^ 64)
    × (e.listen_id < 2 ^ 64)
    × (e.event < 2 ^ 32)
    × (e.status < 2 ^ 32)
    × (length e.param ≡ param_size)

pub length-event_bytes : (e : CmEvent) → IsEvent e → length (event_bytes e) ≡ cm_event_size
unfolding event_bytes
length-event_bytes e h = simp (length-append, length-le_bytes) (omega (arith, h))

-- A round trip through memory.
pub event_of-event_bytes : (e : CmEvent) → IsEvent e → event_of (event_bytes e) ≡ e
unfolding event_of event_bytes le_bytes from_le
event_of-event_bytes e h =
    rw
      (
        from_le-le_bytes 8 e.id h.0,
        from_le-le_bytes 8 e.listen_id h.1,
        from_le-le_bytes 4 e.event h.2,
        from_le-le_bytes 4 e.status h.3,
      )
      refl

pub resolved-IsEvent : (kind id : ℕ) → kind < 2 ^ 32 → id < 2 ^ 64 → IsEvent (resolved kind id)
unfolding resolved
resolved-IsEvent kind id k i = (i, omega arith, k, omega arith, refl)

-- A whole event is sent back as it came.
pub ec_handle_recv-whole :
    (os : Os) (size : ℕ) (d : Daemon os) (fd : ℤ) (bs : List ℕ) (s₁ s₂ : os.State)
    → 0 < size
    → length bs ≡ size
    → os.recv d.sys fd size ≡ (got bs, s₁)
    → os.send s₁ fd bs ≡ (pos size, s₂)
    → ec_handle_recv os size d fd ≡ (pos size, record d { sys = s₂ })
unfolding ec_handle_recv
ec_handle_recv-whole os size d fd bs s₁ s₂ some_bytes len came went =
    ground (arith, some_bytes, len, came, went)

-- A part of an event ends the handler with -1.
ec_handle_recv-part :
    (os : Os) (size : ℕ) (d : Daemon os) (fd : ℤ) (bs : List ℕ) (s₁ : os.State)
    → 0 < length bs
    → length bs < size
    → os.recv d.sys fd size ≡ (got bs, s₁)
    → (ec_handle_recv os size d fd).0 ≡ negsuc 0
unfolding ec_handle_recv
ec_handle_recv-part os size d fd bs s₁ some_bytes less came = ground (arith, some_bytes, less, came)

-- Two ways to cut the same bytes behind the n-th.
same_parts :
    (n : ℕ) (xs ys us vs : List ℕ)
    → length xs ≡ n
    → length ys ≡ n
    → xs ++ us ≡ ys ++ vs
    → (xs ≡ ys) × (us ≡ vs)
same_parts n xs ys us vs x y e = (
  sym (take-append n xs us x) ∙ ap (take n) e ∙ take-append n ys vs y,
  sym (drop-append n xs us x) ∙ ap (drop n) e ∙ drop-append n ys vs y,
)

module _ {os : Os} {calls : Calls os} {lib_fd daemon_fd : ℤ}
    (link : IsLink os calls lib_fd daemon_fd) where
  open link use {
    up, down, asked, asks, heard, hears_bytes, hears, up-heard, hears_at_most, hears_some, answered,
    answers, taken, takes_bytes, takes, down-taken, takes_at_most,
  }

  -- Both calls succeed, and the event is on its way.
  pub suiw_resolve_addr_asks :
      (id : CmId) (s : os.State)
      → id.channel_fd ≡ lib_fd
      → id.address < 2 ^ 64
      → suiw_resolve_addr os calls id s
        ≡ (pos 0, asked s (event_bytes (resolved addr_resolved id.address)))
  unfolding suiw_resolve_addr
  suiw_resolve_addr_asks id s e h =
      let bs = event_bytes (resolved addr_resolved id.address) in
      let len =
        length-event_bytes (resolved addr_resolved id.address)
          (resolved-IsEvent addr_resolved id.address (omega arith) h) in
      rw (e, asks s bs, len) refl

  pub suiw_resolve_route_asks :
      (id : CmId) (s : os.State)
      → id.channel_fd ≡ lib_fd
      → id.address < 2 ^ 64
      → suiw_resolve_route os calls id s
        ≡ (pos 0, asked s (event_bytes (resolved route_resolved id.address)))
  unfolding suiw_resolve_route
  suiw_resolve_route_asks id s e h =
      let bs = event_bytes (resolved route_resolved id.address) in
      let len =
        length-event_bytes (resolved route_resolved id.address)
          (resolved-IsEvent route_resolved id.address (omega arith) h) in
      rw (e, asks s bs, len) refl

  -- The daemon's handler either moves the first event that waits for it to those on their way back,
  -- or gets a part of it and returns -1.
  pub ec_handle_recv_answers :
      (d : Daemon os) (e : CmEvent) (rest : List ℕ)
      → IsEvent e
      → up d.sys ≡ event_bytes e ++ rest
      → ((ec_handle_recv os cm_event_size d daemon_fd ≡ (
        pos cm_event_size,
        record d { sys = answered (heard d.sys cm_event_size) (event_bytes e) },
      ))
          × (up (heard d.sys cm_event_size) ≡ rest))
        ⊎ ((ec_handle_recv os cm_event_size d daemon_fd).0 ≡ negsuc 0)
  ec_handle_recv_answers d e rest h w =
      let len = length-event_bytes e h in
      let bs = hears_bytes d.sys cm_event_size in
      let s₁ = heard d.sys cm_event_size in
      let came = hears d.sys cm_event_size in
      let split = sym (up-heard d.sys cm_event_size) ∙ w in
      let some_up : 0 < length (up d.sys) =
        omega (arith, ap length w, length-append (event_bytes e) rest, len) in
      let some_bytes = hears_some d.sys cm_event_size (omega arith) some_up in
      let most = hears_at_most d.sys cm_event_size in
      elim (Bool-cases (length bs == cm_event_size)) [
        | inl t ↦
            (let all = (==_iff (length bs) cm_event_size).0 t in
              let (first, left) =
                same_parts cm_event_size bs (event_bytes e) (up s₁) rest all len split in
              inl (
                ec_handle_recv-whole os cm_event_size d daemon_fd (event_bytes e) _ _ (omega arith)
                    len (came ∙ ap (λ b. (got b, s₁)) first)
                    (answers _ (event_bytes e)
                      ∙ ap (λ n. (pos n, answered s₁ (event_bytes e))) len),
                left,
              ))
        | inr part ↦ inr (
            ec_handle_recv-part os cm_event_size d daemon_fd bs s₁ some_bytes
              (ground (arith, most, part)) came)
      ]

  -- The library either takes the first event that waits for it, as it was sent, or gets a part of it
  -- and returns -1.
  pub suiw_get_cm_event_takes :
      (garbage : List ℕ) (s : os.State) (e : CmEvent) (rest : List ℕ)
      → length garbage ≡ cm_event_size
      → IsEvent e
      → down s ≡ event_bytes e ++ rest
      → ((suiw_get_cm_event os calls garbage lib_fd s ≡ (pos 0, e, taken s cm_event_size))
          × (down (taken s cm_event_size) ≡ rest))
        ⊎ ((suiw_get_cm_event os calls garbage lib_fd s).0 ≡ negsuc 0)
  unfolding suiw_get_cm_event
  suiw_get_cm_event_takes garbage s e rest g h w =
      let len = length-event_bytes e h in
      let bs = takes_bytes s cm_event_size in
      let came = takes s cm_event_size in
      let most = takes_at_most s cm_event_size in
      let fresh : drop cm_event_size garbage ≡ [] =
        ap (λ n. drop n garbage) (sym g) ∙ drop-length garbage in
      elim (Bool-cases (length bs == cm_event_size)) [
        | inl t ↦
            (let all = (==_iff (length bs) cm_event_size).0 t in
              let (first, left) =
                same_parts cm_event_size bs (event_bytes e) (down (taken s cm_event_size)) rest all
                  len (sym (down-taken s cm_event_size) ∙ w) in
              inl (
                rw (came, first, len, fresh, append-nil (event_bytes e), event_of-event_bytes e h)
                    refl,
                left,
              ))
        | inr part ↦ inr (ground (arith, came, most, part))
      ]
