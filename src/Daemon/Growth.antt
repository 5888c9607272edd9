-- ===== src/Daemon/Growth.antt =====
-- A pass of the daemon (libsuiw/libsuiwd.cpp) in which the library asks for an event channel: the lists
-- grow, and the poll list and `cq_fd_start` of the pass do not.
use soft_ui_warp.Prelude.{
  ℕ, suc, ◌+◌, ◌^◌, ◌<◌, ◌≡◌, refl, ap, ◌∙◌, inl, inr, Bool, true, false, ◌&&◌, List, [], ◌∷◌, ◌++◌,
  arith, ◌==◌, Bool-cases, ℤ, pos, negsuc, ◌==ℤ◌, length, replicate, length-append,
}
use soft_ui_warp.Tcp.{got}
use soft_ui_warp.Wire.{le_bytes}
use soft_ui_warp.Wire.Bytes.{length-le_bytes, from_le-le_bytes}
use soft_ui_warp.Daemon.{
  Revents, Os, Daemon, route, build_fds, lib_handle_recv, ec_handle_recv, create_event_channel,
  daemon_msg, handle, serve,
}
use soft_ui_warp.Daemon.Routes.{build_fds_lem}
use soft_ui_warp.Daemon.Passes.{and-false}

-- `revents` of a position where nothing, or something to be read, has come.
abbrev pub idle : Revents
idle = record { pollin = false; pollerr = false; pollhup = false; pollnval = false }

abbrev pub readable : Revents
readable = record { pollin = true; pollerr = false; pollhup = false; pollnval = false }

module _ (os : Os) (asserts : Bool) (size : ℕ) (garbage : ℤ) (cq_start : ℕ) where
  -- The loop goes over idle positions.
  serve-idle :
      (i n : ℕ) (fds fds' : List ℤ) (revs : List Revents) (d : Daemon os)
      → serve os asserts size garbage cq_start i
          (fds ++ fds')
          (replicate (length fds) idle ++ revs)
          (suc n)
          d
        ≡ serve os asserts size garbage cq_start (i + length fds) fds' revs (suc n) d
  unfolding serve
  serve-idle i n [] fds' revs d =
      ap (λ k. serve os asserts size garbage cq_start k fds' revs (suc n) d) (omega arith)
  serve-idle i n (fd ∷ fds) fds' revs d =
      serve-idle (i + 1) n fds fds' revs d
      ∙ ap (λ k. serve os asserts size garbage cq_start k fds' revs (suc n) d) (omega arith)

  -- A readable position, when its handler does not fail, is followed by the rest.
  serve-readable :
      (i n : ℕ) (fd : ℤ) (fds : List ℤ) (revs : List Revents) (d : Daemon os)
      → ((i == 0) && ((handle os size garbage cq_start i fd d).ret ==ℤ pos 0)) ≡ false
      → ((handle os size garbage cq_start i fd d).ret ==ℤ negsuc 0) ≡ false
      → serve os asserts size garbage cq_start i (fd ∷ fds) (readable ∷ revs) (suc n) d
        ≡ serve os asserts size garbage cq_start
            (i + 1)
            fds
            revs
            n
            (handle os size garbage cq_start i fd d)
  unfolding serve
  serve-readable i n fd fds revs d open_yet fine = rw (and-false asserts, open_yet, fine) refl

  -- What a last readable position leaves of the daemon does not depend on its handler's result.
  serve-last :
      (i : ℕ) (fd : ℤ) (fds : List ℤ) (revs : List Revents) (d : Daemon os)
      → (serve os asserts size garbage cq_start i (fd ∷ fds) (readable ∷ revs) 1 d).1
        ≡ handle os size garbage cq_start i fd d
  unfolding serve
  serve-last i fd fds revs d =
      let d' = handle os size garbage cq_start i fd d in
      elim (Bool-cases ((i == 0) && (d'.ret ==ℤ pos 0))) [
        | inl t ↦ rw (and-false asserts, t) refl
        | inr f ↦ elim (Bool-cases (d'.ret ==ℤ negsuc 0)) [
          | inl t ↦ rw (and-false asserts, f, t) refl
          | inr g ↦ rw (and-false asserts, f, g) refl
        ]
      ]

module _ (os : Os) (asserts : Bool) (size : ℕ) (garbage lib_fd dpdk_fd cq_fd : ℤ) (cq_fds : List ℤ)
    (d : Daemon os) (s : os.State) where
  -- The poll list and `cq_fd_start` of a pass that starts with the daemon `d`.
  abbrev polled_fds : List ℤ
  polled_fds = build_fds lib_fd dpdk_fd d.ec_fds d.cq_fds 0 (2 + length d.ec_fds + length d.cq_fds)

  -- The daemon when the library's request has been served.
  abbrev pub with_channel : Daemon os
  with_channel = record (create_event_channel os (record d { sys = s })) { ret = pos 4 }

  creates :
      os.recv_whole d.sys lib_fd 4 ≡ (got (le_bytes 4 0), s)
      → handle os size garbage (2 + length d.ec_fds) 0 lib_fd d ≡ with_channel
  unfolding handle route lib_handle_recv create_event_channel daemon_msg
  creates asked = ground (arith, asked, length-le_bytes 4 0, from_le-le_bytes 4 0 (omega arith))

  -- Behind the event channels that were polled there is one more now.
  answers_as_channel :
      (i : ℕ)
      → length d.ec_fds + 3 < 2 ^ 64
      → i ≡ 2 + length d.ec_fds
      → handle os size garbage (2 + length d.ec_fds) i cq_fd with_channel
        ≡ let (ret, d') = ec_handle_recv os size with_channel cq_fd in record d' { ret = ret }
  unfolding handle route create_event_channel
  answers_as_channel i fits at =
      ground (arith, fits, at, length-append d.ec_fds ((os.accept s).0 ∷ []))

  -- A pass on the poll list that was built for the daemon's lists, in which the library's descriptor
  -- and the first completion queue are readable, and the library's message asks for an event channel:
  -- the pass leaves what the handler of event channels makes of the completion queue's descriptor,
  -- after the new event channel has been added.
  pub queue_taken_for_channel :
      (revs : List Revents)
      → length d.ec_fds + length d.cq_fds + 3 < 2 ^ 64
      → d.cq_fds ≡ cq_fd ∷ cq_fds
      → os.recv_whole d.sys lib_fd 4 ≡ (got (le_bytes 4 0), s)
      → (serve os asserts size garbage
          (2 + length d.ec_fds)
          0
          polled_fds
          (readable ∷ (replicate (suc (length d.ec_fds)) idle ++ readable ∷ revs))
          2
          d).1
        ≡ let (ret, d') = ec_handle_recv os size with_channel cq_fd in record d' { ret = ret }
  queue_taken_for_channel revs fits first asked =
      let start = 2 + length d.ec_fds in
      let mids = dpdk_fd ∷ d.ec_fds in
      let after = readable ∷ revs in
      let list : polled_fds ≡ lib_fd ∷ (mids ++ cq_fd ∷ cq_fds) =
        build_fds_lem lib_fd dpdk_fd d.ec_fds d.cq_fds (omega (arith, fits))
        ∙ ap (λ l. lib_fd ∷ (mids ++ l)) first in
      let made = creates asked in
      let went =
        serve-readable os asserts size garbage start 0 1 lib_fd (mids ++ cq_fd ∷ cq_fds)
          (replicate (length mids) idle ++ after) d (ap (λ e. (e.ret ==ℤ pos 0)) made)
          (ap (λ e. (e.ret ==ℤ negsuc 0)) made) in
      ap
        (λ l.
          (serve os asserts size garbage start 0 l
            (readable ∷ (replicate (length mids) idle ++ after)) 2 d).1)
        list
      ∙ ap (λ r. r.1) went
      ∙ ap
          (λ e.
            (serve os asserts size garbage start 1 (mids ++ cq_fd ∷ cq_fds)
              (replicate (length mids) idle ++ after) 1 e).1)
          made
      ∙ ap (λ r. r.1)
          (serve-idle os asserts size garbage start 1 0 mids (cq_fd ∷ cq_fds) after with_channel)
      ∙ serve-last os asserts size garbage start (1 + length mids) cq_fd cq_fds revs with_channel
      ∙ answers_as_channel (1 + length mids) (omega (arith, fits)) (omega arith)
