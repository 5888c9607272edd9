-- ===== src/Daemon/Passes.antt =====
-- A pass of the daemon (libsuiw/libsuiwd.cpp) over its poll list.
use soft_ui_warp.Prelude.{
  ℕ, zero, suc, ◌+◌, ◌≡◌, refl, sym, ap, subst, ◌∙◌, inl, inr, Bool, true, false, ◌&&◌, ◌||◌, List,
  [], ◌∷◌, arith, ◌==◌, if◌then◌else◌, Bool-cases, ℤ, pos, negsuc, ◌==ℤ◌, length, count_if,
}
use soft_ui_warp.Daemon.{Revents, Os, Daemon, goes_on, handle, serve}

-- `revents` is not 0; and it is `POLLIN` alone.
abbrev pub is_ready : Revents → Bool
is_ready r = r.pollin || r.pollerr || r.pollhup || r.pollnval

abbrev pub IsPlain : Revents → Type 0
IsPlain r = (r.pollin ≡ true) × (r.pollerr ≡ false) × (r.pollhup ≡ false) × (r.pollnval ≡ false)

pub and-false : (b : Bool) → (b && false) ≡ false
and-false true = refl
and-false false = refl

module _ (r : Revents) (revs : List Revents) (n : ℕ) where
  one_less : suc n ≡ count_if is_ready (r ∷ revs) → is_ready r ≡ true → n ≡ count_if is_ready revs
  unfolding count_if
  one_less e t = ground (arith, e, t)

  as_many : n ≡ count_if is_ready (r ∷ revs) → is_ready r ≡ false → n ≡ count_if is_ready revs
  unfolding count_if
  as_many e f = ground (arith, e, f)

module _ (os : Os) (asserts : Bool) (size : ℕ) (garbage : ℤ) (cq_start : ℕ) where
  -- The handlers of the ready positions, each once, in the order of the list.
  abbrev pub handle_ready : ℕ → List ℤ → List Revents → Daemon os → Daemon os
  handle_ready i [] revs d = d
  handle_ready i (fd ∷ fds) [] d = d
  handle_ready i (fd ∷ fds) (r ∷ revs) d =
      let d' = handle os size garbage cq_start i fd d in
      handle_ready (i + 1) fds revs (if is_ready r then d' else d)

  -- The ready positions are plain and no handler fails, nor finds that the library has gone.
  abbrev pub GoesWell : ℕ → List ℤ → List Revents → Daemon os → Type 0
  GoesWell i [] revs d = Unit {0}
  GoesWell i (fd ∷ fds) [] d = ⊥
  GoesWell i (fd ∷ fds) (r ∷ revs) d =
      let d' = handle os size garbage cq_start i fd d in
      (is_ready r ≡ true
        → IsPlain r × (((i == 0) && (d'.ret ==ℤ pos 0)) ≡ false) × ((d'.ret ==ℤ negsuc 0) ≡ false))
      × GoesWell (i + 1) fds revs (if is_ready r then d' else d)

  none_ready :
      (i : ℕ) (fds : List ℤ) (revs : List Revents) (d : Daemon os)
      → count_if is_ready revs ≡ 0
      → handle_ready i fds revs d ≡ d
  unfolding count_if
  none_ready i [] revs d e = refl
  none_ready i (fd ∷ fds) [] d e = refl
  none_ready i (fd ∷ fds) (r ∷ revs) d e = elim (Bool-cases (is_ready r)) [
    | inl t ↦ absurd (ground (arith, e, t))
    | inr f ↦
        ap (handle_ready (i + 1) fds revs)
          (ap (λ b. if b then handle os size garbage cq_start i fd d else d) f)
        ∙ none_ready (i + 1) fds revs d (ground (arith, e, f))
  ]

  serve-quiet :
      (i n : ℕ) (fd : ℤ) (fds : List ℤ) (r : Revents) (revs : List Revents) (d : Daemon os)
      → is_ready r ≡ false
      → serve os asserts size garbage cq_start i (fd ∷ fds) (r ∷ revs) (suc n) d
        ≡ serve os asserts size garbage cq_start (i + 1) fds revs (suc n) d
  unfolding serve
  serve-quiet i n fd fds r revs d f = rw f refl

  serve-served :
      (i n : ℕ) (fd : ℤ) (fds : List ℤ) (r : Revents) (revs : List Revents) (d : Daemon os)
      → IsPlain r
      → (let d' = handle os size garbage cq_start i fd d in
          (((i == 0) && (d'.ret ==ℤ pos 0)) ≡ false) × ((d'.ret ==ℤ negsuc 0) ≡ false))
      → serve os asserts size garbage cq_start i (fd ∷ fds) (r ∷ revs) (suc n) d
        ≡ serve os asserts size garbage cq_start
            (i + 1)
            fds
            revs
            n
            (handle os size garbage cq_start i fd d)
  unfolding serve
  serve-served i n fd fds r revs d plain ok =
      simp (plain.0, plain.1, plain.2, plain.3, and-false asserts, ok.0, ok.1) refl

  -- A pass calls the handler of each ready position once, in the order of the list, and goes on:
  -- where `poll` gives the number of the ready positions, these are plain, and no handler fails.
  pub serve_lem :
      (i n : ℕ) (fds : List ℤ) (revs : List Revents) (d : Daemon os)
      → n ≡ count_if is_ready revs
      → GoesWell i fds revs d
      → length revs ≡ length fds
      → serve os asserts size garbage cq_start i fds revs n d ≡ (goes_on, handle_ready i fds revs d)
  serve_lem i zero fds revs d e well len =
      unfold serve in ap (λ k. (goes_on, k)) (sym (none_ready i fds revs d (sym e)))
  serve_lem i (suc n) [] [] d e well len = absurd (unfold count_if in omega (arith, e))
  serve_lem i (suc n) [] (r ∷ revs) d e well len = absurd (omega (arith, len))
  serve_lem i (suc n) (fd ∷ fds) [] d e well len = absurd (omega (arith, len))
  serve_lem i (suc n) (fd ∷ fds) (r ∷ revs) d e well len =
      let d' = handle os size garbage cq_start i fd d in
      let next : Bool → Daemon os = λ b. if b then d' else d in
      elim (Bool-cases (is_ready r)) [
        | inl t ↦
            (let (plain, open_still, succeeds) = well.0 t in
              let rest : GoesWell (i + 1) fds revs d' =
                subst (λ b. GoesWell (i + 1) fds revs (next b)) t well.1 in
              serve-served i n fd fds r revs d plain (open_still, succeeds)
              ∙ serve_lem (i + 1) n fds revs d' (one_less r revs n e t) rest (omega (arith, len))
              ∙ ap (λ b. (goes_on, handle_ready (i + 1) fds revs (next b))) (sym t))
        | inr f ↦
            (let rest : GoesWell (i + 1) fds revs d =
                subst (λ b. GoesWell (i + 1) fds revs (next b)) f well.1 in
              serve-quiet i n fd fds r revs d f
              ∙ serve_lem (i + 1) (suc n) fds revs d (as_many r revs (suc n) e f) rest
                  (omega (arith, len))
              ∙ ap (λ b. (goes_on, handle_ready (i + 1) fds revs (next b))) (sym f))
      ]
