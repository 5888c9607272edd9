-- ===== src/Perftest/Options.antt =====
-- What the benchmarks' `argparse` (perftest/perftest.cpp) makes of a command line, said without its
-- loop.
use soft_ui_warp.Prelude.{
  ℕ, ◌≡◌, refl, sym, ap, ◌∙◌, Bool, true, false, Option, none, some, List, [], ◌∷◌, ◌++◌,
  append-nil, arith, ℤ,
}
use soft_ui_warp.Perftest.{
  PerftestContext, Opt, opt_s, opt_p, opt_b, opt_i, opt_r, opt_c, opt_h, opt_unknown, opt_other,
  returns_0, returns_1, exits, default_context, parse_opts, argparse,
}

-- The options that only set a member.
abbrev pub sets : Opt → Bool
sets (opt_s a) = true
sets (opt_p a) = true
sets (opt_b a) = true
sets (opt_i a) = true
sets (opt_r a) = true
sets opt_c = true
sets opt_h = false
sets opt_unknown = false
sets opt_other = false

abbrev pub AllSet : List Opt → Type 0
AllSet [] = Unit {0}
AllSet (o ∷ opts) = (sets o ≡ true) × AllSet opts

-- The arguments of the options of one letter.
abbrev pub given_s : Opt → Option (List ℕ)
given_s o = elim o [ opt_s a ↦ some a | _ ↦ none ]

abbrev pub given_p : Opt → Option (List ℕ)
given_p o = elim o [ opt_p a ↦ some a | _ ↦ none ]

abbrev pub given_b : Opt → Option (List ℕ)
given_b o = elim o [ opt_b a ↦ some a | _ ↦ none ]

abbrev pub given_i : Opt → Option (List ℕ)
given_i o = elim o [ opt_i a ↦ some a | _ ↦ none ]

abbrev pub given_r : Opt → Option (List ℕ)
given_r o = elim o [ opt_r a ↦ some a | _ ↦ none ]

abbrev pub given_c : Opt → Option Bool
given_c o = elim o [ opt_c ↦ some true | _ ↦ none ]

-- The last value that an option gives, or a default.
unfoldable pub last_given {ℓ} : {A : Type ℓ} → (Opt → Option A) → A → List Opt → A
last_given f d [] = d
last_given f d (o ∷ opts) = last_given f (elim (f o) [ none ↦ d | some a ↦ a ]) opts

-- A context read off the options: for each member the last option that sets it.
abbrev pub described : (List ℕ → ℤ) → PerftestContext → List Opt → PerftestContext
described atoi c opts = record {
  port = last_given given_p c.port opts;
  ip = last_given given_s c.ip opts;
  buf_size =
      last_given (λ o. elim (given_b o) [ none ↦ none | some a ↦ some (atoi a) ]) c.buf_size opts;
  iters = last_given (λ o. elim (given_i o) [ none ↦ none | some a ↦ some (atoi a) ]) c.iters opts;
  max_reqs =
      last_given (λ o. elim (given_r o) [ none ↦ none | some a ↦ some (atoi a) ]) c.max_reqs opts;
  is_client = last_given given_c c.is_client opts;
}

module _ (atoi : List ℕ → ℤ) where
  -- The options in front of any others.
  parse_opts-append :
      (xs ys : List Opt) (c : PerftestContext)
      → AllSet xs
      → parse_opts atoi (xs ++ ys) c ≡ parse_opts atoi ys (described atoi c xs)
  unfolding parse_opts last_given
  parse_opts-append [] ys c h = refl
  parse_opts-append (opt_s a ∷ xs) ys c h = parse_opts-append xs ys (record c { ip = a }) h.1
  parse_opts-append (opt_p a ∷ xs) ys c h = parse_opts-append xs ys (record c { port = a }) h.1
  parse_opts-append (opt_b a ∷ xs) ys c h =
      parse_opts-append xs ys (record c { buf_size = atoi a }) h.1
  parse_opts-append (opt_i a ∷ xs) ys c h =
      parse_opts-append xs ys (record c { iters = atoi a }) h.1
  parse_opts-append (opt_r a ∷ xs) ys c h =
      parse_opts-append xs ys (record c { max_reqs = atoi a }) h.1
  parse_opts-append (opt_c ∷ xs) ys c h =
      parse_opts-append xs ys (record c { is_client = true }) h.1
  parse_opts-append (opt_h ∷ xs) ys c h = absurd (ground (arith, h))
  parse_opts-append (opt_unknown ∷ xs) ys c h = absurd (ground (arith, h))
  parse_opts-append (opt_other ∷ xs) ys c h = absurd (ground (arith, h))

  -- A command line of options that set members gives for each member the argument of the last
  -- option for it, or the default; help behind them leaves the program, and an unknown option
  -- behind them is an error, whatever follows.
  pub argparse_lem :
      (xs ys : List Opt)
      → AllSet xs
      → (argparse atoi xs ≡ returns_0 (described atoi default_context xs))
        × (argparse atoi (xs ++ opt_h ∷ ys) ≡ exits)
        × (argparse atoi (xs ++ opt_unknown ∷ ys) ≡ returns_1)
  unfolding argparse parse_opts
  argparse_lem xs ys h = (
    ap (λ l. parse_opts atoi l default_context) (sym (append-nil xs))
        ∙ parse_opts-append xs [] default_context h,
    parse_opts-append xs (opt_h ∷ ys) default_context h,
    parse_opts-append xs (opt_unknown ∷ ys) default_context h,
  )
