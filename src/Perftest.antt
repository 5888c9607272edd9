-- ===== src/Perftest.antt =====
-- The benchmarks' command line (perftest/perftest.h, perftest/perftest.cpp). `getopt` and `atoi` are
-- the C library's: the model takes the options that `getopt` gives, in order, and `atoi` as a
-- parameter.
pub mod Options
pub mod Requests
pub mod Iterations
pub mod Exchange
pub mod Run
pub mod Waits
pub mod Told
pub mod Completed
pub mod Writes
pub mod Bandwidth
use soft_ui_warp.Prelude.{ℕ, Bool, true, false, List, [], ◌∷◌, ℤ, pos}

abbrev pub default_buf_size : ℤ
default_buf_size = pos 1024

abbrev pub default_iters : ℤ
default_iters = pos 1024

-- "127.0.0.1" and "9999".
abbrev pub default_ip : List ℕ
default_ip = 49 ∷ 50 ∷ 55 ∷ 46 ∷ 48 ∷ 46 ∷ 48 ∷ 46 ∷ 49 ∷ []

abbrev pub default_port : List ℕ
default_port = 57 ∷ 57 ∷ 57 ∷ 57 ∷ []

abbrev pub default_max_reqs : ℤ
default_max_reqs = pos 1024

-- The members of `struct perftest_context` that the command line sets.
pub record PerftestContext : Type 0 where
  pub port : List ℕ
  pub ip : List ℕ
  pub buf_size : ℤ
  pub iters : ℤ
  pub max_reqs : ℤ
  pub is_client : Bool

-- What a call of `getopt` gives: a letter, with its argument where it has one, '?' or another value.
pub data Opt : Type 0 where
  opt_s opt_p opt_b opt_i opt_r : List ℕ → Opt
  opt_c opt_h opt_unknown opt_other : Opt

-- How the parsing ends: it returns 0 with a context, returns 1, or leaves the program with 0.
pub data Parsed : Type 0 where
  returns_0 : PerftestContext → Parsed
  returns_1 exits : Parsed

abbrev pub default_context : PerftestContext
default_context = record {
  port = default_port;
  ip = default_ip;
  buf_size = default_buf_size;
  iters = default_iters;
  max_reqs = default_max_reqs;
  is_client = false;
}

module _ (atoi : List ℕ → ℤ) where
  -- The `while` over the options.
  unfoldable pub parse_opts : List Opt → PerftestContext → Parsed
  parse_opts [] c = returns_0 c
  parse_opts (opt_s a ∷ opts) c = parse_opts opts (record c { ip = a })
  parse_opts (opt_p a ∷ opts) c = parse_opts opts (record c { port = a })
  parse_opts (opt_b a ∷ opts) c = parse_opts opts (record c { buf_size = atoi a })
  parse_opts (opt_i a ∷ opts) c = parse_opts opts (record c { iters = atoi a })
  parse_opts (opt_c ∷ opts) c = parse_opts opts (record c { is_client = true })
  parse_opts (opt_h ∷ opts) c = exits
  parse_opts (opt_r a ∷ opts) c = parse_opts opts (record c { max_reqs = atoi a })
  parse_opts (opt_unknown ∷ opts) c = returns_1
  parse_opts (opt_other ∷ opts) c = returns_1

  unfoldable pub argparse : List Opt → Parsed
  unfolding parse_opts
  argparse opts = parse_opts opts default_context
