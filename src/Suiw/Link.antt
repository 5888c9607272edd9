-- ===== src/Suiw/Link.antt =====
-- A channel between the library and the daemon, as the sockets at its two ends promise it.
use soft_ui_warp.Prelude.{ℕ, ◌≤◌, ◌<◌, ◌≡◌, List, ◌++◌, ℤ, pos, length}
use soft_ui_warp.Tcp.{got}
use soft_ui_warp.Daemon.{Os}
use soft_ui_warp.Suiw.{Calls}

-- The descriptor `lib_fd` of the library and `daemon_fd` of the daemon are two ends of a stream
-- connection on which no call fails. `up` is the bytes that are on their way to the daemon, `down`
-- those on their way to the library. A `send` takes what it is given; a `recv` gives the next
-- bytes, at most as many as it was asked for and perhaps fewer, but some if there are any.
pub record IsLink (os : Os) (calls : Calls os) (lib_fd daemon_fd : ℤ) : Type 0 where
  pub up : os.State → List ℕ
  pub down : os.State → List ℕ
  pub asked : os.State → List ℕ → os.State
  pub asks : (s : os.State) (bs : List ℕ) → calls.send s lib_fd bs ≡ (pos (length bs), asked s bs)
  pub up-asked : (s : os.State) (bs : List ℕ) → up (asked s bs) ≡ up s ++ bs
  pub down-asked : (s : os.State) (bs : List ℕ) → down (asked s bs) ≡ down s
  pub heard : os.State → ℕ → os.State
  pub hears_bytes : os.State → ℕ → List ℕ
  pub hears : (s : os.State) (n : ℕ) → os.recv s daemon_fd n ≡ (got (hears_bytes s n), heard s n)
  pub up-heard : (s : os.State) (n : ℕ) → up s ≡ hears_bytes s n ++ up (heard s n)
  pub down-heard : (s : os.State) (n : ℕ) → down (heard s n) ≡ down s
  pub hears_at_most : (s : os.State) (n : ℕ) → length (hears_bytes s n) ≤ n
  pub hears_some : (s : os.State) (n : ℕ) → 0 < n → 0 < length (up s) → 0 < length (hears_bytes s n)
  pub answered : os.State → List ℕ → os.State
  pub answers :
      (s : os.State) (bs : List ℕ) → os.send s daemon_fd bs ≡ (pos (length bs), answered s bs)
  pub up-answered : (s : os.State) (bs : List ℕ) → up (answered s bs) ≡ up s
  pub down-answered : (s : os.State) (bs : List ℕ) → down (answered s bs) ≡ down s ++ bs
  pub taken : os.State → ℕ → os.State
  pub takes_bytes : os.State → ℕ → List ℕ
  pub takes : (s : os.State) (n : ℕ) → calls.recv s lib_fd n ≡ (got (takes_bytes s n), taken s n)
  pub up-taken : (s : os.State) (n : ℕ) → up (taken s n) ≡ up s
  pub down-taken : (s : os.State) (n : ℕ) → down s ≡ takes_bytes s n ++ down (taken s n)
  pub takes_at_most : (s : os.State) (n : ℕ) → length (takes_bytes s n) ≤ n
