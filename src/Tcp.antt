-- ===== src/Tcp.antt =====
-- The operating system's stream socket, which the protocol layers call through `sendmsg` and
-- `recv`. It is a parameter of the model: `Tcp` has the calls, and `IsReliable` what the manual
-- says of a connection on which no call fails.
use soft_ui_warp.Prelude.{ℕ, ◌≤◌, ◌<◌, ◌≡◌, Bool, List, ◌++◌, ℤ, pos, negsuc, length}

-- What one `recv` gives: the bytes (none at the end of the stream), or -1.
pub data Received : Type 0 where
  got : List ℕ → Received
  failed : Received

-- The `int` that `recv` returns.
abbrev pub recv_result : Received → ℤ
recv_result (got bs) = pos (length bs)
recv_result failed = negsuc 0

pub record Tcp : Type 1 where
  pub State : Type 0
  -- The count is a `size_t`.
  pub recv : State → ℕ → Received × State
  -- `recv` with `MSG_DONTWAIT`; the flag tells whether `errno` is `EAGAIN`.
  pub recv_now : State → ℕ → Received × Bool × State
  -- The bytes of the `iovec`s in order, and the `int` returned.
  pub sendmsg : State → List ℕ → ℤ × State

-- A connection on which no call fails. `pending` is what the peer has sent and nobody has read;
-- a call may give less than it was asked for, but something if there is something. A handful of
-- bytes, such as a length field, comes in one piece.
pub record IsReliable (tcp : Tcp) : Type 1 where
  pub pending : tcp.State → List ℕ
  pub chunk : tcp.State → ℕ → List ℕ
  pub next : tcp.State → ℕ → tcp.State
  pub recv_gives : (s : tcp.State) (n : ℕ) → tcp.recv s n ≡ (got (chunk s n), next s n)
  pub in_order : (s : tcp.State) (n : ℕ) → pending s ≡ chunk s n ++ pending (next s n)
  pub at_most : (s : tcp.State) (n : ℕ) → length (chunk s n) ≤ n
  pub progress : (s : tcp.State) (n : ℕ) → 0 < n → 0 < length (pending s) → 0 < length (chunk s n)
  pub whole : (s : tcp.State) (n : ℕ) → n ≤ 4 → n ≤ length (pending s) → length (chunk s n) ≡ n

-- A connection that takes everything it is given to send. `sent` is the history.
pub record IsOpen (tcp : Tcp) : Type 1 where
  pub sent : tcp.State → List ℕ
  pub put : tcp.State → List ℕ → tcp.State
  pub sendmsg_takes : (s : tcp.State) (bs : List ℕ) → tcp.sendmsg s bs ≡ (pos (length bs), put s bs)
  pub sent-put : (s : tcp.State) (bs : List ℕ) → sent (put s bs) ≡ sent s ++ bs
