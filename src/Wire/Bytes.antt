-- ===== src/Wire/Bytes.antt =====
-- Laws of the byte order and of its swaps.
use native.Mathlib.Nat.{pow-suc}
use soft_ui_warp.Prelude.{
  ℕ, zero, suc, ◌+◌, ◌*◌, ◌/◌, ◌%◌, ◌^◌, ◌<◌, ◌≡◌, refl, ap, ◌∙◌, List, [], ◌∷◌, ◌++◌, reverse,
  arith, length, length-reverse,
}
use mathlib.Core.List.{reverse-reverse, reverse-cons}
use soft_ui_warp.Wire.{le_bytes, from_le, swap_bytes, htons, htonl, htonll}

-- Every element is a byte.
abbrev pub AreBytes : List ℕ → Type 0
AreBytes [] = Unit {0}
AreBytes (b ∷ bs) = (b < 256) × AreBytes bs

pub length-le_bytes : (k x : ℕ) → length (le_bytes k x) ≡ k
unfolding le_bytes
length-le_bytes zero x = refl
length-le_bytes (suc k) x = ap suc (length-le_bytes k (x / 256))

pub le_bytes-AreBytes : (k x : ℕ) → AreBytes (le_bytes k x)
unfolding le_bytes
le_bytes-AreBytes zero x = tt
le_bytes-AreBytes (suc k) x = (omega arith, le_bytes-AreBytes k (x / 256))

AreBytes-append : (xs ys : List ℕ) → AreBytes xs → AreBytes ys → AreBytes (xs ++ ys)
AreBytes-append [] ys h g = g
AreBytes-append (x ∷ xs) ys h g = (h.0, AreBytes-append xs ys h.1 g)

AreBytes-reverse : (xs : List ℕ) → AreBytes xs → AreBytes (reverse xs)
AreBytes-reverse [] h = tt
AreBytes-reverse (x ∷ xs) h =
    rw (reverse-cons x xs)
      (AreBytes-append (reverse xs) (x ∷ []) (AreBytes-reverse xs h.1) (h.0, tt))

-- A k-byte integer is read back as written.
pub from_le-le_bytes : (k x : ℕ) → x < 256 ^ k → from_le (le_bytes k x) ≡ x
unfolding le_bytes from_le
from_le-le_bytes zero x h = omega arith
from_le-le_bytes (suc k) x h =
    omega (arith, pow-suc 256 k, from_le-le_bytes k (x / 256) (omega (arith, pow-suc 256 k)))

-- Bytes are written back as read.
pub le_bytes-from_le : (bs : List ℕ) → AreBytes bs → le_bytes (length bs) (from_le bs) ≡ bs
unfolding le_bytes from_le
le_bytes-from_le [] h = refl
le_bytes-from_le (b ∷ bs) h =
    let e : (b + 256 * from_le bs) % 256 ≡ b = omega arith in
    let d : (b + 256 * from_le bs) / 256 ≡ from_le bs = omega arith in
    rw (e, d, le_bytes-from_le bs h.1)

from_le-lt : (bs : List ℕ) → AreBytes bs → from_le bs < 256 ^ length bs
unfolding from_le
from_le-lt [] h = omega arith
from_le-lt (b ∷ bs) h = omega (arith, pow-suc 256 (length bs), from_le-lt bs h.1)

-- The bytes of a swapped integer are the bytes in the other order.
pub le_bytes-swap_bytes : (k x : ℕ) → le_bytes k (swap_bytes k x) ≡ reverse (le_bytes k x)
unfolding swap_bytes
le_bytes-swap_bytes k x =
    ap (λ n. le_bytes n (swap_bytes k x)) (len k x)
    ∙ le_bytes-from_le (reverse (le_bytes k x))
        (AreBytes-reverse (le_bytes k x) (le_bytes-AreBytes k x))
  where
    len : (k x : ℕ) → k ≡ length (reverse (le_bytes k x))
    len k x = omega (arith, length-reverse (le_bytes k x), length-le_bytes k x)

swap_bytes-lt : (k x : ℕ) → swap_bytes k x < 256 ^ k
unfolding swap_bytes
swap_bytes-lt k x =
    let l = from_le-lt (reverse (le_bytes k x)) (AreBytes-reverse _ (le_bytes-AreBytes k x)) in
    let e : length (reverse (le_bytes k x)) ≡ k =
      omega (arith, length-reverse (le_bytes k x), length-le_bytes k x) in
    rw e at l

swap_bytes_twice : (k x : ℕ) → x < 256 ^ k → swap_bytes k (swap_bytes k x) ≡ x
swap_bytes_twice k x h =
    unfold swap_bytes in
    ap (λ b. from_le (reverse b)) (le_bytes-swap_bytes k x)
    ∙ ap from_le (reverse-reverse (le_bytes k x))
    ∙ from_le-le_bytes k x h

pub htons_twice : (x : ℕ) → x < 2 ^ 16 → htons (htons x) ≡ x
unfolding htons
htons_twice x h = swap_bytes_twice 2 x h

pub htons-lt : (x : ℕ) → htons x < 2 ^ 16
unfolding htons
htons-lt x = swap_bytes-lt 2 x

pub htonl_twice : (x : ℕ) → x < 2 ^ 32 → htonl (htonl x) ≡ x
unfolding htonl
htonl_twice x h = swap_bytes_twice 4 x h

pub htonl-lt : (x : ℕ) → htonl x < 2 ^ 32
unfolding htonl
htonl-lt x = swap_bytes-lt 4 x

pub htonll-lt : (x : ℕ) → htonll x < 2 ^ 64
unfolding htonll
htonll-lt x = omega (arith, htonl-lt (x % 2 ^ 32), htonl-lt (x / 2 ^ 32))

-- The 64-bit macro undoes itself.
pub htonll_twice : (x : ℕ) → x < 2 ^ 64 → htonll (htonll x) ≡ x
unfolding htonll
htonll_twice x h =
    let hi = htonl (x % 2 ^ 32) in
    let lo = htonl (x / 2 ^ 32) in
    let a : (hi * 2 ^ 32 + lo) % 2 ^ 32 ≡ lo = omega (arith, htonl-lt (x / 2 ^ 32)) in
    let b : (hi * 2 ^ 32 + lo) / 2 ^ 32 ≡ hi = omega (arith, htonl-lt (x / 2 ^ 32)) in
    rw (a, b, htonl_twice (x % 2 ^ 32) (omega arith), htonl_twice (x / 2 ^ 32) (omega arith))
      (omega arith)

-- The 64-bit macro swaps all eight bytes.
pub htonll-swap_bytes : (x : ℕ) → x < 2 ^ 64 → htonll x ≡ swap_bytes 8 x
unfolding htonll htonl swap_bytes le_bytes from_le
htonll-swap_bytes x h = omega arith
