-- ===== src/Prelude/Lists.antt =====
-- Lists measured and cut by native numbers, under the library's names.
use Prim.Native.Nat.{ℕ, zero, suc, ◌+◌, ◌-◌, ◌≤◌, min}
use mathlib.Core.Path.{◌≡◌, refl, sym, ap, ◌∙◌}
use mathlib.Core.Logic.{◌⊎◌, inl, inr}
use mathlib.Core.List.{List, [], ◌∷◌, ◌++◌, reverse, reverse-cons, append-nil}
use native.Mathlib.Omega.{arith}
use mathlib.Core.Bool.{Bool}
use soft_ui_warp.Prelude.Tests.{if◌then◌else◌}

module _ {ℓ} {A : Type ℓ} where
  abbrev pub length : List A → ℕ
  length [] = 0
  length (x ∷ xs) = suc (length xs)

  abbrev pub take : ℕ → List A → List A
  take zero xs = []
  take (suc n) [] = []
  take (suc n) (x ∷ xs) = x ∷ take n xs

  abbrev pub drop : ℕ → List A → List A
  drop zero xs = xs
  drop (suc n) [] = []
  drop (suc n) (x ∷ xs) = drop n xs

  abbrev pub replicate : ℕ → A → List A
  replicate zero a = []
  replicate (suc n) a = a ∷ replicate n a

  -- The number of elements that pass a test.
  unfoldable pub count_if : (A → Bool) → List A → ℕ
  count_if p [] = 0
  count_if p (x ∷ xs) = (if p x then 1 else 0) + count_if p xs

  -- The bytes `ys` stored into `xs` from index `i`, which is at most the length.
  abbrev pub overwrite : List A → ℕ → List A → List A
  overwrite xs zero ys = ys ++ drop (length ys) xs
  overwrite [] (suc i) ys = ys
  overwrite (x ∷ xs) (suc i) ys = x ∷ overwrite xs i ys

module _ {ℓ} {A : Type ℓ} where
  pub length-append : (xs ys : List A) → length (xs ++ ys) ≡ length xs + length ys
  length-append [] ys = omega arith
  length-append (x ∷ xs) ys = omega (arith, length-append xs ys)

  pub length-replicate : (n : ℕ) (a : A) → length (replicate n a) ≡ n
  length-replicate zero a = refl
  length-replicate (suc n) a = ap suc (length-replicate n a)

  pub length-reverse : (xs : List A) → length (reverse xs) ≡ length xs
  length-reverse [] = refl
  length-reverse (x ∷ xs) =
      rw (reverse-cons x xs, length-append (reverse xs) (x ∷ [])) (omega (arith, length-reverse xs))

  pub length-take : (n : ℕ) (xs : List A) → length (take n xs) ≡ min n (length xs)
  length-take zero xs = omega arith
  length-take (suc n) [] = omega arith
  length-take (suc n) (x ∷ xs) = omega (arith, length-take n xs)

  pub length-drop : (n : ℕ) (xs : List A) → length (drop n xs) ≡ length xs - n
  length-drop zero xs = omega arith
  length-drop (suc n) [] = omega arith
  length-drop (suc n) (x ∷ xs) = omega (arith, length-drop n xs)

  pub take-append-drop : (n : ℕ) (xs : List A) → take n xs ++ drop n xs ≡ xs
  take-append-drop zero xs = refl
  take-append-drop (suc n) [] = refl
  take-append-drop (suc n) (x ∷ xs) = ap (◌∷◌ x) (take-append-drop n xs)

  pub drop-length : (xs : List A) → drop (length xs) xs ≡ []
  drop-length [] = refl
  drop-length (x ∷ xs) = drop-length xs

  drop-nil : (n : ℕ) → drop {A = A} n [] ≡ []
  drop-nil zero = refl
  drop-nil (suc n) = refl

  pub overwrite-length : (xs ys : List A) → overwrite xs (length xs) ys ≡ xs ++ ys
  overwrite-length [] ys = ap (◌++◌ ys) (drop-nil (length ys)) ∙ append-nil ys
  overwrite-length (x ∷ xs) ys = ap (◌∷◌ x) (overwrite-length xs ys)

module _ {ℓ} {A : Type ℓ} where
  -- Two ways to cut one list, the first cut not the longer.
  pub append-split :
      (xs ys us vs : List A)
      → xs ++ ys ≡ us ++ vs
      → length xs ≤ length us
      → (ws : List A) × (us ≡ xs ++ ws) × (ys ≡ ws ++ vs)
  append-split [] ys us vs e h = (us, refl, e)
  append-split (x ∷ xs) ys [] vs e h = absurd (omega arith)
  append-split (x ∷ xs) ys (u ∷ us) vs e h =
      let r = append-split xs ys us vs (cc) (omega arith) in (r.0, cc (r.1), r.2)

  pub append-cancel_left :
      (xs ys us vs : List A) → xs ++ ys ≡ us ++ vs → length xs ≡ length us → (xs ≡ us) × (ys ≡ vs)
  append-cancel_left [] ys [] vs e h = (refl, e)
  append-cancel_left [] ys (u ∷ us) vs e h = absurd (omega arith)
  append-cancel_left (x ∷ xs) ys [] vs e h = absurd (omega arith)
  append-cancel_left (x ∷ xs) ys (u ∷ us) vs e h =
      let r = append-cancel_left xs ys us vs (cc) (omega arith) in (cc (r.0), r.1)

module _ {ℓ} {A : Type ℓ} (p : A → Bool) where
  pub count_if-append : (xs ys : List A) → count_if p (xs ++ ys) ≡ count_if p xs + count_if p ys
  unfolding count_if
  count_if-append [] ys = omega arith
  count_if-append (x ∷ xs) ys = omega (arith, count_if-append xs ys)

  pub count_if-take-drop :
      (n : ℕ) (xs : List A) → count_if p (take n xs) + count_if p (drop n xs) ≡ count_if p xs
  count_if-take-drop n xs =
      sym (count_if-append (take n xs) (drop n xs)) ∙ ap (count_if p) (take-append-drop n xs)

module _ {ℓ} {A : Type ℓ} where
  -- The part before and behind a list that is appended to.
  pub take-append : (n : ℕ) (xs ys : List A) → length xs ≡ n → take n (xs ++ ys) ≡ xs
  take-append zero [] ys h = refl
  take-append (suc n) [] ys h = absurd (omega arith)
  take-append zero (x ∷ xs) ys h = absurd (omega arith)
  take-append (suc n) (x ∷ xs) ys h = ap (◌∷◌ x) (take-append n xs ys (omega (arith, h)))

  pub drop-append : (n : ℕ) (xs ys : List A) → length xs ≡ n → drop n (xs ++ ys) ≡ ys
  drop-append zero [] ys h = refl
  drop-append (suc n) [] ys h = absurd (omega arith)
  drop-append zero (x ∷ xs) ys h = absurd (omega arith)
  drop-append (suc n) (x ∷ xs) ys h = drop-append n xs ys (omega (arith, h))

  pub overwrite-zero : (xs ys : List A) → length ys ≡ length xs → overwrite xs 0 ys ≡ ys
  overwrite-zero xs ys h = rw (h, drop-length xs) (append-nil ys)

-- To split on a computed list and keep the equation.
pub List-cases {ℓ} :
    {A : Type ℓ} (l : List A) → (l ≡ []) ⊎ ((a : A) × (as_ : List A) × (l ≡ a ∷ as_))
List-cases [] = inl refl
List-cases (a ∷ as_) = inr (a, as_, refl)
