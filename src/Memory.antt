-- ===== src/Memory.antt =====
-- The process's memory as bytes by address.
use soft_ui_warp.Prelude.{
  ℕ, zero, suc, ◌+◌, ◌≤◌, ◌<◌, ◌≡◌, refl, ap, ◌∙◌, ◌⊎◌, inl, List, [], ◌∷◌, ◌++◌, arith, ◌==◌,
  if◌then◌else◌, length,
}

abbrev pub Memory : Type 0
Memory = ℕ → ℕ

abbrev pub update {ℓ} : {A : Type ℓ} → (ℕ → A) → ℕ → A → ℕ → A
update f i a j = if i == j then a else f j

-- The n bytes from an address on.
unfoldable pub load : Memory → ℕ → ℕ → List ℕ
load m a zero = []
load m a (suc n) = m a ∷ load m (a + 1) n

-- The bytes stored from an address on.
unfoldable pub poke : Memory → ℕ → List ℕ → Memory
poke m a [] = m
poke m a (b ∷ bs) = poke (update m a b) (a + 1) bs

pub length-load : (m : Memory) (a n : ℕ) → length (load m a n) ≡ n
unfolding load
length-load m a zero = refl
length-load m a (suc n) = ap suc (length-load m (a + 1) n)

pub load-append : (m : Memory) (a n k : ℕ) → load m a (n + k) ≡ load m a n ++ load m (a + n) k
unfolding load
load-append m a zero k = ground (arith, ap (λ i. load m i k) (let z : a ≡ a + 0 = omega arith in z))
load-append m a (suc n) k =
    let e : suc n + k ≡ suc (n + k) = omega arith in
    let d : a + suc n ≡ a + 1 + n = omega arith in
    rw (e, d) (ap (◌∷◌ (m a)) (load-append m (a + 1) n k))

pub poke-append :
    (m : Memory) (a : ℕ) (xs ys : List ℕ)
    → poke m a (xs ++ ys) ≡ poke (poke m a xs) (a + length xs) ys
unfolding poke
poke-append m a [] ys = ap (λ i. poke m i ys) (omega arith)
poke-append m a (x ∷ xs) ys =
    poke-append (update m a x) (a + 1) xs ys
    ∙ ap (λ i. poke (poke (update m a x) (a + 1) xs) i ys) (omega arith)

-- A store changes no byte outside its range.
pub poke_outside :
    (m : Memory) (a i : ℕ) (bs : List ℕ) → (i < a) ⊎ (a + length bs ≤ i) → poke m a bs i ≡ m i
unfolding poke
poke_outside m a i [] h = refl
poke_outside m a i (b ∷ bs) h = ground (arith, poke_outside (update m a b) (a + 1) i bs (out h))
  where
    out : (i < a) ⊎ (a + suc (length bs) ≤ i) → (i < a + 1) ⊎ (a + 1 + length bs ≤ i)
    out g = omega arith

-- What was stored is loaded.
pub load-poke : (m : Memory) (a : ℕ) (bs : List ℕ) → load (poke m a bs) a (length bs) ≡ bs
unfolding load poke
load-poke m a [] = refl
load-poke m a (b ∷ bs) = ground (
  arith,
  poke_outside (update m a b) (a + 1) a bs (inl (omega arith)),
  load-poke (update m a b) (a + 1) bs,
)
