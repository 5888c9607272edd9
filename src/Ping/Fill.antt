-- ===== src/Ping/Fill.antt =====
-- The text of a ping (fake_ping_client.cpp), by its places.
use soft_ui_warp.Prelude.{
  ℕ, zero, suc, ◌+◌, ◌-◌, ◌%◌, ◌≤◌, ◌<◌, ◌≡◌, refl, sym, ap, ◌∙◌, List, [], ◌∷◌, ◌++◌, append_assoc,
  arith, length, overwrite, length-append,
}
use soft_ui_warp.Ping.{buf_len, next_char, chars, ping_buffer}

-- The character `i` places behind `c`, around from 'z' to 'A'.
abbrev pub char_at : ℕ → ℕ → ℕ
char_at c i = 65 + (c - 65 + i) % 58

-- The characters at `n` places from the i-th on.
unfoldable pub places : (ℕ → ℕ) → ℕ → ℕ → List ℕ
places f i zero = []
places f i (suc n) = f i ∷ places f (i + 1) n

length-places : (f : ℕ → ℕ) (i n : ℕ) → length (places f i n) ≡ n
unfolding places
length-places f i zero = refl
length-places f i (suc n) = ap suc (length-places f (i + 1) n)

places_last : (f : ℕ → ℕ) (i n : ℕ) → places f i (suc n) ≡ places f i n ++ f (i + n) ∷ []
unfolding places
places_last f i zero = ap (λ j. f j ∷ []) (let z : i ≡ i + 0 = omega arith in z)
places_last f i (suc n) =
    ap (◌∷◌ (f i)) (places_last f (i + 1) n)
    ∙ ap (λ j. f i ∷ places f (i + 1) n ++ f j ∷ [])
        (let z : i + 1 + n ≡ i + suc n = omega arith in z)

next_char-char_at : (c i : ℕ) → next_char (char_at c i) ≡ char_at c (i + 1)
next_char-char_at c i = ground arith

chars-places : (n c i : ℕ) → chars n (char_at c i) ≡ places (char_at c) i n
unfolding chars places
chars-places zero c i = refl
chars-places (suc n) c i =
    ap (◌∷◌ (char_at c i)) (ap (chars n) (next_char-char_at c i) ∙ chars-places n c (i + 1))

overwrite_last :
    (xs : List ℕ) (z b : ℕ) → overwrite (xs ++ z ∷ []) (length xs) (b ∷ []) ≡ xs ++ b ∷ []
overwrite_last [] z b = refl
overwrite_last (x ∷ xs) z b = ap (◌∷◌ x) (overwrite_last xs z b)

-- A ping's buffer is the text, the characters from the first one on, around from 'z' to 'A', and a
-- 0 in the last place. The text must leave a place, and the first character be from 'A' to 'z'.
pub ping_buffer_lem :
    (text : List ℕ) (start : ℕ)
    → length text < buf_len
    → (65 ≤ start) × (start ≤ 122)
    → ping_buffer text start
      ≡ (text ++ places (char_at start) 0 (buf_len - 1 - length text)) ++ 0 ∷ []
unfolding ping_buffer
ping_buffer_lem text start room (low, high) =
    let n = buf_len - 1 - length text in
    let f = char_at start in
    let more : buf_len - length text ≡ suc n = omega (arith, room) in
    let first : start ≡ char_at start 0 = omega arith in
    let body = text ++ places f 0 n in
    let filled : text ++ chars (buf_len - length text) start ≡ body ++ f (0 + n) ∷ [] =
      ap (λ k. text ++ chars k start) more
      ∙ ap (λ c. text ++ chars (suc n) c) first
      ∙ ap (◌++◌ text) (chars-places (suc n) start 0 ∙ places_last f 0 n)
      ∙ sym (append_assoc text (places f 0 n) (f (0 + n) ∷ [])) in
    let at : buf_len - 1 ≡ length body =
      omega (arith, length-append text (places f 0 n), length-places f 0 n, room) in
    ap (λ b. overwrite b (buf_len - 1) (0 ∷ [])) filled
    ∙ ap (λ k. overwrite (body ++ f (0 + n) ∷ []) k (0 ∷ [])) at
    ∙ overwrite_last body (f (0 + n)) 0
