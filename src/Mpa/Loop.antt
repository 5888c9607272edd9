-- ===== src/Mpa/Loop.antt =====
-- The payload loop of `mpa_recv` on a connection that works, however the stream is cut.
use soft_ui_warp.Prelude.{
  ℕ, zero, suc, ◌+◌, ◌-◌, ◌≤◌, ◌<◌, ◌≡◌, refl, sym, ap, ◌∙◌, ◌≢◌, some, List, [], ◌∷◌, ◌++◌,
  append-nil, append_assoc, arith, pos, pos-+ℤ, pos--ℤ, length, overwrite, length-append,
  overwrite-length, append-split,
}
use soft_ui_warp.Tcp.{Tcp, IsReliable}
use soft_ui_warp.Mpa.{recv_all}

nonempty : (xs : List ℕ) → xs ≢ [] → 0 < length xs
nonempty [] h = absurd (h refl)
nonempty (x ∷ xs) h = omega arith

module _ {tcp : Tcp} (net : IsReliable tcp) where
  open net use {pending, chunk, next, recv_gives, in_order, at_most, progress}

  -- One round, at its two outcomes.
  recv_all-again :
      (fuel : ℕ) (s : tcp.State) (w rcvd n : ℕ) (image : List ℕ)
      → rcvd ≤ w
      → rcvd + length (chunk s (w - rcvd)) ≡ suc n
      → suc n < w
      → recv_all tcp (suc fuel) s (pos w) image rcvd
        ≡ recv_all tcp fuel
            (next s (w - rcvd))
            (pos w)
            (overwrite image rcvd (chunk s (w - rcvd)))
            (suc n)
  unfolding recv_all
  recv_all-again fuel s w rcvd n image h e less =
      ground
        (arith, pos--ℤ w rcvd h, recv_gives s (w - rcvd), pos-+ℤ rcvd (length (chunk s (w - rcvd))))

  recv_all-done :
      (fuel : ℕ) (s : tcp.State) (w rcvd : ℕ) (image : List ℕ)
      → rcvd ≤ w
      → rcvd + length (chunk s (w - rcvd)) ≡ w
      → recv_all tcp (suc fuel) s (pos w) image rcvd
        ≡ some (pos w, overwrite image rcvd (chunk s (w - rcvd)), next s (w - rcvd))
  unfolding recv_all
  recv_all-done fuel s zero rcvd image h e =
      ground
        (arith, pos--ℤ 0 rcvd h, recv_gives s (0 - rcvd), pos-+ℤ rcvd (length (chunk s (0 - rcvd))))
  recv_all-done fuel s (suc w) rcvd image h e = ground (
    arith,
    pos--ℤ (suc w) rcvd h,
    recv_gives s (suc w - rcvd),
    pos-+ℤ rcvd (length (chunk s (suc w - rcvd))),
  )

  abbrev Reads : ℕ → tcp.State → ℕ → List ℕ → List ℕ → List ℕ → Type 0
  Reads fuel s w image xs rest =
      (s' : tcp.State) × (recv_all tcp fuel s (pos w) image (length image)
        ≡ some (pos w, image ++ xs, s'))
      × (pending s' ≡ rest)

  -- One round, by what it leaves to read.
  recv_all-round :
      (fuel : ℕ) (s : tcp.State) (w : ℕ) (image xs rest us : List ℕ)
      → length image + length xs ≡ w
      → xs ≡ chunk s (w - length image) ++ us
      → pending (next s (w - length image)) ≡ us ++ rest
      → (us ≢ [] → 0 < length (chunk s (w - length image)))
      → ((im : List ℕ)
          → length im + length us ≡ w
          → length us < length xs
          → Reads fuel (next s (w - length image)) w im us rest)
      → Reads (suc fuel) s w image xs rest
  recv_all-round fuel s w image xs rest [] l e p some_came again =
      let c = chunk s (w - length image) in
      let k : length xs ≡ length c + 0 = ap length e ∙ length-append c [] in
      (
        next s (w - length image),
        recv_all-done fuel s w (length image) image (omega arith) (omega arith)
            ∙ ap (λ im. some (pos w, im, next s (w - length image)))
                (overwrite-length image c ∙ ap (◌++◌ image) (sym (e ∙ append-nil c))),
        p,
      )
  recv_all-round fuel s w image xs rest (u ∷ us) l e p some_came again =
      let c = chunk s (w - length image) in
      let pos_c : 0 < length c = some_came (λ h. cc) in
      let k : length xs ≡ length c + suc (length us) = ap length e ∙ length-append c (u ∷ us) in
      let im = image ++ c in
      let m : length im ≡ length image + length c = length-append image c in
      let (s', q, r) = again im (omega arith) (omega arith) in
      let n = length im - 1 in
      (
        s',
        recv_all-again fuel s w (length image) n image (omega arith) (omega arith) (omega arith)
            ∙ ap (λ i. recv_all tcp fuel (next s (w - length image)) (pos w) i (suc n))
                (overwrite-length image c)
            ∙ ap (recv_all tcp fuel (next s (w - length image)) (pos w) im)
                (let z : suc n ≡ length im = omega arith in z)
            ∙ q
            ∙ ap (λ i. some (pos w, i, s'))
                (append_assoc image c (u ∷ us) ∙ ap (◌++◌ image) (sym e)),
        r,
      )

  -- With a call of fuel for each byte the loop reads the next bytes of the stream, in order and no
  -- more, behind those that it has.
  pub recv_all_lem :
      (fuel : ℕ) (s : tcp.State) (w : ℕ) (image xs rest : List ℕ)
      → pending s ≡ xs ++ rest
      → length image + length xs ≡ w
      → length xs < fuel
      → Reads fuel s w image xs rest
  recv_all_lem zero s w image xs rest e l f = absurd (omega arith)
  recv_all_lem (suc fuel) s w image xs rest e l f =
      let n = w - length image in
      let (us, p, q) =
        append-split (chunk s n) (pending (next s n)) xs rest (sym (in_order s n) ∙ e)
          (omega (arith, at_most s n)) in
      let len : length (pending s) ≡ length xs + length rest =
        ap length e ∙ length-append xs rest in
      let cuts : length xs ≡ length (chunk s n) + length us =
        ap length p ∙ length-append (chunk s n) us in
      recv_all-round fuel s w image xs rest us l p q
        (λ ne. progress s n (omega (arith, nonempty us ne)) (omega (arith, nonempty us ne)))
        (λ im h shorter. recv_all_lem fuel (next s n) w im us rest q h (omega arith))
