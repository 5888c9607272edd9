-- ===== src/Ddp/FirstReads.antt =====
-- The first two reads of `ddp_recv` (suiw/ddp/ddp.cpp), on a message of either kind: the control byte
-- and the header behind it.
use soft_ui_warp.Prelude.{
  ℕ, ◌+◌, ◌≤◌, ◌<◌, ◌≡◌, refl, ap, ◌∙◌, true, Option, some, List, ◌∷◌, ◌++◌, append_assoc, arith,
  pos, length, length-append,
}
use soft_ui_warp.Wire.{le_bytes}
use soft_ui_warp.Wire.Bytes.{length-le_bytes}
use soft_ui_warp.Tcp.{Tcp, IsReliable}
use soft_ui_warp.Mpa.{MpaRecv, new_packet, mpa_recv}
use soft_ui_warp.Mpa.Frame.{frame, trailer}
use soft_ui_warp.Mpa.Recv.{mpa_recv_first, mpa_recv_part}
use soft_ui_warp.Ddp.Send.{mulpdu}
use soft_ui_warp.Ddp.Segments.{flags, wire}

-- The headers have n bytes behind the control byte.
module _ {tcp : Tcp} (net : IsReliable tcp) {H : Type 0} (bytes : H → List ℕ) (advance : ℕ → H → H)
    (b n : ℕ) (size : (h : H) → length (bytes h) ≡ n) (small : n ≤ 17) where
  open net use {pending}

  pub first_header :
      (fuel : ℕ) (s : tcp.State) (h : H) (c : List ℕ) (cs : List (List ℕ)) (rest : List ℕ)
      → pending s ≡ wire bytes advance true b h (c ∷ cs) ++ rest
      → 0 < length c
      → length c ≤ mulpdu
      → mulpdu + 18 < fuel
      → let k = 1 + n + length c in
        let p = record new_packet { ulpdu_len = k; bytes_rcvd = pos 3 } in
        (s₁ s₂ : tcp.State) × (mpa_recv tcp fuel s new_packet (pos 1)
          ≡ some
              (record { ret = pos 3; packet = p; image = le_bytes 1 (flags true b cs); sock = s₁ }))
        × (mpa_recv tcp fuel s₁ p (pos n)
            ≡ some (record {
              ret = pos (3 + n);
              packet = record p { bytes_rcvd = pos (3 + n) };
              image = bytes h;
              sock = s₂;
            }))
        × (pending s₂
            ≡ c ++ (trailer k ++ (wire bytes advance true b (advance (length c) h) cs ++ rest)))
  unfolding wire
  first_header fuel s h c cs rest arrived some_bytes fits enough =
      let fl = le_bytes 1 (flags true b cs) in
      let seg = fl ++ (bytes h ++ c) in
      let more = wire bytes advance true b (advance (length c) h) cs in
      let l : length (bytes h ++ c) ≡ n + length c =
        length-append (bytes h) c ∙ ap (λ k. k + length c) (size h) in
      let one : length fl ≡ 1 = length-le_bytes 1 (flags true b cs) in
      let k : length seg ≡ 1 + n + length c = omega (arith, length-append fl (bytes h ++ c)) in
      let (s₁, q, r) =
        mpa_recv_first net fuel s new_packet 1 fl (bytes h ++ c) (more ++ rest) refl (omega arith)
          one (omega arith) (omega arith) (arrived ∙ append_assoc (frame seg) more rest) in
      let p = record new_packet { ulpdu_len = 1 + n + length c; bytes_rcvd = pos 3 } in
      let r' : pending s₁ ≡ (bytes h ++ c) ++ (trailer (1 + n + length c) ++ (more ++ rest)) =
        r ∙ ap (λ k. (bytes h ++ c) ++ (trailer k ++ (more ++ rest))) k in
      let (s₂, q', t) =
        mpa_recv_part net s₁ p 1 n (bytes h ++ c) (trailer (1 + n + length c) ++ (more ++ rest))
          fuel (bytes h) c (refl, omega arith, omega arith, r') refl (size h) some_bytes
          (omega arith) in
      (
        s₁,
        s₂,
        q
            ∙ ap {B = Option (MpaRecv tcp)}
                (λ k. some (record {
                  ret = pos 3;
                  packet = record new_packet { ulpdu_len = k; bytes_rcvd = pos 3 };
                  image = fl;
                  sock = s₁;
                }))
                k,
        q',
        t,
      )
