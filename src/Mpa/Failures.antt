-- ===== src/Mpa/Failures.antt =====
-- `mpa_recv` (suiw/mpa/mpa.cpp) on a connection that fails or ends.
use soft_ui_warp.Prelude.{
  ℕ, zero, suc, ◌<◌, ◌≡◌, refl, ap, ◌∙◌, none, some, List, [], arith, ℤ, pos, negsuc, ◌+ℤ◌, ◌-ℤ◌,
  to_size, pos-+ℤ, pos--ℤ, length,
}
use soft_ui_warp.Tcp.{Tcp, got}
use soft_ui_warp.Mpa.{Packet, MpaRecv, recv_header, recv_all, mpa_recv, stored}

-- When the stream ends after some bytes of a payload but before the last, the payload's loop never
-- ends: it calls `recv` again and again, whatever the fuel.
pub recv_all_eof :
    (tcp : Tcp) (fuel : ℕ) (s : tcp.State) (want rcvd : ℕ) (image : List ℕ)
    → ((n : ℕ) → tcp.recv s n ≡ (got [], s))
    → 0 < rcvd
    → rcvd < want
    → recv_all tcp fuel s (pos want) image rcvd ≡ none
unfolding recv_all
recv_all_eof tcp zero s want rcvd image ended some_came short = refl
recv_all_eof tcp (suc fuel) s want zero image ended some_came short = absurd (omega arith)
recv_all_eof tcp (suc fuel) s want (suc r) image ended some_came short =
    let e : pos (suc r) +ℤ pos 0 ≡ pos (suc r) = pos-+ℤ (suc r) 0 ∙ ap pos (omega arith) in
    ground (
      arith,
      e,
      ended (to_size (pos want -ℤ pos (suc r))),
      recv_all_eof tcp fuel s want (suc r) (stored image (suc r) (got [])) ended some_came short,
    )

-- A new packet whose length field does not come whole is refused with -1, with no payload byte
-- stored.
pub mpa_recv_short :
    (tcp : Tcp) (fuel : ℕ) (s s' : tcp.State) (p : Packet) (k : ℤ) (bs : List ℕ)
    → p.bytes_rcvd ≡ pos 0
    → tcp.recv s 2 ≡ (got bs, s')
    → length bs < 2
    → (r : MpaRecv tcp) × (mpa_recv tcp fuel s p k ≡ some r)
      × (r.ret ≡ negsuc 0)
      × (r.image ≡ [])
      × (r.sock ≡ s')
unfolding mpa_recv recv_header
mpa_recv_short tcp fuel s s' p k bs fresh came short =
    let want : pos 2 -ℤ p.bytes_rcvd ≡ pos 2 =
      ap (λ z. pos 2 -ℤ z) fresh ∙ pos--ℤ 2 0 (omega arith) in
    let h = recv_header tcp s p in
    let r : MpaRecv tcp = record { ret = negsuc 0; packet = h.1; image = []; sock = h.2 } in
    (r, ground (arith, want, came, fresh), refl, refl, ground (arith, want, came))
