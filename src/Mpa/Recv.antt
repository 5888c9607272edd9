-- ===== src/Mpa/Recv.antt =====
-- What `mpa_recv` does on a stream of frames: the first bytes of a payload, some more of them, and
-- the rest with the trailers.
use soft_ui_warp.Prelude.{
  ℕ, ◌+◌, ◌-◌, ◌%◌, ◌^◌, ◌≤◌, ◌<◌, ◌≡◌, refl, sym, ap, ◌∙◌, true, some, List, [], ◌++◌,
  append_assoc, arith, pos, pos-+ℤ, pos--ℤ, length, replicate, length-append, length-replicate,
  append-cancel_left,
}
use soft_ui_warp.Wire.{le_bytes, htons}
use soft_ui_warp.Wire.Bytes.{length-le_bytes, from_le-le_bytes, htons_twice, htons-lt}
use soft_ui_warp.Tcp.{Tcp, IsReliable, got}
use soft_ui_warp.Mpa.{
  Packet, MpaRecv, recv_header, recv_payload, after_payload, recv_trailers, mpa_recv,
}
use soft_ui_warp.Mpa.Loop.{recv_all_lem}
use soft_ui_warp.Mpa.Frame.{trailer, frame}

len_frame :
    (payload : List ℕ) → 2 + length payload + (length payload + 2) % 4 + 4 ≡ length (frame payload)
len_frame payload =
    let n = length payload in
    let a : length (le_bytes 2 (htons n)) ≡ 2 = length-le_bytes 2 (htons n) in
    let b : length (le_bytes 4 0) ≡ 4 = length-le_bytes 4 0 in
    let c : length (replicate {A = ℕ} ((n + 2) % 4) 0) ≡ (n + 2) % 4 =
      length-replicate ((n + 2) % 4) 0 in
    omega (
      arith,
      length-append (le_bytes 2 (htons n)) (payload ++ trailer n),
      length-append payload (trailer n),
      length-append (replicate ((n + 2) % 4) 0) (le_bytes 4 0),
    )

module _ {tcp : Tcp} (net : IsReliable tcp) where
  open net use {pending, chunk, next, recv_gives, in_order, at_most, whole}

  -- A read of at most four bytes that are there.
  recv_small :
      (s : tcp.State) (n : ℕ) (xs rest : List ℕ)
      → pending s ≡ xs ++ rest
      → length xs ≡ n
      → n ≤ 4
      → (tcp.recv s n ≡ (got xs, next s n)) × (pending (next s n) ≡ rest)
  recv_small s n xs rest e k h =
      let l : length (pending s) ≡ length xs + length rest = ap length e ∙ length-append xs rest in
      let (p, q) =
        append-cancel_left (chunk s n) (pending (next s n)) xs rest (sym (in_order s n) ∙ e)
          (omega (arith, whole s n h (omega arith))) in
      (recv_gives s n ∙ ap (λ c. (got c, next s n)) p, q)

  -- The length field of a new packet.
  recv_header_lem :
      (s : tcp.State) (p : Packet) (n : ℕ) (rest : List ℕ)
      → p.bytes_rcvd ≡ pos 0
      → n < 2 ^ 16
      → pending s ≡ le_bytes 2 (htons n) ++ rest
      → (recv_header tcp s p ≡ (true, record p { ulpdu_len = n; bytes_rcvd = pos 2 }, next s 2))
        × (pending (next s 2) ≡ rest)
  unfolding recv_header le_bytes
  recv_header_lem s p n rest z h e =
      let (a, b) = recv_small s 2 (le_bytes 2 (htons n)) rest e refl (omega arith) in
      (
        ground (
          arith,
          z,
          a,
          pos--ℤ 2 0 (omega arith),
          from_le-le_bytes 2 (htons n) (htons-lt n),
          htons_twice n h,
        ),
        b,
      )

  module _ (s : tcp.State) (p : Packet) (j k : ℕ) (todo rest : List ℕ) where
    -- `j` bytes of a payload are read, and `todo` is what is left of it.
    abbrev pub Waiting : Type 0
    Waiting =
        (p.bytes_rcvd ≡ pos (2 + j))
        × (p.ulpdu_len ≡ j + length todo)
        × (0 < p.ulpdu_len)
        × (pending s ≡ todo ++ rest)

    -- A read of part of what is left of a payload.
    recv_payload_part :
        (fuel : ℕ) (xs ys : List ℕ)
        → Waiting
        → todo ≡ xs ++ ys
        → length xs ≡ k
        → 0 < length ys
        → k < fuel
        → (s' : tcp.State) × (recv_payload tcp fuel s p (pos k)
            ≡ some (record {
              ret = pos (2 + j + k);
              packet = record p { bytes_rcvd = pos (2 + j + k) };
              image = xs;
              sock = s';
            }))
          × (pending s' ≡ ys ++ rest)
    unfolding recv_payload after_payload
    recv_payload_part fuel xs ys (b, u, n, e) c l more f =
        let (s', q, r) =
          recv_all_lem net fuel s k [] xs (ys ++ rest)
            (e ∙ ap (λ t. t ++ rest) c ∙ append_assoc xs ys rest) (omega arith) (omega arith) in
        let len : length todo ≡ length xs + length ys = ap length c ∙ length-append xs ys in
        (
          s',
          ground (
            arith,
            b,
            u,
            q,
            pos--ℤ (2 + j) 2 (omega arith),
            pos--ℤ (j + length todo) (2 + j - 2) (omega arith),
            pos-+ℤ (2 + j) k,
          ),
          r,
        )

  -- Padding and checksum are read off the stream.
  recv_trailers_lem :
      (s : tcp.State) (p : Packet) (m : ℕ) (image rest : List ℕ)
      → p.bytes_rcvd ≡ pos m
      → pending s ≡ trailer p.ulpdu_len ++ rest
      → let r = recv_trailers tcp s p image in
        (r.ret ≡ pos (m + (p.ulpdu_len + 2) % 4 + 4))
        × (r.packet.ulpdu_len ≡ p.ulpdu_len)
        × (r.image ≡ image)
        × (pending r.sock ≡ rest)
  unfolding recv_trailers
  recv_trailers_lem s p m image rest b e =
      let pad = (p.ulpdu_len + 2) % 4 in
      let len : length (replicate {A = ℕ} pad 0) ≡ pad = length-replicate pad 0 in
      let (f, g) =
        recv_small s pad (replicate pad 0) (le_bytes 4 0 ++ rest)
          (e ∙ append_assoc (replicate pad 0) (le_bytes 4 0) rest) len (omega arith) in
      let s₁ = next s pad in
      let (h, i) = recv_small s₁ 4 (le_bytes 4 0) rest g (length-le_bytes 4 0) (omega arith) in
      let crc = length-le_bytes 4 0 in
      ground (arith, b, f, g, h, i, len, crc, pos-+ℤ m pad, pos-+ℤ (m + pad) 4)

  module _ (s : tcp.State) (p : Packet) (j k : ℕ) (todo rest : List ℕ) where
    -- A read of all that is left of a payload takes the trailers too.
    recv_payload_rest :
        (fuel : ℕ)
        → Waiting s p j k todo (trailer p.ulpdu_len ++ rest)
        → length todo ≤ k
        → length todo < fuel
        → (r : MpaRecv tcp) × (recv_payload tcp fuel s p (pos k) ≡ some r)
          × (r.ret ≡ pos (2 + p.ulpdu_len + (p.ulpdu_len + 2) % 4 + 4))
          × (r.image ≡ todo)
          × (pending r.sock ≡ rest)
    unfolding recv_payload after_payload
    recv_payload_rest fuel (b, u, n, e) l f =
        let (s', q, t) =
          recv_all_lem net fuel s (length todo) [] todo (trailer p.ulpdu_len ++ rest) e
            (omega arith) f in
        let p' = record p { bytes_rcvd = pos (2 + j + length todo) } in
        let (c, d, g, h) = recv_trailers_lem s' p' (2 + j + length todo) todo rest refl t in
        (
          recv_trailers tcp s' p' todo,
          ground (
            arith,
            b,
            u,
            q,
            pos--ℤ (2 + j) 2 (omega arith),
            pos--ℤ (j + length todo) (2 + j - 2) (omega arith),
            pos-+ℤ (2 + j) (length todo),
          ),
          ground (arith, c, u),
          g,
          h,
        )

    pub mpa_recv_part :
        (fuel : ℕ) (xs ys : List ℕ)
        → Waiting s p j k todo rest
        → todo ≡ xs ++ ys
        → length xs ≡ k
        → 0 < length ys
        → k < fuel
        → (s' : tcp.State) × (mpa_recv tcp fuel s p (pos k)
            ≡ some (record {
              ret = pos (2 + j + k);
              packet = record p { bytes_rcvd = pos (2 + j + k) };
              image = xs;
              sock = s';
            }))
          × (pending s' ≡ ys ++ rest)
    unfolding mpa_recv
    mpa_recv_part fuel xs ys w c l more f =
        let (s', q, r) = recv_payload_part s p j k todo rest fuel xs ys w c l more f in
        (s', ground (arith, w.0, q), r)

    pub mpa_recv_rest :
        (fuel : ℕ)
        → Waiting s p j k todo (trailer p.ulpdu_len ++ rest)
        → length todo ≤ k
        → length todo < fuel
        → (r : MpaRecv tcp) × (mpa_recv tcp fuel s p (pos k) ≡ some r)
          × (r.ret ≡ pos (2 + p.ulpdu_len + (p.ulpdu_len + 2) % 4 + 4))
          × (r.image ≡ todo)
          × (pending r.sock ≡ rest)
    unfolding mpa_recv
    mpa_recv_rest fuel w l f =
        let (r, q, t, v, z) = recv_payload_rest fuel w l f in (r, ground (arith, w.0, q), t, v, z)

  -- On a reliable connection whose next bytes are a frame of less than 2 ^ 16 bytes of payload, a
  -- first call for k of them, fewer than all, with fuel over k, gives 2 + k, stores those k bytes,
  -- notes the length and what was received in the packet, and leaves the rest of the frame.
  pub mpa_recv_first :
      (fuel : ℕ) (s : tcp.State) (p : Packet) (k : ℕ) (xs ys rest : List ℕ)
      → p.bytes_rcvd ≡ pos 0
      → length (xs ++ ys) < 2 ^ 16
      → length xs ≡ k
      → 0 < length ys
      → k < fuel
      → pending s ≡ frame (xs ++ ys) ++ rest
      → (s' : tcp.State) × (mpa_recv tcp fuel s p (pos k)
          ≡ some (record {
            ret = pos (2 + k);
            packet = record p { ulpdu_len = length (xs ++ ys); bytes_rcvd = pos (2 + k) };
            image = xs;
            sock = s';
          }))
        × (pending s' ≡ ys ++ (trailer (length (xs ++ ys)) ++ rest))
  unfolding mpa_recv
  mpa_recv_first fuel s p k xs ys rest z h l more f e =
      let n = length (xs ++ ys) in
      let len : n ≡ length xs + length ys = length-append xs ys in
      let p' = record p { ulpdu_len = n; bytes_rcvd = pos 2 } in
      let (a, b) = recv_header_lem s p n ((xs ++ ys) ++ (trailer n ++ rest)) z h (
        e
        ∙ append_assoc (le_bytes 2 (htons n)) ((xs ++ ys) ++ trailer n) rest
        ∙ ap (◌++◌ (le_bytes 2 (htons n))) (append_assoc (xs ++ ys) (trailer n) rest)) in
      let (s', q, r) =
        recv_payload_part (next s 2) p' 0 k (xs ++ ys) (trailer n ++ rest) fuel xs ys
          (refl, omega arith, omega arith, b) refl l more f in
      (s', ground (arith, z, a, q), r)

  -- On a reliable connection whose next bytes are a frame with a payload of 1 to 2 ^ 16 - 1 bytes, a
  -- first call that asks for no less, with more fuel than bytes, gives the frame's length, stores the
  -- payload and leaves what stands behind the frame.
  pub mpa_recv-frame :
      (fuel : ℕ) (s : tcp.State) (p : Packet) (k : ℕ) (payload rest : List ℕ)
      → p.bytes_rcvd ≡ pos 0
      → 0 < length payload
      → length payload < 2 ^ 16
      → length payload ≤ k
      → length payload < fuel
      → pending s ≡ frame payload ++ rest
      → (r : MpaRecv tcp) × (mpa_recv tcp fuel s p (pos k) ≡ some r)
        × (r.ret ≡ pos (length (frame payload)))
        × (r.image ≡ payload)
        × (pending r.sock ≡ rest)
  unfolding mpa_recv
  mpa_recv-frame fuel s p k payload rest z some_bytes h l f e =
      let n = length payload in
      let p' = record p { ulpdu_len = n; bytes_rcvd = pos 2 } in
      let (a, b) =
        recv_header_lem s p n (payload ++ trailer n ++ rest) z h
          (e ∙ append_assoc (le_bytes 2 (htons n)) (payload ++ trailer n) rest) in
      let (r, q, t, v, w) =
        recv_payload_rest (next s 2) p' 0 k payload rest fuel
          (refl, omega arith, some_bytes, b ∙ append_assoc payload (trailer n) rest) l f in
      (r, ground (arith, z, a, q), t ∙ ap pos (len_frame payload), v, w)
