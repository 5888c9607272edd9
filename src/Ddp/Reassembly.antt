-- ===== src/Ddp/Reassembly.antt =====
-- `ddp_recv`'s loop over the segments of a message (suiw/ddp/ddp.cpp).
use mathlib.Core.List.{flatten}
use mathlib.Core.Path.{ap₂}
use soft_ui_warp.Prelude.{
  ℕ, zero, suc, ◌+◌, ◌-◌, ◌≤◌, ◌<◌, ◌≡◌, refl, sym, ap, ◌∙◌, true, Option, some, List, [], ◌∷◌,
  ◌++◌, append-nil, append_assoc, arith, pos, ◌+ℤ◌, ◌-ℤ◌, pos-+ℤ, pos--ℤ, length, take, drop,
  length-append,
}
use soft_ui_warp.Wire.{le_bytes, from_le}
use soft_ui_warp.Wire.Bytes.{length-le_bytes}
use soft_ui_warp.Memory.{Memory, poke}
use soft_ui_warp.Tcp.{Tcp, IsReliable}
use soft_ui_warp.Mpa.{Packet, MpaRecv, mpa_recv}
use soft_ui_warp.Mpa.Frame.{frame, trailer}
use soft_ui_warp.Mpa.Recv.{Waiting, mpa_recv_first, mpa_recv_rest}
use soft_ui_warp.Ddp.Send.{mulpdu}
use soft_ui_warp.Ddp.Recv.{Received, segment_loop}
use soft_ui_warp.Ddp.Message.{Format, PackedHdr, is_last_segment}
use soft_ui_warp.Ddp.Segments.{Fit, flags, wire, deposit}
use soft_ui_warp.Ddp.Codec.{IsCodec, segment_loop-last, segment_loop-next}

module _ {tcp : Tcp} (net : IsReliable tcp) (fuel : ℕ) {fmt : Format} {H : Type 0}
    {bytes : H → List ℕ} {advance : ℕ → H → H} {offset : H → ℕ} {IsGood : H → Type 0} {b : ℕ}
    (codec : IsCodec fmt bytes advance offset IsGood b) where
  open net use {pending}
  open codec use {size, small, advance-IsGood, reads_bits, reads_offset, plain, marked}

  flags-byte : (cs : List (List ℕ)) → flags true b cs < 256
  flags-byte [] = marked.0
  flags-byte (c ∷ cs) = unfold flags in plain.0

  -- The loop at the payload `c` of a segment, with the pieces `cs` to follow.
  abbrev AtPayload : tcp.State → Packet → PackedHdr → H → List ℕ → List (List ℕ) → List ℕ → Type 0
  AtPayload s p hdr h c cs rest =
      Waiting net s p fmt.hdr_size (length c) c
        (trailer p.ulpdu_len ++ (wire bytes advance true b (advance (length c) h) cs ++ rest))
      × (hdr.bits ≡ flags true b cs)
      × (hdr.offset ≡ offset h)
      × IsGood h

  abbrev Deposits : Memory → ℕ → H → List (List ℕ) → List ℕ → Option (Received tcp) → Type 0
  Deposits mem total h cs rest out =
      (t : Received tcp) × (out ≡ some t)
      × (t.ret ≡ pos 0)
      × (t.total ≡ pos (total + length (flatten cs)))
      × (t.mem ≡ deposit bytes advance (λ k. fmt.place (offset k)) mem h cs)
      × (pending t.sock ≡ rest)

  -- The header of the next segment.
  next_header :
      (s : tcp.State) (p : Packet) (h : H) (d : List ℕ) (ds : List (List ℕ)) (rest : List ℕ)
      → p.bytes_rcvd ≡ pos 0
      → 0 < length d
      → length d ≤ mulpdu
      → mulpdu + 18 < fuel
      → pending s ≡ wire bytes advance true b h (d ∷ ds) ++ rest
      → let n = fmt.hdr_size + length d in
        let p' = record p { ulpdu_len = n; bytes_rcvd = pos (2 + fmt.hdr_size) } in
        (s' : tcp.State) × (mpa_recv tcp fuel s p (pos fmt.hdr_size)
          ≡ some (record {
            ret = pos (2 + fmt.hdr_size);
            packet = p';
            image = le_bytes 1 (flags true b ds) ++ bytes h;
            sock = s';
          }))
        × (pending s'
            ≡ d ++ (trailer n ++ (wire bytes advance true b (advance (length d) h) ds ++ rest)))
  unfolding wire
  next_header s p h d ds rest z some_bytes fits fuel_ok e =
      let xs = le_bytes 1 (flags true b ds) ++ bytes h in
      let seg = le_bytes 1 (flags true b ds) ++ (bytes h ++ d) in
      let more = wire bytes advance true b (advance (length d) h) ds in
      let l : length xs ≡ fmt.hdr_size = omega (
        arith,
        length-append (le_bytes 1 (flags true b ds)) (bytes h),
        length-le_bytes 1 (flags true b ds),
        size h,
      ) in
      let n : length (xs ++ d) ≡ fmt.hdr_size + length d =
        length-append xs d ∙ ap (λ k. k + length d) l in
      let (s', q, r) =
        mpa_recv_first net fuel s p fmt.hdr_size xs d (more ++ rest) z (omega arith) l some_bytes
          (omega arith)
          (e
            ∙ append_assoc (frame seg) more rest
            ∙ ap (λ t. frame t ++ (more ++ rest))
                (sym (append_assoc (le_bytes 1 (flags true b ds)) (bytes h) d))) in
      (
        s',
        q
            ∙ ap {B = Option (MpaRecv tcp)}
                (λ k. some (record {
                  ret = pos (2 + fmt.hdr_size);
                  packet = record p { ulpdu_len = k; bytes_rcvd = pos (2 + fmt.hdr_size) };
                  image = xs;
                  sock = s';
                }))
                n,
        r ∙ ap (λ k. d ++ (trailer k ++ (more ++ rest))) n,
      )

  -- The loop reads the segments of a message, and nothing of what follows it; each payload is
  -- stored at its offset. One round for each segment is enough.
  pub segment_loop_lem :
      (segs : ℕ) (s : tcp.State) (mem : Memory) (p : Packet) (hdr : PackedHdr) (h : H) (c : List ℕ)
      (cs : List (List ℕ)) (rest : List ℕ) (total : ℕ)
      → AtPayload s p hdr h c cs rest
      → Fit (c ∷ cs)
      → mulpdu + 18 < fuel
      → length cs < segs
      → Deposits mem total h
          (c ∷ cs)
          rest
          (segment_loop tcp fuel fmt segs s mem p hdr (pos (length c)) (pos total))
  unfolding deposit flatten flags
  segment_loop_lem zero s mem p hdr h c cs rest total at fit fuel_ok few = absurd (omega arith)
  segment_loop_lem (suc segs) s mem p hdr h c [] rest total (w, fl, off, good) fit fuel_ok few =
      let (r, q, ret, image, left) =
        mpa_recv_rest net s p fmt.hdr_size (length c) c
          (wire bytes advance true b (advance (length c) h) [] ++ rest) fuel w (omega arith)
          (omega arith) in
      (
        _,
        segment_loop-last tcp fuel fmt segs s mem p hdr (pos (length c)) (pos total) r _ q ret
            (ap is_last_segment fl ∙ marked.1),
        refl,
        pos-+ℤ total (length c) ∙ ap (λ t. pos (total + length t)) (sym (append-nil c)),
        ap₂ (poke mem) (ap fmt.place off) image,
        unfold wire in left,
      )
  segment_loop_lem (suc segs) s mem p hdr h c (d ∷ ds) rest total (w, fl, off, good) fit fuel_ok
        few =
      let h' = advance (length c) h in
      let (r, q, ret, image, left) =
        mpa_recv_rest net s p fmt.hdr_size (length c) c
          (wire bytes advance true b h' (d ∷ ds) ++ rest) fuel w (omega arith) (omega arith) in
      let p₁ = record r.packet { bytes_rcvd = pos 0 } in
      let (s', q', left') = next_header r.sock p₁ h' d ds rest refl fit.2.0 fit.2.1 fuel_ok left in
      let n = fmt.hdr_size + length d in
      let p₂ = record p₁ { ulpdu_len = n; bytes_rcvd = pos (2 + fmt.hdr_size) } in
      let image' = le_bytes 1 (flags true b ds) ++ bytes h' in
      let g : MpaRecv tcp = record {
        ret = pos (2 + fmt.hdr_size);
        packet = p₂;
        image = image';
        sock = s';
      } in
      let old = drop (length image') (fmt.bytes hdr) in
      let hdr' : PackedHdr = record {
        bits = from_le (take 1 (image' ++ old));
        offset = fmt.offset_of (image' ++ old);
      } in
      let mem' = poke mem (fmt.place (offset h)) c in
      let (t, run, ok, total', dep, end) =
        segment_loop_lem segs s' mem' p₂ hdr' h' d ds rest (total + length c)
          (
            (refl, refl, omega arith, left'),
            reads_bits (flags true b ds) h' old (flags-byte ds),
            reads_offset (flags true b ds) h' old (advance-IsGood (length c) h good),
            advance-IsGood (length c) h good,
          )
          fit.2 fuel_ok (omega arith) in
      (
        t,
        segment_loop-next tcp fuel fmt segs s mem p hdr (pos (length c)) (pos total) r g _ _ q ret
              (ap is_last_segment fl ∙ plain.1) q' refl
            ∙ ap
                (λ m.
                  segment_loop tcp fuel fmt segs s' m p₂ hdr' (pos n -ℤ pos fmt.hdr_size)
                    (pos total +ℤ pos (length c)))
                (ap₂ (poke mem) (ap fmt.place off) image)
            ∙ ap₂ (λ l t. segment_loop tcp fuel fmt segs s' mem' p₂ hdr' l t)
                (pos--ℤ n fmt.hdr_size (omega arith)
                  ∙ ap pos (let z : n - fmt.hdr_size ≡ length d = omega arith in z))
                (pos-+ℤ total (length c))
            ∙ run,
        ok,
        total' ∙ ap pos (omega (arith, length-append c (d ++ flatten ds))),
        dep,
        end,
      )
