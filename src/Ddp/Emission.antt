-- ===== src/Ddp/Emission.antt =====
-- The loops of the sends of suiw/ddp/ddp.cpp against the segments of the message.
use mathlib.Core.List.{flatten}
use mathlib.Core.Path.{ap₂}
use soft_ui_warp.Prelude.{
  ℕ, zero, suc, ◌+◌, ◌-◌, ◌%◌, ◌^◌, ◌≤◌, ◌<◌, ◌≡◌, refl, sym, ap, ◌∙◌, ◌≢◌, Bool, true, false,
  Option, some, List, [], ◌∷◌, ◌++◌, append-nil, append_assoc, arith, pos, length, length-append,
}
use soft_ui_warp.Wire.{le_bytes}
use soft_ui_warp.Wire.Bytes.{length-le_bytes}
use soft_ui_warp.Memory.{Memory, load, length-load}
use soft_ui_warp.Tcp.{Tcp, IsOpen}
use soft_ui_warp.Mpa.{mpa_send}
use soft_ui_warp.Mpa.Frame.{frame, mpa_send-frame}
use soft_ui_warp.Ddp.{Sge}
use soft_ui_warp.Ddp.Send.{mulpdu, packet_length, to_send, mark_last, Sending, send_sge, send_sges}
use soft_ui_warp.Ddp.Segments.{
  all_pieces_nonempty, last_len, pieces_from, pieces, all_pieces, flags, wire, advance_all,
  wire-append, advance_all-append,
}

mark_last-flags :
    (mem : Memory) (fuel : ℕ) (sg : Sge) (b : ℕ) (last_sge : Bool) (r : ℕ)
    → suc r ≤ suc fuel
    → mark_last b last_sge (suc r)
      ≡ flags last_sge b (pieces_from mem fuel sg (suc r - packet_length (suc r)))
unfolding mark_last flags pieces_from
mark_last-flags mem fuel sg b last_sge r h = go (suc r - packet_length (suc r)) refl fuel h
  where
    go :
        (left : ℕ)
        → suc r - packet_length (suc r) ≡ left
        → (f : ℕ) → suc r ≤ suc f
        → mark_last b last_sge (suc r) ≡ flags last_sge b (pieces_from mem f sg left)
    go zero e zero k = ground arith
    go zero e (suc f) k = ground arith
    go (suc left) e zero k = absurd (ground arith)
    go (suc left) e (suc f) k = ground arith

module _ {tcp : Tcp} (net : IsOpen tcp) (mem : Memory) {H : Type 0} (bytes : H → List ℕ)
    (advance : ℕ → H → H) (small : (h : H) → length (bytes h) ≤ 17) where
  open net use {sent, put, sendmsg_takes, sent-put}

  -- One segment is one frame.
  mpa_send-segment :
      (s : tcp.State) (b : ℕ) (h : H) (c : List ℕ)
      → length c ≤ mulpdu
      → mpa_send tcp s (le_bytes 1 b ∷ bytes h ∷ c ∷ []) ≡ (
        pos (length (frame (le_bytes 1 b ++ (bytes h ++ c)))),
        put s (frame (le_bytes 1 b ++ (bytes h ++ c))),
      )
  mpa_send-segment s b h c fits =
      let segment = le_bytes 1 b ++ (bytes h ++ c) in
      let e : flatten (le_bytes 1 b ∷ bytes h ∷ c ∷ []) ≡ segment =
        unfold flatten in ap (λ t. le_bytes 1 b ++ (bytes h ++ t)) (append-nil c) in
      let l : length (flatten (le_bytes 1 b ∷ bytes h ∷ c ∷ [])) < 2 ^ 16 = omega (
        arith,
        ap length e,
        length-append (le_bytes 1 b) (bytes h ++ c),
        length-append (bytes h) c,
        length-le_bytes 1 b,
        small h,
      ) in
      mpa_send-frame tcp s (le_bytes 1 b ∷ bytes h ∷ c ∷ []) l
      ∙ ap (λ p. tcp.sendmsg s (frame p)) e
      ∙ sendmsg_takes s (frame segment)

  -- One round of the loop over an entry.
  send_sge-round :
      (fuel : ℕ) (sg : Sge) (last_sge : Bool) (r : ℕ) (v : Sending tcp H)
      → suc r ≤ suc fuel
      → let n = packet_length (suc r) in
        let left = pieces_from mem fuel sg (suc r - n) in
        let c = load mem ((sg.addr + (sg.len - suc r)) % 2 ^ 64) n in
        let b = flags last_sge v.bits left in
        send_sge tcp mem bytes advance (suc fuel) sg last_sge (suc r) v
        ≡ send_sge tcp mem bytes advance fuel sg last_sge (suc r - n) (record v {
          bits = b;
          hdr2 = advance n v.hdr2;
          sock = put v.sock (frame (le_bytes 1 b ++ (bytes v.hdr2 ++ c)));
        })
  unfolding send_sge
  send_sge-round fuel sg last_sge r v h =
      let n = packet_length (suc r) in
      let c = load mem ((sg.addr + (sg.len - suc r)) % 2 ^ 64) n in
      let b = flags last_sge v.bits (pieces_from mem fuel sg (suc r - n)) in
      let l : length c ≡ n = length-load mem ((sg.addr + (sg.len - suc r)) % 2 ^ 64) n in
      let fits : n ≤ mulpdu = ground arith in
      ground (
        arith,
        mark_last-flags mem fuel sg v.bits last_sge r h,
        mpa_send-segment v.sock b v.hdr2 c (omega arith),
      )

  wire-flags :
      (final : Bool) (b : ℕ) (h : H) (cs : List (List ℕ))
      → wire bytes advance final (flags final b cs) h cs ≡ wire bytes advance final b h cs
  unfolding wire flags
  wire-flags final b h [] = refl
  wire-flags final b h (c ∷ cs) = refl

  flags-false : (b : ℕ) (cs : List (List ℕ)) → flags false b cs ≡ b
  unfolding flags
  flags-false b [] = refl
  flags-false b (c ∷ cs) = refl

  -- What a send has done: the variables after some pieces, and the bytes sent.
  abbrev Emits : Bool → Sending tcp H → List (List ℕ) → Option (Sending tcp H) → Type 0
  Emits final v cs out =
      (v' : Sending tcp H) × (out ≡ some v')
      × (v'.ret ≡ v.ret)
      × (v'.hdr2 ≡ advance_all bytes advance cs v.hdr2)
      × (final ≡ false → v'.bits ≡ v.bits)
      × (sent v'.sock ≡ sent v.sock ++ wire bytes advance final v.bits v.hdr2 cs)

  send_sge_lem :
      (fuel : ℕ) (sg : Sge) (last_sge : Bool) (remaining : ℕ) (v : Sending tcp H)
      → remaining ≤ fuel
      → Emits last_sge v
          (pieces_from mem fuel sg remaining)
          (send_sge tcp mem bytes advance fuel sg last_sge remaining v)
  unfolding pieces_from wire advance_all
  send_sge_lem zero sg last_sge remaining v h =
      (v, unfold send_sge in ground arith, refl, refl, (λ _. refl), sym (append-nil (sent v.sock)))
  send_sge_lem (suc fuel) sg last_sge zero v h =
      (v, unfold send_sge in ground arith, refl, refl, (λ _. refl), sym (append-nil (sent v.sock)))
  send_sge_lem (suc fuel) sg last_sge (suc r) v h =
      let n = packet_length (suc r) in
      let left = pieces_from mem fuel sg (suc r - n) in
      let c = load mem ((sg.addr + (sg.len - suc r)) % 2 ^ 64) n in
      let b = flags last_sge v.bits left in
      let f = frame (le_bytes 1 b ++ (bytes v.hdr2 ++ c)) in
      let v₁ = record v { bits = b; hdr2 = advance n v.hdr2; sock = put v.sock f } in
      let some_bytes : 0 < n = ground arith in
      let l : n ≡ length c = sym (length-load mem ((sg.addr + (sg.len - suc r)) % 2 ^ 64) n) in
      let (v', run, ok, hdr, keep, out) =
        send_sge_lem fuel sg last_sge (suc r - n) v₁ (omega arith) in
      (
        v',
        send_sge-round fuel sg last_sge r v h ∙ run,
        ok,
        hdr ∙ ap (λ k. advance_all bytes advance left (advance k v.hdr2)) l,
        (λ e. keep e ∙ ap (λ t. flags t v.bits left) e ∙ flags-false v.bits left),
        out
            ∙ ap₂ ◌++◌ (sent-put v.sock f) (
                wire-flags last_sge v.bits (advance n v.hdr2) left
                ∙ ap (λ k. wire bytes advance last_sge v.bits (advance k v.hdr2) left) l)
            ∙ append_assoc (sent v.sock) f
                (wire bytes advance last_sge v.bits (advance (length c) v.hdr2) left),
      )

  wire-append_nonempty :
      (final : Bool) (b : ℕ) (h : H) (xs ys : List (List ℕ))
      → ys ≢ []
      → wire bytes advance final b h (xs ++ ys)
        ≡ wire bytes advance false b h xs
          ++ wire bytes advance final b (advance_all bytes advance xs h) ys
  wire-append_nonempty final b h xs [] ne = absurd (ne refl)
  wire-append_nonempty final b h xs (y ∷ ys) ne = wire-append bytes advance final b h xs y ys

  -- A gather list whose last entry has a byte goes out as the frames of its pieces, the last one
  -- marked.
  pub send_sges_lem :
      (sgs : List Sge) (v : Sending tcp H)
      → 0 < last_len sgs
      → v.ret ≡ pos 0
      → Emits true v (all_pieces mem sgs) (send_sges tcp mem bytes advance sgs v)
  unfolding send_sges all_pieces pieces
  send_sges_lem [] v h ok = absurd (omega arith)
  send_sges_lem (sg ∷ []) v h ok =
      let n = to_send sg.len in
      let (v', run, ok', hdr, keep, out) = send_sge_lem n sg true n v (omega arith) in
      let e : pieces_from mem n sg n ≡ pieces_from mem n sg n ++ [] =
        sym (append-nil (pieces_from mem n sg n)) in
      (
        v',
        ground (arith, run, ok', ok),
        ok',
        hdr ∙ ap (λ cs. advance_all bytes advance cs v.hdr2) e,
        (λ z. cc),
        out ∙ ap (λ cs. sent v.sock ++ wire bytes advance true v.bits v.hdr2 cs) e,
      )
  send_sges_lem (sg ∷ sg' ∷ sgs) v h ok =
      let n = to_send sg.len in
      let ps = pieces_from mem n sg n in
      let qs = all_pieces mem (sg' ∷ sgs) in
      let (v₁, run, ok₁, hdr₁, keep, out₁) = send_sge_lem n sg false n v (omega arith) in
      let (v₂, run₂, ok₂, hdr₂, keep₂, out₂) = send_sges_lem (sg' ∷ sgs) v₁ h (ok₁ ∙ ok) in
      let wired =
        wire-append_nonempty true v.bits v.hdr2 ps qs
          (unfold all_pieces pieces in all_pieces_nonempty mem (sg' ∷ sgs) h) in
      (
        v₂,
        ground (arith, run, ok₁, ok, run₂),
        ok₂ ∙ ok₁,
        hdr₂
            ∙ ap (advance_all bytes advance qs) hdr₁
            ∙ sym (advance_all-append bytes advance ps qs v.hdr2),
        (λ z. cc),
        out₂
            ∙ ap₂ (λ t w. t ++ w) out₁
                (ap₂ (λ b k. wire bytes advance true b k qs) (keep refl) hdr₁)
            ∙ append_assoc (sent v.sock) (wire bytes advance false v.bits v.hdr2 ps)
                (wire bytes advance true v.bits (advance_all bytes advance ps v.hdr2) qs)
            ∙ ap (◌++◌ (sent v.sock)) (sym wired),
      )
