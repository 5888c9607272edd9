-- ===== src/Ddp/Ends.antt =====
-- Termination of the sends of suiw/ddp/ddp.cpp.
use soft_ui_warp.Prelude.{
  ℕ, zero, suc, ◌+◌, ◌-◌, ◌%◌, ◌^◌, ◌≤◌, ◌<◌, ◌≡◌, refl, inl, inr, Bool, some, List, [], ◌∷◌, arith,
  Bool-cases, ℤ, pos, ltb_ℤ,
}
use Prim.Native.Nat.{bit_or}
use soft_ui_warp.Wire.{le_bytes}
use soft_ui_warp.Mpa.{mpa_send}
use soft_ui_warp.Memory.{Memory, load}
use soft_ui_warp.Tcp.{Tcp}
use soft_ui_warp.Ddp.{Sge, TaggedMeta, UntaggedMeta, ddp_hdr_t, tagged_bytes, untagged_bytes}
use soft_ui_warp.Ddp.Send.{
  packet_length, to_send, is_last, mark_last, Sending, send_sge, send_sges, advance_to, advance_mo,
  ddp_send_tagged, ddp_send_untagged,
}

module _ (tcp : Tcp) (mem : Memory) {H : Type 0} (bytes : H → List ℕ) (advance : ℕ → H → H) where
  -- What the socket answers in a round with `suc r` bytes to send, and what goes on if it took them.
  abbrev answer : Sge → Bool → ℕ → Sending tcp H → ℤ × tcp.State
  answer sg last_sge r v = mpa_send tcp v.sock (
      le_bytes 1 (mark_last v.bits last_sge (suc r))
      ∷ bytes v.hdr2
      ∷ load mem ((sg.addr + (sg.len - suc r)) % 2 ^ 64) (packet_length (suc r))
      ∷ [])

  abbrev sent : Sge → Bool → ℕ → Sending tcp H → Sending tcp H
  sent sg last_sge r v = record v {
    bits = mark_last v.bits last_sge (suc r);
    hdr2 = advance (packet_length (suc r)) v.hdr2;
    sock = (answer sg last_sge r v).1;
  }

  -- A round takes at least a byte, so as many rounds as bytes are enough.
  send_sge_ends :
      (fuel : ℕ) (sg : Sge) (last_sge : Bool) (remaining : ℕ) (v : Sending tcp H)
      → remaining ≤ fuel
      → (v' : Sending tcp H) × (send_sge tcp mem bytes advance fuel sg last_sge remaining v
          ≡ some v')
  unfolding send_sge
  send_sge_ends zero sg last_sge remaining v h = (v, ground arith)
  send_sge_ends (suc fuel) sg last_sge zero v h = (v, refl)
  send_sge_ends (suc fuel) sg last_sge (suc r) v h =
      let packet_len = packet_length (suc r) in
      let taken : 0 < packet_len = ground arith in
      let v' = sent sg last_sge r v in
      let (v₁, run) = send_sge_ends fuel sg last_sge (suc r - packet_len) v' (omega arith) in
      let (ret, sock) = answer sg last_sge r v in
      elim (Bool-cases (ltb_ℤ ret (pos 0))) [
        | inl t ↦ (
          record v { ret = ret; bits = mark_last v.bits last_sge (suc r); sock = sock },
          ground (arith, t),
        )
        | inr f ↦ (v₁, ground (arith, f, run))
      ]

  send_sges_ends :
      (sgs : List Sge) (v : Sending tcp H)
      → (v' : Sending tcp H) × (send_sges tcp mem bytes advance sgs v ≡ some v')
  unfolding send_sges
  send_sges_ends [] v = (v, refl)
  send_sges_ends (sg ∷ sgs) v =
      let (v₁, run) =
        send_sge_ends (to_send sg.len) sg (is_last sgs) (to_send sg.len) v (omega arith) in
      elim (Bool-cases (ltb_ℤ v₁.ret (pos 0))) [
        | inl t ↦ (v₁, ground (arith, run, t))
        | inr f ↦ let (v₂, run') = send_sges_ends sgs v₁ in (v₂, ground (arith, run, run', f))
      ]

module _ (tcp : Tcp) (mem : Memory) (s : tcp.State) (sgs : List Sge) where
  -- A tagged send returns, whatever the socket answers.
  pub ddp_send_tagged_ends :
      (h : TaggedMeta)
      → (ret : ℤ) × (s' : tcp.State) × (ddp_send_tagged tcp mem s h sgs ≡ some (ret, s'))
  unfolding ddp_send_tagged
  ddp_send_tagged_ends h =
      let start : Sending tcp TaggedMeta = record {
        ret = pos 0;
        bits = bit_or (bit_or 0 ddp_hdr_t) 1;
        hdr2 = h;
        sock = s;
      } in
      let (v, run) = send_sges_ends tcp mem tagged_bytes advance_to sgs start in
      (v.ret, v.sock, ground (arith, run))

  -- An untagged send returns, whatever the socket answers.
  pub ddp_send_untagged_ends :
      (h : UntaggedMeta)
      → (ret : ℤ) × (s' : tcp.State) × (ddp_send_untagged tcp mem s h sgs ≡ some (ret, s'))
  unfolding ddp_send_untagged
  ddp_send_untagged_ends h =
      let start : Sending tcp UntaggedMeta = record {
        ret = pos 0;
        bits = bit_or 0 1;
        hdr2 = record h { mo = 0 };
        sock = s;
      } in
      let (v, run) = send_sges_ends tcp mem untagged_bytes advance_mo sgs start in
      (v.ret, v.sock, ground (arith, run))
