-- ===== src/Ddp/Send.antt =====
-- `ddp_send_tagged` and `ddp_send_untagged` (suiw/ddp/ddp.cpp): a message cut into segments of at
-- most `mulpdu` bytes, each handed to `mpa_send` behind its header.
use Prim.Native.Nat.{bit_or}
use soft_ui_warp.Prelude.{
  ℕ, zero, suc, ◌+◌, ◌-◌, ◌*◌, ◌/◌, ◌%◌, ◌^◌, Bool, true, false, ◌&&◌, Option, none, some, List, [],
  ◌∷◌, ltb, ◌==◌, if◌then◌else◌, ℤ, pos, ltb_ℤ,
}
use soft_ui_warp.Wire.{le_bytes, htonll}
use soft_ui_warp.Memory.{Memory, load}
use soft_ui_warp.Tcp.{Tcp}
use soft_ui_warp.Mpa.{emss, mpa_send}
use soft_ui_warp.Ddp.{
  Sge, TaggedMeta, UntaggedMeta, tagged_bytes, untagged_bytes, ddp_hdr_t, ddp_flag_last,
}

-- `MULPDU`.
abbrev pub mulpdu : ℕ
mulpdu = emss - (6 + 4 * (emss / 512 + 1) + emss % 4)

-- `int remaining_bytes = sge_list[i].length`, less what a negative `int` stands for: the loop does
-- not run on one.
abbrev pub to_send : ℕ → ℕ
to_send len = if ltb len (2 ^ 31) then len else 0

-- `packet_len`.
abbrev pub packet_length : ℕ → ℕ
packet_length remaining = if ltb mulpdu remaining then mulpdu else remaining

-- The header's flags, with `DDP_FLAG_LAST` set on the last segment; once set it stays.
unfoldable pub mark_last : ℕ → Bool → ℕ → ℕ
unfolding ddp_flag_last
mark_last bits last_sge remaining =
    if last_sge && (packet_length remaining == remaining) then bit_or bits ddp_flag_last else bits

-- The variables of a send that its loops change. `H` is the type of the second header.
pub record Sending (tcp : Tcp) (H : Type 0) : Type 0 where
  pub ret : ℤ
  pub bits : ℕ
  pub hdr2 : H
  pub sock : tcp.State

-- `i == num_sge - 1`, by the entries that follow the i-th.
abbrev pub is_last : List Sge → Bool
is_last [] = true
is_last (sg ∷ sgs) = false

-- The loops are the same for both kinds of message, but for the second header: its bytes, and how
-- its offset grows.
module _ (tcp : Tcp) (mem : Memory) {H : Type 0} (bytes : H → List ℕ) (advance : ℕ → H → H) where
  -- `while (remaining_bytes > 0)`. Each round takes a byte at least, so `remaining` rounds are
  -- enough; a negative result ends the call.
  unfoldable pub send_sge : ℕ → Sge → Bool → ℕ → Sending tcp H → Option (Sending tcp H)
  send_sge zero sg last_sge remaining v = if remaining == 0 then some v else none
  send_sge (suc fuel) sg last_sge remaining v =
      let packet_len = packet_length remaining in
      let bits = mark_last v.bits last_sge remaining in
      let payload = load mem ((sg.addr + (sg.len - remaining)) % 2 ^ 64) packet_len in
      let (ret, sock) = mpa_send tcp v.sock (le_bytes 1 bits ∷ bytes v.hdr2 ∷ payload ∷ []) in
      let failed = record v { ret = ret; bits = bits; sock = sock } in
      let sent = record v { bits = bits; hdr2 = advance packet_len v.hdr2; sock = sock } in
      let rest = send_sge fuel sg last_sge (remaining - packet_len) sent in
      if remaining == 0 then some v else if ltb_ℤ ret (pos 0) then some failed else rest

  -- The `for` over the gather list.
  unfoldable pub send_sges : List Sge → Sending tcp H → Option (Sending tcp H)
  send_sges [] v = some v
  send_sges (sg ∷ sgs) v =
      let last_sge = is_last sgs in
      elim (send_sge (to_send sg.len) sg last_sge (to_send sg.len) v) [
        | none ↦ none
        | some v' ↦ elim (ltb_ℤ v'.ret (pos 0)) [ true ↦ some v' | false ↦ send_sges sgs v' ]
      ]

-- `ho_TO += packet_len; hdr2.TO = htonll(ho_TO)`: the field always holds `htonll(ho_TO)`.
unfoldable pub advance_to : ℕ → TaggedMeta → TaggedMeta
advance_to n h = record h { to = htonll ((htonll h.to + n) % 2 ^ 64) }

-- `hdr2.mo += packet_len`: in the machine's byte order.
unfoldable pub advance_mo : ℕ → UntaggedMeta → UntaggedMeta
advance_mo n h = record h { mo = (h.mo + n) % 2 ^ 32 }

module _ (tcp : Tcp) (mem : Memory) where
  unfoldable pub ddp_send_tagged : tcp.State → TaggedMeta → List Sge → Option (ℤ × tcp.State)
  unfolding send_sges send_sge mark_last advance_to
  ddp_send_tagged s next_hdr sge_list =
      let bits = bit_or (bit_or 0 ddp_hdr_t) 1 in
      let start : Sending tcp TaggedMeta = record {
        ret = pos 0;
        bits = bits;
        hdr2 = next_hdr;
        sock = s;
      } in
      elim (send_sges tcp mem tagged_bytes advance_to sge_list start) [
        | none ↦ none
        | some v ↦ some (v.ret, v.sock)
      ]

  unfoldable pub ddp_send_untagged : tcp.State → UntaggedMeta → List Sge → Option (ℤ × tcp.State)
  unfolding send_sges send_sge mark_last advance_mo
  ddp_send_untagged s next_hdr sge_list =
      let hdr2 = record next_hdr { mo = 0 } in
      let start : Sending tcp UntaggedMeta = record {
        ret = pos 0;
        bits = bit_or 0 1;
        hdr2 = hdr2;
        sock = s;
      } in
      elim (send_sges tcp mem untagged_bytes advance_mo sge_list start) [
        | none ↦ none
        | some v ↦ some (v.ret, v.sock)
      ]
