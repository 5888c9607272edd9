-- ===== src/Mpa.antt =====
-- The MPA layer (suiw/mpa/mpa.cpp): framing of a payload (ULPDU) on the byte stream.
-- `int` values that can be negative are of type ℤ.
pub mod Loop
pub mod Recv
pub mod Connect
pub mod Failures
pub mod Handshake
pub mod Frame
use mathlib.Core.List.{flatten}
use mathlib.Core.Option
use soft_ui_warp.Prelude.{
  ℕ, zero, suc, ◌+◌, ◌%◌, ◌^◌, Bool, true, false, Option, none, some, List, [], ◌∷◌, ◌++◌, map, ltb,
  ◌==◌, if◌then◌else◌, ℤ, pos, negsuc, pos_part, ◌+ℤ◌, ◌-ℤ◌, ltb_ℤ, leb_ℤ, ◌==ℤ◌, to_size, length,
  replicate, overwrite,
}
use soft_ui_warp.Wire.{le_bytes, from_le, htons}
use soft_ui_warp.Tcp.{Tcp, Received, got, failed, recv_result}

-- `EMSS`, `MPA_HDR_SIZE` and `MPA_CRC_SIZE`.
abbrev pub emss : ℕ
emss = 65535

abbrev pub mpa_hdr_size : ℕ
mpa_hdr_size = 2

abbrev pub mpa_crc_size : ℕ
mpa_crc_size = 4

-- `__u16 len`, summed over the gather list.
unfoldable pub ulpdu_length : ℕ → List (List ℕ) → ℕ
ulpdu_length len [] = len
ulpdu_length len (sg ∷ sgs) = ulpdu_length ((len + length sg) % 2 ^ 16) sgs

-- `mpa_send`. An entry of the gather list is given as the bytes it points to.
-- A length over `emss` is refused with -1.
unfoldable pub mpa_send : (tcp : Tcp) → tcp.State → List (List ℕ) → ℤ × tcp.State
unfolding ulpdu_length
mpa_send tcp s sg_list =
    let len = ulpdu_length 0 sg_list in
    let header = le_bytes 2 (htons len) in
    let padding = replicate ((len + mpa_hdr_size) % 4) 0 in
    let crc = le_bytes 4 0 in
    if ltb emss len
    then (negsuc 0, s)
    else tcp.sendmsg s (header ++ (flatten sg_list ++ (padding ++ crc)))

-- `struct siw_mpa_packet`, less its pointer `ulpdu`; `crc` by its bytes.
pub record Packet : Type 0 where
  pub ulpdu_len : ℕ
  pub crc : List ℕ
  pub bytes_rcvd : ℤ

abbrev pub new_packet : Packet
new_packet = record { ulpdu_len = 0; crc = 0 ∷ 0 ∷ 0 ∷ 0 ∷ []; bytes_rcvd = pos 0 }

-- A buffer's bytes after a `recv` into it from offset `i` on.
abbrev pub stored : List ℕ → ℕ → Received → List ℕ
stored buf i (got bs) = overwrite buf i bs
stored buf i failed = buf

-- What a call of `mpa_recv` leaves: its result, the packet, the bytes stored from `ulpdu` on, and
-- the socket.
pub record MpaRecv (tcp : Tcp) : Type 0 where
  pub ret : ℤ
  pub packet : Packet
  pub image : List ℕ
  pub sock : tcp.State

module _ (tcp : Tcp) where
  -- The read of the length field: whether it came, the packet, the socket.
  unfoldable pub recv_header : tcp.State → Packet → Bool × Packet × tcp.State
  recv_header s p =
      let want = pos mpa_hdr_size -ℤ p.bytes_rcvd in
      let (answer, s') = tcp.recv s (to_size want) in
      let raw = from_le (stored (le_bytes 2 p.ulpdu_len) (pos_part p.bytes_rcvd) answer) in
      if ltb_ℤ (recv_result answer) want
      then (false, record p { ulpdu_len = raw }, s')
      else (true, record p { ulpdu_len = htons raw; bytes_rcvd = pos mpa_hdr_size }, s')

  -- The `do … while` of the payload: `rcvd` bytes are there at the loop's head, and `want` are to
  -- come. The fuel counts calls of `recv`; `none` means that it ran out.
  unfoldable pub recv_all : ℕ → tcp.State → ℤ → List ℕ → ℕ → Option (ℤ × List ℕ × tcp.State)
  recv_all zero s want image rcvd = none
  recv_all (suc fuel) s want image rcvd =
      let (answer, s') = tcp.recv s (to_size (want -ℤ pos rcvd)) in
      let image' = stored image rcvd answer in
      elim (pos rcvd +ℤ recv_result answer) [
        | negsuc n ↦ some (negsuc n, image', s')
        | pos zero ↦ some (pos 0, image', s')
        | pos (suc n) ↦ elim (ltb_ℤ (pos (suc n)) want) [
          | true ↦ recv_all fuel s' want image' (suc n)
          | false ↦ some (pos (suc n), image', s')
        ]
      ]

  -- Padding and checksum. Both are stored into `crc`, and neither is looked at.
  unfoldable pub recv_trailers : tcp.State → Packet → List ℕ → MpaRecv tcp
  recv_trailers s p image =
      let padding_len = (p.ulpdu_len + mpa_hdr_size) % 4 in
      let (padding, s₁) = tcp.recv s padding_len in
      let p₁ = record p { crc = stored p.crc 0 padding } in
      let p₂ = record p₁ { bytes_rcvd = p.bytes_rcvd +ℤ recv_result padding } in
      let (crc, s₂) = tcp.recv s₁ mpa_crc_size in
      let p₃ = record p₂ { crc = stored p₂.crc 0 crc } in
      let total = p₂.bytes_rcvd +ℤ recv_result crc in
      if ltb_ℤ (recv_result padding) (pos padding_len)
      then record { ret = negsuc 0; packet = p₁; image = image; sock = s₁ }
      else if recv_result crc ==ℤ pos mpa_crc_size
      then record {
        ret = total;
        packet = record p₃ { bytes_rcvd = total };
        image = image;
        sock = s₂;
      }
      else record { ret = negsuc 0; packet = p₃; image = image; sock = s₂ }

  -- After the payload's loop.
  unfoldable pub after_payload : Packet → ℤ → Bool → ℤ × List ℕ × tcp.State → MpaRecv tcp
  unfolding recv_trailers
  after_payload p want read_trailers (rcvd, image, s) =
      let p' = record p { bytes_rcvd = p.bytes_rcvd +ℤ rcvd } in
      if rcvd ==ℤ want
      then if read_trailers
        then recv_trailers s p' image
        else record { ret = p'.bytes_rcvd; packet = p'; image = image; sock = s }
      else record { ret = negsuc 0; packet = p; image = image; sock = s }

  -- `mpa_recv` once the length field is known.
  unfoldable pub recv_payload : ℕ → tcp.State → Packet → ℤ → Option (MpaRecv tcp)
  unfolding recv_all after_payload
  recv_payload fuel s p num_bytes =
      let ulpdu_rem_size = pos p.ulpdu_len -ℤ (p.bytes_rcvd -ℤ pos mpa_hdr_size) in
      let read_trailers = leb_ℤ ulpdu_rem_size num_bytes in
      let want = if read_trailers then ulpdu_rem_size else num_bytes in
      let loop = recv_all fuel s want [] 0 in
      if p.ulpdu_len == 0
      then some (record { ret = negsuc 1; packet = p; image = []; sock = s })
      else Option.map (after_payload p want read_trailers) loop

  -- `mpa_recv`: the next `num_bytes` bytes of the packet, and its trailers once it is read up.
  unfoldable pub mpa_recv : ℕ → tcp.State → Packet → ℤ → Option (MpaRecv tcp)
  unfolding recv_header recv_payload
  mpa_recv fuel s p num_bytes =
      let (came, p', s') = recv_header s p in
      if ltb_ℤ p.bytes_rcvd (pos mpa_hdr_size)
      then if came
        then recv_payload fuel s' p' num_bytes
        else some (record { ret = negsuc 0; packet = p'; image = []; sock = s' })
      else recv_payload fuel s p num_bytes
