-- ===== src/Mpa/Connect.antt =====
-- The MPA handshake (suiw/mpa/mpa.cpp, with the request header and its revision field from
-- common/common.h): a request or reply of 20 bytes and private data.
use Prim.Native.Nat.{bit_and, bit_or}
use soft_ui_warp.Prelude.{
  ℕ, ◌+◌, ◌-◌, ◌%◌, ◌^◌, Bool, true, false, ◌&&◌, ◌||◌, List, [], ◌∷◌, ◌++◌, ltb, ◌==◌,
  if◌then◌else◌, ℤ, pos, negsuc, ltb_ℤ, to_size, length, take, drop, replicate,
}
use soft_ui_warp.Wire.{le_bytes, from_le, htons}
use soft_ui_warp.Tcp.{Tcp, got, failed, recv_result}
use soft_ui_warp.Mpa.{stored}

-- `MPA_KEY_REQ` and `MPA_KEY_REP`.
abbrev pub mpa_key_req : List ℕ
mpa_key_req =
    b'M' ∷ b'P' ∷ b'A' ∷ b' ' ∷ b'I' ∷ b'D' ∷ b' ' ∷ b'R' ∷ b'e' ∷ b'q' ∷ b' ' ∷ b'F' ∷ b'r' ∷ b'a'
    ∷ b'm' ∷ b'e' ∷ []

abbrev pub mpa_key_rep : List ℕ
mpa_key_rep =
    b'M' ∷ b'P' ∷ b'A' ∷ b' ' ∷ b'I' ∷ b'D' ∷ b' ' ∷ b'R' ∷ b'e' ∷ b'p' ∷ b' ' ∷ b'F' ∷ b'r' ∷ b'a'
    ∷ b'm' ∷ b'e' ∷ []

abbrev pub mpa_rr_key_len : ℕ
mpa_rr_key_len = 16

-- `MPA_RR_MASK_REVISION`.
unfoldable pub mpa_rr_mask_revision : ℕ
unfolding htons
mpa_rr_mask_revision = htons 0x00ff

-- `__mpa_rr_set_revision`: the mask is taken off within the field's 16 bits.
unfoldable pub mpa_rr_set_revision : ℕ → ℕ → ℕ
unfolding mpa_rr_mask_revision htons
mpa_rr_set_revision bits rev =
    bit_or (bit_and bits (2 ^ 16 - 1 - mpa_rr_mask_revision))
      (bit_and (htons rev) mpa_rr_mask_revision)

-- `__mpa_rr_revision`.
unfoldable pub mpa_rr_revision : ℕ → ℕ
unfolding mpa_rr_mask_revision htons
mpa_rr_revision bits = htons (bit_and bits mpa_rr_mask_revision) % 2 ^ 8

-- `struct mpa_rr` by its bytes.
abbrev pub mpa_rr_size : ℕ
mpa_rr_size = 20

unfoldable pub rr_bytes : List ℕ → ℕ → ℕ → List ℕ
rr_bytes key bits pd_len = key ++ (le_bytes 2 bits ++ le_bytes 2 pd_len)

unfoldable pub rr_bits : List ℕ → ℕ
rr_bits hdr = from_le (take 2 (drop 16 hdr))

unfoldable pub rr_pd_len : List ℕ → ℕ
rr_pd_len hdr = htons (from_le (take 2 (drop 18 hdr)))

-- `strncmp(a, b, n) == 0` where `a` has no zero byte.
unfoldable pub same_key : List ℕ → List ℕ → Bool
same_key [] bs = true
same_key (a ∷ as_) [] = false
same_key (a ∷ as_) (b ∷ bs) = a == b && same_key as_ bs

module _ (tcp : Tcp) where
  -- `mpa_send_rr`; `pdata` is the `pd_len` bytes of private data.
  unfoldable pub mpa_send_rr : tcp.State → List ℕ → Bool → ℤ × tcp.State
  unfolding rr_bytes
  mpa_send_rr s pdata req =
      let key = if req then mpa_key_req else mpa_key_rep in
      tcp.sendmsg s (rr_bytes key (mpa_rr_set_revision 0 1) (htons (length pdata)) ++ pdata)

  -- What `mpa_recv_rr` leaves: its result, the header's bytes, those of the private data, the socket.
  pub record RrRecv : Type 0 where
    pub ret : ℤ
    pub hdr : List ℕ
    pub pdata : List ℕ
    pub sock : tcp.State

  -- After a request without private data nothing more may be waiting.
  unfoldable pub check_garbage : tcp.State → List ℕ → RrRecv
  check_garbage s hdr =
      let (answer, again, s') = tcp.recv_now s 4 in
      let answered : ℤ → RrRecv = λ r. record { ret = r; hdr = hdr; pdata = []; sock = s' } in
      elim answer [
        | failed ↦ if again then answered (pos 0) else answered (negsuc 0)
        | got bs ↦ elim bs [
          | [] ↦ answered (negsuc 31)
          | b ∷ rest ↦ answered (pos (length (b ∷ rest)))
        ]
      ]

  -- The private data; -EPROTO where there is too much of it.
  unfoldable pub recv_private : tcp.State → List ℕ → Bool → ℕ → RrRecv
  recv_private s hdr is_req pd_len =
      let (answer, again, s') = tcp.recv_now s (if is_req then pd_len + 4 else pd_len) in
      let answered : ℤ → RrRecv =
        λ r. record { ret = r; hdr = hdr; pdata = stored [] 0 answer; sock = s' } in
      if ltb_ℤ (recv_result answer) (pos 0)
      then answered (recv_result answer)
      else if ltb_ℤ (pos pd_len) (recv_result answer)
      then answered (negsuc 70)
      else answered (recv_result answer)

  -- `mpa_recv_rr` into an `info` that is all zeros. `has_buffer` tells that `info->pdata` is given,
  -- `can_alloc` that `malloc` gives one otherwise. The received count is compared with a `size_t`.
  unfoldable pub mpa_recv_rr : tcp.State → Bool → Bool → RrRecv
  unfolding check_garbage recv_private rr_pd_len same_key
  mpa_recv_rr s has_buffer can_alloc =
      let (answer, s') = tcp.recv s mpa_rr_size in
      let hdr = stored (replicate mpa_rr_size 0) 0 answer in
      let pd_len = rr_pd_len hdr in
      let is_req = same_key mpa_key_req hdr in
      let stop : ℤ → RrRecv = λ r. record { ret = r; hdr = hdr; pdata = []; sock = s' } in
      if ltb (to_size (recv_result answer)) mpa_rr_size
      then stop (negsuc 0)
      else if pd_len == 0
      then if is_req then check_garbage s' hdr else stop (pos mpa_rr_size)
      else if has_buffer || can_alloc
      then recv_private s' hdr is_req pd_len
      else stop (negsuc 11)

  -- Both ends of the handshake change `mpa_protocol_version`; the result stands beside it.
  unfoldable pub mpa_client_connect : tcp.State → ℕ → List ℕ → Bool → Bool → ℤ × ℕ × tcp.State
  unfolding mpa_send_rr rr_bits
  mpa_client_connect s version pdata_send has_buffer can_alloc =
      let (ret, s₁) = mpa_send_rr s pdata_send true in
      let info = mpa_recv_rr s₁ has_buffer can_alloc in
      if ltb_ℤ ret (pos 0)
      then (ret, version, s₁)
      else if ltb_ℤ info.ret (pos 0)
      then (info.ret, version, info.sock)
      else (pos 0, mpa_rr_revision (rr_bits info.hdr), info.sock)

  unfoldable pub mpa_server_accept : tcp.State → ℕ → List ℕ → Bool → Bool → ℤ × ℕ × tcp.State
  unfolding mpa_send_rr rr_bits
  mpa_server_accept s version pdata_send has_buffer can_alloc =
      let info = mpa_recv_rr s has_buffer can_alloc in
      let version' = mpa_rr_revision (rr_bits info.hdr) in
      let (ret, s₂) = mpa_send_rr info.sock pdata_send false in
      if ltb_ℤ info.ret (pos 0)
      then (info.ret, version, info.sock)
      else if ltb_ℤ ret (pos 0)
      then (ret, version', s₂)
      else (pos 0, version', s₂)
