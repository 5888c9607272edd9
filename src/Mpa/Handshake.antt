-- ===== src/Mpa/Handshake.antt =====
-- Runs of the MPA handshake (suiw/mpa/mpa.cpp) as a whole.
use soft_ui_warp.Prelude.{ℕ, ◌≡◌, Bool, true, false, List, arith, pos}
use soft_ui_warp.Tcp.{Tcp, got, failed}
use soft_ui_warp.Wire.{htons, le_bytes, from_le}
use soft_ui_warp.Mpa.Connect.{
  mpa_key_req, mpa_rr_set_revision, mpa_rr_revision, rr_bytes, rr_bits, rr_pd_len, same_key,
  mpa_send_rr, mpa_recv_rr, check_garbage, mpa_client_connect, mpa_server_accept,
}

-- A reply or a request of revision 1 without private data.
abbrev pub plain : List ℕ → List ℕ
plain key = rr_bytes key (mpa_rr_set_revision 0 1) (htons 0)

-- A client whose request was sent and that fails to receive the reply is nevertheless connected,
-- with protocol version 0.
pub connect_after_failure :
    (tcp : Tcp) (s s₁ s₂ : tcp.State) (version n : ℕ) (pdata : List ℕ) (has_buffer can_alloc : Bool)
    → mpa_send_rr tcp s pdata true ≡ (pos n, s₁)
    → tcp.recv s₁ 20 ≡ (failed, s₂)
    → mpa_client_connect tcp s version pdata has_buffer can_alloc ≡ (pos 0, 0, s₂)
unfolding mpa_client_connect mpa_recv_rr rr_pd_len rr_bits mpa_rr_revision same_key htons le_bytes
    from_le
connect_after_failure tcp s s₁ s₂ version n pdata has_buffer can_alloc sent came =
    ground (arith, sent, came)

-- A server that gets a request without private data and nothing behind it, and whose reply is sent,
-- has accepted, with protocol version 1.
pub mpa_server_accept_lem :
    (tcp : Tcp) (s s₁ s₂ s₃ : tcp.State) (version n : ℕ) (pdata : List ℕ)
    (has_buffer can_alloc : Bool)
    → tcp.recv s 20 ≡ (got (plain mpa_key_req), s₁)
    → tcp.recv_now s₁ 4 ≡ (failed, true, s₂)
    → mpa_send_rr tcp s₂ pdata false ≡ (pos n, s₃)
    → mpa_server_accept tcp s version pdata has_buffer can_alloc ≡ (pos 0, 1, s₃)
unfolding mpa_server_accept mpa_recv_rr check_garbage rr_pd_len rr_bits rr_bytes mpa_rr_set_revision
    mpa_rr_revision same_key htons le_bytes from_le
mpa_server_accept_lem tcp s s₁ s₂ s₃ version n pdata has_buffer can_alloc came quiet sent =
    ground (arith, came, quiet, sent)
