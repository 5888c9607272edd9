-- ===== src/Tests/Handshakes.antt =====
-- Runs of the MPA handshake, and of `mpa_recv` on connections that fail or end.
use soft_ui_warp.Prelude.{ℕ, ◌+◌, ◌≡◌, refl, true, false, none, List, [], ◌∷◌, arith, pos, length}
use soft_ui_warp.Tcp.{Tcp, got, failed}
use soft_ui_warp.Wire.{le_bytes}
use soft_ui_warp.Mpa.{recv_all}
use soft_ui_warp.Mpa.Connect.{mpa_key_req, mpa_send_rr, mpa_client_connect, mpa_server_accept}
use soft_ui_warp.Mpa.Failures.{recv_all_eof}
use soft_ui_warp.Mpa.Handshake.{plain, connect_after_failure, mpa_server_accept_lem}

-- A peer that answers every `recv` alike, and takes all that it is sent. A state counts the calls.
abbrev answering : List ℕ → Tcp
answering bs = record {
  State = ℕ;
  recv = λ s n. (got bs, s);
  recv_now = λ s n. (failed, true, s);
  sendmsg = λ s out. (pos (length out), s + 1);
}

abbrev failing : Tcp
failing = record {
  State = ℕ;
  recv = λ s n. (failed, s);
  recv_now = λ s n. (failed, false, s);
  sendmsg = λ s out. (pos (length out), s + 1);
}

recv_all_eof_example : recv_all (answering []) 1000 0 (pos 10) (1 ∷ 2 ∷ []) 2 ≡ none
recv_all_eof_example =
    recv_all_eof (answering []) 1000 0 10 2 (1 ∷ 2 ∷ []) (λ n. refl) (omega arith) (omega arith)

failing_sent : mpa_send_rr failing 0 [] true ≡ (pos 20, 1)
unfolding mpa_send_rr le_bytes
failing_sent = refl

connect_after_failure_example : mpa_client_connect failing 0 5 [] true true ≡ (pos 0, 0, 1)
connect_after_failure_example =
    connect_after_failure failing 0 1 1 5 20 [] true true failing_sent refl

reply_sent : mpa_send_rr (answering (plain mpa_key_req)) 0 [] false ≡ (pos 20, 1)
unfolding mpa_send_rr le_bytes
reply_sent = refl

mpa_server_accept_example :
    mpa_server_accept (answering (plain mpa_key_req)) 0 5 [] true true ≡ (pos 0, 1, 1)
mpa_server_accept_example =
    mpa_server_accept_lem (answering (plain mpa_key_req)) 0 0 0 1 5 20 [] true true refl refl
      reply_sent
