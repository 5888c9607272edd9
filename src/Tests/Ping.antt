-- ===== src/Tests/Ping.antt =====
-- Runs of the example client.
use soft_ui_warp.Prelude.{ℕ, ◌+◌, ◌≡◌, refl, ◌≢◌, ◌⊎◌, List, [], ◌∷◌, ◌++◌, arith}
use soft_ui_warp.WorkQueue.{wc_success, WorkCompletion}
use soft_ui_warp.Rdmap.{Stream, complete, rdmap_init_stream}
use soft_ui_warp.Rdmap.Ledger.{held}
use soft_ui_warp.Ping.{PingContext, continues, wc_send, ping_buffer, cq_round}
use soft_ui_warp.Ping.Fill.{char_at, places, ping_buffer_lem}
use soft_ui_warp.Ping.Receives.{cq_round_lem}
use soft_ui_warp.Tests.Data.{sender}
use soft_ui_warp.Tests.{demo_tcp, demo_queue, demo_fifo}

-- "rdma".
abbrev text : List ℕ
text = 114 ∷ 100 ∷ 109 ∷ 97 ∷ []

ping_buffer_example : ping_buffer text 121 ≡ (text ++ places (char_at 121) 0 59) ++ 0 ∷ []
ping_buffer_example = ping_buffer_lem text 121 (omega arith) (omega arith, omega arith)

abbrev received : WorkCompletion
received = record { wr_id = 1901; status = wc_success; opcode = 5; byte_len = 0; src_qp = 0 }

abbrev one_queue : Stream demo_queue demo_tcp
one_queue = record (complete demo_queue sender 0 received) { recv_cq = 0 }

abbrev pinging : PingContext demo_queue demo_tcp
pinging = record { stream = one_queue; sem = 2 }

shared : one_queue.recv_cq ≡ one_queue.send_cq
unfolding rdmap_init_stream complete
shared = refl

to_poll : (one_queue.cqs one_queue.recv_cq).q ≡ received ∷ []
unfolding rdmap_init_stream complete
to_poll = refl

cq_round_example :
    ((cq_round demo_queue 7000 pinging).0 ≡ continues)
    × (((received.opcode ≡ wc_send)
          × (held demo_queue demo_fifo 1901 (cq_round demo_queue 7000 pinging).1.stream
              ≡ held demo_queue demo_fifo 1901 one_queue)
          × ((cq_round demo_queue 7000 pinging).1.sem ≡ 3))
        ⊎ ((received.opcode ≢ wc_send)
            × (held demo_queue demo_fifo 1901 (cq_round demo_queue 7000 pinging).1.stream + 1
                ≡ held demo_queue demo_fifo 1901 one_queue)
            × ((cq_round demo_queue 7000 pinging).1.sem ≡ 2)))
cq_round_example =
    cq_round_lem demo_queue demo_fifo 7000 pinging received [] shared to_poll refl refl
