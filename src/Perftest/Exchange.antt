-- ===== src/Perftest/Exchange.antt =====
-- The messages by which two benchmarks tell each other of their buffers (perftest/perftest.cpp). What
-- the stream's threads and the other machine do between two polls is the parameter `others`, and
-- what they do during `sync_with_remote`, which exchanges a word on a socket of its own, is `sync`.
use soft_ui_warp.Prelude.{ℕ, zero, suc, ◌+◌, Option, none, some, List, [], ◌∷◌, ◌++◌, ℤ, pos}
use soft_ui_warp.Memory.{Memory, load}
use soft_ui_warp.Wire.{le_bytes, from_le}
use soft_ui_warp.Queue.{ConcurrentQueue}
use soft_ui_warp.Tcp.{Tcp}
use soft_ui_warp.WorkQueue.{send, WorkCompletion, to_u32, SgList, own, read_resp_sg, SendWr, RecvWr}
use soft_ui_warp.Rdmap.{rdmap_send, rdma_post_recv}
use soft_ui_warp.Rdmap.Threads.{Process, take_one, and_polled}
use soft_ui_warp.Perftest.Requests.{SendData}
use soft_ui_warp.Perftest.Iterations.{to_int, check_wc}

-- `WC_SEND`.
abbrev pub wc_send : ℕ
wc_send = 3

-- `struct send_data` in memory, its size, and what a memory holds.
abbrev pub send_data_size : ℕ
send_data_size = 24

unfoldable pub send_data_bytes : SendData → List ℕ
send_data_bytes sd = le_bytes 8 sd.offset ++ (le_bytes 8 sd.stag ++ le_bytes 8 sd.size)

unfoldable pub send_data_at : Memory → ℕ → SendData
send_data_at mem a = record {
  offset = from_le (load mem a 8);
  stag = from_le (load mem (a + 8) 8);
  size = from_le (load mem (a + 16) 8);
}

-- A list whose first entry gets an address and a length; its key stays.
unfoldable pub set_buffer : SgList → ℕ → ℕ → SgList
set_buffer read_resp_sg at len = read_resp_sg
set_buffer (own []) at len = own []
set_buffer (own (sg ∷ sgs)) at len = own (record sg { addr = at; len = len } ∷ sgs)

-- The same for a receive request.
unfoldable pub set_recv_buffer : RecvWr → ℕ → ℕ → RecvWr
set_recv_buffer wr at len = elim wr.sg_list [
  | [] ↦ wr
  | sg ∷ sgs ↦ record wr { sg_list = record sg { addr = at; len = len } ∷ sgs }
]

-- The requests of `perftest_run`; nothing sets the key, the tag and the address of their entries.
abbrev pub info_send_wr : ℕ → SendWr
info_send_wr lkey = record {
  wr_id = 1;
  sg_list = own (record { addr = 0; len = 0; lkey = lkey } ∷ []);
  opcode = send;
  invalidate_rkey = 0;
  remote_addr = 0;
  rkey = 0;
}

abbrev pub info_recv_wr : ℕ → RecvWr
info_recv_wr lkey = record {
  wr_id = 1901;
  sg_list = record { addr = 0; len = 0; lkey = lkey } ∷ [];
}

module _ (cq : ConcurrentQueue) {tcp : Tcp} (others sync : Process cq tcp → Process cq tcp) where
  -- `do { suc = cqq->try_dequeue(wc); } while (!suc)`, with `others` between two polls.
  unfoldable pub await_one : ℕ → Process cq tcp → Option (WorkCompletion × Process cq tcp)
  await_one zero p = none
  await_one (suc fuel) p =
      let (found, st) = take_one cq p.stream p.stream.send_cq in
      let p' : Process cq tcp = record p { stream = st; polled = and_polled found p.polled } in
      elim found [ some wc ↦ some (wc, p') | none ↦ await_one fuel (others p') ]

  -- `rdmap_send_data`: the result is that of `rdmap_send`, not of the completion.
  unfoldable pub rdmap_send_data : ℕ → ℕ → ℕ → SendWr → Process cq tcp → Option (ℤ × Process cq tcp)
  unfolding await_one set_buffer
  rdmap_send_data fuel at len wr p =
      let wr' = record wr { sg_list = set_buffer wr.sg_list at (to_u32 (pos len)) } in
      let (pushed, st) = rdmap_send cq p.stream wr' in
      elim (await_one fuel (record p { stream = st; asked = wr' ∷ p.asked })) [
        | none ↦ none
        | some (wc, p') ↦ some (to_int pushed, p')
      ]

  unfoldable pub rdmap_recv_issue : ℕ → ℕ → RecvWr → Process cq tcp → Process cq tcp
  unfolding set_recv_buffer
  rdmap_recv_issue at len wr p =
      let wr' = set_recv_buffer wr at (to_u32 (pos len)) in
      record p { stream = rdma_post_recv cq p.stream wr'; awaited = wr' ∷ p.awaited }

  -- `rdmap_recv_ack`, which polls the completion queue that the two work queues share.
  unfoldable pub rdmap_recv_ack : ℕ → Process cq tcp → Option (ℤ × Process cq tcp)
  unfolding await_one check_wc
  rdmap_recv_ack fuel p = elim (await_one fuel p) [
    | none ↦ none
    | some (wc, p') ↦ some (check_wc wc_send wc, p')
  ]

  -- The two machines tell each other of their buffers; both do the same. `sync_with_remote` comes
  -- when the receive is posted. Results are only logged.
  unfoldable pub exchange : ℕ → ℕ → ℕ → ℕ → Process cq tcp → Option (ℤ × Process cq tcp)
  unfolding rdmap_send_data rdmap_recv_issue rdmap_recv_ack
  exchange fuel mine_at their_at lkey p =
      let p₁ = sync (rdmap_recv_issue their_at send_data_size (info_recv_wr lkey) p) in
      elim (rdmap_send_data fuel mine_at send_data_size (info_send_wr lkey) p₁) [
        | none ↦ none
        | some (sent, p₂) ↦ rdmap_recv_ack fuel p₂
      ]
