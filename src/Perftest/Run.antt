-- ===== src/Perftest/Run.antt =====
-- The frame of the benchmarks (perftest/perftest.cpp): its set-up, the loop of iterations, the notice
-- at the end, and the way out of each failure. What the operating system gives to `mmap` and
-- `create_tcp_connection`, the clock, and the log are left to parameters or left out.
use soft_ui_warp.Prelude.{
  ℕ, zero, suc, ◌+◌, ◌-◌, ◌%◌, ◌^◌, Bool, true, false, not, Option, none, some, List, [],
  if◌then◌else◌, ℤ, pos, pos_part, ltb_ℤ, ◌==ℤ◌, to_size,
}
use soft_ui_warp.Memory.{Memory, load, poke}
use soft_ui_warp.Wire.{le_bytes, from_le}
use soft_ui_warp.Queue.{ConcurrentQueue}
use soft_ui_warp.Tcp.{Tcp}
use soft_ui_warp.Mpa.Connect.{mpa_client_connect, mpa_server_accept}
use soft_ui_warp.Ddp.{TaggedBuffer}
use soft_ui_warp.WorkQueue.{SendWr, RecvWr, create_cq}
use soft_ui_warp.Rdmap.{rdma_register, rdmap_init_stream}
use soft_ui_warp.Rdmap.SendLoop.{SendLocals}
use soft_ui_warp.Rdmap.RecvLoop.{RecvLocals}
use soft_ui_warp.Rdmap.Threads.{Process}
use soft_ui_warp.Perftest.{PerftestContext, Parsed, returns_0, returns_1, exits}
use soft_ui_warp.Perftest.Requests.{SendData}
use soft_ui_warp.Perftest.Exchange.{
  send_data_bytes, send_data_at, info_send_wr, info_recv_wr, rdmap_send_data, rdmap_recv_issue,
  rdmap_recv_ack, exchange,
}

-- How `perftest_run` ends: it has returned, or left the program, before there was a stream; or it
-- has gone through its cleanup, after a failed `init` or iteration or with the total time.
pub data Ended (cq : ConcurrentQueue) (tcp : Tcp) : Type 0 where
  left_early : Ended cq tcp
  init_failed : Process cq tcp → Ended cq tcp
  iter_failed : Process cq tcp → Ended cq tcp
  completed : ℕ → Process cq tcp → Ended cq tcp

-- Where the variables of `perftest_run` are: `my_sd`, `their_sd` and `total_ns`.
pub record Places : Type 0 where
  pub mine_at : ℕ
  pub their_at : ℕ
  pub total_at : ℕ

-- What the machine gives to the set-up: whether `mmap` gives a buffer, and where; the descriptors of
-- the two connections; the stream's attribute `pd`, which nothing sets; the socket; the memory; the
-- addresses that `malloc` gives to the stream; and the variables of its two loops.
pub record Given (tcp : Tcp) : Type 0 where
  pub mapped : Bool
  pub buf : ℕ
  pub sockfd : ℤ
  pub sync_sock : ℤ
  pub pd : ℕ
  pub sock : tcp.State
  pub mem : Memory
  pub read_addrs : List ℕ
  pub send_locals : SendLocals
  pub recv_locals : RecvLocals

-- The stream on its queues, of which both work queues share the completion queue, before anything is
-- posted.
unfoldable pub bench_process :
    (cq : ConcurrentQueue) {tcp : Tcp} → PerftestContext → Given tcp → tcp.State → Process cq tcp
bench_process cq c g sock =
    let max = pos_part c.max_reqs + 2 in
    record {
      stream =
          rdmap_init_stream cq sock g.mem (pos_part g.sockfd) g.pd (cq.new SendWr max)
            (cq.new RecvWr max) (λ i. create_cq cq max) 0 0 g.read_addrs;
      send_locals = g.send_locals;
      recv_locals = g.recv_locals;
      receiving = true;
      send_in_round = false;
      recv_in_round = false;
      asked = [];
      awaited = [];
      polled = [];
    }

-- A store of the program's own.
abbrev pub stores :
    {cq : ConcurrentQueue} {tcp : Tcp} → Process cq tcp → ℕ → List ℕ → Process cq tcp
stores p at bs = record p { stream = record (p.stream) { mem = poke p.stream.mem at bs } }

module _ (cq : ConcurrentQueue) {tcp : Tcp} (others sync joined : Process cq tcp → Process cq tcp)
    (nanos : Process cq tcp → ℕ) where
  -- `rdmap_kill_stream`: the loops are told to end, and `joined` is what they do until they have.
  unfoldable pub rdmap_kill_stream : Process cq tcp → Process cq tcp
  rdmap_kill_stream p = joined (record p { stream = record (p.stream) { connected = false } })

  -- The `for` over the iterations: whether all succeeded, the total time, and the machine.
  unfoldable pub run_iters :
      (Process cq tcp → Option (ℤ × Process cq tcp))
      → ℕ
      → ℕ
      → Process cq tcp
      → Option (Bool × ℕ × Process cq tcp)
  run_iters test_iter zero total p = some (true, total, p)
  run_iters test_iter (suc n) total p =
      let p₁ = sync p in
      elim (test_iter p₁) [
        | none ↦ none
        | some (ret, p₂) ↦
            let took = (nanos p₂ + 2 ^ 64 - nanos p₁) % 2 ^ 64 in
            let rest = run_iters test_iter n ((total + took) % 2 ^ 64) p₂ in
            if ret ==ℤ pos 0 then rest else some (false, total, p₂)
      ]

  -- The server tells the client the total time; the results of its calls are only logged.
  unfoldable pub notice :
      ℕ → PerftestContext → ℕ → ℕ → ℕ → Process cq tcp → Option (ℕ × Process cq tcp)
  notice fuel c total_at lkey total p =
      let p' = stores p total_at (le_bytes 8 total) in
      elim c.is_client [
        | true ↦
            let p₁ = sync (rdmap_recv_issue cq others sync total_at 8 (info_recv_wr lkey) p') in
            elim (rdmap_recv_ack cq others sync fuel p₁) [
              | none ↦ none
              | some (ret, p₂) ↦ some (from_le (load p₂.stream.mem total_at 8), p₂)
            ]
        | false ↦
            let wr = record (info_send_wr lkey) { wr_id = 234 } in
            elim (rdmap_send_data cq others sync fuel total_at 8 wr (sync p')) [
              | none ↦ none
              | some (ret, p₁) ↦ some (from_le (load p₁.stream.mem total_at 8), p₁)
            ]
      ]

  module _ (test_init : PerftestContext → ℕ → SendData → Process cq tcp → ℤ × Process cq tcp)
      (test_iter : Process cq tcp → Option (ℤ × Process cq tcp))
      (test_fini : PerftestContext → ℕ → Process cq tcp → Process cq tcp) where
    -- From the registered buffer on, `lstag` its tag.
    unfoldable pub run_benchmark :
        ℕ → PerftestContext → Places → ℕ → ℕ → ℕ → Process cq tcp → Option (Ended cq tcp)
    run_benchmark fuel c places lkey buf lstag p =
        let mine : SendData = record { offset = buf; stag = lstag; size = to_size c.buf_size } in
        let p₀ = stores p places.mine_at (send_data_bytes mine) in
        elim (exchange cq others sync fuel places.mine_at places.their_at lkey p₀) [
          | none ↦ none
          | some (ret, p₁) ↦
              let (started, p₂) =
                test_init c lstag (send_data_at p₁.stream.mem places.their_at) p₁ in
              if started ==ℤ pos 0
              then elim (run_iters test_iter (pos_part c.iters) 0 p₂) [
                | none ↦ none
                | some (false, total, p₃) ↦ some (iter_failed (rdmap_kill_stream p₃))
                | some (true, total, p₃) ↦ elim (notice fuel c places.total_at lkey total p₃) [
                  | none ↦ none
                  | some (total', p₄) ↦
                      some (completed total' (rdmap_kill_stream (test_fini c total' p₄)))
                ]
              ]
              else some (init_failed (rdmap_kill_stream p₂))
        ]

    -- `perftest_run`, on what `argparse` gave.
    unfoldable pub perftest_run : ℕ → Places → ℕ → Given tcp → Parsed → Option (Ended cq tcp)
    perftest_run fuel places lkey g exits = some left_early
    perftest_run fuel places lkey g returns_1 = some left_early
    perftest_run fuel places lkey g (returns_0 c) =
        let shake =
          if c.is_client
          then mpa_client_connect tcp g.sock 0 [] false true
          else mpa_server_accept tcp g.sock 0 [] false true in
        let p = bench_process cq c g shake.2 in
        let buffer : TaggedBuffer = record {
          stag = record { tag = 0; pd_id = 0 };
          buf_addr = g.buf;
          len = to_size c.buf_size;
          access_ctrl = 0;
        } in
        let (registered, st) = rdma_register cq p.stream buffer in
        let p' : Process cq tcp = record p { stream = st } in
        let run = run_benchmark fuel c places lkey g.buf registered.stag.tag p' in
        if not g.mapped
        then some left_early
        else if ltb_ℤ g.sockfd (pos 0)
        then some left_early
        else if ltb_ℤ g.sync_sock (pos 0)
        then some left_early
        else run
