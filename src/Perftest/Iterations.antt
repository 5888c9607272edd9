-- ===== src/Perftest/Iterations.antt =====
-- One iteration of each benchmark (perftest/write_bw.cpp, read_bw.cpp, write_lat.cpp, read_lat.cpp).
-- The benchmarks wait by polling, while the stream's own threads and the other machine go on: what
-- these do between two polls is the parameter `others`. The number of polls is on fuel. The
-- checks of a build with PERFTEST_TEST, and the flushes of the cache, are left out.
use soft_ui_warp.Prelude.{
  ℕ, zero, suc, ◌+◌, ◌%◌, ◌^◌, Bool, true, false, not, Option, none, some, ◌==◌, if◌then◌else◌, ℤ,
  pos, negsuc, pos_part, ltb_ℤ,
}
use soft_ui_warp.Memory.{update, poke}
use soft_ui_warp.Wire.{le_bytes}
use soft_ui_warp.Queue.{ConcurrentQueue}
use soft_ui_warp.Tcp.{Tcp}
use soft_ui_warp.WorkQueue.{WcStatus, wc_success, WorkCompletion, SendWr}
use soft_ui_warp.Rdmap.{Stream, rdmap_write, rdmap_read}
use soft_ui_warp.Rdmap.SendLoop.{SendLocals}
use soft_ui_warp.Perftest.{PerftestContext}

-- The numbers of `enum wc_opcode` that the benchmarks test for.
abbrev pub wc_write : ℕ
wc_write = 0

abbrev pub wc_read_request : ℕ
wc_read_request = 1

-- The stream with the variables of its send loop: what the benchmark shares with the other threads.
pub record Machine (cq : ConcurrentQueue) (tcp : Tcp) : Type 0 where
  pub stream : Stream cq tcp
  pub send_locals : SendLocals

-- The `bool` of `enqueue` as the `int` that the calls return.
abbrev pub to_int : Bool → ℤ
to_int b = if b then pos 1 else pos 0

abbrev pub is_success : WcStatus → Bool
is_success s = elim s [ wc_success ↦ true | _ ↦ false ]

-- The tests on a completion: of its status, then of its operation.
unfoldable pub check_wc : ℕ → WorkCompletion → ℤ
check_wc op wc =
    if not (is_success wc.status)
    then negsuc 0
    else if not (wc.opcode == op)
    then negsuc 0
    else pos 0

module _ (cq : ConcurrentQueue) {tcp : Tcp} (others : Machine cq tcp → Machine cq tcp) where
  -- `do { ret = cq->try_dequeue(wc); } while (!ret)`.
  unfoldable pub await_wc : ℕ → Machine cq tcp → Option (WorkCompletion × Machine cq tcp)
  await_wc zero m = none
  await_wc (suc fuel) m =
      let st = m.stream in
      let c = st.cqs st.send_cq in
      let (found, q') = cq.try_dequeue WorkCompletion c.q in
      let m' : Machine cq tcp = record m {
        stream = record st { cqs = update st.cqs st.send_cq (record c { q = q' }) };
      } in
      elim found [ some wc ↦ some (wc, m') | none ↦ await_wc fuel (others m') ]

  -- The loop that posts `n` times the same write.
  unfoldable pub post_writes : ℕ → SendWr → Machine cq tcp → Option (ℤ × Machine cq tcp)
  post_writes zero wr m = some (pos 0, m)
  post_writes (suc n) wr m = elim (rdmap_write cq m.stream wr) [
    | none ↦ none
    | some (pushed, st') ↦
        let m' : Machine cq tcp = record m { stream = st' } in
        let rest = post_writes n wr m' in
        if ltb_ℤ (to_int pushed) (pos 0) then some (negsuc 0, m') else rest
  ]

  -- The loop that posts `n` reads, with the request after: its number grows.
  unfoldable pub post_reads : ℕ → SendWr → Machine cq tcp → Option (ℤ × SendWr × Machine cq tcp)
  post_reads zero wr m = some (pos 0, wr, m)
  post_reads (suc n) wr m = elim (rdmap_read cq m.stream wr) [
    | none ↦ none
    | some (pushed, st') ↦
        let m' : Machine cq tcp = record m { stream = st' } in
        let wr' = record wr { wr_id = (wr.wr_id + 1) % 2 ^ 64 } in
        let rest = post_reads n wr' m' in
        if ltb_ℤ (to_int pushed) (pos 0) then some (negsuc 0, wr', m') else rest
  ]

  -- The loop that waits for `n` completions and tests each.
  unfoldable pub reap : ℕ → ℕ → ℕ → Machine cq tcp → Option (ℤ × Machine cq tcp)
  unfolding await_wc check_wc
  reap fuel op zero m = some (pos 0, m)
  reap fuel op (suc n) m = elim (await_wc fuel m) [
    | none ↦ none
    | some (wc, m') ↦
        let rest = reap fuel op n m' in
        if ltb_ℤ (check_wc op wc) (pos 0) then some (negsuc 0, m') else rest
  ]

  -- `do { … } while (buf[i] == v)`, on the byte at `a`.
  unfoldable pub await_byte : ℕ → ℕ → ℕ → Machine cq tcp → Option (Machine cq tcp)
  await_byte zero a v m = none
  await_byte (suc fuel) a v m =
      let rest = await_byte fuel a v (others m) in if m.stream.mem a == v then rest else some m

  -- The client's side of `write_bw_iter`, of which the result of the last `rdmap_write` is not
  -- tested.
  unfoldable pub write_bw_client :
      ℕ → ℕ → SendWr → SendWr → Machine cq tcp → Option (ℤ × Machine cq tcp)
  unfolding post_writes reap
  write_bw_client fuel n wr wr_end m = elim (post_writes n wr m) [
    | none ↦ none
    | some (ret, m₁) ↦ elim (ltb_ℤ ret (pos 0)) [
      | true ↦ some (ret, m₁)
      | false ↦ elim (reap fuel wc_write n m₁) [
        | none ↦ none
        | some (ret', m₂) ↦ elim (ltb_ℤ ret' (pos 0)) [
          | true ↦ some (ret', m₂)
          | false ↦ elim (rdmap_write cq m₂.stream wr_end) [
            | none ↦ none
            | some (pushed, st) ↦ reap fuel wc_write 1 (record m₂ { stream = st })
          ]
        ]
      ]
    ]
  ]

  -- The server's side: it waits for a byte that is not 0, and clears four.
  unfoldable pub write_bw_server : ℕ → ℕ → Machine cq tcp → Option (ℤ × Machine cq tcp)
  unfolding await_byte
  write_bw_server fuel buf m = elim (await_byte fuel buf 0 m) [
    | none ↦ none
    | some m' ↦ some (
      pos 0,
      record m' { stream = record (m'.stream) { mem = poke m'.stream.mem buf (le_bytes 4 0) } },
    )
  ]

  unfoldable pub write_bw_iter :
      ℕ → PerftestContext → ℕ → SendWr → SendWr → Machine cq tcp → Option (ℤ × Machine cq tcp)
  unfolding write_bw_client write_bw_server
  write_bw_iter fuel c buf wr wr_end m = elim c.is_client [
    | true ↦ write_bw_client fuel (pos_part c.max_reqs) wr wr_end m
    | false ↦ write_bw_server fuel buf m
  ]

  -- `read_bw_iter`, with the request after, which the next iteration takes.
  unfoldable pub read_bw_iter :
      ℕ → PerftestContext → SendWr → Machine cq tcp → Option (ℤ × SendWr × Machine cq tcp)
  unfolding post_reads reap
  read_bw_iter fuel c wr m = elim c.is_client [
    | true ↦ some (pos 0, wr, m)
    | false ↦ elim (post_reads (pos_part c.max_reqs) wr m) [
      | none ↦ none
      | some (ret, wr', m₁) ↦ elim (ltb_ℤ ret (pos 0)) [
        | true ↦ some (ret, wr', m₁)
        | false ↦ elim (reap fuel wc_read_request (pos_part c.max_reqs) m₁) [
          | none ↦ none
          | some (ret', m₂) ↦ some (ret', wr', m₂)
        ]
      ]
    ]
  ]

  unfoldable pub read_lat_iter :
      ℕ → PerftestContext → SendWr → Machine cq tcp → Option (ℤ × Machine cq tcp)
  unfolding reap
  read_lat_iter fuel c wr m = elim c.is_client [
    | true ↦ some (pos 0, m)
    | false ↦ elim (rdmap_read cq m.stream wr) [
      | none ↦ none
      | some (pushed, st) ↦
          let m' : Machine cq tcp = record m { stream = st } in
          elim (ltb_ℤ (to_int pushed) (pos 0)) [
            | true ↦ some (negsuc 0, m')
            | false ↦ reap fuel wc_read_request 1 m'
          ]
    ]
  ]

  -- One half of `write_lat_iter`: to wait for a write and mark it as seen, or to write.
  unfoldable pub write_lat_half :
      ℕ → PerftestContext → ℕ → SendWr → Bool → Machine cq tcp → Option (ℤ × Machine cq tcp)
  unfolding await_byte reap
  write_lat_half fuel c buf wr role m = elim role [
    | true ↦ elim (await_byte fuel (buf + 1) (if c.is_client then 0 else 1) m) [
      | none ↦ none
      | some m' ↦
          let seen = if c.is_client then 0 else 1 in
          some (
            pos 0,
            record m' { stream = record (m'.stream) { mem = update m'.stream.mem (buf + 1) seen } },
          )
    ]
    | false ↦ elim (rdmap_write cq m.stream wr) [
      | none ↦ none
      | some (pushed, st) ↦
          let m' : Machine cq tcp = record m { stream = st } in
          elim (ltb_ℤ (to_int pushed) (pos 0)) [
            | true ↦ some (negsuc 0, m')
            | false ↦ reap fuel wc_write 1 m'
          ]
    ]
  ]

  -- `write_lat_iter`: the two halves, the waiting one first on the client.
  unfoldable pub write_lat_iter :
      ℕ → PerftestContext → ℕ → SendWr → Machine cq tcp → Option (ℤ × Machine cq tcp)
  unfolding write_lat_half
  write_lat_iter fuel c buf wr m = elim (write_lat_half fuel c buf wr c.is_client m) [
    | none ↦ none
    | some (ret, m') ↦ elim (ltb_ℤ ret (pos 0)) [
      | true ↦ some (ret, m')
      | false ↦ write_lat_half fuel c buf wr (not c.is_client) m'
    ]
  ]
