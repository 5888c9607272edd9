-- ===== src/Perftest/Bandwidth.antt =====
-- The write benchmark's client (perftest/write_bw.cpp) on the stream's send loop (suiw/rdmap/rdmap.cpp).
use soft_ui_warp.Prelude.{
  ℕ, zero, suc, ◌+◌, ◌^◌, ◌<◌, ◌≡◌, refl, ap, subst, ◌∙◌, true, some, List, [], ◌∷◌, ◌++◌, arith,
  pos, pos_part, length, length-append,
}
use soft_ui_warp.Queue.{ConcurrentQueue, IsFifo}
use soft_ui_warp.Tcp.{Tcp, IsOpen}
use soft_ui_warp.WorkQueue.{to_u32, WorkCompletion, SendWr}
use soft_ui_warp.Rdmap.{rdmap_send, rdmap_write}
use soft_ui_warp.Rdmap.Handlers.{completions}
use soft_ui_warp.Memory.{Memory}
use soft_ui_warp.Perftest.{PerftestContext}
use soft_ui_warp.Perftest.Requests.{SendData, bench_wr, write_wr_end, write_bw_init}
use soft_ui_warp.Perftest.Iterations.{
  Machine, check_wc, wc_write, post_writes, reap, write_bw_client, write_bw_iter,
}
use soft_ui_warp.Perftest.Writes.{IsBusy, await_wc-IsBusy}
use soft_ui_warp.Perftest.Completed.{send_loop, IsWrite, IsWritten, AllWrites-append}

empty {ℓ} : {A : Type ℓ} (xs : List A) → length xs ≡ 0 → xs ≡ []
empty [] e = refl
empty (x ∷ xs) e = absurd (omega (arith, e))

-- A completion of a write done passes the test.
check_wc-IsWritten : (w : WorkCompletion) → IsWritten w → check_wc wc_write w ≡ pos 0
unfolding check_wc
check_wc-IsWritten w h = ground (arith, h.0, h.1)

module _ (cq : ConcurrentQueue) {tcp : Tcp} (fifo : IsFifo cq) (net : IsOpen tcp) where
  -- As many completions are reaped as are asked for and under way.
  reap-IsBusy :
      (fuel n k : ℕ) (m : Machine cq tcp)
      → IsBusy cq fifo net (n + k) m
      → (m' : Machine cq tcp) × (reap cq (send_loop cq) (suc (suc fuel)) wc_write n m
          ≡ some (pos 0, m'))
        × IsBusy cq fifo net k m'
  unfolding reap
  reap-IsBusy fuel zero k m h =
      (m, refl, subst (λ i. IsBusy cq fifo net i m) (let z : zero + k ≡ k = omega arith in z) h)
  reap-IsBusy fuel (suc n) k m h =
      let h' : IsBusy cq fifo net (suc (n + k)) m =
        subst (λ i. IsBusy cq fifo net i m) (let z : suc n + k ≡ suc (n + k) = omega arith in z)
          h in
      let (w, m₁, ran, good, busy) = await_wc-IsBusy cq fifo net fuel (n + k) m h' in
      let (m', ran', rest) = reap-IsBusy fuel n k m₁ busy in
      (m', ground (arith, ran, ran', check_wc-IsWritten w good), rest)

  -- The machine when a request has been put on the send queue.
  abbrev with_posted : Machine cq tcp → SendWr → Machine cq tcp
  with_posted m wr = record m { stream = (rdmap_send cq m.stream wr).1 }

  with_posted-IsBusy :
      (k : ℕ) (wr : SendWr) (m : Machine cq tcp)
      → IsWrite wr
      → IsBusy cq fifo net k m
      → IsBusy cq fifo net (suc k) (with_posted m wr)
  unfolding rdmap_send
  with_posted-IsBusy k wr m w h = record {
    wrs = h.wrs ++ wr ∷ [];
    wcs = h.wcs;
    on_queue = fifo.items-enqueue SendWr m.stream.send_q wr ∙ ap (λ q. q ++ wr ∷ []) h.on_queue;
    to_poll = h.to_poll;
    all_writes = AllWrites-append h.wrs (wr ∷ []) h.all_writes (w, tt);
    all_written = h.all_written;
    together = omega (arith, h.together, length-append h.wrs (wr ∷ []));
  }

  write_posted :
      (wr : SendWr) (m : Machine cq tcp)
      → IsWrite wr
      → rdmap_write cq m.stream wr ≡ some (true, (with_posted m wr).stream)
  unfolding rdmap_write rdmap_send
  write_posted wr m w = ground (arith, w.is_write, fifo.enqueued SendWr m.stream.send_q wr)

  -- Posting writes puts them under way.
  post_writes-IsBusy :
      (n k : ℕ) (wr : SendWr) (m : Machine cq tcp)
      → IsWrite wr
      → IsBusy cq fifo net k m
      → (m' : Machine cq tcp) × (post_writes cq (send_loop cq) n wr m ≡ some (pos 0, m'))
        × IsBusy cq fifo net (n + k) m'
  unfolding post_writes
  post_writes-IsBusy zero k wr m w h =
      (m, refl, subst (λ i. IsBusy cq fifo net i m) (let z : k ≡ zero + k = omega arith in z) h)
  post_writes-IsBusy (suc n) k wr m w h =
      let (m', ran, busy) =
        post_writes-IsBusy n (suc k) wr (with_posted m wr) w (with_posted-IsBusy k wr m w h) in
      (
        m',
        ground (arith, write_posted wr m w, ran),
        subst (λ i. IsBusy cq fifo net i m') (let z : n + suc k ≡ suc n + k = omega arith in z)
            busy,
      )

  -- The iteration on any two writes.
  iter_succeeds :
      (fuel buf : ℕ) (c : PerftestContext) (wr wr_end : SendWr) (m : Machine cq tcp)
      → c.is_client ≡ true
      → IsWrite wr
      → IsWrite wr_end
      → IsBusy cq fifo net 0 m
      → (m' : Machine cq tcp) × (write_bw_iter cq (send_loop cq) (suc (suc fuel)) c buf wr wr_end m
          ≡ some (pos 0, m'))
        × (fifo.items SendWr m'.stream.send_q ≡ [])
        × (completions cq fifo m'.stream m'.stream.send_cq ≡ [])
  unfolding write_bw_iter write_bw_client
  iter_succeeds fuel buf c wr wr_end m client w w_end h =
      let n = pos_part c.max_reqs in
      let (m₁, posted, busy₁) = post_writes-IsBusy n 0 wr m w h in
      let (m₂, reaped, busy₂) = reap-IsBusy fuel n 0 m₁ busy₁ in
      let (m₃, last, busy₃) =
        reap-IsBusy fuel 1 0 (with_posted m₂ wr_end) (with_posted-IsBusy 0 wr_end m₂ w_end busy₂) in
      (
        m₃,
        ground (arith, client, posted, reaped, write_posted wr_end m₂ w_end, last),
        busy₃.on_queue ∙ empty busy₃.wrs (omega (arith, busy₃.together)),
        busy₃.to_poll ∙ empty busy₃.wcs (omega (arith, busy₃.together)),
      )

  -- The two requests of the benchmark are writes.
  write_bw_init-IsWrite :
      (n buf at lstag : ℕ) (c : PerftestContext) (sd : SendData) (mem : Memory)
      → c.buf_size ≡ pos n
      → 0 < n
      → n < 2 ^ 31
      → let (wr, wr_end, filled) = write_bw_init c buf at lstag sd mem in
        IsWrite wr × IsWrite wr_end
  unfolding write_bw_init bench_wr write_wr_end
  write_bw_init-IsWrite n buf at lstag c sd mem size some_bytes fits = (
    record {
      sgs = record { addr = buf; len = to_u32 c.buf_size; lkey = lstag } ∷ [];
      is_write = refl;
      is_own = refl;
      some_bytes =
          (let e : to_u32 c.buf_size ≡ n = ap to_u32 size ∙ omega (arith, fits) in
            ground (arith, e, some_bytes, fits));
    },
    record {
      sgs = record { addr = at; len = 4; lkey = 0 } ∷ [];
      is_write = refl;
      is_own = refl;
      some_bytes = omega arith;
    },
  )

  -- On a connection that takes what it is given, and with a round of the send loop between two
  -- polls, an iteration of the write benchmark's client, with the requests that its `init` made and
  -- no work under way, gives 0 and ends with none under way: of every write that it posts, the last
  -- one included, it sees the completion. Two polls for each are enough. The buffer must have a byte
  -- and an `int` count it.
  pub write_bw_iter_succeeds :
      (fuel n buf at lstag : ℕ) (c : PerftestContext) (sd : SendData) (mem : Memory)
      (m : Machine cq tcp)
      → c.is_client ≡ true
      → c.buf_size ≡ pos n
      → 0 < n
      → n < 2 ^ 31
      → fifo.items SendWr m.stream.send_q ≡ []
      → completions cq fifo m.stream m.stream.send_cq ≡ []
      → let (wr, wr_end, filled) = write_bw_init c buf at lstag sd mem in
        (m' : Machine cq tcp) × (write_bw_iter cq (send_loop cq) (suc (suc fuel)) c buf wr wr_end m
          ≡ some (pos 0, m'))
        × (fifo.items SendWr m'.stream.send_q ≡ [])
        × (completions cq fifo m'.stream m'.stream.send_cq ≡ [])
  write_bw_iter_succeeds fuel n buf at lstag c sd mem m client size some_bytes fits no_work
        nothing =
      let (w, w_end) = write_bw_init-IsWrite n buf at lstag c sd mem size some_bytes fits in
      iter_succeeds fuel buf c _ _ m client w w_end (record {
        wrs = [];
        wcs = [];
        on_queue = no_work;
        to_poll = nothing;
        all_writes = tt;
        all_written = tt;
        together = refl;
      })
