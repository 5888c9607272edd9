-- ===== src/Perftest/Told.antt =====
-- The exchange of addresses (perftest/perftest.cpp) waits twice for a completion, and does not look
-- which work it is of before the second.
use soft_ui_warp.Prelude.{
  ℕ, ◌+◌, ◌≤◌, ◌<◌, ◌≡◌, ap, ◌∙◌, ◌≢◌, ◌⊎◌, Bool, Option, none, some, [], ◌∷◌, arith, ℤ, pos_part,
  count_if,
}
use soft_ui_warp.Queue.{ConcurrentQueue, IsFifo}
use soft_ui_warp.Tcp.{Tcp}
use soft_ui_warp.WorkQueue.{WorkCompletion, SendWr, RecvWr, create_cq}
use soft_ui_warp.Rdmap.{rdmap_send, rdmap_init_stream}
use soft_ui_warp.Rdmap.Ledger.{is_sent, is_recv, is_done, held}
use soft_ui_warp.Rdmap.Threads.{
  Process, Reach, here, later, posts_send, posts_recv, IsBalanced, Reach-IsBalanced,
}
use soft_ui_warp.Perftest.{PerftestContext}
use soft_ui_warp.Perftest.Iterations.{to_int, check_wc}
use soft_ui_warp.Perftest.Exchange.{
  wc_send, await_one, rdmap_send_data, rdmap_recv_issue, rdmap_recv_ack, exchange, info_send_wr,
  info_recv_wr, set_buffer, set_recv_buffer, send_data_size,
}
use soft_ui_warp.Perftest.Run.{Given, bench_process}
use soft_ui_warp.Perftest.Waits.{IsBystander, Comes, await_one_waits, Reach-trans}

-- Completions that are no more than the two works posted are one of each.
one_of_each :
    (s : SendWr) (r : RecvWr) (w₁ w₂ : WorkCompletion)
    → s.wr_id ≢ r.wr_id
    → ((x : ℕ)
        → count_if (is_done x) (w₂ ∷ w₁ ∷ [])
          ≤ count_if (is_sent x) (s ∷ []) + count_if (is_recv x) (r ∷ []))
    → ((w₁.wr_id ≡ s.wr_id) × (w₂.wr_id ≡ r.wr_id)) ⊎ ((w₁.wr_id ≡ r.wr_id) × (w₂.wr_id ≡ s.wr_id))
unfolding count_if
one_of_each s r w₁ w₂ apart most = ground (arith, apart, most w₁.wr_id, most w₂.wr_id)

module _ (cq : ConcurrentQueue) {tcp : Tcp} (fifo : IsFifo cq) where
  -- A benchmark's new stream has posted nothing and holds nothing.
  bench_process-IsBalanced :
      (x : ℕ) (c : PerftestContext) (g : Given tcp) (sock : tcp.State)
      → IsBalanced cq fifo x (bench_process cq c g sock)
  unfolding bench_process rdmap_init_stream create_cq held count_if
  bench_process-IsBalanced x c g sock =
      let max = pos_part c.max_reqs + 2 in
      ground (
        arith,
        fifo.items-new SendWr max,
        fifo.items-new RecvWr max,
        fifo.items-new WorkCompletion max,
      )

module _ (cq : ConcurrentQueue) {tcp : Tcp} (others sync : Process cq tcp → Process cq tcp) where
  -- When the receive has been posted, the machines have met, and the send has been posted.
  abbrev pub both_posted : ℕ → ℕ → ℕ → Process cq tcp → Process cq tcp
  both_posted mine_at their_at lkey p =
      let p₁ =
        sync (rdmap_recv_issue cq others sync their_at send_data_size (info_recv_wr lkey) p) in
      let wr = info_send_wr lkey in
      let wr' = record wr { sg_list = set_buffer wr.sg_list mine_at send_data_size } in
      record p₁ { stream = (rdmap_send cq p₁.stream wr').1; asked = wr' ∷ p₁.asked }

  ack_waits :
      (tries : ℕ) (p q : Process cq tcp) (w : WorkCompletion)
      → await_one cq others sync tries p ≡ some (w, q)
      → rdmap_recv_ack cq others sync tries p ≡ some (check_wc wc_send w, q)
  unfolding rdmap_recv_ack
  ack_waits tries p q w e =
      ap (λ r. elim r [ none ↦ none | some (wc, p') ↦ some (check_wc wc_send wc, p') ]) e

  -- The exchange is two waits from there on.
  exchange_waits :
      (tries mine_at their_at lkey : ℕ) (p q₁ q₂ : Process cq tcp) (w₁ w₂ : WorkCompletion)
      → await_one cq others sync tries (both_posted mine_at their_at lkey p) ≡ some (w₁, q₁)
      → await_one cq others sync tries q₁ ≡ some (w₂, q₂)
      → exchange cq others sync tries mine_at their_at lkey p ≡ some (check_wc wc_send w₂, q₂)
  unfolding exchange rdmap_send_data
  exchange_waits tries mine_at their_at lkey p q₁ q₂ w₁ w₂ e d =
      let p₁ =
        sync (rdmap_recv_issue cq others sync their_at send_data_size (info_recv_wr lkey) p) in
      let wr = info_send_wr lkey in
      let wr' = record wr { sg_list = set_buffer wr.sg_list mine_at send_data_size } in
      let pushed = (rdmap_send cq p₁.stream wr').0 in
      let after_wait : Option (WorkCompletion × Process cq tcp) → Option (ℤ × Process cq tcp) =
        λ r. elim r [ none ↦ none | some (wc, p') ↦ some (to_int pushed, p') ] in
      let after_send : Option (ℤ × Process cq tcp) → Option (ℤ × Process cq tcp) =
        λ r. elim r [ none ↦ none | some (sent, p₂) ↦ rdmap_recv_ack cq others sync tries p₂ ] in
      ap (λ r. after_send (after_wait r)) e ∙ ack_waits tries q₁ q₂ w₂ d

module _ (cq : ConcurrentQueue) {tcp : Tcp} (fifo : IsFifo cq) (asserts : Bool) (fuel segs : ℕ)
    (others sync : Process cq tcp → Process cq tcp)
    (by_others : IsBystander cq asserts fuel segs others)
    (by_sync : IsBystander cq asserts fuel segs sync) where
  both_posted-Reach :
      (mine_at their_at lkey : ℕ) (p : Process cq tcp)
      → Reach cq asserts fuel segs p (both_posted cq others sync mine_at their_at lkey p)
  unfolding rdmap_recv_issue
  both_posted-Reach mine_at their_at lkey p =
      let wr = info_send_wr lkey in
      let issued = rdmap_recv_issue cq others sync their_at send_data_size (info_recv_wr lkey) p in
      later
        (Reach-trans
          (later here (posts_recv (set_recv_buffer (info_recv_wr lkey) their_at send_data_size)))
          (by_sync.goes issued))
        (posts_send (record wr { sg_list = set_buffer wr.sg_list mine_at send_data_size }))

  -- On a stream whose loops, memory and network do what they like in any order, but on which nothing
  -- else is posted or polled: where a completion comes after the send has been posted, and another
  -- after the first has been taken, each while the benchmark polls, the exchange of addresses ends.
  -- By then both works have been reported, each once: one of the two completions is that of the send
  -- and the other is that of the receive, in whichever order they came. The result is that of the
  -- check of the second.
  pub exchange_reports :
      (c : PerftestContext) (g : Given tcp) (sock : tcp.State) (p : Process cq tcp)
      (tries k₁ k₂ mine_at their_at lkey : ℕ)
      → Reach cq asserts fuel segs (bench_process cq c g sock) p
      → p.asked ≡ []
      → p.awaited ≡ []
      → p.polled ≡ []
      → k₁ < tries
      → k₂ < tries
      → Comes cq fifo asserts fuel segs others sync by_others k₁
          (both_posted cq others sync mine_at their_at lkey p)
      → ((w : WorkCompletion) (q : Process cq tcp)
          → await_one cq others sync tries (both_posted cq others sync mine_at their_at lkey p)
            ≡ some (w, q)
          → Comes cq fifo asserts fuel segs others sync by_others k₂ q)
      → (w₁ : WorkCompletion) × (w₂ : WorkCompletion) × (q : Process cq tcp) × (exchange cq others
            sync tries mine_at their_at lkey p
          ≡ some (check_wc wc_send w₂, q))
        × (q.polled ≡ w₂ ∷ w₁ ∷ [])
        × (((w₁.wr_id ≡ 1) × (w₂.wr_id ≡ 1901)) ⊎ ((w₁.wr_id ≡ 1901) × (w₂.wr_id ≡ 1)))
  unfolding rdmap_recv_issue bench_process
  exchange_reports c g sock p tries k₁ k₂ mine_at their_at lkey reached no_asked no_awaited
        no_polled less₁ less₂ comes₁ comes₂ =
      let posted = both_posted cq others sync mine_at their_at lkey p in
      let (w₁, q₁, ended₁, goes₁, polled₁, asked₁, awaited₁) =
        await_one_waits cq fifo asserts fuel segs others sync by_others k₁ tries posted less₁
          comes₁ in
      let (w₂, q₂, ended₂, goes₂, polled₂, asked₂, awaited₂) =
        await_one_waits cq fifo asserts fuel segs others sync by_others k₂ tries q₁ less₂
          (comes₂ w₁ q₁ ended₁) in
      let issued = rdmap_recv_issue cq others sync their_at send_data_size (info_recv_wr lkey) p in
      let wr = info_send_wr lkey in
      let sent = record wr { sg_list = set_buffer wr.sg_list mine_at send_data_size } in
      let received = set_recv_buffer (info_recv_wr lkey) their_at send_data_size in
      let all : Reach cq asserts fuel segs (bench_process cq c g sock) q₂ =
        Reach-trans reached
          (Reach-trans (both_posted-Reach mine_at their_at lkey p) (Reach-trans goes₁ goes₂)) in
      let polled : q₂.polled ≡ w₂ ∷ w₁ ∷ [] =
        polled₂ ∙ ap (◌∷◌ w₂) (polled₁ ∙ ap (◌∷◌ w₁) (by_sync.same_polled issued ∙ no_polled)) in
      let asked : q₂.asked ≡ sent ∷ [] =
        asked₂ ∙ asked₁ ∙ ap (◌∷◌ sent) (by_sync.same_asked issued ∙ no_asked) in
      let awaited : q₂.awaited ≡ received ∷ [] =
        awaited₂ ∙ awaited₁ ∙ by_sync.same_awaited issued ∙ ap (◌∷◌ received) no_awaited in
      (
        w₁,
        w₂,
        q₂,
        exchange_waits cq others sync tries mine_at their_at lkey p q₁ q₂ w₁ w₂ ended₁ ended₂,
        polled,
        one_of_each sent received w₁ w₂ (omega arith) (λ x. omega (
          arith,
          Reach-IsBalanced cq fifo x asserts fuel segs all
              (bench_process-IsBalanced cq fifo x c g sock),
          ap (count_if (is_done x)) polled,
          ap (count_if (is_sent x)) asked,
          ap (count_if (is_recv x)) awaited,
        )),
      )
