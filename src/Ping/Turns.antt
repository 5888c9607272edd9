-- ===== src/Ping/Turns.antt =====
-- The turns of the example client and its server (fake_ping_client.cpp): how the messages of its main
-- thread keep to the answers that its other thread takes.
use soft_ui_warp.Prelude.{
  ℕ, ◌+◌, ◌≤◌, ◌≡◌, refl, sym, ap, subst, ◌∙◌, ◌≢◌, inl, inr, Bool, false, ◌&&◌, some, List, arith,
  ◌==◌, Bool-cases, count_if,
}
use soft_ui_warp.Queue.{ConcurrentQueue}
use soft_ui_warp.Tcp.{Tcp}
use soft_ui_warp.WorkQueue.{WorkCompletion}
use soft_ui_warp.Rdmap.{rdma_post_recv, rdmap_send}
use soft_ui_warp.Rdmap.Threads.{and_polled}
use soft_ui_warp.Ping.{PingContext, wc_send, succeeded, cq_round, cq_thread_start}
use soft_ui_warp.Ping.Main.{
  ping_send_wr, Given, MainAt, ThreadAt, tests, fills, sends_source, awaits_read, sends_sink,
  awaits_write, ended, starts, checks, polls, left, Client, set_up_by, set_up, fill_buffer,
  send_ping, await_sem, run_main_at, main_step, run_thread_at, thread_step, Step, main_runs,
  thread_runs, stream_runs, Reach, here, later,
}

-- The completion of a plain send that has filled the thread's receive.
abbrev pub is_go_ahead : WorkCompletion → Bool
is_go_ahead wc = (wc.opcode == wc_send) && (wc.wr_id == 1901) && succeeded wc.status

-- The messages of this ping that are sent, and those that were answered and waited for.
abbrev pub sent_at : MainAt → ℕ
sent_at tests = 0
sent_at fills = 0
sent_at sends_source = 0
sent_at awaits_read = 1
sent_at sends_sink = 1
sent_at awaits_write = 2
sent_at ended = 0

abbrev pub answered_at : MainAt → ℕ
answered_at tests = 0
answered_at fills = 0
answered_at sends_source = 0
answered_at awaits_read = 0
answered_at sends_sink = 1
answered_at awaits_write = 1
answered_at ended = 0

sent_at-answered_at : (at : MainAt) → sent_at at ≤ answered_at at + 1
sent_at-answered_at tests = omega arith
sent_at-answered_at fills = omega arith
sent_at-answered_at sends_source = omega arith
sent_at-answered_at awaits_read = omega arith
sent_at-answered_at sends_sink = omega arith
sent_at-answered_at awaits_write = omega arith
sent_at-answered_at ended = omega arith

module _ (cq : ConcurrentQueue) {tcp : Tcp} where
  -- The messages sent are those of the pings; the answers taken are those waited for and those that
  -- the semaphore still holds; and the loop ends only on a stream that is not connected.
  pub record TakesTurns (c : Client cq tcp) : Type 0 where
    pub in_turn : c.sends ≡ c.ping + c.ping + sent_at c.main_at
    pub answered :
        c.ping + c.ping + answered_at c.main_at + c.context.sem ≡ count_if is_go_ahead c.polled
    pub ends : c.main_at ≡ ended → c.context.stream.connected ≡ false

  send_ping-main_at :
      (d_at : ℕ) (next : MainAt) (c : Client cq tcp) → (send_ping cq d_at next c).main_at ≡ next
  unfolding send_ping rdmap_send
  send_ping-main_at d_at next c =
      elim (Bool-cases (rdmap_send cq c.context.stream (ping_send_wr d_at)).0) [
        | inl t ↦ rw t refl
        | inr f ↦ rw f refl
      ]

  send_ping-TakesTurns :
      (d_at : ℕ) (at next : MainAt) (c : Client cq tcp)
      → c.main_at ≡ at
      → sent_at next ≡ sent_at at + 1
      → answered_at next ≡ answered_at at
      → TakesTurns c
      → TakesTurns (send_ping cq d_at next c)
  send_ping-TakesTurns d_at at next c e more same h =
      let to = send_ping-main_at d_at next c in
      let now : sent_at c.main_at ≡ sent_at at = ap sent_at e in
      let now' : answered_at c.main_at ≡ answered_at at = ap answered_at e in
      record {
        in_turn = unfold send_ping in rw to (ground (arith, h.in_turn, more, now));
        answered = unfold send_ping in rw to (ground (arith, h.answered, same, now'));
        ends = λ z. absurd (ground (arith, more, ap sent_at (sym to ∙ z)));
      }

  await_sem-TakesTurns :
      (next c : Client cq tcp)
      → next.ping + next.ping + answered_at next.main_at
        ≡ c.ping + c.ping + answered_at c.main_at + 1
      → next.ping + next.ping + sent_at next.main_at ≡ c.ping + c.ping + sent_at c.main_at
      → next.sends ≡ c.sends
      → next.polled ≡ c.polled
      → next.main_at ≢ ended
      → TakesTurns c
      → TakesTurns (await_sem cq next c)
  unfolding await_sem
  await_sem-TakesTurns next c more same sends polled on h = elim (Bool-cases (c.context.sem == 0)) [
    | inl t ↦ rw t h
    | inr f ↦ rw f record {
      in_turn = ground (arith, h.in_turn, same, sends);
      answered = rw polled (ground (arith, h.answered, more, f));
      ends = λ z. absurd (on z);
    }
  ]

  run_main_at-TakesTurns :
      (snprintf : ℕ → List ℕ) (buf d_at : ℕ) (at : MainAt) (c : Client cq tcp)
      → c.main_at ≡ at
      → TakesTurns c
      → TakesTurns (run_main_at cq snprintf buf d_at at c)
  unfolding run_main_at
  run_main_at-TakesTurns snprintf buf d_at tests c e h =
      elim (Bool-cases c.context.stream.connected) [
        | inl t ↦ rw t record {
          in_turn = ground (arith, e, h.in_turn);
          answered = ground (arith, e, h.answered);
          ends = λ z. absurd (ground (arith, z));
        }
        | inr f ↦ rw f record {
          in_turn = ground (arith, e, h.in_turn);
          answered = ground (arith, e, h.answered);
          ends = λ z. refl;
        }
      ]
  run_main_at-TakesTurns snprintf buf d_at fills c e h =
      unfold fill_buffer in
      record {
        in_turn = ground (arith, e, h.in_turn);
        answered = ground (arith, e, h.answered);
        ends = λ z. absurd (ground (arith, z));
      }
  run_main_at-TakesTurns snprintf buf d_at sends_source c e h =
      send_ping-TakesTurns d_at sends_source awaits_read c e refl refl h
  run_main_at-TakesTurns snprintf buf d_at awaits_read c e h =
      let s = ap sent_at e in
      let a = ap answered_at e in
      await_sem-TakesTurns (record c { main_at = sends_sink }) c (omega (arith, a))
        (omega (arith, s)) refl refl (λ z. ground (arith, z)) h
  run_main_at-TakesTurns snprintf buf d_at sends_sink c e h =
      send_ping-TakesTurns d_at sends_sink awaits_write c e refl refl h
  run_main_at-TakesTurns snprintf buf d_at awaits_write c e h =
      let s = ap sent_at e in
      let a = ap answered_at e in
      await_sem-TakesTurns (record c { main_at = tests; ping = c.ping + 1 }) c (omega (arith, a))
        (omega (arith, s)) refl refl (λ z. ground (arith, z)) h
  run_main_at-TakesTurns snprintf buf d_at ended c e h = h

  -- A round of the second thread posts the semaphore for an answer, and connects no stream.
  cq_round-sem :
      (garbage : ℕ) (p : PingContext cq tcp) (ws : List WorkCompletion)
      → let c = p.stream.cqs p.stream.recv_cq in
        let found = (cq.try_dequeue WorkCompletion c.q).0 in
        let p' = (cq_round cq garbage p).1 in
        (p'.sem + count_if is_go_ahead ws ≡ p.sem + count_if is_go_ahead (and_polled found ws))
        × (p.stream.connected ≡ false → p'.stream.connected ≡ false)
  unfolding cq_round rdma_post_recv count_if
  cq_round-sem garbage p ws = ground arith

  run_thread_at-TakesTurns :
      (garbage : ℕ) (at : ThreadAt) (c : Client cq tcp)
      → TakesTurns c
      → TakesTurns (run_thread_at cq garbage at c)
  unfolding run_thread_at
  run_thread_at-TakesTurns garbage starts c h =
      unfold cq_thread_start rdma_post_recv in
      record { in_turn = h.in_turn; answered = h.answered; ends = h.ends }
  run_thread_at-TakesTurns garbage checks c h = record {
    in_turn = h.in_turn;
    answered = h.answered;
    ends = h.ends;
  }
  run_thread_at-TakesTurns garbage polls c h =
      let (posted, off) = cq_round-sem garbage c.context c.polled in
      record {
        in_turn = h.in_turn;
        answered = omega (arith, posted, h.answered);
        ends = λ z. off (h.ends z);
      }
  run_thread_at-TakesTurns garbage left c h = h

  module _ (snprintf : ℕ → List ℕ) (buf d_at garbage : ℕ) where
    Step-TakesTurns :
        {c d : Client cq tcp} → Step cq snprintf buf d_at garbage c d → TakesTurns c → TakesTurns d
    unfolding main_step thread_step
    Step-TakesTurns (main_runs {c}) h = run_main_at-TakesTurns snprintf buf d_at c.main_at c refl h
    Step-TakesTurns (thread_runs {c}) h = run_thread_at-TakesTurns garbage c.thread_at c h
    Step-TakesTurns (stream_runs st off) h = record {
      in_turn = h.in_turn;
      answered = h.answered;
      ends = λ z. off (h.ends z);
    }

    Reach-TakesTurns :
        {c d : Client cq tcp} → Reach cq snprintf buf d_at garbage c d → TakesTurns c → TakesTurns d
    Reach-TakesTurns here h = h
    Reach-TakesTurns (later r s) h = Step-TakesTurns s (Reach-TakesTurns r h)

  set_up_by-TakesTurns :
      (close : tcp.State → tcp.State) (g : Given tcp) → TakesTurns (set_up_by cq close g)
  unfolding set_up_by count_if
  set_up_by-TakesTurns close g = record {
    in_turn = refl;
    answered = refl;
    ends = λ z. absurd (ground (arith, z));
  }

  -- After the set-up, whatever the order of the steps of the two threads and of the stream's own: the
  -- main thread has sent two messages for each ping that is over and at most two of the ping that it
  -- is at, one before each wait; the semaphore holds the successful completions of plain sends that
  -- fill the thread's receive, less those that were waited for, two for each ping that is over; and
  -- the loop has ended only if the stream is not connected. So there is never more than one message
  -- that no such completion answers.
  pub turns_taken :
      (snprintf : ℕ → List ℕ) (garbage : ℕ) (close : tcp.State → tcp.State) (g : Given tcp)
      (c d : Client cq tcp)
      → set_up cq close g ≡ some c
      → Reach cq snprintf g.buf g.d_at garbage c d
      → (d.sends ≡ d.ping + d.ping + sent_at d.main_at)
        × (d.ping + d.ping + answered_at d.main_at + d.context.sem ≡ count_if is_go_ahead d.polled)
        × (d.main_at ≡ ended → d.context.stream.connected ≡ false)
        × (d.sends ≤ count_if is_go_ahead d.polled + 1)
  unfolding set_up
  turns_taken snprintf garbage close g c d made reached =
      let from : set_up_by cq close g ≡ c = ground (arith, made) in
      let h =
        Reach-TakesTurns snprintf g.buf g.d_at garbage reached
          (subst TakesTurns from (set_up_by-TakesTurns close g)) in
      let one : sent_at d.main_at ≤ answered_at d.main_at + 1 = sent_at-answered_at d.main_at in
      (h.in_turn, h.answered, h.ends, omega (arith, h.in_turn, h.answered, one))
