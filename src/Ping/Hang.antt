-- ===== src/Ping/Hang.antt =====
-- What a closed stream or a failed receive does to the example client (fake_ping_client.cpp): its second thread leaves
-- its loop without posting the semaphore.
use soft_ui_warp.Prelude.{
  ℕ, ◌+◌, ◌≡◌, refl, sym, ap, subst, ◌∙◌, ◌⊎◌, inl, inr, false, some, List, arith,
}
use soft_ui_warp.Queue.{ConcurrentQueue}
use soft_ui_warp.Tcp.{Tcp}
use soft_ui_warp.WorkQueue.{WorkCompletion}
use soft_ui_warp.Ping.{wc_send, succeeded, cq_round}
use soft_ui_warp.Ping.Main.{
  MainAt, tests, awaits_read, sends_sink, awaits_write, checks, polls, left, Client, await_sem,
  run_main_at, main_step, run_thread_at, thread_step, Step, main_runs, thread_runs, stream_runs,
  Reach, here, later,
}

-- The main thread is before one of its waits.
abbrev pub IsWaiting : MainAt → Type 0
IsWaiting at = (at ≡ awaits_read) ⊎ (at ≡ awaits_write)

module _ (cq : ConcurrentQueue) {tcp : Tcp} where
  -- Nothing can wake the main thread, which is at `at` in the ping of a number and has sent `n`
  -- messages.
  record IsStuck (at : MainAt) (ping n : ℕ) (c : Client cq tcp) : Type 0 where
    has_left : c.thread_at ≡ left
    no_answer : c.context.sem ≡ 0
    still_at : c.main_at ≡ at
    same_ping : c.ping ≡ ping
    same_sends : c.sends ≡ n

  await_sem-stuck : (next c : Client cq tcp) → c.context.sem ≡ 0 → await_sem cq next c ≡ c
  unfolding await_sem
  await_sem-stuck next c e = rw e refl

  main_step-stuck :
      (snprintf : ℕ → List ℕ) (buf d_at : ℕ) (c : Client cq tcp)
      → IsWaiting c.main_at
      → c.context.sem ≡ 0
      → main_step cq snprintf buf d_at c ≡ c
  unfolding main_step run_main_at
  main_step-stuck snprintf buf d_at c (inl e) none_left =
      ap (λ at. run_main_at cq snprintf buf d_at at c) e
      ∙ await_sem-stuck (record c { main_at = sends_sink }) c none_left
  main_step-stuck snprintf buf d_at c (inr e) none_left =
      ap (λ at. run_main_at cq snprintf buf d_at at c) e
      ∙ await_sem-stuck (record c { main_at = tests; ping = c.ping + 1 }) c none_left

  thread_step-left :
      (garbage : ℕ) (c : Client cq tcp) → c.thread_at ≡ left → thread_step cq garbage c ≡ c
  unfolding thread_step run_thread_at
  thread_step-left garbage c e = ap (λ at. run_thread_at cq garbage at c) e

  module _ (snprintf : ℕ → List ℕ) (buf d_at garbage : ℕ) (at : MainAt) (ping n : ℕ)
      (waiting : IsWaiting at) where
    Step-IsStuck :
        {c d : Client cq tcp}
        → Step cq snprintf buf d_at garbage c d
        → IsStuck at ping n c
        → IsStuck at ping n d
    Step-IsStuck (main_runs {c}) h =
        let w = subst IsWaiting (sym h.still_at) waiting in
        subst (IsStuck at ping n) (sym (main_step-stuck snprintf buf d_at c w h.no_answer)) h
    Step-IsStuck (thread_runs {c}) h =
        subst (IsStuck at ping n) (sym (thread_step-left garbage c h.has_left)) h
    Step-IsStuck (stream_runs st off) h = record {
      has_left = h.has_left;
      no_answer = h.no_answer;
      still_at = h.still_at;
      same_ping = h.same_ping;
      same_sends = h.same_sends;
    }

    Reach-IsStuck :
        {c d : Client cq tcp}
        → Reach cq snprintf buf d_at garbage c d
        → IsStuck at ping n c
        → IsStuck at ping n d
    Reach-IsStuck here h = h
    Reach-IsStuck (later r s) h = Step-IsStuck s (Reach-IsStuck r h)

  -- The second thread is about to leave its loop: it is at the test on a stream that is not
  -- connected, or takes the completion of its receive, which reports an error.
  abbrev pub Leaves : Client cq tcp → Type 0
  Leaves c =
      let st = c.context.stream in
      ((c.thread_at ≡ checks) × (st.connected ≡ false))
      ⊎ ((wc : WorkCompletion) × (c.thread_at ≡ polls)
          × ((cq.try_dequeue WorkCompletion (st.cqs st.recv_cq).q).0 ≡ some wc)
          × (wc.opcode ≡ wc_send)
          × (wc.wr_id ≡ 1901)
          × (succeeded wc.status ≡ false))

  thread_step-IsStuck :
      (garbage : ℕ) (c : Client cq tcp)
      → Leaves c
      → c.context.sem ≡ 0
      → IsStuck c.main_at c.ping c.sends (thread_step cq garbage c)
        × ((thread_step cq garbage c).context.stream.connected ≡ false)
  unfolding thread_step run_thread_at cq_round
  thread_step-IsStuck garbage c (inl (at, off)) no_sem = (
    record {
      has_left = ground (arith, at, off);
      no_answer = ground (arith, at, no_sem);
      still_at = ground (arith, at);
      same_ping = ground (arith, at);
      same_sends = ground (arith, at);
    },
    ground (arith, at, off),
  )
  thread_step-IsStuck garbage c (inr (wc, at, found, op, id, err)) no_sem = (
    record {
      has_left = ground (arith, at, found, op, id, err);
      no_answer = ground (arith, at, found, op, id, err, no_sem);
      still_at = ground (arith, at);
      same_ping = ground (arith, at);
      same_sends = ground (arith, at);
    },
    ground (arith, at, found, op, id, err),
  )

  -- When the second thread leaves its loop, since the stream is not connected any more or the
  -- completion of its receive reports an error, while the main thread waits and the semaphore is 0,
  -- the main thread waits for ever: the stream is not connected, but whatever the steps that follow,
  -- the main thread is still at this wait, in the same ping, and has sent no further message.
  pub client_hangs :
      (snprintf : ℕ → List ℕ) (buf d_at garbage : ℕ) (c d : Client cq tcp)
      → IsWaiting c.main_at
      → c.context.sem ≡ 0
      → Leaves c
      → Reach cq snprintf buf d_at garbage (thread_step cq garbage c) d
      → ((thread_step cq garbage c).context.stream.connected ≡ false)
        × (d.main_at ≡ c.main_at)
        × (d.ping ≡ c.ping)
        × (d.sends ≡ c.sends)
  client_hangs snprintf buf d_at garbage c d waiting no_sem leaves reached =
      let (stuck, off) = thread_step-IsStuck garbage c leaves no_sem in
      let h =
        Reach-IsStuck snprintf buf d_at garbage c.main_at c.ping c.sends waiting reached stuck in
      (off, h.still_at, h.same_ping, h.same_sends)
