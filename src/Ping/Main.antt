-- ===== src/Ping/Main.antt =====
-- The example client's main thread (`main` of fake_ping_client.cpp): its set-up, and its loop as the
-- steps of a thread that runs beside the thread on the completion queue. `snprintf` is the C
-- library's; a `sem_wait` on a semaphore that is 0 leaves the thread where it is.
use soft_ui_warp.Prelude.{
  ℕ, ◌+◌, ◌-◌, ◌≡◌, true, false, Option, none, some, List, [], ◌∷◌, ◌++◌, ◌==◌, if◌then◌else◌, ℤ,
  pos, pos_part, ltb_ℤ,
}
use soft_ui_warp.Memory.{Memory, poke}
use soft_ui_warp.Wire.{le_bytes, htonl, htonll}
use soft_ui_warp.Queue.{ConcurrentQueue}
use soft_ui_warp.Tcp.{Tcp}
use soft_ui_warp.Mpa.Connect.{mpa_client_connect}
use soft_ui_warp.Ddp.{TaggedBuffer, register_tagged_buffer}
use soft_ui_warp.WorkQueue.{send, own, WorkCompletion, SendWr, RecvWr, create_cq}
use soft_ui_warp.Rdmap.{Stream, rdmap_send, rdmap_init_stream}
use soft_ui_warp.Rdmap.Threads.{and_polled}
use soft_ui_warp.Perftest.Iterations.{to_int}
use soft_ui_warp.Ping.{
  buf_len, next_char, ping_buffer, PingContext, PingRound, continues, breaks, cq_round,
  cq_thread_start,
}

-- `struct send_data`, in the order of the network.
unfoldable pub source_bytes : ℕ → ℕ → List ℕ
source_bytes buf stag =
    le_bytes 8 (htonll buf) ++ (le_bytes 4 (htonl stag) ++ le_bytes 4 (htonl buf_len))

abbrev pub source_size : ℕ
source_size = 16

-- The request that both messages of a ping are sent with; `d` is at `d_at`.
abbrev pub ping_send_wr : ℕ → SendWr
ping_send_wr d_at = record {
  wr_id = 1;
  sg_list = own (record { addr = d_at; len = source_size; lkey = 0 } ∷ []);
  opcode = send;
  invalidate_rkey = 0;
  remote_addr = 0;
  rkey = 0;
}

-- What the machine gives to the set-up: the descriptor that `create_tcp_connection` returns, the
-- stream's attribute `pd`, which nothing sets, the socket, the memory, where `buf` and `d` are, and
-- the addresses that `malloc` gives to the stream.
pub record Given (tcp : Tcp) : Type 0 where
  pub sockfd : ℤ
  pub pd : ℕ
  pub sock : tcp.State
  pub mem : Memory
  pub buf : ℕ
  pub d_at : ℕ
  pub read_addrs : List ℕ

-- Where the main thread is: at the test of the loop, or before a statement of its body.
pub data MainAt : Type 0 where
  tests fills sends_source awaits_read sends_sink awaits_write ended : MainAt

-- Where the other thread is: before its first receive, at the test of its loop, or in its body.
pub data ThreadAt : Type 0 where
  starts checks polls left : ThreadAt

-- The two threads. `sends` counts the calls of `rdmap_send`, and `polled` has what the second thread
-- has taken off the completion queue, the last one first.
pub record Client (cq : ConcurrentQueue) (tcp : Tcp) : Type 0 where
  pub context : PingContext cq tcp
  pub main_at : MainAt
  pub thread_at : ThreadAt
  pub ping : ℕ
  pub start : ℕ
  pub sends : ℕ
  pub polled : List WorkCompletion

-- Where the second thread is after a round.
abbrev pub thread_after : PingRound → ThreadAt
thread_after r = elim r [ continues ↦ checks | breaks ↦ left ]

module _ (cq : ConcurrentQueue) {tcp : Tcp} where
  -- What the set-up makes on its connection, up to the loop. A failed handshake closes the socket, and
  -- the set-up goes on.
  unfoldable pub set_up_by : (tcp.State → tcp.State) → Given tcp → Client cq tcp
  unfolding source_bytes
  set_up_by close g =
      let (ret, version, sock) = mpa_client_connect tcp g.sock 0 [] false true in
      let sock' = if ltb_ℤ ret (pos 0) then close sock else sock in
      let st =
        rdmap_init_stream cq sock' g.mem (pos_part g.sockfd) g.pd (cq.new SendWr 10)
          (cq.new RecvWr 10) (λ i. create_cq cq 10) 0 0 g.read_addrs in
      let buffer : TaggedBuffer = record {
        stag = record { tag = 0; pd_id = 0 };
        buf_addr = g.buf;
        len = buf_len;
        access_ctrl = 0;
      } in
      let (registered, ctx) = register_tagged_buffer cq st.ddp_ctx buffer in
      let d = source_bytes g.buf registered.stag.tag in
      record {
        context = record {
          stream = record st { ddp_ctx = ctx; mem = poke g.mem g.d_at d };
          sem = 0;
        };
        main_at = tests;
        thread_at = starts;
        ping = 0;
        start = 65;
        sends = 0;
        polled = [];
      }

  -- A descriptor below 0 ends the program.
  unfoldable pub set_up : (tcp.State → tcp.State) → Given tcp → Option (Client cq tcp)
  unfolding set_up_by
  set_up close g =
      let client = set_up_by close g in if ltb_ℤ g.sockfd (pos 0) then none else some client

  -- The text of this ping, put in the buffer, and the first character of the next one.
  unfoldable pub fill_buffer : (ℕ → List ℕ) → ℕ → Client cq tcp → Client cq tcp
  fill_buffer snprintf buf c =
      let text = ping_buffer (snprintf c.ping) c.start in
      let st = c.context.stream in
      record c {
        context = record (c.context) { stream = record st { mem = poke st.mem buf text } };
        start = next_char c.start;
        main_at = sends_source;
      }

  -- `rdmap_send`, and where the thread goes on if it gives no error.
  unfoldable pub send_ping : ℕ → MainAt → Client cq tcp → Client cq tcp
  send_ping d_at next c =
      let (pushed, st) = rdmap_send cq c.context.stream (ping_send_wr d_at) in
      record c {
        context = record (c.context) { stream = st };
        sends = c.sends + 1;
        main_at = if ltb_ℤ (to_int pushed) (pos 0) then ended else next;
      }

  -- `sem_wait`.
  unfoldable pub await_sem : Client cq tcp → Client cq tcp → Client cq tcp
  await_sem next c =
      if c.context.sem == 0
      then c
      else record next { context = record (c.context) { sem = c.context.sem - 1 } }

  -- What the main thread does where it is, and its step.
  unfoldable pub run_main_at : (ℕ → List ℕ) → ℕ → ℕ → MainAt → Client cq tcp → Client cq tcp
  unfolding fill_buffer send_ping await_sem
  run_main_at snprintf buf d_at tests c = record c {
    main_at = if c.context.stream.connected then fills else ended;
  }
  run_main_at snprintf buf d_at fills c = fill_buffer snprintf buf c
  run_main_at snprintf buf d_at sends_source c = send_ping d_at awaits_read c
  run_main_at snprintf buf d_at awaits_read c = await_sem (record c { main_at = sends_sink }) c
  run_main_at snprintf buf d_at sends_sink c = send_ping d_at awaits_write c
  run_main_at snprintf buf d_at awaits_write c =
      await_sem (record c { main_at = tests; ping = c.ping + 1 }) c
  run_main_at snprintf buf d_at ended c = c

  unfoldable pub main_step : (ℕ → List ℕ) → ℕ → ℕ → Client cq tcp → Client cq tcp
  unfolding run_main_at
  main_step snprintf buf d_at c = run_main_at snprintf buf d_at c.main_at c

  -- The same for the thread on the completion queue, whose receives are into the buffer at
  -- `garbage`.
  unfoldable pub run_thread_at : ℕ → ThreadAt → Client cq tcp → Client cq tcp
  unfolding cq_round cq_thread_start
  run_thread_at garbage starts c = record c {
    context = cq_thread_start cq garbage c.context;
    thread_at = checks;
  }
  run_thread_at garbage checks c = record c {
    thread_at = if c.context.stream.connected then polls else left;
  }
  run_thread_at garbage polls c =
      let st = c.context.stream in
      let (found, q') = cq.try_dequeue WorkCompletion (st.cqs st.recv_cq).q in
      let (r, p) = cq_round cq garbage c.context in
      record c { context = p; thread_at = thread_after r; polled = and_polled found c.polled }
  run_thread_at garbage left c = c

  unfoldable pub thread_step : ℕ → Client cq tcp → Client cq tcp
  unfolding run_thread_at
  thread_step garbage c = run_thread_at garbage c.thread_at c

  -- The steps of the program: one of either thread, or anything that the stream's own threads do,
  -- which never connect it again.
  pub data Step (snprintf : ℕ → List ℕ) (buf d_at garbage : ℕ)
      : Client cq tcp → Client cq tcp → Type 0 where
    main_runs :
        {c : Client cq tcp} → Step snprintf buf d_at garbage c (main_step snprintf buf d_at c)
    thread_runs : {c : Client cq tcp} → Step snprintf buf d_at garbage c (thread_step garbage c)
    stream_runs :
        {c : Client cq tcp} (st : Stream cq tcp)
        → (c.context.stream.connected ≡ false → st.connected ≡ false)
        → Step snprintf buf d_at garbage c
            (record c { context = record (c.context) { stream = st } })

  pub data Reach (snprintf : ℕ → List ℕ) (buf d_at garbage : ℕ) (c : Client cq tcp)
      : Client cq tcp → Type 0 where
    here : Reach snprintf buf d_at garbage c c
    later :
        {d e : Client cq tcp}
        → Reach snprintf buf d_at garbage c d
        → Step snprintf buf d_at garbage d e
        → Reach snprintf buf d_at garbage c e
