-- ===== src/Tests/PingMain.antt =====
-- Runs of the example client's two threads.
use soft_ui_warp.Prelude.{
  ℕ, ◌+◌, ◌≤◌, ◌≡◌, refl, inl, inr, false, some, List, [], ◌∷◌, pos, count_if,
}
use soft_ui_warp.WorkQueue.{wc_success, WorkCompletion, create_cq}
use soft_ui_warp.Rdmap.{Stream, complete, rdmap_send, rdmap_init_stream, rdma_post_recv}
use soft_ui_warp.Ping.{cq_round, cq_thread_start}
use soft_ui_warp.Ping.Main.{
  Given, awaits_write, ended, checks, Client, set_up_by, set_up, fill_buffer, send_ping, await_sem,
  run_main_at, main_step, run_thread_at, thread_step, main_runs, thread_runs, stream_runs, Reach,
  here, later,
}
use soft_ui_warp.Ping.Turns.{sent_at, answered_at, is_go_ahead, turns_taken}
use soft_ui_warp.Ping.Hang.{client_hangs}
use soft_ui_warp.Tests.Data.{zeros}
use soft_ui_warp.Tests.{Pipe, demo_tcp, demo_queue}

-- "rdma".
abbrev text : ℕ → List ℕ
text ping = 114 ∷ 100 ∷ 109 ∷ 97 ∷ []

abbrev given : Given demo_tcp
given = record {
  sockfd = pos 3;
  sock = ([], []);
  mem = zeros;
  buf = 100;
  d_at = 300;
  read_addrs = 5000 ∷ 6000 ∷ [];
  pd = 0;
}

abbrev shut : Pipe → Pipe
shut s = s

abbrev main_goes : Client demo_queue demo_tcp → Client demo_queue demo_tcp
main_goes = main_step demo_queue text 100 300

abbrev thread_goes : Client demo_queue demo_tcp → Client demo_queue demo_tcp
thread_goes = thread_step demo_queue 7000

abbrev DemoReach : Client demo_queue demo_tcp → Client demo_queue demo_tcp → Type 0
DemoReach = Reach demo_queue text 100 300 7000

abbrev first : Client demo_queue demo_tcp
first = set_up_by demo_queue shut given

first-made : set_up demo_queue shut given ≡ some first
unfolding set_up
first-made = refl

-- The first message is sent, and the second thread is in its loop.
abbrev asked : Client demo_queue demo_tcp
asked = thread_goes (thread_goes (main_goes (main_goes (main_goes first))))

abbrev go_ahead : WorkCompletion
go_ahead = record { wr_id = 1901; status = wc_success; opcode = 3; byte_len = 0; src_qp = 0 }

abbrev with_stream :
    Client demo_queue demo_tcp → Stream demo_queue demo_tcp → Client demo_queue demo_tcp
with_stream c st = record c { context = record (c.context) { stream = st } }

abbrev told : Stream demo_queue demo_tcp
told = complete demo_queue asked.context.stream 0 go_ahead

told-connected : asked.context.stream.connected ≡ false → told.connected ≡ false
unfolding complete
told-connected e = e

-- The answer is taken, waited for, and the second message sent.
abbrev answered : Client demo_queue demo_tcp
answered = main_goes (main_goes (thread_goes (with_stream asked told)))

first-asked : DemoReach first asked
first-asked =
    later (later (later (later (later here main_runs) main_runs) main_runs) thread_runs) thread_runs

first-answered : DemoReach first answered
first-answered =
    later
      (later (later (later first-asked (stream_runs told told-connected)) thread_runs) main_runs)
      main_runs

answered_state :
    (answered.main_at ≡ awaits_write)
    × (answered.context.sem ≡ 0)
    × (answered.thread_at ≡ checks)
    × (answered.sends ≡ 2)
unfolding set_up_by rdmap_init_stream main_step thread_step run_main_at run_thread_at fill_buffer
    send_ping await_sem cq_round cq_thread_start rdma_post_recv rdmap_send complete create_cq
answered_state = (refl, refl, refl, refl)

turns_taken_example :
    (answered.sends ≡ answered.ping + answered.ping + sent_at answered.main_at)
    × (answered.ping + answered.ping + answered_at answered.main_at + answered.context.sem
        ≡ count_if is_go_ahead answered.polled)
    × (answered.main_at ≡ ended → answered.context.stream.connected ≡ false)
    × (answered.sends ≤ count_if is_go_ahead answered.polled + 1)
turns_taken_example =
    turns_taken demo_queue text 7000 shut given first answered first-made first-answered

-- The stream is closed while the main thread waits for the second answer.
abbrev closed : Client demo_queue demo_tcp
closed = with_stream answered (record answered.context.stream { connected = false })

abbrev stuck : Client demo_queue demo_tcp
stuck = main_goes (main_goes (thread_goes closed))

client_hangs_example :
    ((thread_goes closed).context.stream.connected ≡ false)
    × (stuck.main_at ≡ closed.main_at)
    × (stuck.ping ≡ closed.ping)
    × (stuck.sends ≡ closed.sends)
client_hangs_example =
    client_hangs demo_queue text 100 300 7000 closed stuck (inr answered_state.0) answered_state.1
      (inl (answered_state.2, refl)) (later (later here main_runs) main_runs)
