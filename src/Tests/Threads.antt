-- ===== src/Tests/Threads.antt =====
-- Runs of a stream and its threads.
use mathlib.Core.List.{flatten}
use soft_ui_warp.Prelude.{◌+◌, ◌≤◌, ◌≡◌, refl, true, false, some, [], ◌∷◌, ◌++◌, pos, count_if}
use soft_ui_warp.Memory.{load}
use soft_ui_warp.Wire.{le_bytes}
use soft_ui_warp.Mpa.{mpa_send}
use soft_ui_warp.Ddp.{tagged_bytes}
use soft_ui_warp.Ddp.Send.{ddp_send_tagged}
use soft_ui_warp.WorkQueue.{WorkCompletion}
use soft_ui_warp.Rdmap.{Stream, rdmap_send, rdmap_init_stream, complete_later}
use soft_ui_warp.Rdmap.RecvLoop.{handle_read_resp}
use soft_ui_warp.Rdmap.SendLoop.{SendState, send_round}
use soft_ui_warp.Rdmap.Ledger.{is_sent, is_recv, is_done, held}
use soft_ui_warp.Rdmap.Threads.{
  Process, Reach, here, later, posts_send, polls, send_enters, sends, new_process, poll_send_cq,
  none_lost_or_repeated,
}
use soft_ui_warp.Rdmap.Threads.Flush.{reported, in_rounds, never_flushed}
use soft_ui_warp.Rdmap.Overtake.{response_overtakes}
use soft_ui_warp.Tests.Data.{
  ramp, send_locals, recv_locals, write_request, outcome, sender, read_completion,
}
use soft_ui_warp.Tests.{demo_tcp, demo_queue, demo_fifo}

abbrev fresh : Process demo_queue demo_tcp
fresh = new_process demo_queue ([], []) ramp 0 1 10 (5000 ∷ []) send_locals recv_locals

abbrev requested : Process demo_queue demo_tcp
requested = record fresh {
  stream = (rdmap_send demo_queue fresh.stream write_request).1;
  asked = write_request ∷ [];
}

abbrev done : SendState demo_queue demo_tcp
done = outcome (requested.stream, send_locals) (send_round demo_queue requested.stream send_locals)

abbrev sent : Process demo_queue demo_tcp
sent = record requested { stream = done.0; send_locals = done.1; send_in_round = false }

abbrev seen : Process demo_queue demo_tcp
seen = record sent {
  stream = (poll_send_cq demo_queue sent.stream 4).1;
  polled = (poll_send_cq demo_queue sent.stream 4).0 ++ [];
}

fresh_connected : requested.stream.connected ≡ true
unfolding new_process rdmap_init_stream rdmap_send
fresh_connected = refl

round_ran : send_round demo_queue requested.stream send_locals ≡ some (done.0, done.1)
unfolding new_process send_round rdmap_init_stream rdmap_send ddp_send_tagged mpa_send le_bytes
    tagged_bytes load flatten
round_ran = refl

-- A write is posted, done and polled.
polled_write : Reach demo_queue true 70000 5 fresh seen
unfolding new_process
polled_write =
    later
      (later (later (later here (posts_send write_request)) (send_enters fresh_connected refl))
        (sends done.0 done.1 refl round_ran))
      (polls 4)

none_lost_or_repeated_example :
    held demo_queue demo_fifo 42 seen.stream + count_if (is_done 42) seen.polled
    ≡ count_if (is_sent 42) seen.asked + count_if (is_recv 42) seen.awaited
none_lost_or_repeated_example =
    none_lost_or_repeated demo_queue demo_fifo 42 true 70000 5 ([], []) ramp 0 1 10 (5000 ∷ [])
      send_locals recv_locals seen polled_write

-- The stream is closed when the send loop is in a round: the write is still done and reported.
abbrev closed : Process demo_queue demo_tcp
closed = record requested {
  stream = record requested.stream { connected = false };
  send_in_round = true;
}

abbrev late : SendState demo_queue demo_tcp
late = outcome (closed.stream, send_locals) (send_round demo_queue closed.stream send_locals)

late_ran : send_round demo_queue closed.stream send_locals ≡ some (late.0, late.1)
unfolding new_process send_round rdmap_init_stream rdmap_send ddp_send_tagged mpa_send le_bytes
    tagged_bytes load flatten
late_ran = refl

abbrev closed_done : Process demo_queue demo_tcp
closed_done = record closed { stream = late.0; send_locals = late.1; send_in_round = false }

abbrev asked_again : Process demo_queue demo_tcp
asked_again = record closed_done {
  stream = (rdmap_send demo_queue closed_done.stream write_request).1;
  asked = write_request ∷ closed_done.asked;
}

closed_late : Reach demo_queue true 70000 5 closed asked_again
unfolding new_process
closed_late = later (later here (sends late.0 late.1 refl late_ran)) (posts_send write_request)

never_flushed_example :
    (asked_again.stream.connected ≡ false)
    × (reported demo_queue demo_fifo asked_again + in_rounds demo_queue demo_fifo asked_again
        ≤ reported demo_queue demo_fifo closed + in_rounds demo_queue demo_fifo closed)
never_flushed_example =
    never_flushed demo_queue demo_fifo true 70000 5 closed asked_again refl closed_late

idle_waits : (sender.cqs sender.send_cq).pending_q ≡ []
unfolding rdmap_init_stream
idle_waits = refl

abbrev late_completion : WorkCompletion
late_completion = record read_completion { wr_id = 10 }

abbrev missed : Stream demo_queue demo_tcp
missed = (handle_read_resp demo_queue (pos 0) sender recv_locals).0

abbrev left_waiting : Stream demo_queue demo_tcp
left_waiting = complete_later demo_queue missed 0 read_completion

abbrev reads_again : Stream demo_queue demo_tcp
reads_again = complete_later demo_queue left_waiting 0 late_completion

abbrev mixed_up : Stream demo_queue demo_tcp
mixed_up = (handle_read_resp demo_queue (pos 0) reads_again recv_locals).0

response_overtakes_example :
    ((left_waiting.cqs 0).q ≡ (sender.cqs 0).q)
    × ((left_waiting.cqs 0).pending_q ≡ read_completion ∷ [])
    × ((mixed_up.cqs 0).q ≡ (sender.cqs 0).q ++ record read_completion { byte_len = 0 } ∷ [])
    × ((mixed_up.cqs 0).pending_q ≡ late_completion ∷ [])
unfolding rdmap_init_stream
response_overtakes_example =
    response_overtakes demo_queue demo_fifo sender recv_locals recv_locals (pos 0) (pos 0)
      read_completion late_completion idle_waits
