-- ===== src/Tests/Exchange.antt =====
-- An exchange of addresses, run: the loops of the stream are at work between two polls.
use soft_ui_warp.Prelude.{
  ℕ, ◌≡◌, refl, sym, ap, ◌∙◌, ◌⊎◌, Bool, true, false, Option, none, some, [], ◌∷◌, arith, pos, ◌+ℤ◌,
  ◌-ℤ◌, length,
}
use soft_ui_warp.Ddp.{
  deregister_tagged_buffer, untagged_bytes, ddp_flag_last, ddp_check_untagged_hdr, ddp_post_recv,
  ddp_init_stream,
}
use soft_ui_warp.Ddp.Send.{ddp_send_untagged, send_sges, send_sge, mark_last, advance_mo}
use soft_ui_warp.Mpa.{
  mpa_send, ulpdu_length, mpa_recv, after_payload, recv_all, recv_header, recv_payload,
  recv_trailers,
}
use soft_ui_warp.Wire.{le_bytes, from_le, htonl, htons}
use soft_ui_warp.Memory.{load, poke}
use soft_ui_warp.Ddp.Recv.{ddp_recv, recv_segments, recv_untagged, segment_loop}
use soft_ui_warp.Ddp.Message.{
  is_last_segment, as_untagged, decode_untagged, untagged_format, field_at,
}
use mathlib.Core.List.{flatten}
use soft_ui_warp.WorkQueue.{WorkCompletion, send_wr_to_wce, create_cq, opcode_of}
use soft_ui_warp.Rdmap.{
  rdmap_init_stream, rdmap_send, rdma_post_recv, recv_buffers, post_read_buffers, complete,
  get_rdmap_op, rdma_invalidate,
}
use soft_ui_warp.Rdmap.Handlers.{completions}
use soft_ui_warp.Rdmap.RecvLoop.{
  RecvState, Round, recv_round, dispatch, handle_send, asserted, ddp_is_tagged, rsvd_ulp1,
}
use soft_ui_warp.Rdmap.SendLoop.{
  SendState, send_round, send_request, do_send, finish, completion, untagged_meta,
}
use soft_ui_warp.Rdmap.Threads.{
  Process, Reach, here, later, send_enters, sends, recv_enters, receives, still_runs, take_one,
}
use soft_ui_warp.Perftest.{PerftestContext, default_context}
use soft_ui_warp.Perftest.Iterations.{check_wc}
use soft_ui_warp.Perftest.Exchange.{
  wc_send, await_one, exchange, rdmap_recv_issue, set_buffer, set_recv_buffer,
}
use soft_ui_warp.Perftest.Run.{Given, bench_process}
use soft_ui_warp.Perftest.Waits.{IsBystander, Comes, Reach-trans, after}
use soft_ui_warp.Perftest.Told.{both_posted, exchange_reports}
use soft_ui_warp.Tests.Data.{ramp, send_locals, recv_locals}
use soft_ui_warp.Tests.{demo_tcp, demo_queue, demo_fifo, empty_pop, head_pop}

abbrev Host : Type 0
Host = Process demo_queue demo_tcp

abbrev after_send : Host → Option (SendState demo_queue demo_tcp) → Host
after_send p none = p
after_send p (some (st, l)) = record p { stream = st; send_locals = l; send_in_round = false }

abbrev after_recv : Host → Option (Round × RecvState demo_queue demo_tcp) → Host
after_recv p none = p
after_recv p (some (r, (st, l))) = record p {
  stream = st;
  recv_locals = l;
  receiving = still_runs r;
  recv_in_round = false;
}

-- A round of each loop, if it runs and is not in one.
abbrev send_if : Bool → Bool → Host → Host
send_if false inside p = p
send_if true true p = p
send_if true false p = after_send p (send_round demo_queue p.stream p.send_locals)

abbrev recv_if : Bool → Bool → Bool → Host → Host
recv_if false runs inside p = p
recv_if true false inside p = p
recv_if true true true p = p
recv_if true true false p = after_recv p (recv_round demo_queue true 70000 9 p.stream p.recv_locals)

abbrev send_half : Host → Host
send_half p = send_if p.stream.connected p.send_in_round p

abbrev recv_half : Host → Host
recv_half p = recv_if p.stream.connected p.receiving p.recv_in_round p

abbrev loops : Host → Host
loops p = recv_half (send_half p)

after_send-Reach :
    (p : Host) (o : Option (SendState demo_queue demo_tcp))
    → p.stream.connected ≡ true
    → p.send_in_round ≡ false
    → send_round demo_queue p.stream p.send_locals ≡ o
    → Reach demo_queue true 70000 9 p (after_send p o)
after_send-Reach p none on head e = here
after_send-Reach p (some (st, l)) on head e =
    later (later here (send_enters on head)) (sends st l refl e)

after_recv-Reach :
    (p : Host) (o : Option (Round × RecvState demo_queue demo_tcp))
    → p.stream.connected ≡ true
    → p.receiving ≡ true
    → p.recv_in_round ≡ false
    → recv_round demo_queue true 70000 9 p.stream p.recv_locals ≡ o
    → Reach demo_queue true 70000 9 p (after_recv p o)
after_recv-Reach p none on runs head e = here
after_recv-Reach p (some (r, (st, l))) on runs head e =
    later (later here (recv_enters on runs head)) (receives r st l refl e)

send_if-Reach :
    (on inside : Bool) (p : Host)
    → p.stream.connected ≡ on
    → p.send_in_round ≡ inside
    → Reach demo_queue true 70000 9 p (send_if on inside p)
send_if-Reach false inside p e d = here
send_if-Reach true true p e d = here
send_if-Reach true false p e d =
    after_send-Reach p (send_round demo_queue p.stream p.send_locals) e d refl

recv_if-Reach :
    (on runs inside : Bool) (p : Host)
    → p.stream.connected ≡ on
    → p.receiving ≡ runs
    → p.recv_in_round ≡ inside
    → Reach demo_queue true 70000 9 p (recv_if on runs inside p)
recv_if-Reach false runs inside p e d c = here
recv_if-Reach true false inside p e d c = here
recv_if-Reach true true true p e d c = here
recv_if-Reach true true false p e d c =
    after_recv-Reach p (recv_round demo_queue true 70000 9 p.stream p.recv_locals) e d c refl

-- What the two loops leave to the program.
abbrev Same : Host → Host → Type 0
Same p q = (q.asked ≡ p.asked) × (q.awaited ≡ p.awaited) × (q.polled ≡ p.polled)

after_send-Same : (p : Host) (o : Option (SendState demo_queue demo_tcp)) → Same p (after_send p o)
after_send-Same p none = (refl, refl, refl)
after_send-Same p (some (st, l)) = (refl, refl, refl)

after_recv-Same :
    (p : Host) (o : Option (Round × RecvState demo_queue demo_tcp)) → Same p (after_recv p o)
after_recv-Same p none = (refl, refl, refl)
after_recv-Same p (some (r, (st, l))) = (refl, refl, refl)

send_if-Same : (on inside : Bool) (p : Host) → Same p (send_if on inside p)
send_if-Same false inside p = (refl, refl, refl)
send_if-Same true true p = (refl, refl, refl)
send_if-Same true false p = after_send-Same p (send_round demo_queue p.stream p.send_locals)

recv_if-Same : (on runs inside : Bool) (p : Host) → Same p (recv_if on runs inside p)
recv_if-Same false runs inside p = (refl, refl, refl)
recv_if-Same true false inside p = (refl, refl, refl)
recv_if-Same true true true p = (refl, refl, refl)
recv_if-Same true true false p =
    after_recv-Same p (recv_round demo_queue true 70000 9 p.stream p.recv_locals)

loops-Same : (p : Host) → Same p (loops p)
loops-Same p =
    let q = send_half p in
    let s = send_if-Same p.stream.connected p.send_in_round p in
    let r = recv_if-Same q.stream.connected q.receiving q.recv_in_round q in
    (r.0 ∙ s.0, r.1 ∙ s.1, r.2 ∙ s.2)

loops-IsBystander : IsBystander demo_queue true 70000 9 loops
loops-IsBystander = record {
  goes = λ p.
      let q = send_half p in
      Reach-trans (send_if-Reach p.stream.connected p.send_in_round p refl refl)
        (recv_if-Reach q.stream.connected q.receiving q.recv_in_round q refl refl refl);
  same_asked = λ p. (loops-Same p).0;
  same_awaited = λ p. (loops-Same p).1;
  same_polled = λ p. (loops-Same p).2;
}

-- The machines meet at once.
abbrev meets : Host → Host
meets p = p

meets-IsBystander : IsBystander demo_queue true 70000 9 meets
meets-IsBystander = record {
  goes = λ p. here;
  same_asked = λ p. refl;
  same_awaited = λ p. refl;
  same_polled = λ p. refl;
}

abbrev small_run : PerftestContext
small_run = record default_context { max_reqs = pos 2 }

abbrev given : Given demo_tcp
given = record {
  mapped = true;
  buf = 3000;
  sockfd = pos 5;
  sync_sock = pos 6;
  sock = ([], []);
  mem = ramp;
  read_addrs = 5000 ∷ [];
  pd = 0;
  send_locals = send_locals;
  recv_locals = recv_locals;
}

-- What a machine sends of its own buffer comes from the other, too.
abbrev told : Host
told = loops (
    both_posted demo_queue loops meets 100 200 0
      (bench_process demo_queue small_run given ([], [])))

abbrev started : Host
started = bench_process demo_queue small_run given (told.stream.sock.1, [])

abbrev posted : Host
posted = both_posted demo_queue loops meets 100 200 0 started

abbrev first_seen : Option (WorkCompletion × Host)
first_seen = await_one demo_queue loops meets 5 posted

-- How many completions are left when the first wait has ended.
abbrev left_over : Option (WorkCompletion × Host) → ℕ
left_over none = 0
left_over (some (w, q)) = length (completions demo_queue demo_fifo q.stream q.stream.send_cq)

-- Both completions come while the loops are at work for the first time.
both_come :
    (let q = after loops 1 posted in
      length (completions demo_queue demo_fifo q.stream q.stream.send_cq) ≡ 2)
    × (left_over first_seen ≡ 1)
unfolding flatten ◌-ℤ◌ ◌+ℤ◌ set_buffer set_recv_buffer rdmap_recv_issue after bench_process
    rdmap_init_stream rdmap_send rdma_post_recv recv_buffers post_read_buffers complete send_round
    send_request do_send finish completion untagged_meta send_wr_to_wce create_cq opcode_of
    recv_round dispatch handle_send asserted ddp_is_tagged rsvd_ulp1 get_rdmap_op rdma_invalidate
    deregister_tagged_buffer ddp_send_untagged send_sges send_sge mark_last advance_mo mpa_send
    ulpdu_length le_bytes from_le htonl htons untagged_bytes load poke ddp_recv recv_segments
    recv_untagged segment_loop is_last_segment as_untagged decode_untagged untagged_format field_at
    ddp_flag_last mpa_recv after_payload recv_all recv_header recv_payload recv_trailers
    ddp_check_untagged_hdr ddp_post_recv ddp_init_stream empty_pop head_pop await_one take_one
both_come = (refl, refl)

second-Comes :
    (w : WorkCompletion) (q : Host)
    → await_one demo_queue loops meets 5 posted ≡ some (w, q)
    → Comes demo_queue demo_fifo true 70000 9 loops meets loops-IsBystander 0 q
unfolding after
second-Comes w q e = omega (arith, sym (ap left_over e) ∙ both_come.1)

exchange_reports_example :
    (w₁ : WorkCompletion) × (w₂ : WorkCompletion) × (q : Host) × (exchange demo_queue loops meets 5
        100 200 0 started
      ≡ some (check_wc wc_send w₂, q))
    × (q.polled ≡ w₂ ∷ w₁ ∷ [])
    × (((w₁.wr_id ≡ 1) × (w₂.wr_id ≡ 1901)) ⊎ ((w₁.wr_id ≡ 1901) × (w₂.wr_id ≡ 1)))
unfolding bench_process
exchange_reports_example =
    exchange_reports demo_queue demo_fifo true 70000 9 loops meets loops-IsBystander
      meets-IsBystander small_run given (told.stream.sock.1, []) started 5 1 0 100 200 0 here refl
      refl refl (omega arith) (omega arith) (omega (arith, both_come.0)) second-Comes
