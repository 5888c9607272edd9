-- ===== src/Rdmap/Requests.antt =====
-- What the send loop (`rnic_send` in suiw/rdmap/rdmap.cpp) reports of a request.
use soft_ui_warp.Prelude.{
  ◌+◌, ◌%◌, ◌^◌, ◌≡◌, refl, subst, ◌≢◌, ◌⊎◌, inl, inr, Option, some, List, [], ◌∷◌, ◌++◌, arith,
  Bool-cases, ℤ, pos, ltb_ℤ, length,
}
use soft_ui_warp.Queue.{ConcurrentQueue, IsFifo}
use soft_ui_warp.Tcp.{Tcp}
use soft_ui_warp.Memory.{Memory, poke}
use soft_ui_warp.Ddp.{Sge}
use soft_ui_warp.Ddp.Ends.{ddp_send_tagged_ends, ddp_send_untagged_ends}
use soft_ui_warp.WorkQueue.{
  RdmaOpcode, rdma_write, rdma_read_req, rdma_read_resp, send, send_inval, send_se, send_se_inval,
  terminate, not_supported, opcode_number, wc_success, wc_fatal_err, WorkCompletion, SendWr,
  send_wr_to_wce,
}
use soft_ui_warp.Wire.{htonl}
use soft_ui_warp.Rdmap.{Stream, complete_later, read_req_size, send_qn, read_qn}
use soft_ui_warp.Rdmap.SendLoop.{
  SendLocals, SendState, completion, finish, rdma_hdr, sges, untagged_meta, tagged_meta, fields_of,
  fields_bytes, do_send, do_send_inval, do_read, do_write, do_read_resp, send_request,
}
use soft_ui_warp.Rdmap.Handlers.{completions, waiting, complete_lem, complete_later_lem}

-- A completion that reports a request: its number and operation, and success or a fatal error.
pub record Reports (req : SendWr) (w : WorkCompletion) : Type 0 where
  pub same_id : w.wr_id ≡ req.wr_id
  pub same_op : w.opcode ≡ opcode_number req.opcode
  pub ended : (w.status ≡ wc_success) ⊎ (w.status ≡ wc_fatal_err)

pub completion-Reports :
    (req : SendWr) (ret : ℤ) (w : WorkCompletion) → Reports req (completion req ret w)
unfolding completion send_wr_to_wce
completion-Reports req ret w = record {
  same_id = refl;
  same_op = refl;
  ended = elim (Bool-cases (ltb_ℤ ret (pos 0))) [
    | inl t ↦ inr (ground (arith, t))
    | inr f ↦ inl (ground (arith, f))
  ];
}

module _ (cq : ConcurrentQueue) {tcp : Tcp} (fifo : IsFifo cq) (st : Stream cq tcp) (l : SendLocals)
    (req : SendWr) where
  -- The request is reported at once.
  abbrev pub Completes : Option (SendState cq tcp) → Type 0
  Completes out =
      (st' : Stream cq tcp) × (l' : SendLocals) × (w : WorkCompletion) × (out ≡ some (st', l'))
      × Reports req w
      × (completions cq fifo st' st.send_cq ≡ completions cq fifo st st.send_cq ++ w ∷ [])
      × (waiting cq fifo st' st.send_cq ≡ waiting cq fifo st st.send_cq)

  -- The request is to be reported when its response has come.
  abbrev pub Waits : Option (SendState cq tcp) → Type 0
  Waits out =
      (st' : Stream cq tcp) × (l' : SendLocals) × (w : WorkCompletion) × (out ≡ some (st', l'))
      × Reports req w
      × (w.status ≡ wc_success)
      × (completions cq fifo st' st.send_cq ≡ completions cq fifo st st.send_cq)
      × (waiting cq fifo st' st.send_cq ≡ waiting cq fifo st st.send_cq ++ w ∷ [])

  -- Nothing is reported.
  abbrev pub Silent : Option (SendState cq tcp) → Type 0
  Silent out =
      (st' : Stream cq tcp) × (l' : SendLocals) × (out ≡ some (st', l')) × (st'.cqs ≡ st.cqs)

  -- What each operation promises.
  abbrev pub Promise : RdmaOpcode → Option (SendState cq tcp) → Type 0
  Promise rdma_write out = Completes out
  Promise send out = Completes out
  Promise send_se out = Completes out
  Promise send_inval out = Completes out
  Promise send_se_inval out = Completes out
  Promise rdma_read_req out =
      ((length (sges st.read_sg req.sg_list) ≡ 1) × (Completes out ⊎ Waits out))
      ⊎ ((length (sges st.read_sg req.sg_list) ≢ 1) × Silent out)
  Promise rdma_read_resp out = Silent out
  Promise terminate out = Silent out
  Promise not_supported out = Silent out

  finish-Completes :
      (ret : ℤ) (sock : tcp.State) (mem : Memory) (l' : SendLocals)
      → l'.wce ≡ l.wce
      → Completes (some (finish cq req ret (record st { sock = sock; mem = mem }) l'))
  unfolding finish
  finish-Completes ret sock mem l' e =
      let w = completion req ret l'.wce in
      let (now, later, others) =
        complete_lem cq fifo (record st { sock = sock; mem = mem }) st.send_cq w in
      (_, _, w, refl, completion-Reports req ret l'.wce, now, later)

  do_send-Completes : Completes (do_send cq st l req)
  unfolding do_send
  do_send-Completes =
      let hdr = untagged_meta (rdma_hdr req.opcode) l.garbage send_qn l.msn_send in
      let (ret, sock, run) =
        ddp_send_untagged_ends tcp st.mem st.sock (sges st.read_sg req.sg_list) hdr in
      let l' : SendLocals = record l { msn_send = (l.msn_send + 1) % 2 ^ 32 } in
      subst Completes (ground (arith, run)) (finish-Completes ret sock st.mem l' refl)

  do_send_inval-Completes : Completes (do_send_inval cq st l req)
  unfolding do_send_inval
  do_send_inval-Completes =
      let hdr =
        untagged_meta (rdma_hdr req.opcode) (htonl req.invalidate_rkey) send_qn l.msn_inval in
      let (ret, sock, run) =
        ddp_send_untagged_ends tcp st.mem st.sock (sges st.read_sg req.sg_list) hdr in
      let l' : SendLocals = record l { msn_inval = (l.msn_inval + 1) % 2 ^ 32 } in
      subst Completes (ground (arith, run)) (finish-Completes ret sock st.mem l' refl)

  do_write-Completes : Completes (do_write cq st l req)
  unfolding do_write
  do_write-Completes =
      let hdr = tagged_meta req in
      let (ret, sock, run) =
        ddp_send_tagged_ends tcp st.mem st.sock (sges st.read_sg req.sg_list) hdr in
      let l' : SendLocals = l in
      subst Completes (ground (arith, run)) (finish-Completes ret sock st.mem l' refl)

  do_read_resp-Silent : Silent (do_read_resp cq st l req)
  unfolding do_read_resp
  do_read_resp-Silent =
      let (ret, sock, run) =
        ddp_send_tagged_ends tcp st.mem st.sock (sges st.read_sg req.sg_list) (tagged_meta req) in
      (record st { sock = sock }, l, ground (arith, run), refl)

  -- A read request by its number of entries.
  abbrev read_counted : SendLocals
  read_counted = record l { msn_read = (l.msn_read + 1) % 2 ^ 32 }

  do_read_cases :
      (xs : List Sge)
      → sges st.read_sg req.sg_list ≡ xs
      → ((length xs ≡ 1) × (Completes (do_read cq st l req) ⊎ Waits (do_read cq st l req)))
        ⊎ ((length xs ≢ 1) × Silent (do_read cq st l req))
  unfolding do_read
  do_read_cases [] e =
      inr ((λ z. absurd (omega arith)), (st, read_counted, ground (arith, e), refl))
  do_read_cases (sg ∷ sg' ∷ sgs) e =
      inr ((λ z. absurd (omega arith)), (st, read_counted, ground (arith, e), refl))
  do_read_cases (sg ∷ []) e =
      let hdr = untagged_meta (rdma_hdr req.opcode) l.garbage read_qn l.msn_read in
      let mem = poke st.mem l.fields_at (fields_bytes (fields_of req sg)) in
      let message : Sge = record { addr = l.fields_at; len = read_req_size; lkey = 0 } in
      let (ret, sock, run) = ddp_send_untagged_ends tcp mem st.sock (message ∷ []) hdr in
      let st' : Stream cq tcp = record st { sock = sock; mem = mem } in
      let w = completion req ret l.wce in
      let later = complete_later_lem cq fifo st' st.send_cq w in
      inl (
        refl,
        elim (Bool-cases (ltb_ℤ ret (pos 0))) [
          | inl t ↦ inl (
              subst Completes (ground (arith, e, run, t))
                (finish-Completes ret sock mem read_counted refl))
          | inr f ↦ inr (
            complete_later cq st' st.send_cq w,
            record read_counted { wce = w },
            w,
            ground (arith, e, run, f),
            completion-Reports req ret l.wce,
            unfold completion in ground (arith, f),
            later.0,
            later.1,
          )
        ],
      )

  by_opcode : (op : RdmaOpcode) → req.opcode ≡ op → Promise op (send_request cq st l req)
  unfolding send_request
  by_opcode rdma_write e = subst (Promise rdma_write) (ground (arith, e)) do_write-Completes
  by_opcode rdma_read_req e =
      subst (Promise rdma_read_req) (ground (arith, e))
        (do_read_cases (sges st.read_sg req.sg_list) refl)
  by_opcode rdma_read_resp e =
      subst (Promise rdma_read_resp) (ground (arith, e)) do_read_resp-Silent
  by_opcode send e = subst (Promise send) (ground (arith, e)) do_send-Completes
  by_opcode send_se e = subst (Promise send_se) (ground (arith, e)) do_send-Completes
  by_opcode send_inval e = subst (Promise send_inval) (ground (arith, e)) do_send_inval-Completes
  by_opcode send_se_inval e =
      subst (Promise send_se_inval) (ground (arith, e)) do_send_inval-Completes
  by_opcode terminate e = subst (Promise terminate) (ground (arith, e)) (st, l, refl, refl)
  by_opcode not_supported e = subst (Promise not_supported) (ground (arith, e)) (st, l, refl, refl)

  -- Every operation of the send loop returns, whatever the socket answers, and keeps its promise: a
  -- send or a write is reported at once, with one completion behind those there; a read request of
  -- one entry is reported at once or, if it was sent, put behind the completions that wait; a read
  -- request of any other number of entries, a read response and an invalid operation are not
  -- reported.
  pub send_request_lem : Promise req.opcode (send_request cq st l req)
  send_request_lem = by_opcode req.opcode refl
