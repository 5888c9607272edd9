-- ===== src/Rdmap/Ledger/SendRounds.antt =====
-- What a round of the send loop (`rnic_send` in suiw/rdmap/rdmap.cpp) does to the work that its stream
-- holds.
use soft_ui_warp.Prelude.{
  ℕ, ◌+◌, ◌≡◌, refl, sym, ap, subst, ◌∙◌, inl, inr, Bool, true, false, some, List, [], ◌∷◌, ◌++◌,
  arith, if◌then◌else◌, length, count_if, count_if-append,
}
use soft_ui_warp.Queue.{ConcurrentQueue, IsFifo}
use soft_ui_warp.Tcp.{Tcp}
use soft_ui_warp.Ddp.{Sge}
use soft_ui_warp.Ddp.Ends.{ddp_send_tagged_ends, ddp_send_untagged_ends}
use soft_ui_warp.WorkQueue.{
  RdmaOpcode, rdma_write, rdma_read_req, rdma_read_resp, send, send_inval, send_se, send_se_inval,
  terminate, not_supported, SgList, own, read_resp_sg, SendWr, RecvWr,
}
use soft_ui_warp.Memory.{poke}
use soft_ui_warp.Wire.{htonl}
use soft_ui_warp.Rdmap.{Stream, complete, complete_later, send_qn, read_qn, read_req_size}
use soft_ui_warp.Rdmap.SendLoop.{
  SendLocals, finish, rdma_hdr, sges, untagged_meta, tagged_meta, fields_of, fields_bytes, do_send,
  do_send_inval, do_read, do_write, do_read_resp, send_request, send_round,
}
use soft_ui_warp.Rdmap.Handlers.{completions, waiting}
use soft_ui_warp.Rdmap.Requests.{Promise, Completes, Waits, Silent, send_request_lem}
use soft_ui_warp.Rdmap.Ledger.{op_reported, num_sge, is_sent, is_done, held}

-- The parts of a stream that the send loop leaves alone once it has taken a request.
abbrev pub kept :
    {cq : ConcurrentQueue} {tcp : Tcp} → Stream cq tcp → cq.Q SendWr × (cq.Q RecvWr × (ℕ × Bool))
kept st = (st.send_q, (st.recv_q, (st.send_cq, st.connected)))

module _ (cq : ConcurrentQueue) {tcp : Tcp} (st st' : Stream cq tcp) (l l' : SendLocals)
    (req : SendWr) where
  do_read-kept :
      (xs : List Sge)
      → sges st.read_sg req.sg_list ≡ xs
      → do_read cq st l req ≡ some (st', l')
      → kept st' ≡ kept st
  unfolding do_read finish complete complete_later
  do_read-kept [] one e = ground (arith, one, e)
  do_read-kept (sg ∷ sg' ∷ sgs) one e = ground (arith, one, e)
  do_read-kept (sg ∷ []) one e =
      let hdr = untagged_meta (rdma_hdr req.opcode) l.garbage read_qn l.msn_read in
      let mem = poke st.mem l.fields_at (fields_bytes (fields_of req sg)) in
      let message : Sge = record { addr = l.fields_at; len = read_req_size; lkey = 0 } in
      let (ret, sock, run) = ddp_send_untagged_ends tcp mem st.sock (message ∷ []) hdr in
      ground (arith, one, run, e)

  pub send_request-kept :
      (op : RdmaOpcode)
      → req.opcode ≡ op
      → send_request cq st l req ≡ some (st', l')
      → kept st' ≡ kept st
  unfolding send_request do_send do_send_inval do_write do_read_resp finish complete
  send_request-kept rdma_write is e =
      let (ret, sock, run) =
        ddp_send_tagged_ends tcp st.mem st.sock (sges st.read_sg req.sg_list) (tagged_meta req) in
      ground (arith, is, run, e)
  send_request-kept rdma_read_resp is e =
      let (ret, sock, run) =
        ddp_send_tagged_ends tcp st.mem st.sock (sges st.read_sg req.sg_list) (tagged_meta req) in
      ground (arith, is, run, e)
  send_request-kept rdma_read_req is e =
      do_read-kept (sges st.read_sg req.sg_list) refl (ground (arith, is, e))
  send_request-kept send is e =
      let hdr = untagged_meta (rdma_hdr req.opcode) l.garbage send_qn l.msn_send in
      let (ret, sock, run) =
        ddp_send_untagged_ends tcp st.mem st.sock (sges st.read_sg req.sg_list) hdr in
      ground (arith, is, run, e)
  send_request-kept send_se is e =
      let hdr = untagged_meta (rdma_hdr req.opcode) l.garbage send_qn l.msn_send in
      let (ret, sock, run) =
        ddp_send_untagged_ends tcp st.mem st.sock (sges st.read_sg req.sg_list) hdr in
      ground (arith, is, run, e)
  send_request-kept send_inval is e =
      let hdr =
        untagged_meta (rdma_hdr req.opcode) (htonl req.invalidate_rkey) send_qn l.msn_inval in
      let (ret, sock, run) =
        ddp_send_untagged_ends tcp st.mem st.sock (sges st.read_sg req.sg_list) hdr in
      ground (arith, is, run, e)
  send_request-kept send_se_inval is e =
      let hdr =
        untagged_meta (rdma_hdr req.opcode) (htonl req.invalidate_rkey) send_qn l.msn_inval in
      let (ret, sock, run) =
        ddp_send_untagged_ends tcp st.mem st.sock (sges st.read_sg req.sg_list) hdr in
      ground (arith, is, run, e)
  send_request-kept terminate is e = ground (arith, is, e)
  send_request-kept not_supported is e = ground (arith, is, e)

module _ (cq : ConcurrentQueue) {tcp : Tcp} (fifo : IsFifo cq) (x : ℕ) (st st' : Stream cq tcp)
    (l l' : SendLocals) (req : SendWr) where
  -- The completions of number `x` on the send queue's completion queue.
  abbrev done : Stream cq tcp → ℕ
  done s =
      count_if (is_done x) (completions cq fifo s st.send_cq)
      + count_if (is_done x) (waiting cq fifo s st.send_cq)

  abbrev one_if : Bool → ℕ
  one_if b = if b then 1 else 0

  Completes-done :
      send_request cq st l req ≡ some (st', l')
      → op_reported req.opcode (num_sge req.sg_list) ≡ true
      → Completes cq fifo st l req (send_request cq st l req)
      → done st' ≡ done st + one_if (is_sent x req)
  unfolding count_if
  Completes-done e counts (s, k, w, run, rep, now, later) =
      let same : s ≡ st' = cc in
      let id = rep.same_id in
      let (now', later') : (completions cq fifo st' st.send_cq
            ≡ completions cq fifo st st.send_cq ++ w ∷ [])
          × (waiting cq fifo st' st.send_cq ≡ waiting cq fifo st st.send_cq) =
        subst
          (λ t.
            (completions cq fifo t st.send_cq ≡ completions cq fifo st st.send_cq ++ w ∷ [])
            × (waiting cq fifo t st.send_cq ≡ waiting cq fifo st st.send_cq))
          same (now, later) in
      let added = count_if-append (is_done x) (completions cq fifo st st.send_cq) (w ∷ []) in
      ground (arith, now', later', added, counts, id)

  Waits-done :
      send_request cq st l req ≡ some (st', l')
      → op_reported req.opcode (num_sge req.sg_list) ≡ true
      → Waits cq fifo st l req (send_request cq st l req)
      → done st' ≡ done st + one_if (is_sent x req)
  unfolding count_if
  Waits-done e counts (s, k, w, run, rep, ok, now, later) =
      let same : s ≡ st' = cc in
      let id = rep.same_id in
      let (now', later') : (completions cq fifo st' st.send_cq ≡ completions cq fifo st st.send_cq)
          × (waiting cq fifo st' st.send_cq ≡ waiting cq fifo st st.send_cq ++ w ∷ []) =
        subst
          (λ t.
            (completions cq fifo t st.send_cq ≡ completions cq fifo st st.send_cq)
            × (waiting cq fifo t st.send_cq ≡ waiting cq fifo st st.send_cq ++ w ∷ []))
          same (now, later) in
      let added = count_if-append (is_done x) (waiting cq fifo st st.send_cq) (w ∷ []) in
      ground (arith, now', later', added, counts, id)

  Silent-done :
      send_request cq st l req ≡ some (st', l')
      → op_reported req.opcode (num_sge req.sg_list) ≡ false
      → Silent cq fifo st l req (send_request cq st l req)
      → done st' ≡ done st + one_if (is_sent x req)
  Silent-done e counts (s, k, run, same_cqs) =
      let same : s ≡ st' = cc in
      let cqs' : st'.cqs ≡ st.cqs = ap (λ t. t.cqs) (sym same) ∙ same_cqs in
      ground (arith, cqs', counts)

  -- The number of entries does not depend on what the shared entry holds.
  num_sge-sges : num_sge req.sg_list ≡ length (sges st.read_sg req.sg_list)
  num_sge-sges = go req.sg_list
    where
      go : (g : SgList) → num_sge g ≡ length (sges st.read_sg g)
      go (own xs) = refl
      go read_resp_sg = refl

  -- Doing a request adds one completion of its number if it is to be reported, and else none.
  Promise-done :
      (op : RdmaOpcode)
      → req.opcode ≡ op
      → send_request cq st l req ≡ some (st', l')
      → Promise cq fifo st l req op (send_request cq st l req)
      → done st' ≡ done st + one_if (is_sent x req)
  Promise-done rdma_write is e p = Completes-done e (ground (arith, is)) p
  Promise-done send is e p = Completes-done e (ground (arith, is)) p
  Promise-done send_se is e p = Completes-done e (ground (arith, is)) p
  Promise-done send_inval is e p = Completes-done e (ground (arith, is)) p
  Promise-done send_se_inval is e p = Completes-done e (ground (arith, is)) p
  Promise-done rdma_read_resp is e p = Silent-done e (ground (arith, is)) p
  Promise-done terminate is e p = Silent-done e (ground (arith, is)) p
  Promise-done not_supported is e p = Silent-done e (ground (arith, is)) p
  Promise-done rdma_read_req is e (inl (one, inl p)) =
      Completes-done e (ground (arith, is, one, num_sge-sges)) p
  Promise-done rdma_read_req is e (inl (one, inr p)) =
      Waits-done e (ground (arith, is, one, num_sge-sges)) p
  Promise-done rdma_read_req is e (inr (other, p)) =
      Silent-done e (ground (arith, is, other, num_sge-sges)) p

module _ (cq : ConcurrentQueue) {tcp : Tcp} (fifo : IsFifo cq) (x : ℕ) (st st' : Stream cq tcp)
    (l l' : SendLocals) where
  after_request :
      (req : SendWr) (wrs : List SendWr)
      → fifo.items SendWr st.send_q ≡ req ∷ wrs
      → send_request cq (record st { send_q = fifo.rest SendWr st.send_q }) l req ≡ some (st', l')
      → held cq fifo x st' ≡ held cq fifo x st
  unfolding held count_if
  after_request req wrs first e =
      let st₁ : Stream cq tcp = record st { send_q = fifo.rest SendWr st.send_q } in
      let (took, left) = fifo.try_dequeue_head SendWr st.send_q req wrs first in
      let same = send_request-kept cq st₁ st' l l' req req.opcode refl e in
      let counted =
        Promise-done cq fifo x st₁ st' l l' req req.opcode refl e
          (send_request_lem cq fifo st₁ l req) in
      let sends : fifo.items SendWr st'.send_q ≡ wrs =
        ap (λ k. fifo.items SendWr k.0) same ∙ left in
      let recvs : st'.recv_q ≡ st.recv_q = ap (λ k. k.1.0) same in
      let at : st'.send_cq ≡ st.send_cq = ap (λ k. k.1.1.0) same in
      ground (arith, first, counted, sends, recvs, at)

  -- A round of the send loop keeps the work of each number that its stream holds.
  pub send_round-held : send_round cq st l ≡ some (st', l') → held cq fifo x st' ≡ held cq fifo x st
  unfolding send_round held
  send_round-held e = go (fifo.items SendWr st.send_q) refl
    where
      go :
          (xs : List SendWr)
          → fifo.items SendWr st.send_q ≡ xs
          → held cq fifo x st' ≡ held cq fifo x st
      go [] none_left =
          let took = fifo.try_dequeue_empty SendWr st.send_q none_left in ground (arith, took, e)
      go (req ∷ wrs) first =
          let (took, left) = fifo.try_dequeue_head SendWr st.send_q req wrs first in
          after_request req wrs first (ground (arith, took, e))
