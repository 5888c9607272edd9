-- ===== src/Rdmap/RecvLoop.antt =====
-- `rnic_recv` (suiw/rdmap/rdmap.cpp): the loop of the receiving thread, a round at a time.
use Prim.Native.Nat.{bit_and}
use soft_ui_warp.Prelude.{
  ℕ, zero, suc, ◌+◌, ◌%◌, ◌^◌, Bool, true, false, not, ◌&&◌, Option, none, some, [], ◌∷◌, ◌==◌,
  if◌then◌else◌, ℤ, pos, ltb_ℤ,
}
use soft_ui_warp.Memory.{Memory, load, update}
use soft_ui_warp.Queue.{ConcurrentQueue}
use soft_ui_warp.Tcp.{Tcp}
use soft_ui_warp.Ddp.{Sge, Stag, ddp_hdr_t, ddp_post_recv}
use soft_ui_warp.Ddp.Recv.{World, ddp_recv}
use soft_ui_warp.Ddp.Message.{Meta, tagged, untagged, DdpMessage, as_untagged, field_at}
use soft_ui_warp.WorkQueue.{
  rdma_write, rdma_read_req, rdma_read_resp, send, send_inval, send_se, send_se_inval, terminate,
  not_supported, opcode_of, wc_success, WorkCompletion, to_u32, read_resp_sg, RecvWr, SendWr,
}
use soft_ui_warp.Rdmap.{Stream, ReadReqFields, get_rdmap_op, read_qn, complete, rdma_invalidate}

-- The loop's own variables that live from round to round.
pub record RecvLocals : Type 0 where
  pub msg : DdpMessage
  pub wce : WorkCompletion
  -- `read_resp.wr_id`
  pub read_wr_id : ℕ

-- How a round ends: the loop goes on, the thread returns -1, or an assertion fails.
pub data Round : Type 0 where
  goes_on returns_error aborts : Round

-- `ddp_is_tagged`.
unfoldable pub ddp_is_tagged : ℕ → Bool
ddp_is_tagged bits = not (bit_and ddp_hdr_t bits == 0)

-- The byte behind the DDP control byte, which is `rsvdULP1` of either header.
unfoldable pub rsvd_ulp1 : Meta → ℕ
rsvd_ulp1 (tagged h) = h.rsvd_ulp1
rsvd_ulp1 (untagged h) = h.rsvd_ulp1

-- The fields of a read request as they stand in its buffer. (Only a build with `RPING` swaps them.)
unfoldable pub read_req_fields : Memory → ℕ → ReadReqFields
unfolding field_at
read_req_fields mem a =
    let bs = load mem a 28 in
    record {
      sink_tag = field_at 0 4 bs;
      sink_to = field_at 4 8 bs;
      rdma_rd_sz = field_at 12 4 bs;
      src_tag = field_at 16 4 bs;
      src_to = field_at 20 8 bs;
    }

abbrev pub RecvState : ConcurrentQueue → Tcp → Type 0
RecvState cq tcp = Stream cq tcp × RecvLocals

-- The retries of `enqueue`, whose number the fuel bounds.
unfoldable pub push_until : (cq : ConcurrentQueue) → ℕ → cq.Q SendWr → SendWr → Option (cq.Q SendWr)
push_until cq zero q wr = none
push_until cq (suc fuel) q wr =
    let (pushed, q') = cq.enqueue SendWr q wr in
    elim pushed [ true ↦ some q' | false ↦ push_until cq fuel q' wr ]

module _ (cq : ConcurrentQueue) {tcp : Tcp} where
  -- A read request: a read response is put on the send queue, and the request's buffer back on its
  -- queue. The source tag is looked up, and what is found is not used.
  unfoldable pub handle_read_req :
      ℕ → Stream cq tcp → RecvLocals → Option (Round × RecvState cq tcp)
  unfolding push_until read_req_fields
  handle_read_req fuel st l =
      let buf = as_untagged l.msg.buf in
      let req = read_req_fields st.mem buf.buf_addr in
      let sg : Sge = record { addr = req.src_to; len = req.rdma_rd_sz; lkey = req.src_tag } in
      let read_resp : SendWr = record {
        wr_id = l.read_wr_id;
        sg_list = read_resp_sg;
        opcode = rdma_read_resp;
        invalidate_rkey = 0;
        remote_addr = req.sink_to;
        rkey = req.sink_tag;
      } in
      elim (push_until cq fuel st.send_q read_resp) [
        | none ↦ none
        | some q' ↦ some (
          goes_on,
          (
            record st {
              ddp_ctx = ddp_post_recv cq st.ddp_ctx (pos read_qn) (buf ∷ []);
              send_q = q';
              read_sg = sg;
            },
            record l { read_wr_id = (l.read_wr_id + 1) % 2 ^ 64 },
          ),
        )
      ]

  -- A read response completes the oldest pending read; `ret` is the result of `ddp_recv`.
  unfoldable pub handle_read_resp : ℤ → Stream cq tcp → RecvLocals → RecvState cq tcp
  handle_read_resp ret st l =
      let c = st.cqs st.send_cq in
      let (found, q') = cq.try_dequeue WorkCompletion c.pending_q in
      let st' = record st { cqs = update st.cqs st.send_cq (record c { pending_q = q' }) } in
      elim found [
        | none ↦ (st', l)
        | some wce ↦
            let wce' = record wce { byte_len = to_u32 ret } in
            (complete cq st' st.send_cq wce', record l { wce = wce' })
      ]

  -- A send completes the oldest receive request, on the send queue's completion queue.
  unfoldable pub handle_send : ℕ → ℤ → Stream cq tcp → RecvLocals → RecvState cq tcp
  handle_send opcode ret st l =
      let (found, q') = cq.try_dequeue RecvWr st.recv_q in
      let st' = record st { recv_q = q' } in
      elim found [
        | none ↦ (st', l)
        | some wr ↦
            let wce' = record l.wce {
              wr_id = wr.wr_id;
              status = wc_success;
              opcode = opcode;
              byte_len = to_u32 ret;
            } in
            (complete cq st' st.send_cq wce', record l { wce = wce' })
      ]

  -- `assert(b)`; `asserts` tells whether assertions are compiled in.
  unfoldable pub asserted :
      Bool
      → Bool
      → Option (Round × RecvState cq tcp)
      → RecvState cq tcp
      → Option (Round × RecvState cq tcp)
  asserted asserts b k s = if asserts && not b then some (aborts, s) else k

  -- The `switch` of a round, on a message that has been received with result `ret`.
  unfoldable pub dispatch :
      Bool → ℕ → ℤ → Stream cq tcp → RecvLocals → Option (Round × RecvState cq tcp)
  unfolding handle_read_req handle_read_resp handle_send asserted rsvd_ulp1 ddp_is_tagged opcode_of
  dispatch asserts fuel ret st l =
      let is_tagged = ddp_is_tagged l.msg.bits in
      let ctrl = rsvd_ulp1 l.msg.metadata in
      let opcode = get_rdmap_op ctrl in
      let same : RecvState cq tcp = (st, l) in
      let sent =
        asserted asserts (not is_tagged) (some (goes_on, handle_send opcode ret st l)) same in
      let stag : Stag = record { tag = ctrl; pd_id = 0 } in
      let (erased, st') = rdma_invalidate cq st stag in
      let invalidated =
        if erased == 0
        then some (returns_error, (st', l))
        else asserted asserts (not is_tagged) (some (goes_on, handle_send opcode ret st' l))
            (st', l) in
      let nothing = some (goes_on, same) in
      elim (opcode_of opcode) [
        | none ↦ nothing
        | some op ↦ elim op [
          | rdma_write ↦ asserted asserts is_tagged nothing same
          | rdma_read_req ↦ asserted asserts (not is_tagged) (handle_read_req fuel st l) same
          | rdma_read_resp ↦
              asserted asserts is_tagged (some (goes_on, handle_read_resp ret st l)) same
          | send_se_inval ↦ invalidated
          | send_inval ↦ invalidated
          | send_se ↦ sent
          | send ↦ sent
          | terminate ↦
              asserted asserts (not is_tagged)
                (some (goes_on, (record st { connected = false }, l))) same
          | not_supported ↦ nothing
        ]
      ]

  -- One round of the loop.
  unfoldable pub recv_round :
      Bool → ℕ → ℕ → Stream cq tcp → RecvLocals → Option (Round × RecvState cq tcp)
  unfolding dispatch
  recv_round asserts fuel segs st l =
      let w : World cq tcp = record { ctx = st.ddp_ctx; sock = st.sock; mem = st.mem } in
      elim (ddp_recv cq tcp fuel segs w l.msg) [
        | none ↦ none
        | some (ret, msg, w') ↦
            let st' = record st { ddp_ctx = w'.ctx; sock = w'.sock; mem = w'.mem } in
            let l' = record l { msg = msg } in
            if ltb_ℤ ret (pos 0)
            then some (returns_error, (st', l'))
            else dispatch asserts fuel ret st' l'
      ]

  -- `rnic_recv`: rounds while connected. `rounds` bounds them; `none` means that it ran out, or
  -- that a call within a round did.
  unfoldable pub rnic_recv :
      Bool → ℕ → ℕ → ℕ → Stream cq tcp → RecvLocals → Option (Round × RecvState cq tcp)
  unfolding recv_round
  rnic_recv asserts fuel segs zero st l = none
  rnic_recv asserts fuel segs (suc rounds) st l = elim st.connected [
    | false ↦ some (goes_on, (st, l))
    | true ↦ elim (recv_round asserts fuel segs st l) [
      | none ↦ none
      | some (goes_on, (st', l')) ↦ rnic_recv asserts fuel segs rounds st' l'
      | some (returns_error, s) ↦ some (returns_error, s)
      | some (aborts, s) ↦ some (aborts, s)
    ]
  ]
