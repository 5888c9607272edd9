-- ===== src/Rdmap/SendLoop.antt =====
-- `rnic_send` (suiw/rdmap/rdmap.cpp): the loop of the sending thread, a round at a time.
use Prim.Native.Nat.{bit_or}
use soft_ui_warp.Prelude.{
  ℕ, zero, suc, ◌+◌, ◌%◌, ◌^◌, true, false, Option, none, some, List, [], ◌∷◌, ◌++◌, if◌then◌else◌,
  ℤ, pos, ltb_ℤ,
}
use soft_ui_warp.Wire.{le_bytes, htonl, htonll}
use soft_ui_warp.Memory.{poke}
use soft_ui_warp.Queue.{ConcurrentQueue}
use soft_ui_warp.Tcp.{Tcp}
use soft_ui_warp.Ddp.{Sge, TaggedMeta, UntaggedMeta}
use soft_ui_warp.Ddp.Send.{ddp_send_tagged, ddp_send_untagged}
use soft_ui_warp.WorkQueue.{
  RdmaOpcode, rdma_write, rdma_read_req, rdma_read_resp, send, send_inval, send_se, send_se_inval,
  terminate, not_supported, opcode_number, wc_success, wc_fatal_err, WorkCompletion, to_u32, SgList,
  own, read_resp_sg, SendWr, send_wr_to_wce,
}
use soft_ui_warp.Rdmap.{
  Stream, ReadReqFields, send_qn, read_qn, read_req_size, complete, complete_later,
}

-- The loop's own variables: the completion it fills in; the three static counters; what `rsvdULP2`
-- holds when nothing sets it; and the address of `fields`.
pub record SendLocals : Type 0 where
  pub wce : WorkCompletion
  pub msn_send : ℕ
  pub msn_inval : ℕ
  pub msn_read : ℕ
  pub garbage : ℕ
  pub fields_at : ℕ

-- `rdma_hdr`.
abbrev pub rdma_hdr : RdmaOpcode → ℕ
rdma_hdr op = bit_or (2 ^ 6) (opcode_number op)

-- The list that `sg_list` points to.
abbrev pub sges : Sge → SgList → List Sge
sges sg (own xs) = xs
sges sg read_resp_sg = sg ∷ []

-- The fields of a read request, and as they stand in memory.
unfoldable pub fields_of : SendWr → Sge → ReadReqFields
fields_of req sg = record {
  sink_tag = sg.lkey;
  sink_to = sg.addr;
  rdma_rd_sz = sg.len;
  src_tag = req.rkey;
  src_to = req.remote_addr;
}

unfoldable pub fields_bytes : ReadReqFields → List ℕ
fields_bytes f =
    le_bytes 4 f.sink_tag
    ++ le_bytes 8 f.sink_to
    ++ le_bytes 4 f.rdma_rd_sz
    ++ le_bytes 4 f.src_tag
    ++ le_bytes 8 f.src_to

-- The second header of a send, before `mo` is set.
unfoldable pub untagged_meta : ℕ → ℕ → ℕ → ℕ → UntaggedMeta
untagged_meta ctrl ulp2 qn msn = record {
  rsvd_ulp1 = ctrl;
  rsvd_ulp2 = ulp2;
  qn = htonl qn;
  msn = htonl msn;
  mo = 0;
}

unfoldable pub tagged_meta : SendWr → TaggedMeta
tagged_meta req = record {
  rsvd_ulp1 = rdma_hdr req.opcode;
  tag = htonl req.rkey;
  to = htonll req.remote_addr;
}

-- The completion of a request whose sending gave `ret`.
unfoldable pub completion : SendWr → ℤ → WorkCompletion → WorkCompletion
unfolding send_wr_to_wce
completion req ret wce = record (send_wr_to_wce req wce) {
  byte_len = to_u32 ret;
  status = if ltb_ℤ ret (pos 0) then wc_fatal_err else wc_success;
}

abbrev pub SendState : ConcurrentQueue → Tcp → Type 0
SendState cq tcp = Stream cq tcp × SendLocals

module _ (cq : ConcurrentQueue) {tcp : Tcp} where
  -- The end of a case: the completion is put on the completion queue.
  unfoldable pub finish : SendWr → ℤ → Stream cq tcp → SendLocals → SendState cq tcp
  unfolding completion complete
  finish req ret st l =
      let wce' = completion req ret l.wce in
      (complete cq st st.send_cq wce', record l { wce = wce' })

  -- Send, and send with solicited event.
  unfoldable pub do_send : Stream cq tcp → SendLocals → SendWr → Option (SendState cq tcp)
  unfolding finish untagged_meta
  do_send st l req =
      let hdr = untagged_meta (rdma_hdr req.opcode) l.garbage send_qn l.msn_send in
      let l' : SendLocals = record l { msn_send = (l.msn_send + 1) % 2 ^ 32 } in
      elim (ddp_send_untagged tcp st.mem st.sock hdr (sges st.read_sg req.sg_list)) [
        | none ↦ none
        | some (ret, sock) ↦ some (finish req ret (record st { sock = sock }) l')
      ]

  -- Send with invalidate.
  unfoldable pub do_send_inval : Stream cq tcp → SendLocals → SendWr → Option (SendState cq tcp)
  unfolding finish untagged_meta
  do_send_inval st l req =
      let hdr =
        untagged_meta (rdma_hdr req.opcode) (htonl req.invalidate_rkey) send_qn l.msn_inval in
      let l' : SendLocals = record l { msn_inval = (l.msn_inval + 1) % 2 ^ 32 } in
      elim (ddp_send_untagged tcp st.mem st.sock hdr (sges st.read_sg req.sg_list)) [
        | none ↦ none
        | some (ret, sock) ↦ some (finish req ret (record st { sock = sock }) l')
      ]

  -- A read request: a failed one completes at once, another when its response has come.
  unfoldable pub do_read : Stream cq tcp → SendLocals → SendWr → Option (SendState cq tcp)
  unfolding finish untagged_meta fields_of fields_bytes completion complete_later
  do_read st l req =
      let hdr = untagged_meta (rdma_hdr req.opcode) l.garbage read_qn l.msn_read in
      let l' : SendLocals = record l { msn_read = (l.msn_read + 1) % 2 ^ 32 } in
      elim (sges st.read_sg req.sg_list) [
        | [] ↦ some (st, l')
        | sg ∷ _ ∷ _ ↦ some (st, l')
        | sg ∷ [] ↦
            let mem = poke st.mem l.fields_at (fields_bytes (fields_of req sg)) in
            let message : Sge = record { addr = l.fields_at; len = read_req_size; lkey = 0 } in
            elim (ddp_send_untagged tcp mem st.sock hdr (message ∷ [])) [
              | none ↦ none
              | some (ret, sock) ↦
                  let st' : Stream cq tcp = record st { sock = sock; mem = mem } in
                  let wce' = completion req ret l.wce in
                  if ltb_ℤ ret (pos 0)
                  then some (finish req ret st' l')
                  else some (complete_later cq st' st.send_cq wce', record l' { wce = wce' })
            ]
      ]

  unfoldable pub do_write : Stream cq tcp → SendLocals → SendWr → Option (SendState cq tcp)
  unfolding finish tagged_meta
  do_write st l req =
      elim (ddp_send_tagged tcp st.mem st.sock (tagged_meta req) (sges st.read_sg req.sg_list)) [
        | none ↦ none
        | some (ret, sock) ↦ some (finish req ret (record st { sock = sock }) l)
      ]

  -- A read response has no completion.
  unfoldable pub do_read_resp : Stream cq tcp → SendLocals → SendWr → Option (SendState cq tcp)
  unfolding tagged_meta
  do_read_resp st l req =
      elim (ddp_send_tagged tcp st.mem st.sock (tagged_meta req) (sges st.read_sg req.sg_list)) [
        | none ↦ none
        | some (ret, sock) ↦ some (record st { sock = sock }, l)
      ]

  -- The `switch` of a round.
  unfoldable pub send_request : Stream cq tcp → SendLocals → SendWr → Option (SendState cq tcp)
  unfolding do_send do_send_inval do_read do_write do_read_resp
  send_request st l req = elim req.opcode [
    | send_se ↦ do_send st l req
    | send ↦ do_send st l req
    | send_se_inval ↦ do_send_inval st l req
    | send_inval ↦ do_send_inval st l req
    | rdma_read_req ↦ do_read st l req
    | rdma_write ↦ do_write st l req
    | rdma_read_resp ↦ do_read_resp st l req
    | terminate ↦ some (st, l)
    | not_supported ↦ some (st, l)
  ]

  -- One round: nothing to do on an empty queue.
  unfoldable pub send_round : Stream cq tcp → SendLocals → Option (SendState cq tcp)
  unfolding send_request
  send_round st l =
      let (found, q') = cq.try_dequeue SendWr st.send_q in
      let st' : Stream cq tcp = record st { send_q = q' } in
      elim found [ none ↦ some (st', l) | some req ↦ send_request st' l req ]

  -- `rnic_send`: rounds while connected, of which `rounds` is a bound.
  unfoldable pub rnic_send : ℕ → Stream cq tcp → SendLocals → Option (SendState cq tcp)
  unfolding send_round
  rnic_send zero st l = none
  rnic_send (suc rounds) st l = elim st.connected [
    | false ↦ some (st, l)
    | true ↦ elim (send_round st l) [ none ↦ none | some (st', l') ↦ rnic_send rounds st' l' ]
  ]
