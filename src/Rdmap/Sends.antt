-- ===== src/Rdmap/Sends.antt =====
-- A send from machine to machine (suiw/rdmap/rdmap.cpp, suiw/ddp/ddp.cpp, suiw/mpa/mpa.cpp): a request
-- of one machine's send loop to a posted buffer of the other.
use soft_ui_warp.Prelude.{
  ℕ, ◌%◌, ◌^◌, ◌<◌, ◌≡◌, refl, sym, ap, subst, ◌∙◌, ◌⊎◌, inl, inr, Bool, some, List, [], ◌∷◌, ◌++◌,
  arith, pos,
}
use soft_ui_warp.Memory.{load, poke}
use soft_ui_warp.Queue.{ConcurrentQueue, IsFifo}
use soft_ui_warp.Tcp.{Tcp, IsReliable, IsOpen}
use soft_ui_warp.Ddp.{Sge, UntaggedBuffer}
use soft_ui_warp.Ddp.Send.{to_send, ddp_send_untagged}
use soft_ui_warp.Ddp.Untagged.{taken}
use soft_ui_warp.Ddp.UntaggedTransfer.{from_start}
use soft_ui_warp.Ddp.Transfer.{ddp_send_untagged_emits}
use soft_ui_warp.WorkQueue.{RdmaOpcode, send, send_se, opcode_number, wc_success, SendWr, RecvWr}
use soft_ui_warp.Rdmap.{Stream, complete, get_rdmap_op, send_qn}
use soft_ui_warp.Rdmap.RecvLoop.{RecvLocals, goes_on, recv_round}
use soft_ui_warp.Rdmap.SendLoop.{
  SendLocals, sges, untagged_meta, rdma_hdr, do_send, send_request, finish,
}
use soft_ui_warp.Rdmap.Handlers.{completions, waiting}
use soft_ui_warp.Rdmap.Arrivals.{send_received}
use soft_ui_warp.Rdmap.Messages.{
  IsShort, IsSendable, HasArrived, message_came, message_stored, untagged_meta-qn,
}

-- A request to send one entry that a segment takes, with or without a solicited event.
pub record IsSend (cq : ConcurrentQueue) {tcp : Tcp} (st : Stream cq tcp) (l : SendLocals)
    (req : SendWr) (sg : Sge) : Type 0 where
  pub which : (req.opcode ≡ send) ⊎ (req.opcode ≡ send_se)
  pub one_entry : sges st.read_sg req.sg_list ≡ sg ∷ []
  pub short : IsShort sg
  pub garbage_fits : l.garbage < 2 ^ 32
  pub msn_fits : l.msn_send < 2 ^ 32

-- The control byte of such a request: it fits, and the receiver reads the operation from it.
send_ctrl :
    (op : RdmaOpcode)
    → (op ≡ send) ⊎ (op ≡ send_se)
    → (rdma_hdr op < 2 ^ 8)
      × (get_rdmap_op (rdma_hdr op) ≡ opcode_number op)
      × ((opcode_number op ≡ 3) ⊎ (opcode_number op ≡ 5))
unfolding get_rdmap_op
send_ctrl op (inl e) =
    subst
      (λ o.
        (rdma_hdr o < 2 ^ 8)
        × (get_rdmap_op (rdma_hdr o) ≡ opcode_number o)
        × ((opcode_number o ≡ 3) ⊎ (opcode_number o ≡ 5)))
      (sym e) (omega arith, refl, inl refl)
send_ctrl op (inr e) =
    subst
      (λ o.
        (rdma_hdr o < 2 ^ 8)
        × (get_rdmap_op (rdma_hdr o) ≡ opcode_number o)
        × ((opcode_number o ≡ 3) ⊎ (opcode_number o ≡ 5)))
      (sym e) (omega arith, refl, inr refl)

-- The socket after a send is that after its untagged message.
send-sock :
    (cq : ConcurrentQueue) {tcp : Tcp} (st st' : Stream cq tcp) (l l' : SendLocals) (req : SendWr)
    (s' : tcp.State)
    → (req.opcode ≡ send) ⊎ (req.opcode ≡ send_se)
    → ddp_send_untagged tcp st.mem st.sock
        (untagged_meta (rdma_hdr req.opcode) l.garbage send_qn l.msn_send)
        (sges st.read_sg req.sg_list)
      ≡ some (pos 0, s')
    → send_request cq st l req ≡ some (st', l')
    → st'.sock ≡ s'
unfolding send_request do_send finish complete
send-sock cq st st' l l' req s' (inl op) run e = ground (arith, op, run, e)
send-sock cq st st' l l' req s' (inr op) run e = ground (arith, op, run, e)

-- End to end: when one machine's send loop has done a send request of one entry that a segment
-- takes, and the bytes that it sent have arrived at the other machine, a round of the receive loop
-- there goes on, stores the entry's bytes from the start of the oldest buffer of queue 0 on, takes
-- that buffer and the oldest receive request, and reports that request with success and length 0,
-- behind the completions that are to be polled. The header's numbers must fit their fields, the
-- sequence number not be below the queue's, and the fuel cover a segment.
pub send_transfer :
    (cq : ConcurrentQueue) {tcp tcp' : Tcp} (fifo : IsFifo cq) (net : IsReliable tcp)
    (out : IsOpen tcp') (asserts : Bool) (fuel segs : ℕ) (st₁ st₁' : Stream cq tcp')
    (l₁ l₁' : SendLocals) (req : SendWr) (sg : Sge) (st : Stream cq tcp) (l : RecvLocals)
    (b : UntaggedBuffer) (q' : cq.Q UntaggedBuffer) (wr : RecvWr) (wrs : List RecvWr)
    (rest : List ℕ)
    → IsSend cq st₁ l₁ req sg
    → send_request cq st₁ l₁ req ≡ some (st₁', l₁')
    → HasArrived cq net out fuel segs st₁.sock st₁'.sock st send_qn l₁.msn_send b q' rest
    → fifo.items RecvWr st.recv_q ≡ wr ∷ wrs
    → (st' : Stream cq tcp) × (l' : RecvLocals) × (recv_round cq asserts fuel segs st l
        ≡ some (goes_on, (st', l')))
      × (st'.mem ≡ poke st.mem (b.buf_addr % 2 ^ 64) (load st₁.mem sg.addr sg.len))
      × (st'.ddp_ctx ≡ taken cq st.ddp_ctx send_qn q')
      × (net.pending st'.sock ≡ rest)
      × (fifo.items RecvWr st'.recv_q ≡ wrs)
      × (completions cq fifo st' st.send_cq
          ≡ completions cq fifo st st.send_cq
            ++ record l.wce {
              wr_id = wr.wr_id;
              status = wc_success;
              opcode = opcode_number req.opcode;
              byte_len = 0;
            }
              ∷ [])
      × (waiting cq fifo st' st.send_cq ≡ waiting cq fifo st st.send_cq)
unfolding untagged_meta
send_transfer cq fifo net out asserts fuel segs st₁ st₁' l₁ l₁' req sg st l b q' wr wrs rest is ran
      here some_wr =
    let ctrl = rdma_hdr req.opcode in
    let h = untagged_meta ctrl l₁.garbage send_qn l₁.msn_send in
    let (fits, is_op, which) = send_ctrl req.opcode is.which in
    let ok : IsSendable ctrl l₁.garbage send_qn l₁.msn_send = record {
      ctrl_fits = fits;
      ulp2_fits = is.garbage_fits;
      qn_in_range = omega arith;
      msn_fits = is.msn_fits;
    } in
    let some_bytes : 0 < to_send sg.len =
      (let s = is.short in ground (arith, s.some_bytes, s.few_bytes)) in
    let (s', run, went) = ddp_send_untagged_emits out st₁.mem st₁.sock (sg ∷ []) h some_bytes in
    let same : st₁'.sock ≡ s' =
      send-sock cq st₁ st₁' l₁ l₁' req s' is.which
        (ap (ddp_send_untagged _ st₁.mem st₁.sock h) is.one_entry ∙ run) ran in
    let came =
      message_came cq net out fuel segs st l b q' rest st₁.sock st₁'.sock st₁.mem sg ctrl l₁.garbage
        send_qn l₁.msn_send is.short ok (run ∙ ap (λ s. some (pos 0, s)) (sym same)) here in
    let (st', l', round, stored, took, end, left, now, later) =
      send_received cq net asserts fuel segs st l (from_start h) b q' rest _ fifo
        (opcode_number req.opcode) wr wrs which is_op some_wr came in
    (
      st',
      l',
      round,
      stored
          ∙ message_stored cq net out fuel segs st l b q' rest st₁.sock st₁'.sock st₁.mem sg ctrl
              l₁.garbage send_qn l₁.msn_send st.mem,
      took
          ∙ ap (λ n. taken cq st.ddp_ctx n q')
              (untagged_meta-qn ctrl l₁.garbage send_qn l₁.msn_send ok),
      end,
      left,
      now,
      later,
    )
