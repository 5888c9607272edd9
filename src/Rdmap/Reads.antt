-- ===== src/Rdmap/Reads.antt =====
-- An RDMA read's request from machine to machine (suiw/rdmap/rdmap.cpp): from the send loop of the one
-- that reads to the send queue of the other.
use soft_ui_warp.Prelude.{
  ℕ, zero, suc, ◌^◌, ◌<◌, ◌≡◌, refl, sym, ap, ◌∙◌, Bool, some, List, [], ◌∷◌, ◌++◌, arith, pos,
  length,
}
use soft_ui_warp.Memory.{load, poke, load-poke}
use soft_ui_warp.Wire.{le_bytes}
use soft_ui_warp.Queue.{ConcurrentQueue, IsFifo}
use soft_ui_warp.Tcp.{Tcp, IsReliable, IsOpen}
use soft_ui_warp.Ddp.{Sge, UntaggedBuffer, UntaggedMeta, untagged_bytes}
use soft_ui_warp.Ddp.Send.{advance_mo, ddp_send_untagged}
use soft_ui_warp.Ddp.Untagged.{taken, in_buffer}
use soft_ui_warp.Ddp.Segments.{deposit}
use soft_ui_warp.Ddp.UntaggedTransfer.{from_start}
use soft_ui_warp.Ddp.Transfer.{ddp_send_untagged_emits}
use soft_ui_warp.WorkQueue.{rdma_read_req, SendWr}
use soft_ui_warp.Rdmap.{
  Stream, ReadReqFields, complete, complete_later, get_rdmap_op, read_qn, read_req_size,
}
use soft_ui_warp.Rdmap.RecvLoop.{RecvLocals, goes_on, recv_round, read_req_fields}
use soft_ui_warp.Rdmap.SendLoop.{
  SendLocals, sges, untagged_meta, rdma_hdr, fields_of, fields_bytes, do_read, send_request, finish,
}
use soft_ui_warp.Rdmap.ReadRequests.{FieldsFit, response, read_req_fields-fields_bytes}
use soft_ui_warp.Rdmap.Arrivals.{read_request_received}
use soft_ui_warp.Rdmap.Messages.{
  IsShort, IsSendable, HasArrived, message_came, message_stored, untagged_meta-qn,
}

-- A read request of one entry whose numbers fit their fields.
pub record IsRead (cq : ConcurrentQueue) {tcp : Tcp} (st : Stream cq tcp) (l : SendLocals)
    (req : SendWr) (sg : Sge) : Type 0 where
  pub is_read : req.opcode ≡ rdma_read_req
  pub one_entry : sges st.read_sg req.sg_list ≡ sg ∷ []
  pub fields_fit : FieldsFit (fields_of req sg)
  pub at_fits : l.fields_at < 2 ^ 64
  pub garbage_fits : l.garbage < 2 ^ 32
  pub msn_fits : l.msn_read < 2 ^ 32

length-fields_bytes : (f : ReadReqFields) → length (fields_bytes f) ≡ read_req_size
unfolding fields_bytes le_bytes
length-fields_bytes f = refl

-- The sender's memory with the fields of the request, and the entry that names them.
abbrev pub with_fields : (ℕ → ℕ) → SendLocals → SendWr → Sge → ℕ → ℕ
with_fields mem l req sg = poke mem l.fields_at (fields_bytes (fields_of req sg))

abbrev pub fields_sge : SendLocals → Sge
fields_sge l = record { addr = l.fields_at; len = read_req_size; lkey = 0 }

fields_gathered :
    (mem : ℕ → ℕ) (l : SendLocals) (req : SendWr) (sg : Sge)
    → load (with_fields mem l req sg) l.fields_at read_req_size ≡ fields_bytes (fields_of req sg)
fields_gathered mem l req sg =
    let f = fields_bytes (fields_of req sg) in
    ap (load (with_fields mem l req sg) l.fields_at) (sym (length-fields_bytes (fields_of req sg)))
    ∙ load-poke mem l.fields_at f

abbrev read_meta : SendLocals → UntaggedMeta
read_meta l = untagged_meta (rdma_hdr rdma_read_req) l.garbage read_qn l.msn_read

-- The stream after a read request whose message has been sent.
read-sock :
    (cq : ConcurrentQueue) {tcp : Tcp} (st st' : Stream cq tcp) (l l' : SendLocals) (req : SendWr)
    (sg : Sge) (s' : tcp.State)
    → req.opcode ≡ rdma_read_req
    → sges st.read_sg req.sg_list ≡ sg ∷ []
    → ddp_send_untagged tcp (with_fields st.mem l req sg) st.sock (read_meta l) (fields_sge l ∷ [])
      ≡ some (pos 0, s')
    → send_request cq st l req ≡ some (st', l')
    → (st'.sock ≡ s') × (st'.mem ≡ with_fields st.mem l req sg)
unfolding send_request do_read finish complete complete_later
read-sock cq st st' l l' req sg s' op one run e =
    (ground (arith, op, one, run, e), ground (arith, op, one, run, e))

-- The control byte of a read request.
read_op : get_rdmap_op (rdma_hdr rdma_read_req) ≡ 1
unfolding get_rdmap_op
read_op = refl

-- End to end: when one machine's send loop has done a read request of one entry, and the bytes that
-- it sent have arrived at the other machine, a round of the receive loop there goes on and puts one
-- read response behind the work on its send queue, for the tag and the address of the requester's
-- entry; the entry that responses share names the remote address, the entry's length and the remote
-- key; and the buffer that took the request stands again behind those of queue 1. The numbers must
-- fit their fields, the sequence number not be below the queue's, and the fuel cover a segment.
pub read_request_transfer :
    (cq : ConcurrentQueue) {tcp tcp' : Tcp} (fifo : IsFifo cq) (net : IsReliable tcp)
    (out : IsOpen tcp') (asserts : Bool) (fuel segs : ℕ) (st₁ st₁' : Stream cq tcp')
    (l₁ l₁' : SendLocals) (req : SendWr) (sg : Sge) (st : Stream cq tcp) (l : RecvLocals)
    (b : UntaggedBuffer) (q' : cq.Q UntaggedBuffer) (rest : List ℕ)
    → IsRead cq st₁ l₁ req sg
    → send_request cq st₁ l₁ req ≡ some (st₁', l₁')
    → b.buf_addr < 2 ^ 64
    → HasArrived cq net out fuel segs st₁.sock st₁'.sock st read_qn l₁.msn_read b q' rest
    → (st' : Stream cq tcp) × (l' : RecvLocals) × (recv_round cq asserts fuel segs st l
        ≡ some (goes_on, (st', l')))
      × (fifo.items SendWr st'.send_q
          ≡ fifo.items SendWr st.send_q ++ response l (fields_of req sg) ∷ [])
      × (st'.read_sg ≡ record { addr = req.remote_addr; len = sg.len; lkey = req.rkey })
      × (fifo.items UntaggedBuffer (st'.ddp_ctx.queues read_qn).q
          ≡ fifo.items UntaggedBuffer q' ++ b ∷ [])
      × (st'.mem ≡ poke st.mem b.buf_addr (fields_bytes (fields_of req sg)))
      × (st'.recv_q ≡ st.recv_q)
      × (st'.cqs ≡ st.cqs)
      × (net.pending st'.sock ≡ rest)
unfolding untagged_meta fields_of
read_request_transfer cq {tcp} fifo net out asserts (suc fuel) segs st₁ st₁' l₁ l₁' req sg st l b q'
      rest is ran low here =
    let ctrl = rdma_hdr rdma_read_req in
    let h = read_meta l₁ in
    let entry = fields_sge l₁ in
    let mem = with_fields st₁.mem l₁ req sg in
    let ok : IsSendable ctrl l₁.garbage read_qn l₁.msn_read = record {
      ctrl_fits = omega arith;
      ulp2_fits = is.garbage_fits;
      qn_in_range = omega arith;
      msn_fits = is.msn_fits;
    } in
    let short : IsShort entry = record {
      some_bytes = omega arith;
      few_bytes = omega arith;
      in_range = is.at_fits;
    } in
    let (s', run, went) = ddp_send_untagged_emits out mem st₁.sock (entry ∷ []) h (omega arith) in
    let (same, kept) = read-sock cq st₁ st₁' l₁ l₁' req sg s' is.is_read is.one_entry run ran in
    let came =
      message_came cq net out (suc fuel) segs st l b q' rest st₁.sock st₁'.sock mem entry ctrl
        l₁.garbage read_qn l₁.msn_read short ok (run ∙ ap (λ s. some (pos 0, s)) (sym same)) here in
    let fs = fields_of req sg in
    let stored : deposit untagged_bytes advance_mo (in_buffer b) st.mem (from_start h)
          (load mem l₁.fields_at read_req_size ∷ [])
        ≡ poke st.mem b.buf_addr (fields_bytes fs) =
      message_stored cq net out (suc fuel) segs st l b q' rest st₁.sock st₁'.sock mem entry ctrl
        l₁.garbage read_qn l₁.msn_read st.mem
      ∙ ap (λ a. poke st.mem a (load mem l₁.fields_at read_req_size)) (omega arith)
      ∙ ap (poke st.mem b.buf_addr) (fields_gathered st₁.mem l₁ req sg) in
    let to_qn = untagged_meta-qn ctrl l₁.garbage read_qn l₁.msn_read ok in
    let (st', l', round, queued, shared, posted, kept_mem, recvs, kept_cqs, end) =
      read_request_received cq net asserts (suc fuel) segs st l (from_start h) b q' rest
        (load mem l₁.fields_at read_req_size ∷ []) fifo fuel fs refl read_op
        (ap (λ m. read_req_fields m b.buf_addr) stored
          ∙ read_req_fields-fields_bytes st.mem b.buf_addr fs is.fields_fit)
        came in
    (
      st',
      l',
      round,
      queued,
      shared,
      posted
          ∙ ap
              (λ n.
                fifo.items UntaggedBuffer ((taken cq st.ddp_ctx n q').queues read_qn).q ++ b ∷ [])
              to_qn,
      kept_mem ∙ stored,
      recvs,
      kept_cqs,
      end,
    )
read_request_transfer cq fifo net out asserts zero segs st₁ st₁' l₁ l₁' req sg st l b q' rest is ran
      low here =
    (let f = here.enough_fuel in absurd (omega arith))
