-- ===== src/Rdmap/ReadRequests.antt =====
-- Read requests (suiw/rdmap/rdmap.cpp): their fields in memory, and what the receive loop does with
-- one.
use soft_ui_warp.Prelude.{
  ℕ, suc, ◌+◌, ◌%◌, ◌^◌, ◌<◌, ◌≡◌, refl, sym, ap, subst, ◌∙◌, some, [], ◌∷◌, ◌++◌, append_assoc,
  arith, pos,
}
use soft_ui_warp.Memory.{Memory, poke, load-poke}
use soft_ui_warp.Wire.{le_bytes}
use soft_ui_warp.Wire.Bytes.{from_le-le_bytes}
use soft_ui_warp.Queue.{ConcurrentQueue, IsFifo}
use soft_ui_warp.Tcp.{Tcp}
use soft_ui_warp.Ddp.{ddp_post_recv, Sge, UntaggedBuffer}
use soft_ui_warp.Ddp.Checks.{ddp_post_recv_lem}
use soft_ui_warp.Ddp.Message.{DdpMessage, as_untagged, field_at}
use soft_ui_warp.WorkQueue.{rdma_read_resp, read_resp_sg, SendWr}
use soft_ui_warp.Rdmap.{Stream, ReadReqFields, read_qn}
use soft_ui_warp.Rdmap.RecvLoop.{RecvLocals, goes_on, push_until, read_req_fields, handle_read_req}
use soft_ui_warp.Rdmap.SendLoop.{fields_bytes, sges}

-- The fields of a read request fit their integers.
pub record FieldsFit (f : ReadReqFields) : Type 0 where
  pub sink_tag_fits : f.sink_tag < 2 ^ 32
  pub sink_to_fits : f.sink_to < 2 ^ 64
  pub size_fits : f.rdma_rd_sz < 2 ^ 32
  pub src_tag_fits : f.src_tag < 2 ^ 32
  pub src_to_fits : f.src_to < 2 ^ 64

-- The fields of a read request that the sender stores, if they fit their integers, are those that the
-- receiver reads from the same bytes.
pub read_req_fields-fields_bytes :
    (mem : Memory) (a : ℕ) (f : ReadReqFields)
    → FieldsFit f
    → read_req_fields (poke mem a (fields_bytes f)) a ≡ f
unfolding read_req_fields fields_bytes field_at le_bytes
read_req_fields-fields_bytes mem a f fit =
    let there = load-poke mem a (fields_bytes f) in
    ground (
      arith,
      there,
      from_le-le_bytes 4 f.sink_tag fit.sink_tag_fits,
      from_le-le_bytes 8 f.sink_to fit.sink_to_fits,
      from_le-le_bytes 4 f.rdma_rd_sz fit.size_fits,
      from_le-le_bytes 4 f.src_tag fit.src_tag_fits,
      from_le-le_bytes 8 f.src_to fit.src_to_fits,
    )

-- The read response that the receive loop queues for a request.
abbrev pub response : RecvLocals → ReadReqFields → SendWr
response l req = record {
  wr_id = l.read_wr_id;
  sg_list = read_resp_sg;
  opcode = rdma_read_resp;
  invalidate_rkey = 0;
  remote_addr = req.sink_to;
  rkey = req.sink_tag;
}

abbrev pub requested : ReadReqFields → Sge
requested req = record { addr = req.src_to; len = req.rdma_rd_sz; lkey = req.src_tag }

module _ (cq : ConcurrentQueue) {tcp : Tcp} (fifo : IsFifo cq) where
  open fifo use {items}

  -- A read request of which `push_until` has a try left is answered: one response stands behind the
  -- work on the send queue, with the number of the loop's counter and for the sink that the request
  -- names; the shared entry names the bytes asked for; the request's buffer stands behind those of
  -- queue 1; and the socket, the memory, the receive requests and the completion queues do not
  -- change.
  pub handle_read_req_lem :
      (fuel : ℕ) (st : Stream cq tcp) (l : RecvLocals)
      → let buf = as_untagged l.msg.buf in
        let req = read_req_fields st.mem buf.buf_addr in
        (st' : Stream cq tcp) × (l' : RecvLocals) × (handle_read_req cq (suc fuel) st l
          ≡ some (goes_on, (st', l')))
        × (items SendWr st'.send_q ≡ items SendWr st.send_q ++ response l req ∷ [])
        × (st'.read_sg ≡ requested req)
        × (items UntaggedBuffer (st'.ddp_ctx.queues read_qn).q
            ≡ items UntaggedBuffer (st.ddp_ctx.queues read_qn).q ++ buf ∷ [])
        × (st'.mem ≡ st.mem)
        × (st'.recv_q ≡ st.recv_q)
        × (st'.cqs ≡ st.cqs)
        × (l'.msg ≡ l.msg)
        × (l'.read_wr_id ≡ (l.read_wr_id + 1) % 2 ^ 64)
        × (st'.sock ≡ st.sock)
  unfolding handle_read_req push_until
  handle_read_req_lem fuel st l =
      let buf = as_untagged l.msg.buf in
      let req = read_req_fields st.mem buf.buf_addr in
      let wr = response l req in
      let pushed = fifo.enqueued SendWr st.send_q wr in
      let posted = ddp_post_recv_lem cq fifo st.ddp_ctx read_qn read_qn (buf ∷ []) (omega arith) in
      let st' : Stream cq tcp = record st {
        ddp_ctx = ddp_post_recv cq st.ddp_ctx (pos read_qn) (buf ∷ []);
        send_q = (cq.enqueue SendWr st.send_q wr).1;
        read_sg = requested req;
      } in
      let l' : RecvLocals = record l { read_wr_id = (l.read_wr_id + 1) % 2 ^ 64 } in
      (
        st',
        l',
        ground (arith, pushed),
        fifo.items-enqueue SendWr st.send_q wr,
        refl,
        posted.0,
        refl,
        refl,
        refl,
        refl,
        refl,
        refl,
      )

  -- Two read requests handled before the first response is sent: both responses are queued in
  -- order, for their own sinks, but both name the bytes of the second request.
  pub two_requests_share :
      (fuel : ℕ) (st₁ st₂ st₃ : Stream cq tcp) (l₁ l₂ l₃ : RecvLocals) (msg : DdpMessage)
      → handle_read_req cq (suc fuel) st₁ l₁ ≡ some (goes_on, (st₂, l₂))
      → handle_read_req cq (suc fuel) st₂ (record l₂ { msg = msg }) ≡ some (goes_on, (st₃, l₃))
      → let req₁ = read_req_fields st₁.mem (as_untagged l₁.msg.buf).buf_addr in
        let req₂ = read_req_fields st₂.mem (as_untagged msg.buf).buf_addr in
        (wr₁ wr₂ : SendWr) × (items SendWr st₃.send_q ≡ items SendWr st₁.send_q ++ wr₁ ∷ wr₂ ∷ [])
        × (wr₁.rkey ≡ req₁.sink_tag)
        × (wr₂.rkey ≡ req₂.sink_tag)
        × (sges st₃.read_sg wr₁.sg_list ≡ requested req₂ ∷ [])
        × (sges st₃.read_sg wr₂.sg_list ≡ requested req₂ ∷ [])
  two_requests_share fuel st₁ st₂ st₃ l₁ l₂ l₃ msg run₁ run₂ =
      let a = handle_read_req_lem fuel st₁ l₁ in
      let b = handle_read_req_lem fuel st₂ (record l₂ { msg = msg }) in
      let wr₁ = response l₁ (read_req_fields st₁.mem (as_untagged l₁.msg.buf).buf_addr) in
      let wr₂ = response l₂ (read_req_fields st₂.mem (as_untagged msg.buf).buf_addr) in
      let e : a.0 ≡ st₂ = (let went = a.2 in cc) in
      let e' : b.0 ≡ st₃ = (let went = b.2 in cc) in
      let first : items SendWr st₂.send_q ≡ items SendWr st₁.send_q ++ wr₁ ∷ [] =
        subst (λ s. items SendWr s.send_q ≡ items SendWr st₁.send_q ++ wr₁ ∷ []) e a.3 in
      let second : items SendWr st₃.send_q ≡ items SendWr st₂.send_q ++ wr₂ ∷ [] =
        subst (λ s. items SendWr s.send_q ≡ items SendWr st₂.send_q ++ wr₂ ∷ []) e' b.3 in
      let shared : st₃.read_sg
          ≡ requested (read_req_fields st₂.mem (as_untagged msg.buf).buf_addr) =
        ap (λ s. s.read_sg) (sym e') ∙ b.4 in
      (
        wr₁,
        wr₂,
        second
            ∙ ap (λ q. q ++ wr₂ ∷ []) first
            ∙ append_assoc (items SendWr st₁.send_q) (wr₁ ∷ []) (wr₂ ∷ []),
        refl,
        refl,
        ap (λ sg. sg ∷ []) shared,
        ap (λ sg. sg ∷ []) shared,
      )
