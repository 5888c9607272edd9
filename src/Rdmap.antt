-- ===== src/Rdmap.antt =====
-- The RDMAP layer's stream and its calls (suiw/rdmap/rdmap.h, suiw/rdmap/rdmap_structs.h,
-- suiw/rdmap/rdmap.cpp). The two loops, which run as threads, are the children `RecvLoop` and
-- `SendLoop`; the state that they share is `Stream`.
pub mod RecvLoop
pub mod RecvCases
pub mod SendLoop
pub mod Handlers
pub mod Invalidate
pub mod Write
pub mod Rounds
pub mod ReadRequests
pub mod Ledger
pub mod Overtake
pub mod Threads
pub mod Arrivals
pub mod Messages
pub mod TaggedRequests
pub mod Sends
pub mod Reads
pub mod ReadResponses
pub mod ReadTransfer
pub mod Requests
use Prim.Native.Nat.{bit_and}
use soft_ui_warp.Prelude.{ℕ, Bool, true, Option, none, some, List, [], ◌∷◌, pos}
use soft_ui_warp.Memory.{Memory, update}
use soft_ui_warp.Queue.{ConcurrentQueue}
use soft_ui_warp.Tcp.{Tcp}
use soft_ui_warp.Ddp.{
  Sge, UntaggedBuffer, TaggedBuffer, Stag, Context, ddp_init_stream, ddp_post_recv,
  register_tagged_buffer, deregister_tagged_buffer,
}
use soft_ui_warp.WorkQueue.{
  RdmaOpcode, rdma_write, rdma_read_req, SendWr, RecvWr, WorkCompletion, Cq,
}

abbrev pub send_qn : ℕ
send_qn = 0

abbrev pub read_qn : ℕ
read_qn = 1

abbrev pub terminate_qn : ℕ
terminate_qn = 2

-- `get_rdmap_op`.
unfoldable pub get_rdmap_op : ℕ → ℕ
get_rdmap_op bits = bit_and bits 0xf

-- `struct rdmap_read_req_fields`, and its size.
pub record ReadReqFields : Type 0 where
  pub sink_tag : ℕ
  pub sink_to : ℕ
  pub rdma_rd_sz : ℕ
  pub src_tag : ℕ
  pub src_to : ℕ

abbrev pub read_req_size : ℕ
read_req_size = 28

-- `struct rdmap_stream_context` with what it points to, the process's memory, and the entry of the
-- receive loop that read responses point to. Completion queues are numbered, since the two work
-- queues may share one.
pub record Stream (cq : ConcurrentQueue) (tcp : Tcp) : Type 0 where
  pub ddp_ctx : Context cq
  pub sock : tcp.State
  pub mem : Memory
  pub connected : Bool
  pub send_q : cq.Q SendWr
  pub recv_q : cq.Q RecvWr
  pub cqs : ℕ → Cq cq
  pub send_cq : ℕ
  pub recv_cq : ℕ
  pub read_sg : Sge

-- The buffers of `rdma_post_recv`, one for each entry of the scatter list; `next` is not set.
unfoldable pub recv_buffers : List Sge → List UntaggedBuffer
recv_buffers [] = []
recv_buffers (sg ∷ sgs) = record { buf_addr = sg.addr; len = sg.len; next = 0 } ∷ recv_buffers sgs

-- The buffers for read requests; `addrs` are the addresses that `malloc` gave.
unfoldable pub post_read_buffers : (cq : ConcurrentQueue) → Context cq → List ℕ → Context cq
post_read_buffers cq ctx [] = ctx
post_read_buffers cq ctx (a ∷ addrs) =
    let buf : UntaggedBuffer = record { buf_addr = a; len = read_req_size; next = 0 } in
    post_read_buffers cq (ddp_post_recv cq ctx (pos read_qn) (buf ∷ [])) addrs

module _ (cq : ConcurrentQueue) {tcp : Tcp} where
  -- A completion on `cq->q`.
  unfoldable pub complete : Stream cq tcp → ℕ → WorkCompletion → Stream cq tcp
  complete st i wce =
      let c = st.cqs i in
      let (_, q') = cq.enqueue WorkCompletion c.q wce in
      record st { cqs = update st.cqs i (record c { q = q' }) }

  -- A completion on `cq->pending_q`.
  unfoldable pub complete_later : Stream cq tcp → ℕ → WorkCompletion → Stream cq tcp
  complete_later st i wce =
      let c = st.cqs i in
      let (_, q') = cq.enqueue WorkCompletion c.pending_q wce in
      record st { cqs = update st.cqs i (record c { pending_q = q' }) }

  -- `rdmap_send`; `rdmap_write` and `rdmap_read` assert the operation and do the same. The result
  -- is that of `enqueue`; a failed assertion gives no stream.
  unfoldable pub rdmap_send : Stream cq tcp → SendWr → Bool × Stream cq tcp
  rdmap_send st wr =
      let (pushed, q') = cq.enqueue SendWr st.send_q wr in (pushed, record st { send_q = q' })

  unfoldable pub rdmap_write : Stream cq tcp → SendWr → Option (Bool × Stream cq tcp)
  unfolding rdmap_send
  rdmap_write st wr = elim wr.opcode [ rdma_write ↦ some (rdmap_send st wr) | _ ↦ none ]

  unfoldable pub rdmap_read : Stream cq tcp → SendWr → Option (Bool × Stream cq tcp)
  unfolding rdmap_send
  rdmap_read st wr = elim wr.opcode [ rdma_read_req ↦ some (rdmap_send st wr) | _ ↦ none ]

  unfoldable pub rdma_post_recv : Stream cq tcp → RecvWr → Stream cq tcp
  unfolding recv_buffers
  rdma_post_recv st wr =
      let (_, q') = cq.enqueue RecvWr st.recv_q wr in
      record st {
        ddp_ctx = ddp_post_recv cq st.ddp_ctx (pos send_qn) (recv_buffers wr.sg_list);
        recv_q = q';
      }

  unfoldable pub rdma_register : Stream cq tcp → TaggedBuffer → TaggedBuffer × Stream cq tcp
  rdma_register st buf =
      let (buf', ctx') = register_tagged_buffer cq st.ddp_ctx buf in
      (buf', record st { ddp_ctx = ctx' })

  unfoldable pub rdma_invalidate : Stream cq tcp → Stag → ℕ × Stream cq tcp
  rdma_invalidate st stag =
      let (erased, ctx') = deregister_tagged_buffer cq st.ddp_ctx stag in
      (erased, record st { ddp_ctx = ctx' })

  -- `rdmap_init_stream`, to the creation of the threads. Of the second socket argument only the
  -- number is stored.
  unfoldable pub rdmap_init_stream :
      tcp.State
      → Memory
      → ℕ
      → ℕ
      → cq.Q SendWr
      → cq.Q RecvWr
      → (ℕ → Cq cq)
      → ℕ
      → ℕ
      → List ℕ
      → Stream cq tcp
  unfolding post_read_buffers
  rdmap_init_stream sock mem sockfd pd send_q recv_q cqs send_cq recv_cq addrs = record {
    ddp_ctx = post_read_buffers cq (ddp_init_stream cq sockfd pd) addrs;
    sock = sock;
    mem = mem;
    connected = true;
    send_q = send_q;
    recv_q = recv_q;
    cqs = cqs;
    send_cq = send_cq;
    recv_cq = recv_cq;
    read_sg = record { addr = 0; len = 0; lkey = 0 };
  }
