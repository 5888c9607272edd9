-- ===== src/Rdmap/ReadTransfer.antt =====
-- A whole RDMA read (suiw/rdmap/rdmap.cpp): the request by the send loop of the machine that reads, the
-- rounds of the other machine's two loops, and the round that receives the response.
use soft_ui_warp.Prelude.{
  ℕ, ◌+◌, ◌^◌, ◌≤◌, ◌<◌, ◌≡◌, refl, sym, ap, subst, ◌∙◌, Bool, some, List, [], ◌∷◌, ◌++◌,
  append-nil, arith,
}
use soft_ui_warp.Memory.{Memory, load, poke}
use soft_ui_warp.Queue.{ConcurrentQueue, IsFifo}
use soft_ui_warp.Tcp.{Tcp, IsReliable, IsOpen}
use soft_ui_warp.Ddp.{Sge, UntaggedBuffer, TaggedBuffer}
use soft_ui_warp.Ddp.Send.{to_send}
use soft_ui_warp.Ddp.Segments.{InRange, gathered}
use soft_ui_warp.WorkQueue.{SendWr, WorkCompletion}
use soft_ui_warp.Rdmap.{Stream, read_qn}
use soft_ui_warp.Rdmap.RecvLoop.{RecvLocals, goes_on, recv_round}
use soft_ui_warp.Rdmap.SendLoop.{SendLocals, fields_of, fields_bytes, send_request, send_round}
use soft_ui_warp.Rdmap.ReadRequests.{response}
use soft_ui_warp.Rdmap.Handlers.{completions, waiting}
use soft_ui_warp.Rdmap.Messages.{HasArrived}
use soft_ui_warp.Rdmap.TaggedRequests
use soft_ui_warp.Rdmap.Reads.{IsRead, read_request_transfer}
use soft_ui_warp.Rdmap.ReadResponses.{IsResponse, read_response_transfer}

-- The entry that a read of `sg` asks for.
abbrev pub source : SendWr → Sge → Sge
source req sg = record { addr = req.remote_addr; len = sg.len; lkey = req.rkey }

-- The memory of the machine that is read, with the request in its buffer.
abbrev pub asked_mem :
    {cq : ConcurrentQueue} {tcp : Tcp} → Stream cq tcp → UntaggedBuffer → SendWr → Sge → Memory
asked_mem st b req sg = poke st.mem b.buf_addr (fields_bytes (fields_of req sg))

-- A round of the send loop on a queue of one request is that request's.
one_request :
    (cq : ConcurrentQueue) {tcp : Tcp} (fifo : IsFifo cq) (st : Stream cq tcp) (l : SendLocals)
    (req : SendWr)
    → fifo.items SendWr st.send_q ≡ req ∷ []
    → send_round cq st l ≡ send_request cq (record st { send_q = fifo.rest SendWr st.send_q }) l req
unfolding send_round
one_request cq fifo st l req e = ground (arith, (fifo.try_dequeue_head SendWr st.send_q req [] e).0)

-- When the stream of the machine that is read has one response on its send queue, for the entry and
-- the memory that its request left, the response reaches the machine that reads.
response_arrives :
    (cq : ConcurrentQueue) {ta tb : Tcp} (fifo : IsFifo cq) (net : IsReliable ta) (out : IsOpen tb)
    (asserts : Bool) (fuel segs : ℕ) (b' b'' : Stream cq tb) (ls ls' : SendLocals) (resp : SendWr)
    (src : Sge) (mem : Memory) (rest : List ℕ) (a : Stream cq ta) (l : RecvLocals)
    (sink : TaggedBuffer) (wce : WorkCompletion) (wces : List WorkCompletion)
    → IsResponse resp
    → fifo.items SendWr b'.send_q ≡ resp ∷ []
    → b'.read_sg ≡ src
    → b'.mem ≡ mem
    → send_round cq b' ls ≡ some (b'', ls')
    → (0 < src.len) × (src.len < 2 ^ 31) × (src.addr + src.len ≤ 2 ^ 64)
    → TaggedRequests.HasArrived cq net out fuel segs b'.sock b''.sock mem
        (src ∷ [])
        a
        resp
        sink
        rest
    → waiting cq fifo a a.send_cq ≡ wce ∷ wces
    → (a' : Stream cq ta) × (l' : RecvLocals) × (recv_round cq asserts fuel segs a l
        ≡ some (goes_on, (a', l')))
      × (a'.mem ≡ poke a.mem resp.remote_addr (load mem src.addr src.len))
      × (net.pending a'.sock ≡ rest)
      × (completions cq fifo a' a.send_cq
          ≡ completions cq fifo a a.send_cq ++ record wce { byte_len = 0 } ∷ [])
      × (waiting cq fifo a' a.send_cq ≡ wces)
unfolding gathered
response_arrives cq fifo net out asserts fuel segs b' b'' ls ls' resp src mem rest a l sink wce wces
      is queue entry memory sent ranges there some_wce =
    let st₁ : Stream cq _ = record b' { send_q = fifo.rest SendWr b'.send_q } in
    let here =
      subst
        (λ m.
          TaggedRequests.HasArrived cq net out fuel segs b'.sock b''.sock m (b'.read_sg ∷ []) a resp
            sink rest)
        (sym memory)
        (subst
          (λ e.
            TaggedRequests.HasArrived cq net out fuel segs b'.sock b''.sock mem (e ∷ []) a resp sink
              rest)
          (sym entry) there) in
    let len : b'.read_sg.len ≡ src.len = ap (λ e. e.len) entry in
    let from : b'.read_sg.addr ≡ src.addr = ap (λ e. e.addr) entry in
    let some_bytes : 0 < to_send b'.read_sg.len = ground (arith, len, ranges.0, ranges.1) in
    let range : InRange (b'.read_sg ∷ []) =
      (omega (arith, len, ranges.1), omega (arith, len, from, ranges.2), _) in
    let (a', l', received, stored, left, now, later) =
      read_response_transfer cq fifo net out asserts fuel segs st₁ b'' ls ls' resp a l sink rest wce
        wces is some_bytes range (sym (one_request cq fifo b' ls resp queue) ∙ sent) here
        some_wce in
    let bytes : gathered b'.mem (b'.read_sg ∷ []) ≡ load mem src.addr src.len =
      append-nil (load b'.mem b'.read_sg.addr b'.read_sg.len)
      ∙ ap (λ m. load m b'.read_sg.addr b'.read_sg.len) memory
      ∙ ap (λ e. load mem e.addr e.len) entry in
    (a', l', received, stored ∙ ap (poke a.mem resp.remote_addr) bytes, left, now, later)

-- End to end: machine A's send loop has done a read request of one entry; its bytes have arrived
-- at machine B, whose send queue is empty, and B has done a round of its receive loop and then one
-- of its send loop; and what that sent has arrived at A, where a read waits. Then a round of A's
-- receive loop goes on, stores the bytes of B's memory at the remote address from A's entry on, and
-- moves the oldest completion that waits behind those that are to be polled. The numbers must fit
-- their fields, the entry have a byte and an `int` count it, the memory read and the memory written
-- lie in the address space, the receivers' checks pass, and the fuel cover a segment and the
-- segments.
pub read_transfer :
    (cq : ConcurrentQueue) {ta tb : Tcp} (fifo : IsFifo cq) (net_a : IsReliable ta)
    (out_a : IsOpen ta) (net_b : IsReliable tb) (out_b : IsOpen tb) (asserts : Bool) (fuel segs : ℕ)
    (a a' : Stream cq ta) (la la' : SendLocals) (req : SendWr) (sg : Sge) (b b' b'' : Stream cq tb)
    (lb lb' : RecvLocals) (ls ls' : SendLocals) (buf : UntaggedBuffer) (q' : cq.Q UntaggedBuffer)
    (rest_b rest_a : List ℕ) (a₂ : Stream cq ta) (l₂ : RecvLocals) (sink : TaggedBuffer)
    (wce : WorkCompletion) (wces : List WorkCompletion)
    → IsRead cq a la req sg
    → send_request cq a la req ≡ some (a', la')
    → buf.buf_addr < 2 ^ 64
    → HasArrived cq net_b out_a fuel segs a.sock a'.sock b read_qn la.msn_read buf q' rest_b
    → fifo.items SendWr b.send_q ≡ []
    → recv_round cq asserts fuel segs b lb ≡ some (goes_on, (b', lb'))
    → send_round cq b' ls ≡ some (b'', ls')
    → (0 < sg.len) × (sg.len < 2 ^ 31) × (req.remote_addr + sg.len ≤ 2 ^ 64)
    → TaggedRequests.HasArrived cq net_a out_b fuel segs b'.sock b''.sock
        (asked_mem b buf req sg)
        (source req sg ∷ [])
        a₂
        (response lb (fields_of req sg))
        sink
        rest_a
    → waiting cq fifo a₂ a₂.send_cq ≡ wce ∷ wces
    → (a₃ : Stream cq ta) × (l₃ : RecvLocals) × (recv_round cq asserts fuel segs a₂ l₂
        ≡ some (goes_on, (a₃, l₃)))
      × (a₃.mem ≡ poke a₂.mem sg.addr (load (asked_mem b buf req sg) req.remote_addr sg.len))
      × (net_a.pending a₃.sock ≡ rest_a)
      × (completions cq fifo a₃ a₂.send_cq
          ≡ completions cq fifo a₂ a₂.send_cq ++ record wce { byte_len = 0 } ∷ [])
      × (waiting cq fifo a₃ a₂.send_cq ≡ wces)
unfolding fields_of
read_transfer cq fifo net_a out_a net_b out_b asserts fuel segs a a' la la' req sg b b' b'' lb lb'
      ls ls' buf q' rest_b rest_a a₂ l₂ sink wce wces is asked low here none_queued round_b sent_b
      ranges there some_wce =
    let (st', l', round, queued, shared, posted, mem, recvs, kept_cqs, end) =
      read_request_transfer cq fifo net_b out_a asserts fuel segs a a' la la' req sg b lb buf q'
        rest_b is asked low here in
    let resp = response lb (fields_of req sg) in
    let same : st' ≡ b' = cc in
    let queue : fifo.items SendWr b'.send_q ≡ resp ∷ [] =
      ap (λ s. fifo.items SendWr s.send_q) (sym same)
      ∙ queued
      ∙ ap (λ q. q ++ resp ∷ []) none_queued in
    let is_resp : IsResponse resp = record {
      is_response = refl;
      shares = refl;
      addressed = record {
        rkey_fits = is.fields_fit.sink_tag_fits;
        addr_fits = is.fields_fit.sink_to_fits;
      };
    } in
    response_arrives cq fifo net_a out_b asserts fuel segs b' b'' ls ls' resp (source req sg)
      (asked_mem b buf req sg) rest_a a₂ l₂ sink wce wces is_resp queue
      (ap (λ s. s.read_sg) (sym same) ∙ shared) (ap (λ s. s.mem) (sym same) ∙ mem) sent_b ranges
      there some_wce
