-- ===== src/Rdmap/ReadResponses.antt =====
-- An RDMA read's response from machine to machine (suiw/rdmap/rdmap.cpp): from the send loop of the
-- one that is read to the memory and the completion queue of the one that reads.
use soft_ui_warp.Prelude.{ℕ, ◌<◌, ◌≡◌, sym, ap, ◌∙◌, Bool, some, List, [], ◌∷◌, ◌++◌, arith, pos}
use soft_ui_warp.Memory.{poke}
use soft_ui_warp.Wire.{htonll}
use soft_ui_warp.Queue.{ConcurrentQueue, IsFifo}
use soft_ui_warp.Tcp.{Tcp, IsReliable, IsOpen}
use soft_ui_warp.Ddp.{TaggedBuffer}
use soft_ui_warp.Ddp.Send.{ddp_send_tagged}
use soft_ui_warp.Ddp.Segments.{last_len, InRange, gathered}
use soft_ui_warp.Ddp.Transfer.{ddp_send_tagged_emits}
use soft_ui_warp.WorkQueue.{rdma_read_resp, read_resp_sg, SendWr, WorkCompletion}
use soft_ui_warp.Rdmap.{Stream, get_rdmap_op}
use soft_ui_warp.Rdmap.RecvLoop.{RecvLocals, goes_on, recv_round}
use soft_ui_warp.Rdmap.SendLoop.{SendLocals, tagged_meta, do_read_resp, send_request}
use soft_ui_warp.Rdmap.Handlers.{completions, waiting}
use soft_ui_warp.Rdmap.Rounds.{read_response_delivered}
use soft_ui_warp.Rdmap.TaggedRequests.{IsAddressed, host_order-tagged_meta, HasArrived, tagged_came}

-- A read response, as `handle_read_req` makes them, for a tag and an address that fit their fields.
pub record IsResponse (req : SendWr) : Type 0 where
  pub is_response : req.opcode ≡ rdma_read_resp
  pub shares : req.sg_list ≡ read_resp_sg
  pub addressed : IsAddressed req

-- The socket after a read response is that after its tagged send.
response-sock :
    (cq : ConcurrentQueue) {tcp : Tcp} (st st' : Stream cq tcp) (l l' : SendLocals) (req : SendWr)
    (s' : tcp.State)
    → IsResponse req
    → ddp_send_tagged tcp st.mem st.sock (tagged_meta req) (st.read_sg ∷ []) ≡ some (pos 0, s')
    → send_request cq st l req ≡ some (st', l')
    → st'.sock ≡ s'
unfolding send_request do_read_resp
response-sock cq st st' l l' req s' r run e = ground (arith, r.is_response, r.shares, run, e)

response_op : (req : SendWr) → IsResponse req → get_rdmap_op (tagged_meta req).rsvd_ulp1 ≡ 2
unfolding tagged_meta get_rdmap_op
response_op req r = ground (arith, r.is_response)

-- End to end: when one machine's send loop has done a read response, and the bytes that it sent
-- have arrived at the machine that waits for it, a round of the receive loop there goes on, stores
-- the bytes of the entry that responses share from the sink's address on, and moves the oldest
-- completion that waits, with length 0, behind those that are to be polled. The entry must have a
-- byte and lie within the sender's memory, the receiver's check pass, the message fit the address
-- space, and the fuel cover a segment and the segments.
pub read_response_transfer :
    (cq : ConcurrentQueue) {tcp tcp' : Tcp} (fifo : IsFifo cq) (net : IsReliable tcp)
    (out : IsOpen tcp') (asserts : Bool) (fuel segs : ℕ) (st₁ st₁' : Stream cq tcp')
    (l₁ l₁' : SendLocals) (req : SendWr) (st : Stream cq tcp) (l : RecvLocals) (b : TaggedBuffer)
    (rest : List ℕ) (wce : WorkCompletion) (wces : List WorkCompletion)
    → let sgs = st₁.read_sg ∷ [] in
      IsResponse req
      → 0 < last_len sgs
      → InRange sgs
      → send_request cq st₁ l₁ req ≡ some (st₁', l₁')
      → HasArrived cq net out fuel segs st₁.sock st₁'.sock st₁.mem sgs st req b rest
      → waiting cq fifo st st.send_cq ≡ wce ∷ wces
      → (st' : Stream cq tcp) × (l' : RecvLocals) × (recv_round cq asserts fuel segs st l
          ≡ some (goes_on, (st', l')))
        × (st'.mem ≡ poke st.mem req.remote_addr (gathered st₁.mem sgs))
        × (net.pending st'.sock ≡ rest)
        × (completions cq fifo st' st.send_cq
            ≡ completions cq fifo st st.send_cq ++ record wce { byte_len = 0 } ∷ [])
        × (waiting cq fifo st' st.send_cq ≡ wces)
read_response_transfer cq fifo net out asserts fuel segs st₁ st₁' l₁ l₁' req st l b rest wce wces r
      some_bytes range ran here some_wce =
    let sgs = st₁.read_sg ∷ [] in
    let h = tagged_meta req in
    let (s', run, went) = ddp_send_tagged_emits out st₁.mem st₁.sock sgs h some_bytes in
    let same = response-sock cq st₁ st₁' l₁ l₁' req s' r run ran in
    let to : htonll h.to ≡ req.remote_addr =
      ap (λ k. k.to) (host_order-tagged_meta req r.addressed) in
    let came =
      tagged_came cq net out fuel segs st l b rest st₁.sock st₁'.sock st₁.mem sgs req r.addressed
        some_bytes range (run ∙ ap (λ s. some (pos 0, s)) (sym same)) here in
    let (st', l', round, stored, end, now, later) =
      read_response_delivered cq asserts fuel segs net st l h b rest (gathered st₁.mem sgs) came
        fifo wce wces (response_op req r) some_wce in
    (st', l', round, stored ∙ ap (λ a. poke st.mem a (gathered st₁.mem sgs)) to, end, now, later)
