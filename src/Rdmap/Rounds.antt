-- ===== src/Rdmap/Rounds.antt =====
-- Whole rounds of the receive loop (`rnic_recv` in suiw/rdmap/rdmap.cpp): the socket's bytes to the
-- effect on the stream.
use mathlib.Core.List.{flatten}
use soft_ui_warp.Prelude.{ℕ, ◌≡◌, ap, ◌∙◌, Bool, some, List, [], ◌∷◌, ◌++◌, arith, pos}
use soft_ui_warp.Memory.{poke}
use soft_ui_warp.Wire.{htonll}
use soft_ui_warp.Queue.{ConcurrentQueue, IsFifo}
use soft_ui_warp.Tcp.{Tcp, IsReliable}
use soft_ui_warp.Ddp.{TaggedMeta, TaggedBuffer}
use soft_ui_warp.Ddp.Recv.{World, ddp_recv}
use soft_ui_warp.Ddp.Tagged.{CanReceive, Delivers, ddp_recv_tagged}
use soft_ui_warp.WorkQueue.{opcode_of, WorkCompletion}
use soft_ui_warp.Rdmap.{Stream, complete, get_rdmap_op}
use soft_ui_warp.Rdmap.RecvLoop.{
  RecvLocals, goes_on, ddp_is_tagged, rsvd_ulp1, asserted, dispatch, recv_round, handle_read_resp,
}
use soft_ui_warp.Rdmap.Handlers.{completions, waiting, handle_read_resp_lem}

-- What `ddp_recv` works on.
abbrev pub world : (cq : ConcurrentQueue) (tcp : Tcp) → Stream cq tcp → World cq tcp
world cq tcp st = record { ctx = st.ddp_ctx; sock = st.sock; mem = st.mem }

module _ (cq : ConcurrentQueue) {tcp : Tcp} (asserts : Bool) (fuel segs : ℕ) where
  module _ (net : IsReliable tcp) (st : Stream cq tcp) (l : RecvLocals) (h : TaggedMeta)
      (b : TaggedBuffer) (rest bs : List ℕ)
      (came : Delivers cq net fuel segs
        (world cq tcp st)
        l.msg
        h
        b
        rest
        bs
        (ddp_recv cq tcp fuel segs (world cq tcp st) l.msg)) where
    -- The stream after the message's bytes have been stored.
    abbrev stored_at : tcp.State → Stream cq tcp
    stored_at s = record st { sock = s; mem = poke st.mem (htonll h.to) bs }

    -- An RDMA write that `ddp_recv` has received changes nothing but the memory: the loop goes on,
    -- and no completion is reported.
    pub write_delivered :
        get_rdmap_op h.rsvd_ulp1 ≡ 0
        → (s' : tcp.State) × (l' : RecvLocals) × (recv_round cq asserts fuel segs st l
            ≡ some (goes_on, (record st { sock = s'; mem = poke st.mem (htonll h.to) bs }, l')))
          × (net.pending s' ≡ rest)
    unfolding recv_round dispatch rsvd_ulp1 ddp_is_tagged asserted opcode_of
    write_delivered op =
        let (msg', s', run, is_tagged, meta, buf, len, end) = came in
        (s', record l { msg = msg' }, ground (arith, run, is_tagged, meta, op), end)

    pub read_response_delivered :
        (fifo : IsFifo cq) (wce : WorkCompletion) (wces : List WorkCompletion)
        → get_rdmap_op h.rsvd_ulp1 ≡ 2
        → waiting cq fifo st st.send_cq ≡ wce ∷ wces
        → (st' : Stream cq tcp) × (l' : RecvLocals) × (recv_round cq asserts fuel segs st l
            ≡ some (goes_on, (st', l')))
          × (st'.mem ≡ poke st.mem (htonll h.to) bs)
          × (net.pending st'.sock ≡ rest)
          × (completions cq fifo st' st.send_cq
              ≡ completions cq fifo st st.send_cq ++ record wce { byte_len = 0 } ∷ [])
          × (waiting cq fifo st' st.send_cq ≡ wces)
    unfolding recv_round dispatch rsvd_ulp1 ddp_is_tagged asserted opcode_of
    read_response_delivered fifo wce wces op some_wce =
        let (msg', s', run, is_tagged, meta, buf, len, end) = came in
        let l' : RecvLocals = record l { msg = msg' } in
        let out = handle_read_resp cq (pos 0) (stored_at s') l' in
        let moved = handle_read_resp_lem cq fifo (pos 0) (stored_at s') l' wce wces 0 some_wce in
        let kept : out.0.sock ≡ s' = unfold handle_read_resp complete in ground arith in
        (
          out.0,
          out.1,
          ground (arith, run, is_tagged, meta, op),
          unfold handle_read_resp complete in ground arith,
          ap net.pending kept ∙ end,
          moved.0,
          moved.1,
        )

  -- A read response whose segments have arrived is stored from its offset on; the oldest read that
  -- waits is then reported, behind the completions that are to be polled, with length 0. The
  -- header must fit its fields and pass the check, the message fit the address space, and the fuel
  -- cover a segment and the segments.
  pub read_response_received :
      (net : IsReliable tcp) (fifo : IsFifo cq) (st : Stream cq tcp) (l : RecvLocals)
      (h : TaggedMeta) (b : TaggedBuffer) (rest : List ℕ) (d : List ℕ) (ds : List (List ℕ))
      (wce : WorkCompletion) (wces : List WorkCompletion)
      → CanReceive cq net fuel segs (world cq tcp st) h (d ∷ ds) b rest
      → get_rdmap_op h.rsvd_ulp1 ≡ 2
      → waiting cq fifo st st.send_cq ≡ wce ∷ wces
      → (st' : Stream cq tcp) × (l' : RecvLocals) × (recv_round cq asserts fuel segs st l
          ≡ some (goes_on, (st', l')))
        × (st'.mem ≡ poke st.mem (htonll h.to) (flatten (d ∷ ds)))
        × (net.pending st'.sock ≡ rest)
        × (completions cq fifo st' st.send_cq
            ≡ completions cq fifo st st.send_cq ++ record wce { byte_len = 0 } ∷ [])
        × (waiting cq fifo st' st.send_cq ≡ wces)
  read_response_received net fifo st l h b rest d ds wce wces can op some_wce =
      read_response_delivered net st l h b rest (flatten (d ∷ ds))
        (ddp_recv_tagged cq net fuel segs (world cq tcp st) l.msg h b rest d ds can) fifo wce wces
        op some_wce
