-- ===== src/Rdmap/RecvCases.antt =====
-- What every round of the receive loop (`rnic_recv` in suiw/rdmap/rdmap.cpp) does, shown case by case.
use soft_ui_warp.Prelude.{
  ℕ, ◌≡◌, refl, subst, inl, inr, Bool, false, not, ◌&&◌, Option, none, some, arith, ◌==◌,
  if◌then◌else◌, Bool-cases, Option-cases, ℤ, pos, ltb_ℤ,
}
use soft_ui_warp.Memory.{Memory}
use soft_ui_warp.Queue.{ConcurrentQueue}
use soft_ui_warp.Tcp.{Tcp}
use soft_ui_warp.Ddp.{Stag, Context}
use soft_ui_warp.Ddp.Recv.{ddp_recv}
use soft_ui_warp.WorkQueue.{
  RdmaOpcode, rdma_write, rdma_read_req, rdma_read_resp, send, send_inval, send_se, send_se_inval,
  terminate, not_supported, opcode_of,
}
use soft_ui_warp.Rdmap.{Stream, get_rdmap_op, rdma_invalidate}
use soft_ui_warp.Rdmap.RecvLoop.{
  RecvLocals, RecvState, Round, goes_on, returns_error, ddp_is_tagged, rsvd_ulp1, handle_read_req,
  handle_read_resp, handle_send, asserted, dispatch, recv_round,
}
use soft_ui_warp.Rdmap.Rounds.{world}

-- What holds before a case, `Before`, keeps through a receive and an invalidation, and gives `After`
-- when the case is done.
pub record Keeps (cq : ConcurrentQueue) {tcp : Tcp} (Before After : Stream cq tcp → Type 0)
    : Type 0 where
  pub receives :
      (st : Stream cq tcp) (ctx : Context cq) (sock : tcp.State) (mem : Memory)
      → Before st
      → Before (record st { ddp_ctx = ctx; sock = sock; mem = mem })
  pub leaves : (st : Stream cq tcp) → Before st → After st
  pub invalidates :
      (st : Stream cq tcp) (stag : Stag) → Before st → Before (rdma_invalidate cq st stag).1
  pub terminates : (st : Stream cq tcp) → Before st → After (record st { connected = false })
  pub sends :
      (op : ℕ) (ret : ℤ) (st : Stream cq tcp) (l : RecvLocals)
      → Before st
      → After (handle_send cq op ret st l).0
  pub responds :
      (ret : ℤ) (st : Stream cq tcp) (l : RecvLocals)
      → Before st
      → After (handle_read_resp cq ret st l).0
  pub requests :
      (fuel : ℕ) (r : Round) (st st' : Stream cq tcp) (l l' : RecvLocals)
      → Before st
      → handle_read_req cq fuel st l ≡ some (r, (st', l'))
      → After st'

module _ (cq : ConcurrentQueue) {tcp : Tcp} {Before After : Stream cq tcp → Type 0}
    (keeps : Keeps cq Before After) where
  -- A case is done when its assertion holds, or nothing is changed.
  asserted_keeps :
      (asserts b : Bool) (k : Option (Round × RecvState cq tcp)) (st₁ st' : Stream cq tcp)
      (l₁ l' : RecvLocals) (r : Round)
      → Before st₁
      → (k ≡ some (r, (st', l')) → After st')
      → asserted cq asserts b k (st₁, l₁) ≡ some (r, (st', l'))
      → After st'
  unfolding asserted
  asserted_keeps asserts b k st₁ st' l₁ l' r h g e = elim (Bool-cases (asserts && not b)) [
    | inl t ↦ (let same : st₁ ≡ st' = ground (arith, t, e) in subst After same (keeps.leaves st₁ h))
    | inr f ↦ g (ground (arith, f, e))
  ]

  module _ (asserts : Bool) (fuel : ℕ) (ret : ℤ) (r : Round) (st st' : Stream cq tcp)
      (l l' : RecvLocals) (before : Before st) where
    sent_case :
        (st₁ : Stream cq tcp) (op : ℕ) (b : Bool)
        → Before st₁
        → asserted cq asserts b (some (goes_on, handle_send cq op ret st₁ l)) (st₁, l)
          ≡ some (r, (st', l'))
        → After st'
    sent_case st₁ op b h e =
        asserted_keeps asserts b (some (goes_on, handle_send cq op ret st₁ l)) st₁ st' l l' r h
          (λ k.
            let same : (handle_send cq op ret st₁ l).0 ≡ st' = ground (arith, k) in
            subst After same (keeps.sends op ret st₁ l h))
          e

    -- A send with invalidate: the tag is looked up, and if it is there the send is handled.
    invalidated_case :
        (stag : Stag) (op : ℕ) (b : Bool)
        → (let (erased, st₁) = rdma_invalidate cq st stag in
            if erased == 0
            then some (returns_error, (st₁, l))
            else asserted cq asserts b (some (goes_on, handle_send cq op ret st₁ l)) (st₁, l))
          ≡ some (r, (st', l'))
        → After st'
    invalidated_case stag op b e =
        let out = rdma_invalidate cq st stag in
        let h = keeps.invalidates st stag before in
        elim (Bool-cases (out.0 == 0)) [
          | inl t ↦
              (let same : out.1 ≡ st' = ground (arith, t, e) in
                subst After same (keeps.leaves out.1 h))
          | inr f ↦ sent_case out.1 op b h (ground (arith, f, e))
        ]

    unchanged : st ≡ st' → After st'
    unchanged same = subst After same (keeps.leaves st before)

    by_opcode :
        (o : Option RdmaOpcode)
        → opcode_of (get_rdmap_op (rsvd_ulp1 l.msg.metadata)) ≡ o
        → dispatch cq asserts fuel ret st l ≡ some (r, (st', l'))
        → After st'
    unfolding dispatch
    by_opcode none is e = unchanged (ground (arith, is, e))
    by_opcode (some not_supported) is e = unchanged (ground (arith, is, e))
    by_opcode (some rdma_write) is e =
        asserted_keeps asserts (ddp_is_tagged l.msg.bits) (some (goes_on, (st, l))) st st' l l' r
          before (λ k. unchanged (ground (arith, k))) (ground (arith, is, e))
    by_opcode (some rdma_read_req) is e =
        asserted_keeps asserts (not (ddp_is_tagged l.msg.bits)) (handle_read_req cq fuel st l) st
          st' l l' r before (λ k. keeps.requests fuel r st st' l l' before k)
          (ground (arith, is, e))
    by_opcode (some rdma_read_resp) is e =
        asserted_keeps asserts (ddp_is_tagged l.msg.bits)
          (some (goes_on, handle_read_resp cq ret st l)) st st' l l' r before
          (λ k.
            let same : (handle_read_resp cq ret st l).0 ≡ st' = ground (arith, k) in
            subst After same (keeps.responds ret st l before))
          (ground (arith, is, e))
    by_opcode (some terminate) is e =
        asserted_keeps asserts (not (ddp_is_tagged l.msg.bits))
          (some (goes_on, (record st { connected = false }, l))) st st' l l' r before
          (λ k.
            let same : record st { connected = false } ≡ st' = ground (arith, k) in
            subst After same (keeps.terminates st before))
          (ground (arith, is, e))
    by_opcode (some send) is e =
        sent_case st (get_rdmap_op (rsvd_ulp1 l.msg.metadata)) (not (ddp_is_tagged l.msg.bits))
          before (ground (arith, is, e))
    by_opcode (some send_se) is e =
        sent_case st (get_rdmap_op (rsvd_ulp1 l.msg.metadata)) (not (ddp_is_tagged l.msg.bits))
          before (ground (arith, is, e))
    by_opcode (some send_inval) is e =
        invalidated_case (record { tag = rsvd_ulp1 l.msg.metadata; pd_id = 0 })
          (get_rdmap_op (rsvd_ulp1 l.msg.metadata)) (not (ddp_is_tagged l.msg.bits))
          (ground (arith, is, e))
    by_opcode (some send_se_inval) is e =
        invalidated_case (record { tag = rsvd_ulp1 l.msg.metadata; pd_id = 0 })
          (get_rdmap_op (rsvd_ulp1 l.msg.metadata)) (not (ddp_is_tagged l.msg.bits))
          (ground (arith, is, e))

  -- What every case keeps, a round keeps, however it ends.
  pub recv_round_keeps :
      (asserts : Bool) (fuel segs : ℕ) (r : Round) (st st' : Stream cq tcp) (l l' : RecvLocals)
      → Before st
      → recv_round cq asserts fuel segs st l ≡ some (r, (st', l'))
      → After st'
  unfolding recv_round
  recv_round_keeps asserts fuel segs r st st' l l' before e =
      elim (Option-cases (ddp_recv cq tcp fuel segs (world cq tcp st) l.msg)) [
        | inl n ↦ ground (arith, e, n)
        | inr ((ret, msg, w), q) ↦
            let st₁ : Stream cq tcp = record st { ddp_ctx = w.ctx; sock = w.sock; mem = w.mem } in
            let l₁ : RecvLocals = record l { msg = msg } in
            let h = keeps.receives st w.ctx w.sock w.mem before in
            elim (Bool-cases (ltb_ℤ ret (pos 0))) [
              | inl t ↦
                  (let same : st₁ ≡ st' = ground (arith, e, q, t) in
                    subst After same (keeps.leaves st₁ h))
              | inr f ↦
                  by_opcode asserts fuel ret r st₁ st' l₁ l' h
                    (opcode_of (get_rdmap_op (rsvd_ulp1 msg.metadata))) refl
                    (ground (arith, e, q, f))
            ]
      ]
