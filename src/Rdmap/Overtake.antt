-- ===== src/Rdmap/Overtake.antt =====
-- A read response that is handled before the send loop has put the read's completion on `pending_q`
-- (suiw/rdmap/rdmap.cpp): `rnic_send` does that after the request is on its way.
use soft_ui_warp.Prelude.{◌≡◌, sym, ap, subst, ◌∙◌, [], ◌∷◌, ◌++◌, arith, ℤ}
use soft_ui_warp.Queue.{ConcurrentQueue, IsFifo}
use soft_ui_warp.Tcp.{Tcp}
use soft_ui_warp.WorkQueue.{WorkCompletion, to_u32}
use soft_ui_warp.Rdmap.{Stream, complete_later}
use soft_ui_warp.Rdmap.RecvLoop.{RecvLocals, handle_read_resp}
use soft_ui_warp.Rdmap.Handlers.{
  completions, waiting, complete_later_lem, handle_read_resp_lem, handle_read_resp_empty,
}

-- A response that comes when no completion waits is dropped: the completion that the send loop then
-- puts on the waiting queue is not reported, but stays there until the response to another read
-- comes, which reports it in place of its own.
pub response_overtakes :
    (cq : ConcurrentQueue) {tcp : Tcp} (fifo : IsFifo cq) (st : Stream cq tcp) (l l₃ : RecvLocals)
    (ret ret' : ℤ) (wce wce' : WorkCompletion)
    → waiting cq fifo st st.send_cq ≡ []
    → let i = st.send_cq in
      let st₁ = (handle_read_resp cq ret st l).0 in
      let st₂ = complete_later cq st₁ i wce in
      let st₃ = complete_later cq st₂ i wce' in
      let st₄ = (handle_read_resp cq ret' st₃ l₃).0 in
      (completions cq fifo st₂ i ≡ completions cq fifo st i)
      × (waiting cq fifo st₂ i ≡ wce ∷ [])
      × (completions cq fifo st₄ i
          ≡ completions cq fifo st i ++ record wce { byte_len = to_u32 ret' } ∷ [])
      × (waiting cq fifo st₄ i ≡ wce' ∷ [])
unfolding complete_later
response_overtakes cq fifo st l l₃ ret ret' wce wce' none_left =
    let i = st.send_cq in
    let st₁ = (handle_read_resp cq ret st l).0 in
    let st₂ = complete_later cq st₁ i wce in
    let st₃ = complete_later cq st₂ i wce' in
    let same = (handle_read_resp_empty cq fifo ret st l i none_left).0 in
    let (now, later, others) = complete_later_lem cq fifo st₁ i wce in
    let (now', later', others') = complete_later_lem cq fifo st₂ i wce' in
    let took = fifo.try_dequeue_empty WorkCompletion (st.cqs st.send_cq).pending_q none_left in
    let at : st₃.send_cq ≡ i = unfold handle_read_resp in ground (arith, took) in
    let nothing_waits : waiting cq fifo st₁ i ≡ [] =
      ap (λ c. fifo.items WorkCompletion c.pending_q) same ∙ none_left in
    let done : completions cq fifo st₂ i ≡ completions cq fifo st i =
      now ∙ ap (λ c. fifo.items WorkCompletion c.q) same in
    let one : waiting cq fifo st₂ i ≡ wce ∷ [] = later ∙ ap (λ w. w ++ wce ∷ []) nothing_waits in
    let two : waiting cq fifo st₃ i ≡ wce ∷ wce' ∷ [] = later' ∙ ap (λ w. w ++ wce' ∷ []) one in
    let (moved, left, kept) =
      handle_read_resp_lem cq fifo ret' st₃ l₃ wce (wce' ∷ []) 0
        (subst (λ j. waiting cq fifo st₃ j ≡ wce ∷ wce' ∷ []) (sym at) two) in
    let st₄ = (handle_read_resp cq ret' st₃ l₃).0 in
    let wce₂ : WorkCompletion = record wce { byte_len = to_u32 ret' } in
    (
      done,
      one,
      subst (λ j. completions cq fifo st₄ j ≡ completions cq fifo st₃ j ++ wce₂ ∷ []) at moved
          ∙ ap (λ w. w ++ wce₂ ∷ []) (now' ∙ done),
      subst (λ j. waiting cq fifo st₄ j ≡ wce' ∷ []) at left,
    )
