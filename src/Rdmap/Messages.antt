-- ===== src/Rdmap/Messages.antt =====
-- Untagged messages of one segment from machine to machine (suiw/rdmap/rdmap.cpp, suiw/ddp/ddp.cpp):
-- the headers that the send loop makes, and what the receive loop's `ddp_recv` gives for them.
use soft_ui_warp.Prelude.{
  ℕ, ◌+◌, ◌%◌, ◌^◌, ◌≤◌, ◌<◌, ◌≡◌, refl, sym, ap, subst, ◌∙◌, some, List, [], ◌∷◌, ◌++◌, arith, pos,
  length,
}
use soft_ui_warp.Memory.{load, poke}
use soft_ui_warp.Wire.{le_bytes, from_le, htonl}
use soft_ui_warp.Wire.Bytes.{htonl-lt, htonl_twice}
use soft_ui_warp.Queue.{ConcurrentQueue}
use soft_ui_warp.Tcp.{Tcp, IsReliable, IsOpen}
use soft_ui_warp.Ddp.{
  Sge, UntaggedBuffer, UntaggedMeta, Context, max_untagged_buffers, untagged_bytes,
  ddp_check_untagged_hdr,
}
use soft_ui_warp.Ddp.Send.{mulpdu, to_send, advance_mo, ddp_send_untagged}
use soft_ui_warp.Ddp.Segments.{deposit}
use soft_ui_warp.Ddp.UntaggedHeader.{InUntaggedFields, untagged_host_order}
use soft_ui_warp.Ddp.Untagged.{in_buffer}
use soft_ui_warp.Ddp.UntaggedTransfer.{from_start, one_piece, untagged_transfer}
use soft_ui_warp.Rdmap.{Stream}
use soft_ui_warp.Rdmap.RecvLoop.{RecvLocals}
use soft_ui_warp.Rdmap.SendLoop.{untagged_meta}
use soft_ui_warp.Rdmap.Rounds.{world}
use soft_ui_warp.Rdmap.Arrivals.{Came}

-- An entry of a gather list that one segment takes.
pub record IsShort (sg : Sge) : Type 0 where
  pub some_bytes : 0 < sg.len
  pub few_bytes : sg.len ≤ mulpdu
  pub in_range : sg.addr < 2 ^ 64

-- The numbers of an untagged header fit their fields, and its queue is one of the stream's.
pub record IsSendable (ctrl ulp2 qn msn : ℕ) : Type 0 where
  pub ctrl_fits : ctrl < 2 ^ 8
  pub ulp2_fits : ulp2 < 2 ^ 32
  pub qn_in_range : qn < max_untagged_buffers
  pub msn_fits : msn < 2 ^ 32

-- The header as the receiver sees it.
abbrev pub untagged_header : ℕ → ℕ → ℕ → ℕ → UntaggedMeta
untagged_header ctrl ulp2 qn msn = record {
  rsvd_ulp1 = ctrl;
  rsvd_ulp2 = ulp2;
  qn = qn;
  msn = msn;
  mo = 0;
}

zero_offset : htonl 0 ≡ 0
unfolding htonl from_le le_bytes
zero_offset = refl

module _ (ctrl ulp2 qn msn : ℕ) (ok : IsSendable ctrl ulp2 qn msn) where
  untagged_meta-host_order :
      untagged_host_order (from_start (untagged_meta ctrl ulp2 qn msn))
      ≡ untagged_header ctrl ulp2 qn msn
  unfolding untagged_meta
  untagged_meta-host_order =
      let q = ok.qn_in_range in
      ground (arith, zero_offset, htonl_twice qn (omega arith), htonl_twice msn ok.msn_fits)

  untagged_meta-InUntaggedFields : InUntaggedFields (untagged_meta ctrl ulp2 qn msn)
  unfolding untagged_meta
  untagged_meta-InUntaggedFields = record {
    rsvd1_fits = ok.ctrl_fits;
    rsvd2_fits = ok.ulp2_fits;
    qn_fits = htonl-lt qn;
    msn_fits = htonl-lt msn;
    mo_fits = omega arith;
  }

  pub untagged_meta-qn : htonl (untagged_meta ctrl ulp2 qn msn).qn ≡ qn
  unfolding untagged_meta
  untagged_meta-qn = (let q = ok.qn_in_range in htonl_twice qn (omega arith))

  check_passes :
      (cq : ConcurrentQueue) (ctx : Context cq)
      → (ctx.queues qn).msn ≤ msn
      → ddp_check_untagged_hdr cq ctx (untagged_header ctrl ulp2 qn msn) ≡ some qn
  unfolding ddp_check_untagged_hdr
  check_passes cq ctx low = (let q = ok.qn_in_range in ground (arith, low, q))

-- The bytes of a message of one segment that has been sent have arrived at a machine with a buffer
-- for it.
pub record HasArrived (cq : ConcurrentQueue) {tcp tcp' : Tcp} (net : IsReliable tcp)
    (out : IsOpen tcp') (fuel segs : ℕ) (s₀ s₁ : tcp'.State) (st : Stream cq tcp) (qn msn : ℕ)
    (b : UntaggedBuffer) (q' : cq.Q UntaggedBuffer) (rest : List ℕ) : Type 0 where
  pub bytes : List ℕ
  pub went : out.sent s₁ ≡ out.sent s₀ ++ bytes
  pub arrived : net.pending st.sock ≡ bytes ++ rest
  pub posted : cq.try_dequeue UntaggedBuffer (st.ddp_ctx.queues qn).q ≡ (some b, q')
  pub not_old : (st.ddp_ctx.queues qn).msn ≤ msn
  pub enough_fuel : mulpdu + 18 < fuel
  pub enough_segs : 1 ≤ segs

module _ (cq : ConcurrentQueue) {tcp tcp' : Tcp} (net : IsReliable tcp) (out : IsOpen tcp')
    (fuel segs : ℕ) (st : Stream cq tcp) (l : RecvLocals) (b : UntaggedBuffer)
    (q' : cq.Q UntaggedBuffer) (rest : List ℕ) (s₀ s₁ : tcp'.State) (mem : ℕ → ℕ) (sg : Sge)
    (ctrl ulp2 qn msn : ℕ) where
  -- A message of one segment arrives.
  pub message_came :
      IsShort sg
      → IsSendable ctrl ulp2 qn msn
      → ddp_send_untagged tcp' mem s₀ (untagged_meta ctrl ulp2 qn msn) (sg ∷ []) ≡ some (pos 0, s₁)
      → HasArrived cq net out fuel segs s₀ s₁ st qn msn b q' rest
      → Came cq net fuel segs st l
          (from_start (untagged_meta ctrl ulp2 qn msn))
          b
          q'
          rest
          (load mem sg.addr sg.len ∷ [])
  message_came short ok ran here =
      let h = untagged_meta ctrl ulp2 qn msn in
      let to_qn = untagged_meta-qn ctrl ulp2 qn msn ok in
      let one = one_piece mem sg short.some_bytes short.few_bytes short.in_range in
      let few = short.few_bytes in
      let some_bytes : 0 < to_send sg.len = ground (arith, short.some_bytes, short.few_bytes) in
      let posted : cq.try_dequeue UntaggedBuffer (st.ddp_ctx.queues (htonl h.qn)).q ≡ (some b, q') =
        ap (λ n. cq.try_dequeue UntaggedBuffer (st.ddp_ctx.queues n).q) to_qn ∙ here.posted in
      let checked : ddp_check_untagged_hdr cq st.ddp_ctx (untagged_host_order (from_start h))
          ≡ some (htonl h.qn) =
        ap (ddp_check_untagged_hdr cq st.ddp_ctx) (untagged_meta-host_order ctrl ulp2 qn msn ok)
        ∙ check_passes ctrl ulp2 qn msn ok cq st.ddp_ctx here.not_old
        ∙ ap some (sym to_qn) in
      subst (λ cs. Came cq net fuel segs st l (from_start h) b q' rest cs) one
        (untagged_transfer cq net fuel segs (world cq tcp st) l.msg h b q' rest out mem s₀ s₁
          (sg ∷ []) here.bytes some_bytes ran here.went here.arrived
          (untagged_meta-InUntaggedFields ctrl ulp2 qn msn ok) checked posted here.enough_fuel
          (omega (arith, ap length one, here.enough_segs)))

  -- Where it goes: to the start of the buffer.
  pub message_stored :
      (m : ℕ → ℕ)
      → deposit untagged_bytes advance_mo
          (in_buffer b)
          m
          (from_start (untagged_meta ctrl ulp2 qn msn))
          (load mem sg.addr sg.len ∷ [])
        ≡ poke m (b.buf_addr % 2 ^ 64) (load mem sg.addr sg.len)
  unfolding deposit untagged_meta
  message_stored m =
      let at : (b.buf_addr + htonl 0) % 2 ^ 64 ≡ b.buf_addr % 2 ^ 64 = omega (arith, zero_offset) in
      ap (λ a. poke m a (load mem sg.addr sg.len)) at
