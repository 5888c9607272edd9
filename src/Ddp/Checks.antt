-- ===== src/Ddp/Checks.antt =====
-- Registration, deregistration, the check of a tagged header, and the posting of buffers
-- (suiw/ddp/ddp.cpp).
use soft_ui_warp.Prelude.{
  ℕ, ◌+◌, ◌%◌, ◌^◌, ◌≤◌, ◌<◌, ◌≡◌, refl, ◌≢◌, ◌↔◌, ◌⊎◌, none, some, List, ◌++◌, arith, ◌==◌,
  if◌then◌else◌, pos,
}
use soft_ui_warp.Queue.{ConcurrentQueue, IsFifo}
use soft_ui_warp.Memory.{update}
use soft_ui_warp.Ddp.{
  TaggedMeta, TaggedBuffer, Stag, UntaggedBuffer, UntaggedMeta, Context, max_untagged_buffers,
  ddp_post_recv, ddp_check_untagged_hdr, register_tagged_buffer, deregister_tagged_buffer,
  offset_valid, ddp_check_stag,
}

pub update_same : {A : Type 0} (f : ℕ → A) (i : ℕ) (a : A) → update f i a i ≡ a
update_same f i a = ground arith

pub update_other : {A : Type 0} (f : ℕ → A) (i j : ℕ) (a : A) → i ≢ j → update f i a j ≡ f j
update_other f i j a ne = ground arith

module _ (cq : ConcurrentQueue) where
  -- A header whose tag names a buffer passes the check exactly if its offset lies between the
  -- buffer's start and its end, the end included. The buffer must not wrap around the address space.
  pub check_stag_accepts :
      (ctx : Context cq) (h : TaggedMeta) (b : TaggedBuffer)
      → ctx.tagged_buffers h.tag ≡ some b
      → b.buf_addr + b.len < 2 ^ 64
      → (ddp_check_stag cq ctx h ≡ some b) ↔ ((b.buf_addr ≤ h.to) × (h.to ≤ b.buf_addr + b.len))
  unfolding ddp_check_stag offset_valid
  check_stag_accepts ctx h b found fits = (λ e. ground arith, λ g. ground arith)

  -- A header passes only with the buffer that is registered for its tag, and only from the buffer's
  -- start on.
  pub check_stag_sound :
      (ctx : Context cq) (h : TaggedMeta) (b : TaggedBuffer)
      → ddp_check_stag cq ctx h ≡ some b
      → (ctx.tagged_buffers h.tag ≡ some b) × (b.buf_addr ≤ h.to)
  unfolding ddp_check_stag offset_valid
  check_stag_sound ctx h b e = ground arith

  -- A registered buffer gets the low half of its address as its tag; headers with that tag are then
  -- checked against it, and headers with another tag as before.
  pub register_tagged_buffer_lem :
      (ctx : Context cq) (buf : TaggedBuffer) (h : TaggedMeta)
      → let (buf', ctx') = register_tagged_buffer cq ctx buf in
        (buf'.stag.tag ≡ buf.buf_addr % 2 ^ 32)
        × (ddp_check_stag cq ctx' h ≡ (
            if buf'.stag.tag == h.tag
            then (if offset_valid cq buf' h.to then some buf' else none)
            else ddp_check_stag cq ctx h))
  unfolding ddp_check_stag register_tagged_buffer
  register_tagged_buffer_lem ctx buf h = (refl, ground arith)

  -- Deregistration reports whether the tag was registered; after it no header with that tag passes,
  -- headers with another tag are checked as before, and a second deregistration finds nothing.
  pub deregister_tagged_buffer_lem :
      (ctx : Context cq) (stag : Stag) (h : TaggedMeta)
      → let (erased, ctx') = deregister_tagged_buffer cq ctx stag in
        ((erased ≡ 0) ↔ (ctx.tagged_buffers stag.tag ≡ none))
        × (ddp_check_stag cq ctx' h ≡ (if stag.tag == h.tag then none else ddp_check_stag cq ctx h))
        × ((deregister_tagged_buffer cq ctx' stag).0 ≡ 0)
  unfolding ddp_check_stag deregister_tagged_buffer
  deregister_tagged_buffer_lem ctx stag h = (ground arith, ground arith, ground arith)

  module _ (fifo : IsFifo cq) where
    open fifo use {items}

    -- Buffers posted to a queue in range stand behind those already there, in order; no other queue
    -- changes, and the registered buffers stay.
    pub ddp_post_recv_lem :
        (ctx : Context cq) (qn i : ℕ) (bufs : List UntaggedBuffer)
        → qn < max_untagged_buffers
        → let ctx' = ddp_post_recv cq ctx (pos qn) bufs in
          (items _ (ctx'.queues qn).q ≡ items _ (ctx.queues qn).q ++ bufs)
          × ((qn ≡ i) ⊎ (ctx'.queues i ≡ ctx.queues i))
          × (ctx'.tagged_buffers ≡ ctx.tagged_buffers)
    unfolding ddp_post_recv
    ddp_post_recv_lem ctx qn i bufs h = (
      ground (arith, fifo.items-enqueue_bulk UntaggedBuffer (ctx.queues qn).q bufs),
      ground arith,
      ground arith,
    )

  -- An untagged header passes exactly if its queue number is in range and its sequence number is
  -- not below the queue's.
  pub check_untagged_hdr_accepts :
      (ctx : Context cq) (h : UntaggedMeta)
      → (ddp_check_untagged_hdr cq ctx h ≡ some h.qn)
        ↔ ((h.qn < max_untagged_buffers) × ((ctx.queues h.qn).msn ≤ h.msn))
  unfolding ddp_check_untagged_hdr
  check_untagged_hdr_accepts ctx h = (λ e. ground arith, λ g. ground arith)
