-- ===== src/Ddp.antt =====
-- The DDP layer's data, buffers and checks (suiw/ddp/ddp.h, suiw/ddp/buffer.h, and the functions of
-- suiw/ddp/ddp.cpp other than the two sends and the receive, which are the children `Send` and
-- `Recv`).
pub mod Send
pub mod Message
pub mod Recv
pub mod Checks
pub mod Ends
pub mod Segments
pub mod Emission
pub mod Codec
pub mod Reassembly
pub mod FirstReads
pub mod TaggedHeader
pub mod UntaggedHeader
pub mod Tagged
pub mod Untagged
pub mod Transfer
pub mod UntaggedTransfer
use soft_ui_warp.Prelude.{
  ℕ, ◌+◌, ◌%◌, ◌^◌, Bool, not, ◌||◌, Option, none, some, List, ◌++◌, ltb, leb, if◌then◌else◌, ℤ,
  pos, pos_part, ltb_ℤ, leb_ℤ,
}
use soft_ui_warp.Wire.{le_bytes, htons}
use soft_ui_warp.Memory.{update}
use soft_ui_warp.Queue.{ConcurrentQueue}

-- `struct sge`.
pub record Sge : Type 0 where
  pub addr : ℕ
  pub len : ℕ
  pub lkey : ℕ

-- `struct untagged_buffer`.
pub record UntaggedBuffer : Type 0 where
  pub buf_addr : ℕ
  pub len : ℕ
  pub next : ℕ

-- `struct stag_t`, with its `struct pd_t`.
pub record Stag : Type 0 where
  pub tag : ℕ
  pub pd_id : ℕ

-- `struct tagged_buffer`.
pub record TaggedBuffer : Type 0 where
  pub stag : Stag
  pub buf_addr : ℕ
  pub len : ℕ
  pub access_ctrl : ℕ

abbrev pub max_untagged_buffers : ℕ
max_untagged_buffers = 3

abbrev pub ddp_ctrl_size : ℕ
ddp_ctrl_size = 1

abbrev pub ddp_tagged_hdr_size : ℕ
ddp_tagged_hdr_size = 13

abbrev pub ddp_untagged_hdr_size : ℕ
ddp_untagged_hdr_size = 17

-- `DDP_HDR_T`, and `DDP_FLAG_LAST` as the code computes it.
abbrev pub ddp_hdr_t : ℕ
ddp_hdr_t = 2 ^ 7

unfoldable pub ddp_flag_last : ℕ
unfolding htons
ddp_flag_last = htons 0x4000

-- `struct ddp_tagged_meta` and `struct ddp_untagged_meta`: the integers as they stand in memory.
pub record TaggedMeta : Type 0 where
  pub rsvd_ulp1 : ℕ
  pub tag : ℕ
  pub to : ℕ

pub record UntaggedMeta : Type 0 where
  pub rsvd_ulp1 : ℕ
  pub rsvd_ulp2 : ℕ
  pub qn : ℕ
  pub msn : ℕ
  pub mo : ℕ

-- The bytes of these packed structures.
unfoldable pub tagged_bytes : TaggedMeta → List ℕ
tagged_bytes h = le_bytes 1 h.rsvd_ulp1 ++ (le_bytes 4 h.tag ++ le_bytes 8 h.to)

unfoldable pub untagged_bytes : UntaggedMeta → List ℕ
untagged_bytes h =
    le_bytes 1 h.rsvd_ulp1
    ++ (le_bytes 4 h.rsvd_ulp2 ++ (le_bytes 4 h.qn ++ (le_bytes 4 h.msn ++ le_bytes 4 h.mo)))

-- `struct untagged_buffer_queue`.
pub record UntaggedQueue (cq : ConcurrentQueue) : Type 0 where
  pub q : cq.Q UntaggedBuffer
  pub msn : ℕ

-- `struct ddp_stream_context`. The array of queues is read below `max_untagged_buffers` only; the
-- map from steering tags is a function.
pub record Context (cq : ConcurrentQueue) : Type 0 where
  pub sockfd : ℕ
  pub pd : ℕ
  pub queues : ℕ → UntaggedQueue cq
  pub tagged_buffers : ℕ → Option TaggedBuffer

module _ (cq : ConcurrentQueue) where
  unfoldable pub ddp_init_stream : ℕ → ℕ → Context cq
  ddp_init_stream sockfd pd = record {
    sockfd = sockfd;
    pd = pd;
    queues = λ _. record { q = cq.new UntaggedBuffer 0; msn = 1 };
    tagged_buffers = λ _. none;
  }

  -- A queue number out of range is logged and ignored.
  unfoldable pub ddp_post_recv : Context cq → ℤ → List UntaggedBuffer → Context cq
  ddp_post_recv ctx qn bufs =
      let old = ctx.queues (pos_part qn) in
      let (_, q') = cq.enqueue_bulk UntaggedBuffer old.q bufs in
      if ltb_ℤ qn (pos 0) || leb_ℤ (pos max_untagged_buffers) qn
      then ctx
      else record ctx { queues = update ctx.queues (pos_part qn) (record old { q = q' }) }

  -- The number of the queue, or nothing (`NULL`).
  unfoldable pub ddp_check_untagged_hdr : Context cq → UntaggedMeta → Option ℕ
  ddp_check_untagged_hdr ctx h =
      if leb max_untagged_buffers h.qn
      then none
      else if ltb h.msn (ctx.queues h.qn).msn
      then none
      else some h.qn

  -- The buffer's tag is the low half of its address.
  unfoldable pub register_tagged_buffer : Context cq → TaggedBuffer → TaggedBuffer × Context cq
  register_tagged_buffer ctx buf =
      let stag = buf.stag in
      let buf' = record buf { stag = record stag { tag = buf.buf_addr % 2 ^ 32 } } in
      (buf', record ctx { tagged_buffers = update ctx.tagged_buffers buf'.stag.tag (some buf') })

  -- `erase` gives the number of entries removed.
  unfoldable pub deregister_tagged_buffer : Context cq → Stag → ℕ × Context cq
  deregister_tagged_buffer ctx stag = (
    elim (ctx.tagged_buffers stag.tag) [ none ↦ 0 | some _ ↦ 1 ],
    record ctx { tagged_buffers = update ctx.tagged_buffers stag.tag none },
  )

  -- The test on one buffer; the sum is 64 bits wide.
  unfoldable pub offset_valid : TaggedBuffer → ℕ → Bool
  offset_valid b to = not (ltb to b.buf_addr || ltb ((b.buf_addr + b.len) % 2 ^ 64) to)

  unfoldable pub ddp_check_stag : Context cq → TaggedMeta → Option TaggedBuffer
  unfolding offset_valid
  ddp_check_stag ctx h = elim (ctx.tagged_buffers h.tag) [
    | none ↦ none
    | some b ↦ if offset_valid b h.to then some b else none
  ]
