-- ===== src/Rdmap/TaggedRequests.antt =====
-- Tagged messages from machine to machine (suiw/rdmap/rdmap.cpp, suiw/ddp/ddp.cpp): the headers that
-- the send loop makes for writes and read responses, and what the receive loop's `ddp_recv` gives
-- for them.
use soft_ui_warp.Prelude.{
  ℕ, ◌+◌, ◌^◌, ◌≤◌, ◌<◌, ◌≡◌, sym, ap, subst, ◌∙◌, some, List, ◌++◌, arith, pos, length,
}
use soft_ui_warp.Memory.{Memory}
use soft_ui_warp.Wire.Bytes.{htonl-lt, htonll-lt, htonl_twice, htonll_twice}
use soft_ui_warp.Queue.{ConcurrentQueue}
use soft_ui_warp.Tcp.{Tcp, IsReliable, IsOpen}
use soft_ui_warp.Ddp.{Sge, TaggedMeta, TaggedBuffer, ddp_check_stag}
use soft_ui_warp.Ddp.Send.{mulpdu, ddp_send_tagged}
use soft_ui_warp.Ddp.Recv.{ddp_recv}
use soft_ui_warp.Ddp.Segments.{last_len, InRange, gathered, all_pieces}
use soft_ui_warp.Ddp.Tagged.{Delivers}
use soft_ui_warp.Ddp.TaggedHeader.{InFields, host_order}
use soft_ui_warp.Ddp.Transfer.{tagged_transfer}
use soft_ui_warp.WorkQueue.{
  RdmaOpcode, rdma_write, rdma_read_req, rdma_read_resp, send, send_inval, send_se, send_se_inval,
  terminate, not_supported, SendWr,
}
use soft_ui_warp.Rdmap.{Stream}
use soft_ui_warp.Rdmap.RecvLoop.{RecvLocals}
use soft_ui_warp.Rdmap.SendLoop.{tagged_meta, rdma_hdr}
use soft_ui_warp.Rdmap.Rounds.{world}

-- The header of a tagged message as the receiver sees it.
abbrev pub tagged_header : SendWr → TaggedMeta
tagged_header req = record { rsvd_ulp1 = rdma_hdr req.opcode; tag = req.rkey; to = req.remote_addr }

-- The remote key and address of a request fit their fields.
pub record IsAddressed (req : SendWr) : Type 0 where
  pub rkey_fits : req.rkey < 2 ^ 32
  pub addr_fits : req.remote_addr < 2 ^ 64

rdma_hdr-lt : (op : RdmaOpcode) → rdma_hdr op < 2 ^ 8
rdma_hdr-lt rdma_write = omega arith
rdma_hdr-lt rdma_read_req = omega arith
rdma_hdr-lt rdma_read_resp = omega arith
rdma_hdr-lt send = omega arith
rdma_hdr-lt send_inval = omega arith
rdma_hdr-lt send_se = omega arith
rdma_hdr-lt send_se_inval = omega arith
rdma_hdr-lt terminate = omega arith
rdma_hdr-lt not_supported = omega arith

pub host_order-tagged_meta :
    (req : SendWr) → IsAddressed req → host_order (tagged_meta req) ≡ tagged_header req
unfolding tagged_meta
host_order-tagged_meta req r =
    ground (arith, htonl_twice req.rkey r.rkey_fits, htonll_twice req.remote_addr r.addr_fits)

tagged_meta-InFields : (req : SendWr) → InFields (tagged_meta req)
unfolding tagged_meta
tagged_meta-InFields req = record {
  rsvd_fits = rdma_hdr-lt req.opcode;
  tag_fits = htonl-lt req.rkey;
  to_fits = htonll-lt req.remote_addr;
}

-- The bytes of a tagged message of the gather list `sgs` have arrived at a machine whose check of
-- the header passes, in a message that fits the address space.
pub record HasArrived (cq : ConcurrentQueue) {tcp tcp' : Tcp} (net : IsReliable tcp)
    (out : IsOpen tcp') (fuel segs : ℕ) (s₀ s₁ : tcp'.State) (mem : Memory) (sgs : List Sge)
    (st : Stream cq tcp) (req : SendWr) (b : TaggedBuffer) (rest : List ℕ) : Type 0 where
  pub bytes : List ℕ
  pub went : out.sent s₁ ≡ out.sent s₀ ++ bytes
  pub arrived : net.pending st.sock ≡ bytes ++ rest
  pub checked : ddp_check_stag cq st.ddp_ctx (tagged_header req) ≡ some b
  pub room : req.remote_addr + length (gathered mem sgs) ≤ 2 ^ 64
  pub enough_fuel : mulpdu + 18 < fuel
  pub enough_segs : length (all_pieces mem sgs) ≤ segs

module _ (cq : ConcurrentQueue) {tcp tcp' : Tcp} (net : IsReliable tcp) (out : IsOpen tcp')
    (fuel segs : ℕ) (st : Stream cq tcp) (l : RecvLocals) (b : TaggedBuffer) (rest : List ℕ)
    (s₀ s₁ : tcp'.State) (mem : Memory) (sgs : List Sge) (req : SendWr) where
  -- A tagged message arrives.
  pub tagged_came :
      IsAddressed req
      → 0 < last_len sgs
      → InRange sgs
      → ddp_send_tagged tcp' mem s₀ (tagged_meta req) sgs ≡ some (pos 0, s₁)
      → HasArrived cq net out fuel segs s₀ s₁ mem sgs st req b rest
      → Delivers cq net fuel segs
          (world cq tcp st)
          l.msg
          (tagged_meta req)
          b
          rest
          (gathered mem sgs)
          (ddp_recv cq tcp fuel segs (world cq tcp st) l.msg)
  tagged_came r some_bytes range ran here =
      let seen = host_order-tagged_meta req r in
      tagged_transfer cq net fuel segs (world cq tcp st) l.msg (tagged_meta req) b rest out mem s₀
        s₁ sgs here.bytes some_bytes range ran here.went here.arrived (tagged_meta-InFields req)
        (ap (ddp_check_stag cq st.ddp_ctx) seen ∙ here.checked)
        (subst (λ a. a + length (gathered mem sgs) ≤ 2 ^ 64) (sym (ap (λ k. k.to) seen)) here.room)
        here.enough_fuel here.enough_segs
