-- ===== src/WorkQueue.antt =====
-- Work requests, work completions and their queues (common/cq.h, common/cq.cpp), and the operation
-- codes of common/common.h. Fields that nothing sets or reads are left out, and so are `free` and
-- `delete`: a destroyed queue is not used again.
use soft_ui_warp.Prelude.{ℕ, zero, suc, ◌-◌, ◌%◌, ◌^◌, Option, none, some, List, ℤ, pos, negsuc}
use soft_ui_warp.Queue.{ConcurrentQueue}
use soft_ui_warp.Ddp.{Sge}

-- `enum rdma_opcode`.
pub data RdmaOpcode : Type 0 where
  rdma_write rdma_read_req rdma_read_resp : RdmaOpcode
  send send_inval send_se send_se_inval : RdmaOpcode
  terminate not_supported : RdmaOpcode

abbrev pub opcode_number : RdmaOpcode → ℕ
opcode_number rdma_write = 0
opcode_number rdma_read_req = 1
opcode_number rdma_read_resp = 2
opcode_number send = 3
opcode_number send_inval = 4
opcode_number send_se = 5
opcode_number send_se_inval = 6
opcode_number terminate = 7
opcode_number not_supported = 8

-- The number as the `switch` of the receive loop reads it; it has no case above 7.
unfoldable pub opcode_of : ℕ → Option RdmaOpcode
opcode_of zero = some rdma_write
opcode_of (suc zero) = some rdma_read_req
opcode_of (suc (suc zero)) = some rdma_read_resp
opcode_of (suc (suc (suc zero))) = some send
opcode_of (suc (suc (suc (suc zero)))) = some send_inval
opcode_of (suc (suc (suc (suc (suc zero))))) = some send_se
opcode_of (suc (suc (suc (suc (suc (suc zero)))))) = some send_se_inval
opcode_of (suc (suc (suc (suc (suc (suc (suc zero))))))) = some terminate
opcode_of (suc (suc (suc (suc (suc (suc (suc (suc n)))))))) = none

-- `enum wc_status`.
pub data WcStatus : Type 0 where
  wc_success wc_loc_len_err wc_loc_qp_op_err wc_loc_eec_op_err wc_loc_prot_err : WcStatus
  wc_wr_flush_err wc_mw_bind_err wc_bad_resp_err wc_loc_access_err wc_rem_inv_req_err : WcStatus
  wc_rem_access_err wc_rem_op_err wc_retry_exc_err wc_rnr_retry_exc_err : WcStatus
  wc_loc_rdd_viol_err wc_rem_inv_rd_req_err wc_rem_abort_err wc_inv_eecn_err : WcStatus
  wc_inv_eec_state_err wc_fatal_err wc_resp_timeout_err wc_general_err wc_tm_err : WcStatus
  wc_tm_rndv_incomplete : WcStatus

-- `struct work_completion`; the operation is the number of an `rdma_opcode`, cast.
pub record WorkCompletion : Type 0 where
  pub wr_id : ℕ
  pub status : WcStatus
  pub opcode : ℕ
  pub byte_len : ℕ
  pub src_qp : ℕ

-- An `int` stored into a `uint32_t`.
abbrev pub to_u32 : ℤ → ℕ
to_u32 (pos n) = n % 2 ^ 32
to_u32 (negsuc n) = 2 ^ 32 - 1 - n % 2 ^ 32

-- The pointer `sg_list` of a work request: a list of the caller's, or the one entry that the
-- receive loop keeps for all its read responses.
pub data SgList : Type 0 where
  own : List Sge → SgList
  read_resp_sg : SgList

-- `struct recv_wr` and `struct send_wr`.
pub record RecvWr : Type 0 where
  pub wr_id : ℕ
  pub sg_list : List Sge

pub record SendWr : Type 0 where
  pub wr_id : ℕ
  pub sg_list : SgList
  pub opcode : RdmaOpcode
  pub invalidate_rkey : ℕ
  pub remote_addr : ℕ
  pub rkey : ℕ

-- `send_wr_to_wce`.
unfoldable pub send_wr_to_wce : SendWr → WorkCompletion → WorkCompletion
send_wr_to_wce wr wce = record wce { wr_id = wr.wr_id; opcode = opcode_number wr.opcode }

-- `struct cq`.
pub record Cq (cq : ConcurrentQueue) : Type 0 where
  pub q : cq.Q WorkCompletion
  pub pending_q : cq.Q WorkCompletion

-- `enum wq_type` with the union of `struct wq`: the queue that its constructor names.
pub data WqQueue (cq : ConcurrentQueue) : Type 0 where
  wqt_sq : cq.Q SendWr → WqQueue cq
  wqt_rq : cq.Q RecvWr → WqQueue cq

pub data WqType : Type 0 where
  sq rq : WqType

-- `struct wq_init_attr`; a completion queue is given by its number.
pub record WqInitAttr : Type 0 where
  pub wq_type : WqType
  pub max_wr : ℕ
  pub pd : ℕ
  pub cq_id : ℕ
  pub comp_mask : ℕ

-- `struct wq`.
pub record Wq (cq : ConcurrentQueue) : Type 0 where
  pub pd : ℕ
  pub cq_id : ℕ
  pub queue : WqQueue cq
  pub comp_mask : ℕ

module _ (cq : ConcurrentQueue) where
  unfoldable pub create_cq : ℕ → Cq cq
  create_cq num_cqe = record {
    q = cq.new WorkCompletion num_cqe;
    pending_q = cq.new WorkCompletion num_cqe;
  }

  -- The completions taken, and the queue after.
  unfoldable pub poll_cq : Cq cq → ℕ → List WorkCompletion × Cq cq
  poll_cq c num_entries =
      let (wc, q') = cq.try_dequeue_bulk WorkCompletion c.q num_entries in (wc, record c { q = q' })

  unfoldable pub create_wq : WqInitAttr → Wq cq
  create_wq a = record {
    pd = a.pd;
    cq_id = a.cq_id;
    queue = elim a.wq_type [
      | sq ↦ wqt_sq (cq.new SendWr a.max_wr)
      | rq ↦ wqt_rq (cq.new RecvWr a.max_wr)
    ];
    comp_mask = a.comp_mask;
  }
