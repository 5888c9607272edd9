-- ===== src/Rdmap/Write.antt =====
-- An RDMA write from machine to machine (suiw/rdmap/rdmap.cpp, suiw/ddp/ddp.cpp, suiw/mpa/mpa.cpp):
-- a request of one machine's send loop to the memory of the other.
use soft_ui_warp.Prelude.{
  ℕ, ◌+◌, ◌^◌, ◌≤◌, ◌<◌, ◌≡◌, sym, ap, subst, ◌∙◌, Bool, some, List, ◌++◌, arith, pos, length,
}
use soft_ui_warp.Memory.{poke}
use soft_ui_warp.Wire.{htonll}
use soft_ui_warp.Queue.{ConcurrentQueue}
use soft_ui_warp.Tcp.{Tcp, IsReliable, IsOpen}
use soft_ui_warp.Ddp.{TaggedBuffer, ddp_check_stag}
use soft_ui_warp.Ddp.Send.{mulpdu, ddp_send_tagged}
use soft_ui_warp.Ddp.Segments.{last_len, InRange, gathered, all_pieces}
use soft_ui_warp.Ddp.Transfer.{ddp_send_tagged_emits}
use soft_ui_warp.WorkQueue.{rdma_write, SendWr}
use soft_ui_warp.Rdmap.{Stream, complete, get_rdmap_op}
use soft_ui_warp.Rdmap.RecvLoop.{RecvLocals, goes_on, recv_round}
use soft_ui_warp.Rdmap.SendLoop.{SendLocals, sges, tagged_meta, do_write, send_request, finish}
use soft_ui_warp.Rdmap.Rounds.{write_delivered}
use soft_ui_warp.Rdmap.TaggedRequests.{
  tagged_header, IsAddressed, host_order-tagged_meta, tagged_came,
}

-- The remote key and address of a write request fit their fields.
pub record IsRemote (req : SendWr) : Type 0 where
  pub is_write : req.opcode ≡ rdma_write
  pub rkey_fits : req.rkey < 2 ^ 32
  pub addr_fits : req.remote_addr < 2 ^ 64

is_write_op : (req : SendWr) → IsRemote req → get_rdmap_op (tagged_meta req).rsvd_ulp1 ≡ 0
unfolding tagged_meta get_rdmap_op
is_write_op req r = ground (arith, r.is_write)

-- The socket after a write is that after its tagged send.
write-sock :
    (cq : ConcurrentQueue) {tcp : Tcp} (st st' : Stream cq tcp) (l l' : SendLocals) (req : SendWr)
    (s' : tcp.State)
    → req.opcode ≡ rdma_write
    → ddp_send_tagged tcp st.mem st.sock (tagged_meta req) (sges st.read_sg req.sg_list)
      ≡ some (pos 0, s')
    → send_request cq st l req ≡ some (st', l')
    → st'.sock ≡ s'
unfolding send_request do_write finish complete
write-sock cq st st' l l' req s' op run e = ground (arith, op, run, e)

-- End to end: when one machine's send loop has done a write request and the bytes that it sent have
-- arrived at the other machine, a round of the receive loop there goes on, stores the bytes of the
-- request's gather list from the remote address on, and changes nothing else of the stream but what
-- it has read. The last entry of the list must not be empty, the list lie within the sender's
-- memory, the receiver's check pass, the message fit the address space, and the fuel cover a
-- segment and the segments.
pub write_transfer :
    (cq : ConcurrentQueue) {tcp tcp' : Tcp} (net : IsReliable tcp) (out : IsOpen tcp')
    (asserts : Bool) (fuel segs : ℕ) (st₁ st₁' : Stream cq tcp') (l₁ l₁' : SendLocals)
    (req : SendWr) (st : Stream cq tcp) (l : RecvLocals) (b : TaggedBuffer) (bytes rest : List ℕ)
    → let sgs = sges st₁.read_sg req.sg_list in
      IsRemote req
      → 0 < last_len sgs
      → InRange sgs
      → send_request cq st₁ l₁ req ≡ some (st₁', l₁')
      → out.sent st₁'.sock ≡ out.sent st₁.sock ++ bytes
      → net.pending st.sock ≡ bytes ++ rest
      → ddp_check_stag cq st.ddp_ctx (tagged_header req) ≡ some b
      → req.remote_addr + length (gathered st₁.mem sgs) ≤ 2 ^ 64
      → mulpdu + 18 < fuel
      → length (all_pieces st₁.mem sgs) ≤ segs
      → (s' : tcp.State) × (l' : RecvLocals) × (recv_round cq asserts fuel segs st l
          ≡ some (
            goes_on,
            (record st { sock = s'; mem = poke st.mem req.remote_addr (gathered st₁.mem sgs) }, l'),
          ))
        × (net.pending s' ≡ rest)
write_transfer cq net out asserts fuel segs st₁ st₁' l₁ l₁' req st l b bytes rest r some_bytes range
      ran went arrived checked room f g =
    let sgs = sges st₁.read_sg req.sg_list in
    let h = tagged_meta req in
    let (s', run, went') = ddp_send_tagged_emits out st₁.mem st₁.sock sgs h some_bytes in
    let same = write-sock cq st₁ st₁' l₁ l₁' req s' r.is_write run ran in
    let at : IsAddressed req = record { rkey_fits = r.rkey_fits; addr_fits = r.addr_fits } in
    let to : htonll h.to ≡ req.remote_addr = ap (λ k. k.to) (host_order-tagged_meta req at) in
    let came =
      tagged_came cq net out fuel segs st l b rest st₁.sock s' st₁.mem sgs req at some_bytes range
        run
        (record {
          bytes = bytes;
          went = ap out.sent (sym same) ∙ went;
          arrived = arrived;
          checked = checked;
          room = room;
          enough_fuel = f;
          enough_segs = g;
        }) in
    let (s, l', e, end) =
      write_delivered cq asserts fuel segs net st l h b rest (gathered st₁.mem sgs) came
        (is_write_op req r) in
    (
      s,
      l',
      subst
          (λ a.
            recv_round cq asserts fuel segs st l
            ≡ some
                (goes_on, (record st { sock = s; mem = poke st.mem a (gathered st₁.mem sgs) }, l')))
          to e,
      end,
    )
