-- ===== src/Perftest/Requests.antt =====
-- What the benchmarks prepare (perftest/write_bw.cpp, read_bw.cpp, write_lat.cpp, read_lat.cpp): their
-- requests and their buffers. A field that the code does not set is 0.
use soft_ui_warp.Prelude.{
  ℕ, zero, suc, ◌+◌, ◌%◌, ◌^◌, ◌≤◌, ◌<◌, ◌≡◌, refl, ◌∙◌, ◌≢◌, inl, inr, not, [], ◌∷◌, arith, ◌==◌,
  if◌then◌else◌, ==_iff, Bool-cases, pos_part, replicate,
}
use soft_ui_warp.Memory.{Memory, update, poke}
use soft_ui_warp.WorkQueue.{RdmaOpcode, rdma_write, rdma_read_req, to_u32, own, SendWr}
use soft_ui_warp.Perftest.{PerftestContext}

-- `struct send_data`: what the other machine says of its buffer.
pub record SendData : Type 0 where
  pub offset : ℕ
  pub stag : ℕ
  pub size : ℕ

-- The requests of the benchmarks, on the buffer at `buf` with tag `lstag`.
unfoldable pub bench_wr : RdmaOpcode → PerftestContext → ℕ → ℕ → SendData → SendWr
bench_wr op c buf lstag sd = record {
  wr_id = 2;
  sg_list = own (record { addr = buf; len = to_u32 c.buf_size; lkey = lstag } ∷ []);
  opcode = op;
  invalidate_rkey = 0;
  remote_addr = sd.offset;
  rkey = sd.stag % 2 ^ 32;
}

-- `write_wr_end`: the four bytes of `byte_end`, at `at`.
unfoldable pub write_wr_end : ℕ → SendData → SendWr
write_wr_end at sd = record {
  wr_id = 0xffffffff;
  sg_list = own (record { addr = at; len = 4; lkey = 0 } ∷ []);
  opcode = rdma_write;
  invalidate_rkey = 0;
  remote_addr = sd.offset;
  rkey = sd.stag % 2 ^ 32;
}

-- The loop that fills the buffer at `buf` with incrementing values, of which `left` are left.
unfoldable pub fill_from : ℕ → ℕ → ℕ → Memory → Memory
fill_from buf i zero mem = mem
fill_from buf i (suc left) mem = fill_from buf (i + 1) left (update mem (buf + i) (i % 256))

unfoldable pub fill : PerftestContext → ℕ → Memory → Memory
unfolding fill_from
fill c buf mem = fill_from buf 0 (pos_part c.buf_size) mem

unfoldable pub clear : PerftestContext → ℕ → Memory → Memory
clear c buf mem = poke mem buf (replicate (pos_part c.buf_size) 0)

-- The requests and the memory after each `init`, which gives 0.
unfoldable pub write_bw_init :
    PerftestContext → ℕ → ℕ → ℕ → SendData → Memory → SendWr × SendWr × Memory
unfolding bench_wr write_wr_end fill clear
write_bw_init c buf at lstag sd mem = (
  bench_wr rdma_write c buf lstag sd,
  write_wr_end at sd,
  if c.is_client then fill c buf mem else clear c buf mem,
)

unfoldable pub write_lat_init : PerftestContext → ℕ → ℕ → SendData → Memory → SendWr × Memory
unfolding bench_wr fill clear
write_lat_init c buf lstag sd mem = (
  bench_wr rdma_write c buf lstag sd,
  if not c.is_client then fill c buf mem else clear c buf mem,
)

-- `read_bw_init` and `read_lat_init` are the same.
unfoldable pub read_init : PerftestContext → ℕ → ℕ → SendData → Memory → SendWr × Memory
unfolding bench_wr fill
read_init c buf lstag sd mem =
    (bench_wr rdma_read_req c buf lstag sd, if c.is_client then fill c buf mem else mem)

fill_from-before :
    (buf i left j : ℕ) (mem : Memory) → j < i → fill_from buf i left mem (buf + j) ≡ mem (buf + j)
unfolding fill_from
fill_from-before buf i zero j mem h = refl
fill_from-before buf i (suc left) j mem h =
    fill_from-before buf (i + 1) left j (update mem (buf + i) (i % 256)) (omega arith)
    ∙ ground (arith, h)

fill_from-byte :
    (buf i left j : ℕ) (mem : Memory)
    → i ≤ j
    → j < i + left
    → fill_from buf i left mem (buf + j) ≡ j % 256
unfolding fill_from
fill_from-byte buf i zero j mem h g = absurd (omega arith)
fill_from-byte buf i (suc left) j mem h g = elim (Bool-cases (i == j)) [
  | inl t ↦
      (let e : i ≡ j = (==_iff i j).0 t in
        fill_from-before buf (i + 1) left j (update mem (buf + i) (i % 256)) (omega (arith, e))
        ∙ ground (arith, e))
  | inr f ↦
      (let ne : i ≢ j = (λ e. ground (arith, f, e)) in
        fill_from-byte buf (i + 1) left j (update mem (buf + i) (i % 256)) (ground (arith, ne, h))
          (omega arith))
]

-- Each byte of a filled buffer holds its index, modulo 256.
pub fill-byte :
    (c : PerftestContext) (buf j : ℕ) (mem : Memory)
    → j < pos_part c.buf_size
    → fill c buf mem (buf + j) ≡ j % 256
unfolding fill
fill-byte c buf j mem h =
    fill_from-byte buf 0 (pos_part c.buf_size) j mem (omega arith) (omega (arith, h))
