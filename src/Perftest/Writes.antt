-- ===== src/Perftest/Writes.antt =====
-- Writes under way between a benchmark that polls (perftest/write_bw.cpp) and the stream's send loop
-- (suiw/rdmap/rdmap.cpp).
use soft_ui_warp.Prelude.{
  ℕ, suc, ◌+◌, ◌<◌, ◌≡◌, refl, sym, ap, subst, ◌∙◌, some, List, [], ◌∷◌, ◌++◌, arith, pos, length,
  length-append,
}
use soft_ui_warp.Memory.{update}
use soft_ui_warp.Queue.{ConcurrentQueue, IsFifo}
use soft_ui_warp.Tcp.{Tcp, IsOpen}
use soft_ui_warp.Ddp.Transfer.{ddp_send_tagged_emits}
use soft_ui_warp.WorkQueue.{WorkCompletion, SendWr, send_wr_to_wce}
use soft_ui_warp.Rdmap.{Stream, complete}
use soft_ui_warp.Rdmap.SendLoop.{
  tagged_meta, completion, finish, do_write, send_request, send_round,
}
use soft_ui_warp.Rdmap.Handlers.{completions, complete_lem}
use soft_ui_warp.Perftest.Iterations.{Machine, await_wc}
use soft_ui_warp.Perftest.Completed.{
  send_loop, IsWrite, AllWrites, IsWritten, AllWritten, AllWritten-append,
}

module _ (cq : ConcurrentQueue) {tcp : Tcp} (fifo : IsFifo cq) (net : IsOpen tcp) where
  -- The writes that are posted and the completions that are to be polled, together `n`.
  pub record IsBusy (n : ℕ) (m : Machine cq tcp) : Type 0 where
    pub wrs : List SendWr
    pub wcs : List WorkCompletion
    pub on_queue : fifo.items SendWr m.stream.send_q ≡ wrs
    pub to_poll : completions cq fifo m.stream m.stream.send_cq ≡ wcs
    pub all_writes : AllWrites wrs
    pub all_written : AllWritten wcs
    pub together : length wrs + length wcs ≡ n

  -- The machine after a write that the send loop has taken and done.
  abbrev written : Machine cq tcp → SendWr → tcp.State → Machine cq tcp
  written m wr s =
      let st : Stream cq tcp = record (m.stream) {
        send_q = fifo.rest SendWr m.stream.send_q;
        sock = s;
      } in
      let out = finish cq wr (pos 0) st m.send_locals in
      record { stream = out.0; send_locals = out.1 }

  send_loop-written :
      (m : Machine cq tcp) (wr : SendWr) (rest : List SendWr)
      → fifo.items SendWr m.stream.send_q ≡ wr ∷ rest
      → IsWrite wr
      → (s : tcp.State) × (send_loop cq m ≡ written m wr s)
  unfolding send_loop send_round send_request do_write finish
  send_loop-written m wr rest first w =
      let st = m.stream in
      let (took, left) = fifo.try_dequeue_head SendWr st.send_q wr rest first in
      let (s', run, went) =
        ddp_send_tagged_emits net st.mem st.sock w.sgs (tagged_meta wr) w.some_bytes in
      (s', ground (arith, took, w.is_write, w.is_own, run))

  -- The send loop turns a posted write into a completion.
  pub send_loop-IsBusy :
      (n : ℕ) (m : Machine cq tcp) (h : IsBusy n m) (wr : SendWr) (rest : List SendWr)
      → h.wrs ≡ wr ∷ rest
      → (k : IsBusy n (send_loop cq m)) × (0 < length k.wcs)
  send_loop-IsBusy n m h wr rest first =
      let all : AllWrites (wr ∷ rest) = subst AllWrites first h.all_writes in
      let on_queue = h.on_queue ∙ first in
      let (s, ran) = send_loop-written m wr rest on_queue all.0 in
      let (took, left) = fifo.try_dequeue_head SendWr m.stream.send_q wr rest on_queue in
      let st : Stream cq tcp = record (m.stream) {
        send_q = fifo.rest SendWr m.stream.send_q;
        sock = s;
      } in
      let w = completion wr (pos 0) m.send_locals.wce in
      let (now, later, others) = complete_lem cq fifo st st.send_cq w in
      let good : IsWritten w =
        unfold completion send_wr_to_wce in (refl, ground (arith, all.0.is_write)) in
      let count = length-append h.wcs (w ∷ []) in
      let busy : IsBusy n (written m wr s) = record {
        wrs = rest;
        wcs = h.wcs ++ w ∷ [];
        on_queue = unfold finish complete in left;
        to_poll = unfold finish in now ∙ ap (λ c. c ++ w ∷ []) h.to_poll;
        all_writes = all.1;
        all_written = AllWritten-append h.wcs (w ∷ []) h.all_written (good, tt);
        together = omega (arith, h.together, count, ap length first);
      } in
      subst (λ x. (k : IsBusy n x) × (0 < length k.wcs)) (sym ran) (busy, omega (arith, count))

  -- With a completion to be polled, the first poll takes it.
  await_first :
      (fuel n : ℕ) (m : Machine cq tcp) (h : IsBusy (suc n) m)
      → 0 < length h.wcs
      → (w : WorkCompletion) × (m' : Machine cq tcp) × (await_wc cq (send_loop cq) (suc fuel) m
          ≡ some (w, m'))
        × IsWritten w
        × IsBusy n m'
  unfolding await_wc
  await_first fuel n m h some_wc = go h.wcs refl
    where
      go :
          (ws : List WorkCompletion)
          → h.wcs ≡ ws
          → (w : WorkCompletion) × (m' : Machine cq tcp) × (await_wc cq (send_loop cq) (suc fuel) m
              ≡ some (w, m'))
            × IsWritten w
            × IsBusy n m'
      go [] e = absurd (omega (arith, some_wc, ap length e))
      go (w ∷ ws) e =
          let q = (m.stream.cqs m.stream.send_cq).q in
          let (took, left) = fifo.try_dequeue_head WorkCompletion q w ws (h.to_poll ∙ e) in
          let all : AllWritten (w ∷ ws) = subst AllWritten e h.all_written in
          let c = m.stream.cqs m.stream.send_cq in
          let m' : Machine cq tcp = record m {
            stream = record (m.stream) {
              cqs =
                  update m.stream.cqs m.stream.send_cq
                    (record c { q = fifo.rest WorkCompletion q });
            };
          } in
          (
            w,
            m',
            ground (arith, took),
            all.0,
            record {
              wrs = h.wrs;
              wcs = ws;
              on_queue = h.on_queue;
              to_poll = ground (arith, left);
              all_writes = h.all_writes;
              all_written = all.1;
              together = omega (arith, h.together, ap length e);
            },
          )

  -- A poll on an empty completion queue leaves what is posted, and the send loop goes on.
  await_again :
      (fuel n : ℕ) (m : Machine cq tcp) (h : IsBusy (suc n) m)
      → h.wcs ≡ []
      → (m' : Machine cq tcp) × (await_wc cq (send_loop cq) (suc fuel) m
          ≡ await_wc cq (send_loop cq) fuel m')
        × (k : IsBusy (suc n) m') × (0 < length k.wcs)
  unfolding await_wc
  await_again fuel n m h none_left = go h.wrs refl
    where
      go :
          (xs : List SendWr)
          → h.wrs ≡ xs
          → (m' : Machine cq tcp) × (await_wc cq (send_loop cq) (suc fuel) m
              ≡ await_wc cq (send_loop cq) fuel m')
            × (k : IsBusy (suc n) m') × (0 < length k.wcs)
      go [] e = absurd (omega (arith, h.together, ap length e, ap length none_left))
      go (wr ∷ rest) e =
          let c = m.stream.cqs m.stream.send_cq in
          let took = fifo.try_dequeue_empty WorkCompletion c.q (h.to_poll ∙ none_left) in
          let m₁ : Machine cq tcp = record m {
            stream = record (m.stream) {
              cqs = update m.stream.cqs m.stream.send_cq (record c { q = c.q });
            };
          } in
          let h₁ : IsBusy (suc n) m₁ = record {
            wrs = h.wrs;
            wcs = h.wcs;
            on_queue = h.on_queue;
            to_poll = ground (arith, h.to_poll);
            all_writes = h.all_writes;
            all_written = h.all_written;
            together = h.together;
          } in
          let (k, some_wc) = send_loop-IsBusy (suc n) m₁ h₁ wr rest e in
          (send_loop cq m₁, ground (arith, took), k, some_wc)

  -- With `n + 1` writes under way, two polls are enough for a completion, of a write done.
  pub await_wc-IsBusy :
      (fuel n : ℕ) (m : Machine cq tcp)
      → IsBusy (suc n) m
      → (w : WorkCompletion) × (m' : Machine cq tcp) × (await_wc cq
            (send_loop cq)
            (suc (suc fuel))
            m
          ≡ some (w, m'))
        × IsWritten w
        × IsBusy n m'
  await_wc-IsBusy fuel n m h = go h.wcs refl
    where
      go :
          (ws : List WorkCompletion)
          → h.wcs ≡ ws
          → (w : WorkCompletion) × (m' : Machine cq tcp) × (await_wc cq
                (send_loop cq)
                (suc (suc fuel))
                m
              ≡ some (w, m'))
            × IsWritten w
            × IsBusy n m'
      go [] e =
          let (m₁, ran, k, some_wc) = await_again (suc fuel) n m h e in
          let (w, m', ran', good, busy) = await_first fuel n m₁ k some_wc in
          (w, m', ran ∙ ran', good, busy)
      go (w ∷ ws) e = await_first (suc fuel) n m h (omega (arith, ap length e))
