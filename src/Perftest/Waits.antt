-- ===== src/Perftest/Waits.antt =====
-- The two waits of the exchange of addresses (perftest/perftest.cpp), on a stream whose loops go on in
-- any order (suiw/rdmap/rdmap.cpp).
use soft_ui_warp.Prelude.{
  ℕ, zero, suc, ◌<◌, ◌≡◌, refl, sym, ap, ◌∙◌, inl, inr, Bool, Option, none, some, List, [], ◌∷◌,
  arith, length, List-cases,
}
use soft_ui_warp.Queue.{ConcurrentQueue, IsFifo}
use soft_ui_warp.Tcp.{Tcp}
use soft_ui_warp.WorkQueue.{WorkCompletion}
use soft_ui_warp.Rdmap.{Stream}
use soft_ui_warp.Rdmap.Handlers.{completions}
use soft_ui_warp.Rdmap.Threads.{
  Process, take_one, take_one-empty, and_polled, Reach, here, later, takes,
}
use soft_ui_warp.Perftest.Exchange.{await_one}

-- What others do is steps of the loops, the network and the program's stores: they post and poll
-- nothing of their own.
pub record IsBystander (cq : ConcurrentQueue) {tcp : Tcp} (asserts : Bool) (fuel segs : ℕ)
    (others : Process cq tcp → Process cq tcp) : Type 0 where
  pub goes : (p : Process cq tcp) → Reach cq asserts fuel segs p (others p)
  pub same_asked : (p : Process cq tcp) → (others p).asked ≡ p.asked
  pub same_awaited : (p : Process cq tcp) → (others p).awaited ≡ p.awaited
  pub same_polled : (p : Process cq tcp) → (others p).polled ≡ p.polled

pub Reach-trans :
    {cq : ConcurrentQueue} {tcp : Tcp} {asserts : Bool} {fuel segs : ℕ} {p q r : Process cq tcp}
    → Reach cq asserts fuel segs p q
    → Reach cq asserts fuel segs q r
    → Reach cq asserts fuel segs p r
Reach-trans a here = a
Reach-trans a (later b s) = later (Reach-trans a b) s

-- The process when others have been n times at work.
unfoldable pub after :
    {cq : ConcurrentQueue} {tcp : Tcp}
    → (Process cq tcp → Process cq tcp)
    → ℕ
    → Process cq tcp
    → Process cq tcp
after others zero p = p
after others (suc n) p = after others n (others p)

module _ (cq : ConcurrentQueue) {tcp : Tcp} (fifo : IsFifo cq) (asserts : Bool) (fuel segs : ℕ)
    (others sync : Process cq tcp → Process cq tcp)
    (bystander : IsBystander cq asserts fuel segs others) where
  open bystander use {goes, same_asked, same_awaited, same_polled}

  -- A completion is there when others have been k times at work.
  abbrev pub Comes : ℕ → Process cq tcp → Type 0
  Comes k p = let q = after others k p in 0 < length (completions cq fifo q.stream q.stream.send_cq)

  -- The wait that has ended: a completion has been polled, and nothing else was done but by others.
  abbrev Waited : ℕ → Process cq tcp → Type 0
  Waited tries p =
      (w : WorkCompletion) × (q : Process cq tcp) × (await_one cq others sync tries p ≡ some (w, q))
      × Reach cq asserts fuel segs p q
      × (q.polled ≡ w ∷ p.polled)
      × (q.asked ≡ p.asked)
      × (q.awaited ≡ p.awaited)

  -- A poll of the wait, by what it finds.
  abbrev polled_on :
      ℕ
      → Process cq tcp
      → Option WorkCompletion × Stream cq tcp
      → Option (WorkCompletion × Process cq tcp)
  polled_on tries p r =
      let p' : Process cq tcp = record p { stream = r.1; polled = and_polled r.0 p.polled } in
      elim r.0 [ some wc ↦ some (wc, p') | none ↦ await_one cq others sync tries (others p') ]

  poll_lem :
      (tries : ℕ) (p : Process cq tcp) (r : Option WorkCompletion × Stream cq tcp)
      → take_one cq p.stream p.stream.send_cq ≡ r
      → await_one cq others sync (suc tries) p ≡ polled_on tries p r
  unfolding await_one
  poll_lem tries p r e = ap (polled_on tries p) e

  found_now :
      (tries : ℕ) (p : Process cq tcp) (w : WorkCompletion) (ws : List WorkCompletion)
      → completions cq fifo p.stream p.stream.send_cq ≡ w ∷ ws
      → Waited (suc tries) p
  found_now tries p w ws e =
      let q : Process cq tcp = record p {
        stream = (take_one cq p.stream p.stream.send_cq).1;
        polled = and_polled (take_one cq p.stream p.stream.send_cq).0 p.polled;
      } in
      let (taken, left) =
        fifo.try_dequeue_head WorkCompletion (p.stream.cqs p.stream.send_cq).q w ws e in
      let found : (take_one cq p.stream p.stream.send_cq).0 ≡ some w =
        unfold take_one in ap (λ r. r.0) taken in
      let polled : and_polled (take_one cq p.stream p.stream.send_cq).0 p.polled ≡ w ∷ p.polled =
        ap (λ f. and_polled f p.polled) found in
      let with_polled : List WorkCompletion → Process cq tcp =
        λ all. record p { stream = q.stream; polled = all } in
      (
        w,
        q,
        poll_lem tries p (some w, q.stream) (ap (λ f. (f, q.stream)) found)
            ∙ ap (λ all. some (w, with_polled all)) (sym polled),
        later here takes,
        polled,
        refl,
        refl,
      )

  not_yet :
      (tries : ℕ) (p : Process cq tcp)
      → completions cq fifo p.stream p.stream.send_cq ≡ []
      → await_one cq others sync (suc tries) p ≡ await_one cq others sync tries (others p)
  not_yet tries p e =
      poll_lem tries p (none, p.stream) (take_one-empty cq fifo p.stream p.stream.send_cq e)

  -- Where a completion comes, the wait ends.
  pub await_one_waits : (k tries : ℕ) (p : Process cq tcp) → k < tries → Comes k p → Waited tries p
  unfolding after
  await_one_waits k zero p h c = absurd (omega arith)
  await_one_waits zero (suc tries) p h c =
      elim (List-cases (completions cq fifo p.stream p.stream.send_cq)) [
        | inl none_there ↦ absurd (omega (arith, c, ap length none_there))
        | inr (w, ws, e) ↦ found_now tries p w ws e
      ]
  await_one_waits (suc k) (suc tries) p h c =
      elim (List-cases (completions cq fifo p.stream p.stream.send_cq)) [
        | inl none_there ↦
            (let (w, q, ended, goes_on, polled, asked, awaited) =
                await_one_waits k tries (others p) (omega arith) c in
              (
                w,
                q,
                not_yet tries p none_there ∙ ended,
                Reach-trans (goes p) goes_on,
                polled ∙ ap (◌∷◌ w) (same_polled p),
                asked ∙ same_asked p,
                awaited ∙ same_awaited p,
              ))
        | inr (w, ws, e) ↦ found_now tries p w ws e
      ]
