-- ===== src/Queue.antt =====
-- `moodycamel::ConcurrentQueue` (common/concurrentqueue.h), another project's library, as a
-- parameter: the calls that the code makes, and, in `IsFifo`, what its documentation says of a queue
-- on which no allocation fails and whose elements come from one producer.
use soft_ui_warp.Prelude.{ℕ, ◌≡◌, Bool, true, Option, none, some, List, [], ◌∷◌, ◌++◌, take, drop}

pub record ConcurrentQueue : Type 1 where
  pub Q : Type 0 → Type 0
  pub new : (A : Type 0) → ℕ → Q A
  pub enqueue : (A : Type 0) → Q A → A → Bool × Q A
  pub enqueue_bulk : (A : Type 0) → Q A → List A → Bool × Q A
  pub try_dequeue : (A : Type 0) → Q A → Option A × Q A
  pub try_dequeue_bulk : (A : Type 0) → Q A → ℕ → List A × Q A

pub record IsFifo (cq : ConcurrentQueue) : Type 1 where
  pub items : (A : Type 0) → cq.Q A → List A
  pub items-new : (A : Type 0) (n : ℕ) → items A (cq.new A n) ≡ []
  pub enqueued : (A : Type 0) (q : cq.Q A) (a : A) → (cq.enqueue A q a).0 ≡ true
  pub items-enqueue :
      (A : Type 0) (q : cq.Q A) (a : A) → items A (cq.enqueue A q a).1 ≡ items A q ++ a ∷ []
  pub items-enqueue_bulk :
      (A : Type 0) (q : cq.Q A) (as_ : List A)
      → items A (cq.enqueue_bulk A q as_).1 ≡ items A q ++ as_
  pub try_dequeue_empty :
      (A : Type 0) (q : cq.Q A) → items A q ≡ [] → cq.try_dequeue A q ≡ (none, q)
  pub rest : (A : Type 0) → cq.Q A → cq.Q A
  pub try_dequeue_head :
      (A : Type 0) (q : cq.Q A) (a : A) (l : List A)
      → items A q ≡ a ∷ l
      → (cq.try_dequeue A q ≡ (some a, rest A q)) × (items A (rest A q) ≡ l)
  pub try_dequeue_bulk_first :
      (A : Type 0) (q : cq.Q A) (n : ℕ)
      → ((cq.try_dequeue_bulk A q n).0 ≡ take n (items A q))
        × (items A (cq.try_dequeue_bulk A q n).1 ≡ drop n (items A q))
