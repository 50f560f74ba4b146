-- ===== src/PriorityQueue/Order.antt =====
-- The order in which `PriorityTaskQueue.get` hands tasks out.
use mathlib.Core.List.Perm
use fish_async_task.Prelude.{
  ℕ, zero, suc, ◌≡◌, ◌≢◌, refl, ap, ◌∙◌, sym, Bool, true, false, not, ◌&&◌, Option, none, some,
  List, [], ◌∷◌, Perm, arith, ◌⊎◌, inl, inr, if◌then◌else◌, length, all, length-perm, Bool-cases,
  all-perm,
}
use fish_async_task.Prelude.Heapq.{Heapq, IsOrdered}
use fish_async_task.Prelude.StringSet
use fish_async_task.PriorityQueue.{
  PrioritizedTask, before, PriorityTaskQueue, Outcome, done, full_error, empty_error, take_front,
  dequeue, is_empty, get,
}

-- The queue that `get` finds behind its wait, if it waits.
abbrev pub found :
    {W : Type 0}
    → (PriorityTaskQueue W → PriorityTaskQueue W)
    → PriorityTaskQueue W
    → Bool
    → PriorityTaskQueue W
found wake q block = if is_empty q.queue && block then wake q else q

module _ {W : Type 0} (hq : Heapq (before {W = W})) where
  open hq use {IsHeap, heappop, heappop-nil, heappop-cons, head_least}

  -- What is left after `t` was handed out of `q`.
  pub record Dequeued (q : PriorityTaskQueue W) (t : PrioritizedTask W) (q' : PriorityTaskQueue W)
      : Type 0 where
    pub kept : Perm q.queue (t ∷ q'.queue)
    pub least : all (λ u. not (before u t)) q'.queue ≡ true
    pub heap : IsHeap q'.queue
    pub ids : q'.task_ids ≡ StringSet.discard t.task_id q.task_ids
    pub same_maxsize : q'.maxsize ≡ q.maxsize

  -- The result of `heappop` on a heap.
  abbrev Popped :
      List (PrioritizedTask W) → Option (PrioritizedTask W × List (PrioritizedTask W)) → Type 0
  Popped h none = h ≡ []
  Popped h (some (t, r)) = Perm h (t ∷ r) × (all (λ u. not (before u t)) r ≡ true) × IsHeap r

  heappop-Popped : (h : List (PrioritizedTask W)) → IsHeap h → Popped h (heappop h)
  heappop-Popped [] i = rw heappop-nil refl
  heappop-Popped (a ∷ h) i =
      let (r, e, p, j) = heappop-cons a h i in
      rw e (Perm.cons a p, sym (all-perm (λ u. not (before u a)) h r p) ∙ head_least a h i, j)

  take_front-Dequeued :
      (q : PriorityTaskQueue W) (o : Option (PrioritizedTask W × List (PrioritizedTask W)))
      (t : PrioritizedTask W) (q' : PriorityTaskQueue W)
      → Popped q.queue o
      → take_front hq q o ≡ (done t, q')
      → Dequeued q t q'
  unfolding take_front
  take_front-Dequeued q none t q' p e = cc
  take_front-Dequeued q (some (u, r)) t q' p e = ground arith

  dequeue-Dequeued :
      (q : PriorityTaskQueue W) (t : PrioritizedTask W) (q' : PriorityTaskQueue W)
      → IsHeap q.queue
      → dequeue hq q ≡ (done t, q')
      → Dequeued q t q'
  unfolding dequeue
  dequeue-Dequeued q t q' i e =
      take_front-Dequeued q (heappop q.queue) t q' (heappop-Popped q.queue i) e

  get-eq_found :
      (wake : PriorityTaskQueue W → PriorityTaskQueue W) (q : PriorityTaskQueue W) (block : Bool)
      → get hq wake q block ≡ (
          if is_empty (found wake q block).queue
          then (empty_error, found wake q block)
          else dequeue hq (found wake q block))
  unfolding get
  get-eq_found wake q block = ground arith

  -- A task that `get` returns is taken from the queue that it finds once it need wait no longer:
  -- that queue holds the task and what is left, nothing left comes before the task, the rest is a
  -- heap again, and the task's id alone is discarded from the set of ids.
  pub get-Dequeued :
      (wake : PriorityTaskQueue W → PriorityTaskQueue W) (q : PriorityTaskQueue W) (block : Bool)
      (t : PrioritizedTask W) (q' : PriorityTaskQueue W)
      → IsHeap (found wake q block).queue
      → get hq wake q block ≡ (done t, q')
      → Dequeued (found wake q block) t q'
  get-Dequeued wake q block t q' i e =
      let s = found wake q block in
      elim (Bool-cases (is_empty s.queue)) [
        | inl none_there ↦ absurd (ground (arith, get-eq_found wake q block))
        | inr some_there ↦ dequeue-Dequeued s t q' i (ground (arith, get-eq_found wake q block))
      ]

  dequeue_succeeds :
      (q : PriorityTaskQueue W)
      → IsHeap q.queue
      → is_empty q.queue ≡ false
      → (t : PrioritizedTask W) × ((dequeue hq q).0 ≡ done t)
  unfolding dequeue take_front
  dequeue_succeeds q i e = go (heappop q.queue) (heappop-Popped q.queue i)
    where
      go :
          (o : Option (PrioritizedTask W × List (PrioritizedTask W)))
          → Popped q.queue o
          → (t : PrioritizedTask W) × ((take_front hq q o).0 ≡ done t)
      go none p = absurd (ground arith)
      go (some (t, r)) p = (t, refl)

  -- `get` on a heap raises `queue.Empty` exactly when the queue that it finds is empty, and else
  -- returns a task.
  pub get_total :
      (wake : PriorityTaskQueue W → PriorityTaskQueue W) (q : PriorityTaskQueue W) (block : Bool)
      → IsHeap (found wake q block).queue
      → ((is_empty (found wake q block).queue ≡ true) × ((get hq wake q block).0 ≡ empty_error))
        ⊎ ((is_empty (found wake q block).queue ≡ false)
            × ((t : PrioritizedTask W) × ((get hq wake q block).0 ≡ done t)))
  get_total wake q block i =
      let s = found wake q block in
      elim (Bool-cases (is_empty s.queue)) [
        | inl none_there ↦ inl (none_there, ground (arith, get-eq_found wake q block))
        | inr some_there ↦
            let (t, e) = dequeue_succeeds s i some_there in
            inr (some_there, (t, ground (arith, get-eq_found wake q block)))
      ]

  then_drain :
      (PriorityTaskQueue W → List (PrioritizedTask W))
      → Outcome (PrioritizedTask W) × PriorityTaskQueue W
      → List (PrioritizedTask W)
  then_drain rest (done t, q) = t ∷ rest q
  then_drain rest (full_error, q) = []
  then_drain rest (empty_error, q) = []

  -- What up to so many calls of `get(block=False)` return, until one raises.
  pub drain : ℕ → PriorityTaskQueue W → List (PrioritizedTask W)
  unfolding then_drain
  drain zero q = []
  drain (suc n) q = then_drain (drain n) (get hq (λ s. s) q false)

  abbrev Drains : PriorityTaskQueue W → List (PrioritizedTask W) → Type 0
  Drains q ts = Perm ts q.queue × IsOrdered (before {W = W}) ts

  Drains-empty : (q : PriorityTaskQueue W) → length q.queue ≡ 0 → Drains q []
  Drains-empty q e = go q.queue e
    where
      go : (h : List (PrioritizedTask W)) → length h ≡ 0 → Perm [] h × IsOrdered (before {W = W}) []
      go [] z = (Perm.rfl, tt)
      go (a ∷ h) z = absurd (omega arith)

  Drains-next :
      (q : PriorityTaskQueue W) (t : PrioritizedTask W) (q' : PriorityTaskQueue W)
      (ts : List (PrioritizedTask W))
      → Dequeued q t q'
      → Drains q' ts
      → Drains q (t ∷ ts)
  Drains-next q t q' ts d s = (
    Perm.trans (Perm.cons t s.0) (Perm.symm d.kept),
    (all-perm (λ u. not (before u t)) ts q'.queue s.0 ∙ d.least, s.1),
  )

  get_nonempty :
      (q : PriorityTaskQueue W)
      → IsHeap q.queue
      → is_empty q.queue ≡ false
      → (t : PrioritizedTask W) × (q' : PriorityTaskQueue W) × (get hq (λ s. s) q false
          ≡ (done t, q'))
        × Dequeued q t q'
  unfolding get
  get_nonempty q i some_there = go (dequeue hq q) refl
    where
      stuck :
          (o : Outcome (PrioritizedTask W))
          → (dequeue hq q).0 ≡ o
          → o ≢ full_error × o ≢ empty_error
      stuck o e = let (t, f) = dequeue_succeeds q i some_there in (ground arith, ground arith)

      go :
          (r : Outcome (PrioritizedTask W) × PriorityTaskQueue W)
          → dequeue hq q ≡ r
          → (t : PrioritizedTask W) × (q' : PriorityTaskQueue W) × (get hq (λ s. s) q false
              ≡ (done t, q'))
            × Dequeued q t q'
      go (done t, q') g = (t, q', rw some_there g, dequeue-Dequeued q t q' i g)
      go (full_error, q') g = absurd ((stuck full_error (ap (λ r. r.0) g)).0 refl)
      go (empty_error, q') g = absurd ((stuck empty_error (ap (λ r. r.0) g)).1 refl)

  drain_step :
      (n : ℕ) (q : PriorityTaskQueue W)
      → IsHeap q.queue
      → length q.queue ≡ suc n
      → ((q' : PriorityTaskQueue W)
          → IsHeap q'.queue
          → length q'.queue ≡ n
          → Drains q' (drain n q'))
      → Drains q (drain (suc n) q)
  unfolding drain
  drain_step n q i e ih =
      let (t, q', g, d) = get_nonempty q i (ground arith) in
      let smaller : length q'.queue ≡ n =
        omega (arith, length-perm q.queue (t ∷ q'.queue) d.kept) in
      rw (g, drain) (Drains-next q t q' (drain n q') d (ih q' d.heap smaller))

  -- Emptying a heap one `get` after another returns every task of the queue, each as often as it
  -- was there, and none behind a task with a greater `priority`.
  pub drain_sorts :
      (n : ℕ) (q : PriorityTaskQueue W)
      → IsHeap q.queue
      → length q.queue ≡ n
      → Perm (drain n q) q.queue × IsOrdered (before {W = W}) (drain n q)
  drain_sorts zero q i e = unfold drain in Drains-empty q e
  drain_sorts (suc n) q i e = drain_step n q i e (λ q' i' e'. drain_sorts n q' i' e')
