-- ===== src/Workers/Signals.antt =====
-- The signals to stop.
use fish_async_task.Prelude.{
  ℕ, zero, suc, ◌≤◌, ◌≡◌, refl, ◌∙◌, sym, ap, true, false, Option, none, List, [], ◌∷◌, ◌++◌, arith,
  length, length-append, replicate, Bool-cases, ◌⊎◌, inl, inr, leb,
}
use mathlib.Core.List.{append-nil, append_assoc}
use fish_async_task.Workers.{WorkerManager, full, put_signal, send_signals, send_shutdown_signals}

-- The queue `q'` is what is left of `q` when some elements were taken from its front.
pub record IsTakenFrom {T : Type 0} (q q' : List (Option T)) : Type 0 where
  pub taken : List (Option T)
  pub same : taken ++ q' ≡ q

-- The other threads only take from the front of the queue.
abbrev pub OnlyTakes : {T : Type 0} → (ℕ → WorkerManager T → WorkerManager T) → Type 0
OnlyTakes {T} others =
    (n : ℕ) (m : WorkerManager T) → IsTakenFrom m.task_queue (others n m).task_queue

-- Behind what is left of the queue stand the signals.
pub record Sent {T : Type 0} (maxsize : ℕ) (q : List (Option T)) (most : ℕ) (q' : List (Option T))
    : Type 0 where
  pub count : ℕ
  pub taken : List (Option T)
  pub queue : taken ++ q' ≡ q ++ replicate count none
  pub at_most : count ≤ most
  pub all_or_full : (count ≡ most) ⊎ (leb maxsize (length q') ≡ true)
  pub within : length q ≤ maxsize → length q' ≤ maxsize

module _ {T : Type 0} where
  taken_once_more :
      (q q' r : List (Option T)) → IsTakenFrom q q' → IsTakenFrom q' r → IsTakenFrom q r
  taken_once_more q q' r a b = record {
    taken = a.taken ++ b.taken;
    same = append_assoc a.taken b.taken r ∙ ap (λ w. a.taken ++ w) b.same ∙ a.same;
  }

  taken-shorter : (q q' : List (Option T)) → IsTakenFrom q q' → length q' ≤ length q
  taken-shorter q q' t = omega (arith, length-append t.taken q', ap length t.same)

  -- The loop ends, since every signal is sent or since the queue stays full.
  over-Sent :
      (maxsize most : ℕ) (q q' : List (Option T))
      → IsTakenFrom q q'
      → (0 ≡ most) ⊎ (leb maxsize (length q') ≡ true)
      → Sent maxsize q most q'
  over-Sent maxsize most q q' t why = record {
    count = 0;
    taken = t.taken;
    queue = t.same ∙ sym (append-nil q);
    at_most = omega arith;
    all_or_full = why;
    within = λ h. omega (arith, taken-shorter q q' t);
  }

  one_more :
      (maxsize n left : ℕ) (q' : List (Option T))
      → (n ≡ left) ⊎ (leb maxsize (length q') ≡ true)
      → (suc n ≡ suc left) ⊎ (leb maxsize (length q') ≡ true)
  one_more maxsize n left q' (inl e) = inl (ap suc e)
  one_more maxsize n left q' (inr e) = inr e

  -- A signal is put behind what is left of the queue, where there is room.
  put-Sent :
      (maxsize left : ℕ) (q w q' : List (Option T))
      → IsTakenFrom q w
      → leb maxsize (length w) ≡ false
      → Sent maxsize (w ++ (none ∷ [])) left q'
      → Sent maxsize q (suc left) q'
  put-Sent maxsize left q w q' t room r = record {
    count = suc r.count;
    taken = t.taken ++ r.taken;
    queue =
        append_assoc t.taken r.taken q'
        ∙ ap (λ x. t.taken ++ x) (r.queue ∙ append_assoc w (none ∷ []) (replicate r.count none))
        ∙ sym (append_assoc t.taken w (none ∷ replicate r.count none))
        ∙ ap (λ x. x ++ (none ∷ replicate r.count none)) t.same;
    at_most = omega (arith, r.at_most);
    all_or_full = one_more maxsize r.count left q' r.all_or_full;
    within = λ h. r.within (ground (arith, length-append w (none ∷ [])));
  }

  module _ (maxsize : ℕ) (before waiting : ℕ → WorkerManager T → WorkerManager T) where
    send_signals-Sent :
        (left sent : ℕ) (m : WorkerManager T)
        → OnlyTakes before
        → OnlyTakes waiting
        → Sent maxsize m.task_queue left
            (send_signals maxsize before waiting left sent m).task_queue
    unfolding send_signals
    send_signals-Sent zero sent m b w =
        over-Sent maxsize 0 m.task_queue m.task_queue (record { taken = []; same = refl })
          (inl refl)
    send_signals-Sent (suc left) sent m b w =
        let at_once = before sent m in
        let late = waiting sent at_once in
        let a = b sent m in
        let l =
          taken_once_more m.task_queue at_once.task_queue late.task_queue a (w sent at_once) in
        elim (Bool-cases (full maxsize at_once)) [
          | inr room ↦ rw room (
              put-Sent maxsize left m.task_queue at_once.task_queue
                (send_signals maxsize before waiting left (suc sent)
                  (put_signal at_once)).task_queue
                a room (send_signals-Sent left (suc sent) (put_signal at_once) b w))
          | inl no_room ↦ elim (Bool-cases (full maxsize late)) [
            | inr room ↦
                rw (no_room, room)
                  (put-Sent maxsize left m.task_queue late.task_queue
                    (send_signals maxsize before waiting left (suc sent)
                      (put_signal late)).task_queue
                    l room (send_signals-Sent left (suc sent) (put_signal late) b w))
            | inl still ↦
                rw (no_room, still)
                  (over-Sent maxsize (suc left) m.task_queue late.task_queue l (inr still))
          ]
        ]

    -- While `send_shutdown_signals` runs, let the other threads only take from the front of the
    -- queue. Then the queue it leaves is what they left of the old one, with the signals behind all
    -- tasks: at most one for each thread that was listed, and fewer only when the queue is full at
    -- the end. A queue that was within its maximum stays within it.
    pub send_shutdown_signals-Sent :
        (m : WorkerManager T)
        → OnlyTakes before
        → OnlyTakes waiting
        → Sent maxsize m.task_queue
            (length m.worker_threads)
            (send_shutdown_signals maxsize before waiting m).task_queue
    unfolding send_shutdown_signals
    send_shutdown_signals-Sent m b w = send_signals-Sent (length m.worker_threads) 0 m b w
