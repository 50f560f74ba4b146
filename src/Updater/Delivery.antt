-- ===== src/Updater/Delivery.antt =====
-- What reaches the store of the batched updater when it is closed, and what does not.
use fish_async_task.Prelude.{
  ℕ, ◌<◌, ◌≡◌, refl, ◌∙◌, String, true, false, Option, none, some, List, [], ◌∷◌, arith,
  if◌then◌else◌, length, leb, ◌==◌, eq_refl,
}
use fish_async_task.Prelude.Dict
use fish_async_task.Prelude.Dict.{Dict, lookup-insert}
use fish_async_task.Status.{TaskStatusDict}
use fish_async_task.Updater.{
  BatchedStatusUpdater, flush_unlocked, flush, flush_if_due, flush_if_full, buffer_status,
  enqueue_update, queue_update, write_status, close,
}
use fish_async_task.Updater.View.{view, or_else, Flushed, flush-Flushed}
use fish_async_task.Updater.Bounds.{IsValid, enqueue_update-Keeps}

-- A call of `queue_update`, with the time at which it runs.
pub record QueueCall (R : Type 0) : Type 0 where
  pub at : ℕ
  pub task_id : String
  pub status : TaskStatusDict R

module _ {R : Type 0} where
  -- The calls one after the other; `none` once one raises.
  unfoldable pub queue_all :
      List (QueueCall R) → BatchedStatusUpdater R → Option (BatchedStatusUpdater R)
  queue_all [] u = some u
  queue_all (c ∷ cs) u = elim (queue_update c.at c.task_id c.status u) [
    | none ↦ none
    | some u' ↦ queue_all cs u'
  ]

  -- The status that the last call for the task passes.
  abbrev pub last_queued : String → List (QueueCall R) → Option (TaskStatusDict R)
  last_queued j [] = none
  last_queued j (c ∷ cs) =
      or_else (last_queued j cs) (if c.task_id == j then some c.status else none)

  -- An open updater is closed, and its store ends as given.
  pub record Closed (u : BatchedStatusUpdater R) (now_stored : String → Option (TaskStatusDict R))
      : Type 0 where
    pub is_closed : (close u).closed ≡ true
    pub emptied : (close u).buffer ≡ []
    pub stored : (j : String) → Dict.lookup j (close u).underlying_store ≡ now_stored j

  pub close-Closed :
      (u : BatchedStatusUpdater R)
      → Dict.HasUniqueKeys u.buffer
      → u.closed ≡ false
      → Closed u (view u)
  unfolding close flush
  close-Closed u h open_ =
      let f : Flushed u (flush_unlocked u) = flush-Flushed u h in
      record {
        is_closed = ground arith;
        emptied = ground (arith, f.emptied);
        stored = λ j. ground (arith, f.stored j);
      }

  queue_update_open :
      (now : ℕ) (k : String) (st : TaskStatusDict R) (u : BatchedStatusUpdater R)
      → u.closed ≡ false
      → queue_update now k st u ≡ some (enqueue_update now k st u)
  unfolding queue_update
  queue_update_open now k st u open_ = ground arith

  queue_all_open :
      (c : QueueCall R) (cs : List (QueueCall R)) (u : BatchedStatusUpdater R)
      → u.closed ≡ false
      → queue_all (c ∷ cs) u ≡ queue_all cs (enqueue_update c.at c.task_id c.status u)
  unfolding queue_all
  queue_all_open c cs u open_ =
      let ok = queue_update_open c.at c.task_id c.status u open_ in rw (queue_all, ok) refl

  -- After any sequence of `queue_update` calls on a valid open updater, at whatever times and with
  -- whatever flushes between, none of the calls raises, and `close` empties the buffer and leaves
  -- in the store, for every task, the status of the last call for it, or else what was seen before.
  pub close_delivers :
      (cs : List (QueueCall R)) (u : BatchedStatusUpdater R)
      → IsValid u
      → u.closed ≡ false
      → (u' : BatchedStatusUpdater R) × (queue_all cs u ≡ some u')
        × Closed u' (λ j. or_else (last_queued j cs) (view u j))
  unfolding queue_all
  close_delivers [] u v open_ = (u, refl, close-Closed u v.unique open_)
  close_delivers (c ∷ cs) u v open_ =
      let k = enqueue_update-Keeps c.at c.task_id c.status u v in
      let (u', ran, e) =
        close_delivers cs (enqueue_update c.at c.task_id c.status u) k.valid
          (k.same_closed ∙ open_) in
      (
        u',
        queue_all_open c cs u open_ ∙ ran,
        record {
          is_closed = e.is_closed;
          emptied = e.emptied;
          stored = λ j. e.stored j ∙ ground (arith, k.seen j);
        },
      )

  -- `update_sync` writes the store at once, but when an older status of the task still waits in
  -- the buffer of a valid open updater, closing writes the older status over the newer one.
  pub update_sync_overwritten :
      (k : String) (old st : TaskStatusDict R) (u : BatchedStatusUpdater R)
      → IsValid u
      → u.closed ≡ false
      → Dict.lookup k u.buffer ≡ some old
      → (Dict.lookup k (write_status k st u).underlying_store ≡ some st)
        × (Dict.lookup k (close (write_status k st u)).underlying_store ≡ some old)
  unfolding write_status view
  update_sync_overwritten k old st u v open_ waits =
      let e = close-Closed (write_status k st u) v.unique open_ in
      (rw (lookup-insert k k st u.underlying_store, eq_refl k) refl, e.stored k ∙ rw waits refl)

  close_again : (u : BatchedStatusUpdater R) → u.closed ≡ true → close u ≡ u
  unfolding close
  close_again u e = ground arith

  -- The parts of an updater whose buffer was empty that one more status changes.
  record Buffered (k : String) (st : TaskStatusDict R) (u u' : BatchedStatusUpdater R)
      : Type 0 where
    waits : u'.buffer ≡ (k, st) ∷ []
    same_store : u'.underlying_store ≡ u.underlying_store
    same_closed : u'.closed ≡ u.closed

  enqueue_empty :
      (now : ℕ) (k : String) (st : TaskStatusDict R) (u : BatchedStatusUpdater R)
      → u.buffer ≡ []
      → 1 < u.buffer_size
      → Buffered k st u (enqueue_update now k st u)
  unfolding enqueue_update flush_if_due flush_if_full buffer_status Dict.insert
  enqueue_empty now k st u e big =
      let due : (flush_if_due now u) ≡ u = ground arith in
      let full : leb u.buffer_size (length (Dict.insert k st u.buffer)) ≡ false =
        rw e (ground arith) in
      rw (due, full) (record { waits = rw e refl; same_store = refl; same_closed = refl })

  size-close : (u : BatchedStatusUpdater R) → (close u).buffer_size ≡ u.buffer_size
  unfolding close flush_unlocked
  size-close u = ground arith

  -- A `queue_update` that saw the valid updater open, and takes the lock only after `close` has
  -- run, returns normally when the buffer size is above one, but its status stays in the buffer:
  -- the store does not change, and closing again does not change it.
  pub enqueue_after_close :
      (now : ℕ) (k : String) (st : TaskStatusDict R) (u : BatchedStatusUpdater R)
      → IsValid u
      → u.closed ≡ false
      → 1 < u.buffer_size
      → (Dict.lookup k (enqueue_update now k st (close u)).buffer ≡ some st)
        × ((close (enqueue_update now k st (close u))).underlying_store
            ≡ (close u).underlying_store)
  unfolding Dict.lookup
  enqueue_after_close now k st u v open_ big =
      let c = close-Closed u v.unique open_ in
      let b = enqueue_empty now k st (close u) c.emptied (rw (size-close u) big) in
      (
        rw (b.waits, eq_refl k) refl,
        rw (close_again (enqueue_update now k st (close u)) (b.same_closed ∙ c.is_closed))
            b.same_store,
      )
