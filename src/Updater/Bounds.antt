-- ===== src/Updater/Bounds.antt =====
-- The buffer of the batched updater and its limit.
use fish_async_task.Prelude.{
  ℕ, ◌<◌, ◌≡◌, refl, sym, ◌∙◌, ap, subst, String, Option, some, arith, if◌then◌else◌, length, leb,
  ◌==◌, Bool-cases, inl, inr,
}
use fish_async_task.Prelude.Dict
use fish_async_task.Prelude.Dict.{Dict, lookup-insert, length-insert, insert-HasUniqueKeys}
use fish_async_task.Status.{TaskStatusDict}
use fish_async_task.Updater.{
  BatchedStatusUpdater, flush_unlocked, flush, flush_at, flush_if_due, flush_if_full, buffer_status,
  enqueue_update,
}
use fish_async_task.Updater.View.{view, Flushed, flush-Flushed}

module _ {R : Type 0} where
  -- Each task waits once, and the buffer has room for one more.
  pub record IsValid (u : BatchedStatusUpdater R) : Type 0 where
    pub unique : Dict.HasUniqueKeys u.buffer
    pub room : length u.buffer < u.buffer_size

  -- A step that keeps the updater valid and open or closed as it was, with a new view.
  pub record Keeps (u u' : BatchedStatusUpdater R) (now_seen : String → Option (TaskStatusDict R))
      : Type 0 where
    pub valid : IsValid u'
    pub same_closed : u'.closed ≡ u.closed
    pub same_size : u'.buffer_size ≡ u.buffer_size
    pub seen : (j : String) → view u' j ≡ now_seen j

  flush_at-Keeps :
      (now : ℕ) (u : BatchedStatusUpdater R)
      → Dict.HasUniqueKeys u.buffer
      → 0 < u.buffer_size
      → Keeps u (flush_at now u) (view u)
  unfolding flush_at flush view Dict.lookup
  flush_at-Keeps now u h p =
      let f : Flushed u (flush_unlocked u) = flush-Flushed u h in
      record {
        valid = record {
          unique = subst Dict.HasUniqueKeys (sym f.emptied) tt;
          room = rw (f.emptied, f.same_size) p;
        };
        same_closed = f.same_closed;
        same_size = f.same_size;
        seen = λ j. rw f.emptied (f.stored j);
      }

  unchanged-Keeps : (u : BatchedStatusUpdater R) → IsValid u → Keeps u u (view u)
  unchanged-Keeps u v = record { valid = v; same_closed = refl; same_size = refl; seen = λ j. refl }

  flush_if_due-Keeps :
      (now : ℕ) (u : BatchedStatusUpdater R) → IsValid u → Keeps u (flush_if_due now u) (view u)
  unfolding flush_if_due
  flush_if_due-Keeps now u v =
      ground (arith, flush_at-Keeps now u v.unique, unchanged-Keeps u v, v.room)

  -- The view with one status replaced.
  abbrev pub seen_with :
      String
      → TaskStatusDict R
      → (String → Option (TaskStatusDict R))
      → String
      → Option (TaskStatusDict R)
  seen_with k st seen j = if k == j then some st else seen j

  view-buffer_status :
      (k j : String) (st : TaskStatusDict R) (u : BatchedStatusUpdater R)
      → view (buffer_status k st u) j ≡ seen_with k st (view u) j
  unfolding view buffer_status
  view-buffer_status k j st u = ground (arith, lookup-insert k j st u.buffer)

  flush_if_full-Keeps :
      (now : ℕ) (u : BatchedStatusUpdater R)
      → Dict.HasUniqueKeys u.buffer
      → 0 < u.buffer_size
      → Keeps u (flush_if_full now u) (view u)
  unfolding flush_if_full
  flush_if_full-Keeps now u h p = elim (Bool-cases (leb u.buffer_size (length u.buffer))) [
    | inl full ↦ rw full (flush_at-Keeps now u h p)
    | inr open_ ↦ rw open_ (unchanged-Keeps u (record { unique = h; room = ground arith }))
  ]

  buffered :
      (now : ℕ) (k : String) (st : TaskStatusDict R) (u : BatchedStatusUpdater R)
      → IsValid u
      → Keeps u (flush_if_full now (buffer_status k st u)) (seen_with k st (view u))
  unfolding buffer_status
  buffered now k st u v =
      let f =
        flush_if_full-Keeps now (buffer_status k st u) (insert-HasUniqueKeys k st u.buffer v.unique)
          (omega (arith, v.room)) in
      record {
        valid = f.valid;
        same_closed = f.same_closed;
        same_size = f.same_size;
        seen = λ j. f.seen j ∙ view-buffer_status k j st u;
      }

  -- `queue_update` under the lock, on a valid updater: whether or not the interval or the size
  -- makes it flush, before or after, the buffer ends below `buffer_size` with each task once, and
  -- the view is the old one with the status of this task replaced.
  pub enqueue_update-Keeps :
      (now : ℕ) (k : String) (st : TaskStatusDict R) (u : BatchedStatusUpdater R)
      → IsValid u
      → Keeps u (enqueue_update now k st u) (seen_with k st (view u))
  unfolding enqueue_update
  enqueue_update-Keeps now k st u v =
      let a = flush_if_due-Keeps now u v in
      let b = buffered now k st (flush_if_due now u) a.valid in
      record {
        valid = b.valid;
        same_closed = b.same_closed ∙ a.same_closed;
        same_size = b.same_size ∙ a.same_size;
        seen = λ j. b.seen j ∙ ap (λ o. if k == j then some st else o) (a.seen j);
      }
