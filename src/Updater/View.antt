-- ===== src/Updater/View.antt =====
-- What a reader of the batched updater would see once the buffer is written.
use fish_async_task.Prelude.{
  ℕ, suc, ◌+◌, ◌≡◌, refl, String, false, Option, none, some, [], ◌∷◌, arith, length, eq_iff,
}
use fish_async_task.Prelude.Dict
use fish_async_task.Prelude.Dict.{Dict, lookup-insert, has-eq_lookup}
use fish_async_task.Status.{TaskStatusDict}
use fish_async_task.Updater.{BatchedStatusUpdater, write_items, flush_unlocked, flush}

abbrev pub or_else {ℓ} : {A : Type ℓ} → Option A → Option A → Option A
or_else none o = o
or_else (some a) o = some a

module _ {R : Type 0} where
  -- The buffered status of the task if there is one, else the stored one.
  unfoldable pub view : BatchedStatusUpdater R → String → Option (TaskStatusDict R)
  view u j = or_else (Dict.lookup j u.buffer) (Dict.lookup j u.underlying_store)

  missing :
      (k j : String) (d : Dict (TaskStatusDict R))
      → Dict.has k d ≡ false
      → k ≡ j
      → Dict.lookup j d ≡ none
  unfolding Dict.has Dict.lookup
  missing k j [] h e = refl
  missing k j ((i, v) ∷ d) h e = ground (arith, missing k j d, eq_iff i k, eq_iff i j)

  pub lookup-write_items :
      (j : String) (items store : Dict (TaskStatusDict R)) (n : ℕ)
      → Dict.HasUniqueKeys items
      → Dict.lookup j (write_items items store n).0
        ≡ or_else (Dict.lookup j items) (Dict.lookup j store)
  unfolding write_items Dict.lookup
  lookup-write_items j [] store n u = refl
  lookup-write_items j ((k, v) ∷ items) store n u = ground (
    arith,
    lookup-write_items j items (Dict.insert k v store) (suc n) u.1,
    lookup-insert k j v store,
    missing k j items u.0,
    eq_iff k j,
  )

  pub count-write_items :
      (items store : Dict (TaskStatusDict R)) (n : ℕ)
      → (write_items items store n).1 ≡ n + length items
  unfolding write_items
  count-write_items [] store n = omega arith
  count-write_items ((k, v) ∷ items) store n =
      omega (arith, count-write_items items (Dict.insert k v store) (suc n))

  -- What a flush leaves behind.
  pub record Flushed (u : BatchedStatusUpdater R) (r : BatchedStatusUpdater R × ℕ) : Type 0 where
    pub stored : (j : String) → Dict.lookup j r.0.underlying_store ≡ view u j
    pub emptied : r.0.buffer ≡ []
    pub counted : r.1 ≡ length u.buffer
    pub same_closed : r.0.closed ≡ u.closed
    pub same_size : r.0.buffer_size ≡ u.buffer_size

  flush_unlocked_buffer :
      (u : BatchedStatusUpdater R) (b : Dict (TaskStatusDict R))
      → u.buffer ≡ b
      → Dict.HasUniqueKeys b
      → Flushed u (flush_unlocked u)
  unfolding flush_unlocked view Dict.lookup
  flush_unlocked_buffer u [] e h = rw e (record {
    stored = λ j. refl;
    emptied = refl;
    counted = refl;
    same_closed = refl;
    same_size = refl;
  })
  flush_unlocked_buffer u (x ∷ b) e h = rw e (record {
    stored = λ j. lookup-write_items j (x ∷ b) u.underlying_store 0 h;
    emptied = refl;
    counted = omega (arith, count-write_items (x ∷ b) u.underlying_store 0);
    same_closed = refl;
    same_size = refl;
  })

  -- `flush` of an updater whose buffer has each task once: the store then shows the whole view, the
  -- buffer is empty, and the count returned is the number of tasks that waited.
  pub flush-Flushed :
      (u : BatchedStatusUpdater R) → Dict.HasUniqueKeys u.buffer → Flushed u (flush u)
  unfolding flush
  flush-Flushed u h = flush_unlocked_buffer u u.buffer refl h
