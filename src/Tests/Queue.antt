-- ===== src/Tests/Queue.antt =====
-- A queue of three tasks, kept in order.
use fish_async_task.Prelude.{refl, String, [], ◌∷◌, Perm}
use fish_async_task.Prelude.Int.{ℤ, pos, negsuc, lt_int_asymm, not-lt_int_trans}
use fish_async_task.Prelude.Heapq.{Heapq, WeakOrder, IsOrdered, ordered_heapq}
use fish_async_task.PriorityQueue.{PrioritizedTask, before, PriorityTaskQueue}
use fish_async_task.PriorityQueue.Order.{drain, drain_sorts}

priority_order : WeakOrder (before {W = Unit})
priority_order = record {
  asymm = λ a b h. lt_int_asymm a.priority b.priority h;
  trans = λ a b c h k. not-lt_int_trans a.priority b.priority c.priority h k;
}

abbrev hq : Heapq (before {W = Unit})
hq = ordered_heapq before priority_order

abbrev task : ℤ → String → PrioritizedTask Unit
task p k = record { priority = p; task_id = k; work = tt; submit_time = 5 }

-- Full, with a task of a negative priority in front.
abbrev three : PriorityTaskQueue Unit
three = record {
  maxsize = 3;
  queue = task (negsuc 0) "a" ∷ task (pos 2) "b" ∷ task (pos 7) "c" ∷ [];
  task_ids = "a" ∷ "b" ∷ "c" ∷ [];
}

drain_sorts_example : Perm (drain hq 3 three) three.queue × IsOrdered before (drain hq 3 three)
drain_sorts_example = drain_sorts hq 3 three (refl, (refl, (refl, tt))) refl
