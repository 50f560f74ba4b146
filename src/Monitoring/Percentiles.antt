-- ===== src/Monitoring/Percentiles.antt =====
-- `get_percentiles` as order statistics.
use fish_async_task.Prelude.{ℕ, ◌≤◌, ◌<◌, ◌≡◌, Option, some, List, count, ltb, leb}

-- `value` is the item number `k` in the order of size, counted from 0: at most `k` items are below
-- it, and more than `k` are at most it.
pub record OrderStatistic (k : ℕ) (ts : List ℕ) (found : Option ℕ) : Type 0 where
  pub value : ℕ
  pub is_value : found ≡ some value
  pub below : count (λ t. ltb t value) ts ≤ k
  pub up_to : k < count (λ t. leb t value) ts
