-- ===== src/Scaling/Cooldown.antt =====
-- The cooldown between two approvals of one more worker.
use fish_async_task.Prelude.{ℕ, ◌+◌, ◌≤◌, ◌≡◌, Option, List, [], ◌∷◌, arith}
use fish_async_task.Scaling.{should_scale_up, should_scale_down}
use fish_async_task.Scaling.Bounds.{Query, asks_up, asks_down, Pool, grow, ask, ask_all}

-- The times, the latest first, lie at least the cooldown apart.
abbrev pub IsSpaced : ℕ → List ℕ → Type 0
IsSpaced cooldown [] = Unit
IsSpaced cooldown (t ∷ []) = Unit
IsSpaced cooldown (t ∷ u ∷ ts) = (u + cooldown ≤ t) × IsSpaced cooldown (u ∷ ts)

-- The latest approval is the one that the manager remembers.
abbrev pub IsLatest : ℕ → List ℕ → Type 0
IsLatest last [] = Unit
IsLatest last (t ∷ ts) = last ≡ t

pub record Remembers (cooldown : ℕ) (p : Pool) : Type 0 where
  pub same_cooldown : p.manager.scale_up_cooldown ≡ cooldown
  pub latest : IsLatest p.manager.last_scale_up p.scale_ups
  pub spaced : IsSpaced cooldown p.scale_ups

push-IsSpaced :
    (cooldown last now : ℕ) (ts : List ℕ)
    → IsLatest last ts
    → IsSpaced cooldown ts
    → last + cooldown ≤ now
    → IsSpaced cooldown (now ∷ ts)
push-IsSpaced cooldown last now [] l s h = tt
push-IsSpaced cooldown last now (t ∷ ts) l s h = (omega arith, s)

grow-Remembers :
    (cooldown now : ℕ) (p : Pool) (size : ℕ) (cpu : Option ℕ)
    → Remembers cooldown p
    → Remembers cooldown (grow now p (should_scale_up now p.manager p.workers size cpu))
unfolding should_scale_up
grow-Remembers cooldown now p size cpu r = ground (
  arith,
  r.same_cooldown,
  r.latest,
  r.spaced,
  push-IsSpaced cooldown p.manager.last_scale_up now p.scale_ups r.latest r.spaced,
)

ask-Remembers :
    (cooldown : ℕ) (p : Pool) (q : Query) → Remembers cooldown p → Remembers cooldown (ask p q)
unfolding ask should_scale_down
ask-Remembers cooldown p (asks_up now size cpu) r = grow-Remembers cooldown now p size cpu r
ask-Remembers cooldown p (asks_down now size idle) r =
    ground (arith, r.same_cooldown, r.latest, r.spaced)

-- Whatever is asked, in whatever order of times, any two consecutive approvals of one more worker
-- lie at least `scale_up_cooldown` apart, and the manager remembers the time of the latest.
pub ask_all-Remembers :
    (qs : List Query) (cooldown : ℕ) (p : Pool)
    → Remembers cooldown p
    → Remembers cooldown (ask_all p qs)
unfolding ask_all
ask_all-Remembers [] cooldown p r = r
ask_all-Remembers (q ∷ qs) cooldown p r =
    ask_all-Remembers qs cooldown (ask p q) (ask-Remembers cooldown p q r)
