-- ===== src/ReadWriteLock/Exclusion.antt =====
-- Who is inside together.
use fish_async_task.Prelude.{ℕ, ◌≡◌, refl, Bool, true, some, arith, count-zero, count-one}
use fish_async_task.ReadWriteLock.{reading, writing, System, phase_of, Reach}
use fish_async_task.ReadWriteLock.Invariant.{reads, writes, kept_by_writer, Reach-Inv}

-- Who writes, writes alone.
pub record Alone (s : System) (i : ℕ) : Type 0 where
  pub only_writer : (j : ℕ) → phase_of s j ≡ some writing → j ≡ i
  pub no_reader : (j : ℕ) → ¬ (phase_of s j ≡ some reading)

-- In every state that any number of threads reaches, each of whose contexts has a positive timeout,
-- whether writers run into it or not, a thread that writes is the only writer, and no thread reads.
pub writer-Alone :
    (timely : Bool) (n : ℕ) (s : System) (i : ℕ)
    → Reach timely true n s
    → phase_of s i ≡ some writing
    → Alone s i
writer-Alone timely n s i r there =
    let v = Reach-Inv timely n s r in
    let alone = v.taken (kept_by_writer s i there v) in
    record {
      only_writer =
          λ j also. count-one writes s.threads j i writing writing alone.0 also there refl refl;
      no_reader =
          λ j reads_too. ground (arith, count-zero reads s.threads j reading reads_too alone.1);
    }
