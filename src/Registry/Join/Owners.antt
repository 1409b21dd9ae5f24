-- ===== src/Registry/Join/Owners.antt =====
-- A registration: who works on what after it.
use hierophant.Prelude.{
  ℕ, ◌+◌, ◌≤◌, String, inl, inr, none, some, not, Option, arith, string_eq, bit, Option-cases,
  count_if-keep-le,
}
use hierophant.Prelude.Dict.{
  lookup, has_key, count_if-insert-le, has_key-insert, count_if-lookup-remove,
}
use hierophant.Worker.{Env, status_is_on, is_on}
use hierophant.Registry.{WorkerRegistry, holds}
use hierophant.Registry.Owners.{owners, entries}
use hierophant.Registry.Trim.Exact.{Untouched}
use hierophant.Registry.Join.{Registration, stale_key, take_over, supersede, new_state, enroll}

module _ (env : Env) (n : Registration) (g : WorkerRegistry) where
  -- What the new entry takes over, the stale entry gives up.
  owners-take_over :
      (r : ℕ) (k : Option String)
      → bit (status_is_on r (take_over n k g).1) + owners r (take_over n k g).0 ≤ owners r g
  unfolding take_over
  owners-take_over r none = omega arith
  owners-take_over r (some key) = elim (Option-cases (lookup key g.workers)) [
    | inl f ↦ rw f (omega (arith, count_if-keep-le (holds r) (λ x. not (has_key key x)) g.workers))
    | inr (w, f) ↦ rw f (
        ground (
          arith,
          count_if-lookup-remove (is_on r) key w g.workers f,
          count_if-keep-le (holds r) (λ x. not (has_key key x)) g.workers,
        ))
  ]

  entries-take_over :
      (a : String) (k : Option String) → entries a (take_over n k g).0.workers ≤ entries a g.workers
  unfolding take_over
  entries-take_over a none = omega arith
  entries-take_over a (some key) = count_if-keep-le (has_key a) (λ x. not (has_key key x)) g.workers

  -- A registration gives nobody a second worker.
  pub owners-enroll : (r : ℕ) → owners r (enroll env n g) ≤ owners r g
  unfolding enroll
  owners-enroll r = omega (
    arith,
    owners-take_over r (stale_key n g.workers),
    count_if-insert-le (holds r) n.worker_addr (new_state env n (supersede n g).1)
        (supersede n g).0.workers,
  )

  pub entries-enroll :
      (a : String) → entries a g.workers ≤ 1 → entries a (enroll env n g).workers ≤ 1
  unfolding enroll
  entries-enroll a h =
      has_key-insert n.worker_addr a (new_state env n (supersede n g).1) (supersede n g).0.workers
        (omega (arith, entries-take_over a (stale_key n g.workers)))

  pub enroll-Untouched : Untouched g (enroll env n g)
  unfolding enroll
  enroll-Untouched = ground arith
