-- ===== src/Registry/Trim/Exact.antt =====
-- What an eviction does, in one equation.
use mathlib.Core.List.{append_assoc, append-nil}
use hierophant.Prelude.{
  ℕ, ◌≤◌, ◌≡◌, refl, ap, sym, ◌∙◌, String, not, inl, inr, List, [], ◌∷◌, ◌++◌, map, keep, arith,
  string_eq, count_if-append, count_if-keep-le, Bool-cases, count_if,
}
use hierophant.Prelude.Dict.{has_key, remove-append_middle}
use hierophant.Worker.{Env, WorkerState, should_drop}
use hierophant.Registry.{WorkerRegistry, Workers, Effect, holds}
use hierophant.Registry.Owners.{owners, entries}
use hierophant.Registry.Trim.{drop_notice, bury, bury_all, is_due, trim_workers}

-- The notices to the Magisters of these workers.
abbrev pub notices : Workers → List Effect
notices [] = []
notices ((addr, w) ∷ rest) = drop_notice w.magister_drop_endpoint ++ notices rest

abbrev pub due : Env → WorkerRegistry → Workers
due env g = keep (is_due env g.config) g.workers

abbrev pub alive : Env → WorkerRegistry → Workers
alive env g = keep (λ x. not (is_due env g.config x)) g.workers

abbrev Unique : Workers → Type 0
Unique ws = (a : String) → entries a ws ≤ 1

-- The registry with these workers, and with those dead.
abbrev pub buried : WorkerRegistry → Workers → Workers → WorkerRegistry
buried g kept dead = record g {
  workers = kept;
  dead_workers = g.dead_workers ++ dead;
  effects = g.effects ++ notices dead;
}

bury_lem :
    (g : WorkerRegistry) (kept rest : Workers) (addr : String) (w : WorkerState)
    → g.workers ≡ kept ++ (addr, w) ∷ rest
    → Unique (kept ++ (addr, w) ∷ rest)
    → bury g addr ≡ buried g (kept ++ rest) ((addr, w) ∷ [])
unfolding bury
bury_lem g kept rest addr w e u =
    let (removed, found) = remove-append_middle addr w kept rest (u addr) in
    rw (e, found, bury) (rw (e, removed, append-nil))

buried-nil : (g : WorkerRegistry) (ws : Workers) → g.workers ≡ ws → g ≡ buried g ws []
buried-nil g ws e = λ i. record g {
  workers = e i;
  dead_workers = sym (append-nil g.dead_workers) i;
  effects = sym (append-nil g.effects) i;
}

notices-append : (xs ys : Workers) → notices (xs ++ ys) ≡ notices xs ++ notices ys
notices-append [] ys = refl
notices-append ((addr, w) ∷ xs) ys =
    rw (notices-append xs ys) (sym (append_assoc (drop_notice w.magister_drop_endpoint) _ _))

buried-buried :
    (g : WorkerRegistry) (ws vs dead rest : Workers)
    → buried (buried g ws dead) vs rest ≡ buried g vs (dead ++ rest)
buried-buried g ws vs dead rest = λ i. record g {
  workers = vs;
  dead_workers = append_assoc g.dead_workers dead rest i;
  effects =
      (append_assoc g.effects (notices dead) (notices rest)
          ∙ ap (◌++◌ g.effects) (sym (notices-append dead rest)))
        i;
}

-- What an eviction never touches.
pub record Untouched (g g' : WorkerRegistry) : Type 0 where
  pub config : g'.config ≡ g.config
  pub pending : g'.pending_requests ≡ g.pending_requests
  pub awaiting : g'.awaiting_proof_status_responses ≡ g.awaiting_proof_status_responses
  pub history : g'.proof_history ≡ g.proof_history

module _ (env : Env) where
  -- The loop over the rest of the entries, when those before it stay.
  bury_all-rest :
      (g : WorkerRegistry) (kept rest : Workers)
      → g.workers ≡ kept ++ rest
      → Unique (kept ++ rest)
      → bury_all g (map (λ x. x.0) (keep (is_due env g.config) rest))
        ≡ buried g
            (kept ++ keep (λ x. not (is_due env g.config x)) rest)
            (keep (is_due env g.config) rest)
  unfolding bury_all
  bury_all-rest g kept [] e u = buried-nil g _ e
  bury_all-rest g kept ((addr, w) ∷ rest) e u = elim (Bool-cases (should_drop env g.config w)) [
    | inl d ↦ rw d (
        ap (λ h. bury_all h (map (λ x. x.0) (keep (is_due env g.config) rest)))
          (bury_lem g kept rest addr w e u)
        ∙ bury_all-rest (buried g (kept ++ rest) ((addr, w) ∷ [])) kept rest refl (λ a. omega (
          arith,
          count_if-append (has_key a) kept rest,
          count_if-append (has_key a) kept ((addr, w) ∷ rest),
          u a,
        ))
        ∙ buried-buried g (kept ++ rest) _ ((addr, w) ∷ []) _)
    | inr d ↦ rw d (
        rw append_assoc at (
          bury_all-rest g (kept ++ (addr, w) ∷ []) rest (e ∙ sym (append_assoc kept _ rest)) (λ a.
            omega
              (arith, ap (count_if (has_key a)) (append_assoc kept ((addr, w) ∷ []) rest), u a))))
  ]

  -- Eviction moves exactly the workers that are due to the dead, in order, tells each of their
  -- Magisters, and changes nothing else.
  pub trim_workers_lem :
      (g : WorkerRegistry)
      → ((a : String) → entries a g.workers ≤ 1)
      → trim_workers env g ≡ buried g (alive env g) (due env g)
  unfolding trim_workers
  trim_workers_lem g u = bury_all-rest g [] g.workers refl u

  -- Counts that an eviction can only lower, whatever the map's order.
  owners-bury_all :
      (r : ℕ) (names : List String) (g : WorkerRegistry) → owners r (bury_all g names) ≤ owners r g
  unfolding bury_all bury
  owners-bury_all r [] g = omega arith
  owners-bury_all r (addr ∷ rest) g = ground (
    arith,
    owners-bury_all r rest (bury g addr),
    count_if-keep-le (holds r) (λ x. not (has_key addr x)) g.workers,
  )

  pub owners-trim_workers :
      (r : ℕ) (g : WorkerRegistry) → owners r (trim_workers env g) ≤ owners r g
  unfolding trim_workers
  owners-trim_workers r g = owners-bury_all r (map (λ x. x.0) (due env g)) g

  entries-bury_all :
      (a : String) (names : List String) (g : WorkerRegistry)
      → entries a (bury_all g names).workers ≤ entries a g.workers
  unfolding bury_all bury
  entries-bury_all a [] g = omega arith
  entries-bury_all a (addr ∷ rest) g = ground (
    arith,
    entries-bury_all a rest (bury g addr),
    count_if-keep-le (has_key a) (λ x. not (has_key addr x)) g.workers,
  )

  pub entries-trim_workers :
      (a : String) (g : WorkerRegistry)
      → entries a (trim_workers env g).workers ≤ entries a g.workers
  unfolding trim_workers
  entries-trim_workers a g = entries-bury_all a (map (λ x. x.0) (due env g)) g

  bury_all-Untouched : (names : List String) (g : WorkerRegistry) → Untouched g (bury_all g names)
  unfolding bury_all bury
  bury_all-Untouched [] g = ground arith
  bury_all-Untouched (addr ∷ rest) g = ground (arith, bury_all-Untouched rest (bury g addr))

  pub trim_workers-Untouched : (g : WorkerRegistry) → Untouched g (trim_workers env g)
  unfolding trim_workers
  trim_workers-Untouched g = bury_all-Untouched (map (λ x. x.0) (due env g)) g
