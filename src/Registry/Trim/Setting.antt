-- ===== src/Registry/Trim/Setting.antt =====
-- What the setting for the execution report does to an eviction.
use hierophant.Prelude.{
  ℕ, ◌≡◌, refl, ap, ◌∙◌, String, Bool, false, not, List, [], ◌∷◌, map, keep, any, arith, leb,
  string_eq, Option-cases, inl, inr,
}
use hierophant.Prelude.Dict.{lookup}
use hierophant.Worker.{
  Env, WorkerStatus, idle, busy, RegistryConfig, WorkerState, overdue, should_drop,
}
use hierophant.Registry.{WorkerRegistry, Workers}
use hierophant.Registry.Trim.{bury, bury_all, is_due, trim_workers}

-- The last update of the worker is later than the clock says: the clock went back since.
abbrev pub in_future : Env → String × WorkerState → Bool
in_future env (addr, w) = of_status w.status
  where
    of_status : WorkerStatus → Bool
    of_status idle = false
    of_status (busy j) = not (leb j.time_of_last_update env.system_now)

-- The registry, with another `worker_max_execution_report_mins`.
abbrev pub with_setting : ℕ → WorkerRegistry → WorkerRegistry
with_setting m g = record g { config = record g.config { worker_max_execution_report_mins = m } }

module _ (env : Env) (m : ℕ) where
  should_drop-setting :
      (c : RegistryConfig) (x : String × WorkerState)
      → in_future env x ≡ false
      → should_drop env (record c { worker_max_execution_report_mins = m }) x.1
        ≡ should_drop env c x.1
  unfolding should_drop overdue
  should_drop-setting c (addr, w) h = ground arith

  bury_all-setting :
      (names : List String) (g : WorkerRegistry)
      → bury_all (with_setting m g) names ≡ with_setting m (bury_all g names)
  unfolding bury_all bury
  bury_all-setting [] g = refl
  bury_all-setting (addr ∷ rest) g = elim (Option-cases (lookup addr g.workers)) [
    | inl e ↦ rw (e, bury_all, bury) (bury_all-setting rest g)
    | inr (w, e) ↦ rw (e, bury_all, bury) (bury_all-setting rest _)
  ]

  keep-due :
      (c : RegistryConfig) (ws : Workers)
      → any (in_future env) ws ≡ false
      → keep (is_due env (record c { worker_max_execution_report_mins = m })) ws
        ≡ keep (is_due env c) ws
  keep-due c [] h = refl
  keep-due c (x ∷ ws) h =
      rw (should_drop-setting c x (ground arith), keep-due c ws (ground arith)) refl

  -- The setting that limits the time until the execution report decides nothing: whatever it is set
  -- to, an eviction does the same to the registry, as long as no worker's last update is later than
  -- the clock.
  pub trim_workers-setting :
      (g : WorkerRegistry)
      → any (in_future env) g.workers ≡ false
      → trim_workers env (with_setting m g) ≡ with_setting m (trim_workers env g)
  unfolding trim_workers
  trim_workers-setting g h =
      ap (λ ws. bury_all (with_setting m g) (map (λ x. x.0) ws)) (keep-due g.config g.workers h)
      ∙ bury_all-setting (map (λ x. x.0) (keep (is_due env g.config) g.workers)) g
