-- ===== src/Registry/Trim.antt =====
-- Eviction: `trim_workers`, and the commands that strike or drop the worker of a request.
pub mod Exact
pub mod Setting
use hierophant.Prelude.{
  string_eq, Bool, ℕ, String, Option, none, some, List, [], ◌∷◌, ◌++◌, map, keep, find?,
  update_first,
}
use hierophant.Prelude.Dict.{lookup, remove}
use hierophant.Worker.{Env, WorkerState, RegistryConfig, should_drop, add_strike}
use hierophant.Registry.{holds, on_worker, WorkerRegistry, Effect, magister_drop}

-- The Magister of a dead worker is told to destroy its instance.
abbrev pub drop_notice : Option String → List Effect
drop_notice none = []
drop_notice (some endpoint) = magister_drop endpoint ∷ []

-- One round of the loop over `new_dead_workers`.
unfoldable pub bury : WorkerRegistry → String → WorkerRegistry
bury g addr = elim (lookup addr g.workers) [
  | none ↦ g
  | some w ↦ record g {
    workers = remove addr g.workers;
    dead_workers = g.dead_workers ++ (addr, w) ∷ [];
    effects = g.effects ++ drop_notice w.magister_drop_endpoint;
  }
]

unfoldable pub bury_all : WorkerRegistry → List String → WorkerRegistry
bury_all g [] = g
bury_all g (addr ∷ rest) = bury_all (bury g addr) rest

abbrev pub is_due : Env → RegistryConfig → String × WorkerState → Bool
is_due env c (addr, w) = should_drop env c w

unfoldable pub trim_workers : Env → WorkerRegistry → WorkerRegistry
unfolding bury_all
trim_workers env g = bury_all g (map (λ x. x.0) (keep (is_due env g.config) g.workers))

-- `worker_state.strikes = self.config.max_worker_strikes`
abbrev pub condemn : RegistryConfig → WorkerState → WorkerState
condemn c w = record w { strikes = c.max_worker_strikes }

unfoldable pub handle_drop_worker_of_request : Env → ℕ → WorkerRegistry → WorkerRegistry
unfolding trim_workers
handle_drop_worker_of_request env r g = elim (find? (holds r) g.workers) [
  | none ↦ g
  | some _ ↦
      trim_workers env
        (record g { workers = update_first (holds r) (on_worker (condemn g.config)) g.workers })
]

unfoldable pub handle_strike_worker_of_request : Env → ℕ → WorkerRegistry → WorkerRegistry
unfolding trim_workers
handle_strike_worker_of_request env r g = elim (find? (holds r) g.workers) [
  | none ↦ g
  | some _ ↦
      trim_workers env
        (record g { workers = update_first (holds r) (on_worker add_strike) g.workers })
]
