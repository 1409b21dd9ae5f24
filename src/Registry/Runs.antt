-- ===== src/Registry/Runs.antt =====
-- Every history of the event loop: commands in any order, at any time, over any network.
use mathlib.Core.List.{Permᴰ}
use hierophant.Prelude.{ℕ, ◌≤◌, arith, count_if-perm}
use hierophant.Prelude.Dict.{has_key}
use hierophant.Prelude.{string_eq}
use hierophant.Worker.{Env, RegistryConfig}
use hierophant.Registry.{WorkerRegistry, Workers, init, holds}
use hierophant.Registry.Commands.{WorkerRegistryCommand, handle}
use hierophant.Registry.Invariant.{Inv}
use hierophant.Registry.Invariant.Commands.{handle-Inv}
use hierophant.Registry.Invariant.Load.{load, IsFresh, load-handle}

-- The registry that `WorkerRegistryClient::new` starts, after some commands. Between two of them
-- the map may present its entries in another order.
pub data Run (c : RegistryConfig) : WorkerRegistry → Type 0 where
  started : Run c (init c)
  command :
      {g : WorkerRegistry} (env : Env) (cmd : WorkerRegistryCommand)
      → Run c g
      → Run c (handle env cmd g)
  reordered :
      {g : WorkerRegistry} (ws : Workers)
      → Permᴰ g.workers ws
      → Run c g
      → Run c (record g { workers = ws })

-- A run in which no proof is asked for while it is in the queue.
pub data FreshRun (c : RegistryConfig) : WorkerRegistry → Type 0 where
  started : FreshRun c (init c)
  command :
      {g : WorkerRegistry} (env : Env) (cmd : WorkerRegistryCommand)
      → IsFresh cmd g
      → FreshRun c g
      → FreshRun c (handle env cmd g)
  reordered :
      {g : WorkerRegistry} (ws : Workers)
      → Permᴰ g.workers ws
      → FreshRun c g
      → FreshRun c (record g { workers = ws })

init-Inv : (c : RegistryConfig) → Inv (init c)
init-Inv c = record {
  addresses = λ a. omega arith;
  tasks = λ r. omega arith;
  owned_once = λ r. omega arith;
  queued_once = λ r. omega arith;
  bounded = omega arith;
}

reorder-Inv :
    (g : WorkerRegistry) (ws : Workers)
    → Permᴰ g.workers ws
    → Inv g
    → Inv (record g { workers = ws })
reorder-Inv g ws p v = record {
  addresses = λ a. omega (arith, count_if-perm (has_key a) p, v.addresses a);
  tasks = v.tasks;
  owned_once = λ r. omega (arith, count_if-perm (holds r) p, v.owned_once r);
  queued_once = v.queued_once;
  bounded = v.bounded;
}

-- In every history of the registry each address has at most one entry and each request at most one
-- list of waiting tasks, no request is being proven by two workers or queued twice, and the queue
-- holds at most 64 requests.
pub Run-Inv : {c : RegistryConfig} {g : WorkerRegistry} → Run c g → Inv g
Run-Inv {c} Run.started = init-Inv c
Run-Inv (Run.command {g = g} env cmd run) = handle-Inv env cmd g (Run-Inv run)
Run-Inv (Run.reordered {g = g} ws p run) = reorder-Inv g ws p (Run-Inv run)

forget : {c : RegistryConfig} {g : WorkerRegistry} → FreshRun c g → Run c g
forget FreshRun.started = Run.started
forget (FreshRun.command env cmd f run) = Run.command env cmd (forget run)
forget (FreshRun.reordered ws p run) = Run.reordered ws p (forget run)

-- Where no proof is asked for while it is in the queue, there is never more than one copy of a
-- request: it waits once, or one worker proves it.
pub FreshRun-load : {c : RegistryConfig} {g : WorkerRegistry} (r : ℕ) → FreshRun c g → load r g ≤ 1
FreshRun-load r FreshRun.started = omega arith
FreshRun-load r (FreshRun.command {g = g} env cmd f run) =
    load-handle r env cmd g f (Run-Inv (forget run)) (FreshRun-load r run)
FreshRun-load r (FreshRun.reordered ws p run) =
    omega (arith, count_if-perm (holds r) p, FreshRun-load r run)
