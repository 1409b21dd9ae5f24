-- ===== src/Registry/Invariant.antt =====
-- The registry's invariant, and that the pieces of the handlers keep it.
pub mod Commands
pub mod Load
use hierophant.Prelude.{
  ℕ, zero, suc, ◌+◌, ◌≤◌, ◌≡◌, refl, String, Bool, true, false, List, [], ◌∷◌, ◌++◌, arith,
  string_eq, nat_eq, count_if, length, count_if-append, count_if_zero_of_not_any, length-append,
  bit, ◌==◌, update_first, any,
}
use hierophant.Prelude.Dict.{has_key, has_key-insert}
use hierophant.Network.{ContemplantProofRequest, request_id}
use hierophant.Worker.{Env, WorkerState, is_on}
use hierophant.Registry.{WorkerRegistry, asks_for, on_worker, pending_queue_cap}
use hierophant.Registry.Owners.{owners, queued, entries, holds-on_worker, entries-on_worker}
use hierophant.Registry.Trim.{trim_workers}
use hierophant.Registry.Trim.Exact.{
  owners-trim_workers, entries-trim_workers, trim_workers-Untouched,
}
use hierophant.Registry.Assign.{try_assign, enqueue, handle_assign_proof}
use hierophant.Registry.Assign.Frame.{Frame-try_assign}
use hierophant.Registry.Assign.Owners.{owners-try_assign_once}
use hierophant.Registry.Drain.{drain_pending}
use hierophant.Registry.Drain.Owners.{
  owners-drain_pending_once, queued-drain_pending, length-drain_pending, Frame-drain_pending,
}
use hierophant.Registry.Join.{Registration, enroll}
use hierophant.Registry.Join.Owners.{owners-enroll, entries-enroll, enroll-Untouched}

pub record Inv (g : WorkerRegistry) : Type 0 where
  -- a map has one entry for a key
  pub addresses : (a : String) → entries a g.workers ≤ 1
  pub tasks : (r : ℕ) → count_if (has_key r) g.awaiting_proof_status_responses ≤ 1
  -- no request is being proven by two workers, and none waits twice
  pub owned_once : (r : ℕ) → owners r g ≤ 1
  pub queued_once : (r : ℕ) → queued r g ≤ 1
  pub bounded : length g.pending_requests ≤ pending_queue_cap

module _ (env : Env) where
  pub trim_workers-Inv : (g : WorkerRegistry) → Inv g → Inv (trim_workers env g)
  trim_workers-Inv g v = record {
    addresses = λ a. omega (arith, entries-trim_workers env a g, v.addresses a);
    tasks = λ r. rw (trim_workers-Untouched env g).awaiting (v.tasks r);
    owned_once = λ r. omega (arith, owners-trim_workers env r g, v.owned_once r);
    queued_once = λ r. rw (trim_workers-Untouched env g).pending (v.queued_once r);
    bounded = rw (trim_workers-Untouched env g).pending v.bounded;
  }

  pub try_assign-Inv :
      (q : ContemplantProofRequest) (g : WorkerRegistry) → Inv g → Inv (try_assign env q g).0
  try_assign-Inv q g v = record {
    addresses = λ a. omega (arith, (Frame-try_assign env q g).addresses a, v.addresses a);
    tasks = λ r. rw (Frame-try_assign env q g).awaiting (v.tasks r);
    owned_once = λ r. owners-try_assign_once r env q g (v.owned_once r);
    queued_once = λ r. rw (Frame-try_assign env q g).pending (v.queued_once r);
    bounded = rw (Frame-try_assign env q g).pending v.bounded;
  }

  queued-enqueue :
      (r : ℕ) (q : ContemplantProofRequest) (g : WorkerRegistry)
      → queued r g ≤ 1
      → queued r (enqueue env q g) ≤ 1
  unfolding enqueue
  queued-enqueue r q g h = ground (
    arith,
    count_if_zero_of_not_any (asks_for (request_id q)) g.pending_requests,
    count_if-append (asks_for r) g.pending_requests ((q, env.now) ∷ []),
  )

  length-enqueue :
      (q : ContemplantProofRequest) (g : WorkerRegistry)
      → length g.pending_requests ≤ pending_queue_cap
      → length (enqueue env q g).pending_requests ≤ pending_queue_cap
  unfolding enqueue
  length-enqueue q g h = ground (arith, length-append g.pending_requests ((q, env.now) ∷ []))

  pub enqueue-Inv :
      (q : ContemplantProofRequest) (g : WorkerRegistry) → Inv g → Inv (enqueue env q g)
  enqueue-Inv q g v = record {
    addresses = λ a. unfold enqueue in ground (arith, v.addresses a);
    tasks = λ r. unfold enqueue in ground (arith, v.tasks r);
    owned_once = λ r. unfold enqueue in ground (arith, v.owned_once r);
    queued_once = λ r. queued-enqueue r q g (v.queued_once r);
    bounded = length-enqueue q g v.bounded;
  }

  pub drain_pending-Inv : (g : WorkerRegistry) → Inv g → Inv (drain_pending env g)
  drain_pending-Inv g v = record {
    addresses = λ a. omega (arith, (Frame-drain_pending env g).addresses a, v.addresses a);
    tasks = λ r. rw (Frame-drain_pending env g).awaiting (v.tasks r);
    owned_once = λ r. owners-drain_pending_once env g r (v.owned_once r);
    queued_once = λ r. omega (arith, queued-drain_pending env g r, v.queued_once r);
    bounded = omega (arith, length-drain_pending env g, v.bounded);
  }

  pub enroll-Inv : (n : Registration) (g : WorkerRegistry) → Inv g → Inv (enroll env n g)
  enroll-Inv n g v = record {
    addresses = λ a. entries-enroll env n g a (v.addresses a);
    tasks = λ r. rw (enroll-Untouched env n g).awaiting (v.tasks r);
    owned_once = λ r. omega (arith, owners-enroll env n g r, v.owned_once r);
    queued_once = λ r. rw (enroll-Untouched env n g).pending (v.queued_once r);
    bounded = rw (enroll-Untouched env n g).pending v.bounded;
  }

-- An edit of one worker that puts nobody on a request.
pub edit-Inv :
    (p : String × WorkerState → Bool) (f : WorkerState → WorkerState) (g : WorkerRegistry)
    → ((r : ℕ) (w : WorkerState) → is_on r (f w) ≡ true → is_on r w ≡ true)
    → Inv g
    → Inv (record g { workers = update_first p (on_worker f) g.workers })
edit-Inv p f g same v = record {
  addresses = λ a. omega (arith, entries-on_worker a f p g.workers, v.addresses a);
  tasks = v.tasks;
  owned_once = λ r. omega (arith, holds-on_worker r f (same r) p g.workers, v.owned_once r);
  queued_once = v.queued_once;
  bounded = v.bounded;
}
