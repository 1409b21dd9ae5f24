-- ===== src/Registry/Invariant/Load.antt =====
-- How many copies of a request the registry has: those being proven and those that wait.
use hierophant.Prelude.{
  ℕ, ◌+◌, ◌≤◌, ◌≡◌, sym, ◌∙◌, String, Bool, true, inl, inr, Option, [], ◌∷◌, arith, nat_eq,
  string_eq, bit, ◌==◌, ap, update_first, Option-cases, count_if, count_if-append, find?,
}
use hierophant.Prelude.Dict.{has_key}
use hierophant.Network.{ContemplantProofRequest, ContemplantProofStatus, ProgressUpdate, request_id}
use hierophant.Worker.{
  Env, WorkerState, is_on, completed_proof, failed_proof, add_strike, heartbeat,
}
use hierophant.Registry.{WorkerRegistry, holds, asks_for, on_worker}
use hierophant.Registry.Owners.{owners, queued, holds-on_worker}
use hierophant.Registry.Trim.{
  trim_workers, condemn, handle_drop_worker_of_request, handle_strike_worker_of_request,
}
use hierophant.Registry.Trim.Exact.{owners-trim_workers, trim_workers-Untouched}
use hierophant.Registry.Assign.{try_assign, enqueue, handle_assign_proof}
use hierophant.Registry.Assign.Frame.{Frame-try_assign}
use hierophant.Registry.Assign.Owners.{
  owners-try_assign, owners-try_assign_failed, owners-try_assign_once,
}
use hierophant.Registry.Drain.{drain_pending}
use hierophant.Registry.Drain.Owners.{owners-drain_pending}
use hierophant.Registry.Join.{Registration, enroll, handle_worker_ready, handle_heartbeat}
use hierophant.Registry.Join.Owners.{owners-enroll, enroll-Untouched}
use hierophant.Registry.Reports.{
  report_progress, on_busy, complete, free, answer, bridge_startup_race,
  free_worker_of_failed_proof, handle_proof_complete, handle_proof_progress_update,
  handle_proof_status_response,
}
use hierophant.Registry.Status.{ask_worker, ask, handle_proof_status_request}
use hierophant.Registry.Commands
use hierophant.Registry.Commands.{
  WorkerRegistryCommand, assign_proof_request, worker_ready, proof_status_request,
  proof_status_response, proof_complete, proof_progress_update, pending_info, workers, dead_workers,
  proof_history, strike_worker_of_request, drop_worker_of_request, handle,
}
use hierophant.Registry.Invariant.{Inv}
use hierophant.Registry.Invariant.Commands.{on_busy-is_on}

abbrev pub load : ℕ → WorkerRegistry → ℕ
load r g = owners r g + queued r g

-- The command asks for no proof that is already in the queue. Request ids are drawn at random, one
-- for each assignment.
abbrev pub IsFresh : WorkerRegistryCommand → WorkerRegistry → Type 0
IsFresh (assign_proof_request q) g = queued (request_id q) g ≡ 0
IsFresh _ g = Unit {0}

module _ (r : ℕ) (env : Env) where
  load-trim_workers : (g : WorkerRegistry) → load r (trim_workers env g) ≤ load r g
  load-trim_workers g =
      rw (trim_workers-Untouched env g).pending (omega (arith, owners-trim_workers env r g))

  queued-try_assign :
      (q : ContemplantProofRequest) (g : WorkerRegistry)
      → queued r (try_assign env q g).0 ≡ queued r g
  queued-try_assign q g = rw (Frame-try_assign env q g).pending

  load-enqueue :
      (q : ContemplantProofRequest) (g : WorkerRegistry)
      → load r (enqueue env q g) ≤ load r g + bit (request_id q == r)
  unfolding enqueue
  load-enqueue q g =
      ground (arith, count_if-append (asks_for r) g.pending_requests ((q, env.now) ∷ []))

  load-assign :
      (q : ContemplantProofRequest) (g : WorkerRegistry)
      → queued (request_id q) g ≡ 0
      → Inv g
      → load r g ≤ 1
      → load r (handle_assign_proof env q g) ≤ 1
  unfolding handle_assign_proof
  load-assign q g fresh v h = ground (
    arith,
    load-trim_workers g,
    trim_workers-Untouched env g,
    v.owned_once r,
    owners-trim_workers env r g,
    queued-try_assign q (trim_workers env g),
    owners-try_assign r env q (trim_workers env g),
    owners-try_assign_once r env q (trim_workers env g),
    owners-try_assign_failed env q (trim_workers env g),
    load-enqueue q (try_assign env q (trim_workers env g)).0,
  )

  load-drain_pending : (g : WorkerRegistry) → load r (drain_pending env g) ≤ load r g
  load-drain_pending g = owners-drain_pending env g r

  load-edit :
      (p : String × WorkerState → Bool) (f : WorkerState → WorkerState) (g : WorkerRegistry)
      → ((w : WorkerState) → is_on r (f w) ≡ true → is_on r w ≡ true)
      → load r (record g { workers = update_first p (on_worker f) g.workers }) ≤ load r g
  load-edit p f g same = omega (arith, holds-on_worker r f same p g.workers)

  load-worker_ready :
      (n : Registration) (g : WorkerRegistry) → load r (handle_worker_ready env n g) ≤ load r g
  unfolding handle_worker_ready
  load-worker_ready n g = omega (
    arith,
    load-drain_pending (enroll env n g),
    owners-enroll env n g r,
    ap (count_if (asks_for r)) (enroll-Untouched env n g).pending,
  )

  load-heartbeat :
      (addr : String) (s : ℕ) (g : WorkerRegistry)
      → load r (handle_heartbeat env addr s g) ≤ load r g
  unfolding handle_heartbeat
  load-heartbeat addr s g = ground (arith, load-edit (has_key addr) (heartbeat env) g (λ w h. h))

  load-proof_complete :
      (k : ℕ) (g : WorkerRegistry) → load r (handle_proof_complete env k g) ≤ load r g
  unfolding handle_proof_complete
  load-proof_complete k g = elim (Option-cases (find? (holds k) g.workers)) [
    | inl e ↦ rw (e, handle_proof_complete) (omega arith)
    | inr (x, e) ↦
        rw (e, handle_proof_complete)
          (unfold complete in
            omega (
              arith,
              load-drain_pending (complete env k x g),
              load-edit (holds k) completed_proof g (λ w h. cc),
            ))
  ]

  load-progress :
      (k : ℕ) (u : Option ProgressUpdate) (g : WorkerRegistry)
      → load r (handle_proof_progress_update env k u g) ≤ load r g
  unfolding handle_proof_progress_update
  load-progress k u g =
      load-edit (holds k) (on_busy (report_progress env u)) g
        (λ w h. sym (on_busy-is_on env u r w) ∙ h)

  load-free :
      (k : ℕ) (s : Option ContemplantProofStatus) (g : WorkerRegistry)
      → load r (free_worker_of_failed_proof env k s g) ≤ load r g
  unfolding free_worker_of_failed_proof
  load-free k s g =
      ground (arith, load-drain_pending (free k g), load-edit (holds k) failed_proof g (λ w h. cc))

  load-answer :
      (k : ℕ) (s : Option ContemplantProofStatus) (g : WorkerRegistry)
      → load r (answer k s g) ≤ load r g
  unfolding answer
  load-answer k s g = ground arith

  load-response :
      (k : ℕ) (s : Option ContemplantProofStatus) (g : WorkerRegistry)
      → load r (handle_proof_status_response env k s g) ≤ load r g
  unfolding handle_proof_status_response
  load-response k s g =
      let s' = bridge_startup_race env k s g in
      omega (arith, load-answer k s' (free_worker_of_failed_proof env k s' g), load-free k s' g)

  load-drop :
      (k : ℕ) (g : WorkerRegistry) → load r (handle_drop_worker_of_request env k g) ≤ load r g
  unfolding handle_drop_worker_of_request
  load-drop k g = elim (Option-cases (find? (holds k) g.workers)) [
    | inl e ↦ rw (e, handle_drop_worker_of_request) (omega arith)
    | inr (x, e) ↦
        rw (e, handle_drop_worker_of_request)
          (omega (
            arith,
            load-trim_workers (record g {
              workers = update_first (holds k) (on_worker (condemn g.config)) g.workers;
            }),
            load-edit (holds k) (condemn g.config) g (λ w h. h),
          ))
  ]

  load-strike :
      (k : ℕ) (g : WorkerRegistry) → load r (handle_strike_worker_of_request env k g) ≤ load r g
  unfolding handle_strike_worker_of_request
  load-strike k g = elim (Option-cases (find? (holds k) g.workers)) [
    | inl e ↦ rw (e, handle_strike_worker_of_request) (omega arith)
    | inr (x, e) ↦
        rw (e, handle_strike_worker_of_request)
          (omega (
            arith,
            load-trim_workers
                (record g { workers = update_first (holds k) (on_worker add_strike) g.workers }),
            load-edit (holds k) add_strike g (λ w h. h),
          ))
  ]

  load-ask : (k s : ℕ) (g : WorkerRegistry) → load r (ask env k s g) ≤ load r g
  unfolding ask
  load-ask k s g = elim (Option-cases (find? (holds k) g.workers)) [
    | inl e ↦ rw (e, ask) (ground arith)
    | inr ((addr, w), e) ↦
        rw (e, ask)
          (unfold ask_worker in ground (arith, load-edit (holds k) (condemn g.config) g (λ v h. h)))
  ]

  -- No command but an assignment adds a copy of a request, and an assignment of a request that is
  -- not queued leaves at most one.
  pub load-handle :
      (c : WorkerRegistryCommand) (g : WorkerRegistry)
      → IsFresh c g
      → Inv g
      → load r g ≤ 1
      → load r (handle env c g) ≤ 1
  unfolding handle handle_proof_status_request
  load-handle (assign_proof_request q) g f v h = load-assign q g f v h
  load-handle (worker_ready n) g f v h = omega (arith, load-worker_ready n g)
  load-handle (proof_status_request k s) g f v h =
      omega (arith, load-ask k s (trim_workers env g), load-trim_workers g)
  load-handle (proof_status_response k s) g f v h = omega (arith, load-response k s g)
  load-handle (proof_complete k) g f v h = omega (arith, load-proof_complete k g)
  load-handle (proof_progress_update k u) g f v h = omega (arith, load-progress k u g)
  load-handle (pending_info s) g f v h = h
  load-handle (workers s) g f v h = h
  load-handle (dead_workers s) g f v h = h
  load-handle (proof_history s) g f v h = h
  load-handle (Commands.heartbeat addr s) g f v h = omega (arith, load-heartbeat addr s g)
  load-handle (strike_worker_of_request k) g f v h = omega (arith, load-strike k g)
  load-handle (drop_worker_of_request k) g f v h = omega (arith, load-drop k g)
