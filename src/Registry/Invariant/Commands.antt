-- ===== src/Registry/Invariant/Commands.antt =====
-- The event loop keeps the invariant, whatever the commands, the clocks, the channels and the
-- iteration order of the map.
use hierophant.Prelude.{
  ℕ, ◌≡◌, refl, sym, ◌∙◌, String, inl, inr, Option, arith, nat_eq, string_eq, not, Bool-cases,
  Option-cases, count_if-keep-le, find?, any,
}
use hierophant.Prelude.Dict.{lookup, has_key, has_key-insert}
use hierophant.Network.{ContemplantProofRequest, ContemplantProofStatus, ProgressUpdate, request_id}
use hierophant.Worker.{
  Env, WorkerState, is_on, completed_proof, failed_proof, add_strike, heartbeat,
}
use hierophant.Registry.{WorkerRegistry, holds, asks_for}
use hierophant.Registry.Trim.{
  trim_workers, condemn, handle_drop_worker_of_request, handle_strike_worker_of_request,
}
use hierophant.Registry.Assign.{try_assign, handle_assign_proof}
use hierophant.Registry.Join.{Registration, enroll, handle_worker_ready, handle_heartbeat}
use hierophant.Registry.Reports.{
  report_progress, on_busy, complete, free, answer, bridge_startup_race, is_unexecutable,
  free_worker_of_failed_proof, handle_proof_complete, handle_proof_progress_update,
  handle_proof_status_response,
}
use hierophant.Registry.Status.{ask_worker, ask, handle_proof_status_request}
use hierophant.Network
use hierophant.Registry.Commands
use hierophant.Registry.Commands.{
  WorkerRegistryCommand, assign_proof_request, worker_ready, proof_status_request,
  proof_status_response, proof_complete, proof_progress_update, pending_info, workers, dead_workers,
  proof_history, strike_worker_of_request, drop_worker_of_request, handle,
}
use hierophant.Registry.Invariant.{
  Inv, trim_workers-Inv, try_assign-Inv, enqueue-Inv, drain_pending-Inv, enroll-Inv, edit-Inv,
}

-- The invariant reads the workers, the queue and the waiting tasks alone.
module _ (g h : WorkerRegistry) where
  same-Inv :
      h.workers ≡ g.workers
      → h.pending_requests ≡ g.pending_requests
      → h.awaiting_proof_status_responses ≡ g.awaiting_proof_status_responses
      → Inv g
      → Inv h
  same-Inv ws ps ts v = record {
    addresses = λ a. rw ws (v.addresses a);
    tasks = λ r. rw ts (v.tasks r);
    owned_once = λ r. rw ws (v.owned_once r);
    queued_once = λ r. rw ps (v.queued_once r);
    bounded = rw ps v.bounded;
  }

pub on_busy-is_on :
    (env : Env) (u : Option ProgressUpdate) (r : ℕ) (w : WorkerState)
    → is_on r (on_busy (report_progress env u) w) ≡ is_on r w
on_busy-is_on env u r w = ground arith

module _ (env : Env) where
  assign-Inv :
      (q : ContemplantProofRequest) (g : WorkerRegistry) → Inv g → Inv (handle_assign_proof env q g)
  unfolding handle_assign_proof
  assign-Inv q g v =
      let tried = try_assign-Inv env q (trim_workers env g) (trim_workers-Inv env g v) in
      elim (Bool-cases (try_assign env q (trim_workers env g)).1) [
        | inl e ↦ rw (e, handle_assign_proof) tried
        | inr e ↦ rw (e, handle_assign_proof) (enqueue-Inv env q _ tried)
      ]

  worker_ready-Inv :
      (n : Registration) (g : WorkerRegistry) → Inv g → Inv (handle_worker_ready env n g)
  unfolding handle_worker_ready
  worker_ready-Inv n g v = drain_pending-Inv env (enroll env n g) (enroll-Inv env n g v)

  heartbeat-Inv :
      (addr : String) (s : ℕ) (g : WorkerRegistry) → Inv g → Inv (handle_heartbeat env addr s g)
  unfolding handle_heartbeat
  heartbeat-Inv addr s g v = elim (Option-cases (lookup addr g.workers)) [
    | inl e ↦ rw (e, handle_heartbeat) (same-Inv g _ refl refl refl v)
    | inr (w, e) ↦
        rw (e, handle_heartbeat)
          (same-Inv _ _ refl refl refl (edit-Inv (has_key addr) (heartbeat env) g (λ r x h. h) v))
  ]

  complete-Inv :
      (r : ℕ) (x : String × WorkerState) (g : WorkerRegistry) → Inv g → Inv (complete env r x g)
  unfolding complete
  complete-Inv r x g v =
      same-Inv _ _ refl refl refl (edit-Inv (holds r) completed_proof g (λ s y h. cc) v)

  proof_complete-Inv : (r : ℕ) (g : WorkerRegistry) → Inv g → Inv (handle_proof_complete env r g)
  unfolding handle_proof_complete
  proof_complete-Inv r g v = elim (Option-cases (find? (holds r) g.workers)) [
    | inl e ↦ rw (e, handle_proof_complete) v
    | inr (x, e) ↦
        rw (e, handle_proof_complete)
          (drain_pending-Inv env (complete env r x g) (complete-Inv r x g v))
  ]

  progress-Inv :
      (r : ℕ) (u : Option ProgressUpdate) (g : WorkerRegistry)
      → Inv g
      → Inv (handle_proof_progress_update env r u g)
  unfolding handle_proof_progress_update
  progress-Inv r u g v =
      edit-Inv (holds r) (on_busy (report_progress env u)) g
        (λ s w h. sym (on_busy-is_on env u s w) ∙ h) v

  pub free-Inv :
      (r : ℕ) (s : Option ContemplantProofStatus) (g : WorkerRegistry)
      → Inv g
      → Inv (free_worker_of_failed_proof env r s g)
  unfolding free_worker_of_failed_proof
  free-Inv r s g v = elim (Bool-cases (is_unexecutable s)) [
    | inr e ↦ rw (e, free_worker_of_failed_proof) v
    | inl e ↦ elim (Option-cases (find? (holds r) g.workers)) [
      | inl f ↦ rw (e, f, free_worker_of_failed_proof) v
      | inr (x, f) ↦
          rw (e, f, free_worker_of_failed_proof)
            (drain_pending-Inv env (free r g) (edit-Inv (holds r) failed_proof g (λ t y h. cc) v))
    ]
  ]

  answer-Inv :
      (r : ℕ) (s : Option ContemplantProofStatus) (g : WorkerRegistry) → Inv g → Inv (answer r s g)
  unfolding answer
  answer-Inv r s g v = elim (Option-cases (lookup r g.awaiting_proof_status_responses)) [
    | inl e ↦ rw (e, answer) v
    | inr (tasks, e) ↦
        rw (e, answer)
          (record {
            addresses = v.addresses;
            tasks = λ k. omega (
              arith,
              count_if-keep-le (has_key k) (λ x. not (has_key r x))
                  g.awaiting_proof_status_responses,
              v.tasks k,
            );
            owned_once = v.owned_once;
            queued_once = v.queued_once;
            bounded = v.bounded;
          })
  ]

  response-Inv :
      (r : ℕ) (s : Option ContemplantProofStatus) (g : WorkerRegistry)
      → Inv g
      → Inv (handle_proof_status_response env r s g)
  unfolding handle_proof_status_response
  response-Inv r s g v =
      answer-Inv r (bridge_startup_race env r s g) _
        (free-Inv r (bridge_startup_race env r s g) g v)

  drop-Inv : (r : ℕ) (g : WorkerRegistry) → Inv g → Inv (handle_drop_worker_of_request env r g)
  unfolding handle_drop_worker_of_request
  drop-Inv r g v = elim (Option-cases (find? (holds r) g.workers)) [
    | inl e ↦ rw (e, handle_drop_worker_of_request) v
    | inr (x, e) ↦
        rw (e, handle_drop_worker_of_request)
          (trim_workers-Inv env _ (edit-Inv (holds r) (condemn g.config) g (λ s w h. h) v))
  ]

  strike-Inv : (r : ℕ) (g : WorkerRegistry) → Inv g → Inv (handle_strike_worker_of_request env r g)
  unfolding handle_strike_worker_of_request
  strike-Inv r g v = elim (Option-cases (find? (holds r) g.workers)) [
    | inl e ↦ rw (e, handle_strike_worker_of_request) v
    | inr (x, e) ↦
        rw (e, handle_strike_worker_of_request)
          (trim_workers-Inv env _ (edit-Inv (holds r) add_strike g (λ s w h. h) v))
  ]

  ask_worker-Inv :
      (r s : ℕ) (w : WorkerState) (g : WorkerRegistry) → Inv g → Inv (ask_worker env r s w g)
  unfolding ask_worker
  ask_worker-Inv r s w g v =
      elim (Bool-cases (env.delivers w.from_hierophant_sender (Network.proof_status_request r))) [
        | inl e ↦
            rw (e, ask_worker)
              (record {
                addresses = v.addresses;
                tasks = λ k. has_key-insert r k _ g.awaiting_proof_status_responses (v.tasks k);
                owned_once = v.owned_once;
                queued_once = v.queued_once;
                bounded = v.bounded;
              })
        | inr e ↦
            rw (e, ask_worker)
              (same-Inv _ _ refl refl refl (edit-Inv (holds r) (condemn g.config) g (λ t x h. h) v))
      ]

  ask-Inv : (r s : ℕ) (g : WorkerRegistry) → Inv g → Inv (ask env r s g)
  unfolding ask
  ask-Inv r s g v = elim (Option-cases (find? (holds r) g.workers)) [
    | inr ((addr, w), e) ↦ rw (e, ask) (ask_worker-Inv r s w g v)
    | inl e ↦ elim (Bool-cases (any (asks_for r) g.pending_requests)) [
      | inl p ↦ rw (e, p, ask) (same-Inv g _ refl refl refl v)
      | inr p ↦ rw (e, p, ask) (same-Inv g _ refl refl refl v)
    ]
  ]

  -- Every command keeps the invariant.
  pub handle-Inv : (c : WorkerRegistryCommand) (g : WorkerRegistry) → Inv g → Inv (handle env c g)
  unfolding handle handle_proof_status_request
  handle-Inv (assign_proof_request q) g v = assign-Inv q g v
  handle-Inv (worker_ready n) g v = worker_ready-Inv n g v
  handle-Inv (proof_status_request r s) g v =
      ask-Inv r s (trim_workers env g) (trim_workers-Inv env g v)
  handle-Inv (proof_status_response r s) g v = response-Inv r s g v
  handle-Inv (proof_complete r) g v = proof_complete-Inv r g v
  handle-Inv (proof_progress_update r u) g v = progress-Inv r u g v
  handle-Inv (pending_info s) g v = same-Inv g _ refl refl refl v
  handle-Inv (workers s) g v = same-Inv g _ refl refl refl v
  handle-Inv (dead_workers s) g v = same-Inv g _ refl refl refl v
  handle-Inv (proof_history s) g v = same-Inv g _ refl refl refl v
  handle-Inv (Commands.heartbeat addr s) g v = heartbeat-Inv addr s g v
  handle-Inv (strike_worker_of_request r) g v = strike-Inv r g v
  handle-Inv (drop_worker_of_request r) g v = drop-Inv r g v
