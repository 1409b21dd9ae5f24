-- ===== src/Registry/Status/Once.antt =====
-- Every question after a proof is answered once or still waits, in every history.
use hierophant.Prelude.{
  ℕ, ◌+◌, ◌≤◌, ◌≡◌, refl, ◌∙◌, String, true, false, Option, none, some, [], ◌∷◌, map, arith,
  string_eq, nat_eq, count_if, count_if-append, bit, ◌==◌, Bool-cases, Option-cases, inl, inr, any,
  find?, length,
}
use hierophant.Prelude.Dict.{lookup, has_key}
use hierophant.Network
use hierophant.Network.{ContemplantProofRequest, ContemplantProofStatus}
use hierophant.Worker.{Env, WorkerState, RegistryConfig}
use hierophant.Registry.{
  WorkerRegistry, message, status_reply, heartbeat_reply, pending_reply, workers_reply,
  history_reply, holds, asks_for, emit,
}
use hierophant.Registry.Trim.{
  trim_workers, handle_drop_worker_of_request, handle_strike_worker_of_request,
}
use hierophant.Registry.Assign.{enqueue, handle_assign_proof}
use hierophant.Registry.Join.{
  Registration, enroll, supersede, stale_key, take_over, handle_worker_ready, handle_heartbeat,
}
use hierophant.Registry.Reports.{
  handle_proof_progress_update, complete, handle_proof_complete, bridge_startup_race, free,
  free_worker_of_failed_proof, answer, handle_proof_status_response,
}
use hierophant.Registry.Status.{ask_worker, ask, handle_proof_status_request}
use hierophant.Registry.Status.Heard.{
  is_reply, heard, waits-push_task, waits-remove, replies-map, heard-trim_workers, heard-try_assign,
  heard-drain_pending,
}
use hierophant.Registry.Commands
use hierophant.Registry.Commands.{
  WorkerRegistryCommand, assign_proof_request, worker_ready, proof_status_request,
  proof_status_response, proof_complete, proof_progress_update, pending_info, workers, dead_workers,
  proof_history, strike_worker_of_request, drop_worker_of_request, handle, oldest_secs,
}
use hierophant.Registry.Invariant.{Inv}
use hierophant.Registry.Invariant.Commands.{free-Inv}
use hierophant.Registry.Runs.{Run, Run-Inv}

module _ (s : ℕ) (env : Env) where
  heard-assign :
      (q : ContemplantProofRequest) (g : WorkerRegistry)
      → heard s (handle_assign_proof env q g) ≡ heard s g
  unfolding handle_assign_proof enqueue
  heard-assign q g =
      ground (arith, heard-try_assign s env q (trim_workers env g), heard-trim_workers s env g)

  heard-enroll : (n : Registration) (g : WorkerRegistry) → heard s (enroll env n g) ≡ heard s g
  unfolding enroll supersede take_over
  heard-enroll n g = elim (Option-cases (stale_key n g.workers)) [
    | inl e ↦ rw (e, enroll, supersede) refl
    | inr (k, e) ↦ rw (e, enroll, supersede) refl
  ]

  heard-worker_ready :
      (n : Registration) (g : WorkerRegistry) → heard s (handle_worker_ready env n g) ≡ heard s g
  unfolding handle_worker_ready
  heard-worker_ready n g = heard-drain_pending s env (enroll env n g) ∙ heard-enroll n g

  heard-heartbeat :
      (a : String) (t : ℕ) (g : WorkerRegistry) → heard s (handle_heartbeat env a t g) ≡ heard s g
  unfolding handle_heartbeat
  heard-heartbeat a t g = ground (
    arith,
    count_if-append (is_reply s) g.effects (heartbeat_reply t true ∷ []),
    count_if-append (is_reply s) g.effects (heartbeat_reply t false ∷ []),
  )

  heard-proof_complete :
      (r : ℕ) (g : WorkerRegistry) → heard s (handle_proof_complete env r g) ≡ heard s g
  unfolding handle_proof_complete complete
  heard-proof_complete r g = elim (Option-cases (find? (holds r) g.workers)) [
    | inl e ↦ rw (e, handle_proof_complete) refl
    | inr (x, e) ↦ rw (e, handle_proof_complete) (heard-drain_pending s env (complete env r x g))
  ]

  heard-free :
      (r : ℕ) (o : Option ContemplantProofStatus) (g : WorkerRegistry)
      → heard s (free_worker_of_failed_proof env r o g) ≡ heard s g
  unfolding free_worker_of_failed_proof
  heard-free r o g = ground (arith, heard-drain_pending s env (free r g))

  heard-answer :
      (r : ℕ) (o : Option ContemplantProofStatus) (g : WorkerRegistry)
      → count_if (has_key r) g.awaiting_proof_status_responses ≤ 1
      → heard s (answer r o g) ≡ heard s g
  unfolding answer
  heard-answer r o g u = elim (Option-cases (lookup r g.awaiting_proof_status_responses)) [
    | inl e ↦ rw (e, answer) refl
    | inr (tasks, e) ↦
        rw (e, answer)
          (omega (
            arith,
            count_if-append (is_reply s) g.effects (map (λ t. status_reply t o) tasks),
            replies-map s o tasks,
            waits-remove s r tasks g.awaiting_proof_status_responses u e,
          ))
  ]

  heard-drop :
      (r : ℕ) (g : WorkerRegistry) → heard s (handle_drop_worker_of_request env r g) ≡ heard s g
  unfolding handle_drop_worker_of_request
  heard-drop r g = elim (Option-cases (find? (holds r) g.workers)) [
    | inl e ↦ rw (e, handle_drop_worker_of_request) refl
    | inr (x, e) ↦ rw (e, handle_drop_worker_of_request) (heard-trim_workers s env _)
  ]

  heard-strike :
      (r : ℕ) (g : WorkerRegistry) → heard s (handle_strike_worker_of_request env r g) ≡ heard s g
  unfolding handle_strike_worker_of_request
  heard-strike r g = elim (Option-cases (find? (holds r) g.workers)) [
    | inl e ↦ rw (e, handle_strike_worker_of_request) refl
    | inr (x, e) ↦ rw (e, handle_strike_worker_of_request) (heard-trim_workers s env _)
  ]

  heard-reply :
      (t : ℕ) (o : Option ContemplantProofStatus) (g : WorkerRegistry)
      → heard s (emit (status_reply t o) g) ≡ heard s g + bit (t == s)
  heard-reply t o g = omega (arith, count_if-append (is_reply s) g.effects (status_reply t o ∷ []))

  heard-ask_worker :
      (r t : ℕ) (w : WorkerState) (g : WorkerRegistry)
      → heard s (ask_worker env r t w g) ≡ heard s g + bit (t == s)
  unfolding ask_worker
  heard-ask_worker r t w g = ground (
    arith,
    count_if-append (is_reply s) g.effects
        (message w.from_hierophant_sender (Network.proof_status_request r) ∷ []),
    count_if-append (is_reply s) g.effects (status_reply t none ∷ []),
    waits-push_task s r t g.awaiting_proof_status_responses,
  )

  heard-ask : (r t : ℕ) (g : WorkerRegistry) → heard s (ask env r t g) ≡ heard s g + bit (t == s)
  unfolding ask
  heard-ask r t g = elim (Option-cases (find? (holds r) g.workers)) [
    | inl e ↦
        rw (e, ask)
          (elim (Bool-cases (any (asks_for r) g.pending_requests)) [
            | inl q ↦ rw q (heard-reply t (some Network.unexecuted_status) g)
            | inr q ↦ rw q (heard-reply t none g)
          ])
    | inr (x, e) ↦ rw (e, ask) (heard-ask_worker r t x.1 g)
  ]

  -- Whether the command is a question of this task.
  abbrev pub asked : WorkerRegistryCommand → ℕ
  asked (proof_status_request r t) = bit (t == s)
  asked c = 0

  heard-response :
      (r : ℕ) (o : Option ContemplantProofStatus) (g : WorkerRegistry)
      → Inv g
      → heard s (handle_proof_status_response env r o g) ≡ heard s g
  unfolding handle_proof_status_response
  heard-response r o g u =
      let o' = bridge_startup_race env r o g in
      heard-answer r o' (free_worker_of_failed_proof env r o' g) ((free-Inv env r o' g u).tasks r)
      ∙ heard-free r o' g

  heard-handle :
      (c : WorkerRegistryCommand) (g : WorkerRegistry)
      → Inv g
      → heard s (handle env c g) ≡ heard s g + asked c
  unfolding handle handle_proof_status_request handle_proof_progress_update
  heard-handle (assign_proof_request q) g v = omega (arith, heard-assign q g)
  heard-handle (worker_ready n) g v = omega (arith, heard-worker_ready n g)
  heard-handle (proof_status_request r t) g v =
      omega (arith, heard-ask r t (trim_workers env g), heard-trim_workers s env g)
  heard-handle (proof_status_response r o) g v = omega (arith, heard-response r o g v)
  heard-handle (proof_complete r) g v = omega (arith, heard-proof_complete r g)
  heard-handle (proof_progress_update r u) g v = omega arith
  heard-handle (pending_info t) g v = omega (
    arith,
    count_if-append (is_reply s) g.effects
        (pending_reply t (length g.pending_requests) (oldest_secs env g.pending_requests) ∷ []),
  )
  heard-handle (workers t) g v =
      omega (arith, count_if-append (is_reply s) g.effects (workers_reply t g.workers ∷ []))
  heard-handle (dead_workers t) g v =
      omega (arith, count_if-append (is_reply s) g.effects (workers_reply t g.dead_workers ∷ []))
  heard-handle (proof_history t) g v =
      omega (arith, count_if-append (is_reply s) g.effects (history_reply t g.proof_history ∷ []))
  heard-handle (Commands.heartbeat a t) g v = omega (arith, heard-heartbeat a t g)
  heard-handle (strike_worker_of_request r) g v = omega (arith, heard-strike r g)
  heard-handle (drop_worker_of_request r) g v = omega (arith, heard-drop r g)

-- How often the task asked in a history.
abbrev pub asked_in : {c : RegistryConfig} {g : WorkerRegistry} → ℕ → Run c g → ℕ
asked_in s Run.started = 0
asked_in s (Run.command env cmd run) = asked s env cmd + asked_in s run
asked_in s (Run.reordered ws p run) = asked_in s run

-- In every history of the registry, the answers that a task was sent after asking for the status of
-- proofs, and the places in which it waits for an answer, are together as many as its questions: a
-- task that asks once is never forgotten, and never answered twice.
pub heard_lem :
    {c : RegistryConfig} {g : WorkerRegistry} (s : ℕ) (run : Run c g) → heard s g ≡ asked_in s run
heard_lem s Run.started = refl
heard_lem s (Run.command {g = g} env cmd run) =
    omega (arith, heard-handle s env cmd g (Run-Inv run), heard_lem s run)
heard_lem s (Run.reordered ws p run) = heard_lem s run
