-- ===== src/Registry/Reports.antt =====
-- What contemplants report: progress, completion, and the answers to status requests.
use hierophant.Prelude.{
  String, nat_eq, ℕ, Bool, false, not, ◌==◌, Option, none, some, List, [], ◌∷◌, ◌++◌, find?,
  update_first, ltb, if◌then◌else◌, map,
}
use hierophant.Prelude.Dict.{lookup, remove}
use hierophant.Network.{
  ProgressUpdate, progress_gt, ContemplantProofStatus, unexecuted_status, execution_code,
  unexecutable,
}
use hierophant.Worker.{
  Env, RegistryConfig, WorkerState, WorkerStatus, Busy, idle, busy, elapsed, from_secs,
  completed_proof, failed_proof,
}
use hierophant.Registry.{holds, on_worker, WorkerRegistry, CompletedProofInfo, status_reply}
use hierophant.Registry.Drain.{drain_pending}

abbrev pub report_progress : Env → Option ProgressUpdate → Busy → Busy
report_progress env none j = record j { time_of_last_update = env.system_now }
report_progress env (some u) j =
    if progress_gt (some u) j.progress
    then record j { progress = some u; time_of_last_update = env.system_now }
    else j

abbrev pub on_busy : (Busy → Busy) → WorkerState → WorkerState
on_busy f w = record w { status = elim w.status [ idle ↦ idle | busy j ↦ busy (f j) ] }

unfoldable pub handle_proof_progress_update :
    Env → ℕ → Option ProgressUpdate → WorkerRegistry → WorkerRegistry
handle_proof_progress_update env r update g = record g {
  workers = update_first (holds r) (on_worker (on_busy (report_progress env update))) g.workers;
}

-- The entry of the history for the worker that was found.
abbrev pub history_entry : Env → String × WorkerState → List CompletedProofInfo
history_entry env (addr, w) = elim w.status [
  | idle ↦ []
  | busy j ↦
      record {
        proof_request_id = j.request_id;
        vm = j.vm;
        proof_mode = j.mode_name;
        worker_addr = addr;
        worker_name = w.name;
        time_to_complete = elapsed env j.start_time;
      }
      ∷ []
]

-- Before the queue is drained.
unfoldable pub complete : Env → ℕ → String × WorkerState → WorkerRegistry → WorkerRegistry
complete env r found g = record g {
  workers = update_first (holds r) (on_worker completed_proof) g.workers;
  proof_history = g.proof_history ++ history_entry env found;
}

unfoldable pub handle_proof_complete : Env → ℕ → WorkerRegistry → WorkerRegistry
unfolding complete drain_pending
handle_proof_complete env r g = elim (find? (holds r) g.workers) [
  | none ↦ g
  | some found ↦ drain_pending env (complete env r found g)
]

abbrev pub in_grace : Env → RegistryConfig → WorkerStatus → Bool
in_grace env c idle = false
in_grace env c (busy j) = ltb (elapsed env j.start_time) (from_secs c.assignment_startup_grace_secs)

unfoldable pub bridge_startup_race :
    Env → ℕ → Option ContemplantProofStatus → WorkerRegistry → Option ContemplantProofStatus
bridge_startup_race env r (some s) g = some s
bridge_startup_race env r none g = elim (find? (holds r) g.workers) [
  | none ↦ none
  | some (addr, w) ↦ if in_grace env g.config w.status then some unexecuted_status else none
]

abbrev pub is_unexecutable : Option ContemplantProofStatus → Bool
is_unexecutable none = false
is_unexecutable (some s) = s.execution_status == execution_code unexecutable

-- Before the queue is drained.
abbrev pub free : ℕ → WorkerRegistry → WorkerRegistry
free r g = record g { workers = update_first (holds r) (on_worker failed_proof) g.workers }

unfoldable pub free_worker_of_failed_proof :
    Env → ℕ → Option ContemplantProofStatus → WorkerRegistry → WorkerRegistry
unfolding drain_pending
free_worker_of_failed_proof env r s g =
    if not (is_unexecutable s)
    then g
    else elim (find? (holds r) g.workers) [ none ↦ g | some _ ↦ drain_pending env (free r g) ]

-- The tasks that wait for this status are answered, and wait no longer.
unfoldable pub answer : ℕ → Option ContemplantProofStatus → WorkerRegistry → WorkerRegistry
answer r s g = elim (lookup r g.awaiting_proof_status_responses) [
  | none ↦ g
  | some tasks ↦ record g {
    awaiting_proof_status_responses = remove r g.awaiting_proof_status_responses;
    effects = g.effects ++ map (λ sender. status_reply sender s) tasks;
  }
]

unfoldable pub handle_proof_status_response :
    Env → ℕ → Option ContemplantProofStatus → WorkerRegistry → WorkerRegistry
unfolding bridge_startup_race free_worker_of_failed_proof answer
handle_proof_status_response env r s g =
    let s' = bridge_startup_race env r s g in answer r s' (free_worker_of_failed_proof env r s' g)
