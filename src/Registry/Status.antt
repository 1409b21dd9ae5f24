-- ===== src/Registry/Status.antt =====
-- A client's question after a proof: `handle_proof_status_request`.
pub mod Heard
pub mod Once
use hierophant.Prelude.{
  nat_eq, ℕ, none, some, List, [], ◌∷◌, ◌++◌, find?, any, update_first, if◌then◌else◌,
}
use hierophant.Prelude.Dict.{lookup, insert}
use hierophant.Network.{unexecuted_status, proof_status_request}
use hierophant.Worker.{Env, WorkerState}
use hierophant.Registry.{holds, on_worker, asks_for, WorkerRegistry, message, status_reply, emit}
use hierophant.Registry.Trim.{trim_workers, condemn}

-- `entry(r).or_default().push(sender)`
abbrev pub push_task : ℕ → ℕ → List (ℕ × List ℕ) → List (ℕ × List ℕ)
push_task r sender m =
    insert r (elim (lookup r m) [ none ↦ [] | some tasks ↦ tasks ] ++ sender ∷ []) m

-- The worker that has the proof is asked, and the task waits for its answer.
unfoldable pub ask_worker : Env → ℕ → ℕ → WorkerState → WorkerRegistry → WorkerRegistry
ask_worker env r sender w g =
    if env.delivers w.from_hierophant_sender (proof_status_request r)
    then record g {
      effects = g.effects ++ message w.from_hierophant_sender (proof_status_request r) ∷ [];
      awaiting_proof_status_responses = push_task r sender g.awaiting_proof_status_responses;
    }
    else emit (status_reply sender none)
        (record g { workers = update_first (holds r) (on_worker (condemn g.config)) g.workers })

-- After the eviction of dead workers.
unfoldable pub ask : Env → ℕ → ℕ → WorkerRegistry → WorkerRegistry
unfolding ask_worker
ask env r sender g = elim (find? (holds r) g.workers) [
  | none ↦
      if any (asks_for r) g.pending_requests
      then emit (status_reply sender (some unexecuted_status)) g
      else emit (status_reply sender none) g
  | some (addr, w) ↦ ask_worker env r sender w g
]

unfoldable pub handle_proof_status_request : Env → ℕ → ℕ → WorkerRegistry → WorkerRegistry
unfolding trim_workers ask
handle_proof_status_request env r sender g = ask env r sender (trim_workers env g)
