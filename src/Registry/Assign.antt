-- ===== src/Registry/Assign.antt =====
-- Assignment: `try_assign` and `handle_assign_proof`.
pub mod Owners
pub mod Frame
pub mod Outcome
pub mod Chosen
pub mod Accepted
pub mod Busy
use hierophant.Prelude.{
  string_eq, ℕ, String, Bool, true, false, not, ◌&&◌, Option, none, some, List, [], ◌∷◌, ◌++◌, map,
  any, keep, length, leb, ◌==◌, if◌then◌else◌,
}
use hierophant.Prelude.Dict.{lookup, modify}
use hierophant.Network.{
  VmKind, same_vm, ContemplantProofRequest, request_id, vm, mode_name, proof_request,
}
use hierophant.Worker.{Env, WorkerState, can_serve, status_is_idle, add_strike, assigned_proof}
use hierophant.Registry.{holds, asks_for, WorkerRegistry, Workers, message, pending_queue_cap}
use hierophant.Registry.Trim.{trim_workers}

abbrev pub is_hot : VmKind → Option VmKind → Bool
is_hot k none = false
is_hot k (some last) = same_vm last k

-- A worker that the first loop does not skip.
abbrev pub is_able : ContemplantProofRequest → String × WorkerState → Bool
is_able q (addr, w) = can_serve w q && status_is_idle w.status

abbrev pub is_hot_for : ContemplantProofRequest → String × WorkerState → Bool
is_hot_for q (addr, w) = is_hot (vm q) w.last_vm

-- The able workers, those hot for the request's VM first.
unfoldable pub candidates : ContemplantProofRequest → Workers → List String
candidates q ws =
    map (λ x. x.0) (keep (λ x. is_able q x && is_hot_for q x) ws)
    ++ map (λ x. x.0) (keep (λ x. is_able q x && not (is_hot_for q x)) ws)

-- The worker takes the request.
abbrev pub give :
    Env → ContemplantProofRequest → String → WorkerState → WorkerRegistry → WorkerRegistry
give env q addr w g = record g {
  workers = modify addr (assigned_proof env (request_id q) (vm q) (mode_name q)) g.workers;
  effects = g.effects ++ message w.from_hierophant_sender (proof_request q) ∷ [];
}

-- The send failed.
abbrev pub strike : String → WorkerRegistry → WorkerRegistry
strike addr g = record g { workers = modify addr add_strike g.workers }

-- The loop over the candidates.
unfoldable pub offer :
    Env → ContemplantProofRequest → List String → WorkerRegistry → WorkerRegistry × Bool
offer env q [] g = (g, false)
offer env q (addr ∷ rest) g = elim (lookup addr g.workers) [
  | none ↦ offer env q rest g
  | some w ↦ elim (env.delivers w.from_hierophant_sender (proof_request q)) [
    | true ↦ (give env q addr w g, true)
    | false ↦ offer env q rest (strike addr g)
  ]
]

unfoldable pub try_assign : Env → ContemplantProofRequest → WorkerRegistry → WorkerRegistry × Bool
unfolding offer candidates
try_assign env q g =
    if any (holds (request_id q)) g.workers
    then (g, true)
    else offer env q (candidates q g.workers) g

-- What `handle_assign_proof` does with a request that found no worker.
unfoldable pub enqueue : Env → ContemplantProofRequest → WorkerRegistry → WorkerRegistry
enqueue env q g =
    if any (asks_for (request_id q)) g.pending_requests
    then g
    else if leb pending_queue_cap (length g.pending_requests)
    then g
    else record g { pending_requests = g.pending_requests ++ (q, env.now) ∷ [] }

unfoldable pub handle_assign_proof : Env → ContemplantProofRequest → WorkerRegistry → WorkerRegistry
unfolding trim_workers try_assign enqueue
handle_assign_proof env q g =
    let (g', assigned) = try_assign env q (trim_workers env g) in
    if assigned then g' else enqueue env q g'
