-- ===== src/Registry/Drain.antt =====
-- The pending queue: `drain_pending`.
pub mod Owners
pub mod Work
use hierophant.Prelude.{ℕ, Bool, not, [], ◌∷◌, keep, ltb, if◌then◌else◌}
use hierophant.Network.{ContemplantProofRequest}
use hierophant.Worker.{Env, elapsed}
use hierophant.Registry.{WorkerRegistry, Pending, pending_ttl}
use hierophant.Registry.Assign.{try_assign}

abbrev pub is_stale : Env → ContemplantProofRequest × ℕ → Bool
is_stale env (q, queued_at) = ltb pending_ttl (elapsed env queued_at)

-- The `while let` loop: the registry after it, and what is still pending.
unfoldable pub place_all : Env → Pending → WorkerRegistry → WorkerRegistry × Pending
place_all env [] g = (g, [])
place_all env (x ∷ rest) g =
    let (g', assigned) = try_assign env x.0 g in
    let (g'', still) = place_all env rest g' in (g'', if assigned then still else x ∷ still)

unfoldable pub drain_pending : Env → WorkerRegistry → WorkerRegistry
unfolding place_all
drain_pending env g =
    let fresh = keep (λ x. not (is_stale env x)) g.pending_requests in
    let (g', still) = place_all env fresh g in record g' { pending_requests = still }
