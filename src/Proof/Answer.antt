-- ===== src/Proof/Answer.antt =====
-- When a client is told that its proof is lost, and when the answer panics.
use hierophant.Prelude.{◌≡◌, ◌↔◌, Bool, true, false, none, some, arith, ◌==◌, is_some, not, ◌&&◌}
use hierophant.Proof.{
  lost, from_contemplant, Reply, not_sent, timed_out, dropped, answered, proof_status_request,
  get_proof_status,
}

-- Nobody has the proof, or the registry cannot be asked.
abbrev pub is_lost : Bool → Reply → Bool
is_lost takes_update not_sent = true
is_lost takes_update timed_out = false
is_lost takes_update dropped = true
is_lost takes_update (answered none) = true
is_lost takes_update (answered (some s)) = not takes_update

-- A contemplant answered that the proof is executed and has no proof to show.
abbrev pub is_unsound : Reply → Bool
is_unsound (answered (some s)) = s.execution_status == 2 && not (is_some s.proof)
is_unsound reply = false

-- The client is told to ask for the proof again exactly where nobody has it or the registry cannot
-- be reached: a slow answer and every status of a contemplant say something else. The answer panics
-- exactly where a contemplant claims an executed request and shows no proof, unless the registry
-- does not take the progress that comes with it.
pub get_proof_status_lem :
    (takes_update : Bool) (reply : Reply)
    → ((get_proof_status takes_update reply ≡ some lost) ↔ (is_lost takes_update reply ≡ true))
      × ((get_proof_status takes_update reply ≡ none) ↔ ((takes_update && is_unsound reply) ≡ true))
unfolding get_proof_status proof_status_request from_contemplant
get_proof_status_lem b not_sent = ground (arith)
get_proof_status_lem b timed_out = ground (arith)
get_proof_status_lem b dropped = ground (arith)
get_proof_status_lem b (answered none) = ground (arith)
get_proof_status_lem b (answered (some s)) = ground arith
