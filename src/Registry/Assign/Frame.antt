-- ===== src/Registry/Assign/Frame.antt =====
-- What an assignment leaves alone.
use hierophant.Prelude.{
  ◌≤◌, ◌≡◌, ◌∙◌, refl, String, List, [], ◌∷◌, arith, string_eq, inl, inr, any, Bool-cases,
  Option-cases,
}
use hierophant.Prelude.Dict.{lookup}
use hierophant.Network.{ContemplantProofRequest, proof_request, request_id, vm, mode_name}
use hierophant.Worker.{Env, WorkerState, assigned_proof, add_strike}
use hierophant.Registry.{WorkerRegistry, holds}
use hierophant.Registry.Owners.{entries, entries-modify}
use hierophant.Registry.Assign.{give, strike, offer, try_assign, candidates}

-- All but the workers and the effects is as it was, and no address has more entries.
pub record Frame (g g' : WorkerRegistry) : Type 0 where
  pub config : g'.config ≡ g.config
  pub dead : g'.dead_workers ≡ g.dead_workers
  pub awaiting : g'.awaiting_proof_status_responses ≡ g.awaiting_proof_status_responses
  pub history : g'.proof_history ≡ g.proof_history
  pub pending : g'.pending_requests ≡ g.pending_requests
  pub addresses : (a : String) → entries a g'.workers ≤ entries a g.workers

pub Frame-refl : (g : WorkerRegistry) → Frame g g
Frame-refl g = record {
  config = refl;
  dead = refl;
  awaiting = refl;
  history = refl;
  pending = refl;
  addresses = λ a. omega arith;
}

pub Frame-trans : {f g h : WorkerRegistry} → Frame f g → Frame g h → Frame f h
Frame-trans x y = record {
  config = y.config ∙ x.config;
  dead = y.dead ∙ x.dead;
  awaiting = y.awaiting ∙ x.awaiting;
  history = y.history ∙ x.history;
  pending = y.pending ∙ x.pending;
  addresses = λ a. omega (arith, x.addresses a, y.addresses a);
}

module _ (env : Env) (q : ContemplantProofRequest) where
  Frame-strike : (addr : String) (g : WorkerRegistry) → Frame g (strike addr g)
  Frame-strike addr g = record {
    config = refl;
    dead = refl;
    awaiting = refl;
    history = refl;
    pending = refl;
    addresses = λ a. entries-modify a add_strike addr g.workers;
  }

  Frame-give :
      (addr : String) (w : WorkerState) (g : WorkerRegistry) → Frame g (give env q addr w g)
  Frame-give addr w g = record {
    config = refl;
    dead = refl;
    awaiting = refl;
    history = refl;
    pending = refl;
    addresses = λ a.
        entries-modify a (assigned_proof env (request_id q) (vm q) (mode_name q)) addr g.workers;
  }

  Frame-offer : (names : List String) (g : WorkerRegistry) → Frame g (offer env q names g).0
  unfolding offer
  Frame-offer [] g = Frame-refl g
  Frame-offer (addr ∷ rest) g = elim (Option-cases (lookup addr g.workers)) [
    | inl e ↦ rw (e, offer) (Frame-offer rest g)
    | inr (w, e) ↦ elim (Bool-cases (env.delivers w.from_hierophant_sender (proof_request q))) [
      | inl d ↦ rw (e, d, offer) (Frame-give addr w g)
      | inr d ↦
          rw (e, d, offer) (Frame-trans (Frame-strike addr g) (Frame-offer rest (strike addr g)))
    ]
  ]

  pub Frame-try_assign : (g : WorkerRegistry) → Frame g (try_assign env q g).0
  unfolding try_assign
  Frame-try_assign g = elim (Bool-cases (any (holds (request_id q)) g.workers)) [
    | inl e ↦ rw e (Frame-refl g)
    | inr e ↦ rw e (Frame-offer (candidates q g.workers) g)
  ]
