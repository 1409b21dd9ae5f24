-- ===== src/Registry/Assign/Owners.antt =====
-- How an assignment changes who works on what.
use hierophant.Prelude.{
  ◌≡◌, false, ℕ, ◌+◌, ◌≤◌, String, not, ◌&&◌, ◌==◌, inl, inr, List, [], ◌∷◌, arith, bit, Bool-cases,
  count_if_zero_of_not_any,
}
use hierophant.Network.{ContemplantProofRequest, request_id, vm, mode_name}
use hierophant.Worker.{Env, WorkerState, assigned_proof, add_strike}
use hierophant.Registry.{WorkerRegistry, holds}
use hierophant.Registry.Owners.{owners, holds-modify, holds-modify-suc}
use hierophant.Registry.Assign.{give, strike, offer, try_assign, candidates}

module _ (r : ℕ) where
  owners-strike : (addr : String) (g : WorkerRegistry) → owners r (strike addr g) ≤ owners r g
  owners-strike addr g = holds-modify r add_strike (λ w h. h) addr g.workers

  module _ (env : Env) (q : ContemplantProofRequest) where
    owners-give :
        (addr : String) (w : WorkerState) (g : WorkerRegistry)
        → owners r (give env q addr w g) ≤ owners r g + bit (request_id q == r)
    owners-give addr w g = elim (Bool-cases (request_id q == r)) [
      | inl e ↦ rw e (omega (arith, holds-modify-suc r taken addr g.workers))
      | inr e ↦ rw e (omega (arith, holds-modify r taken (λ v h. cc) addr g.workers))
    ]
      where
        taken : WorkerState → WorkerState
        taken = assigned_proof env (request_id q) (vm q) (mode_name q)

    owners-offer :
        (names : List String) (g : WorkerRegistry)
        → owners r (offer env q names g).0
            + bit (not (offer env q names g).1 && (request_id q == r))
          ≤ owners r g + bit (request_id q == r)
    unfolding offer
    owners-offer [] g = omega arith
    owners-offer (addr ∷ rest) g = ground (
      arith,
      owners-offer rest g,
      owners-offer rest (strike addr g),
      owners-strike addr g,
      (λ (w : WorkerState). owners-give addr w g),
    )

    -- One attempt moves a request from nowhere to at most one worker: what it finds a home for is
    -- no longer open, and nobody else gains work.
    pub owners-try_assign :
        (g : WorkerRegistry)
        → owners r (try_assign env q g).0 + bit (not (try_assign env q g).1 && (request_id q == r))
          ≤ owners r g + bit (request_id q == r)
    unfolding try_assign
    owners-try_assign g = ground (arith, owners-offer (candidates q g.workers) g)

    -- A request that has a worker gets no second one.
    pub owners-try_assign_once :
        (g : WorkerRegistry) → owners r g ≤ 1 → owners r (try_assign env q g).0 ≤ 1
    unfolding try_assign
    owners-try_assign_once g h = ground (
      arith,
      owners-offer (candidates q g.workers) g,
      count_if_zero_of_not_any (holds (request_id q)) g.workers,
    )

-- An attempt that fails shows that nobody works on the request.
pub owners-try_assign_failed :
    (env : Env) (q : ContemplantProofRequest) (g : WorkerRegistry)
    → (try_assign env q g).1 ≡ false
    → owners (request_id q) g ≡ 0
unfolding try_assign
owners-try_assign_failed env q g h =
    ground (arith, count_if_zero_of_not_any (holds (request_id q)) g.workers)
