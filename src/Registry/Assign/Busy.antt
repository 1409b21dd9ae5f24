-- ===== src/Registry/Assign/Busy.antt =====
-- An attempt to place a request does nothing to a busy worker but strikes.
use hierophant.Prelude.{
  ◌≤◌, ◌≡◌, ◌∙◌, refl, ap, String, Bool, true, false, not, ◌&&◌, ◌||◌, inl, inr, Option, none, some,
  List, [], ◌∷◌, ◌++◌, map, map_some, any, keep, arith, string_eq, Bool-cases, Option-cases, str_eq,
  eq_iff, or_else, ℕ,
}
use hierophant.Prelude.Dict.{names-lookup, lookup, lookup-modify}
use hierophant.Network.{ContemplantProofRequest, request_id, vm, mode_name, proof_request}
use hierophant.Worker.{Env, WorkerState, is_busy, is_on, add_strike, assigned_proof}
use hierophant.Registry.{WorkerRegistry, Workers, holds}
use hierophant.Registry.Owners.{entries}
use hierophant.Registry.Assign.{is_able, is_hot_for, candidates, strike, offer, try_assign}

-- The worker but for its strikes.
abbrev pub core : WorkerState → WorkerState
core w = record w { strikes = 0 }

-- What is known of the worker of an address, but for its strikes.
abbrev pub core_at : String → WorkerRegistry → Option WorkerState
core_at a g = map_some core (lookup a g.workers)

map_some-strike : (o : Option WorkerState) → map_some core (map_some add_strike o) ≡ map_some core o
map_some-strike none = refl
map_some-strike (some w) = refl

any-append {ℓ} :
    {A : Type ℓ} (p : A → Bool) (xs ys : List A) → any p (xs ++ ys) ≡ (any p xs || any p ys)
any-append p [] ys = refl
any-append p (x ∷ xs) ys = ground (arith, any-append p xs ys)

strike-core : (a b : String) (g : WorkerRegistry) → core_at a (strike b g) ≡ core_at a g
strike-core a b g = elim (Bool-cases (str_eq b a)) [
  | inl t ↦ rw (lookup-modify b a add_strike g.workers, t) (map_some-strike (lookup a g.workers))
  | inr t ↦ rw (lookup-modify b a add_strike g.workers, t) refl
]

pub lookup-entries :
    (a : String) (w : WorkerState) (ws : Workers) → lookup a ws ≡ some w → 1 ≤ entries a ws
lookup-entries a w [] e = cc
lookup-entries a w ((b, v) ∷ ws) e = ground (arith, lookup-entries a w ws, e)

-- Where the workers have one entry each, one that holds a request is found at its address.
pub holds-lookup :
    (r : ℕ) (ws : Workers)
    → ((a : String) → entries a ws ≤ 1)
    → any (holds r) ws ≡ true
    → (a : String) × (w : WorkerState) × (lookup a ws ≡ some w) × (is_on r w ≡ true)
holds-lookup r [] u h = cc
holds-lookup r ((b, v) ∷ ws) u h = elim (Bool-cases (is_on r v)) [
  | inl t ↦ (b, v, ground (arith, eq_iff b b), t)
  | inr t ↦
      let (a, w, k, o) = holds-lookup r ws (λ a. ground (arith, u a)) (ground (arith, h, t)) in
      (a, w, ground (arith, eq_iff b a, u a, lookup-entries a w ws k, k), o)
]

pub found :
    (g : WorkerRegistry) (a : String) (w : WorkerState)
    → core_at a g ≡ some (core w)
    → (v : WorkerState) × (lookup a g.workers ≡ some v) × (core v ≡ core w)
found g a w e = elim (Option-cases (lookup a g.workers)) [
  | inl n ↦ absurd (let k = rw n at e in cc)
  | inr (v, n) ↦ (v, n, ap (or_else (core w)) (rw n at e))
]

module _ (env : Env) (q : ContemplantProofRequest) where
  offer-core :
      (names : List String) (a : String) (g : WorkerRegistry)
      → any (λ j. str_eq j a) names ≡ false
      → core_at a (offer env q names g).0 ≡ core_at a g
  unfolding offer
  offer-core [] a g n = refl
  offer-core (b ∷ rest) a g n = elim (Option-cases (lookup b g.workers)) [
    | inl e ↦ rw (e, offer) (offer-core rest a g (ground arith))
    | inr (v, e) ↦ elim (Bool-cases (env.delivers v.from_hierophant_sender (proof_request q))) [
      | inl d ↦
          rw (e, d, offer)
            (ground (
              arith,
              lookup-modify b a (assigned_proof env (request_id q) (vm q) (mode_name q)) g.workers,
              n,
            ))
      | inr d ↦ rw (e, d, offer) (offer-core rest a (strike b g) (ground arith) ∙ strike-core a b g)
    ]
  ]

  -- A busy worker is no candidate.
  busy_no_candidate :
      (g : WorkerRegistry) (a : String) (w : WorkerState)
      → ((a : String) → entries a g.workers ≤ 1)
      → lookup a g.workers ≡ some w
      → is_busy w ≡ true
      → any (λ j. str_eq j a) (candidates q g.workers) ≡ false
  unfolding candidates
  busy_no_candidate g a w u e b = ground (
    arith,
    any-append (λ j. str_eq j a)
        (map (λ x. x.0) (keep (λ x. is_able q x && is_hot_for q x) g.workers))
        (map (λ x. x.0) (keep (λ x. is_able q x && not (is_hot_for q x)) g.workers)),
    names-lookup a w (λ v. is_able q ("", v) && is_hot_for q ("", v)) g.workers (u a),
    names-lookup a w (λ v. is_able q ("", v) && not (is_hot_for q ("", v))) g.workers (u a),
    e,
    b,
  )

  pub try_assign-core :
      (g : WorkerRegistry) (a : String) (w : WorkerState)
      → ((a : String) → entries a g.workers ≤ 1)
      → core_at a g ≡ some (core w)
      → is_busy w ≡ true
      → core_at a (try_assign env q g).0 ≡ some (core w)
  unfolding try_assign
  try_assign-core g a w u e b = elim (Bool-cases (any (holds (request_id q)) g.workers)) [
    | inl t ↦ rw t e
    | inr t ↦
        let (v, n, s) = found g a w e in
        rw t (
          offer-core (candidates q g.workers) a g (busy_no_candidate g a v u n (ap is_busy s ∙ b))
          ∙ e)
  ]
