-- ===== src/Registry/Assign/Chosen.antt =====
-- Who gets a request that an attempt places.
use hierophant.Prelude.{
  ◌≤◌, ◌≡◌, ◌∙◌, sym, ap, refl, String, true, false, not, ◌&&◌, ◌⊎◌, inl, inr, some, List, [], ◌∷◌,
  ◌++◌, map, any, keep, arith, string_eq, Bool-cases, Option-cases, eq_iff, str_eq, if◌then◌else◌,
}
use hierophant.Prelude.Dict.{names-lookup, lookup-names, lookup, lookup-modify}
use hierophant.Network.{ContemplantProofRequest, request_id, vm, mode_name, proof_request}
use hierophant.Worker.{Env, WorkerState, add_strike, assigned_proof}
use hierophant.Registry.{WorkerRegistry, message, holds}
use hierophant.Registry.Owners.{entries}
use hierophant.Registry.Assign.Outcome.{is_ready, offer_failed}
use hierophant.Registry.Assign.{
  is_able, is_hot_for, candidates, give, strike, offer, try_assign, is_hot,
}

-- The worker as it is once it has the request.
abbrev pub given : Env → ContemplantProofRequest → WorkerState → WorkerState
given env q w = assigned_proof env (request_id q) (vm q) (mode_name q) w

-- The request went to the worker `w` of this address: its channel took the message, which is the
-- one thing sent, and the worker is now busy with the request.
pub record Chosen (env : Env) (q : ContemplantProofRequest) (g g' : WorkerRegistry) (addr : String)
    (w : WorkerState) : Type 0 where
  pub known : lookup addr g.workers ≡ some w
  pub reached : env.delivers w.from_hierophant_sender (proof_request q) ≡ true
  pub working : lookup addr g'.workers ≡ some (given env q w)
  pub sent : g'.effects ≡ g.effects ++ message w.from_hierophant_sender (proof_request q) ∷ []

module _ (env : Env) (q : ContemplantProofRequest) where
  give-Chosen :
      (addr : String) (w : WorkerState) (g : WorkerRegistry)
      → lookup addr g.workers ≡ some w
      → env.delivers w.from_hierophant_sender (proof_request q) ≡ true
      → Chosen env q g (give env q addr w g) addr w
  give-Chosen addr w g e d = record {
    known = e;
    reached = d;
    working = ground (arith, eq_iff addr addr, lookup-modify addr addr (given env q) g.workers);
    sent = refl;
  }

  -- A refusal before does not matter.
  strike-Chosen :
      (b addr : String) (v w : WorkerState) (g h : WorkerRegistry)
      → lookup b g.workers ≡ some v
      → env.delivers v.from_hierophant_sender (proof_request q) ≡ false
      → Chosen env q (strike b g) h addr w
      → Chosen env q g h addr w
  strike-Chosen b addr v w g h e d c = record {
    known =
        ground
          (arith, eq_iff b addr, lookup-modify b addr add_strike g.workers, c.known, c.reached);
    reached = c.reached;
    working = c.working;
    sent = c.sent;
  }

  offer-Chosen :
      (names : List String) (g : WorkerRegistry)
      → (offer env q names g).1 ≡ true
      → (addr : String) × (w : WorkerState) × (any (λ j. str_eq j addr) names ≡ true)
        × Chosen env q g (offer env q names g).0 addr w
  unfolding offer
  offer-Chosen [] g h = cc
  offer-Chosen (b ∷ rest) g h = elim (Option-cases (lookup b g.workers)) [
    | inl e ↦
        let (addr, w, m, c) = offer-Chosen rest g (rw (e, offer) at h) in
        (addr, w, ground arith, rw (e, offer) c)
    | inr (v, e) ↦ elim (Bool-cases (env.delivers v.from_hierophant_sender (proof_request q))) [
      | inl d ↦ (b, v, ground (arith, eq_iff b b), rw (e, d, offer) (give-Chosen b v g e d))
      | inr d ↦
          let (addr, w, m, c) = offer-Chosen rest (strike b g) (rw (e, d, offer) at h) in
          (addr, w, ground arith, rw (e, d, offer) (strike-Chosen b addr v w g _ e d c))
    ]
  ]

  failed-Chosen :
      (names : List String) (g h : WorkerRegistry) (addr : String) (w : WorkerState)
      → (offer env q names g).1 ≡ false
      → Chosen env q (offer env q names g).0 h addr w
      → Chosen env q g h addr w
  unfolding offer
  failed-Chosen [] g h addr w f c = c
  failed-Chosen (b ∷ rest) g h addr w f c = elim (Option-cases (lookup b g.workers)) [
    | inl e ↦ failed-Chosen rest g h addr w (rw (e, offer) at f) (rw (e, offer) at c)
    | inr (v, e) ↦ elim (Bool-cases (env.delivers v.from_hierophant_sender (proof_request q))) [
      | inl d ↦ absurd (cc (rw (e, d, offer) at f))
      | inr d ↦
          strike-Chosen b addr v w g h e d (
            failed-Chosen rest (strike b g) h addr w (rw (e, d, offer) at f)
              (rw (e, d, offer) at c))
    ]
  ]

  offer-append :
      (xs ys : List String) (g : WorkerRegistry)
      → offer env q (xs ++ ys) g
        ≡ (if (offer env q xs g).1 then offer env q xs g else offer env q ys (offer env q xs g).0)
  unfolding offer
  offer-append [] ys g = refl
  offer-append (b ∷ rest) ys g = elim (Option-cases (lookup b g.workers)) [
    | inl e ↦ rw (e, offer) (offer-append rest ys g)
    | inr (v, e) ↦ elim (Bool-cases (env.delivers v.from_hierophant_sender (proof_request q))) [
      | inl d ↦ rw (e, d, offer)
      | inr d ↦ rw (e, d, offer) (offer-append rest ys (strike b g))
    ]
  ]

  module _ (g : WorkerRegistry) where
    hot : List String
    hot = map (λ x. x.0) (keep (λ x. is_able q x && is_hot_for q x) g.workers)

    cold : List String
    cold = map (λ x. x.0) (keep (λ x. is_able q x && not (is_hot_for q x)) g.workers)

    -- The worker was idle and can serve the request, and is hot for the VM of the request unless no
    -- hot worker is ready.
    abbrev pub Preferred : WorkerState → Type 0
    Preferred w =
        (is_able q ("", w) ≡ true)
        × ((is_hot (vm q) w.last_vm ≡ true)
            ⊎ ((a : String) (v : WorkerState)
                → lookup a g.workers ≡ some v
                → is_hot (vm q) v.last_vm ≡ true
                → is_ready env q v ≡ false))

    module _ (unique : (a : String) → entries a g.workers ≤ 1) where
      hot-Preferred :
          (addr : String) (w : WorkerState)
          → any (λ j. str_eq j addr) hot ≡ true
          → lookup addr g.workers ≡ some w
          → Preferred w
      unfolding hot
      hot-Preferred addr w m e =
          let t =
            names-lookup addr w (λ v. is_able q ("", v) && is_hot_for q ("", v)) g.workers
              (unique addr) m e in
          (ground arith, inl (ground arith))

      cold-Preferred :
          (addr : String) (w : WorkerState)
          → (offer env q hot g).1 ≡ false
          → any (λ j. str_eq j addr) cold ≡ true
          → lookup addr g.workers ≡ some w
          → Preferred w
      unfolding hot cold
      cold-Preferred addr w f m e =
          let t =
            names-lookup addr w (λ v. is_able q ("", v) && not (is_hot_for q ("", v))) g.workers
              (unique addr) m e in
          (
            ground arith,
            inr (λ a v k o. ground (
              arith,
              lookup-names a v (λ x. is_able q ("", x) && is_hot_for q ("", x)) g.workers k,
              offer_failed env q a hot g f,
              k,
            )),
          )

      try_assign_split :
          any (holds (request_id q)) g.workers ≡ false
          → (offer env q hot g).1 ≡ false
          → try_assign env q g ≡ offer env q cold (offer env q hot g).0
      unfolding try_assign candidates hot cold
      try_assign_split e o = rw (e, try_assign, candidates, offer-append hot cold g, o)

      -- An attempt that succeeds found the request with a worker already and changed nothing, or
      -- gave it to a worker that was idle and can serve it, and is hot for its VM unless no hot
      -- worker was ready. That worker's channel took the request, which is the only message sent,
      -- and the worker is now busy with it. Each address has at most one entry.
      pub try_assign_placed :
          (try_assign env q g).1 ≡ true
          → ((any (holds (request_id q)) g.workers ≡ true) × ((try_assign env q g).0 ≡ g))
            ⊎ ((addr : String) × (w : WorkerState) × Chosen env q g (try_assign env q g).0 addr w
                × Preferred w)
      unfolding try_assign candidates hot cold
      try_assign_placed h = elim (Bool-cases (any (holds (request_id q)) g.workers)) [
        | inl e ↦ inl (e, rw (e, try_assign))
        | inr e ↦ elim (Bool-cases (offer env q hot g).1) [
          | inl o ↦
              let (addr, w, m, c) = offer-Chosen hot g o in
              inr (
                addr,
                w,
                rw (e, try_assign, candidates, offer-append hot cold g, o) c,
                hot-Preferred addr w m c.known,
              )
          | inr o ↦
              let (addr, w, m, c) =
                offer-Chosen cold (offer env q hot g).0
                  (ap (λ x. x.1) (sym (try_assign_split e o)) ∙ h) in
              let d = failed-Chosen hot g _ addr w o c in
              inr (addr, w, rw (try_assign_split e o) d, cold-Preferred addr w o m d.known)
        ]
      ]
