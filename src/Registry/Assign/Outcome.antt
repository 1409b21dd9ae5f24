-- ===== src/Registry/Assign/Outcome.antt =====
-- Who gets a request: some able worker that can be reached, a hot one first, or nobody if there is
-- none.
use hierophant.Prelude.{
  ◌≡◌, ◌∙◌, sym, ap, map_some, refl, String, Bool, true, false, not, ◌&&◌, ◌||◌, inl, inr, Option,
  none, some, List, [], ◌∷◌, ◌++◌, map, any, keep, arith, string_eq, Option-cases, eq_iff, str_eq,
  if◌then◌else◌,
}
use hierophant.Prelude.Dict.{lookup-names, lookup, modify, lookup-modify}
use hierophant.Network.{ContemplantProofRequest, request_id, vm, mode_name, proof_request}
use hierophant.Worker.{
  Env, WorkerState, can_serve, supports, status_is_idle, add_strike, assigned_proof,
}
use hierophant.Registry.{WorkerRegistry, Workers}
use hierophant.Registry.Assign.{is_able, is_hot_for, candidates, give, strike, offer, try_assign}

-- The worker can serve the request and is idle, and its channel takes the message.
abbrev pub is_ready : Env → ContemplantProofRequest → WorkerState → Bool
is_ready env q w =
    can_serve w q
    && status_is_idle w.status
    && env.delivers w.from_hierophant_sender (proof_request q)

-- The same of what a lookup of an address finds.
abbrev pub ready_at : Env → ContemplantProofRequest → Option WorkerState → Bool
ready_at env q none = false
ready_at env q (some w) = is_ready env q w

-- An edit that makes nobody ready.
ready-modify :
    (env : Env) (p : ContemplantProofRequest) (f : WorkerState → WorkerState) (addr a : String)
    (ws : Workers)
    → ((w : WorkerState) → is_ready env p (f w) ≡ true → is_ready env p w ≡ true)
    → ready_at env p (lookup a (modify addr f ws)) ≡ true
    → ready_at env p (lookup a ws) ≡ true
ready-modify env p f addr a ws same h =
    go (lookup a ws) (str_eq addr a) (sym (ap (ready_at env p) (lookup-modify addr a f ws)) ∙ h)
  where
    go :
        (o : Option WorkerState) (b : Bool)
        → ready_at env p (if b then map_some f o else o) ≡ true
        → ready_at env p o ≡ true
    go none true h = h
    go (some w) true h = same w h
    go o false h = h

module _ (env : Env) where
  strike-ready :
      (p : ContemplantProofRequest) (addr a : String) (g : WorkerRegistry)
      → ready_at env p (lookup a (strike addr g).workers) ≡ true
      → ready_at env p (lookup a g.workers) ≡ true
  unfolding can_serve supports
  strike-ready p addr a g = ready-modify env p add_strike addr a g.workers (λ w h. h)

  give-ready :
      (p q : ContemplantProofRequest) (addr a : String) (w : WorkerState) (g : WorkerRegistry)
      → ready_at env p (lookup a (give env q addr w g).workers) ≡ true
      → ready_at env p (lookup a g.workers) ≡ true
  unfolding can_serve supports
  give-ready p q addr a w g =
      ready-modify env p (assigned_proof env (request_id q) (vm q) (mode_name q)) addr a g.workers
        (λ v h. ground arith)

  offer-ready :
      (p q : ContemplantProofRequest) (names : List String) (a : String) (g : WorkerRegistry)
      → ready_at env p (lookup a (offer env q names g).0.workers) ≡ true
      → ready_at env p (lookup a g.workers) ≡ true
  unfolding offer
  offer-ready p q [] a g h = h
  offer-ready p q (addr ∷ rest) a g h = ground (
    arith,
    offer-ready p q rest a g,
    offer-ready p q rest a (strike addr g),
    strike-ready p addr a g,
    (λ (w : WorkerState). give-ready p q addr a w g),
  )

  -- An attempt makes nobody ready, for any request.
  pub try_assign-ready :
      (p q : ContemplantProofRequest) (a : String) (g : WorkerRegistry)
      → ready_at env p (lookup a (try_assign env q g).0.workers) ≡ true
      → ready_at env p (lookup a g.workers) ≡ true
  unfolding try_assign
  try_assign-ready p q a g h = ground (arith, offer-ready p q (candidates q g.workers) a g)

  -- Whether the channel of an address takes the request.
  abbrev reach_at : ContemplantProofRequest → Option WorkerState → Bool
  reach_at q none = false
  reach_at q (some w) = env.delivers w.from_hierophant_sender (proof_request q)

  reach-map_some :
      (q : ContemplantProofRequest) (b : Bool) (o : Option WorkerState)
      → reach_at q (if b then map_some add_strike o else o) ≡ reach_at q o
  reach-map_some q true none = refl
  reach-map_some q true (some w) = refl
  reach-map_some q false o = refl

  reach-strike :
      (q : ContemplantProofRequest) (addr a : String) (g : WorkerRegistry)
      → reach_at q (lookup a (strike addr g).workers) ≡ reach_at q (lookup a g.workers)
  reach-strike q addr a g =
      ap (reach_at q) (lookup-modify addr a add_strike g.workers)
      ∙ reach-map_some q (str_eq addr a) (lookup a g.workers)

  -- The loop fails only where every channel that it tries refuses.
  pub offer_failed :
      (q : ContemplantProofRequest) (a : String) (names : List String) (g : WorkerRegistry)
      → (offer env q names g).1 ≡ false
      → any (λ j. str_eq j a) names ≡ true
      → reach_at q (lookup a g.workers) ≡ false
  unfolding offer
  offer_failed q a [] g h m = cc
  offer_failed q a (addr ∷ rest) g h m = ground (
    arith,
    eq_iff addr a,
    offer_failed q a rest g,
    offer_failed q a rest (strike addr g),
    reach-strike q addr a g,
  )

  any-append : (p : String → Bool) (xs ys : List String) → any p (xs ++ ys) ≡ (any p xs || any p ys)
  any-append p [] ys = refl
  any-append p (x ∷ xs) ys = ground (arith, any-append p xs ys)

  -- An attempt fails only if no worker is ready: none that can serve the request is idle and can be
  -- reached.
  pub try_assign_failed :
      (q : ContemplantProofRequest) (g : WorkerRegistry) (a : String)
      → (try_assign env q g).1 ≡ false
      → ready_at env q (lookup a g.workers) ≡ false
  unfolding try_assign candidates
  try_assign_failed q g a h = elim (Option-cases (lookup a g.workers)) [
    | inl e ↦ rw e
    | inr (w, e) ↦ rw e (
        ground (
          arith,
          any-append (λ j. str_eq j a)
              (map (λ x. x.0) (keep (λ x. is_able q x && is_hot_for q x) g.workers))
              (map (λ x. x.0) (keep (λ x. is_able q x && not (is_hot_for q x)) g.workers)),
          lookup-names a w (λ v. is_able q (a, v) && is_hot_for q (a, v)) g.workers e,
          lookup-names a w (λ v. is_able q (a, v) && not (is_hot_for q (a, v))) g.workers e,
          offer_failed q a (candidates q g.workers) g,
        ))
  ]
