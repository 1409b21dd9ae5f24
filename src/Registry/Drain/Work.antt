-- ===== src/Registry/Drain/Work.antt =====
-- Draining the queue loses nothing and leaves no work undone: what is no longer in it was stale or is
-- with a worker, and what still waits is fresh and has no ready worker.
use hierophant.Prelude.{
  ℕ, ◌≤◌, ◌≡◌, ◌∙◌, refl, ap, Bool, true, false, not, ◌⊎◌, some, List, [], ◌∷◌, arith, keep,
  string_eq, String, All, Bool-cases, inl, inr, ==_iff,
}
use hierophant.Prelude.Dict.{lookup}
use hierophant.Network.{ContemplantProofRequest, request_id}
use hierophant.Worker.{Env, WorkerState, is_busy, is_on}
use hierophant.Registry.{WorkerRegistry, Workers, Pending}
use hierophant.Registry.Owners.{entries}
use hierophant.Registry.Assign.{try_assign}
use hierophant.Registry.Assign.Outcome.{ready_at, try_assign-ready, try_assign_failed}
use hierophant.Registry.Assign.Frame.{Frame-try_assign}
use hierophant.Registry.Assign.Chosen.{try_assign_placed, given}
use hierophant.Registry.Assign.Busy.{core, core_at, found, try_assign-core, holds-lookup}
use hierophant.Registry.Drain.{is_stale, place_all, drain_pending}

-- The first list is the second with some elements left out, in the same order: each one that is left
-- out has the property.
pub data Sublist {ℓ κ} {A : Type ℓ} (P : A → Type κ) : List A → List A → Type (ℓ ⊔ κ) where
  done : Sublist P [] []
  kept : {x : A} {xs ys : List A} → Sublist P xs ys → Sublist P (x ∷ xs) (x ∷ ys)
  left_out : {x : A} {xs ys : List A} → P x → Sublist P xs ys → Sublist P xs (x ∷ ys)

Sublist-keep {ℓ κ} :
    {A : Type ℓ} (P : A → Type κ) (p : A → Bool)
    → ((x : A) → p x ≡ false → P x)
    → (xs : List A) → Sublist P (keep p xs) xs
Sublist-keep P p h [] = Sublist.done
Sublist-keep P p h (x ∷ xs) = elim (Bool-cases (p x)) [
  | inl e ↦ rw e (Sublist.kept (Sublist-keep P p h xs))
  | inr e ↦ rw e (Sublist.left_out (h x e) (Sublist-keep P p h xs))
]

Sublist_trans {ℓ κ} :
    {A : Type ℓ} {P : A → Type κ} {xs ys zs : List A}
    → Sublist P xs ys
    → Sublist P ys zs
    → Sublist P xs zs
Sublist_trans s Sublist.done = s
Sublist_trans (Sublist.kept s) (Sublist.kept t) = Sublist.kept (Sublist_trans s t)
Sublist_trans (Sublist.left_out p s) (Sublist.kept t) = Sublist.left_out p (Sublist_trans s t)
Sublist_trans s (Sublist.left_out p t) = Sublist.left_out p (Sublist_trans s t)

abbrev pub Unique : Workers → Type 0
Unique ws = (a : String) → entries a ws ≤ 1

-- A worker of the registry is busy with the request.
abbrev pub IsPlaced : WorkerRegistry → ContemplantProofRequest × ℕ → Type 0
IsPlaced g x =
    (a : String) × (w : WorkerState) × (lookup a g.workers ≡ some w)
    × (is_on (request_id x.0) w ≡ true)

-- Why a request is not in the queue any more.
abbrev pub IsGone : Env → WorkerRegistry → ContemplantProofRequest × ℕ → Type 0
IsGone env g x = (is_stale env x ≡ true) ⊎ IsPlaced g x

-- No worker of the registry is ready for the request.
abbrev pub IsUnplaceable : Env → WorkerRegistry → ContemplantProofRequest × ℕ → Type 0
IsUnplaceable env g x = (a : String) → ready_at env x.0 (lookup a g.workers) ≡ false

module _ (env : Env) where
  place_all-ready :
      (p : ContemplantProofRequest) (a : String) (xs : Pending) (g : WorkerRegistry)
      → ready_at env p (lookup a g.workers) ≡ false
      → ready_at env p (lookup a (place_all env xs g).0.workers) ≡ false
  unfolding place_all
  place_all-ready p a [] g h = h
  place_all-ready p a (x ∷ rest) g h =
      place_all-ready p a rest (try_assign env x.0 g).0
        (ground (arith, try_assign-ready env p x.0 a g))

  place_all-IsUnplaceable :
      (xs : Pending) (g : WorkerRegistry)
      → All (IsUnplaceable env (place_all env xs g).0) (place_all env xs g).1
  unfolding place_all
  place_all-IsUnplaceable [] g = tt
  place_all-IsUnplaceable (x ∷ rest) g = elim (Bool-cases (try_assign env x.0 g).1) [
    | inl e ↦ rw (e, place_all) (place_all-IsUnplaceable rest (try_assign env x.0 g).0)
    | inr e ↦
        rw (e, place_all)
          (
            (λ a. place_all-ready x.0 a rest (try_assign env x.0 g).0 (
                ground (arith, try_assign_failed env x.0 g a e, try_assign-ready env x.0 x.0 a g))),
            place_all-IsUnplaceable rest (try_assign env x.0 g).0,
          )
  ]

  -- A busy worker keeps all but its strikes.
  pub place_all-core :
      (xs : Pending) (g : WorkerRegistry) (a : String) (w : WorkerState)
      → Unique g.workers
      → core_at a g ≡ some (core w)
      → is_busy w ≡ true
      → core_at a (place_all env xs g).0 ≡ some (core w)
  unfolding place_all
  place_all-core [] g a w u e b = e
  place_all-core (x ∷ rest) g a w u e b =
      place_all-core rest (try_assign env x.0 g).0 a w
        (λ c. omega (arith, u c, (Frame-try_assign env x.0 g).addresses c))
        (try_assign-core env x.0 g a w u e b) b

  -- What is placed stays with its worker.
  stays :
      (xs : Pending) (g : WorkerRegistry) (x : ContemplantProofRequest × ℕ)
      → Unique g.workers
      → IsPlaced g x
      → IsPlaced (place_all env xs g).0 x
  stays xs g x u (a, w, k, o) =
      let (v, n, s) =
        found (place_all env xs g).0 a w
          (place_all-core xs g a w u (rw k refl) (ground (arith, o))) in
      (a, v, n, ap (is_on (request_id x.0)) s ∙ o)

  placed :
      (x : ContemplantProofRequest × ℕ) (g : WorkerRegistry)
      → Unique g.workers
      → (try_assign env x.0 g).1 ≡ true
      → IsPlaced (try_assign env x.0 g).0 x
  placed x g u h = elim (try_assign_placed env x.0 g u h) [
    | inl (owned, same) ↦ holds-lookup (request_id x.0) _ (rw same u) (rw same owned)
    | inr (a, w, c, p) ↦
        (a, given env x.0 w, c.working, ground (arith, ==_iff (request_id x.0) (request_id x.0)))
  ]

  place_all-Sublist :
      (xs : Pending) (g : WorkerRegistry)
      → Unique g.workers
      → Sublist (IsGone env (place_all env xs g).0) (place_all env xs g).1 xs
  unfolding place_all
  place_all-Sublist [] g u = Sublist.done
  place_all-Sublist (x ∷ rest) g u =
      let g' = (try_assign env x.0 g).0 in
      let u' : Unique g'.workers =
        λ a. omega (arith, u a, (Frame-try_assign env x.0 g).addresses a) in
      let s = place_all-Sublist rest g' u' in
      elim (Bool-cases (try_assign env x.0 g).1) [
        | inl e ↦ rw e (Sublist.left_out (inr (stays rest g' x u' (placed x g u e))) s)
        | inr e ↦ rw e (Sublist.kept s)
      ]

  All-keep :
      (xs : Pending) → All (λ x. is_stale env x ≡ false) (keep (λ x. not (is_stale env x)) xs)
  All-keep [] = tt
  All-keep (x ∷ xs) = elim (Bool-cases (is_stale env x)) [
    | inl e ↦ rw e (All-keep xs)
    | inr e ↦ rw e (e, All-keep xs)
  ]

  All-Sublist {ℓ κ} :
      (R : ContemplantProofRequest × ℕ → Type κ) (P : ContemplantProofRequest × ℕ → Type ℓ)
      {xs ys : Pending}
      → Sublist R xs ys
      → All P ys
      → All P xs
  All-Sublist R P Sublist.done h = h
  All-Sublist R P (Sublist.kept s) h = (h.0, All-Sublist R P s h.1)
  All-Sublist R P (Sublist.left_out p s) h = All-Sublist R P s h.1

  -- After a drain the queue is the old one with some requests left out, in the same order. Each
  -- request that is left out was stale, or a worker is busy with it. Each that is left is not stale,
  -- and no worker is ready for it: none that can serve it is idle with a channel that takes it. Each
  -- address has at most one entry.
  pub drain_pending_lem :
      (g : WorkerRegistry)
      → ((a : String) → entries a g.workers ≤ 1)
      → Sublist
          (IsGone env (drain_pending env g))
          (drain_pending env g).pending_requests
          g.pending_requests
        × All (λ x. is_stale env x ≡ false) (drain_pending env g).pending_requests
        × All (IsUnplaceable env (drain_pending env g)) (drain_pending env g).pending_requests
  unfolding drain_pending
  drain_pending_lem g u =
      let fresh = keep (λ x. not (is_stale env x)) g.pending_requests in
      let s = place_all-Sublist fresh g u in
      (
        Sublist_trans s (
            Sublist-keep (IsGone env (place_all env fresh g).0) (λ x. not (is_stale env x))
              (λ x e. inl (ground (arith, e))) g.pending_requests),
        All-Sublist (IsGone env (place_all env fresh g).0) (λ x. is_stale env x ≡ false) s
            (All-keep g.pending_requests),
        place_all-IsUnplaceable fresh g,
      )
