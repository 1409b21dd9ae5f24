-- ===== src/Registry/Status/Heard.antt =====
-- How often a task that asked after a proof is heard: the answers sent to it and the places where
-- it waits. What does not answer leaves the number alone.
use hierophant.Prelude.{
  ℕ, ◌+◌, ◌≤◌, ◌≡◌, refl, ap, ◌∙◌, String, Bool, false, not, Option, none, some, List, [], ◌∷◌, map,
  arith, string_eq, nat_eq, count_if, count_if-append, bit, ◌==◌, keep, Bool-cases, Option-cases,
  inl, inr, any,
}
use hierophant.Prelude.Dict.{lookup, remove, has_key, remove_absent}
use hierophant.Network.{ContemplantProofRequest, ContemplantProofStatus, proof_request, request_id}
use hierophant.Worker.{Env}
use hierophant.Registry.{
  WorkerRegistry, Pending, Effect, message, magister_drop, status_reply, heartbeat_reply,
  pending_reply, workers_reply, history_reply, holds,
}
use hierophant.Registry.Trim.{drop_notice, bury, bury_all, is_due, trim_workers}
use hierophant.Registry.Assign.{offer, try_assign, candidates, strike}
use hierophant.Registry.Drain.{place_all, is_stale, drain_pending}
use hierophant.Registry.Status.{push_task}

abbrev pub is_reply : ℕ → Effect → Bool
is_reply s (status_reply t o) = t == s
is_reply s (message c m) = false
is_reply s (magister_drop e) = false
is_reply s (heartbeat_reply t b) = false
is_reply s (pending_reply t n o) = false
is_reply s (workers_reply t ws) = false
is_reply s (history_reply t h) = false

-- The places where the task waits.
abbrev pub waits : ℕ → List (ℕ × List ℕ) → ℕ
waits s [] = 0
waits s ((r, tasks) ∷ m) = count_if (λ t. t == s) tasks + waits s m

abbrev pub heard : ℕ → WorkerRegistry → ℕ
heard s g = count_if (is_reply s) g.effects + waits s g.awaiting_proof_status_responses

module _ (s : ℕ) where
  pub waits-push_task :
      (r t : ℕ) (m : List (ℕ × List ℕ)) → waits s (push_task r t m) ≡ waits s m + bit (t == s)
  waits-push_task r t [] = ground arith
  waits-push_task r t ((j, tasks) ∷ m) =
      ground (arith, waits-push_task r t m, count_if-append (λ u. u == s) tasks (t ∷ []))

  pub waits-remove :
      (r : ℕ) (tasks : List ℕ) (m : List (ℕ × List ℕ))
      → count_if (has_key r) m ≤ 1
      → lookup r m ≡ some tasks
      → waits s (remove r m) + count_if (λ t. t == s) tasks ≡ waits s m
  waits-remove r tasks [] u e = cc
  waits-remove r tasks ((j, us) ∷ m) u e = ground (arith, waits-remove r tasks m, remove_absent r m)

  pub replies-map :
      (o : Option ContemplantProofStatus) (tasks : List ℕ)
      → count_if (is_reply s) (map (λ t. status_reply t o) tasks) ≡ count_if (λ t. t == s) tasks
  replies-map o [] = refl
  replies-map o (t ∷ tasks) = ap (λ n. bit (t == s) + n) (replies-map o tasks)

  replies-drop_notice : (o : Option String) → count_if (is_reply s) (drop_notice o) ≡ 0
  replies-drop_notice none = refl
  replies-drop_notice (some e) = refl

  heard-bury : (g : WorkerRegistry) (addr : String) → heard s (bury g addr) ≡ heard s g
  unfolding bury
  heard-bury g addr = elim (Option-cases (lookup addr g.workers)) [
    | inl e ↦ rw (e, bury) refl
    | inr (w, e) ↦
        rw (e, bury)
          (omega (
            arith,
            count_if-append (is_reply s) g.effects (drop_notice w.magister_drop_endpoint),
            replies-drop_notice w.magister_drop_endpoint,
          ))
  ]

  heard-bury_all :
      (names : List String) (g : WorkerRegistry) → heard s (bury_all g names) ≡ heard s g
  unfolding bury_all
  heard-bury_all [] g = refl
  heard-bury_all (addr ∷ rest) g = heard-bury_all rest (bury g addr) ∙ heard-bury g addr

  module _ (env : Env) where
    pub heard-trim_workers : (g : WorkerRegistry) → heard s (trim_workers env g) ≡ heard s g
    unfolding trim_workers
    heard-trim_workers g = heard-bury_all (map (λ x. x.0) (keep (is_due env g.config) g.workers)) g

    heard-offer :
        (q : ContemplantProofRequest) (names : List String) (g : WorkerRegistry)
        → heard s (offer env q names g).0 ≡ heard s g
    unfolding offer
    heard-offer q [] g = refl
    heard-offer q (addr ∷ rest) g = elim (Option-cases (lookup addr g.workers)) [
      | inl e ↦ rw (e, offer) (heard-offer q rest g)
      | inr (w, e) ↦ elim (Bool-cases (env.delivers w.from_hierophant_sender (proof_request q))) [
        | inl d ↦
            rw (e, d, offer)
              (ground (
                arith,
                count_if-append (is_reply s) g.effects
                    (message w.from_hierophant_sender (proof_request q) ∷ []),
              ))
        | inr d ↦ rw (e, d, offer) (heard-offer q rest (strike addr g))
      ]
    ]

    pub heard-try_assign :
        (q : ContemplantProofRequest) (g : WorkerRegistry)
        → heard s (try_assign env q g).0 ≡ heard s g
    unfolding try_assign
    heard-try_assign q g = elim (Bool-cases (any (holds (request_id q)) g.workers)) [
      | inl e ↦ rw e refl
      | inr e ↦ rw e (heard-offer q (candidates q g.workers) g)
    ]

    heard-place_all :
        (xs : Pending) (g : WorkerRegistry) → heard s (place_all env xs g).0 ≡ heard s g
    unfolding place_all
    heard-place_all [] g = refl
    heard-place_all (x ∷ rest) g =
        heard-place_all rest (try_assign env x.0 g).0 ∙ heard-try_assign x.0 g

    pub heard-drain_pending : (g : WorkerRegistry) → heard s (drain_pending env g) ≡ heard s g
    unfolding drain_pending
    heard-drain_pending g = heard-place_all (keep (λ x. not (is_stale env x)) g.pending_requests) g
