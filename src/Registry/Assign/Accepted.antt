-- ===== src/Registry/Assign/Accepted.antt =====
-- A request that is handed to the registry is not lost.
use hierophant.Prelude.{
  ℕ, ◌≤◌, ◌≡◌, ◌∙◌, String, true, ◌⊎◌, inl, inr, some, [], ◌∷◌, ◌++◌, arith, string_eq, any, length,
  Bool-cases, subst, ==_iff,
}
use hierophant.Prelude.Dict.{lookup}
use hierophant.Network.{ContemplantProofRequest, request_id}
use hierophant.Worker.{Env, WorkerState}
use hierophant.Registry.{WorkerRegistry, Workers, Pending, holds, asks_for, pending_queue_cap}
use hierophant.Registry.Owners.{entries}
use hierophant.Registry.Trim.{trim_workers}
use hierophant.Registry.Trim.Exact.{entries-trim_workers, trim_workers-Untouched}
use hierophant.Registry.Assign.{try_assign, enqueue, handle_assign_proof}
use hierophant.Registry.Assign.Frame.{Frame-try_assign}
use hierophant.Registry.Assign.Chosen.{try_assign_placed, given}

pub any-lookup :
    (r : ℕ) (a : String) (w : WorkerState) (ws : Workers)
    → lookup a ws ≡ some w
    → holds r (a, w) ≡ true
    → any (holds r) ws ≡ true
any-lookup r a w [] e h = cc
any-lookup r a w ((b, v) ∷ ws) e h = ground (arith, any-lookup r a w ws)

any-append_last :
    (q : ContemplantProofRequest) (t : ℕ) (ps : Pending)
    → any (asks_for (request_id q)) (ps ++ (q, t) ∷ []) ≡ true
any-append_last q t [] = ground (arith, ==_iff (request_id q) (request_id q))
any-append_last q t (p ∷ ps) = ground (arith, any-append_last q t ps)

module _ (env : Env) (q : ContemplantProofRequest) where
  holds-try_assign :
      (g : WorkerRegistry)
      → ((a : String) → entries a g.workers ≤ 1)
      → (try_assign env q g).1 ≡ true
      → any (holds (request_id q)) (try_assign env q g).0.workers ≡ true
  holds-try_assign g u h = elim (try_assign_placed env q g u h) [
    | inl (owned, same) ↦ rw same owned
    | inr (addr, w, c, p) ↦
        any-lookup (request_id q) addr (given env q w) (try_assign env q g).0.workers c.working
          (ground (arith, ==_iff (request_id q) (request_id q)))
  ]

  asks_for-enqueue :
      (g : WorkerRegistry)
      → (any (asks_for (request_id q)) (enqueue env q g).pending_requests ≡ true)
        ⊎ (pending_queue_cap ≤ length g.pending_requests)
  unfolding enqueue
  asks_for-enqueue g = ground (arith, any-append_last q env.now g.pending_requests)

  -- Once an assignment is handled, a worker is busy with the request, or it is in the queue, or the
  -- queue was full before. Each address has at most one entry.
  pub handle_assign_proof_lem :
      (g : WorkerRegistry)
      → ((a : String) → entries a g.workers ≤ 1)
      → (any (holds (request_id q)) (handle_assign_proof env q g).workers ≡ true)
        ⊎ ((any (asks_for (request_id q)) (handle_assign_proof env q g).pending_requests ≡ true)
            ⊎ (pending_queue_cap ≤ length g.pending_requests))
  unfolding handle_assign_proof
  handle_assign_proof_lem g u =
      let t = trim_workers env g in
      let g' = (try_assign env q t).0 in
      elim (Bool-cases (try_assign env q t).1) [
        | inl e ↦ inl (
            rw (e, handle_assign_proof)
              (holds-try_assign t (λ a. omega (arith, entries-trim_workers env a g, u a)) e))
        | inr e ↦
            let same : g'.pending_requests ≡ g.pending_requests =
              (Frame-try_assign env q t).pending ∙ (trim_workers-Untouched env g).pending in
            inr (
              rw (e, handle_assign_proof)
                (subst
                  (λ ps.
                    (any (asks_for (request_id q)) (enqueue env q g').pending_requests ≡ true)
                    ⊎ (pending_queue_cap ≤ length ps))
                  same (asks_for-enqueue g')))
      ]
