-- ===== src/Registry/Drain/Owners.antt =====
-- Draining the queue: no request is lost or doubled, and the queue does not grow.
use hierophant.Prelude.{
  refl, ℕ, ◌+◌, ◌≤◌, not, [], ◌∷◌, arith, length, keep, count_if, count_if-keep-le, length-keep-le,
}
use hierophant.Worker.{Env}
use hierophant.Registry.{WorkerRegistry, Pending, asks_for}
use hierophant.Registry.Owners.{owners, queued}
use hierophant.Registry.Assign.{try_assign}
use hierophant.Registry.Assign.Frame.{Frame, Frame-refl, Frame-trans, Frame-try_assign}
use hierophant.Registry.Assign.Owners.{owners-try_assign, owners-try_assign_once}
use hierophant.Registry.Drain.{is_stale, place_all, drain_pending}

module _ (env : Env) where
  pub Frame-place_all : (xs : Pending) (g : WorkerRegistry) → Frame g (place_all env xs g).0
  unfolding place_all
  Frame-place_all [] g = Frame-refl g
  Frame-place_all (x ∷ rest) g =
      Frame-trans (Frame-try_assign env x.0 g) (Frame-place_all rest (try_assign env x.0 g).0)

  module _ (r : ℕ) where
    owners-place_all :
        (xs : Pending) (g : WorkerRegistry)
        → owners r (place_all env xs g).0 + count_if (asks_for r) (place_all env xs g).1
          ≤ owners r g + count_if (asks_for r) xs
    unfolding place_all
    owners-place_all [] g = omega arith
    owners-place_all (x ∷ rest) g =
        ground
          (arith, owners-try_assign r env x.0 g, owners-place_all rest (try_assign env x.0 g).0)

    owners-place_all_once :
        (xs : Pending) (g : WorkerRegistry) → owners r g ≤ 1 → owners r (place_all env xs g).0 ≤ 1
    unfolding place_all
    owners-place_all_once [] g h = h
    owners-place_all_once (x ∷ rest) g h =
        owners-place_all_once rest (try_assign env x.0 g).0 (owners-try_assign_once r env x.0 g h)

    queued-place_all :
        (xs : Pending) (g : WorkerRegistry)
        → count_if (asks_for r) (place_all env xs g).1 ≤ count_if (asks_for r) xs
    unfolding place_all
    queued-place_all [] g = omega arith
    queued-place_all (x ∷ rest) g = ground (arith, queued-place_all rest (try_assign env x.0 g).0)

  length-place_all : (xs : Pending) (g : WorkerRegistry) → length (place_all env xs g).1 ≤ length xs
  unfolding place_all
  length-place_all [] g = omega arith
  length-place_all (x ∷ rest) g = ground (arith, length-place_all rest (try_assign env x.0 g).0)

  module _ (g : WorkerRegistry) where
    fresh : Pending
    fresh = keep (λ x. not (is_stale env x)) g.pending_requests

    -- Work moves from the queue to a worker, and is never doubled.
    pub owners-drain_pending :
        (r : ℕ)
        → owners r (drain_pending env g) + queued r (drain_pending env g) ≤ owners r g + queued r g
    unfolding drain_pending fresh
    owners-drain_pending r = omega (
      arith,
      owners-place_all r fresh g,
      count_if-keep-le (asks_for r) (λ x. not (is_stale env x)) g.pending_requests,
    )

    pub owners-drain_pending_once : (r : ℕ) → owners r g ≤ 1 → owners r (drain_pending env g) ≤ 1
    unfolding drain_pending fresh
    owners-drain_pending_once r h = owners-place_all_once r fresh g h

    pub queued-drain_pending : (r : ℕ) → queued r (drain_pending env g) ≤ queued r g
    unfolding drain_pending fresh
    queued-drain_pending r = omega (
      arith,
      queued-place_all r fresh g,
      count_if-keep-le (asks_for r) (λ x. not (is_stale env x)) g.pending_requests,
    )

    pub length-drain_pending :
        length (drain_pending env g).pending_requests ≤ length g.pending_requests
    unfolding drain_pending fresh
    length-drain_pending = omega (
      arith,
      length-place_all fresh g,
      length-keep-le (λ x. not (is_stale env x)) g.pending_requests,
    )

    -- Beside the queue, what a drain leaves alone.
    pub Frame-drain_pending :
        Frame g (record (drain_pending env g) { pending_requests = g.pending_requests })
    unfolding drain_pending fresh
    Frame-drain_pending =
        let f = Frame-place_all fresh g in
        record {
          config = f.config;
          dead = f.dead;
          awaiting = f.awaiting;
          history = f.history;
          pending = refl;
          addresses = f.addresses;
        }
