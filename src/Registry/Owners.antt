-- ===== src/Registry/Owners.antt =====
-- Counting the workers of a request and its places in the queue. Counts do not depend on the
-- iteration order of the hash map.
use hierophant.Prelude.{
  ℕ, suc, ◌≤◌, ◌≡◌, String, Bool, true, count_if, count_if-update_first-le,
  count_if-update_first-le-suc, string_eq, update_first,
}
use hierophant.Prelude.Dict.{has_key, modify}
use hierophant.Worker.{WorkerState, is_on}
use hierophant.Registry.{WorkerRegistry, Workers, holds, asks_for, on_worker}

-- How many workers are busy with the request.
abbrev pub owners : ℕ → WorkerRegistry → ℕ
owners r g = count_if (holds r) g.workers

-- How many places the request has in the queue.
abbrev pub queued : ℕ → WorkerRegistry → ℕ
queued r g = count_if (asks_for r) g.pending_requests

-- How many entries the address has: the map is sound where that is at most one.
abbrev pub entries : String → Workers → ℕ
entries a ws = count_if (has_key a) ws

module _ (r : ℕ) (f : WorkerState → WorkerState) where
  pub holds-modify-suc :
      (addr : String) (ws : Workers)
      → count_if (holds r) (modify addr f ws) ≤ suc (count_if (holds r) ws)
  holds-modify-suc addr ws = count_if-update_first-le-suc (holds r) _ _ ws

  -- The rewrite puts nobody on the request.
  module _ (same : (w : WorkerState) → is_on r (f w) ≡ true → is_on r w ≡ true) where
    pub holds-modify :
        (addr : String) (ws : Workers)
        → count_if (holds r) (modify addr f ws) ≤ count_if (holds r) ws
    holds-modify addr ws = count_if-update_first-le (holds r) _ _ (λ x h. same x.1 h) ws

    pub holds-on_worker :
        (p : String × WorkerState → Bool) (ws : Workers)
        → count_if (holds r) (update_first p (on_worker f) ws) ≤ count_if (holds r) ws
    holds-on_worker p ws = count_if-update_first-le (holds r) _ _ (λ x h. same x.1 h) ws

module _ (a : String) (f : WorkerState → WorkerState) where
  pub entries-modify : (addr : String) (ws : Workers) → entries a (modify addr f ws) ≤ entries a ws
  entries-modify addr ws = count_if-update_first-le (has_key a) _ _ (λ x h. h) ws

  pub entries-on_worker :
      (p : String × WorkerState → Bool) (ws : Workers)
      → entries a (update_first p (on_worker f) ws) ≤ entries a ws
  entries-on_worker p ws = count_if-update_first-le (has_key a) _ _ (λ x h. h) ws
