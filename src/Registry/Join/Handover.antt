-- ===== src/Registry/Join/Handover.antt =====
-- What a registration does to the workers that are busy.
use hierophant.Prelude.{
  ◌≤◌, ◌≡◌, ◌∙◌, refl, ap, sym, String, Bool, true, false, not, ◌==◌, none, some, [], ◌∷◌, arith,
  string_eq, str_eq, eq_iff, find?, find?_sound, inl, inr, Option-cases, Bool-cases, map_some,
  subst, or_else, keep,
}
use hierophant.Prelude.Dict.{lookup, remove, insert, lookup-insert, lookup-remove}
use hierophant.Worker.{Env, WorkerState, idle, is_busy, new}
use hierophant.Registry.{WorkerRegistry, Workers}
use hierophant.Registry.Owners.{entries}
use hierophant.Registry.Drain.{is_stale, drain_pending}
use hierophant.Registry.Drain.Owners.{Frame-drain_pending}
use hierophant.Registry.Drain.Work.{place_all-core}
use hierophant.Registry.Assign.Busy.{core, core_at, found, lookup-entries}
use hierophant.Registry.Join.{
  Registration, is_stale_entry, stale_key, carried, take_over, supersede, new_state, enroll,
  handle_worker_ready,
}
use hierophant.Registry.Join.Owners.{entries-enroll}

-- Where the workers have one entry each, the stale entry is what its address stands for.
find?-lookup :
    (p : String × WorkerState → Bool) (ws : Workers) (k : String) (v : WorkerState)
    → ((a : String) → entries a ws ≤ 1)
    → find? p ws ≡ some (k, v)
    → lookup k ws ≡ some v
find?-lookup p [] k v u h = cc
find?-lookup p ((j, w) ∷ ws) k v u h = elim (Bool-cases (p (j, w))) [
  | inl t ↦
      let e = rw t at h in
      let same : (j, w) ≡ (k, v) = ap (or_else (j, w)) e in
      subst (λ x. lookup x.0 ((j, w) ∷ ws) ≡ some x.1) same (ground (arith, eq_iff j j))
  | inr t ↦
      let e = find?-lookup p ws k v (λ a. ground (arith, u a)) (rw t at h) in
      ground (arith, eq_iff j k, u k, lookup-entries k v ws e, e)
]

lookup-none-entries : (a : String) (ws : Workers) → lookup a ws ≡ none → entries a ws ≤ 0
lookup-none-entries a [] e = omega arith
lookup-none-entries a ((b, v) ∷ ws) e = ground (arith, lookup-none-entries a ws)

entries-lookup-none : (a : String) (ws : Workers) → entries a ws ≤ 0 → lookup a ws ≡ none
entries-lookup-none a [] e = refl
entries-lookup-none a ((b, v) ∷ ws) e = ground (arith, entries-lookup-none a ws)

module _ (env : Env) (r : Registration) (g : WorkerRegistry)
    (u : (a : String) → entries a g.workers ≤ 1) where
  -- The queue is drained at once, and a busy worker keeps all but its strikes.
  drained :
      (a : String) (w : WorkerState)
      → core_at a (enroll env r g) ≡ some (core w)
      → is_busy w ≡ true
      → core_at a (handle_worker_ready env r g) ≡ some (core w)
  unfolding handle_worker_ready drain_pending
  drained a w e b =
      place_all-core env (keep (λ x. not (is_stale env x)) (enroll env r g).pending_requests)
        (enroll env r g) a w (λ c. entries-enroll env r g c (u c)) e b

  enrolled_new :
      find? (is_stale_entry r) g.workers ≡ none
      → (enroll env r g).workers ≡ insert r.worker_addr (new_state env r idle) g.workers
  unfolding enroll supersede stale_key take_over
  enrolled_new h = rw (h, stale_key) refl

  enrolled_again :
      (k : String) (old : WorkerState)
      → find? (is_stale_entry r) g.workers ≡ some (k, old)
      → (enroll env r g).workers
        ≡ insert r.worker_addr (new_state env r (carried r (some old))) (remove k g.workers)
  unfolding enroll supersede stale_key take_over
  enrolled_again k old h =
      rw (h, stale_key, find?-lookup (is_stale_entry r) g.workers k old u h) refl

  left_alone :
      (a k : String) (old : WorkerState)
      → find? (is_stale_entry r) g.workers ≡ some (k, old)
      → str_eq r.worker_addr a ≡ false
      → lookup a (enroll env r g).workers ≡ lookup a (remove k g.workers)
  left_alone a k old h n = rw (enrolled_again k old h) (
      ground (
        arith,
        lookup-insert r.worker_addr a (new_state env r (carried r (some old))) (remove k g.workers),
        n,
      ))

  -- Draining makes no entries.
  stays_none :
      (a : String)
      → lookup a (enroll env r g).workers ≡ none
      → lookup a (handle_worker_ready env r g).workers ≡ none
  unfolding handle_worker_ready
  stays_none a e = entries-lookup-none a _ (
      omega (
        arith,
        (Frame-drain_pending env (enroll env r g)).addresses a,
        lookup-none-entries a (enroll env r g).workers e,
      ))

  pub handle_worker_ready-again :
      (old_addr : String) (old : WorkerState)
      → find? (is_stale_entry r) g.workers ≡ some (old_addr, old)
      → (old.instance_nonce == r.instance_nonce) ≡ true
      → is_busy old ≡ true
      → (lookup old_addr (handle_worker_ready env r g).workers ≡ none)
        × ((w : WorkerState) × (lookup r.worker_addr (handle_worker_ready env r g).workers ≡ some w)
            × (w.status ≡ old.status)
            × (w.name ≡ r.worker_name)
            × (w.instance_nonce ≡ r.instance_nonce)
            × (w.from_hierophant_sender ≡ r.from_hierophant_sender))
  unfolding new
  handle_worker_ready-again old_addr old h n b =
      let s = find?_sound (is_stale_entry r) g.workers (old_addr, old) h in
      let w = new_state env r old.status in
      let here : core_at r.worker_addr (enroll env r g) ≡ some (core w) =
        rw (enrolled_again old_addr old h) (
          ground (
            arith,
            lookup-insert r.worker_addr r.worker_addr (new_state env r (carried r (some old)))
                (remove old_addr g.workers),
            eq_iff r.worker_addr r.worker_addr,
            n,
            b,
          )) in
      let (v, e, c) =
        found (handle_worker_ready env r g) r.worker_addr w (drained r.worker_addr w here b) in
      (
        stays_none old_addr (
            left_alone old_addr old_addr old h (ground (arith, s, eq_iff r.worker_addr old_addr))
            ∙ ground (arith, lookup-remove old_addr old_addr g.workers, eq_iff old_addr old_addr)),
        (
          v,
          e,
          ap (λ x. x.status) c,
          ap (λ x. x.name) c,
          ap (λ x. x.instance_nonce) c,
          ap (λ x. x.from_hierophant_sender) c,
        ),
      )

  kept :
      (a : String) (w : WorkerState)
      → lookup a g.workers ≡ some w
      → str_eq r.worker_addr a ≡ false
      → is_stale_entry r (a, w) ≡ false
      → lookup a (enroll env r g).workers ≡ some w
  kept a w e n s = elim (Option-cases (find? (is_stale_entry r) g.workers)) [
    | inl h ↦
        rw (enrolled_new h)
          (ground (arith, lookup-insert r.worker_addr a (new_state env r idle) g.workers, n, e))
    | inr ((k, old), h) ↦ elim (Bool-cases (str_eq k a)) [
      | inl t ↦
          let same = (eq_iff k a).0 t in
          let f : lookup a g.workers ≡ some old =
            subst (λ x. lookup x g.workers ≡ some old) same
              (find?-lookup (is_stale_entry r) g.workers k old u h) in
          let p : is_stale_entry r (a, old) ≡ true =
            subst (λ x. is_stale_entry r (x, old) ≡ true) same
              (find?_sound (is_stale_entry r) g.workers (k, old) h) in
          absurd
            (let q = subst (λ o. is_stale_entry r (a, or_else old o) ≡ true) (sym f ∙ e) p in cc)
      | inr t ↦ left_alone a k old h n ∙ ground (arith, lookup-remove k a g.workers, t) ∙ e
    ]
  ]

  -- A busy worker at any other address, if it is not an older entry of the instance that registers,
  -- keeps its job and all else but strikes, whoever registers and whatever is drained from the queue.
  -- Each address has at most one entry.
  pub handle_worker_ready-busy :
      (a : String) (w : WorkerState)
      → lookup a g.workers ≡ some w
      → is_busy w ≡ true
      → str_eq r.worker_addr a ≡ false
      → is_stale_entry r (a, w) ≡ false
      → core_at a (handle_worker_ready env r g) ≡ some (core w)
  handle_worker_ready-busy a w e b n s = drained a w (ap (map_some core) (kept a w e n s)) b
