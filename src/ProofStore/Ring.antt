-- ===== src/ProofStore/Ring.antt =====
-- The store never leaves its vector and never panics, and every command answers a later question
-- the way it says.
use hierophant.Prelude.{
  ℕ, zero, suc, ◌+◌, ◌<◌, ◌≡◌, ◌%◌, refl, ap, ◌∙◌, subst, Option, none, some, List, [], ◌∷◌, arith,
  nat_eq, length, length-set, length-replicate, replicate, set, Option-cases, inl, inr,
}
use hierophant.Prelude.Dict.{modify, has_key}
use hierophant.Prelude.Places.{index_of, index_of-lt, length-update_first, mod-cases}
use hierophant.Network.{default_status, ContemplantProofStatus}
use hierophant.ProofStore.{
  ProofStore, ProofStoreCommand, get_proof_status, proof_progress_update, proof_status_update,
  insert_proof, new, increment_current_proof_index, insert_proof_at, handle, run,
}

pub record IsValid (s : ProofStore) : Type 0 where
  pub full : length s.proofs ≡ s.max_proofs_stored
  pub inside : s.current_proof_index < s.max_proofs_stored

-- What a write at a place, and then a step of the counter, makes of a store.
abbrev pub written : ℕ → ℕ → ContemplantProofStatus → ProofStore → ProofStore
written i r st s = record s { proofs = set s.proofs i (r, st) }

abbrev pub advanced : ProofStore → ProofStore
advanced s = record s { current_proof_index = (s.current_proof_index + 1) % s.max_proofs_stored }

module _ (s : ProofStore) (v : IsValid s) where
  pub insert_old :
      (r : ℕ) (st : ContemplantProofStatus) (i : ℕ)
      → index_of r s.proofs ≡ some i
      → handle (insert_proof r st) s ≡ some (written i r st s)
  unfolding handle insert_proof_at
  insert_old r st i h = rw (h, handle) (ground (arith, index_of-lt r s.proofs i h, v.full))

  pub insert_new :
      (r : ℕ) (st : ContemplantProofStatus)
      → index_of r s.proofs ≡ none
      → handle (insert_proof r st) s ≡ some (advanced (written s.current_proof_index r st s))
  unfolding handle insert_proof_at increment_current_proof_index
  insert_new r st h = rw (h, handle) (ground (arith, v.full, v.inside))

  pub written-IsValid : (i r : ℕ) (st : ContemplantProofStatus) → IsValid (written i r st s)
  written-IsValid i r st = record {
    full = length-set s.proofs i (r, st) ∙ v.full;
    inside = v.inside;
  }

  pub advanced-IsValid : IsValid (advanced s)
  advanced-IsValid = record {
    full = v.full;
    inside = ground (arith, mod-cases s.current_proof_index s.max_proofs_stored v.inside);
  }

  pub modify-IsValid :
      (r : ℕ) (f : ContemplantProofStatus → ContemplantProofStatus)
      → IsValid (record s { proofs = modify r f s.proofs })
  modify-IsValid r f = record {
    full = length-update_first (has_key r) _ s.proofs ∙ v.full;
    inside = v.inside;
  }

-- A command that goes through, to a valid store of the same size.
abbrev pub Succeeds : Option ProofStore → ProofStore → Type 0
Succeeds o s =
    (s' : ProofStore) × (o ≡ some s') × IsValid s' × (s'.max_proofs_stored ≡ s.max_proofs_stored)

pub handle-Succeeds : (c : ProofStoreCommand) (s : ProofStore) → IsValid s → Succeeds (handle c s) s
unfolding handle
handle-Succeeds (get_proof_status r) s v = (s, refl, v, refl)
handle-Succeeds (proof_progress_update r u) s v = (_, refl, modify-IsValid s v r _, refl)
handle-Succeeds (proof_status_update r code proof) s v = (_, refl, modify-IsValid s v r _, refl)
handle-Succeeds (insert_proof r st) s v = elim (Option-cases (index_of r s.proofs)) [
  | inl e ↦ (
    advanced (written s.current_proof_index r st s),
    insert_new s v r st e,
    advanced-IsValid (written s.current_proof_index r st s)
        (written-IsValid s v s.current_proof_index r st),
    refl,
  )
  | inr (i, e) ↦ (written i r st s, insert_old s v r st i e, written-IsValid s v i r st, refl)
]

pub run-Succeeds :
    (cs : List ProofStoreCommand) (s : ProofStore) → IsValid s → Succeeds (run cs s) s
unfolding run
run-Succeeds [] s v = (s, refl, v, refl)
run-Succeeds (c ∷ cs) s v =
    let (s', e, v', m) = handle-Succeeds c s v in
    let (s'', e', v'', m') = run-Succeeds cs s' v' in (s'', rw (e, run) e', v'', m' ∙ m)

abbrev store_of : ℕ → ProofStore
store_of n = record {
  max_proofs_stored = suc n;
  proofs = replicate (suc n) (0, default_status);
  current_proof_index = 0;
}

-- A store of a positive size never panics, whatever commands it takes: no index is out of bounds,
-- and the vector keeps its size.
pub run-new_total :
    (n : ℕ) (s : ProofStore) (cs : List ProofStoreCommand)
    → new n ≡ some s
    → Succeeds (run cs s) s × (s.max_proofs_stored ≡ n)
run-new_total zero s cs h = cc
run-new_total (suc n) s cs h =
    let e : store_of n ≡ s = cc in
    let v : IsValid (store_of n) = record {
      full = ap suc (length-replicate n (0, default_status));
      inside = omega arith;
    } in
    subst (λ t. Succeeds (run cs t) t × (t.max_proofs_stored ≡ suc n)) e
      (run-Succeeds cs (store_of n) v, refl)
