-- ===== src/ProofStore/Answers.antt =====
-- What the store answers to a question after each command.
use hierophant.Prelude.{
  ℕ, ◌≡◌, refl, Bool, false, Option, none, some, arith, nat_eq, ◌==◌, if◌then◌else◌, map_some,
  Option-cases, inl, inr,
}
use hierophant.Prelude.Dict.{lookup-modify}
use hierophant.Prelude.Places.{
  index_of, lookup-set_here, lookup-set_new, lookup-set_absent, index_of-set_other, index_of_inj,
  lookup-index_of,
}
use hierophant.Network.{ContemplantProofStatus, progress_update}
use hierophant.ProofStore.{
  ProofStore, ProofStoreCommand, get_proof_status, proof_progress_update, proof_status_update,
  insert_proof, get, update_status, handle,
}
use hierophant.ProofStore.Ring.{IsValid, insert_old, insert_new, written, advanced}

-- The answer to a question after the command, from the answer before it.
abbrev pub after :
    ProofStoreCommand → ℕ → Option ContemplantProofStatus → Option ContemplantProofStatus
after (get_proof_status r) j o = o
after (proof_progress_update r u) j o =
    if r == j then map_some (λ st. progress_update st (some u)) o else o
after (proof_status_update r code proof) j o =
    if r == j then map_some (update_status code proof) o else o
after (insert_proof r st) j o = if r == j then some st else o

-- The place that the counter stands at.
abbrev pub is_at : Option ℕ → ℕ → Bool
is_at none i = false
is_at (some p) i = p == i

-- The command inserts a proof that is not stored, over the first entry of the proof `j`.
abbrev pub evicts : ProofStoreCommand → ℕ → ProofStore → Bool
evicts (get_proof_status r) j s = false
evicts (proof_progress_update r u) j s = false
evicts (proof_status_update r code proof) j s = false
evicts (insert_proof r st) j s = elim (index_of r s.proofs) [
  | none ↦ is_at (index_of j s.proofs) s.current_proof_index
  | some i ↦ false
]

module _ (j r : ℕ) (st : ContemplantProofStatus) (s : ProofStore) (v : IsValid s) where
  get-insert_new :
      index_of r s.proofs ≡ none
      → is_at (index_of j s.proofs) s.current_proof_index ≡ false
      → get j (written s.current_proof_index r st s) ≡ (if r == j then some st else get j s)
  get-insert_new e n = elim (Option-cases (index_of j s.proofs)) [
    | inl f ↦ ground (
      arith,
      lookup-index_of j s.proofs f,
      lookup-set_absent j r st s.proofs s.current_proof_index,
      lookup-set_new r st s.proofs s.current_proof_index e,
      v.inside,
      v.full,
    )
    | inr (p, f) ↦ ground (
      arith,
      index_of-set_other j r st s.proofs s.current_proof_index p,
      lookup-set_new r st s.proofs s.current_proof_index e,
      v.inside,
      v.full,
      f,
    )
  ]

  get-insert_old :
      (i : ℕ)
      → index_of r s.proofs ≡ some i
      → get j (written i r st s) ≡ (if r == j then some st else get j s)
  get-insert_old i e = elim (Option-cases (index_of j s.proofs)) [
    | inl f ↦ ground (
      arith,
      lookup-index_of j s.proofs f,
      lookup-set_absent j r st s.proofs i,
      lookup-set_here r st s.proofs i e,
    )
    | inr (p, f) ↦ ground (
      arith,
      index_of-set_other j r st s.proofs i p,
      lookup-set_here r st s.proofs i e,
      index_of_inj r j s.proofs i,
      f,
      e,
    )
  ]

-- A command goes through, and the answer to every later question is the one before it, changed as the
-- command says: a report updates the proof that it is on, an insertion stores the status. Only an
-- insertion of a proof that is not stored takes another proof's place: the one at the counter. The
-- store is a valid one.
pub get-handle :
    (c : ProofStoreCommand) (j : ℕ) (s : ProofStore)
    → IsValid s
    → evicts c j s ≡ false
    → (s' : ProofStore) × (handle c s ≡ some s') × (get j s' ≡ after c j (get j s))
unfolding handle
get-handle (get_proof_status r) j s v n = (s, refl, refl)
get-handle (proof_progress_update r u) j s v n =
    (_, refl, lookup-modify r j (λ st. progress_update st (some u)) s.proofs)
get-handle (proof_status_update r code proof) j s v n =
    (_, refl, lookup-modify r j (update_status code proof) s.proofs)
get-handle (insert_proof r st) j s v n = elim (Option-cases (index_of r s.proofs)) [
  | inl e ↦ (
    advanced (written s.current_proof_index r st s),
    insert_new s v r st e,
    get-insert_new j r st s v e (ground (arith, n, e)),
  )
  | inr (i, e) ↦ (written i r st s, insert_old s v r st i e, get-insert_old j r st s v i e)
]
