-- ===== src/ProofStore/Retention.antt =====
-- How long a proof stays in the store: as the last `max_proofs_stored` proofs that it took.
use hierophant.Prelude.{
  ℕ, suc, ◌+◌, ◌-◌, ◌≤◌, ◌<◌, ◌≡◌, refl, sym, ap, ◌∙◌, Bool, true, false, none, some, List, [], ◌∷◌,
  arith, nat_eq, ◌==◌, any, count_if, bit, ◌⊎◌, Option-cases, inl, inr,
}
use hierophant.Prelude.Places.{
  index_of, index_of-lt, index_of-modify, index_of-set_new, index_of-set_other, lookup-set_new,
  index_of_inj, index_of-lookup, mod-cases,
}
use hierophant.Prelude.Dict.{lookup-modify, modify}
use hierophant.Network.{ContemplantProofStatus}
use hierophant.ProofStore.{
  ProofStore, ProofStoreCommand, get_proof_status, proof_progress_update, proof_status_update,
  insert_proof, get, handle, run,
}
use hierophant.ProofStore.Ring.{
  IsValid, insert_old, insert_new, written, advanced, modify-IsValid, written-IsValid,
  advanced-IsValid,
}

-- The command writes the proof `r`.
abbrev pub writes : ℕ → ProofStoreCommand → Bool
writes r (get_proof_status j) = false
writes r (proof_progress_update j u) = j == r
writes r (proof_status_update j code proof) = j == r
writes r (insert_proof j st) = j == r

abbrev pub is_insert : ProofStoreCommand → Bool
is_insert (get_proof_status j) = false
is_insert (proof_progress_update j u) = false
is_insert (proof_status_update j code proof) = false
is_insert (insert_proof j st) = true

-- The proof is stored with this status, and the counter is at least `d` places short of it.
pub record Kept (r : ℕ) (st : ContemplantProofStatus) (d : ℕ) (s : ProofStore) : Type 0 where
  pub valid : IsValid s
  pub place : ℕ
  pub index : index_of r s.proofs ≡ some place
  pub value : get r s ≡ some st
  pub ahead : ℕ
  pub far : d ≤ ahead
  pub round : ahead < s.max_proofs_stored
  pub apart :
      (s.current_proof_index + ahead ≡ place)
      ⊎ (s.current_proof_index + ahead ≡ place + s.max_proofs_stored)

module _ (r : ℕ) (st : ContemplantProofStatus) where
  -- Only an insertion brings the counter nearer.
  pub Kept-modify :
      (d j : ℕ) (f : ContemplantProofStatus → ContemplantProofStatus) (s : ProofStore)
      → (j == r) ≡ false
      → Kept r st d s
      → Kept r st d (record s { proofs = modify j f s.proofs })
  Kept-modify d j f s n k = record {
    valid = modify-IsValid s k.valid j f;
    place = k.place;
    index = index_of-modify r j f s.proofs ∙ k.index;
    value = ground (arith, lookup-modify j r f s.proofs, k.value);
    ahead = k.ahead;
    far = k.far;
    round = k.round;
    apart = k.apart;
  }

  Kept-insert :
      (d j : ℕ) (t : ContemplantProofStatus) (s : ProofStore)
      → (j == r) ≡ false
      → Kept r st (suc d) s
      → (s' : ProofStore) × (handle (insert_proof j t) s ≡ some s') × Kept r st d s'
  Kept-insert d j t s n k = elim (Option-cases (index_of j s.proofs)) [
    | inl e ↦
        let cur = s.current_proof_index in
        let other =
          index_of-set_other r j t s.proofs cur k.place n k.index
            (λ h. omega (arith, h, k.far, k.round, k.apart)) in
        (
          advanced (written cur j t s),
          insert_new s k.valid j t e,
          record {
            valid = advanced-IsValid (written cur j t s) (written-IsValid s k.valid cur j t);
            place = k.place;
            index = other.0;
            value = other.1 ∙ k.value;
            ahead = k.ahead - 1;
            far = omega (arith, k.far);
            round = omega (arith, k.round);
            apart = ground (
              arith,
              k.far,
              k.apart,
              k.round,
              mod-cases cur s.max_proofs_stored k.valid.inside,
              index_of-lt r s.proofs k.place k.index,
              k.valid.full,
            );
          },
        )
    | inr (i, e) ↦
        let other =
          index_of-set_other r j t s.proofs i k.place n k.index
            (λ h. let same = index_of_inj j r s.proofs i e (k.index ∙ ap some (sym h)) in cc) in
        (
          written i j t s,
          insert_old s k.valid j t i e,
          record {
            valid = written-IsValid s k.valid i j t;
            place = k.place;
            index = other.0;
            value = other.1 ∙ k.value;
            ahead = k.ahead;
            far = omega (arith, k.far);
            round = k.round;
            apart = k.apart;
          },
        )
  ]

  pub Kept-le : (d e : ℕ) (s : ProofStore) → d ≤ e → Kept r st e s → Kept r st d s
  Kept-le d e s l k = record {
    valid = k.valid;
    place = k.place;
    index = k.index;
    value = k.value;
    ahead = k.ahead;
    far = omega (arith, l, k.far);
    round = k.round;
    apart = k.apart;
  }

  pub Kept-handle :
      (d : ℕ) (c : ProofStoreCommand) (s : ProofStore)
      → writes r c ≡ false
      → Kept r st (bit (is_insert c) + d) s
      → (s' : ProofStore) × (handle c s ≡ some s') × Kept r st d s'
  unfolding handle
  Kept-handle d (get_proof_status j) s n k = (s, refl, Kept-le d (0 + d) s (omega arith) k)
  Kept-handle d (proof_progress_update j u) s n k =
      (_, refl, Kept-modify d j _ s n (Kept-le d (0 + d) s (omega arith) k))
  Kept-handle d (proof_status_update j code proof) s n k =
      (_, refl, Kept-modify d j _ s n (Kept-le d (0 + d) s (omega arith) k))
  Kept-handle d (insert_proof j t) s n k =
      Kept-insert d j t s n (Kept-le (suc d) (1 + d) s (omega arith) k)

  pub Kept-run :
      (cs : List ProofStoreCommand) (s : ProofStore)
      → any (writes r) cs ≡ false
      → Kept r st (count_if is_insert cs) s
      → (s' : ProofStore) × (run cs s ≡ some s') × Kept r st 0 s'
  unfolding run
  Kept-run [] s n k = (s, refl, k)
  Kept-run (c ∷ cs) s n k =
      let (s', e, k') = Kept-handle (count_if is_insert cs) c s (ground arith) k in
      let (s'', e', k'') = Kept-run cs s' (ground arith) k' in (s'', rw (e, run) e', k'')

  -- A proof that is not stored is inserted furthest from the counter.
  pub Kept-inserted :
      (d : ℕ) (s : ProofStore)
      → IsValid s
      → get r s ≡ none
      → d < s.max_proofs_stored
      → (s' : ProofStore) × (handle (insert_proof r st) s ≡ some s') × Kept r st d s'
  Kept-inserted d s v a l =
      let cur = s.current_proof_index in
      let e = index_of-lookup r s.proofs a in
      let w = written cur r st s in
      (
        advanced w,
        insert_new s v r st e,
        record {
          valid = advanced-IsValid w (written-IsValid s v cur r st);
          place = cur;
          index = index_of-set_new r st s.proofs cur e (ground (arith, v.full, v.inside));
          value = lookup-set_new r st s.proofs cur e (ground (arith, v.full, v.inside));
          ahead = s.max_proofs_stored - 1;
          far = omega (arith, l);
          round = omega (arith, l);
          apart = ground (arith, l, mod-cases cur s.max_proofs_stored v.inside);
        },
      )

  -- A proof that is inserted, and was not stored before, is answered with its status after any
  -- commands that do not write it, as long as fewer proofs are inserted among them than the store
  -- has places. None of them panics. The store is a valid one.
  pub get-run :
      (cs : List ProofStoreCommand) (s : ProofStore)
      → IsValid s
      → get r s ≡ none
      → any (writes r) cs ≡ false
      → count_if is_insert cs < s.max_proofs_stored
      → (s' : ProofStore) × (run (insert_proof r st ∷ cs) s ≡ some s') × (get r s' ≡ some st)
  unfolding run
  get-run cs s v a n l =
      let (s', e, k) = Kept-inserted (count_if is_insert cs) s v a l in
      let (s'', e', k') = Kept-run cs s' n k in (s'', rw (e, run) e', k'.value)
