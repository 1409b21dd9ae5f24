-- ===== src/Executor/Answer.antt =====
-- What the proof store answers on a proof that an executor has worked on.
use hierophant.Prelude.{
  ℕ, ◌≡◌, refl, ◌∙◌, Bool, true, false, some, List, [], ◌∷◌, ◌++◌, arith, nat_eq, ◌==◌, any,
  count_if, not,
}
use hierophant.Prelude.Places.{index_of-modify}
use hierophant.Prelude.Dict.{lookup-modify, modify}
use hierophant.Network.{ContemplantProofStatus, progress_update}
use hierophant.ProofStore.{
  ProofStore, ProofStoreCommand, get_proof_status, proof_progress_update, proof_status_update,
  insert_proof, handle, run, update_status,
}
use hierophant.ProofStore.Ring.{modify-IsValid}
use hierophant.ProofStore.Retention.{Kept, Kept-run, Kept-handle, writes, is_insert}
use hierophant.Executor.{interleave}

-- The command reports on the proof `r`.
abbrev pub reports_on : ℕ → ProofStoreCommand → Bool
reports_on r (get_proof_status j) = false
reports_on r (proof_progress_update j u) = j == r
reports_on r (proof_status_update j code proof) = j == r
reports_on r (insert_proof j st) = false

-- The status after a report.
abbrev pub reported : ProofStoreCommand → ContemplantProofStatus → ContemplantProofStatus
reported (get_proof_status j) st = st
reported (proof_progress_update j u) st = progress_update st (some u)
reported (proof_status_update j code proof) st = update_status code proof st
reported (insert_proof j t) st = st

-- The status after reports.
abbrev pub reported_all : List ProofStoreCommand → ContemplantProofStatus → ContemplantProofStatus
reported_all [] st = st
reported_all (c ∷ cs) st = reported_all cs (reported c st)

module _ (r : ℕ) where
  Kept-changed :
      (st : ContemplantProofStatus) (d j : ℕ) (f : ContemplantProofStatus → ContemplantProofStatus)
      (s : ProofStore)
      → (j == r) ≡ true
      → Kept r st d s
      → Kept r (f st) d (record s { proofs = modify j f s.proofs })
  Kept-changed st d j f s n k = record {
    valid = modify-IsValid s k.valid j f;
    place = k.place;
    index = index_of-modify r j f s.proofs ∙ k.index;
    value = ground (arith, lookup-modify j r f s.proofs, k.value, n);
    ahead = k.ahead;
    far = k.far;
    round = k.round;
    apart = k.apart;
  }

  Kept-reported :
      (st : ContemplantProofStatus) (d : ℕ) (c : ProofStoreCommand) (s : ProofStore)
      → reports_on r c ≡ true
      → Kept r st d s
      → (s' : ProofStore) × (handle c s ≡ some s') × Kept r (reported c st) d s'
  unfolding handle
  Kept-reported st d (get_proof_status j) s n k = ground (arith, n)
  Kept-reported st d (proof_progress_update j u) s n k = (_, refl, Kept-changed st d j _ s n k)
  Kept-reported st d (proof_status_update j code proof) s n k =
      (_, refl, Kept-changed st d j _ s n k)
  Kept-reported st d (insert_proof j t) s n k = ground (arith, n)

  pub Kept-then :
      (st : ContemplantProofStatus) (c : ProofStoreCommand) (cs : List ProofStoreCommand)
      (s s' : ProofStore)
      → handle c s ≡ some s'
      → (s'' : ProofStore) × (run cs s' ≡ some s'') × Kept r st 0 s''
      → (s'' : ProofStore) × (run (c ∷ cs) s ≡ some s'') × Kept r st 0 s''
  unfolding run
  Kept-then st c cs s s' e (s'', e', k) = (s'', rw (e, run) e', k)

  Kept-run_reports :
      (cs : List ProofStoreCommand) (st : ContemplantProofStatus) (s : ProofStore)
      → any (λ c. not (reports_on r c)) cs ≡ false
      → Kept r st 0 s
      → (s' : ProofStore) × (run cs s ≡ some s') × Kept r (reported_all cs st) 0 s'
  unfolding run
  Kept-run_reports [] st s n k = (s, refl, k)
  Kept-run_reports (c ∷ cs) st s n k =
      let (s', e, k') = Kept-reported st 0 c s (ground arith) k in
      Kept-then _ c cs s s' e (Kept-run_reports cs (reported c st) s' (ground arith) k')

  Kept-append :
      (cs ys : List ProofStoreCommand) (st : ContemplantProofStatus) (s : ProofStore)
      → any (λ c. not (reports_on r c)) cs ≡ false
      → any (writes r) ys ≡ false
      → Kept r st (count_if is_insert ys) s
      → (s' : ProofStore) × (run (cs ++ ys) s ≡ some s') × Kept r (reported_all cs st) 0 s'
  Kept-append [] ys st s n m k = Kept-run r st ys s m k
  Kept-append (c ∷ cs) ys st s n m k =
      let (s', e, k') = Kept-reported st (count_if is_insert ys) c s (ground arith) k in
      Kept-then _ c (cs ++ ys) s s' e (Kept-append cs ys (reported c st) s' (ground arith) m k')

  pub Kept-interleave :
      (schedule : List Bool) (cs ys : List ProofStoreCommand) (st : ContemplantProofStatus)
      (s : ProofStore)
      → any (λ c. not (reports_on r c)) cs ≡ false
      → any (writes r) ys ≡ false
      → Kept r st (count_if is_insert ys) s
      → (s' : ProofStore) × (run (interleave schedule cs ys) s ≡ some s')
        × Kept r (reported_all cs st) 0 s'
  unfolding interleave
  Kept-interleave [] cs ys st s n m k = Kept-append cs ys st s n m k
  Kept-interleave (true ∷ bs) [] ys st s n m k = Kept-run r st ys s m k
  Kept-interleave (true ∷ bs) (c ∷ cs) ys st s n m k =
      let (s', e, k') = Kept-reported st (count_if is_insert ys) c s (ground arith) k in
      Kept-then _ c _ s s' e (Kept-interleave bs cs ys (reported c st) s' (ground arith) m k')
  Kept-interleave (false ∷ bs) cs [] st s n m k = Kept-run_reports cs st s n k
  Kept-interleave (false ∷ bs) cs (y ∷ ys) st s n m k =
      let (s', e, k') = Kept-handle r st (count_if is_insert ys) y s (ground arith) k in
      Kept-then _ y _ s s' e (Kept-interleave bs cs ys st s' n (ground arith) k')
