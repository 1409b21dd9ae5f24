-- ===== src/ProofStore.antt =====
-- The contemplant's store of its last proofs (src/contemplant/src/proof_store/store.rs, command.rs
-- and client.rs): a vector of fixed size that is written round and round. A panic (an index out of
-- bounds, a remainder by zero) stands as `none`.
pub mod Ring
pub mod Answers
pub mod Retention
use hierophant.Prelude.{
  ℕ, zero, suc, ◌+◌, ◌%◌, Bool, true, false, Option, none, some, List, [], ◌∷◌, length, set,
  replicate, find?, update_first, map_some, nat_eq, ltb, ◌==◌, if◌then◌else◌, is_some,
}
use hierophant.Prelude.Dict.{lookup, has_key, modify}
use hierophant.Prelude.Places.{index_of}
use hierophant.Network.{
  Bytes, ContemplantProofStatus, ProgressUpdate, done, default_status, progress_update,
}

abbrev pub Proofs : Type 0
Proofs = List (ℕ × ContemplantProofStatus)

pub record ProofStore : Type 0 where
  pub max_proofs_stored : ℕ
  pub proofs : Proofs
  pub current_proof_index : ℕ

pub data ProofStoreCommand : Type 0 where
  get_proof_status : ℕ → ProofStoreCommand
  proof_progress_update : ℕ → ProgressUpdate → ProofStoreCommand
  proof_status_update : ℕ → (execution_status : ℕ) → Option Bytes → ProofStoreCommand
  insert_proof : ℕ → ContemplantProofStatus → ProofStoreCommand

-- `ProofStoreClient::new`, which panics on a size of zero
abbrev pub new : ℕ → Option ProofStore
new zero = none
new (suc n) = some (record {
  max_proofs_stored = suc n;
  proofs = replicate (suc n) (0, default_status);
  current_proof_index = 0;
})

-- What `GetProofStatus` answers: the status in the first entry of the id.
abbrev pub get : ℕ → ProofStore → Option ContemplantProofStatus
get r s = lookup r s.proofs

abbrev pub update_status : ℕ → Option Bytes → ContemplantProofStatus → ContemplantProofStatus
update_status code proof st = record st {
  progress = if is_some proof then some done else st.progress;
  execution_status = code;
  proof = proof;
}

-- `v[i] = x`, with its bounds check
abbrev pub write_at {ℓ} : {A : Type ℓ} → ℕ → A → List A → Option (List A)
write_at i x xs = if ltb i (length xs) then some (set xs i x) else none

-- `increment_current_proof_index`
unfoldable pub increment_current_proof_index : ProofStore → Option ProofStore
increment_current_proof_index s =
    if s.max_proofs_stored == 0
    then none
    else some (record s { current_proof_index = (s.current_proof_index + 1) % s.max_proofs_stored })

abbrev pub with_proofs : ProofStore → Option Proofs → Option ProofStore
with_proofs s none = none
with_proofs s (some ps) = some (record s { proofs = ps })

abbrev pub then_increment : Option ProofStore → Option ProofStore
then_increment none = none
then_increment (some s) = increment_current_proof_index s

unfoldable pub insert_proof_at :
    Option ℕ → ℕ → ContemplantProofStatus → ProofStore → Option ProofStore
unfolding increment_current_proof_index
insert_proof_at (some i) r st s = with_proofs s (write_at i (r, st) s.proofs)
insert_proof_at none r st s =
    then_increment (with_proofs s (write_at s.current_proof_index (r, st) s.proofs))

-- The state after a command.
unfoldable pub handle : ProofStoreCommand → ProofStore → Option ProofStore
unfolding insert_proof_at
handle (get_proof_status r) s = some s
handle (proof_progress_update r u) s =
    some (record s { proofs = modify r (λ st. progress_update st (some u)) s.proofs })
handle (proof_status_update r code proof) s =
    some (record s { proofs = modify r (update_status code proof) s.proofs })
handle (insert_proof r st) s = insert_proof_at (index_of r s.proofs) r st s

-- The event loop on a list of commands.
unfoldable pub run : List ProofStoreCommand → ProofStore → Option ProofStore
unfolding handle
run [] s = some s
run (c ∷ cs) s = elim (handle c s) [ none ↦ none | some s' ↦ run cs s' ]
