-- ===== src/Artifact/Store/Bound.antt =====
-- How many artifacts are on disk: the rings bound the inputs and the proofs.
use hierophant.Prelude.{
  ℕ, ◌≤◌, ◌<◌, ◌≡◌, refl, ◌∙◌, Bool, true, false, not, Option, none, some, List, [], ◌∷◌, arith,
  is_some, any, length-replicate, count_if, Bool-cases, inl, inr,
}
use hierophant.Prelude.Dict.{lookup, has_key, count_if_le_of_listed}
use hierophant.Network.{Bytes}
use hierophant.Artifact.Uri.{ArtifactType, ArtifactUri}
use hierophant.Artifact.Store.{
  uri_eq, same_uri, FileSystem, ArtifactStore, new, make_room, next_artifact, is_stdin, is_proof,
  trim, write_file, handle_save_artifact, handle, run, Operation, saved_store, create_artifact,
  save_artifact, get_artifact_bytes,
}
use hierophant.Artifact.Store.Rings.{
  IsCovering, rotated, rotate_lem, write-one, room-one, IsCovering-rotate, IsCovering-other,
}

abbrev pub stdin_uri : ArtifactUri → Bool
stdin_uri u = is_stdin u.artifact_type

abbrev pub proof_uri : ArtifactUri → Bool
proof_uri u = is_proof u.artifact_type

pub record IsValid (s : ArtifactStore) : Type 0 where
  pub one : (u : ArtifactUri) → count_if (has_key u) s.disk ≤ 1
  pub stdins : IsCovering stdin_uri s.stdin_ring s.disk
  pub proofs : IsCovering proof_uri s.proof_ring s.disk

-- A command that goes through, to a valid store with rings of the same sizes.
abbrev pub Succeeds : Option ArtifactStore → ArtifactStore → Type 0
Succeeds o s =
    (s' : ArtifactStore) × (o ≡ some s')
    × IsValid s'
    × (s'.stdin_ring.max_stored ≡ s.stdin_ring.max_stored)
    × (s'.proof_ring.max_stored ≡ s.proof_ring.max_stored)

is_stdin_of_is_proof : (t : ArtifactType) → is_proof t ≡ true → is_stdin t ≡ false
is_stdin_of_is_proof t h = ground arith

module _ (fs : FileSystem) (u : ArtifactUri) (b : Bytes) (s : ArtifactStore) where
  -- Room is made for the artifact, and then the file is written.
  trim-Succeeds :
      (o : Option Bytes)
      → fs.removes ≡ true
      → IsValid s
      → (t : ArtifactStore) × (trim fs u s ≡ some t)
        × IsValid (record t { disk = write_file o u t.disk })
        × (t.stdin_ring.max_stored ≡ s.stdin_ring.max_stored)
        × (t.proof_ring.max_stored ≡ s.proof_ring.max_stored)
  unfolding trim
  trim-Succeeds o removes v = elim (Bool-cases (is_proof u.artifact_type)) [
    | inl t ↦
        let old = next_artifact s.proof_ring in
        (
          record s { disk = make_room fs old s.disk; proof_ring = rotated u s.proof_ring },
          rw (t, rotate_lem u s.proof_ring v.proofs.full v.proofs.inside, trim) refl,
          record {
            one = λ a. write-one o u a _ (room-one fs removes old a s.disk (v.one a));
            stdins =
                IsCovering-other fs removes stdin_uri s.stdin_ring s.disk v.stdins old o u
                  (is_stdin_of_is_proof u.artifact_type t);
            proofs = IsCovering-rotate fs removes proof_uri s.proof_ring s.disk v.proofs o u refl;
          },
          refl,
          refl,
        )
    | inr t ↦ elim (Bool-cases (is_stdin u.artifact_type)) [
      | inl i ↦
          let old = next_artifact s.stdin_ring in
          (
            record s { disk = make_room fs old s.disk; stdin_ring = rotated u s.stdin_ring },
            rw (t, i, rotate_lem u s.stdin_ring v.stdins.full v.stdins.inside, trim) refl,
            record {
              one = λ a. write-one o u a _ (room-one fs removes old a s.disk (v.one a));
              stdins = IsCovering-rotate fs removes stdin_uri s.stdin_ring s.disk v.stdins o u refl;
              proofs = IsCovering-other fs removes proof_uri s.proof_ring s.disk v.proofs old o u t;
            },
            refl,
            refl,
          )
      | inr i ↦ (
        s,
        rw (t, i, trim) refl,
        record {
          one = λ a. write-one o u a _ (v.one a);
          stdins = IsCovering-other fs removes stdin_uri s.stdin_ring s.disk v.stdins none o u i;
          proofs = IsCovering-other fs removes proof_uri s.proof_ring s.disk v.proofs none o u t;
        },
        refl,
        refl,
      )
    ]
  ]

  save-Succeeds :
      fs.removes ≡ true → IsValid s → Succeeds (saved_store (handle_save_artifact fs u b s)) s
  unfolding handle_save_artifact
  save-Succeeds removes v = elim (Bool-cases (any (same_uri u) s.upload_uris)) [
    | inr e ↦ (s, rw (e, handle_save_artifact) refl, v, refl, refl)
    | inl e ↦ elim (Bool-cases (is_some (lookup u s.disk))) [
      | inl k ↦ (s, rw (e, k, handle_save_artifact) refl, v, refl, refl)
      | inr k ↦
          let (t, m, w, i, j) = trim-Succeeds (fs.leaves b) removes v in
          (
            record t { disk = write_file (fs.leaves b) u t.disk },
            rw (e, k, m, handle_save_artifact) refl,
            w,
            i,
            j,
          )
    ]
  ]

-- The file system removes the files that the operation asks it to.
abbrev pub can_remove : Operation → Bool
can_remove (create_artifact u) = true
can_remove (save_artifact fs u b) = fs.removes
can_remove (get_artifact_bytes fs u) = true

handle-Succeeds :
    (o : Operation) (s : ArtifactStore) → can_remove o ≡ true → IsValid s → Succeeds (handle o s) s
unfolding handle
handle-Succeeds (create_artifact u) s r v =
    (_, refl, record { one = v.one; stdins = v.stdins; proofs = v.proofs }, refl, refl)
handle-Succeeds (save_artifact fs u b) s r v = save-Succeeds fs u b s r v
handle-Succeeds (get_artifact_bytes fs u) s r v = (s, refl, v, refl, refl)

run-Succeeds :
    (os : List Operation) (s : ArtifactStore)
    → any (λ o. not (can_remove o)) os ≡ false
    → IsValid s
    → Succeeds (run os s) s
unfolding run
run-Succeeds [] s r v = (s, refl, v, refl, refl)
run-Succeeds (o ∷ os) s r v =
    let (s', e, v', m, n) = handle-Succeeds o s (ground arith) v in
    let (s'', e', v'', m', n') = run-Succeeds os s' (ground arith) v' in
    (s'', rw (e, run) e', v'', m' ∙ m, n' ∙ n)

-- From an empty directory and rings of positive sizes, after any commands, none panics, and the disk
-- holds at most as many inputs (public and private ones together) as the one ring has places and at
-- most as many proofs as the other, where the file system removes the files that it is asked to.
pub run-new_bounded :
    (max_stdin max_proof : ℕ) (os : List Operation)
    → 0 < max_stdin
    → 0 < max_proof
    → any (λ o. not (can_remove o)) os ≡ false
    → (s : ArtifactStore) × (run os (new max_stdin max_proof) ≡ some s)
      × (count_if (λ x. stdin_uri x.0) s.disk ≤ max_stdin)
      × (count_if (λ x. proof_uri x.0) s.disk ≤ max_proof)
run-new_bounded m n os hm hn r =
    let (s, e, v, em, en) = run-Succeeds os (new m n) r (record {
      one = λ a. omega arith;
      stdins = record { full = length-replicate m _; inside = hm; covers = λ a t l. refl };
      proofs = record { full = length-replicate n _; inside = hn; covers = λ a t l. refl };
    }) in
    (
      s,
      e,
      omega (
        arith,
        count_if_le_of_listed stdin_uri s.stdin_ring.artifacts s.disk v.one v.stdins.covers,
        v.stdins.full,
        em,
      ),
      omega (
        arith,
        count_if_le_of_listed proof_uri s.proof_ring.artifacts s.disk v.one v.proofs.covers,
        v.proofs.full,
        en,
      ),
    )
