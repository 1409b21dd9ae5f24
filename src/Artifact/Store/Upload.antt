-- ===== src/Artifact/Store/Upload.antt =====
-- What an upload does to what is read afterwards.
use hierophant.Prelude.{◌≡◌, refl, true, none, some, arith, any, Bool-cases, inl, inr, string_eq}
use hierophant.Prelude.Dict.{lookup, insert, lookup-insert}
use hierophant.Network.{Bytes}
use hierophant.Artifact.Uri.{ArtifactUri}
use hierophant.Artifact.Store.{
  uri_eq, same_uri, same_uri_iff, FileSystem, ArtifactStore, is_stdin, is_proof, trim, make_room,
  next_artifact, saved, handle_save_artifact, handle_get_artifact_bytes,
}
use hierophant.Artifact.Store.Rings.{rotate_lem, rotated}
use hierophant.Artifact.Store.Bound.{IsValid}

module _ (fs : FileSystem) (u : ArtifactUri) (b : Bytes) (s : ArtifactStore) (v : IsValid s) where
  -- Making room for an artifact never panics.
  trim_total : (t : ArtifactStore) × (trim fs u s ≡ some t)
  unfolding trim
  trim_total = elim (Bool-cases (is_proof u.artifact_type)) [
    | inl p ↦ (
      record s {
        disk = make_room fs (next_artifact s.proof_ring) s.disk;
        proof_ring = rotated u s.proof_ring;
      },
      rw (p, rotate_lem u s.proof_ring v.proofs.full v.proofs.inside, trim) refl,
    )
    | inr p ↦ elim (Bool-cases (is_stdin u.artifact_type)) [
      | inl i ↦ (
        record s {
          disk = make_room fs (next_artifact s.stdin_ring) s.disk;
          stdin_ring = rotated u s.stdin_ring;
        },
        rw (p, i, rotate_lem u s.stdin_ring v.stdins.full v.stdins.inside, trim) refl,
      )
      | inr i ↦ (s, rw (p, i, trim) refl)
    ]
  ]

  -- An artifact that is registered for upload and not on disk is read back as it was uploaded, where
  -- the write succeeds, leaves the bytes, and the file can be read; whether an old artifact could be
  -- removed for it does not matter. The store is a valid one.
  pub get-save :
      (reader : FileSystem)
      → any (same_uri u) s.upload_uris ≡ true
      → lookup u s.disk ≡ none
      → fs.leaves b ≡ some b
      → fs.writes ≡ true
      → reader.reads ≡ true
      → (s' : ArtifactStore) × (handle_save_artifact fs u b s ≡ some (s', saved))
        × (handle_get_artifact_bytes reader u s' ≡ some (some b))
  unfolding handle_save_artifact
  get-save reader e n l w r =
      let (t, k) = trim_total in
      (
        record t { disk = insert u b t.disk },
        rw (e, n, k, l, w, handle_save_artifact) refl,
        ground (arith, lookup-insert u u b t.disk, same_uri_iff u u),
      )
