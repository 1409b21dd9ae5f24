-- ===== src/Artifact/Store/Rings.antt =====
-- One ring and the disk: what is written and what is removed when an artifact takes a place.
use hierophant.Prelude.{
  ℕ, zero, suc, ◌+◌, ◌≤◌, ◌<◌, ◌%◌, ◌≡◌, refl, ◌∙◌, Bool, true, false, not, Option, none, some,
  List, [], ◌∷◌, arith, any, length, get_elem?, set, length-set, count_if, count_if-keep-le,
  Bool-cases, inl, inr,
}
use hierophant.Prelude.Dict.{lookup, lookup-insert, lookup-remove, has_key, has_key-insert}
use hierophant.Prelude.Places.{mod-cases}
use hierophant.Network.{Bytes}
use hierophant.Artifact.Uri.{ArtifactUri}
use hierophant.Artifact.Store.{
  uri_eq, same_uri, same_uri_iff, Disk, FileSystem, Ring, default_uri, make_room, rotate,
  next_artifact, write_file,
}

abbrev pub listed : ArtifactUri → List ArtifactUri → Bool
listed u us = any (λ v. same_uri v u) us

-- The ring has its size, its index is inside, and it names every artifact of its kind on disk.
pub record IsCovering (p : ArtifactUri → Bool) (r : Ring) (d : Disk) : Type 0 where
  pub full : length r.artifacts ≡ r.max_stored
  pub inside : r.current_index < r.max_stored
  pub covers : (u : ArtifactUri) → p u ≡ true → listed u r.artifacts ≡ false → lookup u d ≡ none

abbrev pub rotated : ArtifactUri → Ring → Ring
rotated u r = record r {
  artifacts = set r.artifacts r.current_index u;
  current_index = (r.current_index + 1) % r.max_stored;
}

get_elem?-some :
    (xs : List ArtifactUri) (i : ℕ) → i < length xs → (u : ArtifactUri) × (get_elem? xs i ≡ some u)
get_elem?-some [] i h = absurd (omega arith)
get_elem?-some (x ∷ xs) zero h = (x, refl)
get_elem?-some (x ∷ xs) (suc i) h = get_elem?-some xs i (omega arith)

-- What a ring no longer names once a place is written.
listed-set :
    (v u old : ArtifactUri) (xs : List ArtifactUri) (i : ℕ)
    → get_elem? xs i ≡ some old
    → listed v (set xs i u) ≡ false
    → same_uri old v ≡ false
    → (same_uri u v ≡ false) × (listed v xs ≡ false)
listed-set v u old [] i e n s = cc
listed-set v u old (x ∷ xs) zero e n s = ground arith
listed-set v u old (x ∷ xs) (suc i) e n s = ground (arith, listed-set v u old xs i)

listed-set_new :
    (v u old : ArtifactUri) (xs : List ArtifactUri) (i : ℕ)
    → get_elem? xs i ≡ some old
    → listed v (set xs i u) ≡ false
    → same_uri u v ≡ false
listed-set_new v u old [] i e n = cc
listed-set_new v u old (x ∷ xs) zero e n = ground arith
listed-set_new v u old (x ∷ xs) (suc i) e n = ground (arith, listed-set_new v u old xs i)

module _ (fs : FileSystem) (removes : fs.removes ≡ true) where
  room-none :
      (o : Option ArtifactUri) (v : ArtifactUri) (d : Disk)
      → lookup v d ≡ none
      → lookup v (make_room fs o d) ≡ none
  room-none none v d h = h
  room-none (some old) v d h = ground (arith, lookup-remove old v d)

  room-gone :
      (old : ArtifactUri) (d : Disk)
      → same_uri old default_uri ≡ false
      → lookup old (make_room fs (some old) d) ≡ none
  room-gone old d h = ground (arith, lookup-remove old old d, same_uri_iff old old, removes)

  pub room-one :
      (o : Option ArtifactUri) (a : ArtifactUri) (d : Disk)
      → count_if (has_key a) d ≤ 1
      → count_if (has_key a) (make_room fs o d) ≤ 1
  room-one none a d h = h
  room-one (some old) a d h =
      ground (arith, count_if-keep-le (has_key a) (λ x. not (has_key old x)) d)

write-none :
    (o : Option Bytes) (u v : ArtifactUri) (d : Disk)
    → same_uri u v ≡ false
    → lookup v d ≡ none
    → lookup v (write_file o u d) ≡ none
write-none none u v d n h = h
write-none (some b) u v d n h = ground (arith, lookup-insert u v b d)

pub write-one :
    (o : Option Bytes) (u a : ArtifactUri) (d : Disk)
    → count_if (has_key a) d ≤ 1
    → count_if (has_key a) (write_file o u d) ≤ 1
write-one none u a d h = h
write-one (some b) u a d h = has_key-insert u a b d h

pub rotate_lem :
    (u : ArtifactUri) (r : Ring)
    → length r.artifacts ≡ r.max_stored
    → r.current_index < r.max_stored
    → rotate u r ≡ some (rotated u r)
unfolding rotate
rotate_lem u r f i = ground arith

module _ (fs : FileSystem) (removes : fs.removes ≡ true) (p : ArtifactUri → Bool) (r : Ring)
    (d : Disk) (c : IsCovering p r d) where
  pub IsCovering-rotate :
      (o : Option Bytes) (u : ArtifactUri)
      → p default_uri ≡ false
      → IsCovering p (rotated u r) (write_file o u (make_room fs (next_artifact r) d))
  IsCovering-rotate o u n = record {
    full = length-set r.artifacts r.current_index u ∙ c.full;
    inside = ground (arith, mod-cases r.current_index r.max_stored c.inside);
    covers = λ v t l.
        let (old, e) =
          get_elem?-some r.artifacts r.current_index (ground (arith, c.full, c.inside)) in
        write-none o u v (make_room fs (next_artifact r) d)
          (listed-set_new v u old r.artifacts r.current_index e l)
          (elim (Bool-cases (same_uri old v)) [
            | inl s ↦ rw e (
                ground (
                  arith,
                  same_uri_iff old v,
                  same_uri_iff old default_uri,
                  room-gone fs removes old d,
                ))
            | inr s ↦
                room-none fs removes (next_artifact r) v d
                  (c.covers v t (listed-set v u old r.artifacts r.current_index e l s).1)
          ]);
  }

  pub IsCovering-other :
      (w : Option ArtifactUri) (o : Option Bytes) (u : ArtifactUri)
      → p u ≡ false
      → IsCovering p r (write_file o u (make_room fs w d))
  IsCovering-other w o u n = record {
    full = c.full;
    inside = c.inside;
    covers = λ v t l.
        write-none o u v (make_room fs w d) (ground (arith, same_uri_iff u v))
          (room-none fs removes w v d (c.covers v t l));
  }
