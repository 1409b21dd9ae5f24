-- ===== src/Artifact/Store.antt =====
-- The artifact store (src/hierophant/src/artifact_store/store.rs): which artifacts may be uploaded,
-- which are on disk, and the two rings that bound how many are. A file is named by the artifact name
-- that its path is made of. A panic stands as `none`.
pub mod Rings
pub mod Bound
pub mod Upload
use hierophant.Prelude.{
  ℕ, ◌+◌, ◌%◌, ◌≡◌, ◌↔◌, refl, sym, ap, ◌∙◌, Bool, true, false, not, ◌&&◌, Option, none, some, List,
  [], ◌∷◌, arith, Eq, ltb, ◌==◌, if◌then◌else◌, is_some, any, length, get_elem?, set, replicate,
  ==_iff,
}
use hierophant.Prelude.Dict.{lookup, insert, remove}
use hierophant.Network.{Bytes}
use hierophant.Artifact.Uri.{
  ArtifactType, ArtifactUri, unspecified_artifact_type, program, stdin, proof, transaction, state,
  export, private_stdin,
}

-- The number of the type in the proto file.
abbrev pub type_code : ArtifactType → ℕ
type_code unspecified_artifact_type = 0
type_code program = 1
type_code stdin = 2
type_code proof = 3
type_code transaction = 4
type_code state = 5
type_code export = 6
type_code private_stdin = 7

abbrev pub same_uri : ArtifactUri → ArtifactUri → Bool
same_uri u v = u.id == v.id && type_code u.artifact_type == type_code v.artifact_type

abbrev of_code : ℕ → ArtifactType
of_code n =
    if n == 1
    then program
    else if n == 2
    then stdin
    else if n == 3
    then proof
    else if n == 4
    then transaction
    else if n == 5
    then state
    else if n == 6
    then export
    else if n == 7
    then private_stdin
    else unspecified_artifact_type

of_code-type_code : (t : ArtifactType) → of_code (type_code t) ≡ t
of_code-type_code unspecified_artifact_type = refl
of_code-type_code program = refl
of_code-type_code stdin = refl
of_code-type_code proof = refl
of_code-type_code transaction = refl
of_code-type_code state = refl
of_code-type_code export = refl
of_code-type_code private_stdin = refl

pub same_uri_iff : (u v : ArtifactUri) → (same_uri u v ≡ true) ↔ (u ≡ v)
same_uri_iff u v = (
  λ h.
      let i : u.id ≡ v.id = ground arith in
      let c : type_code u.artifact_type ≡ type_code v.artifact_type = ground arith in
      let t : u.artifact_type ≡ v.artifact_type =
        sym (of_code-type_code u.artifact_type)
        ∙ ap of_code c
        ∙ of_code-type_code v.artifact_type in
      cc,
  λ h. ground (arith, ap (λ w. w.id) h, ap (λ w. type_code w.artifact_type) h),
)

instance abbrev pub uri_eq : Eq ArtifactUri
uri_eq = record { beq = same_uri; beq_iff = same_uri_iff }

abbrev pub Disk : Type 0
Disk = List (ArtifactUri × Bytes)

-- How the file system answers during a command: whether it removes and reads a file that is there,
-- what a write leaves behind, and whether the write succeeds.
pub record FileSystem : Type 0 where
  pub removes : Bool
  pub reads : Bool
  pub leaves : Bytes → Option Bytes
  pub writes : Bool

-- One of the two rings of artifacts to trim, and its next place.
pub record Ring : Type 0 where
  pub max_stored : ℕ
  pub artifacts : List ArtifactUri
  pub current_index : ℕ

pub record ArtifactStore : Type 0 where
  pub disk : Disk
  pub upload_uris : List ArtifactUri
  pub stdin_ring : Ring
  pub proof_ring : Ring

-- `ArtifactUri::default`, with the nil UUID
abbrev pub default_uri : ArtifactUri
default_uri = record { id = 0; artifact_type = unspecified_artifact_type }

abbrev pub new_ring : ℕ → Ring
new_ring n = record { max_stored = n; artifacts = replicate n default_uri; current_index = 0 }

-- `ArtifactStore::new`, on an empty directory
abbrev pub new : ℕ → ℕ → ArtifactStore
new max_stdin max_proof = record {
  disk = [];
  upload_uris = [];
  stdin_ring = new_ring max_stdin;
  proof_ring = new_ring max_proof;
}

-- The name is fresh, from `Uuid::new_v4`.
abbrev pub handle_create_artifact : ArtifactUri → ArtifactStore → ArtifactStore
handle_create_artifact u s = record s { upload_uris = u ∷ s.upload_uris }

abbrev pub handle_delete_artifact : FileSystem → ArtifactUri → Disk → Disk
handle_delete_artifact fs u d = if fs.removes then remove u d else d

-- The artifact at the next place of the ring goes, unless it is the default.
abbrev pub make_room : FileSystem → Option ArtifactUri → Disk → Disk
make_room fs none d = d
make_room fs (some old) d = if same_uri old default_uri then d else handle_delete_artifact fs old d

-- The new one takes its place, and the index goes round.
unfoldable pub rotate : ArtifactUri → Ring → Option Ring
rotate u r =
    if ltb r.current_index (length r.artifacts) && not (r.max_stored == 0)
    then some (record r {
      artifacts = set r.artifacts r.current_index u;
      current_index = (r.current_index + 1) % r.max_stored;
    })
    else none

abbrev pub next_artifact : Ring → Option ArtifactUri
next_artifact r = get_elem? r.artifacts r.current_index

abbrev pub is_stdin : ArtifactType → Bool
is_stdin stdin = true
is_stdin private_stdin = true
is_stdin t = false

abbrev pub is_proof : ArtifactType → Bool
is_proof proof = true
is_proof t = false

abbrev pub with_stdin_ring : ArtifactStore → Disk → Option Ring → Option ArtifactStore
with_stdin_ring s d none = none
with_stdin_ring s d (some r) = some (record s { disk = d; stdin_ring = r })

abbrev pub with_proof_ring : ArtifactStore → Disk → Option Ring → Option ArtifactStore
with_proof_ring s d none = none
with_proof_ring s d (some r) = some (record s { disk = d; proof_ring = r })

-- The `match` on the artifact's type.
unfoldable pub trim : FileSystem → ArtifactUri → ArtifactStore → Option ArtifactStore
unfolding rotate
trim fs u s =
    if is_proof u.artifact_type
    then with_proof_ring s (make_room fs (next_artifact s.proof_ring) s.disk)
        (rotate u s.proof_ring)
    else if is_stdin u.artifact_type
    then with_stdin_ring s (make_room fs (next_artifact s.stdin_ring) s.disk)
        (rotate u s.stdin_ring)
    else some s

abbrev pub write_file : Option Bytes → ArtifactUri → Disk → Disk
write_file none u d = d
write_file (some b) u d = insert u b d

pub data SaveResult : Type 0 where
  saved : SaveResult
  not_registered : SaveResult
  write_failed : SaveResult

abbrev pub write_artifact :
    FileSystem → ArtifactUri → Bytes → Option ArtifactStore → Option (ArtifactStore × SaveResult)
write_artifact fs u b none = none
write_artifact fs u b (some s) = some (
  record s { disk = write_file (fs.leaves b) u s.disk },
  if fs.writes then saved else write_failed,
)

unfoldable pub handle_save_artifact :
    FileSystem → ArtifactUri → Bytes → ArtifactStore → Option (ArtifactStore × SaveResult)
unfolding trim
handle_save_artifact fs u b s =
    if not (any (same_uri u) s.upload_uris)
    then some (s, not_registered)
    else if is_some (lookup u s.disk)
    then some (s, saved)
    else write_artifact fs u b (trim fs u s)

-- `none` is the error of `fs::read`.
abbrev pub handle_get_artifact_bytes :
    FileSystem → ArtifactUri → ArtifactStore → Option (Option Bytes)
handle_get_artifact_bytes fs u s =
    if is_some (lookup u s.disk)
    then if fs.reads then some (lookup u s.disk) else none
    else some none

pub data Operation : Type 0 where
  create_artifact : ArtifactUri → Operation
  save_artifact : FileSystem → ArtifactUri → Bytes → Operation
  get_artifact_bytes : FileSystem → ArtifactUri → Operation

abbrev pub saved_store : Option (ArtifactStore × SaveResult) → Option ArtifactStore
saved_store none = none
saved_store (some (s, res)) = some s

-- The event loop on a list of commands.
unfoldable pub handle : Operation → ArtifactStore → Option ArtifactStore
unfolding handle_save_artifact
handle (create_artifact u) s = some (handle_create_artifact u s)
handle (save_artifact fs u b) s = saved_store (handle_save_artifact fs u b s)
handle (get_artifact_bytes fs u) s = some s

unfoldable pub run : List Operation → ArtifactStore → Option ArtifactStore
unfolding handle
run [] s = some s
run (o ∷ os) s = elim (handle o s) [ none ↦ none | some s' ↦ run os s' ]
