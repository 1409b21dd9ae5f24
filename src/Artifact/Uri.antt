-- ===== src/Artifact/Uri.antt =====
-- Names of artifacts (src/hierophant/src/artifact_store/artifact_uri.rs, with the artifact types of
-- src/hierophant/proto/artifact.proto). A text is a list of character codes. A UUID is its 128-bit
-- number; the library that prints and parses one is a parameter.
use hierophant.Prelude.{
  ℕ, Option, none, some, List, [], ◌∷◌, ◌++◌, find?, ◌==◌, if◌then◌else◌, map_some,
}
use hierophant.Prelude.Texts.{Text, same_text}

pub data ArtifactType : Type 0 where
  unspecified_artifact_type : ArtifactType
  program : ArtifactType
  stdin : ArtifactType
  proof : ArtifactType
  transaction : ArtifactType
  state : ArtifactType
  export : ArtifactType
  private_stdin : ArtifactType

pub record ArtifactUri : Type 0 where
  pub id : ℕ
  pub artifact_type : ArtifactType

-- `UNSPECIFIED`, `ARTIFACT`, `TYPE`, `PROGRAM`, `STDIN`, `PROOF`, `TRANSACTION`, `STATE`, `EXPORT`,
-- `PRIVATE` and `_`
abbrev unspecified_word : Text
unspecified_word = 85 ∷ 78 ∷ 83 ∷ 80 ∷ 69 ∷ 67 ∷ 73 ∷ 70 ∷ 73 ∷ 69 ∷ 68 ∷ []

abbrev artifact_word : Text
artifact_word = 65 ∷ 82 ∷ 84 ∷ 73 ∷ 70 ∷ 65 ∷ 67 ∷ 84 ∷ []

abbrev type_word : Text
type_word = 84 ∷ 89 ∷ 80 ∷ 69 ∷ []

abbrev program_word : Text
program_word = 80 ∷ 82 ∷ 79 ∷ 71 ∷ 82 ∷ 65 ∷ 77 ∷ []

abbrev stdin_word : Text
stdin_word = 83 ∷ 84 ∷ 68 ∷ 73 ∷ 78 ∷ []

abbrev proof_word : Text
proof_word = 80 ∷ 82 ∷ 79 ∷ 79 ∷ 70 ∷ []

abbrev transaction_word : Text
transaction_word = 84 ∷ 82 ∷ 65 ∷ 78 ∷ 83 ∷ 65 ∷ 67 ∷ 84 ∷ 73 ∷ 79 ∷ 78 ∷ []

abbrev state_word : Text
state_word = 83 ∷ 84 ∷ 65 ∷ 84 ∷ 69 ∷ []

abbrev export_word : Text
export_word = 69 ∷ 88 ∷ 80 ∷ 79 ∷ 82 ∷ 84 ∷ []

abbrev private_word : Text
private_word = 80 ∷ 82 ∷ 73 ∷ 86 ∷ 65 ∷ 84 ∷ 69 ∷ []

abbrev pub underscore : ℕ
underscore = 95

-- `as_str_name`: the name in the proto file
abbrev pub as_str_name : ArtifactType → Text
as_str_name unspecified_artifact_type =
    unspecified_word ++ underscore ∷ artifact_word ++ underscore ∷ type_word
as_str_name program = program_word
as_str_name stdin = stdin_word
as_str_name proof = proof_word
as_str_name transaction = transaction_word
as_str_name state = state_word
as_str_name export = export_word
as_str_name private_stdin = private_word ++ underscore ∷ stdin_word

abbrev pub artifact_types : List ArtifactType
artifact_types =
    unspecified_artifact_type ∷ program ∷ stdin ∷ proof ∷ transaction ∷ state ∷ export
    ∷ private_stdin ∷ []

-- `from_str_name`
abbrev pub from_str_name : Text → Option ArtifactType
from_str_name s = find? (λ t. same_text (as_str_name t) s) artifact_types

abbrev pub cons_head : ℕ → List Text → List Text
cons_head c [] = []
cons_head c (part ∷ parts) = (c ∷ part) ∷ parts

-- `split(sep)`
abbrev pub split : ℕ → Text → List Text
split sep [] = [] ∷ []
split sep (c ∷ s) = let parts = split sep s in if c == sep then [] ∷ parts else cons_head c parts

module _ (uuid_to_string : ℕ → Text) (parse_uuid : Text → Option ℕ) where
  -- `fmt`
  unfoldable pub display : ArtifactUri → Text
  display u = as_str_name u.artifact_type ++ underscore ∷ uuid_to_string u.id

  -- `from_str` of the parts
  abbrev pub of_parts : List Text → Option ArtifactUri
  of_parts (type_part ∷ id_part ∷ []) = elim (from_str_name type_part) [
    | none ↦ none
    | some t ↦ map_some (λ id. record { id = id; artifact_type = t }) (parse_uuid id_part)
  ]
  of_parts parts = none

  unfoldable pub from_str : Text → Option ArtifactUri
  from_str s = of_parts (split underscore s)
