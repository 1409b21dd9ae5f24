-- ===== src/Artifact/RoundTrip.antt =====
-- What the parser makes of a printed artifact name.
use hierophant.Prelude.{
  ℕ, ◌≡◌, refl, Bool, false, Option, none, some, [], ◌∷◌, arith, any, ◌==◌, if◌then◌else◌,
}
use hierophant.Artifact.Uri.{
  ArtifactType, ArtifactUri, underscore, as_str_name, split, display, from_str,
  unspecified_artifact_type, program, stdin, proof, transaction, state, export, private_stdin,
}
use hierophant.Prelude.Texts.{Text}

-- The name of the type has an underscore of its own.
abbrev pub is_two_words : ArtifactType → Bool
is_two_words t = any (λ c. c == underscore) (as_str_name t)

split_whole : (sep : ℕ) (s : Text) → any (λ c. c == sep) s ≡ false → split sep s ≡ s ∷ []
split_whole sep [] h = refl
split_whole sep (c ∷ s) h = ground (arith, split_whole sep s)

-- A printed name parses to itself, but for the two types whose names have an underscore, of which
-- PRIVATE_STDIN is one: these do not parse. The UUID library parses what it prints, and prints no
-- underscore.
pub from_str-display :
    (uuid_to_string : ℕ → Text) (parse_uuid : Text → Option ℕ)
    → ((id : ℕ) → parse_uuid (uuid_to_string id) ≡ some id)
    → ((id : ℕ) → any (λ c. c == underscore) (uuid_to_string id) ≡ false)
    → (u : ArtifactUri)
    → from_str uuid_to_string parse_uuid (display uuid_to_string parse_uuid u)
      ≡ (if is_two_words u.artifact_type then none else some u)
unfolding from_str display
from_str-display print parse back plain u = go u.artifact_type
  where
    s : split underscore (print u.id) ≡ print u.id ∷ []
    s = split_whole underscore (print u.id) (plain u.id)

    go :
        (t : ArtifactType)
        → from_str print parse (display print parse (record { id = u.id; artifact_type = t }))
          ≡ (if is_two_words t then none else some (record { id = u.id; artifact_type = t }))
    go unspecified_artifact_type = refl
    go program = rw (s, back u.id) refl
    go stdin = rw (s, back u.id) refl
    go proof = rw (s, back u.id) refl
    go transaction = rw (s, back u.id) refl
    go state = rw (s, back u.id) refl
    go export = rw (s, back u.id) refl
    go private_stdin = rw s refl
