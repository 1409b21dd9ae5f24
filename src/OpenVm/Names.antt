-- ===== src/OpenVm/Names.antt =====
-- The names of programs: which spellings of an id mean the same program.
use hierophant.Prelude.{
  ℕ, ◌≡◌, refl, ◌∙◌, subst, append_nil, Bool, true, false, ◌&&◌, ◌||◌, none, [], ◌∷◌, ◌++◌, ◌==◌,
  leb, or_else, All, arith,
}
use hierophant.Prelude.Texts.{
  Text, is_whitespace, trim_start, trim_end, lowercase, to_ascii_lowercase, strip_prefix,
}
use hierophant.OpenVm.{hex_prefix, normalize_program_id}

-- A digit, or a letter from a to f of either case.
abbrev pub is_hex : ℕ → Bool
is_hex c = leb 48 c && leb c 57 || leb 65 c && leb c 70 || leb 97 c && leb c 102

-- The characters that `0x` and a hexadecimal number have.
abbrev is_plain : ℕ → Bool
is_plain c = is_hex c || c == 120

plain_stays : (c : ℕ) → is_plain c ≡ true → is_whitespace c ≡ false
plain_stays c h = ground (arith, h)

trim_start-plain : (s : Text) → All (λ c. is_plain c ≡ true) s → trim_start s ≡ s
trim_start-plain [] h = refl
trim_start-plain (c ∷ s) (h, g) = rw (plain_stays c h)

blank_start :
    (a s : Text) → All (λ c. is_whitespace c ≡ true) a → trim_start (a ++ s) ≡ trim_start s
blank_start [] s h = refl
blank_start (c ∷ a) s (h, g) = rw (h, blank_start a s g)

blank_end : (b : Text) → All (λ c. is_whitespace c ≡ true) b → trim_end b ≡ []
blank_end [] h = refl
blank_end (c ∷ b) (h, g) = rw (blank_end b g, h)

trim_end-plain :
    (s b : Text)
    → All (λ c. is_plain c ≡ true) s
    → All (λ c. is_whitespace c ≡ true) b
    → trim_end (s ++ b) ≡ s
trim_end-plain [] b h w = blank_end b w
trim_end-plain (c ∷ []) b (h, g) w = rw (blank_end b w, plain_stays c h)
trim_end-plain (c ∷ d ∷ s) b (h, g) w = rw (trim_end-plain (d ∷ s) b g w)

-- A text without blanks survives the trim of it between blanks.
start-plain :
    (s b : Text)
    → All (λ c. is_plain c ≡ true) s
    → All (λ c. is_whitespace c ≡ true) b
    → trim_end (trim_start (s ++ b)) ≡ s
start-plain [] b h w = rw (blank_all b w)
  where
    blank_all : (b : Text) → All (λ c. is_whitespace c ≡ true) b → trim_start b ≡ []
    blank_all [] w = refl
    blank_all (c ∷ b) (h, w) = rw (h, blank_all b w)
start-plain (c ∷ s) b (h, g) w = rw (plain_stays c h) (trim_end-plain (c ∷ s) b (h, g) w)

hex_plain : (s : Text) → All (λ c. is_hex c ≡ true) s → All (λ c. is_plain c ≡ true) s
hex_plain [] h = tt
hex_plain (c ∷ s) (h, g) = (rw h, hex_plain s g)

unprefixed : (s : Text) → All (λ c. is_hex c ≡ true) s → strip_prefix hex_prefix s ≡ none
unprefixed [] h = refl
unprefixed (c ∷ []) h = ground arith
unprefixed (c ∷ d ∷ s) (h, (g, f)) = ground (arith, g)

lower_hex :
    (c : ℕ)
    → is_hex c ≡ true
    → (is_hex (lowercase c) ≡ true) × (lowercase (lowercase c) ≡ lowercase c)
lower_hex c h = ground (arith, h)

lower_again :
    (s : Text)
    → All (λ c. is_hex c ≡ true) s
    → All (λ c. is_hex c ≡ true) (to_ascii_lowercase s)
      × (to_ascii_lowercase (to_ascii_lowercase s) ≡ to_ascii_lowercase s)
lower_again [] h = (tt, refl)
lower_again (c ∷ s) (h, g) =
    let e = lower_hex c h in let f = lower_again s g in ((e.0, f.0), rw (e.1, f.1))

spelled :
    (s : Text) (a b : Text)
    → All (λ c. is_plain c ≡ true) s
    → All (λ c. is_whitespace c ≡ true) a
    → All (λ c. is_whitespace c ≡ true) b
    → normalize_program_id (a ++ (s ++ b))
      ≡ to_ascii_lowercase (or_else s (strip_prefix hex_prefix s))
unfolding normalize_program_id
spelled s a b h v w = rw (blank_start a (s ++ b) v, start-plain s b h w)

-- A hexadecimal number names one program however it is spelled: in any case, between any blanks, and
-- with `0x` or without. Its lower-case digits are the id, and they name themselves.
pub normalize_program_id_lem :
    (h a b : Text)
    → All (λ c. is_hex c ≡ true) h
    → All (λ c. is_whitespace c ≡ true) a
    → All (λ c. is_whitespace c ≡ true) b
    → (normalize_program_id (a ++ (h ++ b)) ≡ to_ascii_lowercase h)
      × (normalize_program_id (a ++ ((hex_prefix ++ h) ++ b)) ≡ to_ascii_lowercase h)
      × (normalize_program_id (to_ascii_lowercase h) ≡ to_ascii_lowercase h)
normalize_program_id_lem h a b x v w = (
  spelled h a b (hex_plain h x) v w ∙ rw (unprefixed h x),
  spelled (hex_prefix ++ h) a b (refl, (refl, hex_plain h x)) v w,
  subst (λ t. normalize_program_id t ≡ to_ascii_lowercase h) (append_nil (to_ascii_lowercase h))
      (spelled (to_ascii_lowercase h) [] [] (hex_plain _ (lower_again h x).0) tt tt
        ∙ rw (unprefixed (to_ascii_lowercase h) (lower_again h x).0, (lower_again h x).1)),
)
