-- ===== src/Prelude/Counts.antt =====
-- How often a test holds in a list: the measure by which "at most one" is stated, which does not
-- depend on the order of a hash map.
use Prim.Native.Nat.{ℕ, suc, ◌+◌, ◌≤◌}
use mathlib.Core.Path.{◌≡◌, refl, ap, ◌∙◌}
use mathlib.Core.Bool.{Bool, true, false}
use mathlib.Core.List.{List, [], ◌∷◌, ◌++◌, Permᴰ}
use native.Mathlib.Omega.{arith}
use hierophant.Prelude.Lists.{any, keep, update_first}

abbrev pub bit : Bool → ℕ
bit true = 1
bit false = 0

module _ {ℓ} {A : Type ℓ} where
  abbrev pub count_if : (A → Bool) → List A → ℕ
  count_if p [] = 0
  count_if p (x ∷ xs) = bit (p x) + count_if p xs

module _ {ℓ} {A : Type ℓ} (p : A → Bool) where
  pub count_if-append : (xs ys : List A) → count_if p (xs ++ ys) ≡ count_if p xs + count_if p ys
  count_if-append [] ys = omega arith
  count_if-append (x ∷ xs) ys = omega (arith, count_if-append xs ys)

  pub count_if-perm : {xs ys : List A} → Permᴰ xs ys → count_if p xs ≡ count_if p ys
  count_if-perm Permᴰ.nil = refl
  count_if-perm (Permᴰ.cons e h) = ground (arith, ap p e, count_if-perm h)
  count_if-perm (Permᴰ.swap e f) = ground (arith, ap p e, ap p f)
  count_if-perm (Permᴰ.trans h k) = count_if-perm h ∙ count_if-perm k

  pub count_if-keep-le : (q : A → Bool) (xs : List A) → count_if p (keep q xs) ≤ count_if p xs
  count_if-keep-le q [] = omega arith
  count_if-keep-le q (x ∷ xs) = ground (arith, count_if-keep-le q xs)

  pub count_if_zero_of_not_any : (xs : List A) → any p xs ≡ false → count_if p xs ≡ 0
  count_if_zero_of_not_any [] h = refl
  count_if_zero_of_not_any (x ∷ xs) h = ground (arith, count_if_zero_of_not_any xs)

  -- A rewrite that never makes the test true.
  pub count_if-update_first-le :
      (q : A → Bool) (f : A → A)
      → ((a : A) → p (f a) ≡ true → p a ≡ true)
      → (xs : List A) → count_if p (update_first q f xs) ≤ count_if p xs
  count_if-update_first-le q f h [] = omega arith
  count_if-update_first-le q f h (x ∷ xs) = ground (arith, h x, count_if-update_first-le q f h xs)

  -- Any rewrite of one place adds at most one.
  pub count_if-update_first-le-suc :
      (q : A → Bool) (f : A → A) (xs : List A)
      → count_if p (update_first q f xs) ≤ suc (count_if p xs)
  count_if-update_first-le-suc q f [] = omega arith
  count_if-update_first-le-suc q f (x ∷ xs) = ground (arith, count_if-update_first-le-suc q f xs)
