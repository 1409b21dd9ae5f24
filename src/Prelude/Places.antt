-- ===== src/Prelude/Places.antt =====
-- Places of a vector that stands for a map: where the first entry of a key is, and a counter that
-- goes round.
use native.Mathlib.Nat.{mod_self, mod-eq_of_lt}
use Prim.Native.Nat.{ℕ, zero, suc, ◌+◌, ◌<◌, ◌%◌}
use mathlib.Core.Path.{◌≡◌, refl, ap, ◌∙◌}
use mathlib.Core.Bool.{Bool, true, false}
use mathlib.Core.Logic.{◌⊎◌, ◌≢◌, inl, inr}
use mathlib.Core.Option.{Option, none, some}
use mathlib.Core.List.{List, [], ◌∷◌}
use native.Mathlib.Omega.{arith}
use hierophant.Prelude.Tests.{if◌then◌else◌, Eq, map_some, Option-cases}
use hierophant.Prelude.Lists.{length, set, update_first}
use hierophant.Prelude.Dict.{lookup, modify}

module _ {ℓ κ} {K : Type ℓ} {V : Type κ} ⦃e : Eq K⦄ where
  -- `enumerate().find(…)` by the key
  abbrev pub index_of : K → List (K × V) → Option ℕ
  index_of k [] = none
  index_of k ((j, v) ∷ xs) = if e.beq j k then some 0 else map_some suc (index_of k xs)

  pub index_of-lt : (k : K) (xs : List (K × V)) (i : ℕ) → index_of k xs ≡ some i → i < length xs
  index_of-lt k [] i h = cc
  index_of-lt k ((j, v) ∷ xs) i h = elim (Option-cases (index_of k xs)) [
    | inl n ↦ ground arith
    | inr (m, n) ↦ ground (arith, index_of-lt k xs m n)
  ]

  pub lookup-index_of : (k : K) (xs : List (K × V)) → index_of k xs ≡ none → lookup k xs ≡ none
  lookup-index_of k [] h = refl
  lookup-index_of k ((j, v) ∷ xs) h = elim (Option-cases (index_of k xs)) [
    | inl n ↦ ground (arith, lookup-index_of k xs n)
    | inr (m, n) ↦ ground arith
  ]

  pub index_of-lookup : (k : K) (xs : List (K × V)) → lookup k xs ≡ none → index_of k xs ≡ none
  index_of-lookup k [] h = refl
  index_of-lookup k ((j, v) ∷ xs) h = ground (arith, index_of-lookup k xs)

  -- A write over the first entry of the key, and a write of a new key.
  pub lookup-set_here :
      (k : K) (v : V) (xs : List (K × V)) (i : ℕ)
      → index_of k xs ≡ some i
      → lookup k (set xs i (k, v)) ≡ some v
  lookup-set_here k v [] i h = cc
  lookup-set_here k v ((j, w) ∷ xs) zero h = ground (arith, e.beq_iff k k)
  lookup-set_here k v ((j, w) ∷ xs) (suc i) h = elim (Option-cases (index_of k xs)) [
    | inl n ↦ ground arith
    | inr (m, n) ↦ ground (arith, lookup-set_here k v xs i)
  ]

  pub index_of-set_new :
      (k : K) (v : V) (xs : List (K × V)) (i : ℕ)
      → index_of k xs ≡ none
      → i < length xs
      → index_of k (set xs i (k, v)) ≡ some i
  index_of-set_new k v [] i h l = absurd (omega arith)
  index_of-set_new k v ((j, w) ∷ xs) zero h l = ground (arith, e.beq_iff k k)
  index_of-set_new k v ((j, w) ∷ xs) (suc i) h l = elim (Option-cases (index_of k xs)) [
    | inl n ↦ ground (arith, index_of-set_new k v xs i)
    | inr (m, n) ↦ ground arith
  ]

  pub lookup-set_new :
      (k : K) (v : V) (xs : List (K × V)) (i : ℕ)
      → index_of k xs ≡ none
      → i < length xs
      → lookup k (set xs i (k, v)) ≡ some v
  lookup-set_new k v [] i h l = absurd (omega arith)
  lookup-set_new k v ((j, w) ∷ xs) zero h l = ground (arith, e.beq_iff k k)
  lookup-set_new k v ((j, w) ∷ xs) (suc i) h l = elim (Option-cases (index_of k xs)) [
    | inl n ↦ ground (arith, lookup-set_new k v xs i)
    | inr (m, n) ↦ ground arith
  ]

  -- A write of another key elsewhere.
  pub index_of-set_other :
      (k j : K) (v : V) (xs : List (K × V)) (i p : ℕ)
      → e.beq j k ≡ false
      → index_of k xs ≡ some p
      → ◌≢◌ i p
      → (index_of k (set xs i (j, v)) ≡ some p) × (lookup k (set xs i (j, v)) ≡ lookup k xs)
  index_of-set_other k j v [] i p n h d = cc
  index_of-set_other k j v ((a, w) ∷ xs) zero zero n h d = absurd (d refl)
  index_of-set_other k j v ((a, w) ∷ xs) zero (suc p) n h d = ground arith
  index_of-set_other k j v ((a, w) ∷ xs) (suc i) zero n h d = elim (Option-cases (index_of k xs)) [
    | inl m ↦ ground arith
    | inr (q, m) ↦ ground arith
  ]
  index_of-set_other k j v ((a, w) ∷ xs) (suc i) (suc p) n h d =
      elim (Option-cases (index_of k xs)) [
        | inl m ↦ ground arith
        | inr (q, m) ↦ ground (arith, index_of-set_other k j v xs i p n)
      ]

  pub lookup-set_absent :
      (k j : K) (v : V) (xs : List (K × V)) (i : ℕ)
      → e.beq j k ≡ false
      → lookup k xs ≡ none
      → lookup k (set xs i (j, v)) ≡ none
  lookup-set_absent k j v [] i n h = refl
  lookup-set_absent k j v ((a, w) ∷ xs) zero n h = ground arith
  lookup-set_absent k j v ((a, w) ∷ xs) (suc i) n h = ground (arith, lookup-set_absent k j v xs i)

  -- Two keys have their first entries in two places.
  pub index_of_inj :
      (k j : K) (xs : List (K × V)) (i : ℕ)
      → index_of k xs ≡ some i
      → index_of j xs ≡ some i
      → e.beq k j ≡ true
  index_of_inj k j [] i h h' = cc
  index_of_inj k j ((a, w) ∷ xs) zero h h' = elim (Option-cases (index_of k xs)) [
    | inl m ↦ elim (Option-cases (index_of j xs)) [
      | inl n ↦ ground (arith, e.beq_iff a k, e.beq_iff a j, e.beq_iff k j)
      | inr (q, n) ↦ ground (arith, e.beq_iff a k, e.beq_iff a j, e.beq_iff k j)
    ]
    | inr (p, m) ↦ elim (Option-cases (index_of j xs)) [
      | inl n ↦ ground (arith, e.beq_iff a k, e.beq_iff a j, e.beq_iff k j)
      | inr (q, n) ↦ ground (arith, e.beq_iff a k, e.beq_iff a j, e.beq_iff k j)
    ]
  ]
  index_of_inj k j ((a, w) ∷ xs) (suc i) h h' = elim (Option-cases (index_of k xs)) [
    | inl m ↦ ground arith
    | inr (p, m) ↦ elim (Option-cases (index_of j xs)) [
      | inl n ↦ ground arith
      | inr (q, n) ↦ ground (arith, index_of_inj k j xs i)
    ]
  ]

  pub index_of-modify :
      (k j : K) (f : V → V) (xs : List (K × V)) → index_of k (modify j f xs) ≡ index_of k xs
  index_of-modify k j f [] = refl
  index_of-modify k j f ((a, w) ∷ xs) = ground (arith, index_of-modify k j f xs)

module _ {ℓ} {A : Type ℓ} where
  pub length-update_first :
      (p : A → Bool) (f : A → A) (xs : List A) → length (update_first p f xs) ≡ length xs
  length-update_first p f [] = refl
  length-update_first p f (x ∷ xs) = ground (arith, length-update_first p f xs)

-- A counter below `n` goes one on, or from the end back to the start.
pub mod-cases :
    (i n : ℕ) → i < n → ((suc i < n) × ((i + 1) % n ≡ suc i)) ⊎ ((suc i ≡ n) × ((i + 1) % n ≡ 0))
mod-cases i n h =
    let c : (suc i < n) ⊎ (suc i ≡ n) = omega arith in
    elim c [
      | inl l ↦ let e : i + 1 ≡ suc i = omega arith in inl (l, ap (λ x. x % n) e ∙ mod-eq_of_lt l)
      | inr l ↦ let e : i + 1 ≡ n = omega (arith, l) in inr (l, ap (λ x. x % n) e ∙ mod_self n)
    ]
