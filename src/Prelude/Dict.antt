-- ===== src/Prelude/Dict.antt =====
-- A hash map as its entries in iteration order. The order of a Rust `HashMap` is unspecified: what
-- iterates over one is modelled on a list in any order, and a new key may stand anywhere.
use Prim.Native.Nat.{◌+◌, ◌≤◌, ◌<◌}
use mathlib.Core.Path.{◌≡◌, refl}
use mathlib.Core.Bool.{Bool, true, false, not}
use mathlib.Core.Option.{Option, none, some}
use mathlib.Core.List.{map, List, [], ◌∷◌, ◌++◌}
use native.Mathlib.Omega.{arith}
use hierophant.Prelude.Tests.{if◌then◌else◌, Eq, map_some}
use hierophant.Prelude.Lists.{any, keep, update_first, length}
use hierophant.Prelude.Counts.{count_if-append, count_if-keep-le, bit, count_if}

module _ {ℓ κ} {K : Type ℓ} {V : Type κ} ⦃e : Eq K⦄ where
  -- `get(k)`
  abbrev pub lookup : K → List (K × V) → Option V
  lookup k [] = none
  lookup k ((j, v) ∷ m) = if e.beq j k then some v else lookup k m

  abbrev pub has_key : K → K × V → Bool
  has_key k (j, v) = e.beq j k

  -- `remove(k)`
  abbrev pub remove : K → List (K × V) → List (K × V)
  remove k = keep (λ x. not (has_key k x))

  -- `insert(k, v)`
  abbrev pub insert : K → V → List (K × V) → List (K × V)
  insert k v [] = (k, v) ∷ []
  insert k v ((j, w) ∷ m) = if e.beq j k then (j, v) ∷ m else (j, w) ∷ insert k v m

  -- `get_mut(k)`, with the value then rewritten by `f`
  abbrev pub modify : K → (V → V) → List (K × V) → List (K × V)
  modify k f = update_first (has_key k) (λ (j, v). (j, f v))

  pub lookup-insert :
      (k j : K) (v : V) (m : List (K × V))
      → lookup j (insert k v m) ≡ (if e.beq k j then some v else lookup j m)
  lookup-insert k j v [] = refl
  lookup-insert k j v ((i, w) ∷ m) =
      ground (arith, e.beq_iff k j, e.beq_iff i k, e.beq_iff i j, lookup-insert k j v m)

  pub lookup-remove :
      (k j : K) (m : List (K × V))
      → lookup j (remove k m) ≡ (if e.beq k j then none else lookup j m)
  lookup-remove k j [] = ground arith
  lookup-remove k j ((i, w) ∷ m) =
      ground (arith, e.beq_iff k j, e.beq_iff i k, e.beq_iff i j, lookup-remove k j m)

  pub lookup-modify :
      (k j : K) (f : V → V) (m : List (K × V))
      → lookup j (modify k f m) ≡ (if e.beq k j then map_some f (lookup j m) else lookup j m)
  lookup-modify k j f [] = ground arith
  lookup-modify k j f ((i, w) ∷ m) =
      ground (arith, e.beq_iff k j, e.beq_iff i k, e.beq_iff i j, lookup-modify k j f m)

  -- What an insertion adds to a count, whatever it replaces.
  pub count_if-insert-le :
      (p : K × V → Bool) (k : K) (v : V) (m : List (K × V))
      → count_if p (insert k v m) ≤ bit (p (k, v)) + count_if p m
  count_if-insert-le p k v [] = omega arith
  count_if-insert-le p k v ((i, w) ∷ m) = ground (arith, e.beq_iff i k, count_if-insert-le p k v m)

  -- A key that no entry has.
  pub lookup-append_absent :
      (k : K) (m n : List (K × V)) → count_if (has_key k) m ≡ 0 → lookup k (m ++ n) ≡ lookup k n
  lookup-append_absent k [] n h = refl
  lookup-append_absent k ((j, v) ∷ m) n h = ground (arith, lookup-append_absent k m n)

  pub remove_absent : (k : K) (m : List (K × V)) → count_if (has_key k) m ≡ 0 → remove k m ≡ m
  remove_absent k [] h = refl
  remove_absent k ((j, v) ∷ m) h = ground (arith, remove_absent k m)

  pub count_if_zero_of_lookup :
      (k : K) (m : List (K × V)) → lookup k m ≡ none → count_if (has_key k) m ≡ 0
  count_if_zero_of_lookup k [] h = refl
  count_if_zero_of_lookup k ((j, v) ∷ m) h = ground (arith, count_if_zero_of_lookup k m)

  -- Removing a key that one entry has.
  pub remove-append_middle :
      (k : K) (v : V) (m n : List (K × V))
      → count_if (has_key k) (m ++ (k, v) ∷ n) ≤ 1
      → (remove k (m ++ (k, v) ∷ n) ≡ m ++ n) × (lookup k (m ++ (k, v) ∷ n) ≡ some v)
  remove-append_middle k v [] n h = ground (arith, e.beq_iff k k, remove_absent k n)
  remove-append_middle k v ((j, w) ∷ m) n h = ground (
    arith,
    e.beq_iff k k,
    count_if-append (has_key k) m ((k, v) ∷ n),
    remove-append_middle k v m n,
  )

  pub has_key-insert_ne :
      (k a : K) (v : V) (m : List (K × V))
      → e.beq k a ≡ false
      → count_if (has_key a) (insert k v m) ≡ count_if (has_key a) m
  has_key-insert_ne k a v [] h = ground arith
  has_key-insert_ne k a v ((j, w) ∷ m) h = ground (arith, e.beq_iff j k, has_key-insert_ne k a v m)

  -- Insertion keeps a key unique.
  pub has_key-insert :
      (k a : K) (v : V) (m : List (K × V))
      → count_if (has_key a) m ≤ 1
      → count_if (has_key a) (insert k v m) ≤ 1
  has_key-insert k a v [] h = ground arith
  has_key-insert k a v ((j, w) ∷ m) h = ground (
    arith,
    e.beq_iff j k,
    e.beq_iff j a,
    e.beq_iff k a,
    has_key-insert_ne k a v m,
    has_key-insert k a v m,
  )

  -- What a lookup found counts, and is no longer there once its key is removed.
  pub count_if-lookup-remove :
      (p : V → Bool) (k : K) (v : V) (m : List (K × V))
      → lookup k m ≡ some v
      → bit (p v) + count_if (λ x. p x.1) (remove k m) ≤ count_if (λ x. p x.1) m
  count_if-lookup-remove p k v [] h = ground arith
  count_if-lookup-remove p k v ((j, w) ∷ m) h = ground (
    arith,
    count_if-lookup-remove p k v m,
    count_if-keep-le (λ x. p x.1) (λ x. not (has_key k x)) m,
  )

  -- A key found in a map is among the names of the entries that pass a test which its value passes.
  pub lookup-names :
      (k : K) (v : V) (p : V → Bool) (m : List (K × V))
      → lookup k m ≡ some v
      → p v ≡ true
      → any (λ j. e.beq j k) (map (λ x. x.0) (keep (λ x. p x.1) m)) ≡ true
  lookup-names k v p [] h t = cc
  lookup-names k v p ((j, w) ∷ m) h t = ground (arith, lookup-names k v p m)

  names-pos :
      (k : K) (p : V → Bool) (m : List (K × V))
      → any (λ j. e.beq j k) (map (λ x. x.0) (keep (λ x. p x.1) m)) ≡ true
      → 0 < count_if (has_key k) m
  names-pos k p [] h = cc
  names-pos k p ((j, w) ∷ m) h = ground (arith, names-pos k p m)

  -- In a map with one entry for the key, a key among such names has a value that passes the test.
  pub names-lookup :
      (k : K) (v : V) (p : V → Bool) (m : List (K × V))
      → count_if (has_key k) m ≤ 1
      → any (λ j. e.beq j k) (map (λ x. x.0) (keep (λ x. p x.1) m)) ≡ true
      → lookup k m ≡ some v
      → p v ≡ true
  names-lookup k v p [] u h t = cc
  names-lookup k v p ((j, w) ∷ m) u h t = ground (arith, names-pos k p m, names-lookup k v p m)

  -- No key that passes the test has a value.
  count_if_zero_of_none :
      (p : K → Bool) (m : List (K × V))
      → ((k : K) → p k ≡ true → lookup k m ≡ none)
      → count_if (λ x. p x.0) m ≡ 0
  count_if_zero_of_none p [] h = refl
  count_if_zero_of_none p ((j, v) ∷ m) h =
      ground (arith, h j, e.beq_iff j j, count_if_zero_of_none p m (λ k t. ground (arith, h k t)))

  count_if-le-remove :
      (p : K × V → Bool) (k : K) (m : List (K × V))
      → count_if p m ≤ count_if p (remove k m) + count_if (has_key k) m
  count_if-le-remove p k [] = omega arith
  count_if-le-remove p k ((j, v) ∷ m) = ground (arith, count_if-le-remove p k m)

  -- A map has at most as many entries that pass a test on the key as any list that names them all.
  pub count_if_le_of_listed :
      (p : K → Bool) (ks : List K) (m : List (K × V))
      → ((k : K) → count_if (has_key k) m ≤ 1)
      → ((k : K) → p k ≡ true → any (λ j. e.beq j k) ks ≡ false → lookup k m ≡ none)
      → count_if (λ x. p x.0) m ≤ length ks
  count_if_le_of_listed p [] m one all =
      omega (arith, count_if_zero_of_none p m (λ k t. all k t refl))
  count_if_le_of_listed p (k ∷ ks) m one all = omega (
    arith,
    one k,
    count_if-le-remove (λ x. p x.0) k m,
    count_if_le_of_listed p ks (remove k m)
        (λ a. omega (arith, one a, count_if-keep-le (has_key a) (λ x. not (has_key k x)) m))
        (λ a t n. ground (arith, lookup-remove k a m, all a t)),
  )
