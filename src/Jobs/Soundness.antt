-- ===== src/Jobs/Soundness.antt =====
-- Where a stored proof comes from, in every order of the steps.
use hierophant.Prelude.{
  or_else, ℕ, ◌≡◌, refl, ap, subst, ◌⊎◌, Option, none, some, List, [], ◌∷◌, zero, suc, is_some,
  is_empty, Eq, Bool-cases, Option-cases, inl, inr, arith, get_elem?, set, All, String, not, ◌||◌,
  ◌==◌,
}
use hierophant.Network.{Bytes, fulfillment_code, fulfilled, unfulfillable}
use hierophant.Proof.{ProofStatus, get_proof_status}
use hierophant.Jobs.{
  Moment, Surface, Poll, look, check, ask, fail, fetch, verifying, condemn, complete, store,
  answered, looked, decoded, heard, fetched, verified, advance, Verdict, valid, invalid, unverified,
}
use hierophant.Jobs.Machine.{IsLawful}
use hierophant.Jobs.Runs.{
  Once, later, now, Traffic, Run, nothing, begun, advanced, changed, IsQuiet, IsChecked,
}

module _ {K S J V : Type 0} (σ : Surface K S J V) (Change : S → S → Type 0) where
  IsChecked-later :
      (past : List S) (s : S) (k : K) (b : Bytes)
      → IsChecked σ past k b
      → IsChecked σ (s ∷ past) k b
  IsChecked-later past s k b c = record {
    job = c.job;
    program = c.program;
    moment = c.moment;
    found = later s c.found;
    well_formed = c.well_formed;
    fetched = later s c.fetched;
    verified = c.verified;
  }

  abbrev Seen : List S → K → J → Type 0
  Seen past k j = Once past (λ s. σ.job k s ≡ some j)

  abbrev IsSound : List S → K → Poll J V → Type 0
  IsSound past k look = Unit
  IsSound past k (check j) = Seen past k j
  IsSound past k (ask j) = Seen past k j
  IsSound past k (fail e) = Unit
  IsSound past k (fetch j b) = Seen past k j × (σ.malformed b ≡ none)
  IsSound past k (verifying j v b) =
      Seen past k j × (σ.malformed b ≡ none) × Once past (λ s. σ.program j s ≡ some v)
  IsSound past k (condemn j e) = Unit
  IsSound past k (complete j b) = IsChecked σ past k b
  IsSound past k (store j b) = IsChecked σ past k b
  IsSound past k (answered a) = Unit

  IsSound-later :
      (past : List S) (s : S) (k : K) (p : Poll J V) → IsSound past k p → IsSound (s ∷ past) k p
  IsSound-later past s k look h = tt
  IsSound-later past s k (check j) h = later s h
  IsSound-later past s k (ask j) h = later s h
  IsSound-later past s k (fail e) h = tt
  IsSound-later past s k (fetch j b) (h, g) = (later s h, g)
  IsSound-later past s k (verifying j v b) (h, g, f) = (later s h, g, later s f)
  IsSound-later past s k (condemn j e) h = tt
  IsSound-later past s k (complete j b) h = IsChecked-later past s k b h
  IsSound-later past s k (store j b) h = IsChecked-later past s k b h
  IsSound-later past s k (answered a) h = tt

  looked-IsSound :
      (past : List S) (s : S) (k : K) (j : Option J)
      → σ.job k s ≡ j
      → IsSound (s ∷ past) k (looked σ j)
  looked-IsSound past s k none h = tt
  looked-IsSound past s k (some j) h = elim (Option-cases (σ.terminal_error j)) [
    | inl e ↦ rw (e, looked) (now s h)
    | inr (_, e) ↦ rw (e, looked) tt
  ]

  decoded-IsSound :
      (past : List S) (k : K) (j : J) (b : Bytes) (e : Option String)
      → σ.malformed b ≡ e
      → Seen past k j
      → IsSound past k (decoded σ j b e)
  decoded-IsSound past k j b none h g = (g, h)
  decoded-IsSound past k j b (some e) h g = tt

  heard-IsSound :
      (past : List S) (k : K) (j : J) (st : Option ProofStatus)
      → Seen past k j
      → IsSound past k (heard σ j st)
  heard-IsSound past k j none h = tt
  heard-IsSound past k j (some st) h =
      elim (Bool-cases (st.fulfillment_status == fulfillment_code unfulfillable)) [
        | inl u ↦ rw u tt
        | inr u ↦
            elim (Bool-cases
              (not (st.fulfillment_status == fulfillment_code fulfilled) || is_empty st.proof)) [
                | inl f ↦ rw (u, f) tt
                | inr f ↦
                    rw (u, f) (decoded-IsSound past k j st.proof (σ.malformed st.proof) refl h)
              ]
      ]

  fetched-IsSound :
      (past : List S) (s : S) (k : K) (j : J) (b : Bytes) (v : Option V)
      → σ.program j s ≡ v
      → IsSound past k (fetch j b)
      → IsSound (s ∷ past) k (fetched σ j b v)
  fetched-IsSound past s k j b none h g = tt
  fetched-IsSound past s k j b (some v) h (g, f) = (later s g, f, now s h)

  verified-IsSound :
      (past : List S) (m : Moment) (k : K) (j : J) (v : V) (b : Bytes) (r : Verdict)
      → σ.verify m j v b ≡ r
      → IsSound past k (verifying j v b)
      → IsSound past k (verified σ j b r)
  verified-IsSound past m k j v b valid h (g, f, e) = record {
    job = j;
    program = v;
    moment = m;
    found = g;
    well_formed = f;
    fetched = e;
    verified = h;
  }
  verified-IsSound past m k j v b (invalid _) h g = tt
  verified-IsSound past m k j v b unverified h g = tt

  advance-IsSound :
      (past : List S) (m : Moment) (k : K) (s : S) (p : Poll J V)
      → IsSound past k p
      → IsSound (s ∷ past) k (advance σ m k s p).poll
  unfolding advance
  advance-IsSound past m k s look h = looked-IsSound past s k (σ.job k s) refl
  advance-IsSound past m k s (check j) h = elim (Bool-cases (is_some (σ.proof k s))) [
    | inl e ↦ rw e tt
    | inr e ↦ rw e (later s h)
  ]
  advance-IsSound past m k s (ask j) h =
      heard-IsSound _ k j (get_proof_status m.takes_update m.reply) (later s h)
  advance-IsSound past m k s (fail e) h = tt
  advance-IsSound past m k s (fetch j b) h = fetched-IsSound past s k j b (σ.program j s) refl h
  advance-IsSound past m k s (verifying j v b) h =
      IsSound-later past s k _ (verified-IsSound past m k j v b (σ.verify m j v b) refl h)
  advance-IsSound past m k s (condemn j e) h = tt
  advance-IsSound past m k s (complete j b) h = IsChecked-later past s k b h
  advance-IsSound past m k s (store j b) h = tt
  advance-IsSound past m k s (answered a) h = tt

  abbrev AllSound : List S → List (K × Poll J V) → Type 0
  AllSound past = All (λ x. IsSound past x.0 x.1)

  AllSound-later :
      (past : List S) (s : S) (ps : List (K × Poll J V)) → AllSound past ps → AllSound (s ∷ past) ps
  AllSound-later past s [] h = tt
  AllSound-later past s ((k, p) ∷ ps) (h, g) =
      (IsSound-later past s k p h, AllSound-later past s ps g)

  AllSound-at :
      (past : List S) (i : ℕ) (x : K × Poll J V) (ps : List (K × Poll J V))
      → get_elem? ps i ≡ some x
      → AllSound past ps
      → IsSound past x.0 x.1
  AllSound-at past i x [] e h = absurd cc
  AllSound-at past zero x (y ∷ ps) e (h, g) = subst (λ z. IsSound past z.0 z.1) (ap (or_else y) e) h
  AllSound-at past (suc i) x (_ ∷ ps) e (h, g) = AllSound-at past i x ps e g

  AllSound-set :
      (past : List S) (i : ℕ) (k : K) (p : Poll J V) (ps : List (K × Poll J V))
      → IsSound past k p
      → AllSound past ps
      → AllSound past (set ps i (k, p))
  AllSound-set past i k p [] h g = tt
  AllSound-set past zero k p (_ ∷ ps) h (f, g) = (h, g)
  AllSound-set past (suc i) k p (_ ∷ ps) h (f, g) = (f, AllSound-set past i k p ps h g)

  module _ ⦃eq : Eq K⦄ (laws : IsLawful σ) (Given : K → Bytes → Type 0)
      (quiet : IsQuiet σ Change Given) where
    -- Where a stored proof comes from.
    pub record IsFounded (past : List S) (s : S) : Type 0 where
      pub founded : (k : K) (b : Bytes) → σ.proof k s ≡ some b → IsChecked σ past k b ⊎ Given k b

    left_later :
        (past : List S) (s : S) (k : K) (b : Bytes)
        → IsChecked σ past k b ⊎ Given k b
        → IsChecked σ (s ∷ past) k b ⊎ Given k b
    left_later past s k b (inl c) = inl (IsChecked-later past s k b c)
    left_later past s k b (inr g) = inr g

    store-founded :
        (past : List S) (k i : K) (b d : Bytes) (s : S)
        → IsChecked σ past k b
        → (σ.proof i s ≡ some d → IsChecked σ past i d ⊎ Given i d)
        → σ.proof i (σ.insert_proof k b s) ≡ some d
        → IsChecked σ past i d ⊎ Given i d
    store-founded past k i b d s c f e = elim (Bool-cases (eq.beq k i)) [
      | inl t ↦
          let h = rw (laws.proof-insert_proof k i b s, t) at e in
          inl (
            subst (IsChecked σ past i) (ap (or_else b) h)
              (subst (λ z. IsChecked σ past z b) (ground (arith, eq.beq_iff k i)) c))
      | inr t ↦ f (rw (laws.proof-insert_proof k i b s, t) at e)
    ]

    advance-founded :
        (past : List S) (m : Moment) (k i : K) (d : Bytes) (s : S) (p : Poll J V)
        → IsSound past k p
        → (σ.proof i s ≡ some d → IsChecked σ past i d ⊎ Given i d)
        → σ.proof i (advance σ m k s p).state ≡ some d
        → IsChecked σ past i d ⊎ Given i d
    unfolding advance
    advance-founded past m k i d s look h f e = f e
    advance-founded past m k i d s (check j) h f e = f e
    advance-founded past m k i d s (ask j) h f e = f e
    advance-founded past m k i d s (fail r) h f e =
        f (rw (laws.proof-set_terminal_error k i r s) at e)
    advance-founded past m k i d s (fetch j b) h f e = f e
    advance-founded past m k i d s (verifying j v b) h f e = f e
    advance-founded past m k i d s (condemn j r) h f e = f e
    advance-founded past m k i d s (complete j b) h f e = f e
    advance-founded past m k i d s (store j b) h f e = store-founded past k i b d s h f e
    advance-founded past m k i d s (answered a) h f e = f e

    pub record IsSoundTraffic (c : Traffic K S J V) : Type 0 where
      pub polls : AllSound c.past c.polls
      pub proofs : IsFounded c.past c.state

    Run-IsSoundTraffic :
        (c d : Traffic K S J V) → IsSoundTraffic c → Run σ Change c d → IsSoundTraffic d
    Run-IsSoundTraffic c _ h nothing = h
    Run-IsSoundTraffic c _ h (begun {d = d} k r) =
        let v = Run-IsSoundTraffic c d h r in record { polls = (tt, v.polls); proofs = v.proofs }
    Run-IsSoundTraffic c _ h (advanced {d = d} m i k p e r) =
        let v = Run-IsSoundTraffic c d h r in
        let q = AllSound-at d.past i (k, p) d.polls e v.polls in
        record {
          polls =
              AllSound-set _ i k _ _ (advance-IsSound d.past m k d.state p q)
                (AllSound-later d.past d.state d.polls v.polls);
          proofs = record {
            founded = λ j b g.
                left_later d.past d.state j b
                  (advance-founded d.past m k j b d.state p q (v.proofs.founded j b) g);
          };
        }
    Run-IsSoundTraffic c _ h (changed {d = d} s g r) =
        let v = Run-IsSoundTraffic c d h r in
        record {
          polls = AllSound-later d.past d.state d.polls v.polls;
          proofs = record {
            founded = λ k b e. elim (quiet.proof-given k b g e) [
              | inl f ↦ left_later d.past d.state k b (v.proofs.founded k b f)
              | inr f ↦ inr f
            ];
          };
        }

    -- Where no proof is stored and no poll has begun, every proof that is stored later is given, or
    -- it was well formed and verified: for a job that a poll has read, against what was then kept as
    -- the program of that job. This holds for any number of polls, of any jobs, in any order of
    -- their steps and of the other changes.
    pub Run-founded :
        (c d : Traffic K S J V) (k : K) (b : Bytes)
        → c.polls ≡ []
        → ((i : K) → σ.proof i c.state ≡ none)
        → Run σ Change c d
        → σ.proof k d.state ≡ some b
        → IsChecked σ d.past k b ⊎ Given k b
    Run-founded c d k b e n r =
        (Run-IsSoundTraffic c d
            (record {
              polls = rw e tt;
              proofs = record { founded = λ i b f. absurd (let g = n i in cc) };
            })
            r).proofs.founded
          k b
