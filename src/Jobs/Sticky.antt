-- ===== src/Jobs/Sticky.antt =====
-- What no order of the steps undoes.
use hierophant.Prelude.{
  ℕ, ◌≡◌, ◌≤◌, refl, true, Option, none, some, is_some, map_some, Eq, Bool-cases, inl, inr, arith,
}
use hierophant.Network.{Bytes}
use hierophant.Jobs.{
  JobError, Moment, Surface, Poll, look, check, ask, fail, fetch, verifying, condemn, complete,
  store, answered, advance,
}
use hierophant.Jobs.Machine.{
  IsLawful, JobState, has_failed, absent, is_running, has_succeeded, state_from, state_of,
}
use hierophant.Jobs.Runs.{Traffic, Run, nothing, begun, advanced, changed, IsQuiet}

-- How far a job has come.
abbrev pub stage : JobState → ℕ
stage absent = 0
stage is_running = 1
stage has_succeeded = 2
stage has_failed = 3

-- How much is known of a job.
abbrev age : Option (Option JobError) → ℕ
age none = 0
age (some none) = 1
age (some (some e)) = 2

module _ {K S J V : Type 0} ⦃eq : Eq K⦄ (σ : Surface K S J V) where
  stage-le :
      (o u : Option (Option JobError)) (p q : Option Bytes)
      → age o ≤ age u
      → (is_some p ≡ true → is_some q ≡ true)
      → stage (state_from σ o p) ≤ stage (state_from σ u q)
  stage-le none u p q h g = omega arith
  stage-le (some none) none p q h g = absurd (omega (arith, h))
  stage-le (some none) (some none) none none h g = omega arith
  stage-le (some none) (some none) none (some b) h g = omega arith
  stage-le (some none) (some none) (some a) none h g = absurd (let f = g refl in cc)
  stage-le (some none) (some none) (some a) (some b) h g = omega arith
  stage-le (some none) (some (some e)) none q h g = omega arith
  stage-le (some none) (some (some e)) (some a) q h g = omega arith
  stage-le (some (some d)) none p q h g = absurd (omega (arith, h))
  stage-le (some (some d)) (some none) p q h g = absurd (omega (arith, h))
  stage-le (some (some d)) (some (some e)) p q h g = omega arith

  abbrev job_age : K → S → ℕ
  job_age k s = age (map_some σ.terminal_error (σ.job k s))

  module _ (laws : IsLawful σ) where
    age-le : (o : Option (Option JobError)) → age o ≤ 2
    age-le none = omega arith
    age-le (some none) = omega arith
    age-le (some (some e)) = omega arith

    overwrite :
        (o : Option J) (e : JobError)
        → age (map_some σ.terminal_error o) ≤ age (map_some (λ _. some e) o)
    overwrite none e = omega arith
    overwrite (some j) e = age-le (some (σ.terminal_error j))

    fail-age :
        (k i : K) (e : JobError) (s : S) → job_age i s ≤ job_age i (σ.set_terminal_error k e s)
    fail-age k i e s = elim (Bool-cases (eq.beq k i)) [
      | inl t ↦ rw (laws.error-set_terminal_error k i e s, t) (overwrite (σ.job i s) e)
      | inr t ↦ rw (laws.error-set_terminal_error k i e s, t) (omega arith)
    ]

    advance-age :
        (m : Moment) (k i : K) (s : S) (p : Poll J V)
        → job_age i s ≤ job_age i (advance σ m k s p).state
    unfolding advance
    advance-age m k i s (fail e) = fail-age k i e s
    advance-age m k i s (store j b) = rw (laws.job-insert_proof k i b s) (omega arith)
    advance-age m k i s look = omega arith
    advance-age m k i s (check j) = omega arith
    advance-age m k i s (ask j) = omega arith
    advance-age m k i s (fetch j b) = omega arith
    advance-age m k i s (verifying j v b) = omega arith
    advance-age m k i s (condemn j e) = omega arith
    advance-age m k i s (complete j b) = omega arith
    advance-age m k i s (answered a) = omega arith

    advance-stored :
        (m : Moment) (k i : K) (s : S) (p : Poll J V)
        → is_some (σ.proof i s) ≡ true
        → is_some (σ.proof i (advance σ m k s p).state) ≡ true
    unfolding advance
    advance-stored m k i s (fail e) h = rw (laws.proof-set_terminal_error k i e s) h
    advance-stored m k i s (store j b) h = elim (Bool-cases (eq.beq k i)) [
      | inl t ↦ rw (laws.proof-insert_proof k i b s, t)
      | inr t ↦ rw (laws.proof-insert_proof k i b s, t) h
    ]
    advance-stored m k i s look h = h
    advance-stored m k i s (check j) h = h
    advance-stored m k i s (ask j) h = h
    advance-stored m k i s (fetch j b) h = h
    advance-stored m k i s (verifying j v b) h = h
    advance-stored m k i s (condemn j e) h = h
    advance-stored m k i s (complete j b) h = h
    advance-stored m k i s (answered a) h = h

    module _ (Change : S → S → Type 0) (Given : K → Bytes → Type 0)
        (quiet : IsQuiet σ Change Given) where
      Change-age :
          (s t : S) (k : K) (j : Option J) → σ.job k s ≡ j → Change s t → job_age k s ≤ job_age k t
      Change-age s t k none e g = rw e (omega arith)
      Change-age s t k (some j) e g = rw (quiet.job-kept k j g e, e) (omega arith)

      Run-age :
          (c d : Traffic K S J V) (k : K) → Run σ Change c d → job_age k c.state ≤ job_age k d.state
      Run-age c _ k nothing = omega arith
      Run-age c _ k (begun {d = d} i r) = Run-age c d k r
      Run-age c _ k (advanced {d = d} m n i p e r) =
          omega (arith, advance-age m i k d.state p, Run-age c d k r)
      Run-age c _ k (changed {d = d} t g r) =
          omega (arith, Change-age d.state t k (σ.job k d.state) refl g, Run-age c d k r)

      Run-stored :
          (c d : Traffic K S J V) (k : K)
          → Run σ Change c d
          → is_some (σ.proof k c.state) ≡ true
          → is_some (σ.proof k d.state) ≡ true
      Run-stored c _ k nothing h = h
      Run-stored c _ k (begun {d = d} i r) h = Run-stored c d k r h
      Run-stored c _ k (advanced {d = d} m n i p e r) h =
          advance-stored m i k d.state p (Run-stored c d k r h)
      Run-stored c _ k (changed {d = d} t g r) h = quiet.proof-kept k g (Run-stored c d k r h)

      -- Whatever polls are under way and whatever else changes, a job only moves forward: it is
      -- unknown, then it runs, then it has succeeded, then it has failed. A job that has failed
      -- stays failed, and one that has succeeded never runs again.
      pub Run-forward :
          (c d : Traffic K S J V) (k : K)
          → Run σ Change c d
          → stage (state_of σ k c.state) ≤ stage (state_of σ k d.state)
      Run-forward c d k r = stage-le _ _ _ _ (Run-age c d k r) (Run-stored c d k r)
