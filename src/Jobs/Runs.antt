-- ===== src/Jobs/Runs.antt =====
-- Polls of many clients at once, between them the uploads and the new jobs: every order of the steps.
use hierophant.Prelude.{
  ℕ, ◌≡◌, refl, ◌⊎◌, true, none, some, List, ◌∷◌, suc, is_some, get_elem?, set,
}
use hierophant.Network.{Bytes}
use hierophant.Jobs.{Moment, Surface, Poll, look, advance, valid}

-- The maps, what they were before each step, and the polls that have begun, each with its job.
pub record Traffic (K S J V : Type 0) : Type 0 where
  pub state : S
  pub past : List S
  pub polls : List (K × Poll J V)

-- One of the states satisfies a predicate.
pub record Once {S : Type 0} (past : List S) (P : S → Type 0) : Type 0 where
  pub index : ℕ
  pub at : S
  pub listed : get_elem? past index ≡ some at
  pub holds : P at

abbrev pub later :
    {S : Type 0} {past : List S} {P : S → Type 0} (s : S) → Once past P → Once (s ∷ past) P
later s o = record { index = suc o.index; at = o.at; listed = o.listed; holds = o.holds }

abbrev pub now : {S : Type 0} {past : List S} {P : S → Type 0} (s : S) → P s → Once (s ∷ past) P
now s p = record { index = 0; at = s; listed = refl; holds = p }

module _ {K S J V : Type 0} (σ : Surface K S J V) where
  -- The bytes are a proof of the job, verified against the program of the job.
  pub record IsChecked (past : List S) (k : K) (b : Bytes) : Type 0 where
    pub job : J
    pub program : V
    pub moment : Moment
    pub found : Once past (λ s. σ.job k s ≡ some job)
    pub well_formed : σ.malformed b ≡ none
    pub fetched : Once past (λ s. σ.program job s ≡ some program)
    pub verified : σ.verify moment job program b ≡ valid

module _ {K S J V : Type 0} (σ : Surface K S J V) (Change : S → S → Type 0) where
  -- The steps from one traffic to another. `Change` is what the other handlers do to the maps.
  pub data Run (c : Traffic K S J V) : Traffic K S J V → Type 0 where
    nothing : Run c c
    begun :
        {d : Traffic K S J V} (k : K) → Run c d → Run c (record d { polls = (k, look) ∷ d.polls })
    advanced :
        {d : Traffic K S J V} (m : Moment) (i : ℕ) (k : K) (p : Poll J V)
        → get_elem? d.polls i ≡ some (k, p)
        → Run c d
        → Run c (record {
          state = (advance σ m k d.state p).state;
          past = d.state ∷ d.past;
          polls = set d.polls i (k, (advance σ m k d.state p).poll);
        })
    changed :
        {d : Traffic K S J V} (s : S)
        → Change d.state s
        → Run c d
        → Run c (record d { state = s; past = d.state ∷ d.past })

  -- What the changes leave alone: a job, and a stored proof, unless it is given.
  pub record IsQuiet (Given : K → Bytes → Type 0) : Type 0 where
    pub job-kept : {s t : S} (k : K) (j : J) → Change s t → σ.job k s ≡ some j → σ.job k t ≡ some j
    pub proof-kept :
        {s t : S} (k : K) → Change s t → is_some (σ.proof k s) ≡ true → is_some (σ.proof k t) ≡ true
    pub proof-given :
        {s t : S} (k : K) (b : Bytes)
        → Change s t
        → σ.proof k t ≡ some b
        → (σ.proof k s ≡ some b) ⊎ Given k b
