-- ===== src/Jobs/Machine.antt =====
-- A poll as a move of the machine that a client sees: a job runs until it fails or succeeds.
use hierophant.Prelude.{ℕ, ◌≡◌, Option, none, some, if◌then◌else◌, map_some, Eq}
use hierophant.Network.{Bytes}
use hierophant.Jobs.{
  JobError, StatusAnswer, unknown_job, failed, succeeded, running, internal_error, panicked,
  Surface,
}

-- What a surface's reads say after its writes.
pub record IsLawful {K S J V : Type 0} ⦃eq : Eq K⦄ (σ : Surface K S J V) : Type 0 where
  pub job-insert_proof : (k i : K) (b : Bytes) (s : S) → σ.job i (σ.insert_proof k b s) ≡ σ.job i s
  pub error-set_terminal_error :
      (k i : K) (e : JobError) (s : S)
      → map_some σ.terminal_error (σ.job i (σ.set_terminal_error k e s)) ≡ (
          if eq.beq k i
          then map_some (λ _. some e) (σ.job i s)
          else map_some σ.terminal_error (σ.job i s))
  pub proof-insert_proof :
      (k i : K) (b : Bytes) (s : S)
      → σ.proof i (σ.insert_proof k b s) ≡ (if eq.beq k i then some b else σ.proof i s)
  pub proof-set_terminal_error :
      (k i : K) (e : JobError) (s : S) → σ.proof i (σ.set_terminal_error k e s) ≡ σ.proof i s

pub data JobState : Type 0 where
  absent : JobState
  is_running : JobState
  has_failed : JobState
  has_succeeded : JobState

-- What the machine allows a poll to answer, and to change.
pub data Move : JobState → StatusAnswer → JobState → Type 0 where
  not_found : Move absent unknown_job absent
  runs : (n : ℕ) → Move is_running (running n) is_running
  breaks : Move is_running internal_error is_running
  panics : Move is_running panicked is_running
  fails : (e : JobError) → Move is_running (failed e) has_failed
  succeeds : Move is_running succeeded has_succeeded
  stays_failed : (e : JobError) → Move has_failed (failed e) has_failed
  stays_succeeded : Move has_succeeded succeeded has_succeeded

module _ {K S J V : Type 0} ⦃eq : Eq K⦄ (σ : Surface K S J V) where
  -- The machine's state of a job, from what the surface keeps of it.
  abbrev pub state_from : Option (Option JobError) → Option Bytes → JobState
  state_from none p = absent
  state_from (some (some e)) p = has_failed
  state_from (some none) none = is_running
  state_from (some none) (some b) = has_succeeded

  abbrev pub state_of : K → S → JobState
  state_of k s = state_from (map_some σ.terminal_error (σ.job k s)) (σ.proof k s)
