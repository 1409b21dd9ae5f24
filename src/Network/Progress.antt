-- ===== src/Network/Progress.antt =====
-- network-lib/src/lib.rs: what a contemplant reports never goes back.
use Prim.Native.Nat.{max}
use hierophant.Prelude.{ℕ, ◌+◌, ◌≡◌, refl, Option, none, some, List, [], ◌∷◌, arith}
use hierophant.Network.{
  ProgressUpdate, rank, merge_progress, max_progress, estimating, executing, no_history, proving,
  done, ContemplantProofStatus, progress_update,
}

-- How far a report has come: nothing yet, the guest runs, no rate is known, there is an estimate,
-- the proof is finished.
abbrev pub stage : Option ProgressUpdate → ℕ
stage none = 0
stage (some (estimating executing)) = 1
stage (some (estimating no_history)) = 2
stage (some (proving cycles estimate_secs)) = 3
stage (some done) = 4

-- The furthest stage of some reports.
abbrev pub furthest : List (Option ProgressUpdate) → ℕ
furthest [] = 0
furthest (u ∷ us) = max (stage u) (furthest us)

-- A status after the reports, the first one first.
unfoldable pub report_all :
    List (Option ProgressUpdate) → ContemplantProofStatus → ContemplantProofStatus
unfolding progress_update
report_all [] s = s
report_all (u ∷ us) s = report_all us (progress_update s u)

-- The program's own order is this one.
stage-rank : (p : ProgressUpdate) → stage (some p) ≡ rank p + 1
stage-rank (estimating executing) = omega arith
stage-rank (estimating no_history) = omega arith
stage-rank (proving cycles estimate_secs) = omega arith
stage-rank done = omega arith

stage-merge_progress :
    (p u : Option ProgressUpdate) → stage (merge_progress p u) ≡ max (stage p) (stage u)
unfolding merge_progress max_progress
stage-merge_progress none none = omega arith
stage-merge_progress none (some u) = omega arith
stage-merge_progress (some p) none = omega arith
stage-merge_progress (some p) (some u) = ground (arith, stage-rank p, stage-rank u)

stage-progress_update :
    (s : ContemplantProofStatus) (u : Option ProgressUpdate)
    → stage (progress_update s u).progress ≡ max (stage s.progress) (stage u)
unfolding progress_update
stage-progress_update s u = stage-merge_progress s.progress u

-- After any reports, in any order, a proof stands at the furthest stage that it had or that was
-- reported: nothing, the guest running, no rate, an estimate, finished, in this order. A late or
-- repeated report takes nothing back. The execution status and the proof are as they were.
pub stage-report_all :
    (us : List (Option ProgressUpdate)) (s : ContemplantProofStatus)
    → (stage (report_all us s).progress ≡ max (stage s.progress) (furthest us))
      × ((report_all us s).execution_status ≡ s.execution_status)
      × ((report_all us s).proof ≡ s.proof)
unfolding report_all progress_update
stage-report_all [] s = (omega arith, refl, refl)
stage-report_all (u ∷ us) s =
    let (e, f, g) = stage-report_all us (progress_update s u) in
    (omega (arith, e, stage-progress_update s u), f, g)
