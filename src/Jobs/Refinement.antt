-- ===== src/Jobs/Refinement.antt =====
-- A poll that nothing interrupts is a move of the machine.
use hierophant.Prelude.{
  String, ℕ, ◌≡◌, refl, true, false, Option, none, some, List, [], ◌++◌, zero, suc, ◌==◌, ◌||◌, not,
  is_empty, map_some, Eq, Bool-cases, Option-cases, inl, inr, arith,
}
use hierophant.Network.{Bytes, fulfillment_code, fulfilled, unfulfillable}
use hierophant.Proof.{ProofStatus, get_proof_status}
use hierophant.Registry.Commands.{WorkerRegistryCommand}
use hierophant.Jobs.{
  JobError, StatusAnswer, unknown_job, failed, succeeded, Moment, Surface, Poll, look, check, fail,
  condemn, complete, store, answered, Advance, looked, decoded, heard, fetched, verified, advance,
  drive, status, to, Verdict, valid, invalid, unverified,
}
use hierophant.Jobs.Machine.{
  IsLawful, JobState, Move, is_running, not_found, runs, breaks, panics, fails, succeeds,
  stays_failed, stays_succeeded, state_from, state_of,
}

module _ {K S J V : Type 0} ⦃eq : Eq K⦄ (σ : Surface K S J V) where
  -- The poll ends within `n` steps, with these maps and this answer.
  pub record Ends (n : ℕ) (m : Moment) (k : K) (a : Advance S J V) (s : S) (r : StatusAnswer)
      : Type 0 where
    pub state : (drive σ n m k a).state ≡ s
    pub answer : (drive σ n m k a).poll ≡ answered r

  module _ (laws : IsLawful σ) (m : Moment) (k : K) where
    abbrev at : S → Poll J V → List WorkerRegistryCommand → Advance S J V
    at s p cs = record { state = s; poll = p; commands = cs }

    answered-Ends :
        (n : ℕ) (s : S) (r : StatusAnswer) (cs : List WorkerRegistryCommand)
        → Ends n m k (at s (answered r) cs) s r
    unfolding drive advance
    answered-Ends zero s r cs = record { state = refl; answer = refl }
    answered-Ends (suc n) s r cs =
        let e = answered-Ends n s r (cs ++ []) in record { state = e.state; answer = e.answer }

    -- The poll ends within `n` steps with a move from `t`, and touches no other job.
    pub record Moves (n : ℕ) (a : Advance S J V) (s : S) (t : JobState) : Type 0 where
      pub end : S
      pub reply : StatusAnswer
      pub ends : Ends n m k a end reply
      pub move : Move t reply (state_of σ k end)
      pub others : (i : K) → eq.beq k i ≡ false → state_of σ i end ≡ state_of σ i s

    -- An answer that changes nothing.
    idle :
        (n : ℕ) (s : S) (r : StatusAnswer) (cs : List WorkerRegistryCommand) (t : JobState)
        → Move t r (state_of σ k s)
        → Moves n (at s (answered r) cs) s t
    idle n s r cs t v = record {
      end = s;
      reply = r;
      ends = answered-Ends n s r cs;
      move = v;
      others = λ i ne. refl;
    }

    -- One step more.
    abbrev next : Advance S J V → Advance S J V
    next a =
        let b = advance σ m k a.state a.poll in record b { commands = a.commands ++ b.commands }

    step :
        (n : ℕ) (a : Advance S J V) (s : S) (t : JobState)
        → Moves n (next a) s t
        → Moves (suc n) a s t
    unfolding drive
    step n a s t v = record {
      end = v.end;
      reply = v.reply;
      ends = record { state = v.ends.state; answer = v.ends.answer };
      move = v.move;
      others = v.others;
    }

    -- A state in which the job runs.
    pub record IsRunning (s : S) : Type 0 where
      pub found : map_some σ.terminal_error (σ.job k s) ≡ some none
      pub unproven : σ.proof k s ≡ none

    of_found :
        (e : JobError) (j : Option J)
        → map_some σ.terminal_error j ≡ some none
        → map_some (λ _. some e) j ≡ some (some e)
    of_found e none h = absurd cc
    of_found e (some j) h = refl

    module _ (s : S) (run : IsRunning s) where
      running-state : state_of σ k s ≡ is_running
      running-state = rw (run.found, run.unproven)

      self : eq.beq k k ≡ true
      self = ground (arith, eq.beq_iff k k)

      found_job : (e : JobError) → map_some (λ _. some e) (σ.job k s) ≡ some (some e)
      found_job e = of_found e (σ.job k s) run.found

      fail-Moves :
          (n : ℕ) (e : JobError) (cs : List WorkerRegistryCommand)
          → Moves (suc n) (at s (fail e) cs) s is_running
      unfolding advance
      fail-Moves n e cs = step n _ s _ record {
        end = σ.set_terminal_error k e s;
        reply = failed e;
        ends = answered-Ends n _ _ _;
        move =
            rw
              (
                laws.error-set_terminal_error k k e s,
                laws.proof-set_terminal_error k k e s,
                self,
                found_job e,
              )
              (fails e);
        others = λ i ne.
            rw (laws.error-set_terminal_error k i e s, laws.proof-set_terminal_error k i e s, ne);
      }

      condemn-Moves :
          (n : ℕ) (j : J) (e : JobError) (cs : List WorkerRegistryCommand)
          → Moves (suc (suc n)) (at s (condemn j e) cs) s is_running
      unfolding advance
      condemn-Moves n j e cs = step (suc n) _ s _ (fail-Moves n e _)

      store-Moves :
          (n : ℕ) (j : J) (b : Bytes) (cs : List WorkerRegistryCommand)
          → Moves (suc n) (at s (store j b) cs) s is_running
      unfolding advance
      store-Moves n j b cs = step n _ s _ record {
        end = σ.insert_proof k b s;
        reply = succeeded;
        ends = answered-Ends n _ _ _;
        move =
            rw (laws.job-insert_proof k k b s, laws.proof-insert_proof k k b s, self, run.found)
              succeeds;
        others = λ i ne. rw (laws.job-insert_proof k i b s, laws.proof-insert_proof k i b s, ne);
      }

      complete-Moves :
          (n : ℕ) (j : J) (b : Bytes) (cs : List WorkerRegistryCommand)
          → Moves (suc (suc n)) (at s (complete j b) cs) s is_running
      unfolding advance
      complete-Moves n j b cs = step (suc n) _ s _ (store-Moves n j b _)

      verified-Moves :
          (n : ℕ) (j : J) (b : Bytes) (v : Verdict) (cs : List WorkerRegistryCommand)
          → Moves (suc (suc n)) (at s (verified σ j b v) cs) s is_running
      verified-Moves n j b valid cs = complete-Moves n j b cs
      verified-Moves n j b (invalid e) cs = condemn-Moves n j _ cs
      verified-Moves n j b unverified cs = idle _ s _ cs _ (rw running-state breaks)

      fetched-Moves :
          (n : ℕ) (j : J) (b : Bytes) (v : Option V) (cs : List WorkerRegistryCommand)
          → Moves (suc (suc (suc n))) (at s (fetched σ j b v) cs) s is_running
      unfolding advance
      fetched-Moves n j b none cs = idle _ s _ cs _ (rw running-state breaks)
      fetched-Moves n j b (some v) cs = step (suc (suc n)) _ s _ (verified-Moves n j b _ _)

      decoded-Moves :
          (n : ℕ) (j : J) (b : Bytes) (e : Option String) (cs : List WorkerRegistryCommand)
          → Moves (suc (suc (suc (suc n)))) (at s (decoded σ j b e) cs) s is_running
      unfolding advance
      decoded-Moves n j b none cs = step (suc (suc (suc n))) _ s _ (fetched-Moves n j b _ _)
      decoded-Moves n j b (some e) cs = condemn-Moves (suc (suc n)) j _ cs

      heard-Moves :
          (n : ℕ) (j : J) (st : Option ProofStatus) (cs : List WorkerRegistryCommand)
          → Moves (suc (suc (suc (suc n)))) (at s (heard σ j st) cs) s is_running
      heard-Moves n j none cs = idle _ s _ cs _ (rw running-state panics)
      heard-Moves n j (some st) cs =
          elim (Bool-cases (st.fulfillment_status == fulfillment_code unfulfillable)) [
            | inl u ↦ rw u (fail-Moves (suc (suc (suc n))) _ cs)
            | inr u ↦
                elim (Bool-cases (
                  not (st.fulfillment_status == fulfillment_code fulfilled) || is_empty st.proof)) [
                    | inl f ↦ rw (u, f) (idle _ s _ cs _ (rw running-state (runs _)))
                    | inr f ↦ rw (u, f) (decoded-Moves n j _ _ cs)
                  ]
          ]

      check-Moves :
          (n : ℕ) (j : J) (cs : List WorkerRegistryCommand)
          → Moves (suc (suc (suc (suc (suc (suc n)))))) (at s (check j) cs) s is_running
      unfolding advance
      check-Moves n j cs = step _ _ s _ (
          rw run.unproven
            (step _ _ s _ (heard-Moves n j (get_proof_status m.takes_update m.reply) _)))

    error_of :
        (s : S) (j : J) (e : Option JobError)
        → σ.job k s ≡ some j
        → σ.terminal_error j ≡ e
        → map_some σ.terminal_error (σ.job k s) ≡ some e
    error_of s j e f h = rw (f, h)

    checked-Moves :
        (s : S) (j : J) (p : Option Bytes) (cs : List WorkerRegistryCommand)
        → σ.proof k s ≡ p
        → map_some σ.terminal_error (σ.job k s) ≡ some none
        → Moves 6 (at s (check j) cs) s (state_from σ (some none) p)
    unfolding advance
    checked-Moves s j none cs g f = check-Moves s (record { found = f; unproven = g }) 0 j cs
    checked-Moves s j (some b) cs g f =
        step _ _ s _ (rw g (idle _ s succeeded _ _ (rw (f, g) stays_succeeded)))

    looked-Moves :
        (s : S) (j : Option J) (cs : List WorkerRegistryCommand)
        → σ.job k s ≡ j
        → Moves 6
            (at s (looked σ j) cs)
            s
            (state_from σ (map_some σ.terminal_error j) (σ.proof k s))
    looked-Moves s none cs f = idle _ s unknown_job _ _ (rw f not_found)
    looked-Moves s (some j) cs f = elim (Option-cases (σ.terminal_error j)) [
      | inl h ↦ rw (h, looked) (checked-Moves s j (σ.proof k s) cs refl (error_of s j none f h))
      | inr (e, h) ↦ rw (h, looked) (idle _ s (failed e) _ _ (rw (f, h) (stays_failed e)))
    ]

    -- A poll that nothing interrupts ends with an answer, and is a move of the machine: an unknown
    -- job stays unknown, a failed job failed and a succeeded job succeeded, and a running job goes
    -- on, fails or succeeds as the answer says. No other job changes its state.
    pub status_lem :
        (s : S)
        → (r : StatusAnswer) × ((status σ m k s).poll ≡ answered r)
          × Move (state_of σ k s) r (state_of σ k (status σ m k s).state)
          × ((i : K) → eq.beq k i ≡ false → state_of σ i (status σ m k s).state ≡ state_of σ i s)
    unfolding status advance
    status_lem s =
        let v = step 6 (to s look) s _ (looked-Moves s (σ.job k s) [] refl) in
        (v.reply, v.ends.answer, rw v.ends.state v.move, λ i ne. rw v.ends.state (v.others i ne))
