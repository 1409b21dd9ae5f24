-- ===== src/Executor/Deaths.antt =====
-- When the OpenVM worker is given up.
use hierophant.Prelude.{
  ℕ, zero, suc, ◌<◌, ◌≤◌, ◌≡◌, Bool, true, false, List, [], ◌∷◌, length, arith, leb, not, ◌&&◌,
}
use hierophant.Executor.{Called, transport_death, settle, notifies, permanently_dead}

-- The count after the calls of a new executor, the last call first.
unfoldable pub deaths_after : List Called → ℕ
unfolding settle
deaths_after [] = 0
deaths_after (c ∷ older) = settle c (deaths_after older)

-- The last `n` calls were transport deaths.
abbrev pub last_died : ℕ → List Called → Bool
last_died zero cs = true
last_died (suc n) [] = false
last_died (suc n) (c ∷ older) = transport_death c && last_died n older

deaths_after-le : (cs : List Called) → deaths_after cs ≤ length cs
unfolding deaths_after settle
deaths_after-le [] = omega arith
deaths_after-le (c ∷ older) = ground (arith, deaths_after-le older)

deaths_after-last_died :
    (n : ℕ) (cs : List Called) → length cs < 4294967296 → leb n (deaths_after cs) ≡ last_died n cs
unfolding deaths_after settle
deaths_after-last_died zero cs l = ground arith
deaths_after-last_died (suc n) [] l = ground arith
deaths_after-last_died (suc n) (c ∷ older) l =
    ground (arith, deaths_after-last_died n older (omega (arith, l)), deaths_after-le older, l)

-- The worker is given up exactly where the last three calls ended in transport deaths, and the
-- connection is told to register again exactly at the call that makes them three: a response of any
-- kind before it, or a failed join, starts the count anew, and no later death tells it a second time.
-- There are less than 2^32 calls.
pub deaths_after_lem :
    (c : Called) (older : List Called)
    → length (c ∷ older) < 4294967296
    → (permanently_dead (deaths_after (c ∷ older)) ≡ last_died 3 (c ∷ older))
      × (notifies c (deaths_after older) ≡ (last_died 3 (c ∷ older) && not (last_died 3 older)))
unfolding permanently_dead notifies deaths_after
deaths_after_lem c older l =
    let now = deaths_after-last_died 3 (c ∷ older) l in
    let before = deaths_after-last_died 3 older (omega (arith, l)) in
    (now, ground (arith, now, before))
