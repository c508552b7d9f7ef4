-- ===== src/Service/Loop/Triggers.antt =====
-- Every trigger leads to an update, until the counter of changes runs out.
use correlation.Base.{
  ℕ, suc, ◌+◌, ◌^◌, ◌-◌, ◌<◌, ◌≤◌, List, [], ◌∷◌, ◌≡◌, arith, Bool, true, false, if◌then◌else◌,
  none, some, All, inl, inr, Option-cases,
}
use correlation.Service.Loop.{
  LoopState, trigger_update, end_round, Step, trigger, signal, begin, finish, step, run,
}

-- The loop has seen no change that has not happened.
pub record IsOrdered (s : LoopState) : Type 0 where
  pub last_le : s.last_change_counter ≤ s.change_counter
  pub updating_le : (n : ℕ) → s.updating ≡ some n → n ≤ s.change_counter

-- how many triggers there are
abbrev pub triggers : List Step → ℕ
triggers [] = 0
triggers (trigger ∷ os) = suc (triggers os)
triggers (_ ∷ os) = triggers os

abbrev pub begins : Step → Bool
begins begin = true
begins _ = false

-- A change is still to be acted on, even if the update that runs succeeds.
pub record IsPending (s : LoopState) : Type 0 where
  pub last_lt : s.last_change_counter < s.change_counter
  pub updating_lt : (n : ℕ) → s.updating ≡ some n → n < s.change_counter

module _ (s : LoopState) (room : s.change_counter + 1 < 2 ^ 32) (h : IsPending s) where
  trigger-IsPending : IsPending (step trigger s)
  unfolding step
  trigger-IsPending = record {
    last_lt = omega (arith, h.last_lt);
    updating_lt = λ n e. let lt = h.updating_lt n e in omega arith;
  }

  signal-IsPending : IsPending (step signal s)
  unfolding step
  signal-IsPending = record { last_lt = h.last_lt; updating_lt = h.updating_lt }

  finish-IsPending : (succeeded : Bool) → IsPending (step (finish succeeded) s)
  unfolding step
  finish-IsPending succeeded = elim (Option-cases s.updating) [
    | inl e ↦ rw (e, end_round) h
    | inr (n, e) ↦ rw (e, end_round) (ended succeeded n (h.updating_lt n e))
  ]
    where
      ended :
          (b : Bool) (n : ℕ)
          → n < s.change_counter
          → IsPending (
              if b
              then record s { last_change_counter = n; updating = none }
              else record s { updating = none })
      ended true n lt = record { last_lt = lt; updating_lt = λ m e. absurd (none_some m e) }
        where
          none_some : (m : ℕ) → none ≡ some m → ⊥
          none_some m e = cc
      ended false n lt = record { last_lt = h.last_lt; updating_lt = λ m e. absurd (none_some m e) }
        where
          none_some : (m : ℕ) → none ≡ some m → ⊥
          none_some m e = cc

change_trigger :
    (s : LoopState)
    → s.change_counter + 1 < 2 ^ 32
    → (step trigger s).change_counter ≡ s.change_counter + 1
unfolding step
change_trigger s room = omega arith

change_finish : (b : Bool) (s : LoopState) → (step (finish b) s).change_counter ≡ s.change_counter
unfolding step
change_finish b s = ground arith

-- the steps before the next round begins
run-IsPending :
    (os : List Step) (s : LoopState)
    → s.change_counter + 1 + triggers os < 2 ^ 32
    → All (λ o. begins o ≡ false) os
    → IsPending s
    → IsPending (run os s)
unfolding run
run-IsPending [] s room quiet h = h
run-IsPending (trigger ∷ os) s room (q, quiet) h =
    let small : s.change_counter + 1 < 2 ^ 32 = omega (arith, room) in
    run-IsPending os (step trigger s) (omega (arith, change_trigger s small, room)) quiet
      (trigger-IsPending s small h)
run-IsPending (signal ∷ os) s room (q, quiet) h =
    run-IsPending os (step signal s) (unfold step in room) quiet
      (signal-IsPending s (omega (arith, room)) h)
run-IsPending (begin ∷ os) s room (q, quiet) h = absurd (impossible q)
  where
    impossible : true ≡ false → ⊥
    impossible e = cc
run-IsPending (finish b ∷ os) s room (q, quiet) h =
    run-IsPending os (step (finish b) s) (omega (arith, change_finish b s, room)) quiet
      (finish-IsPending s (omega (arith, room)) h b)

IsPending-of_trigger :
    (s : LoopState) → s.change_counter + 1 < 2 ^ 32 → IsOrdered s → IsPending (trigger_update s)
unfolding trigger_update
IsPending-of_trigger s room h = record {
  last_lt = omega (arith, h.last_le);
  updating_lt = λ n e. let le = h.updating_le n e in omega arith;
}

begin_updates :
    (s : LoopState)
    → IsPending s
    → s.updating ≡ none
    → s.signal_counter ≡ 0
    → (step begin s).updating ≡ some s.change_counter
unfolding step
begin_updates s h free quiet = ground (arith, h.last_lt, free, quiet)

change_trigger_update :
    (s : LoopState)
    → s.change_counter + 1 < 2 ^ 32
    → (trigger_update s).change_counter ≡ s.change_counter + 1
unfolding trigger_update
change_trigger_update s room = omega arith

-- A trigger is not lost, also while an update runs: if no round begins between it and a time when no
-- update runs and no signal has come, the next round starts an update with the counter as it is then.
-- Before the trigger the loop has seen no counter above the counter of changes, and that must not reach
-- 2^32.
pub trigger_not_lost :
    (os : List Step) (s : LoopState)
    → IsOrdered s
    → s.change_counter + 2 + triggers os < 2 ^ 32
    → All (λ o. begins o ≡ false) os
    → (run os (trigger_update s)).updating ≡ none
    → (run os (trigger_update s)).signal_counter ≡ 0
    → (step begin (run os (trigger_update s))).updating
      ≡ some (run os (trigger_update s)).change_counter
trigger_not_lost os s ordered room quiet free alive =
    let small : s.change_counter + 1 < 2 ^ 32 = omega (arith, room) in
    begin_updates _
      (run-IsPending os (trigger_update s) (omega (arith, change_trigger_update s small, room))
        quiet (IsPending-of_trigger s small ordered))
      free alive

-- The loop acts on no change any more.
record IsStuck (s : LoopState) : Type 0 where
  last_max : s.last_change_counter ≡ 2 ^ 32 - 1
  counts : s.change_counter < 2 ^ 32
  idle : s.updating ≡ none

step-IsStuck : (o : Step) (s : LoopState) → IsStuck s → IsStuck (step o s)
unfolding step
step-IsStuck trigger s h = record { last_max = h.last_max; counts = omega arith; idle = h.idle }
step-IsStuck signal s h = record { last_max = h.last_max; counts = h.counts; idle = h.idle }
step-IsStuck begin s h = ground (arith, h.last_max, h.counts, h.idle)
step-IsStuck (finish b) s h = ground (arith, h.last_max, h.counts, h.idle)

-- When lastChangeCounter is 2^32 - 1, which is so behind an update with that counter, the counter of
-- changes is below 2^32 and no update runs, no update runs at the end of any steps that follow, however
-- often the backend changes.
pub updates_end :
    (os : List Step) (s : LoopState)
    → s.last_change_counter ≡ 2 ^ 32 - 1
    → s.change_counter < 2 ^ 32
    → s.updating ≡ none
    → (run os s).updating ≡ none
unfolding run
updates_end [] s last counts idle = idle
updates_end (o ∷ os) s last counts idle =
    let h = step-IsStuck o s (record { last_max = last; counts = counts; idle = idle }) in
    updates_end os (step o s) h.last_max h.counts h.idle
