-- ===== src/Worker/Waiting.antt =====
-- `_wait_for_conversions` of backend/app/tasks/migration.py. The group that a turn reads and the
-- time that it takes, beside the five seconds that it sleeps, are functions of the turn's number.
-- The progress that a turn shows is not modelled here.
use shift_wise.Prelude.{
  leb, if◌then◌else◌, Bool-cases, Option-cases, ℕ, zero, suc, ◌+◌, ◌*◌, ◌/◌, ◌≤◌, ◌<◌, ◌≡◌, refl,
  inl, inr, Bool, true, false, Option, none, some, arith,
}
use shift_wise.Conversion.Crud.{GroupStatus, group_ready, group_failed, partial, group_cancelled}

pub data Wait : Type 0 where
  ready vanished timed_out : Wait
  ended : GroupStatus → Wait

-- `_FAILED_GROUP_STATES`
abbrev pub is_failed_group : GroupStatus → Bool
is_failed_group group_failed = true
is_failed_group partial = true
is_failed_group group_cancelled = true
is_failed_group _ = false

-- What a turn makes of the group, if it ends the wait.
abbrev pub verdict : Option GroupStatus → Option Wait
verdict none = some vanished
verdict (some group_ready) = some ready
verdict (some group_failed) = some (ended group_failed)
verdict (some partial) = some (ended partial)
verdict (some group_cancelled) = some (ended group_cancelled)
verdict (some _) = none

abbrev pub poll_interval : ℕ
poll_interval = 5

module _ (group : ℕ → Option GroupStatus) (cost : ℕ → ℕ) (start timeout : ℕ) where
  -- The time at which a turn begins.
  abbrev pub time : ℕ → ℕ
  time zero = start
  time (suc turn) = time turn + cost turn + poll_interval

  abbrev pub deadline : ℕ
  deadline = start + timeout

  -- The turns from the one numbered `turn`; `none` when the fuel is used up.
  unfoldable pub poll : ℕ → ℕ → ℕ → Option Wait
  poll zero turn now = none
  poll (suc fuel) turn now =
      let rest = poll fuel (suc turn) (now + cost turn + poll_interval) in
      elim (verdict (group turn)) [
        | some result ↦ some result
        | none ↦ if leb deadline now then some timed_out else rest
      ]

  -- Fuel for every turn that begins before the deadline, and one more.
  unfoldable pub wait_for_conversions : Option Wait
  wait_for_conversions = poll (suc (timeout / poll_interval + 1)) 0 start

  -- How a wait ends from a turn on: the group decides it, which is looked at first, or the deadline
  -- does, or else the next turn.
  pub data Ends (result : Wait) : ℕ → Type 0 where
    decided : {turn : ℕ} → verdict (group turn) ≡ some result → Ends result turn
    late :
        {turn : ℕ}
        → verdict (group turn) ≡ none
        → deadline ≤ time turn
        → result ≡ timed_out
        → Ends result turn
    later :
        {turn : ℕ}
        → verdict (group turn) ≡ none
        → time turn < deadline
        → Ends result (suc turn)
        → Ends result turn

  poll-Ends :
      (fuel turn : ℕ)
      → deadline ≤ time turn + poll_interval * fuel
      → (result : Wait) × (poll (suc fuel) turn (time turn) ≡ some result) × Ends result turn
  unfolding poll
  poll-Ends zero turn enough = elim (Option-cases (verdict (group turn))) [
    | inr (result, found) ↦ (result, ground arith, decided found)
    | inl waiting ↦ (timed_out, ground arith, late waiting (ground arith) refl)
  ]
  poll-Ends (suc fuel) turn enough = elim (Option-cases (verdict (group turn))) [
    | inr (result, found) ↦ (result, ground arith, decided found)
    | inl waiting ↦ elim (Bool-cases (leb deadline (time turn))) [
      | inl past ↦ (timed_out, ground arith, late waiting (ground arith) refl)
      | inr early ↦
          let (result, ends, how) = poll-Ends fuel (suc turn) (ground arith) in
          (result, ground arith, later waiting (ground arith) how)
    ]
  ]

  -- Whatever the group does, and however long a turn takes, the wait ends: by what the group says at
  -- the first turn that finds it finished or gone, or else at the first turn that begins at the
  -- deadline or later; a group that finishes by then is never reported as late.
  pub wait_for_conversions-Ends :
      (result : Wait) × (wait_for_conversions ≡ some result) × Ends result 0
  unfolding wait_for_conversions
  wait_for_conversions-Ends = poll-Ends (timeout / poll_interval + 1) 0 (omega arith)
