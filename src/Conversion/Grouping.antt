-- ===== src/Conversion/Grouping.antt =====
-- The status that a group has from its jobs, `recompute_group_status` of
-- backend/app/crud/conversion.py.
use shift_wise.Prelude.{any, all, is_empty, ◌≡◌, refl, ◌↔◌, true, false, not, List, [], ◌∷◌, arith}
use shift_wise.Conversion.Crud.{
  is_terminal_group, partial, group_cancelled, group_ready, in_progress, is_ready, is_in_flight,
  is_terminal_fail, is_cancelled, group_status_of, JobStatus,
}

-- The four classes of statuses exclude each other and leave none out.
all_ready-classes :
    (statuses : List JobStatus)
    → all is_ready statuses ≡ true
    → (any is_in_flight statuses ≡ false)
      × (any is_terminal_fail statuses ≡ false)
      × (any is_cancelled statuses ≡ false)
all_ready-classes [] h = (refl, refl, refl)
all_ready-classes (s ∷ ss) h = ground (arith, all_ready-classes ss)

no_other-all_ready :
    (statuses : List JobStatus)
    → any is_in_flight statuses ≡ false
    → any is_terminal_fail statuses ≡ false
    → any is_cancelled statuses ≡ false
    → all is_ready statuses ≡ true
no_other-all_ready [] a b c = refl
no_other-all_ready (s ∷ ss) a b c = ground (arith, no_other-all_ready ss)

all_cancelled-classes :
    (statuses : List JobStatus)
    → all is_cancelled statuses ≡ true
    → (any is_in_flight statuses ≡ false)
      × (any is_terminal_fail statuses ≡ false)
      × (any is_ready statuses ≡ false)
all_cancelled-classes [] h = (refl, refl, refl)
all_cancelled-classes (s ∷ ss) h = ground (arith, all_cancelled-classes ss)

any-all_ready :
    (statuses : List JobStatus)
    → is_empty statuses ≡ false
    → all is_ready statuses ≡ true
    → any is_ready statuses ≡ true
any-all_ready [] h a = cc
any-all_ready (s ∷ ss) h a = ground arith

any-all_cancelled :
    (statuses : List JobStatus)
    → is_empty statuses ≡ false
    → all is_cancelled statuses ≡ true
    → any is_cancelled statuses ≡ true
any-all_cancelled [] h a = cc
any-all_cancelled (s ∷ ss) h a = ground arith

all_failed-classes :
    (statuses : List JobStatus)
    → all is_terminal_fail statuses ≡ true
    → (any is_cancelled statuses ≡ false) × (any is_ready statuses ≡ false)
all_failed-classes [] h = (refl, refl)
all_failed-classes (s ∷ ss) h = ground (arith, all_failed-classes ss)

any-all_failed :
    (statuses : List JobStatus)
    → is_empty statuses ≡ false
    → all is_terminal_fail statuses ≡ true
    → any is_terminal_fail statuses ≡ true
any-all_failed [] h a = cc
any-all_failed (s ∷ ss) h a = ground arith

-- For a group with jobs: it is IN_PROGRESS exactly while a job is in flight, READY exactly where
-- all jobs are, CANCELLED exactly where all jobs are, PARTIAL exactly where no job is in flight
-- and some but not all are READY, and otherwise FAILED; so a group with no job in flight has a
-- terminal status.
pub group_status_of_lem :
    (statuses : List JobStatus)
    → is_empty statuses ≡ false
    → ((group_status_of statuses ≡ in_progress) ↔ (any is_in_flight statuses ≡ true))
      × ((group_status_of statuses ≡ group_ready) ↔ (all is_ready statuses ≡ true))
      × ((group_status_of statuses ≡ group_cancelled) ↔ (all is_cancelled statuses ≡ true))
      × ((group_status_of statuses ≡ partial) ↔ (
          (any is_in_flight statuses ≡ false)
          × (any is_ready statuses ≡ true)
          × (all is_ready statuses ≡ false)))
      × (is_terminal_group (group_status_of statuses) ≡ not (any is_in_flight statuses))
unfolding group_status_of
group_status_of_lem statuses h = ground (
  arith,
  all_ready-classes statuses,
  no_other-all_ready statuses,
  all_cancelled-classes statuses,
  any-all_ready statuses h,
  any-all_cancelled statuses h,
  all_failed-classes statuses,
)
