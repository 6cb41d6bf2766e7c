-- ===== src/Audit/Journal/Order.antt =====
-- The log of a migration under an insertion: a row numbered past all others comes last.
use shift_wise.Prelude.{
  ◌==◌, if◌then◌else◌, ==_iff, Bool-cases, ℕ, ◌+◌, ◌≤◌, max, ◌≡◌, refl, ap, ◌∙◌, inl, inr, List, [],
  ◌∷◌, ◌++◌, arith,
}
use shift_wise.Audit.Event.{Event}
use shift_wise.Audit.Journal.{
  is_of, rows_of, place, ordered, log_of, max_sequence, next_sequence_id,
}

module _ {D : Type 0} where
  rows_of-append :
      (m : ℕ) (es : List (Event D)) (e : Event D)
      → rows_of m (es ++ e ∷ []) ≡ (if is_of m e then rows_of m es ++ e ∷ [] else rows_of m es)
  unfolding rows_of
  rows_of-append m [] e = refl
  rows_of-append m (r ∷ es) e = ground (arith, rows_of-append m es e)

  place-append :
      (r : Event D) (es : List (Event D)) (e : Event D)
      → r.sequence_id ≤ e.sequence_id
      → place r (es ++ e ∷ []) ≡ place r es ++ e ∷ []
  unfolding place
  place-append r [] e h = ground arith
  place-append r (x ∷ es) e h = ground (arith, place-append r es e h)

  ordered-append :
      (es : List (Event D)) (e : Event D)
      → max_sequence es ≤ e.sequence_id
      → ordered (es ++ e ∷ []) ≡ ordered es ++ e ∷ []
  unfolding ordered
  ordered-append [] e h = refl
  ordered-append (r ∷ es) e h =
      ap (place r) (ordered-append es e (omega arith)) ∙ place-append r (ordered es) e (omega arith)

  max_sequence-place :
      (r : Event D) (es : List (Event D))
      → max_sequence (place r es) ≡ max r.sequence_id (max_sequence es)
  unfolding place
  max_sequence-place r [] = refl
  max_sequence-place r (x ∷ es) = ground (arith, max_sequence-place r es)

  pub max_sequence-ordered : (es : List (Event D)) → max_sequence (ordered es) ≡ max_sequence es
  unfolding ordered
  max_sequence-ordered [] = refl
  max_sequence-ordered (r ∷ es) =
      omega (arith, max_sequence-place r (ordered es), max_sequence-ordered es)

  pub next_sequence_id-log :
      (m : ℕ) (es : List (Event D)) → next_sequence_id m es ≡ max_sequence (log_of m es) + 1
  unfolding next_sequence_id log_of
  next_sequence_id-log m es = omega (arith, max_sequence-ordered (rows_of m es))

  room :
      (m : ℕ) (es : List (Event D)) (e : Event D)
      → e.migration_id ≡ m
      → next_sequence_id e.migration_id es ≤ e.sequence_id
      → max_sequence (rows_of m es) ≤ e.sequence_id
  unfolding next_sequence_id
  room m es e p h = rw (← p) (omega arith)

  -- A row numbered past those of its migration ends that migration's log, and no other log changes.
  pub log_of-append :
      (m : ℕ) (es : List (Event D)) (e : Event D)
      → next_sequence_id e.migration_id es ≤ e.sequence_id
      → log_of m (es ++ e ∷ [])
        ≡ (if e.migration_id == m then log_of m es ++ e ∷ [] else log_of m es)
  unfolding log_of
  log_of-append m es e h = elim (Bool-cases (is_of m e)) [
    | inl mine ↦
        rw (rows_of-append, mine)
          (ordered-append (rows_of m es) e (room m es e ((==_iff _ _).0 mine) h))
    | inr other ↦ rw (rows_of-append, other)
  ]
