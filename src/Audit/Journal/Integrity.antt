-- ===== src/Audit/Journal/Integrity.antt =====
-- `record_event` keeps every log verified and numbered 1, 2, 3, ….
use shift_wise.Prelude.{
  ◌==◌, if◌then◌else◌, ==_iff, Bool-cases, length, ℕ, suc, ◌+◌, max, ◌≡◌, ap, ◌∙◌, inl, inr, true,
  none, some, List, [], ◌∷◌, ◌++◌, arith,
}
use shift_wise.Audit.Event.{Hash, Event}
use shift_wise.Audit.Journal.{
  NewEvent, log_of, max_sequence, previous_row_hash, new_row, record_event, verify_from,
  verify_event_chain,
}
use shift_wise.Audit.Journal.Chain.{
  Verified, end_hash, last-end_hash, Verified-append, verify_from-Verified, Verified-verify_from,
}
use shift_wise.Audit.Journal.Order.{log_of-append, next_sequence_id-log}

module _ {D : Type 0} where
  -- The rows are numbered k, k + 1, k + 2, … in order.
  abbrev pub NumberedFrom : ℕ → List (Event D) → Type 0
  NumberedFrom k [] = Unit
  NumberedFrom k (e ∷ es) = (e.sequence_id ≡ k) × NumberedFrom (suc k) es

  numbered_max :
      (k : ℕ) (es : List (Event D))
      → NumberedFrom (suc k) es
      → max k (max_sequence es) ≡ k + length es
  numbered_max k [] h = omega arith
  numbered_max k (e ∷ es) h = omega (arith, numbered_max (suc k) es h.1)

  numbered_append :
      (k : ℕ) (es : List (Event D)) (e : Event D)
      → NumberedFrom k es
      → e.sequence_id ≡ k + length es
      → NumberedFrom k (es ++ e ∷ [])
  numbered_append k [] e h p = (omega arith, tt)
  numbered_append k (r ∷ es) e h p = (h.0, numbered_append (suc k) es e h.1 (omega arith))

module _ (h : Hash) where
  open h use {Digest, genesis, compute_row_hash}

  previous_row_hash-end :
      (m : ℕ) (es : List (Event Digest))
      → previous_row_hash h m es ≡ end_hash h genesis (log_of m es)
  unfolding previous_row_hash
  previous_row_hash-end m es = last-end_hash h (log_of m es)

  pub log_of-new_row :
      (m : ℕ) (new : NewEvent) (es : List (Event Digest))
      → log_of m (es ++ new_row h new es ∷ [])
        ≡ (if new.migration_id == m then log_of m es ++ new_row h new es ∷ [] else log_of m es)
  unfolding new_row
  log_of-new_row m new es = log_of-append m es (new_row h new es) (omega arith)

  -- The row of `record_event` fits behind the log that it extends.
  new_row-Verified :
      (new : NewEvent) (es : List (Event Digest))
      → Verified h (end_hash h genesis (log_of new.migration_id es)) (new_row h new es ∷ [])
  unfolding new_row
  new_row-Verified new es = (rw previous_row_hash-end, tt)

  record_event-rows :
      (new : NewEvent) (es es' : List (Event Digest))
      → record_event h new es ≡ some es'
      → es' ≡ es ++ new_row h new es ∷ []
  unfolding record_event
  record_event-rows new es es' p = ground arith

  -- The log of `m` once `new` is recorded.
  abbrev grown : ℕ → NewEvent → List (Event Digest) → List (Event Digest)
  grown m new es =
      if new.migration_id == m then log_of m es ++ new_row h new es ∷ [] else log_of m es

  grown-Verified :
      (m : ℕ) (new : NewEvent) (es : List (Event Digest))
      → Verified h genesis (log_of m es)
      → Verified h genesis (grown m new es)
  grown-Verified m new es v = elim (Bool-cases (new.migration_id == m)) [
    | inl mine ↦
        rw (mine, ← (==_iff _ _).0 mine)
          ((Verified-append h genesis (log_of new.migration_id es) (new_row h new es ∷ [])).1
            (rw ((==_iff _ _).0 mine) v, new_row-Verified new es))
    | inr other ↦ rw other v
  ]

  -- Where `record_event` accepts an event, the log of the event's migration gains one row, at its
  -- end, the other logs are unchanged, and each log that verified before still does.
  pub record_event-verify_event_chain :
      (new : NewEvent) (es es' : List (Event Digest)) (m : ℕ)
      → record_event h new es ≡ some es'
      → verify_event_chain h m es ≡ (true, none)
      → (log_of m es' ≡ grown m new es) × (verify_event_chain h m es' ≡ (true, none))
  unfolding verify_event_chain
  record_event-verify_event_chain new es es' m p v =
      let rows = ap (log_of m) (record_event-rows new es es' p) ∙ log_of-new_row m new es in
      (
        rows,
        ap (verify_from h genesis) rows
            ∙ verify_from-Verified h genesis (grown m new es)
                (grown-Verified m new es (Verified-verify_from h genesis (log_of m es) v)),
      )

  -- Where `record_event` accepts an event, a log that was numbered 1, 2, 3, … in order still is.
  pub record_event-NumberedFrom :
      (new : NewEvent) (es es' : List (Event Digest)) (m : ℕ)
      → record_event h new es ≡ some es'
      → NumberedFrom 1 (log_of m es)
      → NumberedFrom 1 (log_of m es')
  record_event-NumberedFrom new es es' m p v =
      rw (record_event-rows new es es' p, log_of-new_row)
        (elim (Bool-cases (new.migration_id == m)) [
          | inl mine ↦
              rw (mine, ← (==_iff _ _).0 mine)
                (numbered_append 1 (log_of new.migration_id es) (new_row h new es)
                  (rw ((==_iff _ _).0 mine) v)
                  (unfold new_row in
                    omega (
                      arith,
                      next_sequence_id-log new.migration_id es,
                      numbered_max 0 (log_of new.migration_id es) (rw ((==_iff _ _).0 mine) v),
                    )))
          | inr other ↦ rw other v
        ])
