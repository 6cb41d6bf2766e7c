-- ===== src/Audit/Journal/Chain.antt =====
-- The check of `verify_event_chain` as a predicate on the rows.
use shift_wise.Prelude.{
  Bool-cases, or_else, ◌≡◌, refl, sym, ◌↔◌, ◌⊎◌, inl, inr, true, Option, none, some, List, [], ◌∷◌,
  ◌++◌, arith,
}
use shift_wise.Audit.Event.{Hash, Content, Event}
use shift_wise.Audit.Journal.{last?, hash_or_genesis, check_row, verify_from}

module _ (h : Hash) where
  open h use {Digest, genesis, compute_row_hash, same, same_iff}

  -- A row with a digest holds the digest of what precedes it and of its content.
  abbrev pub RowFits : Digest → Content → Option Digest → Type 0
  RowFits prev c none = Unit
  RowFits prev c (some stored) = compute_row_hash prev c ≡ stored

  -- The digest that the row behind `e` is chained to.
  abbrev pub next_hash : Event Digest → Digest
  next_hash e = or_else e.row_hash genesis

  abbrev pub Verified : Digest → List (Event Digest) → Type 0
  Verified prev [] = Unit
  Verified prev (e ∷ es) = RowFits prev e.content e.row_hash × Verified (next_hash e) es

  abbrev pub end_hash : Digest → List (Event Digest) → Digest
  end_hash prev [] = prev
  end_hash prev (e ∷ es) = end_hash (next_hash e) es

  end_hash-last :
      (prev : Digest) (e : Event Digest) (es : List (Event Digest))
      → end_hash prev (e ∷ es) ≡ hash_or_genesis h (last? (e ∷ es))
  end_hash-last prev e [] = refl
  end_hash-last prev e (r ∷ es) = ground (arith, end_hash-last (next_hash e) r es)

  pub last-end_hash :
      (es : List (Event Digest)) → hash_or_genesis h (last? es) ≡ end_hash genesis es
  last-end_hash [] = refl
  last-end_hash (e ∷ es) = sym (end_hash-last genesis e es)

  check_row-fits :
      (prev : Digest) (c : Content) (stored : Option Digest)
      → RowFits prev c stored
      → check_row h prev c stored ≡ some (or_else stored genesis)
  unfolding check_row
  check_row-fits prev c none fits = refl
  check_row-fits prev c (some d) fits = rw ((same_iff _ _).1 fits)

  check_row-cases :
      (prev : Digest) (c : Content) (stored : Option Digest)
      → (check_row h prev c stored ≡ none) ⊎ RowFits prev c stored
  unfolding check_row
  check_row-cases prev c none = inr tt
  check_row-cases prev c (some d) = elim (Bool-cases (same (compute_row_hash prev c) d)) [
    | inl equal ↦ inr ((same_iff _ _).0 equal)
    | inr differs ↦ inl (rw differs)
  ]

  pub verify_from-Verified :
      (prev : Digest) (es : List (Event Digest))
      → Verified prev es
      → verify_from h prev es ≡ (true, none)
  unfolding verify_from
  verify_from-Verified prev [] v = refl
  verify_from-Verified prev (e ∷ es) v =
      rw (check_row-fits prev e.content e.row_hash v.0, verify_from)
        (verify_from-Verified (next_hash e) es v.1)

  pub Verified-verify_from :
      (prev : Digest) (es : List (Event Digest))
      → verify_from h prev es ≡ (true, none)
      → Verified prev es
  unfolding verify_from
  Verified-verify_from prev [] p = tt
  Verified-verify_from prev (e ∷ es) p = elim (check_row-cases prev e.content e.row_hash) [
    | inl bad ↦ ground (arith, bad)
    | inr fits ↦ (
      fits,
      Verified-verify_from (next_hash e) es
          (rw (check_row-fits prev e.content e.row_hash fits, verify_from) at p),
    )
  ]

  pub Verified-append :
      (prev : Digest) (xs ys : List (Event Digest))
      → Verified prev (xs ++ ys) ↔ (Verified prev xs × Verified (end_hash prev xs) ys)
  Verified-append prev [] ys = ((λ v. (tt, v)), λ v. v.1)
  Verified-append prev (e ∷ xs) ys = (
    (λ v. let r = (Verified-append (next_hash e) xs ys).0 v.1 in ((v.0, r.0), r.1)),
    λ v. (v.0.0, (Verified-append (next_hash e) xs ys).1 (v.0.1, v.1)),
  )
