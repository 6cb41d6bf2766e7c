-- ===== src/Audit/Journal/Tamper.antt =====
-- What the check of the chain detects, and what it does not.
use shift_wise.Prelude.{
  Option-cases, or_else, is_some, All, ℕ, ◌≡◌, refl, sym, ap, ◌∙◌, inl, inr, true, Option, none,
  some, List, [], ◌∷◌, ◌++◌,
}
use mathlib.Core.Path.{ap₂}
use mathlib.Core.List.{reverse, reverse-append, reverse-reverse, append_assoc, append-nil}
use shift_wise.Audit.Event.{Hash, Content, Event}
use shift_wise.Audit.Journal.{log_of, previous_row_hash, verify_from, verify_event_chain}
use shift_wise.Audit.Journal.Chain.{
  Verified, end_hash, next_hash, RowFits, last-end_hash, Verified-append, verify_from-Verified,
  Verified-verify_from,
}

module _ {ℓ} {A : Type ℓ} where
  abbrev rev_onto : List A → List A → List A
  rev_onto acc [] = acc
  rev_onto acc (x ∷ xs) = rev_onto (x ∷ acc) xs

  rev_onto-reverse : (acc xs : List A) → rev_onto acc xs ≡ reverse xs ++ acc
  rev_onto-reverse acc [] = refl
  rev_onto-reverse acc (x ∷ xs) =
      rev_onto-reverse (x ∷ acc) xs
      ∙ (sym (append_assoc (reverse xs) (x ∷ []) acc)
          ∙ ap (λ l. l ++ acc) (sym (reverse-append (x ∷ []) xs)))

  rev_onto-injective : (xs ys : List A) → rev_onto [] xs ≡ rev_onto [] ys → xs ≡ ys
  rev_onto-injective xs ys p =
      sym (reverse-reverse xs)
      ∙ (ap reverse (
            sym (append-nil (reverse xs))
            ∙ (sym (rev_onto-reverse [] xs)
                ∙ (p ∙ (rev_onto-reverse [] ys ∙ append-nil (reverse ys)))))
          ∙ reverse-reverse ys)

module _ (h : Hash) where
  open h use {Digest, genesis, compute_row_hash, not_genesis, injective}

  -- Every row holds a digest.
  abbrev pub AllChained : List (Event Digest) → Type 0
  AllChained es = All (λ e. is_some e.row_hash ≡ true) es

  -- The digest of the newest row, of a log whose newest row comes first.
  abbrev head_hash : List (Event Digest) → Digest
  head_hash [] = genesis
  head_hash (e ∷ older) = next_hash h e

  abbrev ChainedBack : List (Event Digest) → Type 0
  ChainedBack [] = Unit
  ChainedBack (e ∷ older) =
      (e.row_hash ≡ some (compute_row_hash (head_hash older) e.content)) × ChainedBack older

  next_hash_lem : (e : Event Digest) {d : Digest} → e.row_hash ≡ some d → next_hash h e ≡ d
  next_hash_lem e p = ap (λ (o : Option Digest). or_else o genesis) p

  -- Two logs with one newest digest are one log.
  back_unique :
      (xs ys : List (Event Digest))
      → ChainedBack xs
      → ChainedBack ys
      → head_hash xs ≡ head_hash ys
      → xs ≡ ys
  back_unique [] [] p q e = refl
  back_unique [] (y ∷ ys) p q e =
      absurd (not_genesis (head_hash ys) y.content (sym (next_hash_lem y q.0) ∙ sym e))
  back_unique (x ∷ xs) [] p q e =
      absurd (not_genesis (head_hash xs) x.content (sym (next_hash_lem x p.0) ∙ e))
  back_unique (x ∷ xs) (y ∷ ys) p q e =
      let (prevs, contents) =
        injective (head_hash xs) (head_hash ys) x.content y.content
          (sym (next_hash_lem x p.0) ∙ (e ∙ next_hash_lem y q.0)) in
      let hashes : x.row_hash ≡ y.row_hash =
        p.0 ∙ (ap₂ (λ d c. some (compute_row_hash d c)) prevs contents ∙ sym q.0) in
      cc (hashes, contents, back_unique xs ys p.1 q.1 prevs)

  row_chained :
      (prev : Digest) (e : Event Digest)
      → is_some e.row_hash ≡ true
      → RowFits h prev e.content e.row_hash
      → e.row_hash ≡ some (compute_row_hash prev e.content)
  row_chained prev e c fits = elim (Option-cases e.row_hash) [
    | inl null ↦ cc (null, c)
    | inr (d, stored) ↦ stored ∙ ap some (sym (rw (stored, RowFits) at fits))
  ]

  to_back :
      (acc es : List (Event Digest))
      → ChainedBack acc
      → AllChained es
      → Verified h (head_hash acc) es
      → ChainedBack (rev_onto acc es)
        × (head_hash (rev_onto acc es) ≡ end_hash h (head_hash acc) es)
  to_back acc [] b c v = (b, refl)
  to_back acc (e ∷ es) b c v =
      to_back (e ∷ acc) es (row_chained (head_hash acc) e c.0 v.0, b) c.1 v.1

  chain_unique :
      (xs ys : List (Event Digest))
      → AllChained xs
      → AllChained ys
      → Verified h genesis xs
      → Verified h genesis ys
      → end_hash h genesis xs ≡ end_hash h genesis ys
      → xs ≡ ys
  chain_unique xs ys cx cy vx vy e =
      let (bx, hx) = to_back [] xs tt cx vx in
      let (by, hy) = to_back [] ys tt cy vy in
      rev_onto-injective xs ys
        (back_unique (rev_onto [] xs) (rev_onto [] ys) bx by (hx ∙ (e ∙ sym hy)))

  -- Two states of the table in which the log of a migration verifies, with a digest on every row,
  -- and ends in one digest, hold the same log: no edit, deletion, insertion or reordering that
  -- keeps the newest digest passes the check.
  pub verify_event_chain_unique :
      (m : ℕ) (es es' : List (Event Digest))
      → AllChained (log_of m es)
      → AllChained (log_of m es')
      → verify_event_chain h m es ≡ (true, none)
      → verify_event_chain h m es' ≡ (true, none)
      → previous_row_hash h m es ≡ previous_row_hash h m es'
      → log_of m es ≡ log_of m es'
  unfolding verify_event_chain previous_row_hash
  verify_event_chain_unique m es es' c c' v v' e =
      chain_unique (log_of m es) (log_of m es') c c'
        (Verified-verify_from h genesis (log_of m es) v)
        (Verified-verify_from h genesis (log_of m es') v')
        (sym (last-end_hash h (log_of m es)) ∙ (e ∙ last-end_hash h (log_of m es')))

  -- What the check does not see, for every log that verifies: its newest rows may be gone, and its
  -- newest row may hold any content once its digest is erased.
  pub newest_rows-unprotected :
      (rows newest : List (Event Digest)) (last : Event Digest) (forged : Content)
      → verify_from h genesis (rows ++ last ∷ newest) ≡ (true, none)
      → (verify_from h genesis rows ≡ (true, none))
        × (verify_from h genesis (rows ++ record last { content = forged; row_hash = none } ∷ [])
            ≡ (true, none))
  newest_rows-unprotected rows newest last forged v =
      let (kept, _) =
        (Verified-append h genesis rows (last ∷ newest)).0
          (Verified-verify_from h genesis (rows ++ last ∷ newest) v) in
      (
        verify_from-Verified h genesis rows kept,
        verify_from-Verified h genesis
            (rows ++ record last { content = forged; row_hash = none } ∷ [])
            ((Verified-append h genesis rows
                (record last { content = forged; row_hash = none } ∷ [])).1
              (kept, (tt, tt))),
      )
