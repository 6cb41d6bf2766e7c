-- ===== src/Rows.antt =====
-- A database table as the list of its rows, read and written by primary key: what
-- `db.query(T).filter(T.id == k).first()` followed by attribute writes and `db.commit()` does.
use shift_wise.Prelude.{
  ◌==◌, if◌then◌else◌, map_option, length, ℕ, ◌≡◌, refl, Option, none, some, List, [], ◌∷◌, arith,
}

module _ {ℓ} {A : Type ℓ} (id_of : A → ℕ) where
  unfoldable pub find : ℕ → List A → Option A
  find k [] = none
  find k (row ∷ rows) = if id_of row == k then some row else find k rows

  -- The row that `find` returns is replaced by its image.
  unfoldable pub update : ℕ → (A → A) → List A → List A
  update k f [] = []
  update k f (row ∷ rows) = if id_of row == k then f row ∷ rows else row ∷ update k f rows

  -- A read after a write that keeps the key.
  pub find-update :
      (k j : ℕ) (f : A → A) (rows : List A)
      → ((row : A) → id_of row ≡ k → id_of (f row) ≡ k)
      → find j (update k f rows) ≡ (if k == j then map_option f (find j rows) else find j rows)
  unfolding find update
  find-update k j f [] keep = ground arith
  find-update k j f (row ∷ rows) keep = ground (arith, keep row, find-update k j f rows keep)

  pub find-id : (k : ℕ) (rows : List A) (row : A) → find k rows ≡ some row → id_of row ≡ k
  unfolding find
  find-id k [] row h = cc
  find-id k (r ∷ rows) row h = ground (arith, find-id k rows row)

  pub length-update : (k : ℕ) (f : A → A) (rows : List A) → length (update k f rows) ≡ length rows
  unfolding update
  length-update k f [] = refl
  length-update k f (row ∷ rows) = ground (arith, length-update k f rows)
