-- ===== src/Audit/Journal.antt =====
-- `record_event` and `verify_event_chain` of backend/app/crud/migration_event.py, over the table
-- of all events in the order in which they were inserted.
pub mod Order
pub mod Chain
pub mod Integrity
pub mod Tamper
use shift_wise.Prelude.{
  leb, ◌==◌, if◌then◌else◌, or_else, ℕ, ◌+◌, max, Bool, true, false, ◌||◌, Option, none, some, List,
  [], ◌∷◌, ◌++◌,
}
use Prim.Native.String.{String}
use text.Mathlib.Text.{◌==◌ as str_eq}
use shift_wise.Migration.Status.{Status}
use shift_wise.Audit.Event.{EventType, Content, Hash, Event}

module _ {D : Type 0} where
  abbrev pub is_of : ℕ → Event D → Bool
  is_of migration_id e = e.migration_id == migration_id

  -- `.filter(MigrationEvent.migration_id == migration_id)`
  unfoldable pub rows_of : ℕ → List (Event D) → List (Event D)
  rows_of migration_id [] = []
  rows_of migration_id (e ∷ es) =
      let rest = rows_of migration_id es in if is_of migration_id e then e ∷ rest else rest

  -- `.order_by(MigrationEvent.sequence_id.asc())`
  place : Event D → List (Event D) → List (Event D)
  place e [] = e ∷ []
  place e (r ∷ rs) = if leb e.sequence_id r.sequence_id then e ∷ r ∷ rs else r ∷ place e rs

  unfoldable pub ordered : List (Event D) → List (Event D)
  unfolding place
  ordered [] = []
  ordered (e ∷ es) = place e (ordered es)

  -- The log of one migration, oldest event first.
  unfoldable pub log_of : ℕ → List (Event D) → List (Event D)
  unfolding rows_of ordered
  log_of migration_id es = ordered (rows_of migration_id es)

  abbrev pub max_sequence : List (Event D) → ℕ
  max_sequence [] = 0
  max_sequence (e ∷ es) = max e.sequence_id (max_sequence es)

  -- `_next_sequence_id`; the row lock makes the allocation and the insertion one step.
  unfoldable pub next_sequence_id : ℕ → List (Event D) → ℕ
  next_sequence_id migration_id es = max_sequence (rows_of migration_id es) + 1

  abbrev pub last? : List (Event D) → Option (Event D)
  last? [] = none
  last? (e ∷ es) = elim (last? es) [ none ↦ some e | some l ↦ some l ]

-- `_ALLOWED_ACTOR_TYPES`
abbrev pub is_allowed_actor : String → Bool
is_allowed_actor actor_type =
    str_eq actor_type "worker" || str_eq actor_type "user" || str_eq actor_type "system"

-- The arguments of `record_event` besides the session.
pub record NewEvent : Type 0 where
  pub migration_id : ℕ
  pub tenant_id : String
  pub event_type : EventType
  pub from_status : Option Status
  pub to_status : Option Status
  pub actor_id : Option ℕ
  pub actor_type : String
  pub message : Option String
  pub payload : Option (List (String × String))

abbrev pub content_of : NewEvent → ℕ → Content
content_of new sequence_id = record {
  migration_id = new.migration_id;
  tenant_id = new.tenant_id;
  sequence_id = sequence_id;
  event_type = new.event_type;
  from_status = new.from_status;
  to_status = new.to_status;
  actor_id = new.actor_id;
  actor_type = new.actor_type;
  message = new.message;
  payload = new.payload;
}

module _ (h : Hash) where
  open h use {Digest, genesis, compute_row_hash, same}

  -- The digest that the next row is chained to: that of the last row, or the genesis.
  abbrev pub hash_or_genesis : Option (Event Digest) → Digest
  hash_or_genesis none = genesis
  hash_or_genesis (some e) = or_else e.row_hash genesis

  -- `_previous_row_hash`
  unfoldable pub previous_row_hash : ℕ → List (Event Digest) → Digest
  previous_row_hash migration_id es = hash_or_genesis (last? (log_of migration_id es))

  -- The row that `record_event` adds.
  unfoldable pub new_row : NewEvent → List (Event Digest) → Event Digest
  new_row new es =
      let c = content_of new (next_sequence_id new.migration_id es) in
      record {
        content = c;
        row_hash = some (compute_row_hash (previous_row_hash new.migration_id es) c);
      }

  -- `record_event`: `none` is the `ValueError` on an actor type that is not allowed.
  unfoldable pub record_event : NewEvent → List (Event Digest) → Option (List (Event Digest))
  record_event new es =
      if is_allowed_actor new.actor_type then some (es ++ new_row new es ∷ []) else none

  -- One row of `verify_event_chain`: the digest to go on from, or `none` on a mismatch. The
  -- chain starts again behind a row that was never chained.
  unfoldable pub check_row : Digest → Content → Option Digest → Option Digest
  check_row prev_hash c none = some genesis
  check_row prev_hash c (some stored) =
      if same (compute_row_hash prev_hash c) stored then some stored else none

  -- The loop of `verify_event_chain`.
  unfoldable pub verify_from : Digest → List (Event Digest) → Bool × Option ℕ
  unfolding check_row
  verify_from prev_hash [] = (true, none)
  verify_from prev_hash (e ∷ es) = elim (check_row prev_hash e.content e.row_hash) [
    | none ↦ (false, some e.sequence_id)
    | some stored ↦ verify_from stored es
  ]

  -- `verify_event_chain`
  unfoldable pub verify_event_chain : ℕ → List (Event Digest) → Bool × Option ℕ
  unfolding verify_from
  verify_event_chain migration_id es = verify_from genesis (log_of migration_id es)
