-- ===== src/Audit/Event.antt =====
-- A row of `migration_events` (backend/app/models/migration_event.py), and the hash that chains
-- the rows. `hashlib.sha256` is a parameter, together with the JSON text that it is given: a
-- digest is taken of the previous digest and of the ten chained fields.
use shift_wise.Prelude.{ℕ, ◌≡◌, ◌≢◌, ◌↔◌, Bool, true, Option, List}
use Prim.Native.String.{String}
use shift_wise.Migration.Status.{Status}

pub data EventType : Type 0 where
  state_transition stage_event classified_error heartbeat : EventType

-- The fields of `_canonical_chain_payload`.
pub record Content : Type 0 where
  pub migration_id : ℕ
  pub tenant_id : String
  pub sequence_id : ℕ
  pub event_type : EventType
  pub from_status : Option Status
  pub to_status : Option Status
  pub actor_id : Option ℕ
  pub actor_type : String
  pub message : Option String
  pub payload : Option (List (String × String))

-- What the journal relies on: the digests compare, no digest is the genesis (a digest has 64
-- characters and the genesis none), and equal digests are taken of equal inputs.
pub record Hash : Type 1 where
  pub Digest : Type 0
  pub genesis : Digest
  pub compute_row_hash : Digest → Content → Digest
  pub same : Digest → Digest → Bool
  pub same_iff : (a b : Digest) → (same a b ≡ true) ↔ (a ≡ b)
  pub not_genesis : (prev : Digest) (c : Content) → compute_row_hash prev c ≢ genesis
  pub injective :
      (p q : Digest) (c d : Content)
      → compute_row_hash p c ≡ compute_row_hash q d
      → (p ≡ q) × (c ≡ d)

-- `row_hash` is NULL on the rows written before the chain was introduced.
pub record Event (D : Type 0) : Type 0 where
  pub content : Content
  pub open content use *
  pub row_hash : Option D
