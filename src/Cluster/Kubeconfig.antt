-- ===== src/Cluster/Kubeconfig.antt =====
-- backend/app/services/cluster/validation.py. The parse of YAML (`yaml.safe_load`) and the test of an
-- address, which resolves names, are parameters; floats, dates and keys that are not text, which
-- nothing here reads, are left out of the documents.
use Prim.Native.String.{String}
use text.Mathlib.Text.{◌==◌ as str_eq}
use shift_wise.Text.{codes, contains}
use shift_wise.Prelude.{
  ltb, ◌==◌, if◌then◌else◌, or_else, is_some, length, is_empty, ℕ, Bool, true, false, ◌||◌, not,
  Option, none, some, List,
}

mutual
  pub data Yaml : Type 0 where
    null : Yaml
    flag : Bool → Yaml
    number : ℕ → Yaml
    words : String → Yaml
    sequence : Items → Yaml
    mapping : Fields → Yaml

  pub data Items : Type 0 where
    end : Items
    item : Yaml → Items → Items

  pub data Fields : Type 0 where
    blank : Fields
    field : String → Yaml → Fields → Fields

-- `accepted`, the exceptions `InvalidKubeconfig` and `KubeconfigTooLarge`, and an `AttributeError`,
-- a `TypeError` or the like that nothing catches.
pub data Check : Type 0 where
  accepted invalid too_large crash : Check

-- `mapping.get(key)`
unfoldable pub get : String → Fields → Option Yaml
get key blank = none
get key (field k v fields) = if str_eq k key then some v else get key fields

abbrev pub is_truthy : Yaml → Bool
is_truthy null = false
is_truthy (flag b) = b
is_truthy (number n) = not (n == 0)
is_truthy (words s) = not (str_eq s "")
is_truthy (sequence end) = false
is_truthy (sequence (item v vs)) = true
is_truthy (mapping blank) = false
is_truthy (mapping (field k v fields)) = true

-- A value that `.get` is called on; `none` is the `AttributeError`.
abbrev pub as_mapping : Yaml → Option Fields
as_mapping (mapping fields) = some fields
as_mapping _ = none

-- `value or {}`
abbrev pub or_blank : Yaml → Yaml
or_blank v = if is_truthy v then v else mapping blank

-- `mapping.get(key, {})`
abbrev pub get_or_blank : String → Fields → Yaml
get_or_blank key fields = or_else (get key fields) (mapping blank)

abbrev pub non_empty_list : Option Yaml → Option Items
non_empty_list (some (sequence (item v vs))) = some (item v vs)
non_empty_list _ = none

unfoldable pub has_words : String → Items → Bool
has_words key end = false
has_words key (item v vs) =
    let rest = has_words key vs in elim v [ words s ↦ str_eq s key || rest | _ ↦ rest ]

-- `key in value`; `none` is the `TypeError`.
abbrev pub member : String → Yaml → Option Bool
member key (mapping fields) = some (is_some (get key fields))
member key (words s) = some (contains (codes key) (codes s))
member key (sequence vs) = some (has_words key vs)
member key _ = none

-- A test that raises where it is true.
abbrev pub refuse_if : Option Bool → Check → Check
refuse_if none next = crash
refuse_if (some true) next = invalid
refuse_if (some false) next = next

-- `value.get(key, {})` on a value that may not be a mapping, passed on.
abbrev pub with_mapping : Yaml → (Fields → Check) → Check
with_mapping v next = elim (as_mapping v) [ none ↦ crash | some fields ↦ next fields ]

-- One turn of `_assert_no_credential_plugins`.
unfoldable pub check_user : Yaml → Check
check_user entry = with_mapping (or_blank entry) λ fields.
    let user_block = or_blank (get_or_blank "user" fields) in
    refuse_if (member "exec" user_block) (
      with_mapping user_block λ block.
        with_mapping (or_blank (get_or_blank "auth-provider" block)) λ auth_provider.
          let provider_config = or_blank (get_or_blank "config" auth_provider) in
          refuse_if (member "cmd-path" provider_config) accepted)

-- A check goes on where the one before accepts.
abbrev pub and_then : Check → Check → Check
and_then accepted next = next
and_then invalid next = invalid
and_then too_large next = too_large
and_then crash next = crash

-- `_assert_no_credential_plugins`, and the loop over the clusters.
unfoldable pub check_items : (Yaml → Check) → Items → Check
check_items check end = accepted
check_items check (item v vs) = let rest = check_items check vs in and_then (check v) rest

abbrev pub when_list : Option Items → (Items → Check) → Check
when_list none next = invalid
when_list (some vs) next = next vs

-- The bytes of a file.
abbrev pub Bytes : Type 0
Bytes = List ℕ

-- What is made of a file: its parse, its text in UTF-8 (`none` is the `UnicodeDecodeError`), and
-- `_check_host_not_ssrf`.
pub record Parser : Type 0 where
  pub safe_load : Bytes → Option Yaml
  pub decode_utf8 : Bytes → Option String
  pub host_allowed : String → Bool

module _ (p : Parser) where
  abbrev pub check_server : Yaml → Check
  check_server server = if not (is_truthy server) then invalid else elim server [
    | words host ↦ if Parser.host_allowed p host then accepted else invalid
    | _ ↦ crash
  ]

  -- One turn of the loop of `_assert_kubeconfig_shape`.
  unfoldable pub check_cluster : Yaml → Check
  check_cluster cluster = with_mapping (or_blank cluster) λ fields.
      with_mapping (get_or_blank "cluster" fields)
        λ inner. check_server (or_else (get "server" inner) null)

  -- `_assert_kubeconfig_shape`
  unfoldable pub check_shape : Fields → Check
  check_shape doc =
      if not (is_some (get "apiVersion" doc))
      then invalid
      else when_list (non_empty_list (get "clusters" doc)) λ clusters.
        and_then (check_items check_cluster clusters) (
          when_list (non_empty_list (get "contexts" doc)) λ contexts.
            when_list (non_empty_list (get "users" doc)) λ users. check_items check_user users)

  unfoldable pub validate_kubeconfig_bytes : ℕ → Bytes → Check
  validate_kubeconfig_bytes max_bytes raw =
      if is_empty raw
      then invalid
      else if ltb max_bytes (length raw)
      then too_large
      else elim (Parser.safe_load p raw) [
        | none ↦ invalid
        | some doc ↦ elim (as_mapping doc) [ none ↦ invalid | some fields ↦ check_shape fields ]
      ]
