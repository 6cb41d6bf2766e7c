-- ===== src/Cluster/Plugins.antt =====
-- What an accepted kubeconfig cannot hold.
use Prim.Native.String.{String}
use shift_wise.Prelude.{
  if◌then◌else◌, or_else, is_some, ◌>>=◌, ℕ, zero, suc, ◌≡◌, refl, Bool, true, false, not, Option,
  none, some, List, [], ◌∷◌, arith,
}
use shift_wise.Cluster.Kubeconfig.{
  Bytes, invalid, check_server, and_then, when_list, blank, field, number, flag, with_mapping,
  field, number, flag, Yaml, Items, Fields, null, words, sequence, mapping, end, item, Check,
  accepted, get, or_blank, get_or_blank, as_mapping, member, refuse_if, check_user, check_items,
  check_cluster, check_shape, validate_kubeconfig_bytes, Parser, non_empty_list,
}

-- The entry at a place of a list.
abbrev pub nth : ℕ → Items → Option Yaml
nth n end = none
nth zero (item v vs) = some v
nth (suc n) (item v vs) = nth n vs

-- `mapping.get(key)` of a value that is a mapping.
abbrev pub at : String → Yaml → Option Yaml
at key (mapping fields) = get key fields
at key _ = none

abbrev pub entries : Option Yaml → Items
entries (some (sequence vs)) = vs
entries _ = end

check_items-nth :
    (check : Yaml → Check) (vs : Items) (n : ℕ) (v : Yaml)
    → check_items check vs ≡ accepted
    → nth n vs ≡ some v
    → check v ≡ accepted
unfolding check_items
check_items-nth check end n v h found = cc found
check_items-nth check (item w vs) zero v h found = ground arith
check_items-nth check (item w vs) (suc n) v h found = ground (arith, check_items-nth check vs n v)

-- `value.get(k1).get(k2)…`
abbrev pub lookup : List String → Yaml → Option Yaml
lookup [] v = some v
lookup (key ∷ keys) v = at key v >>= lookup keys

-- A check of `value or {}` sees the keys of the value.
or_blank-at :
    (v : Yaml) (fields : Fields) (key : String)
    → as_mapping (or_blank v) ≡ some fields
    → get key fields ≡ at key v
unfolding get
or_blank-at null fields key h = ground arith
or_blank-at (flag true) fields key h = cc h
or_blank-at (flag false) fields key h = ground arith
or_blank-at (number n) fields key h = ground arith
or_blank-at (words w) fields key h = ground arith
or_blank-at (sequence end) fields key h = ground arith
or_blank-at (sequence (item v vs)) fields key h = cc h
or_blank-at (mapping blank) fields key h = ground arith
or_blank-at (mapping (field k v rest)) fields key h = ground arith

or_blank-member : (v : Yaml) (key : String) → member key (or_blank v) ≡ some false → at key v ≡ none
unfolding get
or_blank-member null key h = refl
or_blank-member (flag b) key h = refl
or_blank-member (number n) key h = refl
or_blank-member (words w) key h = refl
or_blank-member (sequence vs) key h = refl
or_blank-member (mapping blank) key h = refl
or_blank-member (mapping (field k v rest)) key h = ground arith

refuse_if-accepted :
    (o : Option Bool) (next : Check)
    → refuse_if o next ≡ accepted
    → (o ≡ some false) × (next ≡ accepted)
refuse_if-accepted none next h = cc h
refuse_if-accepted (some true) next h = cc h
refuse_if-accepted (some false) next h = (refl, h)

with_mapping-accepted :
    (v : Yaml) (next : Fields → Check)
    → with_mapping v next ≡ accepted
    → (fields : Fields) × (as_mapping v ≡ some fields) × (next fields ≡ accepted)
with_mapping-accepted (mapping fields) next h = (fields, refl, h)
with_mapping-accepted null next h = cc h
with_mapping-accepted (flag b) next h = cc h
with_mapping-accepted (number n) next h = cc h
with_mapping-accepted (words w) next h = cc h
with_mapping-accepted (sequence vs) next h = cc h

check_user-plugins :
    (entry : Yaml)
    → check_user entry ≡ accepted
    → (lookup ("user" ∷ "exec" ∷ []) entry ≡ none)
      × (lookup ("user" ∷ "auth-provider" ∷ "config" ∷ "cmd-path" ∷ []) entry ≡ none)
unfolding check_user
check_user-plugins entry h =
    let (fields, entry_is, step1) = with_mapping-accepted (or_blank entry) _ h in
    let user_block = get_or_blank "user" fields in
    let (exec_is, step2) = refuse_if-accepted (member "exec" (or_blank user_block)) _ step1 in
    let (block, block_is, step3) = with_mapping-accepted (or_blank user_block) _ step2 in
    let provider = get_or_blank "auth-provider" block in
    let (inner, inner_is, step4) = with_mapping-accepted (or_blank provider) _ step3 in
    let config = get_or_blank "config" inner in
    let (path_is, step5) = refuse_if-accepted (member "cmd-path" (or_blank config)) _ step4 in
    let no_exec = or_blank-member user_block "exec" exec_is in
    let no_path = or_blank-member config "cmd-path" path_is in
    let user_is = or_blank-at entry fields "user" entry_is in
    let provider_is = or_blank-at user_block block "auth-provider" block_is in
    let config_is = or_blank-at provider inner "config" inner_is in (ground arith, ground arith)

as_mapping-at :
    (v : Yaml) (fields : Fields) (key : String)
    → as_mapping v ≡ some fields
    → at key v ≡ get key fields
as_mapping-at (mapping fs) fields key h = ground arith
as_mapping-at null fields key h = cc h
as_mapping-at (flag b) fields key h = cc h
as_mapping-at (number n) fields key h = cc h
as_mapping-at (words w) fields key h = cc h
as_mapping-at (sequence vs) fields key h = cc h

check_server-host :
    (p : Parser) (server : Yaml)
    → check_server p server ≡ accepted
    → (host : String) × (server ≡ words host) × (Parser.host_allowed p host ≡ true)
check_server-host p (words w) h = (w, refl, ground arith)
check_server-host p null h = cc h
check_server-host p (flag true) h = cc h
check_server-host p (flag false) h = cc h
check_server-host p (number n) h = absurd (ground arith)
check_server-host p (sequence end) h = cc h
check_server-host p (sequence (item v vs)) h = cc h
check_server-host p (mapping blank) h = cc h
check_server-host p (mapping (field k v rest)) h = cc h

check_cluster-host :
    (p : Parser) (cluster : Yaml)
    → check_cluster p cluster ≡ accepted
    → (host : String) × (lookup ("cluster" ∷ "server" ∷ []) cluster ≡ some (words host))
      × (Parser.host_allowed p host ≡ true)
unfolding check_cluster get
check_cluster-host p cluster h =
    let (fields, cluster_is, step1) = with_mapping-accepted (or_blank cluster) _ h in
    let (inner, inner_is, step2) = with_mapping-accepted (get_or_blank "cluster" fields) _ step1 in
    let (host, server_is, allowed) =
      check_server-host p (or_else (get "server" inner) null) step2 in
    let at_cluster = or_blank-at cluster fields "cluster" cluster_is in
    let at_server = as_mapping-at (get_or_blank "cluster" fields) inner "server" inner_is in
    (host, ground arith, allowed)

and_then-accepted : (a b : Check) → and_then a b ≡ accepted → (a ≡ accepted) × (b ≡ accepted)
and_then-accepted a b h = (ground arith, ground arith)

when_list-accepted :
    (o : Option Yaml) (next : Items → Check)
    → when_list (non_empty_list o) next ≡ accepted
    → next (entries o) ≡ accepted
when_list-accepted (some (sequence (item v vs))) next h = h
when_list-accepted (some (sequence end)) next h = cc h
when_list-accepted (some null) next h = cc h
when_list-accepted (some (flag b)) next h = cc h
when_list-accepted (some (number n)) next h = cc h
when_list-accepted (some (words w)) next h = cc h
when_list-accepted (some (mapping fs)) next h = cc h
when_list-accepted none next h = cc h

unless-accepted :
    (b : Bool) (next : Check) → (if b then invalid else next) ≡ accepted → next ≡ accepted
unless-accepted true next h = cc h
unless-accepted false next h = h

module _ (p : Parser) (max_bytes : ℕ) (raw : Bytes) (doc : Fields) where
  accepted-shape :
      validate_kubeconfig_bytes p max_bytes raw ≡ accepted
      → Parser.safe_load p raw ≡ some (mapping doc)
      → (check_items (check_cluster p) (entries (get "clusters" doc)) ≡ accepted)
        × (check_items check_user (entries (get "users" doc)) ≡ accepted)
  unfolding validate_kubeconfig_bytes check_shape
  accepted-shape ok loads =
      let shape : check_shape p doc ≡ accepted = ground arith in
      let step1 = unless-accepted (not (is_some (get "apiVersion" doc))) _ shape in
      let step2 = when_list-accepted (get "clusters" doc) _ step1 in
      let (clusters, step3) =
        and_then-accepted (check_items (check_cluster p) (entries (get "clusters" doc))) _ step2 in
      let step4 = when_list-accepted (get "contexts" doc) _ step3 in
      (clusters, when_list-accepted (get "users" doc) _ step4)

  -- In a file that the validation accepts, no user has an `exec` plugin or an `auth-provider` with a
  -- `cmd-path`, whatever else the file holds.
  pub validate_kubeconfig_bytes-plugins :
      (n : ℕ) (user : Yaml)
      → validate_kubeconfig_bytes p max_bytes raw ≡ accepted
      → Parser.safe_load p raw ≡ some (mapping doc)
      → nth n (entries (get "users" doc)) ≡ some user
      → (lookup ("user" ∷ "exec" ∷ []) user ≡ none)
        × (lookup ("user" ∷ "auth-provider" ∷ "config" ∷ "cmd-path" ∷ []) user ≡ none)
  validate_kubeconfig_bytes-plugins n user ok loads there = check_user-plugins user (
      check_items-nth check_user (entries (get "users" doc)) n user ((accepted-shape ok loads).1)
        there)

  -- In such a file every cluster names a server, and one that the test of addresses lets pass.
  pub validate_kubeconfig_bytes-hosts :
      (n : ℕ) (cluster : Yaml)
      → validate_kubeconfig_bytes p max_bytes raw ≡ accepted
      → Parser.safe_load p raw ≡ some (mapping doc)
      → nth n (entries (get "clusters" doc)) ≡ some cluster
      → (host : String) × (lookup ("cluster" ∷ "server" ∷ []) cluster ≡ some (words host))
        × (Parser.host_allowed p host ≡ true)
  validate_kubeconfig_bytes-hosts n cluster ok loads there = check_cluster-host p cluster (
      check_items-nth (check_cluster p) (entries (get "clusters" doc)) n cluster
        ((accepted-shape ok loads).0) there)
