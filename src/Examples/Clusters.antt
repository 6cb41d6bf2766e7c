-- ===== src/Examples/Clusters.antt =====
-- A tenant that gets a cluster of its own, and a second process that changes it. The cipher keeps
-- its input.
use Prim.Native.String.{String}
use shift_wise.Prelude.{if◌then◌else◌, ℕ, ◌≡◌, refl, true, false, none, some, List, [], ◌∷◌}
use shift_wise.Text.{codes}
use shift_wise.Cluster.Vault.{Fernet}
use shift_wise.Cluster.Kubeconfig.{
  Bytes, Yaml, Fields, Parser, null, words, sequence, mapping, end, item, blank, field, get,
  has_words, check_user, check_items, check_cluster, check_shape, validate_kubeconfig_bytes,
}
use shift_wise.Cluster.Plugins.{
  lookup, validate_kubeconfig_bytes-plugins, validate_kubeconfig_bytes-hosts,
}
use shift_wise.Cluster.Config.{
  tenant, custom, Config, Db, Upsert, healthy, unknown, get_scope, drop_row,
}
use shift_wise.Cluster.Resolver.{Kube, client_error, Cached, fresh_answer, client_of, find_client}
use shift_wise.Cluster.Endpoints.{
  Site, User, Process, put_config, upload, delete_config, client, handle, answered,
}
use shift_wise.Cluster.Refinement.{Event, here, elsewhere, run_events, run_events-fresh_answer}
use shift_wise.Cluster.Stale.{run_events-stale}
use shift_wise.Cluster.Delivery.{kubeconfig_of, upload-client}

abbrev vault : Fernet
vault = record {
  Token = ℕ × String;
  encrypt_bytes = λ nonce text. (nonce, text);
  decrypt_bytes = λ c. some (c.1);
  decrypt_bytes-encrypt_bytes = λ nonce text. refl;
}

-- A parser that knows one document.
abbrev config : String → Fields
config host = field "apiVersion" (words "v1") (
    field "clusters"
      (sequence
        (item (mapping (field "cluster" (mapping (field "server" (words host) blank)) blank)) end))
      (field "contexts" (sequence (item (words "one") end))
        (field "users" (sequence (item (mapping (field "user" null blank)) end)) blank)))

abbrev file : Bytes
file = codes "file"

abbrev parser : Parser
parser = record {
  safe_load = λ raw. some (mapping (config "https://one"));
  decode_utf8 = λ raw. some "file";
  host_allowed = λ host. true;
}

-- Every file but an empty one loads.
abbrev kube : Kube
kube = record { load_incluster_config = false; load_kube_config = λ contents. true }

abbrev site : Site
site = record {
  in_cluster = false;
  parser = parser;
  kube = kube;
  max_bytes = 1000;
  probe = λ spec. (healthy, none);
}

abbrev admin : User
admin = record { id = 7; tenant_id = "acme"; is_superuser = false }

abbrev own_cluster : Upsert
own_cluster = record {
  mode = custom;
  api_url = some "https://one";
  token = some "s3cret";
  verify_ssl = true;
  default_namespace = "vms";
}

abbrev no_rows : Db (ℕ × String)
no_rows = record { configs = []; events = [] }

abbrev fresh : Process vault
fresh = record { db = no_rows; cache = [] }

abbrev traffic : List Event
traffic =
    here (put_config 1 admin (tenant "acme") own_cluster)
    ∷ here (client (some "acme"))
    ∷ elsewhere (upload 2 admin (tenant "acme") file) []
    ∷ []

run_events-fresh_answer_example :
    (handle vault site (client (some "acme")) (run_events vault site traffic fresh)).1
    ≡ answered
        (fresh_answer vault kube ((run_events vault site traffic fresh).db.configs) (some "acme"))
run_events-fresh_answer_example =
    run_events-fresh_answer vault site traffic no_rows (some "acme") refl

abbrev row : Config (ℕ × String)
row = record {
  scope = tenant "acme";
  mode = custom;
  kubeconfig_ciphertext = none;
  api_url = some "https://old";
  token_ciphertext = some (3, "old");
  verify_ssl = true;
  default_namespace = "vms";
  config_version = 1;
  health_status = unknown;
  health_reason = none;
  updated_by_user_id = none;
}

abbrev old_client : Cached
old_client = record {
  scope = tenant "acme";
  version = 1;
  client = record {
    mode = custom;
    kubeconfig_str = none;
    api_url = some "https://old";
    token = some "old";
    verify_ssl = true;
  };
}

abbrev served : Process vault
served = record { db = record { configs = row ∷ []; events = [] }; cache = old_client ∷ [] }

run_events-stale_example :
    (handle vault site (client (some "acme")) (
      run_events vault site
        (elsewhere (delete_config admin (tenant "acme")) []
          ∷ elsewhere (put_config 4 admin (tenant "acme") own_cluster) []
          ∷ [])
        served)).1
    ≡ answered (client_of old_client.client)
unfolding find_client get_scope drop_row
run_events-stale_example =
    run_events-stale vault site 4 admin "acme" own_cluster [] [] served old_client row refl refl
      refl refl refl refl refl

upload-client_example :
    (handle vault site
      (client (some "acme"))
      ((handle vault site (upload 5 admin (tenant "acme") file) served).0)).1
    ≡ answered (
        if Kube.load_kube_config kube "file"
        then client_of (kubeconfig_of "file" true)
        else client_error)
unfolding get_scope validate_kubeconfig_bytes check_shape check_items check_cluster check_user get
    has_words
upload-client_example =
    upload-client vault site 5 admin "acme" file "file" served refl refl refl refl refl

validate_kubeconfig_bytes-plugins_example :
    (lookup ("user" ∷ "exec" ∷ []) (mapping (field "user" null blank)) ≡ none)
    × (lookup
          ("user" ∷ "auth-provider" ∷ "config" ∷ "cmd-path" ∷ [])
          (mapping (field "user" null blank))
        ≡ none)
unfolding validate_kubeconfig_bytes check_shape check_items check_cluster check_user get has_words
validate_kubeconfig_bytes-plugins_example =
    validate_kubeconfig_bytes-plugins parser 1000 file (config "https://one") 0
      (mapping (field "user" null blank)) refl refl refl

abbrev one_cluster : Yaml
one_cluster = mapping (field "cluster" (mapping (field "server" (words "https://one") blank)) blank)

validate_kubeconfig_bytes-hosts_example :
    (host : String) × (lookup ("cluster" ∷ "server" ∷ []) one_cluster ≡ some (words host))
    × (Parser.host_allowed parser host ≡ true)
unfolding validate_kubeconfig_bytes check_shape check_items check_cluster check_user get has_words
validate_kubeconfig_bytes-hosts_example =
    validate_kubeconfig_bytes-hosts parser 1000 file (config "https://one") 0 one_cluster refl refl
      refl
