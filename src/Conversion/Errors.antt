-- ===== src/Conversion/Errors.antt =====
-- backend/app/services/converter/errors.py, and `_classify_k8s_failure` of service.py.
use shift_wise.Prelude.{
  ◌==◌, if◌then◌else◌, Option-cases, or_else, ℕ, ◌≡◌, refl, inl, inr, Bool, true, false, ◌||◌,
  Option, none, some, List, [], ◌∷◌, arith,
}
use Prim.Native.String.{String}
use text.Mathlib.Text.{◌==◌ as str_eq}
use shift_wise.Text.{Text, codes, contains, lower}

pub data Bucket : Type 0 where
  transient configurable permanent : Bucket

-- `ERROR_CATALOG`
abbrev pub error_catalog : List (String × Bucket)
error_catalog =
    ("ERR_NFS_TIMEOUT", transient)
    ∷ ("ERR_NFS_STALE_HANDLE", transient)
    ∷ ("ERR_TOOL_KILLED_OOM", transient)
    ∷ ("ERR_HV_TRANSIENT", transient)
    ∷ ("ERR_NETWORK_TIMEOUT", transient)
    ∷ ("ERR_NFS_INSUFFICIENT_SPACE", configurable)
    ∷ ("ERR_TOOL_NOT_FOUND", configurable)
    ∷ ("ERR_HV_AUTH_FAILED", configurable)
    ∷ ("ERR_HV_CREDENTIALS_MISSING", configurable)
    ∷ ("ERR_HV_UNREACHABLE", configurable)
    ∷ ("ERR_K8S_JOB_DENIED", configurable)
    ∷ ("ERR_VM_RUNNING_NEEDS_COLD", configurable)
    ∷ ("ERR_SOURCE_CORRUPT", permanent)
    ∷ ("ERR_UNSUPPORTED_FORMAT", permanent)
    ∷ ("ERR_VIRT_V2V_INSPECTION_FAILED", permanent)
    ∷ ("ERR_CHECKSUM_MISMATCH", permanent)
    ∷ ("ERR_OUTPUT_INVALID", permanent)
    ∷ ("ERR_VM_NOT_FOUND", permanent)
    ∷ ("ERR_DISK_NOT_FOUND", permanent)
    ∷ ("ERR_UNSUPPORTED_HYPERVISOR", permanent)
    ∷ ("ERR_INTERNAL", permanent)
    ∷ []

lookup_bucket : String → List (String × Bucket) → Option Bucket
lookup_bucket code [] = none
lookup_bucket code ((name, bucket) ∷ rest) =
    if str_eq code name then some bucket else lookup_bucket code rest

unfoldable pub bucket_of : String → Option Bucket
unfolding lookup_bucket
bucket_of code = lookup_bucket code error_catalog

pub record ConversionError : Type 0 where
  pub code : String
  pub bucket : Bucket

-- The constructor: an unknown code becomes ERR_INTERNAL.
unfoldable pub conversion_error : String → ConversionError
conversion_error code = elim (bucket_of code) [
  | none ↦ record { code = "ERR_INTERNAL"; bucket = permanent }
  | some bucket ↦ record { code = code; bucket = bucket }
]

abbrev pub is_transient_bucket : Bucket → Bool
is_transient_bucket transient = true
is_transient_bucket _ = false

-- `is_transient`
unfoldable pub is_transient : String → Bool
is_transient code = elim (bucket_of code) [ none ↦ false | some b ↦ is_transient_bucket b ]

-- `_classify_k8s_failure`
unfoldable pub classify_k8s_failure : Text → Option ℕ → String
classify_k8s_failure reason exit_code =
    let reason_lc = lower reason in
    if contains (codes "deadline") reason_lc
    then "ERR_NETWORK_TIMEOUT"
    else if contains (codes "oom") reason_lc || or_else exit_code 0 == 137
    then "ERR_TOOL_KILLED_OOM"
    else if or_else exit_code 0 == 126 || or_else exit_code 0 == 127
    then "ERR_TOOL_NOT_FOUND"
    else "ERR_OUTPUT_INVALID"

-- The bucket that an error carries is retried exactly where `is_transient` of its code says so,
-- also for a code that is not in the catalogue.
pub conversion_error-is_transient :
    (code : String)
    → is_transient_bucket (conversion_error code).bucket ≡ is_transient (conversion_error code).code
unfolding conversion_error is_transient
conversion_error-is_transient code = elim (Option-cases (bucket_of code)) [
  | inl missing ↦ rw (missing, conversion_error) (unfold bucket_of in refl)
  | inr (b, found) ↦ rw (found, conversion_error) (rw (found, is_transient) refl)
]

timeout-is_transient : is_transient "ERR_NETWORK_TIMEOUT" ≡ true
unfolding is_transient bucket_of
timeout-is_transient = refl

oom-is_transient : is_transient "ERR_TOOL_KILLED_OOM" ≡ true
unfolding is_transient bucket_of
oom-is_transient = refl

tool-is_transient : is_transient "ERR_TOOL_NOT_FOUND" ≡ false
unfolding is_transient bucket_of
tool-is_transient = refl

output-is_transient : is_transient "ERR_OUTPUT_INVALID" ≡ false
unfolding is_transient bucket_of
output-is_transient = refl

-- A failed cluster job is retried exactly where its reason says that it hit a deadline or ran out
-- of memory, or its exit code is 137.
pub classify_k8s_failure-is_transient :
    (reason : Text) (exit_code : Option ℕ)
    → is_transient (classify_k8s_failure reason exit_code) ≡ (
        contains (codes "deadline") (lower reason)
        || contains (codes "oom") (lower reason)
        || or_else exit_code 0 == 137)
unfolding classify_k8s_failure
classify_k8s_failure-is_transient reason exit_code =
    ground (arith, timeout-is_transient, oom-is_transient, tool-is_transient, output-is_transient)
