-- ===== src/Guest/Naming.antt =====
-- `sanitize_vm_name` of backend/app/services/migrator/vm_manifest.py.
use shift_wise.Prelude.{
  leb, ◌==◌, if◌then◌else◌, is_empty, ℕ, zero, suc, Bool, ◌&&◌, ◌||◌, List, [], ◌∷◌, map,
}
use shift_wise.Text.{Text, lower, is_digit}

abbrev pub is_dash : ℕ → Bool
is_dash c = c == b'-'

-- The characters that `_DNS_LABEL_RE` leaves.
abbrev pub is_label_char : ℕ → Bool
is_label_char c = (leb b'a' c && leb c b'z') || is_digit c || is_dash c

-- `_DNS_LABEL_RE.sub("-", s)`
abbrev pub sub_label : Text → Text
sub_label s = map (λ c. if is_label_char c then c else b'-') s

unfoldable pub lstrip_dash : Text → Text
lstrip_dash [] = []
lstrip_dash (c ∷ s) = if is_dash c then lstrip_dash s else c ∷ s

unfoldable pub rstrip_dash : Text → Text
rstrip_dash [] = []
rstrip_dash (c ∷ s) = elim (rstrip_dash s) [
  | [] ↦ if is_dash c then [] else c ∷ []
  | b ∷ t ↦ c ∷ b ∷ t
]

-- `s.strip("-")`
abbrev pub strip_dash : Text → Text
strip_dash s = rstrip_dash (lstrip_dash s)

-- `re.sub(r"-+", "-", s)`
unfoldable pub collapse : Text → Text
collapse [] = []
collapse (c ∷ s) = elim (collapse s) [
  | [] ↦ c ∷ []
  | b ∷ t ↦ if is_dash c && is_dash b then b ∷ t else c ∷ b ∷ t
]

unfoldable pub take : {A : Type 0} → ℕ → List A → List A
take zero xs = []
take (suc n) [] = []
take (suc n) (x ∷ xs) = x ∷ take n xs

abbrev pub max_vm_name_len : ℕ
max_vm_name_len = 63

-- A missing name is the empty text.
unfoldable pub sanitize_vm_name : Text → Text → Text
sanitize_vm_name raw fallback =
    let candidate =
      strip_dash (take max_vm_name_len (collapse (strip_dash (sub_label (lower raw))))) in
    if is_empty candidate then fallback else candidate
