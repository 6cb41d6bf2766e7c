-- ===== src/Guest/Labels.antt =====
-- The names that `sanitize_vm_name` gives are labels in the sense of RFC 1123.
use shift_wise.Prelude.{
  ltb, length, all, is_empty, ℕ, zero, suc, ◌≤◌, ◌≡◌, refl, Bool, true, false, ◌&&◌, not, [], ◌∷◌,
  arith,
}
use shift_wise.Text.{Text, lower}
use shift_wise.Guest.Naming.{
  is_label_char, is_dash, sub_label, lstrip_dash, rstrip_dash, strip_dash, collapse, take,
  sanitize_vm_name, max_vm_name_len,
}

abbrev starts_dash : Text → Bool
starts_dash [] = false
starts_dash (c ∷ s) = is_dash c

abbrev ends_dash : Text → Bool
ends_dash [] = false
ends_dash (c ∷ s) = elim s [ [] ↦ is_dash c | b ∷ t ↦ ends_dash s ]

-- `[a-z0-9]([-a-z0-9]*[a-z0-9])?`, of 63 characters at most.
abbrev pub is_label : Text → Bool
is_label s =
    not (is_empty s)
    && ltb (length s) 64
    && all is_label_char s
    && not (starts_dash s)
    && not (ends_dash s)

all-sub_label : (s : Text) → all is_label_char (sub_label s) ≡ true
all-sub_label [] = refl
all-sub_label (c ∷ s) = ground (arith, all-sub_label s)

all-lstrip_dash : (s : Text) → all is_label_char s ≡ true → all is_label_char (lstrip_dash s) ≡ true
unfolding lstrip_dash
all-lstrip_dash [] h = refl
all-lstrip_dash (c ∷ s) h = ground (arith, all-lstrip_dash s)

all-rstrip_dash : (s : Text) → all is_label_char s ≡ true → all is_label_char (rstrip_dash s) ≡ true
unfolding rstrip_dash
all-rstrip_dash [] h = refl
all-rstrip_dash (c ∷ s) h = ground (arith, all-rstrip_dash s)

all-collapse : (s : Text) → all is_label_char s ≡ true → all is_label_char (collapse s) ≡ true
unfolding collapse
all-collapse [] h = refl
all-collapse (c ∷ s) h = ground (arith, all-collapse s)

all-take : (n : ℕ) (s : Text) → all is_label_char s ≡ true → all is_label_char (take n s) ≡ true
unfolding take
all-take zero s h = refl
all-take (suc n) [] h = refl
all-take (suc n) (c ∷ s) h = ground (arith, all-take n s)

length-take : (n : ℕ) (s : Text) → length (take n s) ≤ n
unfolding take
length-take zero s = ground arith
length-take (suc n) [] = ground arith
length-take (suc n) (c ∷ s) = ground (arith, length-take n s)

length-lstrip_dash : (s : Text) → length (lstrip_dash s) ≤ length s
unfolding lstrip_dash
length-lstrip_dash [] = ground arith
length-lstrip_dash (c ∷ s) = ground (arith, length-lstrip_dash s)

length-rstrip_dash : (s : Text) → length (rstrip_dash s) ≤ length s
unfolding rstrip_dash
length-rstrip_dash [] = ground arith
length-rstrip_dash (c ∷ s) = ground (arith, length-rstrip_dash s)

starts_dash-lstrip_dash : (s : Text) → starts_dash (lstrip_dash s) ≡ false
unfolding lstrip_dash
starts_dash-lstrip_dash [] = refl
starts_dash-lstrip_dash (c ∷ s) = ground (arith, starts_dash-lstrip_dash s)

starts_dash-rstrip_dash : (s : Text) → starts_dash s ≡ false → starts_dash (rstrip_dash s) ≡ false
unfolding rstrip_dash
starts_dash-rstrip_dash [] h = refl
starts_dash-rstrip_dash (c ∷ s) h = ground arith

ends_dash-rstrip_dash : (s : Text) → ends_dash (rstrip_dash s) ≡ false
unfolding rstrip_dash
ends_dash-rstrip_dash [] = refl
ends_dash-rstrip_dash (c ∷ s) = ground (arith, ends_dash-rstrip_dash s)

-- Whatever name the source gives, the name of the guest is a label of RFC 1123, when the fallback
-- is one.
pub sanitize_vm_name-IsLabel :
    (raw fallback : Text)
    → is_label fallback ≡ true
    → is_label (sanitize_vm_name raw fallback) ≡ true
unfolding sanitize_vm_name
sanitize_vm_name-IsLabel raw fallback label =
    let first = sub_label (lower raw) in
    let once = collapse (strip_dash first) in
    let cut = take max_vm_name_len once in
    ground (
      arith,
      starts_dash-rstrip_dash (lstrip_dash cut),
      starts_dash-lstrip_dash cut,
      ends_dash-rstrip_dash (lstrip_dash cut),
      length-take max_vm_name_len once,
      length-lstrip_dash cut,
      length-rstrip_dash (lstrip_dash cut),
      all-rstrip_dash (lstrip_dash cut),
      all-lstrip_dash cut,
      all-take max_vm_name_len once,
      all-collapse (strip_dash first),
      all-rstrip_dash (lstrip_dash first),
      all-lstrip_dash first,
      all-sub_label (lower raw),
    )
