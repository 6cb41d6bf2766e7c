-- ===== src/Guest/Mac.antt =====
-- `_normalize_mac` of backend/app/services/migrator/vm_manifest.py.
use shift_wise.Prelude.{
  leb, ◌==◌, if◌then◌else◌, length, any, all, ℕ, zero, suc, ◌+◌, ◌*◌, ◌≡◌, refl, sym, ap, ◌∙◌,
  subst, ◌↔◌, Bool, true, false, ◌&&◌, ◌||◌, Option, none, some, [], ◌∷◌, arith,
}
use shift_wise.Text.{Text, codes, lower, is_digit, is_space}

-- `[\s:\-]`
abbrev pub is_separator : ℕ → Bool
is_separator c = is_space c || c == b':' || c == b'-'

unfoldable pub without_separators : Text → Text
without_separators [] = []
without_separators (c ∷ s) =
    let rest = without_separators s in if is_separator c then rest else c ∷ rest

abbrev pub is_hex : ℕ → Bool
is_hex c = is_digit c || (leb b'a' c && leb c b'f')

-- `":".join(hexs[i:i + 2] for i in range(0, 12, 2))`, on the characters that are there.
unfoldable pub join_pairs : Text → Text
join_pairs [] = []
join_pairs (a ∷ []) = a ∷ []
join_pairs (a ∷ b ∷ []) = a ∷ b ∷ []
join_pairs (a ∷ b ∷ c ∷ s) = a ∷ b ∷ b':' ∷ join_pairs (c ∷ s)

unfoldable pub normalize_hex : Text → Option Text
normalize_hex hexs = if length hexs == 12 && all is_hex hexs then some (join_pairs hexs) else none

abbrev pub normalize_mac : Text → Option Text
normalize_mac mac_address = normalize_hex (lower (without_separators mac_address))

without_separators-hex : (s : Text) → all is_hex s ≡ true → without_separators s ≡ s
unfolding without_separators
without_separators-hex [] h = refl
without_separators-hex (c ∷ s) h = ground (arith, without_separators-hex s)

lower-hex : (s : Text) → all is_hex s ≡ true → lower s ≡ s
unfolding lower
lower-hex [] h = refl
lower-hex (c ∷ s) h = ground (arith, lower-hex s)

without_separators-join_pairs :
    (s : Text) → all is_hex s ≡ true → without_separators (join_pairs s) ≡ s
unfolding without_separators join_pairs
without_separators-join_pairs [] h = refl
without_separators-join_pairs (a ∷ []) h = ground arith
without_separators-join_pairs (a ∷ b ∷ []) h = ground arith
without_separators-join_pairs (a ∷ b ∷ c ∷ s) h =
    ground (arith, without_separators-join_pairs (c ∷ s))

-- The hexadecimal digits in lower case, one by one.
unfoldable pub is_hex_digit : ℕ → Bool
is_hex_digit c = any (λ d. d == c) (codes "0123456789abcdef")

-- `n` pairs of digits, each followed by a colon, and then one pair more.
unfoldable pub octets : ℕ → Text → Bool
octets n [] = false
octets n (a ∷ []) = false
octets zero (a ∷ b ∷ []) = is_hex_digit a && is_hex_digit b
octets (suc n) (a ∷ b ∷ []) = false
octets zero (a ∷ b ∷ c ∷ s) = false
octets (suc n) (a ∷ b ∷ c ∷ s) = is_hex_digit a && is_hex_digit b && c == b':' && octets n s

-- The one form that KubeVirt admits: six octets.
abbrev pub is_canonical : Text → Bool
is_canonical s = octets 5 s

-- What stands in an address beside spaces, colons and dashes.
abbrev pub address_digits : Text → Text
address_digits [] = []
address_digits (c ∷ s) =
    let rest = address_digits s in
    if is_space c || any (λ d. d == c) (codes ":-") then rest else c ∷ rest

without_separators-address_digits : (s : Text) → without_separators s ≡ address_digits s
unfolding without_separators
without_separators-address_digits [] = refl
without_separators-address_digits (c ∷ s) = ground (arith, without_separators-address_digits s)

is_hex-is_hex_digit : (c : ℕ) → is_hex c ≡ is_hex_digit c
unfolding is_hex_digit
is_hex-is_hex_digit c = ground arith

octets-join_pairs :
    (n : ℕ) (s : Text) → length s ≡ 2 * n + 2 → octets n (join_pairs s) ≡ all is_hex s
unfolding join_pairs octets
octets-join_pairs n [] h = absurd (omega (arith, h))
octets-join_pairs n (a ∷ []) h = absurd (omega (arith, h))
octets-join_pairs zero (a ∷ b ∷ []) h = ground (arith, is_hex-is_hex_digit a, is_hex-is_hex_digit b)
octets-join_pairs (suc n) (a ∷ b ∷ []) h = absurd (omega (arith, h))
octets-join_pairs zero (a ∷ b ∷ c ∷ s) h = absurd (omega (arith, h))
octets-join_pairs (suc n) (a ∷ b ∷ c ∷ s) h = ground (
  arith,
  is_hex-is_hex_digit a,
  is_hex-is_hex_digit b,
  octets-join_pairs n (c ∷ s) (omega (arith, h)),
)

join_pairs-more :
    (n a b : ℕ) (s : Text)
    → length s ≡ 2 * n + 2
    → join_pairs (a ∷ b ∷ s) ≡ a ∷ b ∷ b':' ∷ join_pairs s
unfolding join_pairs
join_pairs-more n a b [] h = absurd (omega (arith, h))
join_pairs-more n a b (c ∷ s) h = refl

without_separators-kept :
    (c : ℕ) (s : Text) → is_hex c ≡ true → without_separators (c ∷ s) ≡ c ∷ without_separators s
unfolding without_separators
without_separators-kept c s h = ground arith

without_separators-octet :
    (a b : ℕ) (s : Text)
    → is_hex a ≡ true
    → is_hex b ≡ true
    → without_separators (a ∷ b ∷ s) ≡ a ∷ b ∷ without_separators s
without_separators-octet a b s h k =
    without_separators-kept a (b ∷ s) h ∙ ap (λ t. a ∷ t) (without_separators-kept b s k)

without_separators-colon : (s : Text) → without_separators (b':' ∷ s) ≡ without_separators s
unfolding without_separators
without_separators-colon s = refl

-- What the digits of a text are to its canonical form.
abbrev Joined : ℕ → Text → Text → Type 0
Joined n digits s =
    (length digits ≡ 2 * n + 2) × (all is_hex digits ≡ true) × (join_pairs digits ≡ s)

octet-Joined :
    (n a b : ℕ) (digits s : Text)
    → is_hex a ≡ true
    → is_hex b ≡ true
    → Joined n digits s
    → Joined (suc n) (a ∷ b ∷ digits) (a ∷ b ∷ b':' ∷ s)
octet-Joined n a b digits s first second (many, hex, joined) = (
  omega (arith, many),
  rw (first, second) hex,
  join_pairs-more n a b digits many ∙ ap (λ t. a ∷ b ∷ b':' ∷ t) joined,
)

-- A canonical form is that of its own digits.
octets-Joined : (n : ℕ) (s : Text) → octets n s ≡ true → Joined n (without_separators s) s
unfolding octets join_pairs without_separators
octets-Joined n [] h = absurd (cc h)
octets-Joined n (a ∷ []) h = absurd (cc h)
octets-Joined zero (a ∷ b ∷ []) h =
    let first : is_hex a ≡ true = ground (arith, is_hex-is_hex_digit a) in
    let second : is_hex b ≡ true = ground (arith, is_hex-is_hex_digit b) in
    subst (λ t. Joined 0 t (a ∷ b ∷ [])) (sym (without_separators-octet a b [] first second))
      (refl, ground arith, refl)
octets-Joined (suc n) (a ∷ b ∷ []) h = absurd (cc h)
octets-Joined zero (a ∷ b ∷ c ∷ s) h = absurd (cc h)
octets-Joined (suc n) (a ∷ b ∷ c ∷ s) h =
    let first : is_hex a ≡ true = ground (arith, is_hex-is_hex_digit a) in
    let second : is_hex b ≡ true = ground (arith, is_hex-is_hex_digit b) in
    let colon : c ≡ b':' = ground arith in
    let more = octets-Joined n s (ground arith) in
    subst (λ d. Joined (suc n) (without_separators (a ∷ b ∷ d ∷ s)) (a ∷ b ∷ d ∷ s)) (sym colon)
      (subst (λ t. Joined (suc n) t (a ∷ b ∷ b':' ∷ s))
        (sym (without_separators-octet a b (b':' ∷ s) first second))
        (octet-Joined n a b (without_separators s) s first second more))

normalize_hex-Joined : (digits s : Text) → Joined 5 digits s → normalize_hex digits ≡ some s
unfolding normalize_hex
normalize_hex-Joined digits s (many, hex, joined) = ground arith

normalize_hex-some :
    (hexs s : Text)
    → normalize_hex hexs ≡ some s
    → (octets 5 s ≡ true) × (without_separators s ≡ hexs)
unfolding normalize_hex
normalize_hex-some hexs s h =
    let joined : join_pairs hexs ≡ s = ground arith in
    let hex : all is_hex hexs ≡ true = ground arith in
    (
      ap (octets 5) (sym joined) ∙ octets-join_pairs 5 hexs (ground arith) ∙ hex,
      ap without_separators (sym joined) ∙ without_separators-join_pairs hexs hex,
    )

-- The canonical form of an address is the one text of that form which has its digits, and an
-- address that has no such form is refused; the texts of that form are those that are left as they
-- are.
pub normalize_mac-canonical :
    (mac_address normalized : Text)
    → ((normalize_mac mac_address ≡ some normalized) ↔ (
        (is_canonical normalized ≡ true)
        × (address_digits normalized ≡ lower (address_digits mac_address))))
      × ((is_canonical normalized ≡ true) ↔ (normalize_mac normalized ≡ some normalized))
normalize_mac-canonical mac_address normalized =
    let own = without_separators-address_digits normalized in
    let given = ap lower (without_separators-address_digits mac_address) in
    (
      (
        λ h.
            let (form, digits) =
              normalize_hex-some (lower (without_separators mac_address)) normalized h in
            (form, sym own ∙ digits ∙ given),
        λ (form, same).
            ap normalize_hex (sym (own ∙ same ∙ sym given))
            ∙ normalize_hex-Joined (without_separators normalized) normalized
                (octets-Joined 5 normalized form),
      ),
      (
        λ form.
            let joined = octets-Joined 5 normalized form in
            ap normalize_hex (lower-hex (without_separators normalized) (joined.1))
            ∙ normalize_hex-Joined (without_separators normalized) normalized joined,
        λ h. (normalize_hex-some (lower (without_separators normalized)) normalized h).0,
      ),
    )
