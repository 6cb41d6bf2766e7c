-- ===== src/Text.antt =====
-- Python's `str` as a list of code points, with the methods that the rules engine calls.
-- `lower` and `isdigit` are modelled on ASCII.
use Prim.Native.Char.{code}
use shift_wise.Prelude.{
  leb, ◌==◌, if◌then◌else◌, ==_self, any, ℕ, ◌+◌, ◌≡◌, refl, Bool, true, false, ◌&&◌, ◌||◌, List,
  [], ◌∷◌, map, arith,
}
use Prim.Native.String.{String}

abbrev pub Text : Type 0
Text = List ℕ

abbrev pub codes : String → Text
codes String.[] = []
codes (String.◌∷◌ c s) = code c ∷ codes s

unfoldable pub text_eq : Text → Text → Bool
text_eq [] [] = true
text_eq [] (b ∷ t) = false
text_eq (a ∷ s) [] = false
text_eq (a ∷ s) (b ∷ t) = a == b && text_eq s t

pub text_eq→eq : (s t : Text) → text_eq s t ≡ true → s ≡ t
unfolding text_eq
text_eq→eq [] [] h = refl
text_eq→eq [] (b ∷ t) h = cc
text_eq→eq (a ∷ s) [] h = cc
text_eq→eq (a ∷ s) (b ∷ t) h = ground (arith, text_eq→eq s t)

pub text_eq_refl : (s : Text) → text_eq s s ≡ true
unfolding text_eq
text_eq_refl [] = refl
text_eq_refl (a ∷ s) = ground (arith, ==_self a, text_eq_refl s)

-- `needle in (a, b, …)`
unfoldable pub one_of : Text → List Text → Bool
unfolding text_eq
one_of s ts = any (text_eq s) ts

-- `s.startswith(prefix)`
unfoldable pub starts_with : Text → Text → Bool
starts_with s [] = true
starts_with [] (b ∷ t) = false
starts_with (a ∷ s) (b ∷ t) = a == b && starts_with s t

-- `needle in haystack`
unfoldable pub contains : Text → Text → Bool
unfolding starts_with
contains needle [] = starts_with [] needle
contains needle (a ∷ s) = starts_with (a ∷ s) needle || contains needle s

abbrev pub is_space : ℕ → Bool
is_space c = c == 32 || (leb 9 c && leb c 13)

lstrip : Text → Text
lstrip [] = []
lstrip (a ∷ s) = if is_space a then lstrip s else a ∷ s

rstrip : Text → Text
rstrip [] = []
rstrip (a ∷ s) = elim (rstrip s) [ [] ↦ if is_space a then [] else a ∷ [] | b ∷ t ↦ a ∷ b ∷ t ]

unfoldable pub strip : Text → Text
unfolding lstrip rstrip
strip s = rstrip (lstrip s)

unfoldable pub lower : Text → Text
lower s = map (λ c. if leb b'A' c && leb c b'Z' then c + 32 else c) s

abbrev pub is_digit : ℕ → Bool
is_digit c = leb b'0' c && leb c b'9'
