-- ===== src/Examples/Hashing.antt =====
-- A hash that keeps its inputs: a digest is the chain that it was taken of.
use shift_wise.Prelude.{ℕ, ◌≡◌, refl, ap, ◌≢◌, ◌↔◌, ◌⊎◌, inl, inr, Bool, true, false}
use shift_wise.Audit.Event.{Hash, Content}
use mathlib.Core.HLevel.{Discrete}
use native.Mathlib.Decide.{ℕ_discrete}
use Prim.Native.Nat.{Ordering, compare}
use Prim.Native.Char.{Char, char, IsScalar, code}
use Prim.Native.String.{String}

pub data Chain : Type 0 where
  origin : Chain
  chained : Chain → Content → Chain

Ordering-cases : (o : Ordering) → (o ≡ Ordering.lt) ⊎ ((o ≡ Ordering.eq) ⊎ (o ≡ Ordering.gt))
Ordering-cases Ordering.lt = inl refl
Ordering-cases Ordering.eq = inr (inl refl)
Ordering-cases Ordering.gt = inr (inr refl)

high-prop : (n : ℕ) → compare n 55296 ≡ Ordering.gt → IsProp (IsScalar n)
high-prop n above = elim (Ordering-cases (compare 57343 n)) [
  | inl a ↦ elim (Ordering-cases (compare n 1114112)) [
    | inl b ↦ rw (above, a, b) hlevel
    | inr (inl b) ↦ rw (above, a, b) hlevel
    | inr (inr b) ↦ rw (above, a, b) hlevel
  ]
  | inr (inl a) ↦ rw (above, a) hlevel
  | inr (inr a) ↦ rw (above, a) hlevel
]

border-prop : (n : ℕ) → compare n 55296 ≡ Ordering.eq → IsProp (IsScalar n)
border-prop n above = elim (Ordering-cases (compare 57343 n)) [
  | inl a ↦ elim (Ordering-cases (compare n 1114112)) [
    | inl b ↦ rw (above, a, b) hlevel
    | inr (inl b) ↦ rw (above, a, b) hlevel
    | inr (inr b) ↦ rw (above, a, b) hlevel
  ]
  | inr (inl a) ↦ rw (above, a) hlevel
  | inr (inr a) ↦ rw (above, a) hlevel
]

IsScalar-prop : (n : ℕ) → IsProp (IsScalar n)
IsScalar-prop n = elim (Ordering-cases (compare n 55296)) [
  | inl low ↦ rw low hlevel
  | inr (inl border) ↦ border-prop n border
  | inr (inr above) ↦ high-prop n above
]

same_char : {m n : ℕ} → m ≡ n → (p : IsScalar m) (q : IsScalar n) → char m p ≡ char n q
same_char {m} {n} e = rw e (λ p q. ap (char n) (IsScalar-prop n p q))

code-injective : (c d : Char) → code c ≡ code d → c ≡ d
code-injective (char m p) (char n q) e = same_char e p q

Char-discrete : Discrete Char
Char-discrete c d = elim (ℕ_discrete (code c) (code d)) [
  | yes e ↦ yes (code-injective c d e)
  | no n ↦ no (λ e. n (ap code e))
]

String-discrete : Discrete String
String-discrete String.[] String.[] = yes refl
String-discrete String.[] (String.◌∷◌ d t) = no (λ e. cc e)
String-discrete (String.◌∷◌ c s) String.[] = no (λ e. cc e)
String-discrete (String.◌∷◌ c s) (String.◌∷◌ d t) = elim (Char-discrete c d) [
  | yes e ↦ elim (String-discrete s t) [ yes f ↦ yes (cc (e, f)) | no g ↦ no (λ h. g (cc h)) ]
  | no g ↦ no (λ h. g (cc h))
]

pub Chain-discrete : Discrete Chain
Chain-discrete = hlevel (ℕ_discrete, String-discrete)

abbrev pub decided : {A : Type 0} → Dec A → Bool
decided (yes a) = true
decided (no f) = false

pub decided_iff : {A : Type 0} (d : Dec A) → (decided d ≡ true) ↔ A
decided_iff (yes a) = (λ _. a, λ _. refl)
decided_iff (no f) = (λ e. cc e, λ a. absurd (f a))

pub chained-origin : (prev : Chain) (c : Content) → chained prev c ≢ origin
chained-origin prev c e = cc e

pub chained-injective :
    (p q : Chain) (c d : Content) → chained p c ≡ chained q d → (p ≡ q) × (c ≡ d)
chained-injective p q c d e = (cc e, cc e)

abbrev pub keeping : Hash
keeping = record {
  Digest = Chain;
  genesis = origin;
  compute_row_hash = chained;
  same = λ a b. decided (Chain-discrete a b);
  same_iff = λ a b. decided_iff (Chain-discrete a b);
  not_genesis = chained-origin;
  injective = chained-injective;
}
