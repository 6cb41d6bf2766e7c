-- ===== src/Examples/Server.antt =====
-- A Redis server as the list of its writes, the newest first.
use shift_wise.Prelude.{
  if◌then◌else◌, Bool-cases, Option-cases, is_some, map_option, any, ℕ, ◌+◌, ◌≤◌, ◌<◌, ◌≡◌, refl,
  ap, ◌∙◌, inl, inr, Bool, true, Option, none, some, List, [], ◌∷◌, arith,
}
use shift_wise.Text.{text_eq_refl, text_eq→eq, starts_with, Text, text_eq}
use shift_wise.Auth.Redis.{is_alive, rearmed, unexpired, incremented, Redis, Entry}

abbrev pub Writes : Type 0
Writes = List (Text × Option Entry)

unfoldable pub written : Text → Writes → Option Entry
written k [] = none
written k ((j, e) ∷ s) = if text_eq j k then e else written k s

abbrev pub live : ℕ → Text → Writes → Option Entry
live now k s = unexpired now (written k s)

abbrev pub keys : Text → Writes → List Text
keys prefix [] = []
keys prefix ((k, e) ∷ s) = if starts_with k prefix then k ∷ keys prefix s else keys prefix s

pub live-later :
    (now t : ℕ) (k : Text) (s : Writes) → now ≤ t → live t k s ≡ unexpired t (live now k s)
live-later now t k s before = elim (Option-cases (written k s)) [
  | inl missing ↦ rw (missing, live) refl
  | inr (e, there) ↦ elim (Option-cases e.deadline) [
    | inl never ↦ ground (arith, there, never)
    | inr (d, ends) ↦ ground (arith, there, ends)
  ]
]

live-alive :
    (now : ℕ) (k : Text) (s : Writes) (e : Entry)
    → live now k s ≡ some e
    → is_alive now e.deadline ≡ true
live-alive now k s e h = elim (Option-cases (written k s)) [
  | inl missing ↦ absurd (ground (arith, missing))
  | inr (f, there) ↦ ground (arith, there)
]

rearmed-alive :
    (now seconds : ℕ) (nx : Bool) (e : Entry)
    → 0 < seconds
    → is_alive now e.deadline ≡ true
    → is_alive now (rearmed nx (now + seconds) e).deadline ≡ true
rearmed-alive now seconds nx e positive alive = elim (Option-cases e.deadline) [
  | inl never ↦ ground (arith, never)
  | inr (d, ends) ↦ ground (arith, ends)
]

pub live-set :
    (now : ℕ) (k j : Text) (e : Option Entry) (s : Writes)
    → live now j ((k, e) ∷ s) ≡ (if text_eq k j then unexpired now e else live now j s)
unfolding written
live-set now k j e s = ground arith

unexpired-incremented :
    (now : ℕ) (k : Text) (s : Writes)
    → unexpired now (some (incremented (live now k s))) ≡ some (incremented (live now k s))
unexpired-incremented now k s = elim (Option-cases (live now k s)) [
  | inl missing ↦ rw missing refl
  | inr (e, there) ↦ rw there (ground (arith, live-alive now k s e there))
]

pub live-incremented :
    (now : ℕ) (k j : Text) (s : Writes)
    → live now j ((k, some (incremented (live now k s))) ∷ s)
      ≡ (if text_eq k j then some (incremented (live now k s)) else live now j s)
live-incremented now k j s =
    live-set now k j (some (incremented (live now k s))) s
    ∙ ap (λ e. if text_eq k j then e else live now j s) (unexpired-incremented now k s)

unexpired-rearmed :
    (now : ℕ) (k : Text) (seconds : ℕ) (nx : Bool) (s : Writes)
    → 0 < seconds
    → unexpired now (map_option (rearmed nx (now + seconds)) (live now k s))
      ≡ map_option (rearmed nx (now + seconds)) (live now k s)
unexpired-rearmed now k seconds nx s positive = elim (Option-cases (live now k s)) [
  | inl missing ↦ rw missing refl
  | inr (e, there) ↦
      rw there (rw (rearmed-alive now seconds nx e positive (live-alive now k s e there)) refl)
]

pub live-rearmed :
    (now : ℕ) (k j : Text) (seconds : ℕ) (nx : Bool) (s : Writes)
    → 0 < seconds
    → live now j ((k, map_option (rearmed nx (now + seconds)) (live now k s)) ∷ s) ≡ (
        if text_eq k j
        then map_option (rearmed nx (now + seconds)) (live now k s)
        else live now j s)
live-rearmed now k j seconds nx s positive =
    live-set now k j (map_option (rearmed nx (now + seconds)) (live now k s)) s
    ∙ ap (λ e. if text_eq k j then e else live now j s)
        (unexpired-rearmed now k seconds nx s positive)

pub keys_complete :
    (now : ℕ) (k prefix : Text) (s : Writes)
    → starts_with k prefix ≡ true
    → is_some (live now k s) ≡ true
    → any (λ j. text_eq j k) (keys prefix s) ≡ true
unfolding written
keys_complete now k prefix [] belongs there = cc there
keys_complete now k prefix ((j, e) ∷ s) belongs there = elim (Bool-cases (text_eq j k)) [
  | inl same ↦ rw (text_eq→eq j k same, belongs, text_eq_refl k)
  | inr other ↦ ground (arith, other, keys_complete now k prefix s belongs)
]

abbrev pub server : Redis
server = record {
  Store = Writes;
  entry = live;
  incr = λ now k s. (k, some (incremented (live now k s))) ∷ s;
  expire = λ now k seconds nx s. (k, map_option (rearmed nx (now + seconds)) (live now k s)) ∷ s;
  del = λ now k s. (k, none) ∷ s;
  set = λ now k value deadline s. (k, some (record { value = value; deadline = deadline })) ∷ s;
  scan = λ now prefix s. keys prefix s;
  entry_later = live-later;
  entry_incr = live-incremented;
  entry_expire = live-rearmed;
  entry_del = λ now k j s. live-set now k j none s;
  entry_set = λ now k j value deadline s.
      live-set now k j (some (record { value = value; deadline = deadline })) s;
  scan_complete = keys_complete;
}
