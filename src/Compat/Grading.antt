-- ===== src/Compat/Grading.antt =====
-- `aggregate` against a description by filters and a sum.
use shift_wise.Prelude.{
  if◌then◌else◌, any, is_empty, ℕ, ◌+◌, ◌-◌, ◌≡◌, refl, Bool, true, false, ◌&&◌, not, List, [], ◌∷◌,
  ◌++◌, arith,
}
use mathlib.Core.List.{append-nil, append_assoc}
use native.Mathlib.Nat.{add_assoc, zero-add}
use shift_wise.Compat.Rules.{Severity, Message, RuleResult}
use shift_wise.Compat.Aggregate.{
  compatible, partial, incompatible, Verdict, next_blockers, next_warnings, next_penalty, grade_of,
  aggregate_loop, aggregate,
}

abbrev is_blocker : Severity → Bool
is_blocker Severity.blocker = true
is_blocker _ = false

abbrev is_warning : Severity → Bool
is_warning Severity.warning = true
is_warning _ = false

-- A failed rule of severity BLOCKER, and one of severity WARNING.
abbrev pub blocks : RuleResult → Bool
blocks rule = not rule.passed && is_blocker rule.severity

abbrev pub warns : RuleResult → Bool
warns rule = not rule.passed && is_warning rule.severity

-- The messages of the rules that a test selects, in order.
abbrev pub messages : (RuleResult → Bool) → List RuleResult → List Message
messages test [] = []
messages test (rule ∷ rest) =
    let later = messages test rest in if test rule then rule.message ∷ later else later

abbrev pub cost : RuleResult → ℕ
cost rule = if rule.passed then 0 else rule.weight

abbrev pub total_cost : List RuleResult → ℕ
total_cost [] = 0
total_cost (rule ∷ rest) = cost rule + total_cost rest

abbrev pub expected : List Message → List Message → ℕ → Verdict
expected blockers warnings penalty = record {
  grade = grade_of blockers warnings;
  score = 100 - penalty;
  blockers = blockers;
  warnings = warnings;
}

blockers_step :
    (bs : List Message) (rule : RuleResult) (rest : List RuleResult)
    → next_blockers rule bs ++ messages blocks rest ≡ bs ++ messages blocks (rule ∷ rest)
blockers_step bs rule rest =
    ground (arith, append_assoc bs (rule.message ∷ []) (messages blocks rest))

warnings_step :
    (ws : List Message) (rule : RuleResult) (rest : List RuleResult)
    → next_warnings rule ws ++ messages warns rest ≡ ws ++ messages warns (rule ∷ rest)
warnings_step ws rule rest =
    ground (arith, append_assoc ws (rule.message ∷ []) (messages warns rest))

penalty_step :
    (p : ℕ) (rule : RuleResult) (rest : List RuleResult)
    → next_penalty rule p + total_cost rest ≡ p + total_cost (rule ∷ rest)
penalty_step p rule rest = ground (arith, add_assoc p rule.weight (total_cost rest))

aggregate_loop_lem :
    (bs ws : List Message) (p : ℕ) (rules : List RuleResult)
    → aggregate_loop bs ws p rules
      ≡ expected (bs ++ messages blocks rules) (ws ++ messages warns rules) (p + total_cost rules)
unfolding aggregate_loop
aggregate_loop_lem bs ws p [] = ground (arith, append-nil bs, append-nil ws)
aggregate_loop_lem bs ws p (rule ∷ rest) =
    rw (← blockers_step bs rule rest, ← warnings_step ws rule rest, ← penalty_step p rule rest)
      (aggregate_loop_lem (next_blockers rule bs) (next_warnings rule ws) (next_penalty rule p)
        rest)

-- `aggregate` reports the messages of the failed blockers and of the failed warnings in rule
-- order, and 100 less the weights of the failed rules, not below 0.
pub aggregate_lem :
    (rules : List RuleResult)
    → aggregate rules ≡ expected (messages blocks rules) (messages warns rules) (total_cost rules)
unfolding aggregate
aggregate_lem rules = rw (← zero-add (total_cost rules)) (aggregate_loop_lem [] [] 0 rules)

messages-nil_iff :
    (test : RuleResult → Bool) (rules : List RuleResult)
    → is_empty (messages test rules) ≡ not (any test rules)
messages-nil_iff test [] = refl
messages-nil_iff test (rule ∷ rest) = ground (arith, messages-nil_iff test rest)

-- The grade in one line: a failed blocker makes it INCOMPATIBLE, else a failed warning makes it
-- PARTIAL, else it is COMPATIBLE.
pub grade-aggregate :
    (rules : List RuleResult)
    → (aggregate rules).grade
      ≡ (if any blocks rules then incompatible else if any warns rules then partial else compatible)
grade-aggregate rules =
    rw aggregate_lem (ground (arith, messages-nil_iff blocks rules, messages-nil_iff warns rules))

pub blockers-aggregate :
    (rules : List RuleResult) → is_empty (aggregate rules).blockers ≡ not (any blocks rules)
blockers-aggregate rules = rw aggregate_lem (messages-nil_iff blocks rules)

pub score-aggregate : (rules : List RuleResult) → (aggregate rules).score ≡ 100 - total_cost rules
score-aggregate rules = rw aggregate_lem
