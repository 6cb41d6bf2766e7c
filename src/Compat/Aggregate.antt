-- ===== src/Compat/Aggregate.antt =====
-- `aggregate` of backend/app/services/compatibility_rules.py, and
-- backend/app/services/strategy.py.
use shift_wise.Prelude.{
  leb, if◌then◌else◌, is_empty, ℕ, ◌+◌, ◌-◌, Bool, Option, none, some, List, [], ◌∷◌, ◌++◌,
}
use shift_wise.Compat.Rules.{Severity, Message, RuleResult}

pub data Grade : Type 0 where
  compatible partial incompatible : Grade

-- `MigrationStrategy` of backend/app/models/migration.py.
pub data Strategy : Type 0 where
  direct conversion hybrid cold warm auto : Strategy

pub record Verdict : Type 0 where
  pub grade : Grade
  pub score : ℕ
  pub blockers : List Message
  pub warnings : List Message

-- What one rule does to the three variables of the loop.
abbrev add_blocker : Severity → Message → List Message → List Message
add_blocker Severity.blocker m blockers = blockers ++ m ∷ []
add_blocker _ m blockers = blockers

abbrev add_warning : Severity → Message → List Message → List Message
add_warning Severity.warning m warnings = warnings ++ m ∷ []
add_warning _ m warnings = warnings

abbrev pub next_blockers : RuleResult → List Message → List Message
next_blockers rule blockers =
    if rule.passed then blockers else add_blocker rule.severity rule.message blockers

abbrev pub next_warnings : RuleResult → List Message → List Message
next_warnings rule warnings =
    if rule.passed then warnings else add_warning rule.severity rule.message warnings

abbrev pub next_penalty : RuleResult → ℕ → ℕ
next_penalty rule penalty = if rule.passed then penalty else penalty + rule.weight

abbrev pub grade_of : List Message → List Message → Grade
grade_of blockers warnings =
    if is_empty blockers then if is_empty warnings then compatible else partial else incompatible

-- The loop over the rules, with its three variables, and what follows it. `-` stops at 0, which
-- is `max(0, 100 - penalty)`.
unfoldable pub aggregate_loop : List Message → List Message → ℕ → List RuleResult → Verdict
aggregate_loop blockers warnings penalty [] = record {
  grade = grade_of blockers warnings;
  score = 100 - penalty;
  blockers = blockers;
  warnings = warnings;
}
aggregate_loop blockers warnings penalty (rule ∷ rest) =
    aggregate_loop (next_blockers rule blockers) (next_warnings rule warnings)
      (next_penalty rule penalty) rest

unfoldable pub aggregate : List RuleResult → Verdict
unfolding aggregate_loop
aggregate rules = aggregate_loop [] [] 0 rules

unfoldable pub recommend_strategy : ℕ → Bool → Option Strategy
recommend_strategy score has_blocker =
    if has_blocker
    then none
    else if leb 90 score
    then some direct
    else if leb 70 score
    then some conversion
    else if leb 50 score
    then some hybrid
    else some cold
