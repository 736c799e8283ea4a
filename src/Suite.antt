-- ===== src/Suite.antt =====
-- scenarios/model.py, scenarios/expectations.py and scenarios/runner.py: what a suite of scenarios
-- ends in. The texts that describe a violation, and wall times, are left out.
pub mod Verdicts
use swarmsim.Dict.{Dict, lookup, keys}
use swarmsim.Base.{
  none, some, true, false, [], ◌∷◌, String, List, Bool, Option, ℕ, ◌&&◌, keep, if◌then◌else◌,
  num_eq, ◌++◌, not, ◌==◌, length, contains, ◌||◌,
}

pub record Violation (F : Type 0) : Type 0 where
  pub assertion : String
  pub drone_ids : List String
  pub timestamp : Option F
  pub measured_value : Option F
  pub threshold : Option F

pub record AssertionOutcome (F : Type 0) : Type 0 where
  pub assertion : String
  pub passed : Bool
  pub measured : Option F
  pub unit : String
  pub violations : List (Violation F)

pub record Verdict (F : Type 0) : Type 0 where
  pub scenario : String
  pub sut : String
  pub seed : ℕ
  pub outcomes : List (AssertionOutcome F)

-- Of a ScenarioSpec, what the report reads.
pub record Declared : Type 0 where
  pub name : String
  pub expect : String
  pub expect_reason : Option String

pub record Expectations : Type 0 where
  -- scenario name ↦ why this swarm is expected to fail it
  pub expect_fail : Dict String
  pub source : Option String

pub record ScenarioReport (F : Type 0) : Type 0 where
  pub spec : Declared
  pub verdicts : List (Verdict F)
  pub killed_by : Option (List String)

pub record SuiteReport (F : Type 0) : Type 0 where
  pub sut : String
  pub seeds : List ℕ
  pub scenarios : List (ScenarioReport F)
  pub errors : List String
  -- the names of the mutants
  pub mutants : Option (List String)
  pub expectations : Option Expectations

-- `all(test(x) for x in xs)`
abbrev pub all_of {ℓ} : {A : Type ℓ} → (A → Bool) → List A → Bool
all_of test [] = true
all_of test (x ∷ xs) = test x && all_of test xs

-- `Expectations.apply`
unfoldable pub apply : Expectations → Declared → Declared
apply e spec = elim (lookup spec.name e.expect_fail) [
  | none ↦ record spec { expect = "pass"; expect_reason = none }
  | some reason ↦ record spec { expect = "fail"; expect_reason = some reason }
]

-- `Expectations.unused`
unfoldable pub unused : Expectations → List String → List String
unused e names = keep (λ name. not (contains name names)) (keys e.expect_fail)

module _ {F : Type 0} where
  -- `Verdict.passed`
  unfoldable pub passes : Verdict F → Bool
  passes v = all_of (λ o. o.passed) v.outcomes

  unfoldable pub all_passed : ScenarioReport F → Bool
  all_passed s = all_of passes s.verdicts

  unfoldable pub outcome : ScenarioReport F → String
  outcome s =
      if s.spec.expect == "fail"
      then (if all_passed s then "xpass" else "xfail")
      else if all_passed s
      then "passed"
      else "failed"

  unfoldable pub toothless : ScenarioReport F → Bool
  toothless s = elim s.killed_by [
    | none ↦ false
    | some killers ↦ num_eq (length killers) 0 && s.spec.expect == "pass"
  ]

  abbrev pub killers_of : ScenarioReport F → List String
  killers_of s = elim s.killed_by [ none ↦ [] | some killers ↦ killers ]

  -- `{m for s in self.scenarios for m in (s.killed_by or [])}`
  unfoldable pub killed : List (ScenarioReport F) → List String
  killed [] = []
  killed (s ∷ ss) = killers_of s ++ killed ss

  unfoldable pub survivors : SuiteReport F → List String
  survivors r = elim r.mutants [
    | none ↦ []
    | some mutants ↦ keep (λ m. not (contains m (killed r.scenarios))) mutants
  ]

  abbrev pub scenario_names : List (ScenarioReport F) → List String
  scenario_names [] = []
  scenario_names (s ∷ ss) = s.spec.name ∷ scenario_names ss

  unfoldable pub unused_expectations : SuiteReport F → List String
  unused_expectations r = elim r.expectations [
    | none ↦ []
    | some e ↦ unused e (scenario_names r.scenarios)
  ]

  -- `SuiteReport.ok`
  unfoldable pub suite_ok : SuiteReport F → Bool
  suite_ok r =
      num_eq (length r.errors) 0
      && (all_of (λ s. outcome s == "passed" || outcome s == "xfail") r.scenarios
          && (all_of (λ s. not (toothless s)) r.scenarios && num_eq (length (survivors r)) 0))
