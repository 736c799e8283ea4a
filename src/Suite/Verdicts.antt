-- ===== src/Suite/Verdicts.antt =====
-- When a suite of scenarios passes (scenarios/runner.py).
use swarmsim.Dict.{keys, lookup, contains-keys}
use swarmsim.Base.{
  true, false, refl, [], ◌∷◌, Bool, All, ◌≡◌, List, arith, some, inl, inr, String, not, ◌==◌,
  contains, Option-cases, sym, ◌∙◌, ap, is_some,
}
use swarmsim.Suite.{
  ScenarioReport, all_of, all_passed, SuiteReport, apply, Expectations, toothless, killed, Declared,
}

all_of-All {ℓ} :
    {A : Type ℓ} (test : A → Bool) (xs : List A)
    → (all_of test xs ≡ true → All (λ x. test x ≡ true) xs)
      × (All (λ x. test x ≡ true) xs → all_of test xs ≡ true)
all_of-All test [] = (λ h. tt, λ h. refl)
all_of-All test (x ∷ xs) =
    let (there, back) = all_of-All test xs in
    (λ h. (ground arith, there (ground arith)), λ (h, hs). ground (arith, back hs))

module _ {F : Type 0} where
  pub record IsGood (s : ScenarioReport F) : Type 0 where
    -- all its runs passed exactly if it is not expected to fail
    pub as_declared : all_passed s ≡ not (s.spec.expect == "fail")
    -- and if mutants were flown on it, some mutant failed it, or it is not expected to pass
    pub has_teeth : toothless s ≡ false

  -- Every mutant failed some scenario.
  abbrev pub NoSurvivor : SuiteReport F → Type 0
  NoSurvivor r =
      (mutants : List String) (m : String)
      → r.mutants ≡ some mutants
      → contains m mutants ≡ true
      → contains m (killed r.scenarios) ≡ true

-- Under a swarm's expectations, a scenario is expected to fail exactly if they name it, whatever
-- its own file says; and to apply them a second time changes nothing.
apply-expects :
    (e : Expectations) (spec : Declared)
    → (((apply e spec).expect == "fail") ≡ contains spec.name (keys e.expect_fail))
      × (apply e (apply e spec) ≡ apply e spec)
unfolding apply
apply-expects e spec = elim (Option-cases (lookup spec.name e.expect_fail)) [
  | inl l ↦
      (rw (l, apply) (sym (contains-keys spec.name e.expect_fail ∙ ap is_some l)), ground arith)
  | inr (reason, l) ↦
      (rw (l, apply) (sym (contains-keys spec.name e.expect_fail ∙ ap is_some l)), ground arith)
]
