-- ===== src/Harness/Mail.antt =====
-- What waits for the drones and the ground after a step of a run.
use swarmsim.Base.{
  true, false, [], ◌∷◌, List, String, ◌++◌, ◌≡◌, refl, sym, ap, ◌∙◌, arith, contains, Distinct,
  keep, inl, inr, if◌then◌else◌,
}
use swarmsim.Float.{Float}
use swarmsim.Dict.{Dict, keys}
use swarmsim.Errors.{ok, Result-cases, ok-injective}
use swarmsim.Reference.{Message}
use swarmsim.Network.{Inbox, without, without_all, cut_at}
use swarmsim.Network.Delivery.{reaches, deliver_all_lem}
use swarmsim.Harness.{SystemUnderTest, Draws, World, Craft, advance, step_crafts}
use swarmsim.Scenario.{ScenarioSpec}

module _ {F : Type 0} where
  without_all_lem :
      (names : List String) (inbox : Inbox F) (name : String)
      → without_all names inbox name ≡ (if contains name names then [] else inbox name)
  unfolding without_all
  without_all_lem [] inbox name = refl
  without_all_lem (n ∷ names) inbox name =
      without_all_lem names (without n inbox) name ∙ ground arith

module _ {F : Type 0} ⦃f : Float F⦄ {G D : Type 0} (sut : SystemUnderTest F G D)
    (s : ScenarioSpec F) where
  -- After a step, what waits for a drone or the ground is exactly what the ground and then the
  -- drones sent on that step that reaches it, in the order in which it was sent: nothing of an
  -- earlier step, nothing twice, and nothing where the sender or the recipient is cut off. No two
  -- drones have the same name, and none is called ground.
  pub advance_mail :
      (now : F) (draws : Draws F) (w w' : World F G D) (out : Dict (Craft F D) × List (Message F))
      (name : String)
      → Distinct (keys w.crafts)
      → contains "ground" (keys w.crafts) ≡ false
      → step_crafts sut s now draws.noise w.crafts (without "ground" w.inbox) ≡ ok out
      → advance sut s now draws w ≡ ok w'
      → contains name ("ground" ∷ keys w.crafts) ≡ true
      → w'.inbox name
        ≡ keep
            (reaches (cut_at now w.cut_off) (keys w.crafts) name)
            ((sut.ground_step w.ground now (w.inbox "ground")).1 ++ out.1)
  unfolding advance
  advance_mail now draws w w' out name d apart e h member =
      elim (Result-cases (sut.report (sut.ground_step w.ground now (w.inbox "ground")).0)) [
        | inr (x, r) ↦ absurd (ground arith)
        | inl (report, r) ↦
            let sent = (sut.ground_step w.ground now (w.inbox "ground")).1 ++ out.1 in
            let left = without_all (keys w.crafts) (without "ground" w.inbox) in
            let empty : left name ≡ [] =
              without_all_lem (keys w.crafts) (without "ground" w.inbox) name ∙ ground arith in
            ap (λ (u : World F G D). u.inbox name) (sym (ok-injective (rw (e, r) at h)))
            ∙ deliver_all_lem (cut_at now w.cut_off) (keys w.crafts) sent left name d apart
            ∙ ap
                (λ (ms : List (Message F)).
                  ms ++ keep (reaches (cut_at now w.cut_off) (keys w.crafts) name) sent)
                empty
      ]
