-- ===== src/Harness/Crafts.antt =====
-- What a step of a run makes of one drone of it.
use swarmsim.Base.{
  none, some, [], ◌∷◌, List, String, refl, sym, ap, ◌∙◌, ◌≡◌, inl, inr, arith, ◌==◌, Bool-cases,
  Option, eq_iff, eq_refl,
}
use swarmsim.Float.{Float}
use swarmsim.Trajectory.{Vector3}
use swarmsim.Dict.{Dict, lookup}
use swarmsim.Errors.{ok, Result-cases, ok-injective}
use swarmsim.Vehicle
use swarmsim.Vehicle.{Vehicle, Observation, Actuation, observe, actuate}
use swarmsim.Reference.{Message}
use swarmsim.Network.{Inbox}
use swarmsim.Scenario.{ScenarioSpec}
use swarmsim.Harness.{SystemUnderTest, Craft, step_crafts, move_crafts, dt}

module _ {F : Type 0} ⦃f : Float F⦄ {D : Type 0} where
  pub lookup-move_crafts :
      (rate now : F) (disturbance : Vector3 F) (crafts : Dict (Craft F D)) (name : String)
      (craft : Craft F D)
      → lookup name crafts ≡ some craft
      → lookup name (move_crafts rate now disturbance crafts)
        ≡ some (record craft { vehicle = Vehicle.step craft.vehicle now dt disturbance rate })
  unfolding lookup move_crafts
  lookup-move_crafts rate now disturbance [] name craft h = absurd (cc)
  lookup-move_crafts rate now disturbance ((other, c) ∷ crafts) name craft h =
      elim (Bool-cases (other == name)) [
        | inr apart ↦
            rw (apart) (lookup-move_crafts rate now disturbance crafts name craft (rw (apart) at h))
        | inl same ↦ rw (same) (
            ap
              (λ (o : Option (Craft F D)). elim o [
                | none ↦ none
                | some k ↦
                    some (record k { vehicle = Vehicle.step k.vehicle now dt disturbance rate })
              ])
              (rw (same) at h))
      ]

module _ {F : Type 0} ⦃f : Float F⦄ {G D : Type 0} (sut : SystemUnderTest F G D)
    (s : ScenarioSpec F) where
  -- The software of a drone was given what it observes and what waits for it, and its vehicle does
  -- what that asks for.
  pub record Acts (now : F) (noise : String → Vector3 F) (inbox : Inbox F) (name : String)
      (craft : Craft F D) (crafts' : Dict (Craft F D)) : Type 0 where
    pub asked : Actuation F
    pub outbox : List (Message F)
    pub stepped :
        (sut.drone_step craft.software now
          (observe craft.vehicle (s.world).gps_noise_std (noise name))
          (inbox name)).1
        ≡ ok (asked, outbox)
    pub found :
        lookup name crafts'
        ≡ some (record {
          software =
              (sut.drone_step craft.software now
                (observe craft.vehicle (s.world).gps_noise_std (noise name))
                (inbox name)).0;
          vehicle = actuate craft.vehicle now asked;
        })

  pub step_crafts-Acts :
      (now : F) (noise : String → Vector3 F) (inbox : Inbox F) (name : String) (craft : Craft F D)
      (crafts : Dict (Craft F D)) (out : Dict (Craft F D) × List (Message F))
      → step_crafts sut s now noise crafts inbox ≡ ok out
      → lookup name crafts ≡ some craft
      → Acts now noise inbox name craft out.0
  unfolding step_crafts lookup
  step_crafts-Acts now noise inbox name craft [] out h e = absurd (cc)
  step_crafts-Acts now noise inbox name craft ((other, c) ∷ crafts) out h e =
      let here =
        sut.drone_step c.software now (observe c.vehicle (s.world).gps_noise_std (noise other))
          (inbox other) in
      elim (Result-cases here.1) [
        | inr (x, a) ↦ absurd (ground arith)
        | inl (act, a) ↦ elim (Result-cases (step_crafts sut s now noise crafts inbox)) [
          | inr (x, later) ↦ absurd (ground arith)
          | inl (rest, later) ↦
              let parts = ok-injective (rw (a, later) at h) in
              elim (Bool-cases (other == name)) [
                | inr apart ↦
                    let r =
                      step_crafts-Acts now noise inbox name craft crafts rest later
                        (rw (apart) at e) in
                    record {
                      asked = r.asked;
                      outbox = r.outbox;
                      stepped = r.stepped;
                      found =
                          ap (λ (o : Dict (Craft F D) × List (Message F)). lookup name o.0)
                            (sym parts)
                          ∙ rw (apart) r.found;
                    }
                | inl same ↦
                    let first : Acts now noise inbox other c out.0 = record {
                      asked = act.0;
                      outbox = act.1;
                      stepped = a;
                      found =
                          ap (λ (o : Dict (Craft F D) × List (Message F)). lookup other o.0)
                            (sym parts)
                          ∙ rw (eq_refl other) refl;
                    } in
                    let it : c ≡ craft =
                      ap (λ (o : Option (Craft F D)). elim o [ none ↦ c | some k ↦ k ])
                        (rw (same) at e) in
                    rw (it, (eq_iff other name).0 same) at first
              ]
        ]
      ]
