-- ===== src/Harness/Sent.antt =====
-- What the drones and the ground of the reference swarm send on a step of a run.
use swarmsim.Base.{
  true, false, [], ◌∷◌, List, String, map, keep, ◌++◌, refl, sym, ap, ◌≡◌, inl, inr, arith, ◌==◌,
  Bool-cases, Bool, contains, Distinct, eq_iff,
}
use swarmsim.Float.{Float}
use swarmsim.Trajectory.{Vector3}
use swarmsim.Dict.{Dict}
use swarmsim.Errors.{ok, Result-cases, ok-injective}
use swarmsim.Json.{Conversions}
use swarmsim.Vehicle.{observe}
use swarmsim.Reference.{Message, ReferenceDrone}
use swarmsim.Reference
use swarmsim.Reference.Chatter.{Chatter, Chatter-append, step-Chatter}
use swarmsim.Ground.Orders.{order}
use swarmsim.Network.{Inbox}
use swarmsim.Network.Delivery.{reaches}
use swarmsim.Scenario.{ScenarioSpec}
use swarmsim.Harness.{Craft, step_crafts}
use swarmsim.Harness.Swarm.{SwarmConfig, reference}

module _ {F : Type 0} where
  pub keep-append :
      (p : Message F → Bool) (xs ys : List (Message F)) → keep p (xs ++ ys) ≡ keep p xs ++ keep p ys
  keep-append p [] ys = refl
  keep-append p (x ∷ xs) ys = elim (Bool-cases (p x)) [
    | inl kept ↦ rw (kept) (ap (λ (ms : List (Message F)). x ∷ ms) (keep-append p xs ys))
    | inr lost ↦ rw (lost) (keep-append p xs ys)
  ]

  pub keep-Chatter :
      (p : Message F → Bool) (xs : List (Message F)) → Chatter xs → Chatter (keep p xs)
  keep-Chatter p [] h = tt
  keep-Chatter p (x ∷ xs) (here, h) = elim (Bool-cases (p x)) [
    | inl kept ↦ rw (kept) (here, keep-Chatter p xs h)
    | inr lost ↦ rw (lost) (keep-Chatter p xs h)
  ]

  orders_of_others :
      (cut crew ds : List String) (drone name : String)
      → contains drone ds ≡ false
      → contains "*" ds ≡ false
      → keep (reaches cut crew drone) (map (order {F = F} name) ds) ≡ []
  orders_of_others cut crew [] drone name h star = refl
  orders_of_others cut crew (d ∷ ds) drone name h star =
      ground (arith, orders_of_others cut crew ds drone name)

  -- A drone in contact gets its order once.
  pub orders_kept :
      (cut crew ds : List String) (drone name : String)
      → contains drone ds ≡ true
      → Distinct ds
      → contains "*" ds ≡ false
      → contains "ground" cut ≡ false
      → contains drone cut ≡ false
      → keep (reaches cut crew drone) (map (order {F = F} name) ds) ≡ order name drone ∷ []
  orders_kept cut crew [] drone name h d star heard held = absurd (cc)
  orders_kept cut crew (e ∷ ds) drone name h (fresh, d) star heard held =
      elim (Bool-cases (e == drone)) [
        | inr other ↦
            ground
              (arith, orders_kept cut crew ds drone name (ground arith) d (ground arith) heard held)
        | inl same ↦
            let i = (eq_iff e drone).0 same in
            let rest = orders_of_others cut crew ds drone name (rw i at fresh) (ground arith) in
            let reached : reaches cut crew drone (order {F = F} name e) ≡ true = ground arith in
            rw (reached, rest) (ap (λ k. order {F = F} name k ∷ []) i)
      ]

module _ {F : Type 0} ⦃f : Float F⦄ (python : Conversions F) (config : SwarmConfig F)
    (s : ScenarioSpec F) where
  pub crafts-Chatter :
      (now : F) (noise : String → Vector3 F) (inbox : Inbox F)
      (crafts : Dict (Craft F (ReferenceDrone F)))
      (out : Dict (Craft F (ReferenceDrone F)) × List (Message F))
      → step_crafts (reference python config) s now noise crafts inbox ≡ ok out
      → Chatter out.1
  unfolding step_crafts reference
  crafts-Chatter now noise inbox [] out h =
      rw
        (ap (λ (o : Dict (Craft F (ReferenceDrone F)) × List (Message F)). o.1)
          (sym (ok-injective h)))
        tt
  crafts-Chatter now noise inbox ((name, c) ∷ crafts) out h =
      let seen = observe c.vehicle (s.world).gps_noise_std (noise name) in
      let here = Reference.step c.software now seen (inbox name) in
      elim (Result-cases here.1) [
        | inr (x, a) ↦ absurd (ground arith)
        | inl (act, a) ↦
            elim (Result-cases (step_crafts (reference python config) s now noise crafts inbox)) [
              | inr (x, later) ↦ absurd (ground arith)
              | inl (rest, later) ↦
                  let sent =
                    ap (λ (o : Dict (Craft F (ReferenceDrone F)) × List (Message F)). o.1)
                      (ok-injective (rw (a, later) at h)) in
                  rw (sent) at (
                    Chatter-append act.1 rest.1
                      (step-Chatter c.software now seen (inbox name) act.0 act.1 a)
                      (crafts-Chatter now noise inbox crafts rest later))
            ]
      ]
