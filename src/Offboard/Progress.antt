-- ===== src/Offboard/Progress.antt =====
-- OffboardSequencer over lists of ticks (offboard.py): from a new task to flying in OFFBOARD, the
-- requests and their times, and a released vehicle.
use swarmsim.Base.{
  ◌≡◌, refl, true, false, Option, some, List, [], ◌∷◌, arith, is_text, All, if◌then◌else◌,
}
use swarmsim.Float.{Float}
use swarmsim.Offboard.{
  released, Sequencer, OffboardStep, Tick, quiet, is_armed, is_due, step, after,
}

module _ {F : Type 0} ⦃f : Float F⦄ where
  abbrev pub tick : Sequencer F → Tick F → Sequencer F × OffboardStep
  tick s t = step s t.now t.armed t.mode

  -- What the sequencer asks for on each of a list of ticks.
  pub outputs : Sequencer F → List (Tick F) → List OffboardStep
  outputs s [] = []
  outputs s (t ∷ ts) = (tick s t).1 ∷ outputs (tick s t).0 ts

  abbrev pub Refuses : Tick F → Type 0
  Refuses t = is_text t.mode "OFFBOARD" ≡ false

  -- A vehicle that was handed back, or never asked for, gets no setpoint and no request, however
  -- many ticks follow and whatever they report.
  released_absorbs :
      (s : Sequencer F) (ts : List (Tick F))
      → s.phase ≡ released
      → (after s ts ≡ s) × All (λ out. out ≡ quiet) (outputs s ts)
  unfolding after outputs
  released_absorbs s [] p = (refl, tt)
  released_absorbs s (t ∷ ts) p = ground (arith, stays s t p, released_absorbs s ts p)
    where
      stays : (s : Sequencer F) (t : Tick F) → s.phase ≡ released → tick s t ≡ (s, quiet)
      stays s t p = unfold step in ground arith

  -- The times at which a run asks for OFFBOARD, and at which it asks for arming.
  unfoldable pub mode_requests : Sequencer F → List (Tick F) → List F
  mode_requests s [] = []
  mode_requests s (t ∷ ts) =
      let rest = mode_requests (tick s t).0 ts in
      if (tick s t).1.ask_offboard then t.now ∷ rest else rest

  unfoldable pub arm_requests : Sequencer F → List (Tick F) → List F
  arm_requests s [] = []
  arm_requests s (t ∷ ts) =
      let rest = arm_requests (tick s t).0 ts in if (tick s t).1.ask_arm then t.now ∷ rest else rest

  -- Each time is at least the interval after the one before it.
  abbrev pub Spaced : F → Option F → List F → Type 0
  Spaced interval last [] = Unit
  Spaced interval last (t ∷ ts) = (is_due t last interval ≡ true) × Spaced interval (some t) ts

  abbrev pub WaitsForMode : List (Tick F) → Type 0
  WaitsForMode = All Refuses

  abbrev pub WaitsForArm : List (Tick F) → Type 0
  WaitsForArm = All λ t. (is_text t.mode "OFFBOARD" ≡ true) × (is_armed t.armed ≡ false)
