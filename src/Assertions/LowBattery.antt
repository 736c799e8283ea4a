-- ===== src/Assertions/LowBattery.antt =====
-- What the loops of the check on low batteries find (scenarios/assertions.py).
use swarmsim.Assertions.{Frame, DroneSample, sample}
use swarmsim.Assertions.Battery.{
  Watch, tasked_while_low, late_breach, hold_on, watch_sample, watch_frames, watch_drones,
}
use swarmsim.Errors.{ok, Result-cases}
use swarmsim.Float.{Float}
use swarmsim.Base.{
  none, some, true, false, inl, inr, refl, [], ◌∷◌, String, List, Bool, Bool-cases, ◌++◌, ◌≡◌, ◌<◌,
  ◌≤◌, length, length-append, All, arith,
}

module _ {F : Type 0} ⦃f : Float F⦄ where
  -- A frame shows the drone, tasked while low or not.
  pub record Shown (drone : String) (threshold : F) (low : Bool) (frame : Frame F) : Type 0 where
    pub shown : DroneSample F
    pub there : sample frame drone ≡ ok shown
    pub tasked : tasked_while_low threshold shown ≡ low

  pub sample_grows :
      (drone : String) (threshold grace at : F) (s : DroneSample F) (w : Watch F)
      → length w.found ≤ length (watch_sample drone threshold grace at s w).found
  unfolding watch_sample hold_on
  sample_grows drone threshold grace at s w =
      ground (arith, length-append w.found (late_breach drone threshold at s ∷ []))

  pub frames_grow :
      (drone : String) (threshold grace : F) (frames : List (Frame F)) (w w' : Watch F)
      → watch_frames drone threshold grace frames w ≡ ok w'
      → length w.found ≤ length w'.found
  unfolding watch_frames
  frames_grow drone threshold grace [] w w' e = ground arith
  frames_grow drone threshold grace (frame ∷ frames) w w' e =
      elim (Result-cases (sample frame drone)) [
        | inr (x, r) ↦ absurd (ground arith)
        | inl (s, r) ↦
            let w₁ = watch_sample drone threshold grace frame.t s w in
            let step = sample_grows drone threshold grace frame.t s w in
            let rest = frames_grow drone threshold grace frames w₁ w' (rw (r, watch_frames) at e) in
            omega (arith, step, rest)
      ]

  pub drones_grow :
      (drones : List String) (threshold grace : F) (frames : List (Frame F)) (w w' : Watch F)
      → watch_drones drones threshold grace frames w ≡ ok w'
      → length w.found ≤ length w'.found
  unfolding watch_drones
  drones_grow [] threshold grace frames w w' e = ground arith
  drones_grow (d ∷ ds) threshold grace frames w w' e =
      let w₀ = record w { started = none; reported = false } in
      elim (Result-cases (watch_frames d threshold grace frames w₀)) [
        | inr (x, r) ↦ absurd (ground arith)
        | inl (w₁, r) ↦
            let one = frames_grow d threshold grace frames w₀ w₁ r in
            let rest = drones_grow ds threshold grace frames w₁ w' (rw (r, watch_drones) at e) in
            omega (arith, one, rest)
      ]

  -- A frame that shows the drone tasked while low, by whether that is over the grace.
  held_over :
      (drone : String) (threshold grace at since : F) (s : DroneSample F) (w : Watch F)
      → w.reported ≡ false
      → (f.lt grace (f.sub at since) ≡ true
          → length w.found < length (hold_on drone threshold grace at s since w).found)
        × (f.lt grace (f.sub at since) ≡ false
            → ((hold_on drone threshold grace at s since w).reported ≡ false)
              × ((hold_on drone threshold grace at s since w).found ≡ w.found))
  unfolding hold_on
  held_over drone threshold grace at since s w e = (
    λ h. ground (arith, length-append w.found (late_breach drone threshold at s ∷ [])),
    λ h. (ground arith, ground arith),
  )

  -- From a frame on, the drone is tasked while low up to a frame in which that is over the grace.
  pub stretch_found :
      (drone : String) (threshold grace since : F) (mid : List (Frame F)) (last : Frame F)
      (after : List (Frame F)) (w w' : Watch F)
      → w.started ≡ some since
      → w.reported ≡ false
      → All (Shown drone threshold true) mid
      → Shown drone threshold true last
      → f.lt grace (f.sub last.t since) ≡ true
      → watch_frames drone threshold grace (mid ++ last ∷ after) w ≡ ok w'
      → length w.found < length w'.found
  unfolding watch_frames watch_sample hold_on
  stretch_found drone threshold grace since [] last after w w' at_since quiet lows low long e =
      let w₁ = hold_on drone threshold grace last.t low.shown since w in
      let rest =
        frames_grow drone threshold grace after w₁ w'
          (rw (low.there, watch_frames, low.tasked, watch_sample, at_since) at e) in
      let more = (held_over drone threshold grace last.t since low.shown w quiet).0 long in
      omega (arith, rest, more)
  stretch_found drone threshold grace since (m ∷ mid) last after w w' at_since quiet (l, lows) low
        long e =
      let w₁ = hold_on drone threshold grace m.t l.shown since w in
      let e₁ : watch_frames drone threshold grace (mid ++ last ∷ after) w₁ ≡ ok w' =
        rw (l.there, watch_frames, l.tasked, watch_sample, at_since) at e in
      let (over, under) = held_over drone threshold grace m.t since l.shown w quiet in
      elim (Bool-cases (f.lt grace (f.sub m.t since))) [
        | inl long₁ ↦
            let rest = frames_grow drone threshold grace (mid ++ last ∷ after) w₁ w' e₁ in
            let more = over long₁ in omega (arith, rest, more)
        | inr short ↦
            let (quiet₁, same) = under short in
            let rest =
              stretch_found drone threshold grace since mid last after w₁ w' refl quiet₁ lows low
                long e₁ in
            rw same at rest
      ]
