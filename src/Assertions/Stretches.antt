-- ===== src/Assertions/Stretches.antt =====
-- What a passed check on low batteries says of the trace (scenarios/assertions.py).
use swarmsim.Assertions.{Frame, Trace, sample, last_of, judged}
use swarmsim.Assertions.Battery.{
  Watch, hold_on, watch_sample, watch_frames, watch_drones, no_task_below_battery,
}
use swarmsim.Errors.{ok, Result-cases, is_ok}
use swarmsim.Float.{Float}
use swarmsim.Suite.{AssertionOutcome}
use swarmsim.Base.{
  num_eq, eq_iff, ◌==◌, none, some, true, false, inl, inr, refl, [], ◌∷◌, String, List, Bool-cases,
  ◌++◌, ◌≡◌, ◌<◌, length, All, arith, contains, ap, sym, ◌∙◌,
}
use swarmsim.Assertions.LowBattery.{Shown, sample_grows, frames_grow, drones_grow, stretch_found}

module _ {F : Type 0} ⦃f : Float F⦄ where
  -- A stretch of frames, at the start of the trace or after a frame in which the drone is not
  -- tasked while low, that shows it tasked while low for longer than the grace.
  pub record Stretch (drone : String) (threshold grace : F) (frames : List (Frame F)) : Type 0 where
    pub before : List (Frame F)
    pub first : Frame F
    pub mid : List (Frame F)
    pub last : Frame F
    pub after : List (Frame F)
    pub whole : before ++ first ∷ mid ++ last ∷ after ≡ frames
    pub fresh : (b : Frame F) → last_of before ≡ some b → Shown drone threshold false b
    pub low : All (Shown drone threshold true) (first ∷ mid)
    pub low_last : Shown drone threshold true last
    pub long : f.lt grace (f.sub last.t first.t) ≡ true

  -- The same from the first frame of the stretch.
  first_found :
      (drone : String) (threshold grace : F) (first : Frame F) (mid : List (Frame F))
      (last : Frame F) (after : List (Frame F)) (w w' : Watch F)
      → w.started ≡ none
      → w.reported ≡ false
      → All (Shown drone threshold true) (first ∷ mid)
      → Shown drone threshold true last
      → f.lt grace (f.sub last.t first.t) ≡ true
      → watch_frames drone threshold grace (first ∷ mid ++ last ∷ after) w ≡ ok w'
      → length w.found < length w'.found
  unfolding watch_frames watch_sample hold_on
  first_found drone threshold grace first mid last after w w' unset quiet (l, lows) low long e =
      let w₀ = record w { started = some first.t } in
      let frames = first ∷ mid ++ last ∷ after in
      let same : watch_frames drone threshold grace frames w
          ≡ watch_frames drone threshold grace frames w₀ =
        rw (l.there, watch_frames, l.tasked, watch_sample, unset) refl in
      stretch_found drone threshold grace first.t (first ∷ mid) last after w₀ w' refl quiet
        (l, lows) low long (sym same ∙ e)

  -- The same after frames of which the last does not show it so.
  later_found :
      (drone : String) (threshold grace : F) (b : Frame F) (before : List (Frame F))
      (first : Frame F) (mid : List (Frame F)) (last : Frame F) (after : List (Frame F))
      (w w' : Watch F)
      → ((b' : Frame F) → last_of (b ∷ before) ≡ some b' → Shown drone threshold false b')
      → All (Shown drone threshold true) (first ∷ mid)
      → Shown drone threshold true last
      → f.lt grace (f.sub last.t first.t) ≡ true
      → watch_frames drone threshold grace (b ∷ before ++ first ∷ mid ++ last ∷ after) w ≡ ok w'
      → length w.found < length w'.found
  unfolding watch_frames watch_sample
  later_found drone threshold grace b [] first mid last after w w' fresh lows low long e =
      let rests = fresh b refl in
      first_found drone threshold grace first mid last after
        (record w { started = none; reported = false }) w' refl refl lows low long
        (rw (rests.there, watch_frames, rests.tasked, watch_sample) at e)
  later_found drone threshold grace b (b' ∷ before) first mid last after w w' fresh lows low long
        e =
      elim (Result-cases (sample b drone)) [
        | inr (x, r) ↦ absurd (ground arith)
        | inl (s, r) ↦
            let w₁ = watch_sample drone threshold grace b.t s w in
            let grown = sample_grows drone threshold grace b.t s w in
            let rest =
              later_found drone threshold grace b' before first mid last after w₁ w' fresh lows low
                long (rw (r, watch_frames) at e) in
            omega (arith, grown, rest)
      ]

  frames_found :
      (drone : String) (threshold grace : F) (frames : List (Frame F)) (w w' : Watch F)
      → w.started ≡ none
      → w.reported ≡ false
      → Stretch drone threshold grace frames
      → watch_frames drone threshold grace frames w ≡ ok w'
      → length w.found < length w'.found
  frames_found drone threshold grace frames w w' unset quiet st e =
      go st.before st.fresh (rw (sym st.whole) at e)
    where
      go :
          (before : List (Frame F))
          → ((b : Frame F) → last_of before ≡ some b → Shown drone threshold false b)
          → watch_frames drone threshold grace (before ++ st.first ∷ st.mid ++ st.last ∷ st.after) w
            ≡ ok w'
          → length w.found < length w'.found
      go [] fresh e' =
          first_found drone threshold grace st.first st.mid st.last st.after w w' unset quiet st.low
            st.low_last st.long e'
      go (b ∷ before) fresh e' =
          later_found drone threshold grace b before st.first st.mid st.last st.after w w' fresh
            st.low st.low_last st.long e'

  drones_found :
      (drones : List String) (threshold grace : F) (frames : List (Frame F)) (w w' : Watch F)
      (drone : String)
      → contains drone drones ≡ true
      → Stretch drone threshold grace frames
      → watch_drones drones threshold grace frames w ≡ ok w'
      → length w.found < length w'.found
  unfolding watch_drones
  drones_found [] threshold grace frames w w' drone c st e = absurd (cc)
  drones_found (d ∷ ds) threshold grace frames w w' drone c st e =
      let w₀ = record w { started = none; reported = false } in
      elim (Result-cases (watch_frames d threshold grace frames w₀)) [
        | inr (x, r) ↦ absurd (ground arith)
        | inl (w₁, r) ↦
            let e₁ : watch_drones ds threshold grace frames w₁ ≡ ok w' =
              rw (r, watch_drones) at e in
            elim (Bool-cases (d == drone)) [
              | inl this ↦
                  let st' : Stretch d threshold grace frames =
                    rw (sym ((eq_iff d drone).0 this)) at st in
                  let one = frames_found d threshold grace frames w₀ w₁ refl refl st' r in
                  let rest = drones_grow ds threshold grace frames w₁ w' e₁ in
                  omega (arith, one, rest)
              | inr other ↦
                  let one = frames_grow d threshold grace frames w₀ w₁ r in
                  let rest =
                    drones_found ds threshold grace frames w₁ w' drone (ground arith) st e₁ in
                  omega (arith, one, rest)
            ]
      ]

  frames_ok :
      (drone : String) (threshold grace : F) (frames : List (Frame F)) (w : Watch F)
      → All (λ frame. is_ok (sample frame drone) ≡ true) frames
      → is_ok (watch_frames drone threshold grace frames w) ≡ true
  unfolding watch_frames
  frames_ok drone threshold grace [] w h = refl
  frames_ok drone threshold grace (frame ∷ frames) w (h, hs) =
      elim (Result-cases (sample frame drone)) [
        | inr (x, r) ↦ absurd (ground arith)
        | inl (s, r) ↦
            rw (r, watch_frames)
              (frames_ok drone threshold grace frames
                (watch_sample drone threshold grace frame.t s w) hs)
      ]

  drones_ok :
      (drones : List String) (threshold grace : F) (frames : List (Frame F)) (w : Watch F)
      → All (λ d. All (λ frame. is_ok (sample frame d) ≡ true) frames) drones
      → is_ok (watch_drones drones threshold grace frames w) ≡ true
  unfolding watch_drones
  drones_ok [] threshold grace frames w h = refl
  drones_ok (d ∷ ds) threshold grace frames w (h, hs) =
      let w₀ = record w { started = none; reported = false } in
      let first = frames_ok d threshold grace frames w₀ h in
      elim (Result-cases (watch_frames d threshold grace frames w₀)) [
        | inr (x, r) ↦ absurd (ground arith)
        | inl (w₁, r) ↦ rw (r, watch_drones) (drones_ok ds threshold grace frames w₁ hs)
      ]

  -- The check on tasks below a battery threshold gives an outcome for every trace whose frames show
  -- all its drones. Where it passes, there is no drone of the trace and no stretch of two frames or
  -- more, at the start or after a frame in which the drone was not so, that shows it armed in
  -- OFFBOARD mode below the threshold in every frame, and lasts longer than the grace.
  pub no_task_below_battery-Stretch :
      (trace : Trace F) (threshold grace : F)
      → (All (λ d. All (λ frame. is_ok (sample frame d) ≡ true) trace.frames) trace.homes
          → is_ok (no_task_below_battery trace threshold grace) ≡ true)
        × ((o : AssertionOutcome F) (drone : String)
            → no_task_below_battery trace threshold grace ≡ ok o
            → o.passed ≡ true
            → contains drone trace.homes ≡ true
            → ¬ Stretch drone threshold grace trace.frames)
  unfolding no_task_below_battery
  no_task_below_battery-Stretch trace threshold grace = (total, sound)
    where
      w₀ : Watch F
      w₀ = record { started = none; reported = false; longest = f.of_nat 0; found = [] }

      total :
          All (λ d. All (λ frame. is_ok (sample frame d) ≡ true) trace.frames) trace.homes
          → is_ok (no_task_below_battery trace threshold grace) ≡ true
      total h = ground (arith, drones_ok trace.homes threshold grace trace.frames w₀ h)

      sound :
          (o : AssertionOutcome F) (drone : String)
          → no_task_below_battery trace threshold grace ≡ ok o
          → o.passed ≡ true
          → contains drone trace.homes ≡ true
          → ¬ Stretch drone threshold grace trace.frames
      sound o drone e p c st =
          elim (Result-cases (watch_drones trace.homes threshold grace trace.frames w₀)) [
            | inr (x, r) ↦ ground arith
            | inl (w, r) ↦
                let more =
                  drones_found trace.homes threshold grace trace.frames w₀ w drone c st r in
                let same : judged "no_task_below_battery" (some (f.round w.longest 3)) "s" w.found
                    ≡ o =
                  ground arith in
                let empty : num_eq (length w.found) 0 ≡ true =
                  ap (λ (o' : AssertionOutcome F). o'.passed) same ∙ p in
                ground (arith, more, empty)
          ]
