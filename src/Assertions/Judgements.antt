-- ===== src/Assertions/Judgements.antt =====
-- What a passed check says of the trace (scenarios/assertions.py).
use swarmsim.Errors.{ok, err, Result-cases, no_frame}
use swarmsim.Float.{Float}
use swarmsim.Base.{
  none, some, true, false, inl, inr, suc, refl, [], ◌∷◌, String, List, ◌≡◌, All, ltb, length, ◌==◌,
  arith, ap, Bool-cases,
}
use swarmsim.Assertions.{
  DroneSample, Frame, Trace, sample, never_mode, never_mode_from, still_up, all_landed,
  frames_until, last_of, landed_since, up_breaches, judged, reversed,
}
use swarmsim.Suite.{AssertionOutcome}

module _ {F : Type 0} where
  -- A frame shows a drone in another mode.
  pub record OtherMode (drone mode : String) (frame : Frame F) : Type 0 where
    pub shown : DroneSample F
    pub there : sample frame drone ≡ ok shown
    pub differs : (shown.mode == mode) ≡ false

  never_mode_from-OtherMode :
      (frames : List (Frame F)) (drone mode : String) (o : AssertionOutcome F)
      → never_mode_from frames drone mode ≡ ok o
      → o.passed ≡ true
      → All (OtherMode drone mode) frames
  unfolding never_mode_from
  never_mode_from-OtherMode [] drone mode o e p = tt
  never_mode_from-OtherMode (frame ∷ frames) drone mode o e p =
      elim (Result-cases (sample frame drone)) [
        | inr (x, s) ↦ absurd (ground arith)
        | inl (shown, s) ↦ elim (Bool-cases (shown.mode == mode)) [
          | inl same ↦ absurd (ground arith)
          | inr other ↦ (
            record { shown = shown; there = s; differs = other },
            never_mode_from-OtherMode frames drone mode o (ground arith) p,
          )
        ]
      ]

  OtherMode-never_mode_from :
      (frames : List (Frame F)) (drone mode : String)
      → All (OtherMode drone mode) frames
      → (o : AssertionOutcome F) × (never_mode_from frames drone mode ≡ ok o) × (o.passed ≡ true)
  unfolding never_mode_from
  OtherMode-never_mode_from [] drone mode h = (_, refl, refl)
  OtherMode-never_mode_from (frame ∷ frames) drone mode (h, hs) =
      let (o, e, p) = OtherMode-never_mode_from frames drone mode hs in
      (o, ground (arith, h.there, h.differs), p)

  -- The check that a drone never enters a mode passes exactly when every frame of the trace shows
  -- the drone, and in another mode.
  never_mode-OtherMode :
      (trace : Trace F) (drone mode : String)
      → ((o : AssertionOutcome F)
          → never_mode trace drone mode ≡ ok o
          → o.passed ≡ true
          → All (OtherMode drone mode) trace.frames)
        × (All (OtherMode drone mode) trace.frames
            → (o : AssertionOutcome F) × (never_mode trace drone mode ≡ ok o) × (o.passed ≡ true))
  unfolding never_mode
  never_mode-OtherMode trace drone mode = (
    never_mode_from-OtherMode trace.frames drone mode,
    OtherMode-never_mode_from trace.frames drone mode,
  )

  abbrev pub IsDown : DroneSample F → Type 0
  IsDown s = (s.armed ≡ false) × (s.airborne ≡ false)

  still_up-IsDown :
      (ss : List (DroneSample F))
      → (ltb 0 (length (still_up ss)) ≡ false → All IsDown ss)
        × (All IsDown ss → ltb 0 (length (still_up ss)) ≡ false)
  unfolding still_up
  still_up-IsDown [] = (λ h. tt, λ h. refl)
  still_up-IsDown (s ∷ ss) =
      let (there, back) = still_up-IsDown ss in
      (
        λ h. ((ground arith, ground arith), there (ground arith)),
        λ (h, hs). ground (arith, back hs),
      )

module _ {F : Type 0} ⦃f : Float F⦄ where
  up_breaches_some : (at : F) (ss : List (DroneSample F)) → length (up_breaches at ss) ≡ length ss
  unfolding up_breaches
  up_breaches_some at [] = refl
  up_breaches_some at (s ∷ ss) = ap suc (up_breaches_some at ss)

  -- The check that all drones have landed by a time raises when the trace is empty. Otherwise it
  -- passes exactly when, in the last frame up to that time, or in the first where there is none,
  -- every drone is disarmed and on the ground; a violation is named for each that is not.
  all_landed-IsDown :
      (trace : Trace F) (by : F)
      → (last_of (frames_until trace.frames by) ≡ none → all_landed trace by ≡ err no_frame)
        × ((last : Frame F)
            → last_of (frames_until trace.frames by) ≡ some last
            → (o : AssertionOutcome F) × (all_landed trace by ≡ ok o)
              × (o.passed ≡ true → All IsDown last.drones)
              × (All IsDown last.drones → o.passed ≡ true)
              × (length o.violations ≡ length (still_up last.drones)))
  unfolding all_landed
  all_landed-IsDown trace by = (
    λ e. ground arith,
    λ last e.
        let (there, back) = still_up-IsDown last.drones in
        let flying = still_up last.drones in
        let count = up_breaches_some last.t flying in
        let failed = judged "all_landed" none "s" (up_breaches last.t flying) in
        elim (Bool-cases (ltb 0 (length flying))) [
          | inl up ↦
              let not_passed : failed.passed ≡ false = ground (arith, count) in
              (
                failed,
                rw (e, up, all_landed) refl,
                λ p. absurd (ground (arith, not_passed)),
                λ d. absurd (ground (arith, back d)),
                count,
              )
          | inr down ↦
              let frames = frames_until trace.frames by in
              let since = landed_since last.t (reversed frames) in
              let passed = judged "all_landed" (some since) "s" [] in
              (passed, rw (e, down, all_landed) refl, λ p. there down, λ d. refl, ground arith)
        ],
  )
