-- ===== src/Offboard/Safety.antt =====
-- OffboardSequencer's invariant, and its requests on one tick (offboard.py).
use swarmsim.Base.{◌≤◌, ◌≡◌, true, false, List, [], ◌∷◌, arith, is_text}
use swarmsim.Float.{Float}
use swarmsim.Offboard.{
  request_mode, request_arm, active, Sequencer, Tick, is_armed, start, release, step, after,
}

module _ {F : Type 0} where
  -- The sequencer asks for OFFBOARD, asks for arming and flies only after a whole warm-up of
  -- setpoints.
  pub record IsWarm (s : Sequencer F) : Type 0 where
    pub asks_warm : s.phase ≡ request_mode → s.warmup_ticks ≤ s.streamed
    pub arms_warm : s.phase ≡ request_arm → s.warmup_ticks ≤ s.streamed
    pub flies_warm : s.phase ≡ active → s.warmup_ticks ≤ s.streamed

  pub start-IsWarm : (s : Sequencer F) → IsWarm (start s)
  unfolding start
  start-IsWarm s = ground arith

  pub release-IsWarm : (s : Sequencer F) → IsWarm (release s)
  unfolding release
  release-IsWarm s = ground arith

module _ {F : Type 0} ⦃f : Float F⦄ where
  pub step-IsWarm :
      (s : Sequencer F) (t : Tick F) → IsWarm s → IsWarm (step s t.now t.armed t.mode).0
  unfolding step
  step-IsWarm s t w = ground arith

  pub after-IsWarm : (s : Sequencer F) (ts : List (Tick F)) → IsWarm s → IsWarm (after s ts)
  unfolding after
  after-IsWarm s [] w = w
  after-IsWarm s (t ∷ ts) w = after-IsWarm (step s t.now t.armed t.mode).0 ts (step-IsWarm s t w)

  -- On a tick of a sequencer that is warm, a request for OFFBOARD or for arming comes with a
  -- setpoint, after a whole warm-up of setpoints. OFFBOARD is asked for only while the vehicle
  -- does not report it, and arming only while it reports OFFBOARD and not armed; one tick never
  -- asks for both.
  step_asks :
      (s : Sequencer F) (t : Tick F)
      → IsWarm s
      → let (s', out) = step s t.now t.armed t.mode in
        (out.ask_offboard ≡ true
          → (out.stream_setpoint ≡ true)
            × (s.warmup_ticks ≤ s.streamed)
            × (is_text t.mode "OFFBOARD" ≡ false))
        × (out.ask_arm ≡ true
            → (out.stream_setpoint ≡ true)
              × (s.warmup_ticks ≤ s.streamed)
              × (is_text t.mode "OFFBOARD" ≡ true)
              × (is_armed t.armed ≡ false)
              × (out.ask_offboard ≡ false))
  unfolding step
  step_asks s t w = ground arith
