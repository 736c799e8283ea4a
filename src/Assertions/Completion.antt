-- ===== src/Assertions/Completion.antt =====
-- What it says of a trace that a mission completes in time (scenarios/assertions.py).
use swarmsim.Float.{Float}
use swarmsim.Base.{
  some, true, false, inl, inr, [], ◌∷◌, String, List, Bool, ◌≡◌, is_text, Bool-cases, Option-cases,
  ◌&&◌, arith,
}
use swarmsim.Assertions.{Frame, Trace, last_of, mission_completes, completed_at}

module _ {F : Type 0} where
  abbrev pub reports : String → Frame F → Bool
  reports mission frame = is_text frame.reported_mission_id mission && frame.reported_complete

  -- The first frame that reports a mission complete is at `t`.
  pub data FirstReport (mission : String) (t : F) : List (Frame F) → Type 0 where
    now :
        (frame : Frame F) (frames : List (Frame F))
        → reports mission frame ≡ true
        → frame.t ≡ t
        → FirstReport mission t (frame ∷ frames)
    later :
        (frame : Frame F) (frames : List (Frame F))
        → reports mission frame ≡ false
        → FirstReport mission t frames
        → FirstReport mission t (frame ∷ frames)

  completed_at-FirstReport :
      (frames : List (Frame F)) (mission : String) (t : F)
      → completed_at frames mission ≡ some t
      → FirstReport mission t frames
  unfolding completed_at
  completed_at-FirstReport [] mission t e = absurd (cc)
  completed_at-FirstReport (frame ∷ frames) mission t e =
      elim (Bool-cases (reports mission frame)) [
        | inl yes_now ↦ now frame frames yes_now (ground arith)
        | inr not_yet ↦
            later frame frames not_yet (completed_at-FirstReport frames mission t (ground arith))
      ]

  FirstReport-completed_at :
      (frames : List (Frame F)) (mission : String) (t : F)
      → FirstReport mission t frames
      → completed_at frames mission ≡ some t
  unfolding completed_at
  FirstReport-completed_at [] mission t r = elim r [ ]
  FirstReport-completed_at (frame ∷ frames) mission t (now _ _ h e) = ground arith
  FirstReport-completed_at (frame ∷ frames) mission t (later _ _ h r) =
      ground (arith, FirstReport-completed_at frames mission t r)

module _ {F : Type 0} ⦃f : Float F⦄ where
  -- A mission was dispatched, and the last one that was is first reported complete in time.
  pub record InTime (trace : Trace F) (within : F) : Type 0 where
    pub dispatched : F
    pub mission : String
    pub last : last_of trace.missions ≡ some (dispatched, mission)
    pub completed : F
    pub first : FirstReport mission completed trace.frames
    pub soon : f.lt within (f.round (f.sub completed dispatched) 3) ≡ false

  -- The check that a mission completes within a time passes exactly when a mission was dispatched
  -- and the first frame that reports the last of them complete is no later after its dispatch.
  mission_completes-InTime :
      (trace : Trace F) (within : F)
      → ((mission_completes trace within).passed ≡ true → InTime trace within)
        × (InTime trace within → (mission_completes trace within).passed ≡ true)
  unfolding mission_completes
  mission_completes-InTime trace within = (
    λ p. elim (Option-cases (last_of trace.missions)) [
      | inl e ↦ absurd (ground arith)
      | inr ((dispatched, mission), e) ↦ elim (Option-cases (completed_at trace.frames mission)) [
        | inl c ↦ absurd (ground arith)
        | inr (t, c) ↦ record {
          dispatched = dispatched;
          mission = mission;
          last = e;
          completed = t;
          first = completed_at-FirstReport trace.frames mission t c;
          soon = ground arith;
        }
      ]
    ],
    λ i.
        let c = FirstReport-completed_at trace.frames i.mission i.completed i.first in
        ground (arith, c, i.last, i.soon),
  )
