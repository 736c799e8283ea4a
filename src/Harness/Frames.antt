-- ===== src/Harness/Frames.antt =====
-- The trace that a run leaves: a frame for every step, with a sample of every drone.
use mathlib.Core.List.{append-nil, append_assoc}
use swarmsim.Base.{
  some, [], ◌∷◌, zero, suc, ℕ, List, String, ◌++◌, ◌+◌, refl, sym, ap, ◌∙◌, ◌≡◌, inl, inr, arith,
  All, length, length-append, Bool-cases, Option-cases, ◌==◌,
}
use swarmsim.Float.{Float}
use swarmsim.Trajectory.{Vector3}
use swarmsim.Dict.{Dict, lookup, insert, keys}
use swarmsim.Errors.{ok, Result-cases, ok-injective}
use swarmsim.Vehicle.{observe}
use swarmsim.Reference.{Message}
use swarmsim.Assertions.{DroneSample, Frame}
use swarmsim.Wind.{blow}
use swarmsim.Network.{Inbox, without}
use swarmsim.Harness.{
  SystemUnderTest, Draws, World, Craft, happen, happen_all, step_crafts, move_crafts, samples_of,
  frame_of, advance, step, run, is_due, dt, time_of, mission_payload, command_payload,
}
use swarmsim.Scenario.{
  comms_loss_event, battery_event, command_event, mission_event, EventData, Event, ScenarioSpec,
}

module _ {F : Type 0} where
  abbrev pub names_in : List (DroneSample F) → List String
  names_in [] = []
  names_in (s ∷ ss) = s.drone_id ∷ names_in ss

  -- A frame has one sample of each drone, in the order of the fleet.
  abbrev pub Shows : List String → Frame F → Type 0
  Shows crew frame = names_in frame.drones ≡ crew

  All-append :
      (P : Frame F → Type 0) (xs ys : List (Frame F)) → All P xs → All P ys → All P (xs ++ ys)
  All-append P [] ys h k = k
  All-append P (x ∷ xs) ys (here, h) k = (here, All-append P xs ys h k)

module _ {F D : Type 0} where
  keys-insert_known :
      (name : String) (craft old : Craft F D) (crafts : Dict (Craft F D))
      → lookup name crafts ≡ some old
      → keys (insert name craft crafts) ≡ keys crafts
  unfolding lookup insert keys
  keys-insert_known name craft old [] h = absurd (cc)
  keys-insert_known name craft old ((other, c) ∷ crafts) h = elim (Bool-cases (other == name)) [
    | inl same ↦ rw (same) refl
    | inr apart ↦ rw (apart) (
        ap (λ (ns : List String). other ∷ ns)
          (keys-insert_known name craft old crafts (rw apart at h)))
  ]

module _ {F : Type 0} ⦃f : Float F⦄ {D : Type 0} where
  keys-move_crafts :
      (rate now : F) (disturbance : Vector3 F) (crafts : Dict (Craft F D))
      → keys (move_crafts rate now disturbance crafts) ≡ keys crafts
  unfolding move_crafts keys
  keys-move_crafts rate now disturbance [] = refl
  keys-move_crafts rate now disturbance ((name, c) ∷ crafts) =
      ap (λ (ns : List String). name ∷ ns) (keys-move_crafts rate now disturbance crafts)

  names_in-samples_of : (crafts : Dict (Craft F D)) → names_in (samples_of crafts) ≡ keys crafts
  unfolding samples_of keys
  names_in-samples_of [] = refl
  names_in-samples_of ((name, c) ∷ crafts) =
      ap (λ (ns : List String). name ∷ ns) (names_in-samples_of crafts)

module _ {F : Type 0} ⦃f : Float F⦄ {G D : Type 0} (sut : SystemUnderTest F G D)
    (s : ScenarioSpec F) where
  keys-step_crafts :
      (now : F) (noise : String → Vector3 F) (crafts : Dict (Craft F D)) (inbox : Inbox F)
      (out : Dict (Craft F D) × List (Message F))
      → step_crafts sut s now noise crafts inbox ≡ ok out
      → keys out.0 ≡ keys crafts
  unfolding step_crafts keys
  keys-step_crafts now noise [] inbox out h =
      ap (λ (o : Dict (Craft F D) × List (Message F)). keys o.0) (sym (ok-injective h))
  keys-step_crafts now noise ((name, c) ∷ crafts) inbox out h =
      let now_seen = observe c.vehicle (s.world).gps_noise_std (noise name) in
      elim (Result-cases (sut.drone_step c.software now now_seen (inbox name)).1) [
        | inr (x, e) ↦ absurd (ground arith)
        | inl (act, e) ↦ elim (Result-cases (step_crafts sut s now noise crafts inbox)) [
          | inr (x, later) ↦ absurd (ground arith)
          | inl (rest, later) ↦
              let parts = rw (e, later) at h in
              ap (λ (o : Dict (Craft F D) × List (Message F)). keys o.0) (sym (ok-injective parts))
              ∙ ap (λ (ns : List String). name ∷ ns)
                  (keys-step_crafts now noise crafts inbox rest later)
        ]
      ]

  -- The drones and the frames so far stay.
  record Keeps (w w' : World F G D) : Type 0 where
    same_crew : keys w'.crafts ≡ keys w.crafts
    same_frames : (w'.trace).frames ≡ (w.trace).frames

  Keeps-to : (w v w' : World F G D) → v ≡ w' → Keeps w v → Keeps w w'
  Keeps-to w v w' e h = record {
    same_crew = ap (λ (u : World F G D). keys u.crafts) (sym e) ∙ h.same_crew;
    same_frames = ap (λ (u : World F G D). (u.trace).frames) (sym e) ∙ h.same_frames;
  }

  happen-Keeps :
      (now : F) (w w' : World F G D) (index : ℕ) (event : EventData F)
      → happen sut s now w index event ≡ ok w'
      → Keeps w w'
  unfolding happen
  happen-Keeps now w w' index (mission_event mission) h =
      elim (Result-cases
        (sut.submit_mission w.ground (mission_payload (s.mission_ids index) mission)).1) [
          | inr (x, e) ↦ absurd (ground arith)
          | inl (done, e) ↦
              let same = ok-injective (rw (e) at h) in
              Keeps-to w _ w' same (record { same_crew = refl; same_frames = refl })
        ]
  happen-Keeps now w w' index (command_event name) h =
      elim (Result-cases (sut.submit_command w.ground (command_payload name)).1) [
        | inr (x, e) ↦ absurd (ground arith)
        | inl (done, e) ↦
            let same = ok-injective (rw (e) at h) in
            Keeps-to w _ w' same (record { same_crew = refl; same_frames = refl })
      ]
  happen-Keeps now w w' index (battery_event drone pct) h =
      elim (Option-cases (lookup drone w.crafts)) [
        | inl e ↦ absurd (ground arith)
        | inr (craft, e) ↦
            let same = ok-injective (rw (e) at h) in
            Keeps-to w _ w' same (record {
              same_crew = keys-insert_known drone _ craft w.crafts e;
              same_frames = refl;
            })
      ]
  happen-Keeps now w w' index (comms_loss_event drones duration) h =
      Keeps-to w _ w' (ok-injective h) (record { same_crew = refl; same_frames = refl })

  happen_all-Keeps :
      (now : F) (pending : List (ℕ × Event F)) (w w' : World F G D)
      → happen_all sut s now pending w ≡ ok w'
      → Keeps w w'
  unfolding happen_all
  happen_all-Keeps now [] w w' h =
      Keeps-to w _ w' (ok-injective h) (record { same_crew = refl; same_frames = refl })
  happen_all-Keeps now ((index, event) ∷ pending) w w' h = elim (Bool-cases (is_due now event)) [
    | inr later ↦
        Keeps-to w _ w' (ok-injective (rw (later, happen_all) at h))
          (record { same_crew = refl; same_frames = refl })
    | inl due ↦ elim (Result-cases (happen sut s now w index event.happens)) [
      | inr (x, e) ↦ absurd (ground arith)
      | inl (v, e) ↦
          let before = happen-Keeps now w v index event.happens e in
          let after = happen_all-Keeps now pending v w' (rw (due, happen_all, e) at h) in
          record {
            same_crew = after.same_crew ∙ before.same_crew;
            same_frames = after.same_frames ∙ before.same_frames;
          }
    ]
  ]

  -- From `w` on, `w'` has the same drones and `n` frames more, each with a sample of every drone.
  pub record Records (n : ℕ) (w w' : World F G D) : Type 0 where
    pub same_drones : keys w'.crafts ≡ keys w.crafts
    pub frames : List (Frame F)
    pub recorded : (w'.trace).frames ≡ (w.trace).frames ++ frames
    pub counted : length frames ≡ n
    pub complete : All (Shows (keys w.crafts)) frames

  advance-Records :
      (now : F) (draws : Draws F) (w w' : World F G D)
      → advance sut s now draws w ≡ ok w'
      → Records 1 w w'
  unfolding advance frame_of
  advance-Records now draws w w' h =
      let g = sut.ground_step w.ground now (w.inbox "ground") in
      elim (Result-cases (step_crafts sut s now draws.noise w.crafts (without "ground" w.inbox))) [
        | inr (x, e) ↦ absurd (ground arith)
        | inl (out, e) ↦ elim (Result-cases (sut.report g.0)) [
          | inr (x, r) ↦ absurd (ground arith)
          | inl (report, r) ↦
              let crafts =
                move_crafts (s.world).battery_drain now (blow w.wind dt draws.gauss).1 out.0 in
              let crew : keys crafts ≡ keys w.crafts =
                keys-move_crafts (s.world).battery_drain now (blow w.wind dt draws.gauss).1 out.0
                ∙ keys-step_crafts now draws.noise w.crafts (without "ground" w.inbox) out e in
              let same = sym (ok-injective (rw (e, r) at h)) in
              record {
                same_drones = ap (λ (u : World F G D). keys u.crafts) same ∙ crew;
                frames = frame_of now crafts report ∷ [];
                recorded = ap (λ (u : World F G D). (u.trace).frames) same;
                counted = refl;
                complete = (names_in-samples_of crafts ∙ crew, tt);
              }
        ]
      ]

  Records-step :
      (n : ℕ) (u v w w' : World F G D)
      → Keeps u v
      → Records 1 v w
      → Records n w w'
      → Records (suc n) u w'
  Records-step n u v w w' kept one rest = record {
    same_drones = rest.same_drones ∙ one.same_drones ∙ kept.same_crew;
    frames = one.frames ++ rest.frames;
    recorded =
        rest.recorded
        ∙ ap (λ (fs : List (Frame F)). fs ++ rest.frames)
            (one.recorded ∙ ap (λ (fs : List (Frame F)). fs ++ one.frames) kept.same_frames)
        ∙ append_assoc (u.trace).frames one.frames rest.frames;
    counted = omega (arith, length-append one.frames rest.frames, one.counted, rest.counted);
    complete =
        All-append (Shows (keys u.crafts)) one.frames rest.frames
          (rw (kept.same_crew) at one.complete)
          (rw (one.same_drones, kept.same_crew) at rest.complete);
  }

  -- A run that no error ends records one frame for each of its steps, and each frame has one sample
  -- of each drone of the scenario, in the order of the fleet; it neither loses nor adds a drone.
  pub run-Records :
      (left n : ℕ) (draws : ℕ → Draws F) (w w' : World F G D)
      → run sut s left n draws w ≡ ok w'
      → Records left w w'
  unfolding run step
  run-Records zero n draws w w' h =
      let same = sym (ok-injective h) in
      record {
        same_drones = ap (λ (u : World F G D). keys u.crafts) same;
        frames = [];
        recorded =
            ap (λ (u : World F G D). (u.trace).frames) same ∙ sym (append-nil (w.trace).frames);
        counted = refl;
        complete = tt;
      }
  run-Records (suc left) n draws w w' h =
      elim (Result-cases (happen_all sut s (time_of n) w.pending w)) [
        | inr (x, e) ↦ absurd (ground arith)
        | inl (u, e) ↦ elim (Result-cases (advance sut s (time_of n) (draws n) u)) [
          | inr (x, a) ↦ absurd (ground arith)
          | inl (v, a) ↦
              Records-step left w u v w' (happen_all-Keeps (time_of n) w.pending w u e)
                (advance-Records (time_of n) (draws n) u v a)
                (run-Records left (n + 1) draws v w' (rw (e, a) at h))
        ]
      ]
