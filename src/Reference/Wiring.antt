-- ===== src/Reference/Wiring.antt =====
-- The reference drone's wiring over any sequence of steps (scenarios/sut.py).
use swarmsim.Vehicle.{Observation}
use swarmsim.Errors.{Result-cases, ok, Error, err}
use swarmsim.Trajectory.{Vector3}
use swarmsim.Float.{Float}
use swarmsim.Base.{
  none, some, inl, inr, ◌≡◌, String, Option, arith, Option-cases, is_some, Bool, ◌||◌, true, refl,
  [], ◌∷◌, same_text, if_elim, if◌then◌else◌, ap, sym, ◌&&◌, is_text, eq_iff, ◌∙◌, not, ◌==◌, List,
  ℕ,
}
use swarmsim.Controller
use swarmsim.Controller.{
  Controller, keep_handing_over, hand_back, handover, target, fly, pursue, tick_task,
}
use swarmsim.Controller.Invariant
use swarmsim.Controller.Reachable
use swarmsim.Reference.{
  ReferenceDrone, DroneInfo, Message, Body, new_drone, receive, receive_all, receive_body,
  hear_progress, follow, send, step, assignment, slot_given, command_given, pose, progress_made,
  telemetry, progress_is_due, reading_of,
}

same_text_eq : (a b : Option String) → same_text a b ≡ true → a ≡ b
same_text_eq none none h = refl
same_text_eq none (some t) h = absurd (cc)
same_text_eq (some s) none h = absurd (cc)
same_text_eq (some s) (some t) h = ap some ((eq_iff s t).0 h)

module _ {F : Type 0} ⦃f : Float F⦄ where
  -- A tick keeps the leader, and never takes the vehicle back.
  record Keeps (c c' : Controller F) : Type 0 where
    same_leader : c'.leader ≡ c.leader
    still : c'.handover_mode ≡ none → c.handover_mode ≡ none

  Keeps-keep_handing_over :
      (c : Controller F) (now : F) (armed : Option Bool) (mode : Option String)
      → Keeps c (keep_handing_over c now armed mode).0
  unfolding keep_handing_over
  Keeps-keep_handing_over c now armed mode = ground arith

  Keeps-hand_back :
      (c : Controller F) (mode : String) (r : Controller.Reading F) → Keeps c (hand_back c mode r).0
  unfolding hand_back handover keep_handing_over
  Keeps-hand_back c mode r = ground arith

  Keeps-target :
      (c : Controller F) (p : Vector3 F) (leader : Option (Vector3 F))
      → Keeps c (target c p leader).0
  unfolding target
  Keeps-target c p leader = ground arith

  Keeps-fly :
      (c : Controller F) (r : Controller.Reading F) (goal : Vector3 F) → Keeps c (fly c r goal).0
  unfolding fly
  Keeps-fly c r goal = ground (
    arith,
    Keeps-hand_back (record c { complete = is_some c.queue || is_some c.leader }) "AUTO.LAND" r,
  )

  Keeps-pursue :
      (c : Controller F) (r : Controller.Reading F) (p : Vector3 F) → Keeps c (pursue c r p).0
  unfolding pursue
  Keeps-pursue c r p = elim (Result-cases (target c p r.leader_position).1) [
    | inl (none, t) ↦ ground (arith, Keeps-target c p r.leader_position)
    | inl (some goal, t) ↦ ground (
      arith,
      Keeps-target c p r.leader_position,
      Keeps-fly (target c p r.leader_position).0 r goal,
    )
    | inr (_, t) ↦ ground (arith, Keeps-target c p r.leader_position)
  ]

  Keeps-tick : (c : Controller F) (r : Controller.Reading F) → Keeps c (Controller.tick c r).0
  unfolding Controller.tick tick_task
  Keeps-tick c r = elim (Option-cases r.position) [
    | inl e ↦ ground (arith, Keeps-keep_handing_over c r.now r.armed r.mode)
    | inr (p, e) ↦ ground (
      arith,
      Keeps-keep_handing_over c r.now r.armed r.mode,
      Keeps-hand_back c "AUTO.RTL" r,
      Keeps-pursue c r p,
    )
  ]

module _ {F : Type 0} where
  pub record IsWired (d : ReferenceDrone F) : Type 0 where
    -- The drone listens to the leader that its controller follows, while the controller flies.
    pub listens : (d.controller).handover_mode ≡ none → d.leader ≡ (d.controller).leader
    -- Whenever a leader's position is known, so is when it arrived.
    pub timed : is_some d.leader_position ≡ is_some d.leader_heard
    pub sound : Controller.Invariant.IsValid d.controller

  command_hands :
      (c : Controller F) (name : String) (done : Unit {0})
      → (Controller.command c name).1 ≡ ok done
      → is_some (Controller.command c name).0.handover_mode ≡ true
  unfolding Controller.command handover
  command_hands c name done e = ground arith

  command_refused :
      (c : Controller F) (name : String) (e : Error)
      → (Controller.command c name).1 ≡ err e
      → (Controller.command c name).0 ≡ c
  unfolding Controller.command
  command_refused c name x e = ground arith

  follow-IsWired :
      (d : ReferenceDrone F) (leader : Option String)
      → is_some d.leader_position ≡ is_some d.leader_heard
      → Controller.Invariant.IsValid d.controller
      → ((d.controller).handover_mode ≡ none → leader ≡ (d.controller).leader)
      → IsWired (follow d leader)
  unfolding follow
  follow-IsWired d leader t v l =
      if_elim IsWired (same_text leader d.leader)
        (λ h. record {
          listens = λ m. sym (same_text_eq leader d.leader h) ∙ l m;
          timed = t;
          sound = v;
        })
        (λ h. record { listens = l; timed = refl; sound = v })

  hear_progress-IsWired :
      (d : ReferenceDrone F) (p : Controller.Progress) → IsWired d → IsWired (hear_progress d p)
  unfolding hear_progress
  hear_progress-IsWired d p w = by_mission p.mission_id
    where
      landed :
          (mission : String)
          → IsWired (record d { controller = Controller.leader_finished d.controller mission })
      landed mission = record {
        listens = unfold Controller.leader_finished in (λ m. ground (arith, w.listens));
        timed = w.timed;
        sound = Controller.Invariant.leader_finished-IsValid d.controller mission w.sound;
      }

      by_mission :
          (id : Option String)
          → IsWired (elim id [
            | none ↦ d
            | some mission ↦
                if p.complete && not (mission == "")
                then record d { controller = Controller.leader_finished d.controller mission }
                else d
          ])
      by_mission none = w
      by_mission (some mission) =
          if_elim IsWired (p.complete && not (mission == "")) (λ h. landed mission) (λ h. w)

  receive_body-IsWired :
      (d : ReferenceDrone F) (now : F) (sender : String) (body : Body F)
      → IsWired d
      → IsWired (receive_body d now sender body).0
  unfolding receive_body
  receive_body-IsWired d now sender (telemetry t) w = w
  receive_body-IsWired d now sender (pose position) w =
      if_elim IsWired (is_text d.leader sender)
        (λ h. record { listens = w.listens; timed = refl; sound = w.sound }) (λ h. w)
  receive_body-IsWired d now sender (progress_made p) w =
      if_elim IsWired (is_text d.leader sender) (λ h. hear_progress-IsWired d p w) (λ h. w)
  receive_body-IsWired d now sender (assignment mission []) w = unfold Controller.assign_path in w
  receive_body-IsWired d now sender (assignment mission (x ∷ xs)) w =
      let c = (Controller.assign_path d.controller mission (x ∷ xs)).0 in
      let v = Controller.Invariant.assign_path-IsValid d.controller mission (x ∷ xs) w.sound in
      let l : none ≡ c.leader = unfold Controller.assign_path Controller.begin in refl in
      unfold Controller.assign_path in
      (follow-IsWired (record d { controller = c }) none w.timed v (λ m. l))
  receive_body-IsWired d now sender (slot_given mission leader offset) w =
      let c = Controller.assign_slot d.controller mission leader offset in
      follow-IsWired (record d { controller = c }) (some leader) w.timed
        (Controller.Invariant.assign_slot-IsValid d.controller mission leader offset w.sound)
        (λ m. unfold Controller.assign_slot in refl)
  receive_body-IsWired d now sender (command_given name) w =
      let (c, result) = Controller.command d.controller name in
      elim (Result-cases result) [
        | inr (e, r) ↦
            rw (r, receive_body)
              (record {
                listens = λ m.
                    rw (command_refused d.controller name e r)
                      (w.listens (ground (arith, command_refused d.controller name e r)));
                timed = w.timed;
                sound = Controller.Invariant.command-IsValid d.controller name w.sound;
              })
        | inl (done, r) ↦
            rw (r, receive_body)
              (follow-IsWired (record d { controller = c }) none w.timed
                (Controller.Invariant.command-IsValid d.controller name w.sound)
                (λ m. absurd (ground (arith, command_hands d.controller name done r))))
      ]

  receive_all-IsWired :
      (inbox : List (Message F)) (d : ReferenceDrone F) (now : F)
      → IsWired d
      → IsWired (receive_all d now inbox).0
  unfolding receive_all receive
  receive_all-IsWired [] d now w = w
  receive_all-IsWired (message ∷ inbox) d now w =
      let w' = receive_body-IsWired d now message.sender message.body w in
      elim (Result-cases (receive d now message).1) [
        | inr (e, r) ↦ rw (r, receive_all) w'
        | inl (done, r) ↦
            rw (r, receive_all) (receive_all-IsWired inbox (receive d now message).0 now w')
      ]

module _ {F : Type 0} ⦃f : Float F⦄ where
  tick-IsWired :
      (d : ReferenceDrone F) (r : Controller.Reading F)
      → IsWired d
      → IsWired (record d { controller = (Controller.tick d.controller r).0 })
  tick-IsWired d r w =
      let k = Keeps-tick d.controller r in
      record {
        listens = λ m. w.listens (k.still m) ∙ sym k.same_leader;
        timed = w.timed;
        sound = Controller.Invariant.tick-IsValid d.controller r w.sound;
      }

  send-IsWired :
      (d : ReferenceDrone F) (now : F) (seen : Observation F)
      → IsWired d
      → IsWired (send d now seen).0
  unfolding send
  send-IsWired d now seen w =
      if_elim IsWired (progress_is_due d now (Controller.progress d.controller))
        (λ h. record { listens = w.listens; timed = w.timed; sound = w.sound }) (λ h. w)

  step-IsWired :
      (d : ReferenceDrone F) (now : F) (seen : Observation F) (inbox : List (Message F))
      → IsWired d
      → IsWired (step d now seen inbox).0
  unfolding step
  step-IsWired d now seen inbox w =
      let d₁ = (receive_all d now inbox).0 in
      let w₁ = receive_all-IsWired inbox d now w in
      let w₂ = tick-IsWired d₁ (reading_of d₁ now seen) w₁ in
      let ticked = Controller.tick d₁.controller (reading_of d₁ now seen) in
      let w₃ = send-IsWired (record d₁ { controller = ticked.0 }) now seen w₂ in
      elim (Result-cases (receive_all d now inbox).1) [
        | inr (e, r) ↦ rw (r, step) w₁
        | inl (done, r) ↦ elim (Result-cases ticked.1) [
          | inr (e, t) ↦ rw (r, t, step) w₂
          | inl (out, t) ↦ rw (r, t, step) w₃
        ]
      ]

  -- The drone after steps, each with what it sees and hears.
  pub steps : ReferenceDrone F → List (F × Observation F × List (Message F)) → ReferenceDrone F
  steps d [] = d
  steps d ((now, seen, inbox) ∷ rest) = steps (step d now seen inbox).0 rest

  steps_keep :
      (d : ReferenceDrone F) (inputs : List (F × Observation F × List (Message F)))
      → IsWired d
      → IsWired (steps d inputs)
  unfolding steps
  steps_keep d [] w = w
  steps_keep d ((now, seen, inbox) ∷ rest) w =
      steps_keep (step d now seen inbox).0 rest (step-IsWired d now seen inbox w)

  -- A drone that starts with a new controller, whatever it sees and hears, also where a message
  -- makes it raise: while its controller flies, it listens to the very leader that the controller
  -- follows, it knows when the leader's position arrived whenever it knows the position, and its
  -- controller is in a valid state.
  steps-IsWired :
      (info : DroneInfo F) (tolerance max_step : F) (warmup_ticks : ℕ) (retry timeout : F)
      (origin : Vector3 F) (c : Controller F) (inputs : List (F × Observation F × List (Message F)))
      → Controller.new_controller tolerance max_step warmup_ticks retry timeout origin ≡ ok c
      → IsWired (steps (new_drone info c) inputs)
  unfolding new_drone
  steps-IsWired info tolerance max_step warmup_ticks retry timeout origin c inputs e =
      steps_keep (new_drone info c) inputs (record {
        listens = unfold Controller.new_controller in (λ m. ground arith);
        timed = refl;
        sound =
            Controller.Reachable.new_controller-IsValid tolerance max_step warmup_ticks retry
              timeout origin c e;
      })
