-- ===== src/Reference/Chatter.antt =====
-- The messages that the reference drones send of themselves, and what a drone that follows none
-- makes of them.
use swarmsim.Base.{
  none, true, false, [], ◌∷◌, List, String, ◌++◌, refl, ap, ◌≡◌, inl, inr, arith, All, Bool-cases,
  Option-cases, Bool,
}
use swarmsim.Float.{Float}
use swarmsim.Errors.{Result, ok, Result-cases, ok-injective}
use swarmsim.Vehicle.{Observation, Actuation}
use swarmsim.Controller
use swarmsim.Reference.{
  ReferenceDrone, Message, Body, assignment, slot_given, command_given, pose, progress_made,
  telemetry, receive, receive_body, receive_all, send, step, to_world, reading_of, progress_is_due,
  follow,
}
use swarmsim.Commands.{mode_for_command}

module _ {F : Type 0} where
  abbrev pub is_chatter : Message F → Bool
  is_chatter m = elim m.body [
    | pose p ↦ true
    | progress_made p ↦ true
    | telemetry t ↦ true
    | _ ↦ false
  ]

  abbrev pub Chatter : List (Message F) → Type 0
  Chatter ms = All (λ m. is_chatter m ≡ true) ms

  pub Chatter-append : (xs ys : List (Message F)) → Chatter xs → Chatter ys → Chatter (xs ++ ys)
  Chatter-append [] ys h k = k
  Chatter-append (x ∷ xs) ys (here, h) k = (here, Chatter-append xs ys h k)

  receive-Chatter :
      (d : ReferenceDrone F) (now : F) (sender : String) (recipient : String) (body : Body F)
      → is_chatter (record { sender = sender; recipient = recipient; body = body }) ≡ true
      → d.leader ≡ none
      → receive_body d now sender body ≡ (d, ok tt)
  unfolding receive_body
  receive-Chatter d now sender recipient (pose p) h alone = rw (alone) refl
  receive-Chatter d now sender recipient (progress_made p) h alone = rw (alone) refl
  receive-Chatter d now sender recipient (telemetry t) h alone = refl
  receive-Chatter d now sender recipient (assignment m w) h alone = absurd (cc)
  receive-Chatter d now sender recipient (slot_given m l o) h alone = absurd (cc)
  receive-Chatter d now sender recipient (command_given n) h alone = absurd (cc)

  pub receive_all-Chatter :
      (ms : List (Message F)) (d : ReferenceDrone F) (now : F)
      → Chatter ms
      → d.leader ≡ none
      → receive_all d now ms ≡ (d, ok tt)
  unfolding receive_all
  receive_all-Chatter [] d now h alone = refl
  receive_all-Chatter (m ∷ ms) d now (here, h) alone =
      let heard : receive d now m ≡ (d, ok tt) =
        unfold receive in (receive-Chatter d now m.sender m.recipient m.body here alone) in
      let fine : (receive d now m).1 ≡ ok tt =
        ap (λ (r : ReferenceDrone F × Result (Unit {0})). r.1) heard in
      let same : (receive d now m).0 ≡ d =
        ap (λ (r : ReferenceDrone F × Result (Unit {0})). r.0) heard in
      rw (fine, receive_all, same) (receive_all-Chatter ms d now h alone)

  command_heard :
      (d : ReferenceDrone F) (now : F) (message : Message F) (name mode : String)
      → message.body ≡ command_given name
      → mode_for_command name ≡ ok mode
      → ((receive d now message).1 ≡ ok tt) × ((receive d now message).0.leader ≡ none)
  unfolding receive Controller.command Controller.handover follow
  command_heard d now message name mode b e = ground arith

  -- After a swarm command a drone follows none, so what it hears of the others changes nothing.
  pub receive_all-command :
      (ms : List (Message F)) (d : ReferenceDrone F) (now : F) (message : Message F)
      (name mode : String)
      → Chatter ms
      → message.body ≡ command_given name
      → mode_for_command name ≡ ok mode
      → receive_all d now (message ∷ ms) ≡ receive_all d now (message ∷ [])
  unfolding receive_all
  receive_all-command ms d now message name mode h b e =
      let (heard, alone) = command_heard d now message name mode b e in
      rw (heard, receive_all) (receive_all-Chatter ms (receive d now message).0 now h alone)

module _ {F : Type 0} ⦃f : Float F⦄ where
  send-Chatter :
      (d : ReferenceDrone F) (now : F) (seen : Observation F) → Chatter (send d now seen).1
  unfolding send to_world
  send-Chatter d now seen =
      let due = progress_is_due d now (Controller.progress d.controller) in
      elim (Option-cases (to_world d seen.local_position)) [
        | inl e ↦ elim (Bool-cases due) [
          | inl told ↦ rw (e, told) (refl, (refl, tt))
          | inr silent ↦ rw (e, silent) (refl, tt)
        ]
        | inr (p, e) ↦ elim (Bool-cases due) [
          | inl told ↦ rw (e, told) (refl, (refl, (refl, tt)))
          | inr silent ↦ rw (e, silent) (refl, (refl, tt))
        ]
      ]

  pub step-Chatter :
      (d : ReferenceDrone F) (now : F) (seen : Observation F) (inbox : List (Message F))
      (act : Actuation F) (outbox : List (Message F))
      → (step d now seen inbox).1 ≡ ok (act, outbox)
      → Chatter outbox
  unfolding step
  step-Chatter d now seen inbox act outbox h =
      let d₁ = (receive_all d now inbox).0 in
      let ticked = Controller.tick d₁.controller (reading_of d₁ now seen) in
      elim (Result-cases (receive_all d now inbox).1) [
        | inr (x, r) ↦ absurd (ground arith)
        | inl (done, r) ↦ elim (Result-cases ticked.1) [
          | inr (x, k) ↦ absurd (ground arith)
          | inl (out, k) ↦
              let d₂ = record d₁ { controller = ticked.0 } in
              let sent : (send d₂ now seen).1 ≡ outbox =
                ap (λ (o : Actuation F × List (Message F)). o.1)
                  (ok-injective (rw (r, k, step) at h)) in
              rw (sent) at (send-Chatter d₂ now seen)
        ]
      ]

  -- A step depends on its messages only by what the drone makes of them.
  pub step_alike :
      (d : ReferenceDrone F) (now : F) (seen : Observation F) (xs ys : List (Message F))
      → receive_all d now xs ≡ receive_all d now ys
      → (step d now seen xs).1 ≡ (step d now seen ys).1
  unfolding step
  step_alike d now seen xs ys e =
      let drone = ap (λ (r : ReferenceDrone F × Result (Unit {0})). r.0) e in
      let result = ap (λ (r : ReferenceDrone F × Result (Unit {0})). r.1) e in
      ground (arith, drone, result)
