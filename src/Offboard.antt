-- ===== src/Offboard.antt =====
-- offboard.py: the sequence that brings PX4 into OFFBOARD mode and arms it. A method returns the
-- new sequencer and its result.
pub mod Safety
pub mod Progress
use swarmsim.Base.{
  ℕ, ◌+◌, ◌≡◌, refl, Bool, true, false, not, ◌&&◌, Option, none, some, List, [], ◌∷◌, String, leb,
  ltb, is_some, is_text, if◌then◌else◌,
}
use swarmsim.Float.{Float}
use swarmsim.Errors.{Result, ok, err, bad_warmup}

pub data Phase : Type 0 where
  idle warmup request_mode request_arm active released : Phase

pub record OffboardStep : Type 0 where
  pub stream_setpoint : Bool
  pub ask_offboard : Bool
  pub ask_arm : Bool

pub record Sequencer (F : Type 0) : Type 0 where
  pub warmup_ticks : ℕ
  pub retry_interval : F
  pub phase : Phase
  pub streamed : ℕ
  pub last_request : Option F

abbrev pub quiet : OffboardStep
quiet = record { stream_setpoint = false; ask_offboard = false; ask_arm = false }

abbrev pub stream : Bool → Bool → OffboardStep
stream offboard arm = record { stream_setpoint = true; ask_offboard = offboard; ask_arm = arm }

-- `bool(armed)` where armed may be None.
abbrev pub is_armed : Option Bool → Bool
is_armed none = false
is_armed (some b) = b

module _ {F : Type 0} where
  -- `OffboardSequencer(warmup_ticks, retry_interval_s)`
  unfoldable pub new_sequencer : ℕ → F → Result (Sequencer F)
  new_sequencer warmup_ticks retry_interval =
      if ltb warmup_ticks 1
      then err bad_warmup
      else ok (record {
        warmup_ticks = warmup_ticks;
        retry_interval = retry_interval;
        phase = idle;
        streamed = 0;
        last_request = none;
      })

  unfoldable pub start : Sequencer F → Sequencer F
  start s = record s { phase = warmup; streamed = 0; last_request = none }

  unfoldable pub release : Sequencer F → Sequencer F
  release s = record s { phase = released }

  -- The end of `step`, where the vehicle flies in OFFBOARD.
  active_step : Sequencer F → Option String → Sequencer F × OffboardStep
  active_step s mode =
      if is_some mode && not (is_text mode "OFFBOARD")
      then (record s { phase = released }, quiet)
      else (s, stream false false)

module _ {F : Type 0} ⦃f : Float F⦄ where
  -- `self._last_request_s is None or now_s - self._last_request_s >= self.retry_interval_s`
  unfoldable pub is_due : F → Option F → F → Bool
  is_due now none interval = true
  is_due now (some last) interval = f.le interval (f.sub now last)

  due : Sequencer F → F → Sequencer F × Bool
  unfolding is_due
  due s now =
      if is_due now s.last_request s.retry_interval
      then (record s { last_request = some now }, true)
      else (s, false)

  ask_offboard_step : Sequencer F → F → Sequencer F × OffboardStep
  unfolding due
  ask_offboard_step s now = let (s', asked) = due s now in (s', stream asked false)

  arm_step : Sequencer F → F → Option Bool → Option String → Sequencer F × OffboardStep
  unfolding due ask_offboard_step active_step
  arm_step s now armed mode =
      if not (is_text mode "OFFBOARD")
      then ask_offboard_step (record s { phase = request_mode }) now
      else if is_armed armed
      then active_step (record s { phase = active }) mode
      else (let (s', asked) = due s now in (s', stream false asked))

  step_in : Phase → Sequencer F → F → Option Bool → Option String → Sequencer F × OffboardStep
  unfolding ask_offboard_step arm_step active_step
  step_in idle s now armed mode = (s, quiet)
  step_in released s now armed mode = (s, quiet)
  step_in warmup s now armed mode =
      let t = record s { streamed = s.streamed + 1 } in
      (
        if leb t.warmup_ticks t.streamed then record t { phase = request_mode } else t,
        stream false false,
      )
  step_in request_mode s now armed mode =
      if is_text mode "OFFBOARD"
      then arm_step (record s { phase = request_arm; last_request = none }) now armed mode
      else ask_offboard_step s now
  step_in request_arm s now armed mode = arm_step s now armed mode
  step_in active s now armed mode = active_step s mode

  -- `OffboardSequencer.step`
  unfoldable pub step : Sequencer F → F → Option Bool → Option String → Sequencer F × OffboardStep
  unfolding step_in
  step s now armed mode = step_in s.phase s now armed mode

-- What the sequencer is told on one tick.
pub record Tick (F : Type 0) : Type 0 where
  pub now : F
  pub armed : Option Bool
  pub mode : Option String

module _ {F : Type 0} ⦃f : Float F⦄ where
  -- The sequencer after a list of ticks.
  pub after : Sequencer F → List (Tick F) → Sequencer F
  after s [] = s
  after s (t ∷ ts) = after (step s t.now t.armed t.mode).0 ts
