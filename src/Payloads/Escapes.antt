-- ===== src/Payloads/Escapes.antt =====
-- What the parsers of payloads raise and accept (mission_planning.py).
use swarmsim.Errors.{Error, is_value_error, or_raise, unhashable, overflow, err, unknown_command}
use swarmsim.Payloads.{
  payload_of, formation_of, require_version, among, parse_command_payload, optional_uuid,
}
use swarmsim.Json.{Conversions, Members, Json, find_member, object, Items, number, array, get}
use swarmsim.Float.{Float}
use swarmsim.Base.{none, some, true, false, refl, [], ◌∷◌, ◌≡◌, Option}
use swarmsim.Payloads.Raises.{
  Raises, Raises-bind, Raises-ok, Raises-or_raise, Raises-payload_of, Raises-require_version,
  Raises-optional_uuid,
}

module _ {F : Type 0} ⦃f : Float F⦄ (python : Conversions F) where
  -- What may leave parse_mission_payload for a payload.
  pub data Escapes (payload : Members F) : Error → Type 0 where
    value_error : (e : Error) → is_value_error e ≡ true → Escapes payload e
    list_formation : (xs : Items F) → formation_of payload ≡ array xs → Escapes payload unhashable
    dict_formation : (d : Members F) → formation_of payload ≡ object d → Escapes payload unhashable
    endless_count :
        (x : F)
        → find_member "drone_count" payload ≡ some (number x)
        → python.whole_of x ≡ none
        → f.is_nan x ≡ false
        → Escapes payload overflow

  -- What parse_command_payload raises is a ValueError.
  pub parse_command_payload-Raises :
      (loaded : Option (Json F)) (e : Error)
      → parse_command_payload python loaded ≡ err e
      → is_value_error e ≡ true
  unfolding parse_command_payload
  parse_command_payload-Raises loaded e r =
      let v = λ (x : Error) (h : is_value_error x ≡ true). h in
      let steps : Raises (λ x. is_value_error x ≡ true) (parse_command_payload python loaded) =
        Raises-bind (payload_of loaded) _ (Raises-payload_of v loaded) λ payload _.
          Raises-bind (require_version payload) _ (Raises-require_version v python payload)
            λ done _.
              Raises-bind
                (or_raise (among ("rtl" ∷ "land" ∷ "hold" ∷ []) (get "command" payload))
                  unknown_command)
                _ (Raises-or_raise _ unknown_command refl)
                λ name _.
                  Raises-bind (optional_uuid python (get "mission_id" payload)) _
                    (Raises-optional_uuid v python (get "mission_id" payload))
                    λ mission_id _. Raises-ok _ in
      steps.at e r
