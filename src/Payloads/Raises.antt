-- ===== src/Payloads/Raises.antt =====
-- What the parsers of payloads raise, and what they accept (mission_planning.py).
use swarmsim.Base.{
  none, some, true, false, inl, inr, refl, [], ◌∷◌, String, Option, List, ◌≡◌, Bool-cases,
}
use swarmsim.Int.{pos, negsuc}
use swarmsim.Float.{Float}
use swarmsim.Errors.{
  Result, Error, ok, err, ◌>>=◌, or_raise, is_value_error, malformed_field, missing_field, not_json,
  bad_uuid, not_an_object, bad_version, not_a_float,
}
use swarmsim.Json.{
  null, is_null, Json, Members, Conversions, object, array, number, text, find_member, get, boolean,
  integer,
}
use swarmsim.Payloads.{
  payload_of, require_version, field, iterate, vector_of, float_of, floats_of, waypoint_of,
  waypoints_of, path_of, require_uuid, optional_uuid, is_version,
}

-- Whatever a call raises has a property.
pub record Raises {ℓ} {A : Type ℓ} (P : Error → Type 0) (r : Result A) : Type ℓ where
  pub at : (e : Error) → r ≡ err e → P e

module _ {ℓ κ} {A : Type ℓ} {B : Type κ} {P : Error → Type 0} where
  pub Raises-bind :
      (m : Result A) (k : A → Result B)
      → Raises P m
      → ((a : A) → m ≡ ok a → Raises P (k a))
      → Raises P (m >>= k)
  Raises-bind (ok a) k h hk = hk a refl
  Raises-bind (err x) k h hk = record { at = λ e r. h.at e (cc) }

module _ {ℓ} {A : Type ℓ} {P : Error → Type 0} where
  pub Raises-ok : (a : A) → Raises P (ok a)
  Raises-ok a = record { at = λ e r. absurd (cc) }

  pub Raises-err : (x : Error) → P x → Raises {A = A} P (err x)
  Raises-err x p = record { at = λ e r. let same : x ≡ e = cc in rw same at p }

  pub Raises-or_raise : (o : Option A) (x : Error) → P x → Raises P (or_raise o x)
  Raises-or_raise none x p = Raises-err x p
  Raises-or_raise (some a) x p = Raises-ok a

-- The steps raise nothing but a ValueError, where that has the property.
module _ {F : Type 0} {P : Error → Type 0}
    (allowed : (e : Error) → is_value_error e ≡ true → P e) where
  pub Raises-iterate : (value : Json F) → Raises P (iterate value)
  unfolding iterate
  Raises-iterate null = Raises-err malformed_field (allowed malformed_field refl)
  Raises-iterate (boolean b) = Raises-err malformed_field (allowed malformed_field refl)
  Raises-iterate (integer i) = Raises-err malformed_field (allowed malformed_field refl)
  Raises-iterate (number x) = Raises-err malformed_field (allowed malformed_field refl)
  Raises-iterate (text s) = Raises-ok _
  Raises-iterate (array xs) = Raises-ok _
  Raises-iterate (object d) = Raises-ok _

  pub Raises-vector_of : (xs : List F) → Raises P (vector_of xs)
  unfolding vector_of
  Raises-vector_of [] = Raises-err malformed_field (allowed malformed_field refl)
  Raises-vector_of (x ∷ []) = Raises-err malformed_field (allowed malformed_field refl)
  Raises-vector_of (x ∷ y ∷ []) = Raises-err malformed_field (allowed malformed_field refl)
  Raises-vector_of (x ∷ y ∷ z ∷ []) = Raises-ok _
  Raises-vector_of (x ∷ y ∷ z ∷ w ∷ rest) =
      Raises-err malformed_field (allowed malformed_field refl)

  pub Raises-field : (key : String) (payload : Members F) → Raises P (field key payload)
  unfolding field
  Raises-field key payload =
      Raises-or_raise (find_member key payload) missing_field (allowed missing_field refl)

  pub Raises-payload_of : (loaded : Option (Json F)) → Raises P (payload_of loaded)
  unfolding payload_of
  Raises-payload_of none = Raises-err not_json (allowed not_json refl)
  Raises-payload_of (some null) = Raises-err not_an_object (allowed not_an_object refl)
  Raises-payload_of (some (boolean b)) = Raises-err not_an_object (allowed not_an_object refl)
  Raises-payload_of (some (integer i)) = Raises-err not_an_object (allowed not_an_object refl)
  Raises-payload_of (some (number x)) = Raises-err not_an_object (allowed not_an_object refl)
  Raises-payload_of (some (text s)) = Raises-err not_an_object (allowed not_an_object refl)
  Raises-payload_of (some (array xs)) = Raises-err not_an_object (allowed not_an_object refl)
  Raises-payload_of (some (object d)) = Raises-ok _

  module _ ⦃f : Float F⦄ (python : Conversions F) where
    pub Raises-require_version : (payload : Members F) → Raises P (require_version payload)
    unfolding require_version
    Raises-require_version payload = elim (Bool-cases (is_version (get "version" payload))) [
      | inl e ↦ rw e (Raises-ok tt)
      | inr e ↦ rw e (Raises-err bad_version (allowed bad_version refl))
    ]

    pub Raises-float_of : (value : Json F) → Raises P (float_of python value)
    unfolding float_of
    Raises-float_of null = Raises-err malformed_field (allowed malformed_field refl)
    Raises-float_of (boolean true) = Raises-ok _
    Raises-float_of (boolean false) = Raises-ok _
    Raises-float_of (integer (pos n)) = Raises-ok _
    Raises-float_of (integer (negsuc n)) = Raises-ok _
    Raises-float_of (number x) = Raises-ok _
    Raises-float_of (text s) =
        Raises-or_raise (python.float_of_text s) not_a_float (allowed not_a_float refl)
    Raises-float_of (array xs) = Raises-err malformed_field (allowed malformed_field refl)
    Raises-float_of (object d) = Raises-err malformed_field (allowed malformed_field refl)

    pub Raises-floats_of : (cs : List (Json F)) → Raises P (floats_of python cs)
    unfolding floats_of
    Raises-floats_of [] = Raises-ok _
    Raises-floats_of (c ∷ cs) =
        Raises-bind (float_of python c) _ (Raises-float_of c)
          λ x e. Raises-bind (floats_of python cs) _ (Raises-floats_of cs) λ xs e'. Raises-ok _

    pub Raises-waypoint_of : (value : Json F) → Raises P (waypoint_of python value)
    unfolding waypoint_of
    Raises-waypoint_of value = Raises-bind (iterate value) _ (Raises-iterate value) λ cs e.
        Raises-bind (floats_of python cs) _ (Raises-floats_of cs) λ xs e'. Raises-vector_of xs

    pub Raises-waypoints_of : (vs : List (Json F)) → Raises P (waypoints_of python vs)
    unfolding waypoints_of
    Raises-waypoints_of [] = Raises-ok _
    Raises-waypoints_of (v ∷ vs) =
        Raises-bind (waypoint_of python v) _ (Raises-waypoint_of v) λ w e.
          Raises-bind (waypoints_of python vs) _ (Raises-waypoints_of vs) λ ws e'. Raises-ok _

    pub Raises-path_of : (value : Json F) → Raises P (path_of python value)
    unfolding path_of
    Raises-path_of value =
        Raises-bind (iterate value) _ (Raises-iterate value) λ vs e. Raises-waypoints_of vs

    pub Raises-require_uuid : (value : Json F) → Raises P (require_uuid python value)
    unfolding require_uuid
    Raises-require_uuid value =
        Raises-or_raise (python.uuid_of (python.str_of value)) bad_uuid (allowed bad_uuid refl)

    pub Raises-optional_uuid : (value : Json F) → Raises P (optional_uuid python value)
    unfolding optional_uuid
    Raises-optional_uuid value = elim (Bool-cases (is_null value)) [
      | inl e ↦ rw (e, optional_uuid) (Raises-ok _)
      | inr e ↦
          rw (e, optional_uuid)
            (Raises-bind (require_uuid python value) _ (Raises-require_uuid value)
              λ id e'. Raises-ok _)
    ]
