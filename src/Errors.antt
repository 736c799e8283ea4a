-- ===== src/Errors.antt =====
-- What the code raises, and results that may be such an error.
use swarmsim.Base.{◌≡◌, refl, ap, ◌⊎◌, inl, inr, Bool, true, false, Option, none, some, true, false}

pub data Error : Type 0 where
  -- ValueError of trajectory.py, formation.py and offboard.py
  bad_max_step bad_count bad_warmup : Error
  -- ValueError of commands.py and drone_controller.py
  unknown_command empty_path : Error
  -- ValueError of mission_planning.py
  bad_drone_count no_waypoints unknown_type too_few_drones bad_version bad_uuid : Error
  missing_field malformed_field unknown_formation not_an_object not_json : Error
  not_a_float not_an_int : Error
  -- ValueError of frames.py
  bad_pose : Error
  -- the AttributeError of `.get` on what is no dict
  no_get : Error
  -- the TypeError of a list or dict as a key, and the OverflowError of `int` of an infinity
  unhashable overflow : Error
  -- the IndexError of `d.split("_")[1]`, and the ValueError of `int(...)` on that part
  id_without_part id_not_a_number : Error
  -- the KeyError of `FORMATIONS[...]`
  no_such_formation : Error
  -- the StopIteration of `next` and the IndexError of `[-1]` in scenarios/assertions.py
  no_sample no_frame : Error
  -- the KeyError of `vehicles[...]` in scenarios/harness.py
  no_such_drone : Error

-- What a call that can raise ends in.
pub data Result {ℓ} (V : Type ℓ) : Type ℓ where
  err : (raised : Error) → Result V
  ok : (value : V) → Result V

-- The statements that follow a call run where it did not raise.
infixl 5 ◌>>=◌
abbrev pub ◌>>=◌ {ℓ κ} : {V : Type ℓ} {W : Type κ} → Result V → (V → Result W) → Result W
call >>= next = elim call [ err raised ↦ err raised | ok value ↦ next value ]

infixl 5 ◌>>◌
abbrev pub ◌>>◌ {κ} : {W : Type κ} → Result (Unit {0}) → Result W → Result W
test >> next = elim test [ err raised ↦ err raised | ok done ↦ next ]

-- `if test: raise ...`
abbrev pub raise_if : Bool → Error → Result (Unit {0})
raise_if true e = err e
raise_if false e = ok tt

abbrev pub or_raise {ℓ} : {A : Type ℓ} → Option A → Error → Result A
or_raise none e = err e
or_raise (some a) e = ok a

abbrev pub map_result {ℓ κ} : {A : Type ℓ} {B : Type κ} → (A → B) → Result A → Result B
map_result f (ok a) = ok (f a)
map_result f (err e) = err e

pub Result-cases {ℓ} :
    {A : Type ℓ} (r : Result A) → ((a : A) × (r ≡ ok a)) ⊎ ((e : Error) × (r ≡ err e))
Result-cases (ok a) = inl (a, refl)
Result-cases (err e) = inr (e, refl)

pub ok-injective {ℓ} : {A : Type ℓ} {a b : A} → ok a ≡ ok b → a ≡ b
ok-injective {a = a} e = ap (λ r. elim r [ ok v ↦ v | err x ↦ a ]) e

abbrev pub is_ok {ℓ} : {A : Type ℓ} → Result A → Bool
is_ok (ok a) = true
is_ok (err e) = false

-- `isinstance(exc, ValueError)`
abbrev pub is_value_error : Error → Bool
is_value_error id_without_part = false
is_value_error no_such_formation = false
is_value_error no_sample = false
is_value_error no_frame = false
is_value_error no_such_drone = false
is_value_error unhashable = false
is_value_error no_get = false
is_value_error overflow = false
is_value_error _ = true
