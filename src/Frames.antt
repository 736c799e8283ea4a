-- ===== src/Frames.antt =====
-- frames.py: between a drone's local frame and the world frame.
use swarmsim.Float.{Float}
use swarmsim.Base.{[], ◌∷◌, List, String, Option, ◌&&◌, not, leb, length}
use swarmsim.Errors.{Result, ok, ◌>>=◌, ◌>>◌, raise_if, or_raise, bad_pose, not_a_float}
use swarmsim.Trajectory.{Vector3, vector}

module _ {F : Type 0} ⦃f : Float F⦄ where
  unfoldable pub local_to_world : Vector3 F → Vector3 F → F → Vector3 F
  local_to_world local spawn home_height =
      vector (f.add local.x spawn.x) (f.add local.y spawn.y)
        (f.add (f.sub local.z home_height) spawn.z)

  unfoldable pub world_to_local : Vector3 F → Vector3 F → F → Vector3 F
  world_to_local world spawn home_height =
      vector (f.sub world.x spawn.x) (f.sub world.y spawn.y)
        (f.add (f.sub world.z spawn.z) home_height)

  -- `values[0]`, and what is left; a missing one is 0.0.
  abbrev first_of : List F → F × List F
  first_of [] = (f.of_nat 0, [])
  first_of (x ∷ xs) = (x, xs)

  -- `[float(p) for p in parts]`, where `float_of_text` has what `float` makes of a text
  unfoldable pub values_of : (String → Option F) → List String → Result (List F)
  values_of float_of_text [] = ok []
  values_of float_of_text (p ∷ ps) = or_raise (float_of_text p) not_a_float >>= λ x.
      values_of float_of_text ps >>= λ xs. ok (x ∷ xs)

  -- `parse_model_pose`, of the parts of `pose.split(",")` that are not blank
  unfoldable pub parse_model_pose : (String → Option F) → List String → Result (Vector3 F)
  unfolding values_of
  parse_model_pose float_of_text parts =
      raise_if (not (leb 1 (length parts) && leb (length parts) 6)) bad_pose
      >> (values_of float_of_text parts >>= λ values.
          let (x, later) = first_of values in
          let (y, rest) = first_of later in ok (vector x y (first_of rest).0))
