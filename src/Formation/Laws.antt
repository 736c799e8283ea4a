-- ===== src/Formation/Laws.antt =====
-- How many slots a formation has (formation.py).
use swarmsim.Trajectory.{Vector3}
use swarmsim.Formation.{slots_from, line_formation, v_formation, line_slot, v_slot}
use swarmsim.Float.{Float}
use swarmsim.Base.{zero, suc, refl, ℕ, length, ◌≡◌, ap, ◌+◌}

module _ {F : Type 0} ⦃f : Float F⦄ where
  length-slots_from : (slot : ℕ → Vector3 F) (start n : ℕ) → length (slots_from slot start n) ≡ n
  unfolding slots_from
  length-slots_from slot start zero = refl
  length-slots_from slot start (suc n) = ap suc (length-slots_from slot (start + 1) n)

  pub length-line_formation : (n : ℕ) (s : F) → length (line_formation n s) ≡ n
  unfolding line_formation
  length-line_formation n s = length-slots_from (line_slot s) 0 n

  pub length-v_formation : (n : ℕ) (s : F) → length (v_formation n s) ≡ n
  unfolding v_formation
  length-v_formation n s = length-slots_from (v_slot s) 0 n
