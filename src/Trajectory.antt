-- ===== src/Trajectory.antt =====
-- trajectory.py: position arithmetic, over any floats.
use swarmsim.Base.{if◌then◌else◌}
use swarmsim.Float.{Float}
use swarmsim.Errors.{Result, ok, err, bad_max_step}

pub record Vector3 (F : Type 0) : Type 0 where
  pub x : F
  pub y : F
  pub z : F

module _ {F : Type 0} where
  abbrev pub vector : F → F → F → Vector3 F
  vector a b c = record { x = a; y = b; z = c }

module _ {F : Type 0} ⦃f : Float F⦄ where
  infixl 65 ◌+ᵥ◌ ◌-ᵥ◌
  unfoldable pub ◌+ᵥ◌ : Vector3 F → Vector3 F → Vector3 F
  a +ᵥ b = vector (f.add a.x b.x) (f.add a.y b.y) (f.add a.z b.z)

  unfoldable pub ◌-ᵥ◌ : Vector3 F → Vector3 F → Vector3 F
  a -ᵥ b = vector (f.sub a.x b.x) (f.sub a.y b.y) (f.sub a.z b.z)

  unfoldable pub scale : Vector3 F → F → Vector3 F
  scale a k = vector (f.mul a.x k) (f.mul a.y k) (f.mul a.z k)

  -- `x**2` is written as a product.
  unfoldable pub norm : Vector3 F → F
  norm a = f.sqrt (f.add (f.add (f.mul a.x a.x) (f.mul a.y a.y)) (f.mul a.z a.z))

  unfoldable pub distance_to : Vector3 F → Vector3 F → F
  distance_to a b = norm (a -ᵥ b)

  unfoldable pub step_towards : Vector3 F → Vector3 F → F → Result (Vector3 F)
  step_towards current target max_step =
      let delta = target -ᵥ current in
      let distance = norm delta in
      if f.le max_step (f.of_nat 0)
      then err bad_max_step
      else if f.le distance max_step
      then ok target
      else ok (current +ᵥ scale delta (f.div max_step distance))
