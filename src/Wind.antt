-- ===== src/Wind.antt =====
-- scenarios/sim.py: the wind of a run, which every drone shares, and the configuration of a world.
use swarmsim.Base.{if◌then◌else◌}
use swarmsim.Float.{Float}
use swarmsim.Trajectory.{Vector3, ◌+ᵥ◌, vector}
use swarmsim.Vehicle.{VehicleLimits, greater}

pub record WorldConfig (F : Type 0) : Type 0 where
  pub dt : F
  pub wind_mean : Vector3 F
  pub wind_gust_std : F
  pub gust_time_constant : F
  pub gps_noise_std : F
  pub battery_drain : F
  pub limits : VehicleLimits F

pub record Wind (F : Type 0) : Type 0 where
  pub mean : Vector3 F
  pub std : F
  pub tau : F
  pub gust : Vector3 F

module _ {F : Type 0} ⦃f : Float F⦄ where
  -- `Wind.__init__`
  unfoldable pub new_wind : WorldConfig F → Wind F
  new_wind config = record {
    mean = config.wind_mean;
    std = config.wind_gust_std;
    tau = greater config.gust_time_constant config.dt;
    gust = vector (f.of_nat 0) (f.of_nat 0) (f.of_nat 0);
  }

  -- `Wind.step`; `gauss` has the three draws of the generator, of these standard deviations.
  unfoldable pub blow : Wind F → F → (F → F → F → Vector3 F) → Wind F × Vector3 F
  blow w dt gauss =
      let decay = f.exp (f.neg (f.div dt w.tau)) in
      let scale = f.mul w.std (f.sqrt (f.sub (f.of_nat 1) (f.mul decay decay))) in
      let draw = gauss scale scale (f.mul scale (f.div (f.of_nat 3) (f.of_nat 10))) in
      let old = w.gust in
      let w' =
        if f.lt (f.of_nat 0) w.std
        then record w {
          gust =
              vector (f.add (f.mul old.x decay) draw.x) (f.add (f.mul old.y decay) draw.y)
                (f.add (f.mul old.z decay) draw.z);
        }
        else w in
      (w', w'.mean +ᵥ w'.gust)
