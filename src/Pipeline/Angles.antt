-- ===== src/Pipeline/Angles.antt =====
-- `DegToRad`, `RadToDeg`, `XyToAngles` and `FeatureTransform` of src/controller_pipeline.hpp.
use imx8mp_pipe_line_setup.Prelude.{if◌then◌else◌}
use imx8mp_pipe_line_setup.Double.{Double, Libm}

module _ {W : Type 0} ⦃d : Double W⦄ where
  abbrev pub pi : W
  pi = d.decimal 314159265358979323846 20

  unfoldable pub deg_to_rad : W → W
  deg_to_rad deg = d.mul deg (d.div pi (d.decimal 180 0))

  unfoldable pub rad_to_deg : W → W
  rad_to_deg rad = d.mul rad (d.div (d.decimal 180 0) pi)

  -- `std::clamp`
  unfoldable pub clamp : W → W → W → W
  clamp v lo hi = if d.lt v lo then lo else if d.lt hi v then hi else v

  module _ ⦃m : Libm W⦄ where
    -- The pair (theta, phi).
    unfoldable pub xy_to_angles : W → W → W → W × W
    unfolding clamp
    xy_to_angles x y theta_limit =
        let phi = m.atan2 y x in
        let radius = m.sqrt (d.add (d.mul x x) (d.mul y y)) in
        let radius' = clamp radius (d.decimal 0 0) (d.decimal 1 0) in
        (d.mul radius' theta_limit, phi)

    -- The pair (u, v).
    unfoldable pub feature_transform : W → W → W × W
    unfolding rad_to_deg
    feature_transform theta phi =
        let theta_deg = rad_to_deg theta in
        (d.mul (m.cos phi) theta_deg, d.mul (m.sin phi) theta_deg)
