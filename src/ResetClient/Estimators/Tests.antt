-- ===== src/ResetClient/Estimators/Tests.antt =====
-- The offset estimator on a concrete pose.
use xgc2_ugv_controller.Base.{◌^◌, ℤ, pos, arith}
use xgc2_ugv_controller.Floating.Fixed.{fixed_double}
use xgc2_ugv_controller.ResetClient.Protocol.{default_pose}
use xgc2_ugv_controller.ResetClient.Estimators.{EllEstimator, new_ell, add_ell}
use xgc2_ugv_controller.ResetClient.Estimators.Bounds.{IsBounded, add_ell-IsBounded}

abbrev fresh_estimator : EllEstimator ℤ
fresh_estimator = new_ell (pos (10 ^ 9))

fresh_estimator-IsBounded : IsBounded fresh_estimator
fresh_estimator-IsBounded = record { fast_bounded = omega arith; slow_bounded = omega arith }

add_ell-IsBounded_example : IsBounded (add_ell default_pose fresh_estimator)
add_ell-IsBounded_example = add_ell-IsBounded default_pose fresh_estimator fresh_estimator-IsBounded
