-- ===== src/ResetClient/Executor/Fields.antt =====
-- Reading the authority after a change of its permission or progress.
use xgc2_ugv_controller.Base.{Bool, true, false, ◌≡◌, refl, not}
use xgc2_ugv_controller.ResetClient.Executor.{
  Authority, Permission, Progress, authority_permission, authority_header, authority_active,
  with_permission, with_progress, is_done,
}

module _ {D : Type 0} where
  pub permission-with_permission :
      (p : Permission D) (a : Authority D) → authority_permission (with_permission p a) ≡ p
  permission-with_permission p (Authority.retirement h q) = refl
  permission-with_permission p (Authority.run r) = refl

  pub permission-with_progress :
      (g : Progress) (a : Authority D)
      → authority_permission (with_progress g a) ≡ authority_permission a
  permission-with_progress g (Authority.retirement h q) = refl
  permission-with_progress g (Authority.run r) = refl

  pub active-with_permission :
      (p : Permission D) (a : Authority D)
      → authority_active (with_permission p a) ≡ authority_active a
  active-with_permission p (Authority.retirement h q) = refl
  active-with_permission p (Authority.run r) = refl

  pub header-with_permission :
      (p : Permission D) (a : Authority D)
      → authority_header (with_permission p a) ≡ authority_header a
  header-with_permission p (Authority.retirement h q) = refl
  header-with_permission p (Authority.run r) = refl

  pub header-with_progress :
      (g : Progress) (a : Authority D) → authority_header (with_progress g a) ≡ authority_header a
  header-with_progress g (Authority.retirement h q) = refl
  header-with_progress g (Authority.run r) = refl

  -- An installed Run is active exactly while its progress is not `done`.
  pub active-with_progress :
      (g : Progress) (a : Authority D)
      → authority_active a ≡ true
      → authority_active (with_progress g a) ≡ not (is_done g)
  active-with_progress g (Authority.retirement h q) e = cc
  active-with_progress g (Authority.run r) e = refl

  pub active-with_progress_done :
      (b : Bool) (a : Authority D) → authority_active (with_progress (Progress.done b) a) ≡ false
  active-with_progress_done b (Authority.retirement h q) = refl
  active-with_progress_done b (Authority.run r) = refl

pub ruleset authority_laws = (
  permission-with_permission, permission-with_progress, active-with_permission,
  header-with_permission, header-with_progress, active-with_progress_done,
)
