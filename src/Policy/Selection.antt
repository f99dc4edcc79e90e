-- ===== src/Policy/Selection.antt =====
-- Which policy is in force.
use knpodly.Base.{◌≡◌, refl, true, false, Option, List, [], ◌∷◌, All, Among, if◌then◌else◌}
use knpodly.Models.{VmLimitPolicy, is_true}
use knpodly.World.{World, Env}
use knpodly.Policy.{
  newer, most_recent, first_by_update, or_fallback, active_policies, get_active_policy,
}

-- An active row of the table that no active row is newer than.
pub record IsInForce (policies : List VmLimitPolicy) (p : VmLimitPolicy) : Type 0 where
  pub stored : Among p policies
  pub active : is_true p.is_active ≡ true
  pub newest :
      All (λ q. is_true q.is_active ≡ true → newer q.updated_at p.updated_at ≡ false) policies

abbrev newer_of : VmLimitPolicy → VmLimitPolicy → VmLimitPolicy
newer_of p best = if newer p.updated_at best.updated_at then p else best

module _ {H : Type 0} (env : Env H) (w : World H) where
  -- Where one row is active, it is in force.
  pub get_active_policy-single :
      (p : VmLimitPolicy) → active_policies w.policies ≡ p ∷ [] → get_active_policy env w ≡ p
  unfolding get_active_policy first_by_update most_recent or_fallback
  get_active_policy-single p e = rw e refl
