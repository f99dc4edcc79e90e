-- ===== src/Policy.antt =====
-- backend/app/services/policy.py
pub mod Selection
use knpodly.Base.{
  Bool, true, false, Option, none, some, List, [], ◌∷◌, where_rows, ltb_ℤ, if◌then◌else◌,
}
use knpodly.Models.{Time, VmLimitPolicy, is_true}
use knpodly.Config.{Settings}
use knpodly.World.{World, Env}

-- `ORDER BY updated_at DESC`: does the first row come before the second one? (NULLs come first.)
abbrev pub newer : Option Time → Option Time → Bool
newer none none = false
newer none (some b) = true
newer (some a) none = false
newer (some a) (some b) = ltb_ℤ b a

most_recent : VmLimitPolicy → List VmLimitPolicy → VmLimitPolicy
most_recent best [] = best
most_recent best (p ∷ ps) = most_recent (if newer p.updated_at best.updated_at then p else best) ps

-- `.scalars().first()` of the ordered rows; rows of one timestamp stay in the order of the table
first_by_update : List VmLimitPolicy → Option VmLimitPolicy
unfolding most_recent
first_by_update [] = none
first_by_update (p ∷ ps) = some (most_recent p ps)

-- The object that is built where no row is active; it is never flushed.
unfoldable pub fallback_policy : Settings → VmLimitPolicy
fallback_policy settings = record {
  id = none;
  name = "fallback-defaults";
  max_session_minutes = settings.session_max_duration_minutes;
  max_extension_minutes = settings.session_max_extension_minutes;
  max_extensions = settings.session_max_extensions;
  idle_warning_minutes = settings.idle_warning_minutes;
  idle_timeout_minutes = settings.idle_timeout_minutes;
  max_concurrent_vms_total = settings.vm_max_concurrent_total;
  is_active = none;
  updated_by = none;
  updated_at = none;
}

abbrev pub active_policies : List VmLimitPolicy → List VmLimitPolicy
active_policies = where_rows (λ p. is_true p.is_active)

or_fallback : Settings → Option VmLimitPolicy → VmLimitPolicy
or_fallback settings (some policy) = policy
or_fallback settings none = fallback_policy settings

module _ {H : Type 0} where
  -- It only reads, so it is a function of the state.
  unfoldable pub get_active_policy : Env H → World H → VmLimitPolicy
  unfolding first_by_update or_fallback fallback_policy
  get_active_policy env w = or_fallback env.settings (first_by_update (active_policies w.policies))
