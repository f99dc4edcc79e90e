-- ===== src/Api/Admin/Fields.antt =====
-- The columns of the limits: what a request to change them gives, and the row that it changes.
use knpodly.Base.{
  ℤ, eq_ℤ, String, Bool, true, false, not, ◌||◌, Option, none, some, List, [], ◌∷◌, ◌==◌,
  if◌then◌else◌,
}
use knpodly.Text.{uuid_str}
use knpodly.Models.{Uuid, Time, User, VmLimitPolicy, JsonValue, number}

pub record VmLimitPolicyOut : Type 0 where
  pub name : String
  pub max_session_minutes : ℤ
  pub max_extension_minutes : ℤ
  pub max_extensions : ℤ
  pub idle_warning_minutes : ℤ
  pub idle_timeout_minutes : ℤ
  pub max_concurrent_vms_total : ℤ
  pub updated_at : Time

-- A field of VMLimitPolicyUpdate: left out of the request, given as null, or given as a number.
pub data Field : Type 0 where
  unset null : Field
  value : ℤ → Field

pub record VmLimitPolicyUpdate : Type 0 where
  pub max_session_minutes : Field
  pub max_extension_minutes : Field
  pub max_extensions : Field
  pub idle_warning_minutes : Field
  pub idle_timeout_minutes : Field
  pub max_concurrent_vms_total : Field

-- The assignment of a number, and what the field's column then holds. A null is refused earlier.
abbrev pub patched : Field → ℤ → ℤ
patched unset old = old
patched null old = old
patched (value n) old = n

abbrev pub is_null : Field → Bool
is_null null = true
is_null _ = false

abbrev pub differs : Field → ℤ → Bool
differs unset old = false
differs null old = true
differs (value n) old = not (eq_ℤ n old)

abbrev pub has_null : VmLimitPolicyUpdate → Bool
has_null u =
    is_null u.max_session_minutes
    || is_null u.max_extension_minutes
    || is_null u.max_extensions
    || is_null u.idle_warning_minutes
    || is_null u.idle_timeout_minutes
    || is_null u.max_concurrent_vms_total

abbrev pub same_id : Option Uuid → Option Uuid → Bool
same_id none none = true
same_id (some a) (some b) = a == b
same_id _ _ = false

-- Whether the assignments leave anything to write: a column that gets the value that it has is not
-- part of an UPDATE, and with no column left there is none.
unfoldable pub has_change : User → VmLimitPolicyUpdate → VmLimitPolicy → Bool
has_change user u p =
    differs u.max_session_minutes p.max_session_minutes
    || differs u.max_extension_minutes p.max_extension_minutes
    || differs u.max_extensions p.max_extensions
    || differs u.idle_warning_minutes p.idle_warning_minutes
    || differs u.idle_timeout_minutes p.idle_timeout_minutes
    || differs u.max_concurrent_vms_total p.max_concurrent_vms_total
    || not (same_id (some user.id) p.updated_by)

-- The loop of `setattr`, `updated_by`, and the `onupdate` of `updated_at`.
abbrev pub patch_policy : User → VmLimitPolicyUpdate → Time → VmLimitPolicy → VmLimitPolicy
patch_policy user u now p = record p {
  max_session_minutes = patched u.max_session_minutes p.max_session_minutes;
  max_extension_minutes = patched u.max_extension_minutes p.max_extension_minutes;
  max_extensions = patched u.max_extensions p.max_extensions;
  idle_warning_minutes = patched u.idle_warning_minutes p.idle_warning_minutes;
  idle_timeout_minutes = patched u.idle_timeout_minutes p.idle_timeout_minutes;
  max_concurrent_vms_total = patched u.max_concurrent_vms_total p.max_concurrent_vms_total;
  updated_by = some user.id;
  updated_at = some now;
}

abbrev pub entry : String → Field → List (String × JsonValue) → List (String × JsonValue)
entry name (value n) rest = (name, number n) ∷ rest
entry name unset rest = rest
entry name null rest = rest

-- `payload.model_dump(exclude_unset=True)`, without the nulls
unfoldable pub updates : VmLimitPolicyUpdate → List (String × JsonValue)
updates u = entry "max_session_minutes" u.max_session_minutes (
    entry "max_extension_minutes" u.max_extension_minutes (
      entry "max_extensions" u.max_extensions (
        entry "idle_warning_minutes" u.idle_warning_minutes (
          entry "idle_timeout_minutes" u.idle_timeout_minutes
            (entry "max_concurrent_vms_total" u.max_concurrent_vms_total [])))))

unfoldable pub update_policies :
    Option Uuid → (VmLimitPolicy → VmLimitPolicy) → List VmLimitPolicy → List VmLimitPolicy
update_policies k change [] = []
update_policies k change (p ∷ ps) =
    (if same_id p.id k then change p else p) ∷ update_policies k change ps

unfoldable pub find_policy : Option Uuid → List VmLimitPolicy → Option VmLimitPolicy
find_policy k [] = none
find_policy k (p ∷ ps) = if same_id p.id k then some p else find_policy k ps

-- `str(policy.id)`
abbrev pub id_str : Option Uuid → String
id_str none = "None"
id_str (some id) = uuid_str id
