-- ===== src/Lifecycle/Texts.antt =====
-- The texts that vm_lifecycle.py builds.
use Prim.Native.String.{String, ◌++◌}
use knpodly.Base.{Option, none, some}
use knpodly.Text.{uuid_str, given}
use knpodly.Models.{Uuid}

-- `f"knpodly-{session.id}"`
pub domain_name : Uuid → String
domain_name id = "knpodly-" ++ uuid_str id

pub unavailable_text : String → String
unavailable_text os_slug = "Operating system '" ++ os_slug ++ "' is not available for launch."

or_default : Option String → String
or_default (some message) = message
or_default none = "The lab platform is currently under maintenance. Please try again later."

-- `maintenance.message or "..."`
pub maintenance_text : Option String → String
unfolding or_default
maintenance_text message = or_default (given message)
