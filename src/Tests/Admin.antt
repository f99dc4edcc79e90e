-- ===== src/Tests/Admin.antt =====
-- Maintenance and limits at sample states.
use knpodly.Base.{refl, none, [], ◌∷◌, inr, pos, List}
use knpodly.World.{World}
use knpodly.Libvirt.Fake.{Domains}
use knpodly.Lifecycle.{launch_vm}
use knpodly.Api.Admin.{get_maintenance_status, update_vm_limit_policy}
use knpodly.Api.Admin.Fields.{VmLimitPolicyUpdate, unset, value}
use knpodly.Api.Admin.Maintenance.{
  Shows, Answers, Refuses, Request, enable, disable, launch, mode_after, serve_all,
  maintenance-Shows,
}
use knpodly.Api.Admin.Limits.{Updates, update_vm_limit_policy-Updates}
use knpodly.Tests.Samples.{env, ada, leo, policy, world}

-- Maintenance is set, taken back and set again; a student's attempt to end it has no effect.
abbrev requests : List Request
requests =
    enable leo "upgrade"
    ∷ disable leo
    ∷ enable leo "new disks"
    ∷ disable ada
    ∷ launch leo "ubuntu-24.04"
    ∷ []

maintenance-Shows_example :
    let v = serve_all env requests (world []) in
    Shows (mode_after requests none) v.windows
    × Answers (mode_after requests none) v (get_maintenance_status leo v)
    × Refuses (mode_after requests none) v (launch_vm env ada "ubuntu-24.04" v)
maintenance-Shows_example =
    maintenance-Shows env requests none (world []) leo ada "ubuntu-24.04" refl refl refl

abbrev payload : VmLimitPolicyUpdate
payload = record {
  max_session_minutes = value (pos 90);
  max_extension_minutes = unset;
  max_extensions = unset;
  idle_warning_minutes = unset;
  idle_timeout_minutes = unset;
  max_concurrent_vms_total = value (pos 40);
}

abbrev one_policy : World Domains
one_policy = record (world []) { policies = policy ∷ [] }

update_vm_limit_policy-Updates_example :
    Updates env leo payload one_policy (update_vm_limit_policy leo payload one_policy)
update_vm_limit_policy-Updates_example =
    update_vm_limit_policy-Updates env leo payload one_policy refl (inr (policy, pos 5, refl, refl))
