-- ===== src/Api/Vms/Commits.antt =====
-- The routes keep the indexes of vm_sessions.
use knpodly.Base.{false, refl, true, String, Option, none, some}
use knpodly.Exec.Checks.{raise_if-Checks}
use knpodly.Exec.Keeps.{Keeps, Keeps-checks, Keeps-map_error, Keeps-bind}
use knpodly.Models.{Uuid, User, VmSession}
use knpodly.World.{World, Env}
use knpodly.World.Commits.{Indexed, Indexed-aside, select_session-Indexed}
use knpodly.Lifecycle.Commits.{
  launch_vm-Indexed, stop_vm-Indexed, extend_session-Indexed, record_activity-Indexed,
}
use knpodly.Api.{require_roles}
use knpodly.Api.Vms.{
  require_found, get_owned_or_403, post_launch, post_stop, post_force_stop, post_extend,
  report_activity,
}

module _ {H : Type 0} where
  require_found-Indexed :
      (found : Option VmSession) → Keeps {S = World H} Indexed (require_found found)
  unfolding require_found
  require_found-Indexed none = Indexed-aside (λ w. refl)
  require_found-Indexed (some s) = Indexed-aside (λ w. refl)

  owned-Indexed : (user : User) (id : Uuid) → Keeps {S = World H} Indexed (get_owned_or_403 user id)
  unfolding get_owned_or_403
  owned-Indexed user id = Keeps-bind (select_session-Indexed id) (λ found.
      Keeps-bind (require_found-Indexed found)
        (λ s. Keeps-bind (Keeps-checks (raise_if-Checks _ _)) (λ _. Indexed-aside (λ w. refl))))

  pub report_activity-Indexed :
      (user : User) (id : Uuid) → Keeps {S = World H} Indexed (report_activity user id)
  unfolding report_activity
  report_activity-Indexed user id = Keeps-bind (owned-Indexed user id) record_activity-Indexed

  module _ (env : Env H) where
    pub post_launch-Indexed :
        (user : User) (slug : String) → Keeps Indexed (post_launch env user slug)
    unfolding post_launch
    post_launch-Indexed user slug =
        Keeps-bind (Keeps-map_error _ (launch_vm-Indexed env user slug)) (λ s.
          Keeps-bind (Indexed-aside (λ w. refl))
            (λ _. Keeps-bind (Indexed-aside (λ w. refl)) (λ _. Indexed-aside (λ w. refl))))

    pub post_stop-Indexed : (user : User) (id : Uuid) → Keeps Indexed (post_stop env user id)
    unfolding post_stop
    post_stop-Indexed user id = Keeps-bind (owned-Indexed user id) (λ s.
        Keeps-bind (stop_vm-Indexed env s "user_stop" false)
          (λ s'. Keeps-bind (Indexed-aside (λ w. refl)) (λ _. Indexed-aside (λ w. refl))))

    pub post_force_stop-Indexed :
        (user : User) (id : Uuid) → Keeps Indexed (post_force_stop env user id)
    unfolding post_force_stop require_roles
    post_force_stop-Indexed user id = Keeps-bind (Keeps-checks (raise_if-Checks _ _)) (λ _.
        Keeps-bind (select_session-Indexed id) (λ found.
          Keeps-bind (require_found-Indexed found) (λ s.
            Keeps-bind (stop_vm-Indexed env s "force_stop" true)
              (λ s'. Keeps-bind (Indexed-aside (λ w. refl)) (λ _. Indexed-aside (λ w. refl))))))

    pub post_extend-Indexed : (user : User) (id : Uuid) → Keeps Indexed (post_extend env user id)
    unfolding post_extend
    post_extend-Indexed user id = Keeps-bind (owned-Indexed user id) (λ s.
        Keeps-bind (Keeps-map_error _ (extend_session-Indexed env s))
          (λ s'. Keeps-bind (Indexed-aside (λ w. refl)) (λ _. Indexed-aside (λ w. refl))))
