-- ===== src/Lifecycle/Commits.antt =====
-- The operations of vm_lifecycle keep the indexes of vm_sessions.
use knpodly.Base.{refl, Bool, String, inl, inr, ℕ}
use knpodly.Exec.Keeps.{Keeps, Keeps-by, Keeps-checks, Keeps-on_error, Keeps-bind}
use knpodly.Exec.Checks.{raise_if-Checks}
use knpodly.Models.{Uuid, User, VmSession, OperatingSystem}
use knpodly.World.{World, Env}
use knpodly.Text.{given}
use knpodly.Overlay.{destroy_overlay}
use knpodly.Lifecycle.{
  launch_vm, provision_vm, stop_vm, extend_session, record_activity, start_domain,
}
use knpodly.Lifecycle.Launch.Guards.{role-Checks, scalar-Checks, available-Checks}
use knpodly.Lifecycle.Stop.{stop_domain-host, remove_overlay_lem, release_port_lem}
use knpodly.Lifecycle.Provision.{create_overlay-cases}
use knpodly.Lifecycle.Extend.{expiry_or_now_lem}
use knpodly.Overlay.Ports.{allocate_vnc_port-cases}
use knpodly.World.Commits.{
  Indexed, Indexed-aside, save-Indexed, insert_session-Indexed, refresh-Indexed,
}

module _ {H : Type 0} (env : Env H) where
  pub launch_vm-Indexed : (user : User) (slug : String) → Keeps Indexed (launch_vm env user slug)
  unfolding launch_vm
  launch_vm-Indexed user slug = Keeps-bind (Keeps-checks (role-Checks user)) (λ _.
      Keeps-bind (Indexed-aside (λ w. refl)) (λ policy.
        Keeps-bind (Indexed-aside (λ w. refl)) (λ total.
          Keeps-bind (Keeps-checks (raise_if-Checks _ _)) (λ _.
            Keeps-bind (Indexed-aside (λ w. refl)) (λ rows.
              Keeps-bind (Keeps-checks (scalar-Checks rows)) (λ found.
                Keeps-bind (Keeps-checks (available-Checks slug found)) (λ os.
                  Keeps-bind (Indexed-aside (λ w. refl)) (λ id.
                    Keeps-bind (Indexed-aside (λ w. refl)) (λ now.
                      Keeps-bind (insert_session-Indexed _) (λ _. refresh-Indexed _))))))))))

  pub stop_vm-Indexed :
      (s : VmSession) (reason : String) (force : Bool) → Keeps Indexed (stop_vm env s reason force)
  unfolding stop_vm
  stop_vm-Indexed s reason force = Keeps-bind (save-Indexed _ s) (λ s'.
      Keeps-bind
        (Keeps-by (λ w p.
          let (r, h, runs) = stop_domain-host env (given s'.libvirt_domain_name) force w in
          (r, _, runs, p)))
        (λ _. Keeps-bind (Keeps-by (λ w p. (_, _, remove_overlay_lem _ w, p))) (λ _.
          Keeps-bind (Keeps-by (λ w p. (_, _, release_port_lem _ w, p))) (λ _.
            Keeps-bind (Indexed-aside (λ w. refl))
              (λ now. Keeps-bind (save-Indexed _ s') (λ s''. refresh-Indexed s''))))))

  pub extend_session-Indexed : (s : VmSession) → Keeps Indexed (extend_session env s)
  unfolding extend_session
  extend_session-Indexed s = Keeps-bind (Keeps-checks (raise_if-Checks _ _)) (λ _.
      Keeps-bind (Indexed-aside (λ w. refl)) (λ policy.
        Keeps-bind
          (Keeps-by
            (λ w p. let (reads, runs) = expiry_or_now_lem w s.expires_at in (_, _, runs, p)))
          (λ base. Keeps-bind (save-Indexed _ s) (λ s'. refresh-Indexed s'))))

  start_domain-Indexed :
      (s : VmSession) (path : String) (port : ℕ) (mac : Uuid)
      → Keeps Indexed (start_domain env s path port mac)
  unfolding start_domain destroy_overlay
  start_domain-Indexed s path port mac =
      Keeps-on_error (Keeps-bind (Indexed-aside (λ w. refl)) (λ _. Indexed-aside (λ w. refl)))
        (Keeps-bind (save-Indexed _ s) (λ _. Indexed-aside (λ w. refl)))

  pub provision_vm-Indexed :
      (s : VmSession) (os : OperatingSystem) → Keeps Indexed (provision_vm env s os)
  unfolding provision_vm
  provision_vm-Indexed s os = Keeps-bind (save-Indexed _ s) (λ s'.
      Keeps-bind (Indexed-aside (λ w. refl)) (λ policy.
        Keeps-bind
          (Keeps-by (λ w p. elim (create_overlay-cases env os.base_image_path _ w) [
            | inl runs ↦ (_, _, runs, p)
            | inr (stderr, e, runs) ↦ (_, _, runs, p)
          ]))
          (λ path.
            Keeps-bind
              (Keeps-by (λ w p. elim (allocate_vnc_port-cases w) [
                | inl (port, runs, low, high, free) ↦ (_, _, runs, p)
                | inr (e, runs, taken) ↦ (_, _, runs, p)
              ]))
              (λ port. Keeps-bind (Indexed-aside (λ w. refl)) (λ mac.
                Keeps-bind (start_domain-Indexed s' path port mac) (λ _.
                  Keeps-bind (Indexed-aside (λ w. refl)) (λ now.
                    Keeps-bind (Indexed-aside (λ w. refl))
                      (λ token. Keeps-bind (save-Indexed _ s') (λ s''. refresh-Indexed s'')))))))))

module _ {H : Type 0} where
  pub record_activity-Indexed : (s : VmSession) → Keeps {S = World H} Indexed (record_activity s)
  unfolding record_activity
  record_activity-Indexed s =
      Keeps-bind (Indexed-aside (λ w. refl))
        (λ now. Keeps-bind (save-Indexed _ s) (λ _. Indexed-aside (λ w. refl)))
