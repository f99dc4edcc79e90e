-- ===== src/Workers/Commits.antt =====
-- The jobs, the sweep and the orphan collection keep the indexes of vm_sessions.
use knpodly.Base.{
  Bool-cases, inl, inr, refl, false, String, Bool, Option, none, some, ◌&&◌, ◌-ℤ◌, leb_ℤ,
}
use knpodly.Exec.Keeps.{Keeps, Keeps-on_error, Keeps-bind, Keeps-for_each}
use knpodly.Text.{given}
use knpodly.Models.{Uuid, Time, minutes, VmSession, VmLimitPolicy}
use knpodly.World.{Env, Event, Job, provision_vm, teardown_vm}
use knpodly.World.Commits.{
  Indexed, Indexed-aside, save-Indexed, scalar_one-Indexed, select_session-Indexed,
}
use knpodly.Lifecycle.Commits.{provision_vm-Indexed, stop_vm-Indexed}
use knpodly.Workers.{
  is_unset, idle_since, is_due, is_gone, provision_found, provision_job, teardown_found,
  teardown_job, run_job, warn_expiry, end_session, check_idle, check_session,
  check_expired_and_idle_sessions, sweep_round, collect_named, collect, collect_orphans,
}

module _ {H : Type 0} (env : Env H) where
  provision_found-Indexed :
      (id : Uuid) (found : Option VmSession) → Keeps Indexed (provision_found env id found)
  unfolding provision_found
  provision_found-Indexed id none = Indexed-aside (λ w. refl)
  provision_found-Indexed id (some s) = Keeps-bind (Indexed-aside (λ w. refl)) (λ rows.
      Keeps-bind (scalar_one-Indexed rows) (λ os.
        Keeps-bind (Keeps-on_error (provision_vm-Indexed env s os) (Indexed-aside (λ w. refl)))
          (λ s'. Indexed-aside (λ w. refl))))

  teardown_found-Indexed :
      (id : Uuid) (reason : String) (force : Bool) (found : Option VmSession)
      → Keeps Indexed (teardown_found env id reason force found)
  unfolding teardown_found
  teardown_found-Indexed id reason force none = Indexed-aside (λ w. refl)
  teardown_found-Indexed id reason force (some s) =
      Keeps-bind (stop_vm-Indexed env s reason force) (λ _. Indexed-aside (λ w. refl))

  pub run_job-Indexed : (j : Job) → Keeps Indexed (run_job env j)
  unfolding run_job provision_job teardown_job
  run_job-Indexed (provision_vm id) =
      Keeps-bind (select_session-Indexed id) (provision_found-Indexed id)
  run_job-Indexed (teardown_vm id reason force) =
      Keeps-bind (select_session-Indexed id) (teardown_found-Indexed id reason force)

  warn_expiry-Indexed :
      (now : Time) (s : VmSession) (expires_at : Option Time)
      → Keeps Indexed (warn_expiry env now s expires_at)
  unfolding warn_expiry
  warn_expiry-Indexed now s none = Indexed-aside (λ w. refl)
  warn_expiry-Indexed now s (some t) =
      let warn_at = t -ℤ minutes env.settings.session_expiry_warning_minutes in
      elim (Bool-cases (leb_ℤ warn_at now && is_unset s.idle_warning_sent_at)) [
        | inl e ↦ rw e (Indexed-aside (λ w. refl))
        | inr e ↦ rw e (Indexed-aside (λ w. refl))
      ]

  end_session-Indexed :
      (s : VmSession) (reason : String) (event : Event)
      → Keeps Indexed (end_session env s reason event)
  unfolding end_session
  end_session-Indexed s reason event =
      Keeps-bind (stop_vm-Indexed env s reason false) (λ _. Indexed-aside (λ w. refl))

  check_idle-Indexed :
      (now : Time) (policy : VmLimitPolicy) (s : VmSession)
      → Keeps Indexed (check_idle env now policy s)
  unfolding check_idle
  check_idle-Indexed now policy s =
      elim (Bool-cases (idle_since now policy.idle_timeout_minutes s)) [
        | inl e ↦ rw e (end_session-Indexed s "idle_timeout" _)
        | inr e ↦
            rw e
              (elim (Bool-cases
                (idle_since now policy.idle_warning_minutes s && is_unset s.idle_warning_sent_at)) [
                  | inl e ↦ rw e (Keeps-bind (save-Indexed _ s) (λ _. Indexed-aside (λ w. refl)))
                  | inr e ↦ rw e (Indexed-aside (λ w. refl))
                ])
      ]

  check_session-Indexed :
      (now : Time) (policy : VmLimitPolicy) (s : VmSession)
      → Keeps Indexed (check_session env now policy s)
  unfolding check_session
  check_session-Indexed now policy s = elim (Bool-cases (is_due s.expires_at now)) [
    | inl e ↦ rw e (end_session-Indexed s "expired" _)
    | inr e ↦
        rw e (
          Keeps-bind (warn_expiry-Indexed now s s.expires_at)
            (λ _. check_idle-Indexed now policy s))
  ]

  pub check_expired_and_idle_sessions-Indexed : Keeps Indexed (check_expired_and_idle_sessions env)
  unfolding check_expired_and_idle_sessions
  check_expired_and_idle_sessions-Indexed = Keeps-bind (Indexed-aside (λ w. refl)) (λ now.
      Keeps-bind (Indexed-aside (λ w. refl)) (λ policy.
        Keeps-bind (Indexed-aside (λ w. refl))
          (λ sessions. Keeps-for_each _ sessions (check_session-Indexed now policy))))

  pub sweep_round-Indexed : Keeps Indexed (sweep_round env)
  unfolding sweep_round
  sweep_round-Indexed = record { at = check_expired_and_idle_sessions-Indexed.at }

  collect_named-Indexed :
      (s : VmSession) (name : Option String) → Keeps Indexed (collect_named env s name)
  unfolding collect_named
  collect_named-Indexed s none = Indexed-aside (λ w. refl)
  collect_named-Indexed s (some name) = Keeps-bind (Indexed-aside (λ w. refl)) (λ info.
      elim (Bool-cases (is_gone info)) [
        | inl e ↦
            rw e (Keeps-bind (stop_vm-Indexed env s "error" false) (λ _. Indexed-aside (λ w. refl)))
        | inr e ↦ rw e (Indexed-aside (λ w. refl))
      ])

  pub collect_orphans-Indexed : Keeps Indexed (collect_orphans env)
  unfolding collect_orphans collect
  collect_orphans-Indexed = Keeps-bind (Indexed-aside (λ w. refl)) (λ sessions.
      Keeps-for_each _ sessions (λ s. collect_named-Indexed s (given s.libvirt_domain_name)))
