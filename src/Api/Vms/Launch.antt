-- ===== src/Api/Vms/Launch.antt =====
-- The launch route: what a response says is stored and queued.
use mathlib.Core.Path.{subst}
use knpodly.Base.{arith, ◌≡◌, refl, Bool, true, false, String, some, [], ◌∷◌, ◌++◌}
use knpodly.Exec.{
  Error, Result, ok, err, vm_limit_exceeded, os_unavailable, maintenance_active, pure,
}
use knpodly.Exec.Runs.{
  Runs-bind-ok, Runs-bind-err, Runs-refl, Runs-map_error-ok, Runs-map_error-err,
}
use knpodly.Exec.Checks.{end-with}
use knpodly.Models.{User, VmSession, text}
use knpodly.World.{World, Env, provision_vm, enqueue_job, record_audit}
use knpodly.World.Tables.{index_ok}
use knpodly.Lifecycle.{launch_vm}
use knpodly.Lifecycle.Launch.{Launched, Kept, Launches, launch_vm-Launches}
use knpodly.Api.Vms.{VmSessionOut, with_console_url, session_audit, launch_error, post_launch}

-- The three exceptions of vm_lifecycle.
abbrev is_lifecycle_error : Error → Bool
is_lifecycle_error (vm_limit_exceeded _) = true
is_lifecycle_error (os_unavailable _) = true
is_lifecycle_error (maintenance_active _) = true
is_lifecycle_error _ = false

launch_error-translates : (e : Error) → is_lifecycle_error (launch_error e) ≡ false
launch_error-translates e = ground arith

module _ {H : Type 0} (env : Env H) (user : User) (slug : String) (w : World H) where
  abbrev pub Responds : Result VmSessionOut × World H → Type 0
  Responds (ok out, w') =
      (s : VmSession) × (out ≡ with_console_url env.settings s)
      × (w'.sessions ≡ w.sessions ++ s ∷ [])
      × (index_ok w'.sessions ≡ true)
      × (w'.jobs ≡ w.jobs ++ provision_vm s.id ∷ [])
      × (w'.audit_logs
          ≡ w.audit_logs
            ++ session_audit user "vm.launch_requested" s.id (some (("os_slug", text slug) ∷ []))
              ∷ [])
  Responds (err e, w') = Kept env user slug w w' × (is_lifecycle_error e ≡ false)

  -- A launch request that is accepted stores the session that it returns, queues exactly one
  -- provisioning job for it and records one audit row; one that is refused stores, queues and
  -- records nothing, and no exception of the lifecycle reaches the client untranslated.
  pub post_launch-Responds : Responds (post_launch env user slug w)
  unfolding post_launch
  post_launch-Responds = by_launch (launch_vm env user slug w) refl
    where
      by_launch :
          (r : Result VmSession × World H)
          → launch_vm env user slug w ≡ r
          → Responds (post_launch env user slug w)
      by_launch (ok s, w') e =
          let l : Launched env user slug w s w' =
            subst (Launches env user slug w) e (launch_vm-Launches env user slug w) in
          end-with Responds
            (Runs-bind-ok _ (Runs-map_error-ok launch_error (record { at = e })) (
              Runs-bind-ok _ (Runs-refl (enqueue_job (provision_vm s.id)) w')
                (Runs-bind-ok _ (Runs-refl (record_audit _) _) (Runs-refl (pure _) _))))
            (s, refl, l.stored, l.indexed, rw (l.no_more.0) refl, rw (l.no_more.1) refl)
      by_launch (err x, w') e =
          end-with Responds (Runs-bind-err _ (Runs-map_error-err launch_error (record { at = e })))
            (
              subst (Launches env user slug w) e (launch_vm-Launches env user slug w),
              launch_error-translates x,
            )
