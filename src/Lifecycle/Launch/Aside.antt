-- ===== src/Lifecycle/Launch/Aside.antt =====
-- A launch and the maintenance windows: it keeps the table, and is refused to a student while a
-- window is active.
use knpodly.Base.{◌≡◌, refl, inl, inr, String, true, List, ◌∷◌, arith, Option-cases}
use knpodly.Exec.{Exec, err, maintenance_active}
use knpodly.Exec.Runs.{Runs, Runs-bind-err}
use knpodly.Exec.Checks.{raise_if-Checks}
use knpodly.Exec.Keeps.{Keeps, Keeps-bind, Keeps-checks}
use knpodly.Models.{User, is_student, VmSession, MaintenanceWindow}
use knpodly.World.{World, Env, insert_session, refresh}
use knpodly.World.Tables.{find_session}
use knpodly.Lifecycle.{launch_vm}
use knpodly.Lifecycle.Texts.{maintenance_text}
use knpodly.Lifecycle.Launch.Guards.{
  open_windows, role-Checks, scalar-Checks, available-Checks, check_student-maintenance,
}

module _ {H : Type 0} (P : List MaintenanceWindow → Type 0) where
  aside :
      {A : Type 0} {m : Exec (World H) A}
      → ((w : World H) → (m w).1.windows ≡ w.windows)
      → Keeps (λ w. P w.windows) m
  aside same = record { at = λ w shows. rw (same w) shows }

  insert_session-aside : (s : VmSession) → Keeps {S = World H} (λ w. P w.windows) (insert_session s)
  unfolding insert_session
  insert_session-aside s = aside (λ w. ground arith)

  refresh-aside : (s : VmSession) → Keeps {S = World H} (λ w. P w.windows) (refresh s)
  unfolding refresh
  refresh-aside s = aside (λ w. elim (Option-cases (find_session s.id w.sessions)) [
    | inl e ↦ rw (e, refresh) refl
    | inr (row, e) ↦ rw (e, refresh) refl
  ])

  pub launch_vm-aside :
      (env : Env H) (user : User) (slug : String)
      → Keeps (λ w. P w.windows) (launch_vm env user slug)
  unfolding launch_vm
  launch_vm-aside env user slug = Keeps-bind (Keeps-checks (role-Checks user)) (λ _.
      Keeps-bind (aside (λ w. refl)) (λ policy. Keeps-bind (aside (λ w. refl)) (λ total.
        Keeps-bind (Keeps-checks (raise_if-Checks _ _)) (λ _.
          Keeps-bind (aside (λ w. refl)) (λ rows.
            Keeps-bind (Keeps-checks (scalar-Checks rows)) (λ found.
              Keeps-bind (Keeps-checks (available-Checks slug found)) (λ os.
                Keeps-bind (aside (λ w. refl)) (λ id.
                  Keeps-bind (aside (λ w. refl))
                    (λ now. Keeps-bind (insert_session-aside _) (λ _. refresh-aside _))))))))))

module _ {H : Type 0} (env : Env H) (user : User) (slug : String) (w : World H) where
  pub launch_vm-maintenance :
      (m : MaintenanceWindow) (rows : List MaintenanceWindow)
      → is_student user.role ≡ true
      → open_windows w.windows ≡ m ∷ rows
      → Runs (launch_vm env user slug) w (err (maintenance_active (maintenance_text m.message)), w)
  unfolding launch_vm
  launch_vm-maintenance m rows e open_now =
      Runs-bind-err _ (rw e (check_student-maintenance user w m rows open_now))
