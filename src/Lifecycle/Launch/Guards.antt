-- ===== src/Lifecycle/Launch/Guards.antt =====
-- The guards of `launch_vm`: what their passing establishes.
use knpodly.Base.{
  ℤ, pos, ◌≤ℤ◌, leb_ℤ, leb_ℤ→lt, int_laws, ◌≡◌, refl, true, false, inl, inr, String, Option, none,
  some, List, [], ◌∷◌, ◌++◌, head?, length, where_rows, length-append, where_rows-append,
  Bool-cases, if◌then◌else◌,
}
use knpodly.Exec.{ok, err, gets, pure, os_unavailable, maintenance_active}
use knpodly.Exec.Runs.{Runs, Runs-refl, Runs-bind-ok, Runs-bind-err}
use knpodly.Exec.Checks.{Checks, Checks-then, Checks-gets, Checks-weaken}
use knpodly.Models.{User, is_student, VmSession, OperatingSystem, is_available, MaintenanceWindow}
use knpodly.World.{World, scalar_one_or_none}
use knpodly.World.Tables.{active}
use knpodly.Lifecycle.Texts.{unavailable_text, maintenance_text}
use knpodly.Lifecycle.{
  active_of, raise_maintenance, raise_existing, check_student, require_available,
}

abbrev pub open_windows : List MaintenanceWindow → List MaintenanceWindow
open_windows = where_rows (λ m. m.is_active)

-- What `scalar_one_or_none` makes of the rows.
abbrev pub Single : {A : Type 0} → List A → Option A → Type 0
Single rows none = rows ≡ []
Single rows (some x) = rows ≡ x ∷ []

module _ {H : Type 0} where
  pub scalar-Checks :
      {A : Type 0} (rows : List A) (w : World H) → Checks (scalar_one_or_none rows) w (Single rows)
  scalar-Checks [] w = inl (none, refl, record { at = refl })
  scalar-Checks (x ∷ []) w = inl (some x, refl, record { at = refl })
  scalar-Checks (x ∷ y ∷ rows) w = inr (_, record { at = refl })

  pub scalar_single :
      {A : Type 0} {rows : List A} {x : A} (w : World H)
      → rows ≡ x ∷ []
      → Runs (scalar_one_or_none rows) w (ok (some x), w)
  scalar_single w e = record { at = rw e }

  maintenance-Checks :
      (rows : List MaintenanceWindow) (w : World H)
      → Checks (raise_maintenance (head? rows)) w (λ _. rows ≡ [])
  unfolding raise_maintenance
  maintenance-Checks [] w = inl (tt, refl, record { at = refl })
  maintenance-Checks (m ∷ rows) w = inr (_, record { at = refl })

  existing-Checks :
      (rows : List VmSession) (found : Option VmSession) (w : World H)
      → Single rows found
      → Checks (raise_existing found) w (λ _. rows ≡ [])
  unfolding raise_existing
  existing-Checks rows none w h = inl (tt, h, record { at = refl })
  existing-Checks rows (some s) w h = inr (_, record { at = refl })

  pub available-Checks :
      (slug : String) (found : Option OperatingSystem) (w : World H)
      → Checks
          (require_available slug found)
          w
          (λ os. (found ≡ some os) × (is_available os.status ≡ true))
  unfolding require_available
  available-Checks slug none w = inr (_, record { at = refl })
  available-Checks slug (some os) w = elim (Bool-cases (is_available os.status)) [
    | inl e ↦ inl (os, (refl, e), record { at = rw e })
    | inr e ↦ inr (os_unavailable (unavailable_text slug), record { at = rw e })
  ]

  pub require_passes :
      (slug : String) (os : OperatingSystem) (w : World H)
      → is_available os.status ≡ true
      → Runs (require_available slug (some os)) w (ok os, w)
  unfolding require_available
  require_passes slug os w e = record { at = rw e }

  -- What the checks for a student establish.
  abbrev pub MayLaunch : User → World H → Type 0
  MayLaunch user w = (open_windows w.windows ≡ []) × (active_of user.id w.sessions ≡ [])

  student-Checks :
      (user : User) (w : World H) → Checks (check_student user) w (λ _. MayLaunch user w)
  unfolding check_student
  student-Checks user w =
      Checks-gets (λ w. head? (open_windows w.windows)) _ w
        (Checks-then _ _ w (maintenance-Checks (open_windows w.windows) w) (λ _ no_window.
          Checks-gets (λ w. active_of user.id w.sessions) _ w
            (Checks-then _ _ w (scalar-Checks (active_of user.id w.sessions) w) (λ found single.
              Checks-weaken (existing-Checks (active_of user.id w.sessions) found w single)
                (λ _ none_active. (no_window, none_active))))))

  -- A window in force stops a student.
  pub check_student-maintenance :
      (user : User) (w : World H) (m : MaintenanceWindow) (rows : List MaintenanceWindow)
      → open_windows w.windows ≡ m ∷ rows
      → Runs (check_student user) w (err (maintenance_active (maintenance_text m.message)), w)
  unfolding check_student raise_maintenance
  check_student-maintenance user w m rows e =
      Runs-bind-ok _ (Runs-refl (gets (λ w. head? (open_windows w.windows))) w)
        (Runs-bind-err _ (record { at = rw e refl }))

  pub role-Checks :
      (user : User) (w : World H)
      → Checks
          (if is_student user.role then check_student user else pure tt)
          w
          (λ _. is_student user.role ≡ true → MayLaunch user w)
  role-Checks user w = elim (Bool-cases (is_student user.role)) [
    | inl e ↦ rw e (Checks-weaken (student-Checks user w) (λ _ may _. may))
    | inr e ↦ rw e (inl (tt, (λ p. cc), record { at = refl }))
  ]

pub within_cap :
    (rows : List VmSession) (s : VmSession) (limit : ℤ)
    → active s ≡ true
    → leb_ℤ limit (pos (length (where_rows active rows))) ≡ false
    → pos (length (where_rows active (rows ++ s ∷ []))) ≤ℤ limit
within_cap rows s limit e room = rw where_rows-append (
    rw e (
      omega (
        int_laws,
        leb_ℤ→lt limit (pos (length (where_rows active rows))) room,
        length-append (where_rows active rows) (s ∷ []),
      )))
