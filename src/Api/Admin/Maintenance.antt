-- ===== src/Api/Admin/Maintenance.antt =====
-- Maintenance mode as its users see it, a message or none, and the table behind it.
use knpodly.Base.{
  ℕ, suc, ◌≡◌, refl, ap, ◌∙◌, inl, inr, String, true, false, not, Option, none, some, List, [], ◌∷◌,
  ◌++◌, where_rows-append, arith, Bool-cases, if◌then◌else◌,
}
use knpodly.Exec.{Result, ok, err, maintenance_active, gets, ◌>>=◌}
use knpodly.Exec.Runs.{Runs, Runs-refl, Runs-raise_if-pass}
use knpodly.Exec.Checks.{ok-bind}
use knpodly.Models.{User, is_student, VmSession, Time, MaintenanceWindow}
use knpodly.World.{World, Env}
use knpodly.Lifecycle.{launch_vm}
use knpodly.Lifecycle.Launch.Aside.{launch_vm-aside, launch_vm-maintenance}
use knpodly.Lifecycle.Texts.{maintenance_text}
use knpodly.Lifecycle.Launch.Guards.{open_windows}
use knpodly.Api.{is_staff, require_lecturer, require_roles}
use knpodly.Api.Admin.{
  MaintenanceStatusOut, first_by_start, close_windows, new_window, latest, get_maintenance_status,
  enable_maintenance, disable_maintenance, close_active,
}

-- The mode: no maintenance, or the message of the maintenance.
abbrev pub Mode : Type 0
Mode = Option String

-- What the table is for a mode: one active window with the message, or none.
abbrev pub Shows : Mode → List MaintenanceWindow → Type 0
Shows none rows = open_windows rows ≡ []
Shows (some message) rows =
    (m : MaintenanceWindow) × (open_windows rows ≡ m ∷ []) × (m.message ≡ some message)

-- Requests that arrive at the backend.
pub data Request : Type 0 where
  enable : User → String → Request
  disable : User → Request
  status : User → Request
  launch : User → String → Request

module _ {H : Type 0} (env : Env H) where
  -- The state after a request, whether it is served or refused.
  pub serve : Request → World H → World H
  serve (enable user message) w = (enable_maintenance user message w).1
  serve (disable user) w = (disable_maintenance user w).1
  serve (status user) w = (get_maintenance_status user w).1
  serve (launch user slug) w = (launch_vm env user slug w).1

  pub serve_all : List Request → World H → World H
  serve_all [] w = w
  serve_all (r ∷ rs) w = serve_all rs (serve r w)

-- The specification.
pub next_mode : Request → Mode → Mode
next_mode (enable user message) mode = if is_staff user.role then some message else mode
next_mode (disable user) mode = if is_staff user.role then none else mode
next_mode (status user) mode = mode
next_mode (launch user slug) mode = mode

pub mode_after : List Request → Mode → Mode
unfolding next_mode
mode_after [] mode = mode
mode_after (r ∷ rs) mode = mode_after rs (next_mode r mode)

open-close_windows :
    (clock : ℕ → Time) (n : ℕ) (rows : List MaintenanceWindow)
    → open_windows (close_windows clock n rows) ≡ []
unfolding close_windows
open-close_windows clock n [] = refl
open-close_windows clock n (m ∷ rows) =
    ground (arith, open-close_windows clock n rows, open-close_windows clock (suc n) rows)

module _ {H : Type 0} (user : User) (w : World H) where
  abbrev closed : World H
  closed = (close_active w).1

  served : is_staff user.role ≡ true → Runs (require_lecturer user) w (ok tt, w)
  unfolding require_roles
  served e = Runs-raise_if-pass _ w (ap not e)

  enable-windows :
      (message : String)
      → (enable_maintenance user message w).1.windows ≡ (
          if is_staff user.role
          then (closed.windows ++ new_window user message (closed.clock closed.clock_reads) ∷ [])
          else w.windows)
  unfolding enable_maintenance require_roles ◌>>=◌
  enable-windows message = elim (Bool-cases (is_staff user.role)) [
    | inl e ↦ rw e refl
    | inr e ↦ rw e refl
  ]

  disable-windows :
      (disable_maintenance user w).1.windows
      ≡ (if is_staff user.role then closed.windows else w.windows)
  unfolding disable_maintenance require_roles ◌>>=◌
  disable-windows = elim (Bool-cases (is_staff user.role)) [ inl e ↦ rw e refl | inr e ↦ rw e refl ]

  status-windows : (get_maintenance_status user w).1 ≡ w
  unfolding get_maintenance_status require_roles ◌>>=◌
  status-windows = elim (Bool-cases (is_staff user.role)) [ inl e ↦ rw e refl | inr e ↦ rw e refl ]

Shows-new :
    (message : String) (rows : List MaintenanceWindow) (user : User) (now : Time)
    → open_windows rows ≡ []
    → Shows (some message) (rows ++ new_window user message now ∷ [])
Shows-new message rows user now e =
    let new = new_window user message now in
    (new, where_rows-append (λ m. m.is_active) rows (new ∷ []) ∙ rw e refl, refl)

module _ {H : Type 0} where
  -- The answers in a mode.
  abbrev pub Answers : Mode → World H → Result MaintenanceStatusOut × World H → Type 0
  Answers mode w (err e, w') = ⊥
  Answers none w (ok out, w') = (out.is_active ≡ false) × (out.message ≡ none) × (w' ≡ w)
  Answers (some message) w (ok out, w') =
      (out.is_active ≡ true) × (out.message ≡ some message) × (w' ≡ w)

  abbrev pub Refuses : Mode → World H → Result VmSession × World H → Type 0
  Refuses none w r = Unit
  Refuses (some message) w r = r ≡ (err (maintenance_active (maintenance_text (some message))), w)

  status-Answers :
      (user : User) (w : World H) (mode : Mode)
      → Shows mode w.windows
      → is_staff user.role ≡ true
      → Answers mode w (get_maintenance_status user w)
  unfolding get_maintenance_status first_by_start latest
  status-Answers user w none calm e = ok-bind (Answers none w) _ (served user w e) (
      ok-bind (Answers none w) _ (Runs-refl (gets (λ w. first_by_start (open_windows w.windows))) w)
        (rw calm (refl, refl, refl)))
  status-Answers user w (some message) (m, open_now, says) e =
      ok-bind (Answers (some message) w) _ (served user w e) (
        ok-bind (Answers (some message) w) _
          (Runs-refl (gets (λ w. first_by_start (open_windows w.windows))) w)
          (rw open_now (refl, says, refl)))

  launch-Refuses :
      (env : Env H) (user : User) (slug : String) (w : World H) (mode : Mode)
      → Shows mode w.windows
      → is_student user.role ≡ true
      → Refuses mode w (launch_vm env user slug w)
  launch-Refuses env user slug w none shows e = tt
  launch-Refuses env user slug w (some message) (m, open_now, says) e =
      (launch_vm-maintenance env user slug w m [] e open_now).at ∙ rw says refl

module _ {H : Type 0} (env : Env H) where
  -- One request moves the table as the specification moves the mode.
  serve-Shows :
      (r : Request) (mode : Mode) (w : World H)
      → Shows mode w.windows
      → Shows (next_mode r mode) (serve env r w).windows
  unfolding next_mode serve close_active
  serve-Shows (enable user message) mode w shows = elim (Bool-cases (is_staff user.role)) [
    | inl e ↦
        rw (e, enable-windows user w message, e)
          (Shows-new message (closed user w).windows user
            ((closed user w).clock (closed user w).clock_reads)
            (open-close_windows w.clock w.clock_reads w.windows))
    | inr e ↦ rw (e, enable-windows user w message, e) shows
  ]
  serve-Shows (disable user) mode w shows = elim (Bool-cases (is_staff user.role)) [
    | inl e ↦ rw (e, disable-windows user w, e) (open-close_windows w.clock w.clock_reads w.windows)
    | inr e ↦ rw (e, disable-windows user w, e) shows
  ]
  serve-Shows (status user) mode w shows = rw (status-windows user w) shows
  serve-Shows (launch user slug) mode w shows =
      (launch_vm-aside (Shows mode) env user slug).at w shows

  serve_all-Shows :
      (rs : List Request) (mode : Mode) (w : World H)
      → Shows mode w.windows
      → Shows (mode_after rs mode) (serve_all env rs w).windows
  unfolding mode_after serve_all
  serve_all-Shows [] mode w shows = shows
  serve_all-Shows (r ∷ rs) mode w shows =
      serve_all-Shows rs (next_mode r mode) (serve env r w) (serve-Shows r mode w shows)

  -- Whatever sequence of requests to enable and disable maintenance, to ask for its status and to
  -- launch VMs arrives, served or refused, the table of windows shows what the specification makes
  -- of the same sequence: the last message that a lecturer or an admin set, if none of them has
  -- disabled maintenance since. A status request by staff answers exactly that message, or that there
  -- is no maintenance, and a launch by a student is refused with the message (a standard text if it
  -- is empty) whenever there is one; both change nothing.
  pub maintenance-Shows :
      (rs : List Request) (mode : Mode) (w : World H) (staff learner : User) (slug : String)
      → Shows mode w.windows
      → is_staff staff.role ≡ true
      → is_student learner.role ≡ true
      → let v = serve_all env rs w in
        Shows (mode_after rs mode) v.windows
        × Answers (mode_after rs mode) v (get_maintenance_status staff v)
        × Refuses (mode_after rs mode) v (launch_vm env learner slug v)
  maintenance-Shows rs mode w staff learner slug shows e s =
      let v = serve_all env rs w in
      let now = serve_all-Shows rs mode w shows in
      (now, status-Answers staff v _ now e, launch-Refuses env learner slug v _ now s)
