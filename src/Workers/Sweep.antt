-- ===== src/Workers/Sweep.antt =====
-- What one sweep of the scheduler does to each row of vm_sessions.
pub mod Steps
pub mod Loop
use mathlib.Core.Path.{subst}
use knpodly.Base.{
  suc, ◌-ℤ◌, leb_ℤ, ◌≡◌, ◌≢◌, refl, sym, ap, ◌∙◌, Bool, true, false, ◌&&◌, Option, none, some,
  String, List, [], ◌∷◌, ◌++◌, All, All-zip, All-where_rows, Pairs, Pairs-map, where_rows, arith,
  Bool-cases, inl, inr, ◌==◌, if◌then◌else◌,
}
use knpodly.Exec.{Exec, ok, gets, pure, for_each, ◌>>=◌, ◌>>◌}
use knpodly.Exec.Runs.{Runs, Runs-bind-ok, Runs-refl}
use knpodly.Models.{minutes, Uuid, Time, VmSession, VmLimitPolicy, is_running}
use knpodly.World.{World, Env, Event, vm_expiry_warning, save, read_clock, publish_event}
use knpodly.World.Tables.{active, index_ok, find_session, update_rows}
use knpodly.World.Tables.Laws.{
  Preserving, find-of_no_conflict, index_ok-update, find-update_ne, find_session-id,
}
use knpodly.World.Tables.Rows.{
  keys_apart, find_unique, rows_found, index_ok-where_rows, find-where_rows,
}
use knpodly.World.Saves.{IsLoaded, save_lem, save-IsLoaded}
use knpodly.Policy.{get_active_policy}
use knpodly.Lifecycle.{mark_stopped, stop_vm}
use knpodly.Lifecycle.Answering.{Answers, stop_vm-answers}
use knpodly.Workers.{
  is_due, idle_since, is_unset, mark_warned, warn_expiry, end_session, check_idle, check_session,
  check_expired_and_idle_sessions,
}
use knpodly.Workers.Sweep.Steps.{Swept}
use knpodly.Workers.Sweep.Loop.{sweep_loop}

-- What a sweep makes of each row.
abbrev pub SweptRow : Time → VmLimitPolicy → VmSession → VmSession → Type 0
SweptRow now policy r r' =
    (is_running r.state ≡ true → Swept now policy r r') × (is_running r.state ≡ false → r' ≡ r)

module _ {H : Type 0} (env : Env H) (answers : Answers env.libvirt) (w : World H)
    (ix : index_ok w.sessions ≡ true) where
  -- With a driver whose shutdown and undefine do not raise, and a table that keeps its indexes, a
  -- sweep ends well and does to each row what it must: a running session past its expiry is closed
  -- as expired, one idle for the timeout of the policy is stopped, one idle for the warning time and
  -- not warned is marked as warned, and every other row is left as it was.
  pub check_expired_and_idle_sessions-SweptRow :
      (w' : World H) × (check_expired_and_idle_sessions env w ≡ (ok tt, w'))
      × Pairs (SweptRow (w.clock w.clock_reads) (get_active_policy env w)) w.sessions w'.sessions
  unfolding check_expired_and_idle_sessions get_active_policy
  check_expired_and_idle_sessions-SweptRow =
      let now = w.clock w.clock_reads in
      let policy = get_active_policy env w in
      let running = where_rows (λ s. is_running s.state) w.sessions in
      let (after, runs, done) =
        sweep_loop env now policy answers running (record w { clock_reads = suc w.clock_reads }) ix
          (index_ok-where_rows (λ s. is_running s.state) w.sessions ix)
          (All-where_rows _ (λ s. is_running s.state) w.sessions (rows_found w.sessions ix)) in
      (
        after,
        (Runs-bind-ok _ (Runs-refl read_clock w) (
            Runs-bind-ok _ (Runs-refl (gets (get_active_policy env)) _) (
              Runs-bind-ok _
                (Runs-refl (gets (λ w. where_rows (λ s. is_running s.state) w.sessions)) _)
                runs))).at,
        Pairs-map w.sessions after.sessions
            (λ r r' found done. (
              (λ e.
                  done.0
                    (find-where_rows r.id (λ s. is_running s.state) w.sessions r ix found ∙ rw e)),
              (λ e.
                  done.1
                    (find-where_rows r.id (λ s. is_running s.state) w.sessions r ix found ∙ rw e)),
            ))
            (rows_found w.sessions ix) done,
      )
