-- ===== src/System/OneSession.antt =====
-- One active session a user, in every state that the backend can come to.
use knpodly.Base.{◌≡◌, refl, ap, ◌∙◌, true, ◌≤◌, length, inl, inr, arith}
use knpodly.Exec.Keeps.{Keeps, Keeps-bind}
use knpodly.Models.{Uuid}
use knpodly.World.{World, Env}
use knpodly.World.Tables.{index_ok}
use knpodly.World.Commits.{Indexed, Indexed-aside}
use knpodly.Lifecycle.{active_of}
use knpodly.Workers.Commits.{run_job-Indexed, sweep_round-Indexed, collect_orphans-Indexed}
use knpodly.Api.Vms.Mine.{active_of-single}
use knpodly.Api.Vms.Commits.{
  post_launch-Indexed, post_stop-Indexed, post_force_stop-Indexed, post_extend-Indexed,
  report_activity-Indexed,
}
use knpodly.System.{
  Action, launch, stop, force_stop, extend, activity, job, sweep, collection, act, Reach, here,
  acted, changed,
}

module _ {H : Type 0} (env : Env H) where
  act-Indexed : (a : Action) → Keeps Indexed (act env a)
  unfolding act
  act-Indexed (launch user slug) =
      Keeps-bind (post_launch-Indexed env user slug) (λ _. Indexed-aside (λ w. refl))
  act-Indexed (stop user id) =
      Keeps-bind (post_stop-Indexed env user id) (λ _. Indexed-aside (λ w. refl))
  act-Indexed (force_stop user id) =
      Keeps-bind (post_force_stop-Indexed env user id) (λ _. Indexed-aside (λ w. refl))
  act-Indexed (extend user id) =
      Keeps-bind (post_extend-Indexed env user id) (λ _. Indexed-aside (λ w. refl))
  act-Indexed (activity user id) = report_activity-Indexed user id
  act-Indexed (job j) = run_job-Indexed env j
  act-Indexed sweep = sweep_round-Indexed env
  act-Indexed collection = collect_orphans-Indexed env

  Reach-Indexed : {w v : World H} → Indexed w → Reach env w v → Indexed v
  Reach-Indexed ix here = ix
  Reach-Indexed ix (acted {v} a reach) = (act-Indexed a).at v (Reach-Indexed ix reach)
  Reach-Indexed ix (changed reach same) = ap index_ok same ∙ Reach-Indexed ix reach

  -- From a state in which the indexes of vm_sessions hold, whatever requests, jobs, sweeps and
  -- collections run, in whatever order and with whatever changes of the rest of the state between
  -- them, and whether they return or raise, no user ever has two active sessions.
  pub one_active_session :
      {w v : World H} (user_id : Uuid)
      → index_ok w.sessions ≡ true
      → Reach env w v
      → length (active_of user_id v.sessions) ≤ 1
  one_active_session {v} user_id ix reach =
      elim (active_of-single user_id v.sessions (Reach-Indexed ix reach)) [
        | inl e ↦ rw e (omega arith)
        | inr (s, e) ↦ rw e (omega arith)
      ]
