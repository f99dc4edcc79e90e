-- ===== src/System.antt =====
-- The backend as a whole: the requests on VMs, the jobs of the worker, the sweeps of the scheduler
-- and the runs of the orphan collection, in any order, over the shared state.
pub mod OneSession
pub mod Ports
use knpodly.Base.{◌≡◌, String}
use knpodly.Exec.{Exec, pure, ◌>>◌}
use knpodly.Models.{Uuid, User}
use knpodly.World.{World, Env, Job}
use knpodly.Workers.{run_job, sweep_round, collect_orphans}
use knpodly.Api.Vms.{post_launch, post_stop, post_force_stop, post_extend, report_activity}

pub data Action : Type 0 where
  launch : User → String → Action
  stop force_stop extend activity : User → Uuid → Action
  job : Job → Action
  sweep collection : Action

module _ {H : Type 0} (env : Env H) where
  pub act : Action → Exec (World H) (Unit {0})
  act (launch user os_slug) = post_launch env user os_slug >> pure tt
  act (stop user id) = post_stop env user id >> pure tt
  act (force_stop user id) = post_force_stop env user id >> pure tt
  act (extend user id) = post_extend env user id >> pure tt
  act (activity user id) = report_activity user id
  act (job j) = run_job env j
  act sweep = sweep_round env
  act collection = collect_orphans env

  -- The states that the backend can come to from `w`, whether its actions return or raise. Between
  -- two actions anything but the table of sessions may change: users, images, policies,
  -- maintenance, the hypervisor, the clock.
  pub data Reach (w : World H) : World H → Type 0 where
    here : Reach w w
    acted : {v : World H} (a : Action) → Reach w v → Reach w (act a v).1
    changed : {v v' : World H} → Reach w v → v'.sessions ≡ v.sessions → Reach w v'
