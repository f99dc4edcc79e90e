-- ===== src/Tests/Workers.antt =====
-- The sweep of the scheduler, and the replicas of the worker, at sample states.
use knpodly.Base.{some, ◌++◌, ℕ, ◌≡◌, refl, true, ◌∷◌, [], contains, Pairs, arith}
use native.Mathlib.Decide.{ℕ_discrete}
use knpodly.Exec.{ok}
use knpodly.Libvirt.Fake.{Domains}
use knpodly.World.{World}
use knpodly.World.Tables.{conflicts, index_ok}
use knpodly.Policy.{get_active_policy}
use knpodly.Overlay.{try_port}
use knpodly.Overlay.Workers.{
  Replicas, start, Reach, here, next, snapshot, round, holding, scanning, set_phase,
  exclusive_ports, AllCareful,
}
use knpodly.Lifecycle.Answering.{fake_client-Answers}
use knpodly.Workers.{check_expired_and_idle_sessions}
use knpodly.Workers.Sweep.{SweptRow, check_expired_and_idle_sessions-SweptRow}
use knpodly.Models.{VmSession, running}
use knpodly.World.{vm_running}
use knpodly.World.Tables.{find_session}
use knpodly.Lifecycle.Provision.Accepts.{fake_client-Starts}
use knpodly.Workers.{provision_job}
use knpodly.Workers.Jobs.{Publishes, provision_job-Publishes, provision_job-accepts}
use knpodly.Tests.Lifecycle.{queue-IsLoaded}
use knpodly.Tests.Samples.{ubuntu, env, live, waiting, world}

-- One session in the queue, of another user than the running one.
abbrev mixed : World Domains
mixed = world (live ∷ record waiting { user_id = 2 } ∷ [])

mixed-index_ok : index_ok mixed.sessions ≡ true
unfolding index_ok conflicts
mixed-index_ok = refl

check_expired_and_idle_sessions-SweptRow_example :
    (w' : World Domains) × (check_expired_and_idle_sessions env mixed ≡ (ok tt, w'))
    × Pairs
        (SweptRow (mixed.clock mixed.clock_reads) (get_active_policy env mixed))
        mixed.sessions
        w'.sessions
check_expired_and_idle_sessions-SweptRow_example =
    check_expired_and_idle_sessions-SweptRow env fake_client-Answers mixed mixed-index_ok

-- The first replica reads an empty set and claims the lowest port.
abbrev scanning_first : Replicas
scanning_first = record (start []) { phase = set_phase (start []).phase 0 (scanning 5900 []) }

abbrev holding_first : Replicas
holding_first = record scanning_first {
  ports = 5900 ∷ [];
  phase = set_phase scanning_first.phase 0 (holding 5900);
}

claim_first : Reach (start []) holding_first
unfolding try_port ℕ_discrete
claim_first =
    next (next here (snapshot (start []) 0 refl))
      (round scanning_first 0 5900 [] refl (omega arith))

abbrev first : ℕ
first = 0

first_holds : holding_first.phase first ≡ holding 5900
unfolding ℕ_discrete
first_holds = refl

claim_first-AllCareful : AllCareful claim_first
unfolding claim_first
claim_first-AllCareful = ((tt, tt), tt)

exclusive_ports_example : (first ≡ first) × (contains 5900 holding_first.ports ≡ true)
exclusive_ports_example =
    exclusive_ports first first 5900 claim_first claim_first-AllCareful first_holds first_holds

abbrev queue : World Domains
queue = world (waiting ∷ [])

provision_job-Publishes_example :
    Publishes env queue waiting ubuntu queue-IsLoaded refl refl (provision_job env 40 queue)
provision_job-Publishes_example =
    provision_job-Publishes env queue waiting ubuntu queue-IsLoaded refl refl

provision_job-accepts_example :
    (v : World Domains) × (row : VmSession) × (provision_job env 40 queue ≡ (ok tt, v))
    × (find_session 40 v.sessions ≡ some row)
    × (row.state ≡ running)
    × (v.events ≡ queue.events ++ vm_running 40 1 row.expires_at ∷ [])
provision_job-accepts_example =
    provision_job-accepts env queue waiting ubuntu queue-IsLoaded refl refl 5901 fake_client-Starts
      (omega arith) (omega arith) refl refl
