-- ===== src/Tests/Lifecycle.antt =====
-- The lifecycle theorems at sample states.
use knpodly.Base.{◌↔◌, refl, ◌≡◌, []}
use knpodly.World.Tables.{index_ok, find_session}
use knpodly.World.Saves.{IsLoaded}
use knpodly.Policy.{get_active_policy}
use knpodly.Lifecycle.{launch_vm, provision_vm, stop_vm, extend_session}
use knpodly.Lifecycle.Stop.{Stops, stop_vm-Stops}
use knpodly.Lifecycle.Extend.{Extends, extend_session-Extends}
use knpodly.Lifecycle.Launch.{Launches, launch_vm-Launches}
use knpodly.Lifecycle.Provision.{Provisions, provision_vm-Provisions}
use knpodly.Base.{none, leb_ℤ, length, where_rows, pos}
use knpodly.Exec.{ok}
use knpodly.World.Tables.{active, update_rows}
use knpodly.Lifecycle.{active_of}
use knpodly.Lifecycle.Launch.{launch_vm-Admits}
use knpodly.World.{World}
use knpodly.Exec.Runs.{Runs}
use knpodly.Libvirt.Fake.{Domains}
use knpodly.Lifecycle.{mark_stopped}
use knpodly.Lifecycle.Answering.{fake_client-Answers, stop_vm-answers}
use knpodly.Tests.Samples.{leo, env, ada, ubuntu, waiting, live, world}
use knpodly.Base.{List, ◌∷◌, false}
use knpodly.Models.{VmSession}

abbrev busy : List VmSession
busy = live ∷ []

busy-IsLoaded : IsLoaded busy live
unfolding index_ok find_session
busy-IsLoaded = record { indexed = refl; stored = refl }

pub queue-IsLoaded : IsLoaded (waiting ∷ []) waiting
unfolding index_ok find_session
queue-IsLoaded = record { indexed = refl; stored = refl }

stop_vm-Stops_example :
    Stops env
      (world busy)
      live
      "user_stop"
      false
      busy-IsLoaded
      refl
      (stop_vm env live "user_stop" false (world busy))
stop_vm-Stops_example = stop_vm-Stops env (world busy) live "user_stop" false busy-IsLoaded refl

extend_session-Extends_example :
    Extends env (world busy) live busy-IsLoaded (extend_session env live (world busy))
extend_session-Extends_example = extend_session-Extends env (world busy) live busy-IsLoaded

launch_vm-Launches_example :
    Launches env ada "ubuntu-24.04" (world []) (launch_vm env ada "ubuntu-24.04" (world []))
launch_vm-Launches_example = launch_vm-Launches env ada "ubuntu-24.04" (world [])

provision_vm-Provisions_example :
    Provisions env
      (world (waiting ∷ []))
      waiting
      ubuntu
      queue-IsLoaded
      refl
      (provision_vm env waiting ubuntu (world (waiting ∷ [])))
provision_vm-Provisions_example =
    provision_vm-Provisions env (world (waiting ∷ [])) waiting ubuntu queue-IsLoaded refl

busy_fresh : find_session 100 busy ≡ none
unfolding find_session
busy_fresh = refl

busy_room :
    leb_ℤ
      (get_active_policy env (world busy)).max_concurrent_vms_total
      (pos (length (where_rows active busy)))
    ≡ false
unfolding get_active_policy
busy_room = refl

-- A launch by a lecturer beside the session of a student.
launch_vm-Admits_example :
    ((s : VmSession) × (w' : World Domains) × (launch_vm env leo "ubuntu-24.04" (world busy)
        ≡ (ok s, w')))
    ↔ (active_of leo.id busy ≡ [])
launch_vm-Admits_example =
    launch_vm-Admits env leo "ubuntu-24.04" (world busy) ubuntu busy-IsLoaded.indexed busy_fresh
      refl busy_room refl refl

stop_vm-answers_example :
    (w' : World Domains) × Runs
      (stop_vm env live "expired" false)
      (world busy)
      (ok (mark_stopped "expired" (pos 60000000) live), w')
    × (w'.sessions ≡ update_rows 41 (mark_stopped "expired" (pos 60000000)) busy)
stop_vm-answers_example =
    stop_vm-answers env fake_client-Answers (world busy) live "expired" busy-IsLoaded refl
