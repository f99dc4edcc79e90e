-- ===== src/Tests/Api.antt =====
-- The routes at sample states.
use knpodly.Base.{◌≢◌, ◌≡◌, ◌⊎◌, refl, true, ◌∷◌, [], none, some, List}
use knpodly.Exec.{ok, err, http_exception}
use knpodly.Models.{Uuid, User, VmSession}
use knpodly.World.Tables.{index_ok, find_session}
use knpodly.Lifecycle.{active_of}
use knpodly.Api.Vms.{with_console_url, get_my_active_vm, post_launch, post_force_stop, list_all_vms}
use knpodly.Api.Vms.Access.{StudentGets, student-Refused}
use knpodly.Api.Vms.Launch.{Responds, post_launch-Responds}
use knpodly.Api.Vms.Mine.{get_my_active_vm-single}
use knpodly.Base.{false}
use knpodly.World.{World, Env}
use knpodly.World.Saves.{IsLoaded}
use knpodly.Libvirt.Fake.{Domains}
use knpodly.Lifecycle.{stop_vm}
use knpodly.Lifecycle.Answering.{fake_client-Answers}
use knpodly.Api.Console.{console_ws, relayed, closed}
use knpodly.Api.Console.Tokens.{console_ws-until_stop}
use knpodly.Api.Sockets.{vm_activity_ws}
use knpodly.Api.Sockets.Activity.{after_messages, vm_activity_ws-touches}
use knpodly.Tests.Samples.{builtins, env, ada, live, world}

abbrev eve : User
eve = record ada { id = 3; username = "eve" }

abbrev busy : List VmSession
busy = live ∷ []

busy-index_ok : index_ok busy ≡ true
unfolding index_ok
busy-index_ok = refl

live_found : find_session 41 busy ≡ some live
unfolding find_session
live_found = refl

none_found : find_session 99 busy ≡ none
unfolding find_session
none_found = refl

student-Refused_example :
    StudentGets env (world busy) eve 41 (find_session 41 (world busy).sessions)
    × (post_force_stop env eve 41 (world busy)
        ≡ (err (http_exception 403 "Insufficient permissions"), world busy))
    × (list_all_vms env eve (world busy)
        ≡ (err (http_exception 403 "Insufficient permissions"), world busy))
student-Refused_example = student-Refused env (world busy) eve 41 busy-index_ok refl

post_launch-Responds_example :
    Responds env eve "ubuntu-24.04" (world busy) (post_launch env eve "ubuntu-24.04" (world busy))
post_launch-Responds_example = post_launch-Responds env eve "ubuntu-24.04" (world busy)

get_my_active_vm-single_example :
    ((active_of ada.id busy ≡ []) × (get_my_active_vm env ada (world busy) ≡ (ok none, world busy)))
    ⊎ ((s : VmSession) × (active_of ada.id busy ≡ s ∷ [])
        × (get_my_active_vm env ada (world busy)
            ≡ (ok (some (with_console_url env.settings s)), world busy)))
get_my_active_vm-single_example = get_my_active_vm-single env ada (world busy) busy-index_ok

busy-IsLoaded : IsLoaded busy live
busy-IsLoaded = record { indexed = busy-index_ok; stored = live_found }

console_ws-until_stop_example :
    (console_ws env "abc" (world busy) ≡ (ok (relayed "172.17.0.1" 5900), world busy))
    × ((s' : VmSession) × (w' : World Domains) × (stop_vm env live "user_stop" false (world busy)
          ≡ (ok s', w'))
        × (console_ws env "abc" w' ≡ (ok (closed 4001), w')))
console_ws-until_stop_example =
    console_ws-until_stop env fake_client-Answers (world busy) live "user_stop" "abc" busy-IsLoaded
      refl refl

-- it reads the id of the one session
abbrev reading : Env Domains
reading = record env { builtins = record builtins { parse_uuid = λ s. some 41 } }

vm_activity_ws-touches_example :
    ((vm_activity_ws reading "41" ("ping" ∷ "ping" ∷ []) (world busy)).0 ≡ ok none)
    × (find_session 41 (vm_activity_ws reading "41" ("ping" ∷ "ping" ∷ []) (world busy)).1.sessions
        ≡ some (after_messages reading 41 (world busy) ("ping" ∷ "ping" ∷ []) live))
    × ((k : Uuid)
        → k ≢ 41
        → find_session k
            (vm_activity_ws reading "41" ("ping" ∷ "ping" ∷ []) (world busy)).1.sessions
          ≡ find_session k busy)
vm_activity_ws-touches_example =
    vm_activity_ws-touches reading 41 "41" ("ping" ∷ "ping" ∷ []) (world busy) live refl
      busy-IsLoaded refl
