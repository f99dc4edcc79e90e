-- ===== src/Tests/Processes.antt =====
-- The scheduler's watcher, the event bus, the console relay and the first admin, at sample states.
use knpodly.Base.{
  inl, ◌⊎◌, ℕ, ◌+◌, ◌*◌, ◌≤◌, refl, arith, Bool, true, false, str_eq, none, some, List, [], ◌∷◌,
  if◌then◌else◌, inr,
}
use knpodly.RedisBus.{
  Wire, Replica, Broadcast, payload_of, publish, begin_broadcast, forward, send_round,
  end_broadcast, dashboard_join, subscribe, message, opened, Flow,
}
use knpodly.Api.Sockets.Rounds.{nth}
use knpodly.Api.Sockets.{connect, set_channel}
use knpodly.RedisBus
use knpodly.Api.Sockets.{ConnectionManager}
use knpodly.ConsoleProxy
use knpodly.ConsoleProxy.{
  Relay, piping, bytes, disconnect, running, at_end, receive_round, read_round, close_writer,
  close_websocket, Frame, Task,
}
use knpodly.ConsoleProxy.Ending
use knpodly.ConsoleProxy.Ending.{Quiet, rounds_left, HasEnded, Waits, relay-ends}
use knpodly.ConsoleProxy.Pipe.{Upward, Downward, relay-Pipes}
use knpodly.Python.{Json}
use knpodly.World.{World, Event, maintenance_enabled}
use knpodly.Libvirt.Fake.{Domains}
use knpodly.Workers.Resync.{
  Scheduler, start, edit, handle, claim, tick, wake, run, Reach, here, next, resync_debounce,
  claim_resync, on_any_event, done, resync,
}
use knpodly.Workers.Resync.Pace.{resyncs_paced}
use knpodly.Workers.Resync.Settling.{stays, goes_on, Next}
use knpodly.ImageDiscovery.Sync.{sync_to_database}
use knpodly.Tests.Samples.{env, world}

abbrev booted : World Domains
booted = (sync_to_database env (world [])).1

-- A directory is made; its event starts a task that sleeps, and then resyncs.
abbrev edited : World Domains
edited = record booted { image_folders = some ("arch" ∷ []) }

abbrev watching : Scheduler Domains
watching = start booted 10

abbrev resynced : Scheduler Domains
resynced = record {
  world = (resync env edited).1;
  fired = 0;
  tasks = done ∷ [];
  resync_pending = false;
  now = 10 + resync_debounce;
  begun = 1;
}

resynced-Reach : Reach env watching resynced
unfolding claim_resync on_any_event
resynced-Reach =
    next
      (next
        (next
          (next (next (next here (edit watching edited 0 refl refl)) (handle _ 0 refl))
            (claim _ [] [] refl))
          (tick _ resync_debounce))
        (wake _ [] [] (10 + resync_debounce) refl (omega arith)))
      (run _ [] [] 0 refl)

resyncs_paced_example : resynced.begun * resync_debounce + 10 ≤ resynced.now
resyncs_paced_example = resyncs_paced env 10 booted resynced resynced-Reach

-- The event is on its way, and the watcher takes its four steps; the resync opens and closes a file.
abbrev again : Scheduler Domains
again = record resynced { fired = 2 }

abbrev stirred : Scheduler Domains
stirred = record watching { world = edited; fired = 1 }

-- A wire that carries one event.
abbrev notice : Event
notice = maintenance_enabled "back at noon"

abbrev wire : Wire
unfolding payload_of
wire = record {
  dumps = λ v. "notice";
  loads = λ s.
      if str_eq s "notice"
      then some
          (payload_of (record { dumps = λ v. ""; loads = λ s. none; isoformat = λ t. "" }) notice)
      else none;
  isoformat = λ t. "";
}

abbrev sockets : ConnectionManager
sockets channel = if str_eq channel "dashboard" then 1 ∷ [] else []

abbrev all_alive : ℕ → Bool
all_alive ws = true

abbrev nothing_received : ℕ → List Json
nothing_received ws = []

abbrev subscribed : Replica
subscribed = forward wire subscribe (record (opened sockets nothing_received) { buffer = [] })

-- While the broadcast of the event is on its way, another dashboard connects, and gets it too.
abbrev sending_notice : ℕ → Broadcast
sending_notice index = record { payload = payload_of wire notice; index = index; dead = [] }

abbrev taken : Replica
taken = forward wire (message "notice") (record (publish wire notice subscribed) { buffer = [] })

abbrev noticed : Replica
noticed = end_broadcast (sending_notice 2) (
    send_round all_alive (sending_notice 1) 2
      (dashboard_join 2 (send_round all_alive (sending_notice 0) 1 taken)))

noticed-Flow : Flow wire all_alive 1 (opened sockets nothing_received) noticed
unfolding forward publish begin_broadcast send_round end_broadcast dashboard_join connect
    set_channel wire nth
noticed-Flow =
    RedisBus.ends (sending_notice 2)
      (RedisBus.sends (sending_notice 1) 2
        (RedisBus.joins 2
          (RedisBus.sends (sending_notice 0) 1
            (RedisBus.listens (message "notice") []
              (RedisBus.publishes notice (RedisBus.listens subscribe [] RedisBus.here refl refl))
              refl refl)
            refl refl)
          refl)
        refl refl)
      refl refl

-- The browser sends two bytes and leaves; the server's answer is read before its connection ends.
abbrev left : Relay
left = record piping {
  from_browser = 7 ∷ 8 ∷ [];
  written = 7 ∷ 8 ∷ [];
  writer_open = false;
  ws_to_tcp = at_end;
  from_vnc = 9 ∷ [];
  sent = 9 ∷ [];
  websocket_open = false;
  tcp_to_ws = at_end;
}

left-Reach : ConsoleProxy.Reach piping left
unfolding receive_round read_round
left-Reach =
    ConsoleProxy.next
      (ConsoleProxy.next
        (ConsoleProxy.next
          (ConsoleProxy.next
            (ConsoleProxy.next
              (ConsoleProxy.next
                (ConsoleProxy.next
                  (ConsoleProxy.next ConsoleProxy.here
                    (ConsoleProxy.browser_sends _ (bytes (7 ∷ 8 ∷ []))))
                  (ConsoleProxy.receives _ (bytes (7 ∷ 8 ∷ [])) [] refl refl refl))
                (ConsoleProxy.drains _ refl refl))
              (ConsoleProxy.vnc_sends _ (9 ∷ []) refl refl))
            (ConsoleProxy.browser_sends _ disconnect))
          (ConsoleProxy.receives _ disconnect [] refl refl refl))
        (ConsoleProxy.reads _ (9 ∷ []) [] refl refl (omega arith) (omega arith)))
      (ConsoleProxy.reads_end _ refl refl (inr refl))

relay-Pipes_example :
    Upward at_end (7 ∷ 8 ∷ []) (7 ∷ 8 ∷ []) [] × Downward at_end false (9 ∷ []) (9 ∷ []) []
relay-Pipes_example = relay-Pipes left left-Reach

-- The browser sends a byte and leaves at once.
abbrev leaving : Relay
leaving = record piping { from_browser = 7 ∷ []; incoming = bytes (7 ∷ []) ∷ disconnect ∷ [] }

abbrev leaving_more : Relay
leaving_more = record leaving { incoming = disconnect ∷ []; written = 7 ∷ []; draining = true }

leaving-Quiet : Quiet leaving 1 leaving_more
unfolding receive_round
leaving-Quiet =
    Ending.goes_on Ending.stays
      (ConsoleProxy.receives _ (bytes (7 ∷ [])) (disconnect ∷ []) refl refl refl) refl refl

relay-ends_example :
    (1 ≤ rounds_left leaving)
    × (HasEnded leaving_more ⊎ Waits leaving_more ⊎ Ending.Next leaving_more)
relay-ends_example = relay-ends leaving leaving_more 1 (inl (refl, refl)) leaving-Quiet

-- An installation with no accounts.
abbrev empty : World Domains
empty = record (world []) { users = [] }
