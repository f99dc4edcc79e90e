-- ===== src/RedisBus.antt =====
-- backend/app/services/redis_bus.py: the events of all processes go through a Redis channel to each
-- replica of the API, whose listener passes them on to its dashboard sockets. `json.dumps`,
-- `json.loads` and `isoformat` are parameters. Redis keeps the order of the messages of a channel and
-- brings each to every subscriber.
pub mod Delivery
use knpodly.Base.{
  ℕ, suc, String, pos, Bool, Option, none, some, List, [], ◌∷◌, ◌++◌, ◌==◌, ◌≡◌, false,
  if◌then◌else◌, map,
}
use knpodly.Text.{uuid_str}
use knpodly.Models.{Uuid, Time}
use knpodly.Python.{Json, Fields, null, int, str, obj, end, field}
use knpodly.World.{
  Event, vm_failed, vm_expired, vm_idle_timeout, vm_idle_warning, vm_running, vm_expiry_warning,
  vm_stopped, maintenance_enabled, maintenance_disabled, catalogue_resynced,
}
use knpodly.Api.Sockets.{ConnectionManager, connect, disconnect, disconnect_all}
use knpodly.Api.Sockets.Rounds.{nth}

pub record Wire : Type 0 where
  pub dumps : Json → String
  -- `none` stands for JSONDecodeError
  pub loads : String → Option Json
  pub isoformat : Time → String

-- The messages of `pubsub.listen()`: the confirmation of a subscription, and those of the channel.
pub data Message : Type 0 where
  subscribe : Message
  message : String → Message

-- A broadcast that is on its way: where its loop stands in the live list, and the sockets that it
-- could not send to.
pub record Broadcast : Type 0 where
  pub payload : Json
  pub index : ℕ
  pub dead : List ℕ

-- A process of the API while its listener is subscribed.
pub record Replica : Type 0 where
  -- what Redis has sent and the listener has not taken
  pub buffer : List Message
  pub manager : ConnectionManager
  -- the listener waits in `manager.broadcast("dashboard", payload)`
  pub sending : Option Broadcast
  -- what each socket got, in order
  pub received : ℕ → List Json
  -- every event that was published since the subscription
  pub published : List Event

-- `ws.send_json(payload)` to the socket `x`
abbrev pub post : Json → ℕ → (ℕ → List Json) → ℕ → List Json
post payload x received ws = if x == ws then received ws ++ payload ∷ [] else received ws

module _ (wire : Wire) where
  abbrev iso : Option Time → Json
  iso none = null
  iso (some t) = str (wire.isoformat t)

  of_session : Uuid → Uuid → Fields → Fields
  of_session session_id user_id more =
      field "session_id" (str (uuid_str session_id)) (field "user_id" (str (uuid_str user_id)) more)

  -- The arguments of `publish_event` at its calls.
  pub event_type : Event → String
  event_type (vm_failed session_id user_id) = "vm.failed"
  event_type (vm_expired session_id user_id) = "vm.expired"
  event_type (vm_idle_timeout session_id user_id) = "vm.idle_timeout"
  event_type (vm_idle_warning session_id user_id) = "vm.idle_warning"
  event_type (vm_running session_id user_id expires_at) = "vm.running"
  event_type (vm_expiry_warning session_id user_id expires_at) = "vm.expiry_warning"
  event_type (vm_stopped session_id user_id reason) = "vm.stopped"
  event_type (maintenance_enabled text) = "maintenance.enabled"
  event_type maintenance_disabled = "maintenance.disabled"
  event_type (catalogue_resynced count) = "catalogue.resynced"

  pub event_data : Event → Fields
  unfolding of_session
  event_data (vm_failed session_id user_id) = of_session session_id user_id end
  event_data (vm_expired session_id user_id) = of_session session_id user_id end
  event_data (vm_idle_timeout session_id user_id) = of_session session_id user_id end
  event_data (vm_idle_warning session_id user_id) = of_session session_id user_id end
  event_data (vm_running session_id user_id expires_at) =
      of_session session_id user_id (field "expires_at" (iso expires_at) end)
  event_data (vm_expiry_warning session_id user_id expires_at) =
      of_session session_id user_id (field "expires_at" (iso (some expires_at)) end)
  event_data (vm_stopped session_id user_id reason) =
      of_session session_id user_id (field "reason" (str reason) end)
  event_data (maintenance_enabled text) = field "message" (str text) end
  event_data maintenance_disabled = end
  event_data (catalogue_resynced count) = field "count" (int (pos count)) end

  -- `{"type": event_type, **data}`
  unfoldable pub payload_of : Event → Json
  unfolding event_type event_data
  payload_of e = obj (field "type" (str (event_type e)) (event_data e))

  -- `publish_event`, as a subscriber sees it
  unfoldable pub publish : Event → Replica → Replica
  publish e r = record r {
    buffer = r.buffer ++ message (wire.dumps (payload_of e)) ∷ [];
    published = r.published ++ e ∷ [];
  }

  -- `manager.broadcast("dashboard", payload)`, up to its loop
  unfoldable pub begin_broadcast : Option Json → Replica → Replica
  begin_broadcast none r = r
  begin_broadcast (some payload) r = record r {
    sending = some (record { payload = payload; index = 0; dead = [] });
  }

  -- The body of the loop of `_listen`, up to the broadcast.
  unfoldable pub forward : Message → Replica → Replica
  unfolding begin_broadcast
  forward subscribe r = r
  forward (message data') r = begin_broadcast (wire.loads data') r

-- A round of the loop of `broadcast`, at the socket `x`.
unfoldable pub send_round : (ℕ → Bool) → Broadcast → ℕ → Replica → Replica
send_round alive b x r = record r {
  sending =
      some (record b { index = suc b.index; dead = if alive x then b.dead else b.dead ++ x ∷ [] });
  received = if alive x then post b.payload x r.received else r.received;
}

-- After the loop of `broadcast`.
unfoldable pub end_broadcast : Broadcast → Replica → Replica
end_broadcast b r = record r {
  sending = none;
  manager = disconnect_all "dashboard" b.dead r.manager;
}

-- `dashboard_ws`, when its client comes and when it leaves
unfoldable pub dashboard_join : ℕ → Replica → Replica
dashboard_join ws r = record r { manager = connect "dashboard" ws r.manager }

unfoldable pub dashboard_leave : ℕ → Replica → Replica
dashboard_leave ws r = record r { manager = disconnect "dashboard" ws r.manager }

-- The listener has just subscribed.
abbrev pub opened : ConnectionManager → (ℕ → List Json) → Replica
opened manager received = record {
  buffer = subscribe ∷ [];
  manager = manager;
  sending = none;
  received = received;
  published = [];
}

module _ (wire : Wire) (alive : ℕ → Bool) where
  -- What happens at a replica while the client of the socket `ws` stays: events and other texts come
  -- in, the listener takes a message or runs a round of its broadcast, and other clients come and
  -- leave, also between the rounds.
  pub data Flow (ws : ℕ) (first : Replica) : Replica → Type 0 where
    here : Flow ws first first
    publishes : {r : Replica} (e : Event) → Flow ws first r → Flow ws first (publish wire e r)
    garbles :
        {r : Replica} (text : String)
        → Flow ws first r
        → wire.loads text ≡ none
        → Flow ws first (record r { buffer = r.buffer ++ message text ∷ [] })
    listens :
        {r : Replica} (m : Message) (rest : List Message)
        → Flow ws first r
        → r.sending ≡ none
        → r.buffer ≡ m ∷ rest
        → Flow ws first (forward wire m (record r { buffer = rest }))
    sends :
        {r : Replica} (b : Broadcast) (x : ℕ)
        → Flow ws first r
        → r.sending ≡ some b
        → nth b.index (r.manager "dashboard") ≡ some x
        → Flow ws first (send_round alive b x r)
    ends :
        {r : Replica} (b : Broadcast)
        → Flow ws first r
        → r.sending ≡ some b
        → nth b.index (r.manager "dashboard") ≡ none
        → Flow ws first (end_broadcast b r)
    joins :
        {r : Replica} (x : ℕ)
        → Flow ws first r
        → (x == ws) ≡ false
        → Flow ws first (dashboard_join x r)
    leaves :
        {r : Replica} (x : ℕ)
        → Flow ws first r
        → (x == ws) ≡ false
        → Flow ws first (dashboard_leave x r)

  -- No client leaves while a broadcast is on its way.
  abbrev pub Steady : {ws : ℕ} {first r : Replica} → Flow ws first r → Type 0
  Steady here = Unit
  Steady (publishes e flow) = Steady flow
  Steady (garbles text flow bad) = Steady flow
  Steady (listens m rest flow free e) = Steady flow
  Steady (sends b x flow e at) = Steady flow
  Steady (ends b flow e at) = Steady flow
  Steady (joins x flow apart) = Steady flow
  Steady (leaves {r} x flow apart) = Steady flow × (r.sending ≡ none)
