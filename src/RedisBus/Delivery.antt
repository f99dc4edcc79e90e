-- ===== src/RedisBus/Delivery.antt =====
-- What the listener of a replica brings to a dashboard socket.
use knpodly.Base.{
  ℕ, zero, suc, ◌+◌, ◌≡◌, Bool, true, Option, none, some, List, [], ◌∷◌, ◌++◌, map, ◌==◌,
  if◌then◌else◌,
}
use knpodly.Python.{Json}
use knpodly.World.{Event}
use knpodly.RedisBus.{Wire, Message, subscribe, message, Broadcast, Replica, payload_of}

-- How often a socket stands in a list.
abbrev pub count : ℕ → List ℕ → ℕ
count ws [] = 0
count ws (x ∷ xs) = (if x == ws then 1 else 0) + count ws xs

-- The sockets from a position on.
abbrev from : ℕ → List ℕ → List ℕ
from i [] = []
from zero (x ∷ xs) = x ∷ xs
from (suc i) (x ∷ xs) = from i xs

-- As often as the socket is still to come.
abbrev repeat : ℕ → Json → List Json
repeat zero payload = []
repeat (suc n) payload = payload ∷ repeat n payload

module _ (wire : Wire) where
  -- The events among the messages of the buffer, as the listener reads them.
  abbrev read_message : Message → Option Json
  read_message subscribe = none
  read_message (message text) = wire.loads text

  abbrev known : Option Json → List Json
  known none = []
  known (some payload) = payload ∷ []

  abbrev readable : List Message → List Json
  readable [] = []
  readable (m ∷ rest) = known (read_message m) ++ readable rest

  -- `json.loads` reads what `json.dumps` wrote for the event.
  abbrev pub Carried : Event → Type 0
  Carried e = wire.loads (wire.dumps (payload_of wire e)) ≡ some (payload_of wire e)

  module _ (alive : ℕ → Bool) (ws : ℕ) (living : alive ws ≡ true) where
    -- What the socket will still get of a broadcast.
    abbrev owed : Option Broadcast → List ℕ → List Json
    owed none sockets = []
    owed (some b) sockets = repeat (count ws (from b.index sockets)) b.payload

    abbrev dead_of : Option Broadcast → List ℕ
    dead_of none = []
    dead_of (some b) = b.dead

    -- The socket stands once in the channel, and has got or will get every event.
    record Inv (first : Replica) (r : Replica) : Type 0 where
      once : count ws (r.manager "dashboard") ≡ 1
      spared : count ws (dead_of r.sending) ≡ 0
      told :
          r.received ws ++ owed r.sending (r.manager "dashboard") ++ readable r.buffer
          ≡ first.received ws ++ map (payload_of wire) r.published

    -- The listener takes a message, while no broadcast is on its way.
    record Taken (m : Message) (r t : Replica) : Type 0 where
      manager : t.manager "dashboard" ≡ r.manager "dashboard"
      received : t.received ws ≡ r.received ws
      buffer : t.buffer ≡ r.buffer
      published : t.published ≡ r.published
      spared : count ws (dead_of t.sending) ≡ 0
      due : owed t.sending (t.manager "dashboard") ≡ known (read_message m)

    -- A round of a broadcast, and its end.
    record Sent (b : Broadcast) (r t : Replica) : Type 0 where
      once : count ws (t.manager "dashboard") ≡ 1
      spared : count ws (dead_of t.sending) ≡ 0
      got :
          t.received ws ++ owed t.sending (t.manager "dashboard")
          ≡ r.received ws ++ owed (some b) (r.manager "dashboard")
