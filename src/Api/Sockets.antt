-- ===== src/Api/Sockets.antt =====
-- backend/app/api/v1/routers/ws.py: the connections of a process, by channel, and the socket for
-- the activity in a VM. A socket is a number; which sockets can be sent to is a parameter. A broadcast
-- runs here from its first to its last round with no other coroutine between them; Rounds lets them in.
pub mod Broadcast
pub mod Rounds
pub mod Activity
use knpodly.Base.{
  ℕ, String, Bool, true, false, not, Option, none, some, List, [], ◌∷◌, ◌++◌, str_eq, ◌==◌,
  if◌then◌else◌, contains,
}
use knpodly.Exec.{Exec, Result, ok, err, pure, gets, for_each, ◌>>=◌, ◌>>◌}
use knpodly.Models.{Uuid, VmSession}
use knpodly.World.{World, Env}
use knpodly.World.Tables.{find_session}
use knpodly.Lifecycle.{record_activity}

-- `manager.active.get(channel, [])`
abbrev pub ConnectionManager : Type 0
ConnectionManager = String → List ℕ

unfoldable pub set_channel : String → List ℕ → ConnectionManager → ConnectionManager
set_channel channel sockets m c = if str_eq channel c then sockets else m c

-- `list.remove(ws)`: the first occurrence
unfoldable pub remove_first : ℕ → List ℕ → List ℕ
remove_first ws [] = []
remove_first ws (x ∷ xs) = let rest = remove_first ws xs in if x == ws then xs else x ∷ rest

unfoldable pub connect : String → ℕ → ConnectionManager → ConnectionManager
connect channel ws m = set_channel channel (m channel ++ ws ∷ []) m

unfoldable pub disconnect : String → ℕ → ConnectionManager → ConnectionManager
disconnect channel ws m =
    if contains ws (m channel) then set_channel channel (remove_first ws (m channel)) m else m

-- `for ws in dead: self.disconnect(channel, ws)`
unfoldable pub disconnect_all : String → List ℕ → ConnectionManager → ConnectionManager
disconnect_all channel [] m = m
disconnect_all channel (ws ∷ dead) m = disconnect_all channel dead (disconnect channel ws m)

module _ (alive : ℕ → Bool) where
  -- The first loop, from what was sent and what was found dead on: the sockets that the message
  -- reached, and the dead ones.
  unfoldable pub send_each : List ℕ → List ℕ → List ℕ → List ℕ × List ℕ
  send_each [] sent dead = (sent, dead)
  send_each (ws ∷ sockets) sent dead =
      send_each sockets (if alive ws then sent ++ ws ∷ [] else sent)
        (if alive ws then dead else dead ++ ws ∷ [])

  -- The sockets that the message reached, and the connections after it.
  pub broadcast : String → ConnectionManager → List ℕ × ConnectionManager
  broadcast channel m =
      let (sent, dead) = send_each (m channel) [] [] in (sent, disconnect_all channel dead m)

module _ {H : Type 0} (env : Env H) where
  -- `if session is not None: ...`
  abbrev pub touch : Option VmSession → Exec (World H) (Unit {0})
  touch none = pure tt
  touch (some session) = record_activity session

  -- One round of the loop: a message, whatever it says.
  heartbeat : Uuid → String → Exec (World H) (Unit {0})
  heartbeat session_id message = do
    found ← gets (λ w. find_session session_id w.sessions)
    touch found

  -- The rounds until the client leaves; an exception ends them and is only logged.
  abbrev logged : Result (Unit {0}) × World H → Result (Option ℕ) × World H
  logged (r, w) = (ok none, w)

  abbrev heartbeats : Option Uuid → List String → Exec (World H) (Option ℕ)
  heartbeats none messages w = (ok (some 4000), w)
  heartbeats (some id) messages w = logged (for_each (heartbeat id) messages w)

  -- It returns the code that it closes the socket with, if it does. Nothing asks who the client is.
  pub vm_activity_ws : String → List String → Exec (World H) (Option ℕ)
  unfolding heartbeat
  vm_activity_ws session_id messages = heartbeats (env.builtins.parse_uuid session_id) messages
