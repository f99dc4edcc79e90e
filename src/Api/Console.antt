-- ===== src/Api/Console.antt =====
-- backend/app/api/v1/routers/console.py: which VNC server, if any, a console socket is joined to.
-- ConsoleProxy has the relay of the bytes.
pub mod Tokens
use knpodly.Base.{ℕ, String, Bool, true, false, ◌&&◌, Option, none, some, List, where_rows, str_eq}
use knpodly.Exec.{Exec, pure, gets, ◌>>=◌}
use knpodly.Models.{VmSession, is_running}
use knpodly.World.{World, Env, scalar_one_or_none}

pub data ConsoleReply : Type 0 where
  -- `websocket.close(code=...)`
  closed : ℕ → ConsoleReply
  -- `relay(websocket, host, port)`, after `accept`
  relayed : String → ℕ → ConsoleReply

-- `websocket_token == token`, which is not true of NULL
abbrev pub has_token : String → Option String → Bool
has_token token none = false
has_token token (some t) = str_eq t token

abbrev pub opens : String → VmSession → Bool
opens token s = has_token token s.websocket_token && is_running s.state

abbrev pub relay_port : String → Option ℕ → ConsoleReply
relay_port host none = closed 4001
relay_port host (some port) = relayed host port

abbrev pub reply : String → Option VmSession → ConsoleReply
reply host none = closed 4001
reply host (some s) = relay_port host s.vnc_port

pub console_ws : {H : Type 0} → Env H → String → Exec (World H) ConsoleReply
console_ws env token = do
  rows ← gets (λ w. where_rows (opens token) w.sessions)
  session ← scalar_one_or_none rows
  pure (reply env.settings.vm_vnc_host session)
