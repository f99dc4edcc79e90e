-- ===== src/ConsoleProxy.antt =====
-- backend/app/services/console_proxy.py: the relay between a console socket and the VNC server of a
-- VM. Its two tasks run side by side, a receive or a read at a time; the browser, the VNC server and the
-- network between them are the environment.
pub mod Pipe
pub mod Ending
use knpodly.Base.{
  ℕ, zero, suc, ◌+◌, ◌≤◌, ◌<◌, ◌≡◌, ◌⊎◌, Bool, true, false, List, [], ◌∷◌, ◌++◌, length,
  if◌then◌else◌,
}

-- `CHUNK_SIZE`
abbrev pub chunk_size : ℕ
chunk_size = 65536

-- What `websocket.receive` gives: `receive_bytes` raises KeyError on a text, and WebSocketDisconnect
-- when the browser has left.
pub data Frame : Type 0 where
  bytes : List ℕ → Frame
  text disconnect : Frame

-- A task of the relay: in its loop, or ended, by the end of what it reads or by an exception.
pub data Task : Type 0 where
  running at_end failed : Task

pub record Relay : Type 0 where
  -- all bytes that the browser has sent, and the messages that wait
  pub from_browser : List ℕ
  pub incoming : List Frame
  -- the bytes that were written to the VNC server
  pub written : List ℕ
  pub writer_open : Bool
  pub ws_to_tcp : Task
  -- this task waits in `writer.drain`
  pub draining : Bool
  -- all bytes that the VNC server has sent, and those that wait
  pub from_vnc : List ℕ
  pub stream : List ℕ
  -- the VNC server has closed its side
  pub vnc_closed : Bool
  -- the network dropped bytes that waited when the connection was closed
  pub dropped : Bool
  -- the bytes that were sent to the browser
  pub sent : List ℕ
  pub websocket_open : Bool
  pub tcp_to_ws : Task

-- The connection to the VNC server has just been opened.
abbrev pub piping : Relay
piping = record {
  from_browser = [];
  incoming = [];
  written = [];
  writer_open = true;
  ws_to_tcp = running;
  draining = false;
  from_vnc = [];
  stream = [];
  vnc_closed = false;
  dropped = false;
  sent = [];
  websocket_open = true;
  tcp_to_ws = running;
}

pub data Start : Type 0 where
  -- `websocket.close(code=...)`
  refused : ℕ → Start
  gathered : Relay → Start

-- `relay`, up to `asyncio.gather`; whether `open_connection` succeeds
unfoldable pub relay : Bool → Start
relay true = gathered piping
relay false = refused 4002

-- `finally: writer.close()`
unfoldable pub close_writer : Task → Relay → Relay
close_writer t r = record r { writer_open = false; ws_to_tcp = t }

-- A round of `ws_to_tcp` that does not fail to write, up to `await writer.drain()`.
unfoldable pub receive_round : Frame → Relay → Relay
unfolding close_writer
receive_round (bytes b) r = record r { written = r.written ++ b; draining = true }
receive_round text r = close_writer failed r
receive_round disconnect r = close_writer at_end r

-- `finally: await websocket.close()`
unfoldable pub close_websocket : Task → Relay → Relay
close_websocket t r = record r { websocket_open = false; tcp_to_ws = t }

-- A round of `tcp_to_ws` with what `reader.read` gave, nothing at the end.
unfoldable pub read_round : List ℕ → Relay → Relay
unfolding close_websocket
read_round [] r = close_websocket at_end r
read_round (b ∷ data') r = record r { sent = r.sent ++ (b ∷ data') }

abbrev pub frame_bytes : Frame → List ℕ
frame_bytes (bytes b) = b
frame_bytes _ = []

pub data Step : Relay → Relay → Type 0 where
  browser_sends :
      (r : Relay) (f : Frame)
      → Step r (record r {
        from_browser = r.from_browser ++ frame_bytes f;
        incoming = r.incoming ++ f ∷ [];
      })
  vnc_sends :
      (r : Relay) (b : List ℕ)
      → r.vnc_closed ≡ false
      → r.writer_open ≡ true
      → Step r (record r { from_vnc = r.from_vnc ++ b; stream = r.stream ++ b })
  vnc_closes : (r : Relay) → Step r (record r { vnc_closed = true })
  drops :
      (r : Relay) (kept lost : List ℕ)
      → r.writer_open ≡ false
      → r.stream ≡ kept ++ lost
      → Step r (record r { stream = kept; dropped = true })
  receives :
      (r : Relay) (f : Frame) (rest : List Frame)
      → r.ws_to_tcp ≡ running
      → r.draining ≡ false
      → r.incoming ≡ f ∷ rest
      → Step r (receive_round f (record r { incoming = rest }))
  -- `write` raises
  write_fails :
      (r : Relay) (f : Frame) (rest : List Frame)
      → r.ws_to_tcp ≡ running
      → r.draining ≡ false
      → r.incoming ≡ f ∷ rest
      → Step r (close_writer failed (record r { incoming = rest }))
  -- `drain` returns, when the VNC server has taken enough of what was written, which may never be
  drains :
      (r : Relay)
      → r.ws_to_tcp ≡ running
      → r.draining ≡ true
      → Step r (record r { draining = false })
  -- `drain` raises
  drain_fails :
      (r : Relay)
      → r.ws_to_tcp ≡ running
      → r.draining ≡ true
      → Step r (close_writer failed (record r { draining = false }))
  reads :
      (r : Relay) (data' rest : List ℕ)
      → r.tcp_to_ws ≡ running
      → r.stream ≡ data' ++ rest
      → 0 < length data'
      → length data' ≤ chunk_size
      → Step r (read_round data' (record r { stream = rest }))
  reads_end :
      (r : Relay)
      → r.tcp_to_ws ≡ running
      → r.stream ≡ []
      → (r.vnc_closed ≡ true) ⊎ (r.writer_open ≡ false)
      → Step r (read_round [] r)
  -- `read` or `send_bytes` raises
  send_fails :
      (r : Relay) (data' rest : List ℕ)
      → r.tcp_to_ws ≡ running
      → r.stream ≡ data' ++ rest
      → Step r (close_websocket failed (record r { stream = rest }))

pub data Reach (r : Relay) : Relay → Type 0 where
  here : Reach r r
  next : {s t : Relay} → Reach r s → Step s t → Reach r t
