-- ===== src/ConsoleProxy/Ending.antt =====
-- The relay ends when the browser has left.
use knpodly.Base.{
  ℕ, suc, ◌+◌, ◌≤◌, ◌≡◌, refl, sym, ap, ◌∙◌, Bool, true, false, List, [], ◌∷◌, inl, inr, ◌⊎◌, arith,
  length, length-append, Bool-cases,
}
use knpodly.ConsoleProxy.{
  Frame, bytes, text, disconnect, Task, running, at_end, failed, Relay, close_writer, receive_round,
  close_websocket, read_round, Step, browser_sends, vnc_sends, vnc_closes, drops, receives,
  write_fails, drains, drain_fails, reads, reads_end, send_fails,
}

-- The browser has left: its message waits, or the task that reads it has ended.
abbrev is_disconnect : Frame → Bool
is_disconnect disconnect = true
is_disconnect _ = false

abbrev leaves_in : List Frame → Bool
leaves_in [] = false
leaves_in (f ∷ rest) = elim (is_disconnect f) [ true ↦ true | false ↦ leaves_in rest ]

abbrev pub is_running : Task → Bool
is_running running = true
is_running _ = false

abbrev pub HasLeft : Relay → Type 0
HasLeft r =
    ((leaves_in r.incoming ≡ true) × (is_running r.ws_to_tcp ≡ true))
    ⊎ ((r.writer_open ≡ false) × (is_running r.ws_to_tcp ≡ false))

abbrev rounds : Bool → ℕ → ℕ
rounds true n = suc n
rounds false n = 0

-- How many rounds the tasks have still to run, at most, on what waits.
abbrev pub rounds_left : Relay → ℕ
rounds_left r =
    rounds (is_running r.ws_to_tcp) (length r.incoming)
    + rounds (is_running r.tcp_to_ws) (length r.stream)

running_of : (t : Task) → is_running t ≡ true → t ≡ running
running_of running h = refl
running_of at_end h = cc
running_of failed h = cc

-- The browser or the VNC server sends something.
abbrev pub sends : {r t : Relay} → Step r t → Bool
sends (browser_sends r f) = true
sends (vnc_sends r b live connected) = true
sends _ = false

-- A round of one of the two tasks.
abbrev pub cost : {r t : Relay} → Step r t → ℕ
cost (receives r f rest runs free taken) = 1
cost (write_fails r f rest runs free taken) = 1
cost (drain_fails r runs waits) = 1
cost (reads r data' rest runs e some_bytes few) = 1
cost (reads_end r runs e why) = 1
cost (send_fails r data' rest runs e) = 1
cost _ = 0

-- Steps in which nothing more is sent to the relay, with the number of the rounds of its tasks.
pub data Quiet (r : Relay) : ℕ → Relay → Type 0 where
  stays : Quiet r 0 r
  goes_on :
      {n m : ℕ} {t u : Relay}
      → Quiet r n t
      → (step : Step t u) → sends step ≡ false
      → m ≡ cost step + n
      → Quiet r m u

abbrev Progress : (r t : Relay) → ℕ → Type 0
Progress r t n = HasLeft t × (n + rounds_left t ≤ rounds_left r)

-- The rounds of a task in its loop.
loop_rounds : (t : Task) (n : ℕ) → t ≡ running → rounds (is_running t) n ≡ suc n
loop_rounds t n runs = rw runs refl

rounds_mono : (b : Bool) (m n : ℕ) → m ≤ n → rounds b m ≤ rounds b n
rounds_mono true m n h = omega arith
rounds_mono false m n h = omega arith

-- The message of a browser that has left still waits behind one that is taken.
leaves_behind :
    (r : Relay) (b : List ℕ) (rest : List Frame)
    → r.ws_to_tcp ≡ running
    → r.incoming ≡ bytes b ∷ rest
    → HasLeft r
    → (leaves_in rest ≡ true) × (is_running r.ws_to_tcp ≡ true)
leaves_behind r b rest runs taken (inl (leaves, loops)) = (ap leaves_in (sym taken) ∙ leaves, loops)
leaves_behind r b rest runs taken (inr (shut, ended)) = let bad = rw runs at ended in cc

receives-Progress :
    (r : Relay) (f : Frame) (rest : List Frame)
    → r.ws_to_tcp ≡ running
    → r.incoming ≡ f ∷ rest
    → HasLeft r
    → Progress r (receive_round f (record r { incoming = rest })) 1
unfolding receive_round close_writer
receives-Progress r (bytes b) rest runs taken h = (
  inl (leaves_behind r b rest runs taken h),
  omega (
    arith,
    loop_rounds r.ws_to_tcp (length rest) runs,
    loop_rounds r.ws_to_tcp (length r.incoming) runs,
    ap length taken,
  ),
)
receives-Progress r text rest runs taken h =
    (inr (refl, refl), omega (arith, loop_rounds r.ws_to_tcp (length r.incoming) runs))
receives-Progress r disconnect rest runs taken h =
    (inr (refl, refl), omega (arith, loop_rounds r.ws_to_tcp (length r.incoming) runs))

Step-Progress :
    {r t : Relay} (step : Step r t) → sends step ≡ false → HasLeft r → Progress r t (cost step)
unfolding close_writer read_round close_websocket
Step-Progress (browser_sends r f) quiet h = cc
Step-Progress (vnc_sends r b live connected) quiet h = cc
Step-Progress (vnc_closes r) quiet h = (h, omega arith)
Step-Progress (drops r kept lost shut e) quiet h = (
  h,
  omega (
    arith,
    rounds_mono (is_running r.tcp_to_ws) (length kept) (length r.stream)
        (omega (arith, ap length e, length-append kept lost)),
  ),
)
Step-Progress (receives r f rest runs free taken) quiet h = receives-Progress r f rest runs taken h
Step-Progress (write_fails r f rest runs free taken) quiet h =
    (inr (refl, refl), omega (arith, loop_rounds r.ws_to_tcp (length r.incoming) runs))
Step-Progress (drains r runs waits) quiet h = (h, omega arith)
Step-Progress (drain_fails r runs waits) quiet h =
    (inr (refl, refl), omega (arith, loop_rounds r.ws_to_tcp (length r.incoming) runs))
Step-Progress (reads r [] rest runs e some_bytes few) quiet h = absurd (omega arith)
Step-Progress (reads r (b ∷ data') rest runs e some_bytes few) quiet h = (
  h,
  omega (
    arith,
    loop_rounds r.tcp_to_ws (length rest) runs,
    loop_rounds r.tcp_to_ws (length r.stream) runs,
    ap length e,
    length-append (b ∷ data') rest,
  ),
)
Step-Progress (reads_end r runs e why) quiet h =
    (h, omega (arith, loop_rounds r.tcp_to_ws (length r.stream) runs))
Step-Progress (send_fails r data' rest runs e) quiet h =
    (h, omega (arith, loop_rounds r.tcp_to_ws (length r.stream) runs))

Quiet-Progress : {r t : Relay} {n : ℕ} → HasLeft r → Quiet r n t → Progress r t n
Quiet-Progress h stays = (h, omega arith)
Quiet-Progress h (goes_on quiet step silent e) =
    let before = Quiet-Progress h quiet in
    let after = Step-Progress step silent before.0 in (after.0, omega (arith, before.1, after.1))

-- A next round of one of the tasks.
abbrev pub Next : Relay → Type 0
Next r = (t : Relay) × (step : Step r t) × (sends step ≡ false) × (cost step ≡ 1)

receives-Next :
    (r : Relay) (incoming : List Frame)
    → r.incoming ≡ incoming
    → leaves_in incoming ≡ true
    → r.ws_to_tcp ≡ running
    → r.draining ≡ false
    → Next r
receives-Next r [] e leaves runs free = cc
receives-Next r (f ∷ rest) e leaves runs free = (_, receives r f rest runs free e, refl, refl)

reads-Next :
    (r : Relay) (stream : List ℕ)
    → r.stream ≡ stream
    → r.writer_open ≡ false
    → r.tcp_to_ws ≡ running
    → Next r
reads-Next r [] e shut runs = (_, reads_end r runs e (inr shut), refl, refl)
reads-Next r (b ∷ rest) e shut runs =
    (_, reads r (b ∷ []) rest runs e (omega arith) (omega arith), refl, refl)

-- Both tasks have ended.
abbrev pub HasEnded : Relay → Type 0
HasEnded r = (is_running r.ws_to_tcp ≡ false) × (is_running r.tcp_to_ws ≡ false)

-- The first task waits until the VNC server has taken what was written.
abbrev pub Waits : Relay → Type 0
Waits r = (r.ws_to_tcp ≡ running) × (r.draining ≡ true)

left-cases : (r : Relay) → HasLeft r → HasEnded r ⊎ Waits r ⊎ Next r
left-cases r (inl (leaves, loops)) =
    let runs = running_of r.ws_to_tcp loops in
    elim (Bool-cases r.draining) [
      | inl waits ↦ inr (inl (runs, waits))
      | inr free ↦ inr (inr (receives-Next r r.incoming refl leaves runs free))
    ]
left-cases r (inr (shut, ended)) = elim (Bool-cases (is_running r.tcp_to_ws)) [
  | inl loops ↦ inr (inr (reads-Next r r.stream refl shut (running_of r.tcp_to_ws loops)))
  | inr over ↦ inl (ended, over)
]

-- When the browser has left, the relay ends if the VNC server takes what is written: while nothing
-- more is sent to the relay, its tasks take at most as many rounds as there are messages and bytes
-- that wait, and one more each; and until both have ended, one of them has a next round, or the one
-- that writes waits in `drain` for the VNC server, for which the code sets no limit. A send to a browser that has left
-- returns or raises.
pub relay-ends :
    (r t : Relay) (n : ℕ)
    → HasLeft r
    → Quiet r n t
    → (n ≤ rounds_left r) × (HasEnded t ⊎ Waits t ⊎ Next t)
relay-ends r t n left quiet =
    let p = Quiet-Progress left quiet in (omega (arith, p.1), left-cases t p.0)
