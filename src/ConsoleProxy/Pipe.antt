-- ===== src/ConsoleProxy/Pipe.antt =====
-- The relay is a pipe of bytes in both directions.
use knpodly.Base.{
  append_assoc, append_nil, ℕ, ◌≡◌, refl, sym, ap, ◌∙◌, Bool, true, false, List, [], ◌∷◌, ◌++◌, inl,
  inr, Bool-cases, ◌⊎◌, ◌≢◌, arith,
}
use knpodly.ConsoleProxy.{
  Frame, bytes, text, disconnect, Task, running, at_end, failed, Relay, piping, close_writer,
  receive_round, read_round, frame_bytes, Step, browser_sends, vnc_sends, vnc_closes, drops,
  receives, write_fails, drains, drain_fails, reads, reads_end, send_fails, Reach, here, next,
}

abbrev frames_bytes : List Frame → List ℕ
frames_bytes [] = []
frames_bytes (f ∷ rest) = frame_bytes f ++ frames_bytes rest

frames_bytes-append : (a b : List Frame) → frames_bytes (a ++ b) ≡ frames_bytes a ++ frames_bytes b
frames_bytes-append [] b = refl
frames_bytes-append (f ∷ a) b =
    ap (λ (l : List ℕ). frame_bytes f ++ l) (frames_bytes-append a b)
    ∙ sym (append_assoc (frame_bytes f) (frames_bytes a) (frames_bytes b))

-- `got` is the beginning of `all`.
abbrev pub Begins : List ℕ → List ℕ → Type 0
Begins got all = (rest : List ℕ) × (all ≡ got ++ rest)

-- What the VNC server was given, by how far the task has come: all that the browser sent, what was
-- written of it, and the messages that wait.
abbrev pub Upward : Task → List ℕ → List ℕ → List Frame → Type 0
Upward running all written incoming = all ≡ written ++ frames_bytes incoming
Upward at_end all written incoming = Begins written all
Upward failed all written incoming = Begins written all

-- What the browser was given, by how far the task has come and whether bytes were dropped: all that
-- the VNC server sent, what was sent on of it, and what waits.
abbrev pub Downward : Task → Bool → List ℕ → List ℕ → List ℕ → Type 0
Downward running false all sent stream = all ≡ sent ++ stream
Downward running true all sent stream = Begins (sent ++ stream) all
Downward at_end false all sent stream = all ≡ sent
Downward at_end true all sent stream = Begins sent all
Downward failed _ all sent stream = Begins sent all

Begins-append : (got all more : List ℕ) → Begins got all → Begins got (all ++ more)
Begins-append got all more (rest, e) =
    (rest ++ more, ap (λ (l : List ℕ). l ++ more) e ∙ append_assoc got rest more)

module _ (r : Relay) where
  browser_sends-Upward :
      (f : Frame) (t : Task)
      → Upward t r.from_browser r.written r.incoming
      → Upward t (r.from_browser ++ frame_bytes f) r.written (r.incoming ++ f ∷ [])
  browser_sends-Upward f running e =
      ap (λ (l : List ℕ). l ++ frame_bytes f) e
      ∙ append_assoc r.written (frames_bytes r.incoming) (frame_bytes f)
      ∙ ap (λ (l : List ℕ). r.written ++ l)
          (sym (
            frames_bytes-append r.incoming (f ∷ [])
            ∙ ap (λ (l : List ℕ). frames_bytes r.incoming ++ l) (append_nil (frame_bytes f))))
  browser_sends-Upward f at_end h = Begins-append r.written r.from_browser (frame_bytes f) h
  browser_sends-Upward f failed h = Begins-append r.written r.from_browser (frame_bytes f) h

  -- The task takes a message, and writes it or ends.
  receives-Upward :
      (f : Frame) (rest : List Frame)
      → Upward running r.from_browser r.written r.incoming
      → r.incoming ≡ f ∷ rest
      → r.ws_to_tcp ≡ running
      → Upward
          (receive_round f (record r { incoming = rest })).ws_to_tcp
          r.from_browser
          (receive_round f (record r { incoming = rest })).written
          rest
  unfolding receive_round
  receives-Upward (bytes b) rest e taken runs =
      let e' = e ∙ ap (λ (l : List Frame). r.written ++ frames_bytes l) taken in
      rw runs (e' ∙ sym (append_assoc r.written b (frames_bytes rest)))
  receives-Upward text rest e taken runs =
      (frames_bytes rest, e ∙ ap (λ (l : List Frame). r.written ++ frames_bytes l) taken)
  receives-Upward disconnect rest e taken runs =
      (frames_bytes rest, e ∙ ap (λ (l : List Frame). r.written ++ frames_bytes l) taken)

  vnc_sends-Downward :
      (b : List ℕ) (t : Task) (d : Bool)
      → t ≢ at_end
      → d ≡ false
      → Downward t d r.from_vnc r.sent r.stream
      → Downward t d (r.from_vnc ++ b) r.sent (r.stream ++ b)
  vnc_sends-Downward b running false live kept e =
      ap (λ (l : List ℕ). l ++ b) e ∙ append_assoc r.sent r.stream b
  vnc_sends-Downward b running true live kept h = cc
  vnc_sends-Downward b at_end d live kept h = absurd (live refl)
  vnc_sends-Downward b failed d live kept h = Begins-append r.sent r.from_vnc b h

  drops-Downward :
      (kept lost : List ℕ) (t : Task) (d : Bool)
      → r.stream ≡ kept ++ lost
      → Downward t d r.from_vnc r.sent r.stream
      → Downward t true r.from_vnc r.sent kept
  drops-Downward kept lost running false e h =
      (lost, h ∙ ap (λ (l : List ℕ). r.sent ++ l) e ∙ sym (append_assoc r.sent kept lost))
  drops-Downward kept lost running true e (rest, h) = (
    lost ++ rest,
    h
        ∙ ap (λ (l : List ℕ). l ++ rest)
            (ap (λ (l : List ℕ). r.sent ++ l) e ∙ sym (append_assoc r.sent kept lost))
        ∙ append_assoc (r.sent ++ kept) lost rest,
  )
  drops-Downward kept lost at_end false e h = ([], h ∙ sym (append_nil r.sent))
  drops-Downward kept lost at_end true e h = h
  drops-Downward kept lost failed d e h = h

  -- The split of what waits, as a split of all.
  split :
      (data' rest : List ℕ)
      → r.stream ≡ data' ++ rest
      → r.sent ++ r.stream ≡ (r.sent ++ data') ++ rest
  split data' rest e = ap (λ (l : List ℕ). r.sent ++ l) e ∙ sym (append_assoc r.sent data' rest)

  reads-Downward :
      (data' rest : List ℕ) (d : Bool)
      → r.stream ≡ data' ++ rest
      → Downward running d r.from_vnc r.sent r.stream
      → Downward running d r.from_vnc (r.sent ++ data') rest
  reads-Downward data' rest false e h = h ∙ split data' rest e
  reads-Downward data' rest true e (more, h) =
      (more, h ∙ ap (λ (l : List ℕ). l ++ more) (split data' rest e))

  reads_end-Downward :
      (d : Bool)
      → r.stream ≡ []
      → Downward running d r.from_vnc r.sent r.stream
      → Downward at_end d r.from_vnc r.sent r.stream
  reads_end-Downward false e h = h ∙ ap (λ (l : List ℕ). r.sent ++ l) e ∙ append_nil r.sent
  reads_end-Downward true e (rest, h) = (
    rest,
    h ∙ ap (λ (l : List ℕ). l ++ rest) (ap (λ (l : List ℕ). r.sent ++ l) e ∙ append_nil r.sent),
  )

  running-Begins :
      (d : Bool) → Downward running d r.from_vnc r.sent r.stream → Begins r.sent r.from_vnc
  running-Begins false h = (r.stream, h)
  running-Begins true (rest, h) = (r.stream ++ rest, h ∙ append_assoc r.sent r.stream rest)

record Inv (r : Relay) : Type 0 where
  upward : Upward r.ws_to_tcp r.from_browser r.written r.incoming
  downward : Downward r.tcp_to_ws r.dropped r.from_vnc r.sent r.stream
  over : r.tcp_to_ws ≡ at_end → (r.vnc_closed ≡ true) ⊎ (r.writer_open ≡ false)
  cut : r.dropped ≡ true → r.writer_open ≡ false

running-Upward :
    (r : Relay)
    → Upward r.ws_to_tcp r.from_browser r.written r.incoming
    → r.ws_to_tcp ≡ running
    → r.from_browser ≡ r.written ++ frames_bytes r.incoming
running-Upward r h runs = rw runs at h

receives-Inv :
    (r : Relay) (f : Frame) (rest : List Frame)
    → r.ws_to_tcp ≡ running
    → r.incoming ≡ f ∷ rest
    → Inv r
    → Inv (receive_round f (record r { incoming = rest }))
unfolding receive_round
receives-Inv r (bytes b) rest runs taken v = record {
  upward = receives-Upward r (bytes b) rest (running-Upward r v.upward runs) taken runs;
  downward = v.downward;
  over = v.over;
  cut = v.cut;
}
receives-Inv r f rest runs taken v = record {
  upward = receives-Upward r f rest (running-Upward r v.upward runs) taken runs;
  downward = v.downward;
  over = λ e. inr refl;
  cut = λ e. refl;
}

Step-Inv : {r t : Relay} → Step r t → Inv r → Inv t
unfolding read_round close_writer
Step-Inv (browser_sends r f) v = record {
  upward = browser_sends-Upward r f r.ws_to_tcp v.upward;
  downward = v.downward;
  over = v.over;
  cut = v.cut;
}
Step-Inv (vnc_sends r b connected live) v = record {
  upward = v.upward;
  downward =
      vnc_sends-Downward r b r.tcp_to_ws r.dropped
        (λ ended. elim (v.over ended) [ inl c ↦ cc | inr c ↦ cc ])
        (elim (Bool-cases r.dropped) [ inl c ↦ let shut = v.cut c in cc | inr c ↦ c ]) v.downward;
  over = v.over;
  cut = v.cut;
}
Step-Inv (vnc_closes r) v = record {
  upward = v.upward;
  downward = v.downward;
  over = λ e. inl refl;
  cut = v.cut;
}
Step-Inv (drops r kept lost shut e) v = record {
  upward = v.upward;
  downward = drops-Downward r kept lost r.tcp_to_ws r.dropped e v.downward;
  over = v.over;
  cut = λ e. shut;
}
Step-Inv (receives r f rest runs free taken) v = receives-Inv r f rest runs taken v
Step-Inv (write_fails r f rest runs free taken) v = record {
  upward = (
    frame_bytes f ++ frames_bytes rest,
    running-Upward r v.upward runs ∙ ap (λ (l : List Frame). r.written ++ frames_bytes l) taken,
  );
  downward = v.downward;
  over = λ e. inr refl;
  cut = λ e. refl;
}
Step-Inv (drains r runs waits) v = record {
  upward = v.upward;
  downward = v.downward;
  over = v.over;
  cut = v.cut;
}
Step-Inv (drain_fails r runs waits) v = record {
  upward = (frames_bytes r.incoming, running-Upward r v.upward runs);
  downward = v.downward;
  over = λ e. inr refl;
  cut = λ e. refl;
}
Step-Inv (reads r [] rest runs e some_bytes few) v = absurd (omega arith)
Step-Inv (reads r (b ∷ data') rest runs e some_bytes few) v = record {
  upward = v.upward;
  downward = rw runs (reads-Downward r (b ∷ data') rest r.dropped e (rw runs at v.downward));
  over = v.over;
  cut = v.cut;
}
Step-Inv (reads_end r runs e why) v = record {
  upward = v.upward;
  downward = reads_end-Downward r r.dropped e (rw runs at v.downward);
  over = λ done. why;
  cut = v.cut;
}
Step-Inv (send_fails r data' rest runs e) v = record {
  upward = v.upward;
  downward = running-Begins r r.dropped (rw runs at v.downward);
  over = λ done. cc;
  cut = v.cut;
}

Reach-Inv : {r : Relay} → Reach piping r → Inv r
Reach-Inv here = record { upward = refl; downward = refl; over = λ e. cc; cut = λ e. cc }
Reach-Inv (next reach step) = Step-Inv step (Reach-Inv reach)

-- A relay that is connected passes bytes on unchanged and in order in both directions. What was
-- written to the VNC server is the beginning of what the browser has sent, and all of it but what
-- still waits while the task runs. What was sent to the browser is the beginning of what the VNC
-- server has sent; while the task runs and nothing was dropped with the connection it is all of it
-- but what still waits, and all of it once the task has come to the end of the stream.
pub relay-Pipes :
    (r : Relay)
    → Reach piping r
    → Upward r.ws_to_tcp r.from_browser r.written r.incoming
      × Downward r.tcp_to_ws r.dropped r.from_vnc r.sent r.stream
relay-Pipes r reach = let v = Reach-Inv reach in (v.upward, v.downward)
