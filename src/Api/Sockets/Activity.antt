-- ===== src/Api/Sockets/Activity.antt =====
-- What the messages on the socket for activity do to the sessions.
use knpodly.Base.{
  ℕ, suc, ◌+◌, ◌≡◌, ◌≢◌, refl, sym, ap, ◌∙◌, String, none, some, List, [], ◌∷◌, length, arith,
}
use mathlib.Core.Path.{subst}
use knpodly.Exec.{Result, ok, for_each}
use knpodly.Exec.Runs.{Runs, Runs-bind-ok}
use knpodly.Exec.Checks.{ok-bind}
use knpodly.Models.{Uuid, VmSession}
use knpodly.World.{World, Env}
use knpodly.World.Tables.{find_session, update_rows}
use knpodly.World.Tables.Laws.{find-update_ne}
use knpodly.World.Saves.{IsLoaded, save-IsLoaded}
use knpodly.Lifecycle.{mark_activity}
use knpodly.Lifecycle.Extend.{record_activity_lem}
use knpodly.Api.Sockets.{heartbeat, vm_activity_ws}

module _ {H : Type 0} (env : Env H) (id : Uuid) where
  -- The session after some messages: the last one sets its activity.
  abbrev pub after_messages : World H → List String → VmSession → VmSession
  after_messages w [] s = s
  after_messages w (m ∷ ms) s = record s {
    last_activity_at = some (w.clock (w.clock_reads + length ms));
    idle_warning_sent_at = none;
  }

  abbrev touched : World H → VmSession → World H
  touched w s = record w {
    clock_reads = suc w.clock_reads;
    sessions = update_rows s.id (mark_activity (w.clock w.clock_reads)) w.sessions;
  }

  heartbeat-Runs :
      (w : World H) (s : VmSession) (message : String)
      → IsLoaded w.sessions s
      → s.id ≡ id
      → Runs (heartbeat env id message) w (ok tt, touched w s)
  unfolding heartbeat
  heartbeat-Runs w s message loaded own =
      Runs-bind-ok _ {t = w} {a = some s} (record { at = rw (sym own) (rw (loaded.stored) refl) })
        (record { at = record_activity_lem env w s loaded })

  Touched : World H → List String → VmSession → Result (Unit {0}) × World H → Type 0
  Touched w ms s r =
      (r.0 ≡ ok tt)
      × (find_session id r.1.sessions ≡ some (after_messages w ms s))
      × ((k : Uuid) → k ≢ id → find_session k r.1.sessions ≡ find_session k w.sessions)

  later :
      (w : World H) (ms : List String) (s : VmSession)
      → after_messages (touched w s) ms (mark_activity (w.clock w.clock_reads) s)
        ≡ mark_activity (w.clock (w.clock_reads + length ms)) s
  later w [] s = ap (λ (n : ℕ). mark_activity (w.clock n) s) (omega arith)
  later w (m ∷ ms) s = ap (λ (n : ℕ). mark_activity (w.clock n) s) (omega arith)

  touched-IsLoaded :
      (w : World H) (s : VmSession)
      → IsLoaded w.sessions s
      → IsLoaded (touched w s).sessions (mark_activity (w.clock w.clock_reads) s)
  touched-IsLoaded w s loaded =
      save-IsLoaded (mark_activity (w.clock w.clock_reads)) w.sessions s loaded
        (record { id = refl; user = refl; stays_closed = λ e. e }) (λ r. refl)

  heartbeats-Touched :
      (ms : List String) (w : World H) (s : VmSession)
      → IsLoaded w.sessions s
      → s.id ≡ id
      → Touched w ms s (for_each (heartbeat env id) ms w)
  unfolding Touched
  heartbeats-Touched [] w s loaded own = (
    refl,
    subst (λ (k : Uuid). find_session k w.sessions ≡ some s) own loaded.stored,
    λ k other. refl,
  )
  heartbeats-Touched (m ∷ ms) w s loaded own =
      ok-bind (Touched w (m ∷ ms) s) _ (heartbeat-Runs w s m loaded own) (
        carry (for_each (heartbeat env id) ms (touched w s)) (
          heartbeats-Touched ms (touched w s) (mark_activity (w.clock w.clock_reads) s)
            (touched-IsLoaded w s loaded) own))
    where
      carry :
          (r : Result (Unit {0}) × World H)
          → Touched (touched w s) ms (mark_activity (w.clock w.clock_reads) s) r
          → Touched w (m ∷ ms) s r
      carry r (done, found, others) = (
        done,
        found ∙ ap some (later w ms s),
        λ k other.
            others k other ∙ find-update_ne s.id _ (λ r. refl) k w.sessions (λ e. other (e ∙ own)),
      )

  -- Whoever sends them, the messages on the socket of a stored session set its last activity to the
  -- time of the last of them and take back its idle warning, and change nothing else of it, not its
  -- expiry either; all other sessions stay as they are, and the socket is not closed by the server.
  pub vm_activity_ws-touches :
      (session_id : String) (messages : List String) (w : World H) (s : VmSession)
      → env.builtins.parse_uuid session_id ≡ some id
      → IsLoaded w.sessions s
      → s.id ≡ id
      → ((vm_activity_ws env session_id messages w).0 ≡ ok none)
        × (find_session id (vm_activity_ws env session_id messages w).1.sessions
            ≡ some (after_messages w messages s))
        × ((k : Uuid)
            → k ≢ id
            → find_session k (vm_activity_ws env session_id messages w).1.sessions
              ≡ find_session k w.sessions)
  unfolding vm_activity_ws Touched
  vm_activity_ws-touches session_id messages w s parses loaded own =
      let (done, found, others) = heartbeats-Touched messages w s loaded own in
      rw parses (refl, found, others)
