-- ===== src/Workers/Sweep/Steps.antt =====
-- One turn of the scheduler's loop: what it does to the session at hand.
use mathlib.Core.Option.{some-injective}
use mathlib.Core.Path.{subst}
use knpodly.Base.{
  ℤ, ◌+ℤ◌, ◌≤ℤ◌, ◌<ℤ◌, leb_ℤ→le, leb_ℤ→lt, int_laws, ◌≢◌, ◌⊎◌, ◌-ℤ◌, leb_ℤ, ◌≡◌, refl, sym, true,
  false, ◌&&◌, Option, none, some, String, List, [], ◌∷◌, ◌++◌, arith, Bool-cases, inl, inr,
}
use knpodly.Exec.{Exec, ok, pure, ◌>>◌}
use knpodly.Exec.Runs.{Runs, Runs-bind-ok, Runs-refl}
use knpodly.Models.{minutes, Uuid, Time, VmSession, VmLimitPolicy, expired, stopped}
use knpodly.World.{World, Env, Event, vm_expiry_warning, publish_event}
use knpodly.World.Tables.{active, update_rows}
use knpodly.World.Tables.Laws.{Preserving}
use knpodly.World.Saves.{IsLoaded, save_lem}
use knpodly.Lifecycle.{mark_stopped}
use knpodly.Lifecycle.Answering.{Answers, stop_vm-answers}
use knpodly.Workers.{
  last_activity, is_due, idle_since, is_unset, mark_warned, warn_expiry, end_session, check_idle,
  check_session,
}

-- When a session is due, and how long it has been idle, as inequalities.
abbrev Due : Time → VmSession → Type 0
Due now s = (e : Time) × (s.expires_at ≡ some e) × (e ≤ℤ now)

abbrev NotDue : Time → VmSession → Type 0
NotDue now s = (e : Time) → s.expires_at ≡ some e → now <ℤ e

abbrev Idle : Time → ℤ → VmSession → Type 0
Idle now m s = last_activity s +ℤ minutes m ≤ℤ now

abbrev Busy : Time → ℤ → VmSession → Type 0
Busy now m s = now <ℤ last_activity s +ℤ minutes m

-- What becomes of a running session `s` by a sweep at `now`.
pub data Swept (now : Time) (policy : VmLimitPolicy) (s s' : VmSession) : Type 0 where
  expires :
      Due now s
      → (t : Time)
      → s' ≡ record s { state = expired; stopped_at = some t; stop_reason = some "expired" }
      → Swept now policy s s'
  times_out :
      NotDue now s
      → Idle now policy.idle_timeout_minutes s
      → (t : Time)
      → s' ≡ record s { state = stopped; stopped_at = some t; stop_reason = some "idle_timeout" }
      → Swept now policy s s'
  warned :
      NotDue now s
      → Busy now policy.idle_timeout_minutes s
      → Idle now policy.idle_warning_minutes s
      → s.idle_warning_sent_at ≡ none
      → s' ≡ record s { idle_warning_sent_at = some now }
      → Swept now policy s s'
  stays :
      NotDue now s
      → Busy now policy.idle_timeout_minutes s
      → Busy now policy.idle_warning_minutes s ⊎ (s.idle_warning_sent_at ≢ none)
      → s' ≡ s
      → Swept now policy s s'

is_due-Due :
    (x : Option Time) (now : Time) → is_due x now ≡ true → (e : Time) × (x ≡ some e) × (e ≤ℤ now)
is_due-Due none now h = cc
is_due-Due (some e) now h = (e, refl, leb_ℤ→le e now h)

is_due-NotDue :
    (x : Option Time) (now : Time) → is_due x now ≡ false → (e : Time) → x ≡ some e → now <ℤ e
is_due-NotDue none now h e p = cc
is_due-NotDue (some t) now h e p =
    subst (λ (t : Time). now <ℤ t) (some-injective _ _ p) (leb_ℤ→lt t now h)

idle_since-Idle : (now : Time) (m : ℤ) (s : VmSession) → idle_since now m s ≡ true → Idle now m s
unfolding idle_since
idle_since-Idle now m s h = omega (int_laws, leb_ℤ→le (minutes m) (now -ℤ last_activity s) h)

idle_since-Busy : (now : Time) (m : ℤ) (s : VmSession) → idle_since now m s ≡ false → Busy now m s
unfolding idle_since
idle_since-Busy now m s h = omega (int_laws, leb_ℤ→lt (minutes m) (now -ℤ last_activity s) h)

unset_of : (x : Option Time) → is_unset x ≡ true → x ≡ none
unset_of none h = refl
unset_of (some t) h = cc

set_of : (x : Option Time) → is_unset x ≡ false → x ≢ none
set_of none h p = cc
set_of (some t) h p = cc

-- The test for the warning, read back.
late_of :
    (now : Time) (m : ℤ) (s : VmSession)
    → (idle_since now m s && is_unset s.idle_warning_sent_at) ≡ true
    → Idle now m s × (s.idle_warning_sent_at ≡ none)
late_of now m s h =
    (idle_since-Idle now m s (ground arith), unset_of s.idle_warning_sent_at (ground arith))

early_of :
    (now : Time) (m : ℤ) (s : VmSession)
    → (idle_since now m s && is_unset s.idle_warning_sent_at) ≡ false
    → Busy now m s ⊎ (s.idle_warning_sent_at ≢ none)
early_of now m s h = elim (Bool-cases (idle_since now m s)) [
  | inl idle ↦ inr (set_of s.idle_warning_sent_at (ground (arith, idle)))
  | inr busy ↦ inl (idle_since-Busy now m s busy)
]

update_rows-same : (k : Uuid) (rows : List VmSession) → update_rows k (λ r. r) rows ≡ rows
unfolding update_rows
update_rows-same k [] = refl
update_rows-same k (x ∷ rows) = ground (arith, update_rows-same k rows)

closed-Preserving :
    (reason : String) (t : Time) (s : VmSession)
    → active s ≡ true
    → Preserving (mark_stopped reason t) s
closed-Preserving reason t s e = record { id = refl; user = refl; stays_closed = λ _. e }

module _ {H : Type 0} (env : Env H) (now : Time) (policy : VmLimitPolicy) where
  -- `m` ends well and changes the row of `s` alone, as a sweep may.
  pub record Sweeping (m : Exec (World H) (Unit {0})) (s : VmSession) (w : World H) : Type 0 where
    pub after : World H
    pub change : VmSession → VmSession
    pub runs : Runs m w (ok tt, after)
    pub rows : after.sessions ≡ update_rows s.id change w.sessions
    pub keeps : Preserving change s
    pub same : (r : VmSession) → (change r).id ≡ r.id
    pub swept : Swept now policy s (change s)

  module _ (answers : Answers env.libvirt) (w : World H) (s : VmSession)
      (loaded : IsLoaded w.sessions s) (open_session : active s ≡ true) where
    end_session-Sweeping :
        (reason : String) (event : Event)
        → Swept now policy s (mark_stopped reason (w.clock w.clock_reads) s)
        → Sweeping (end_session env s reason event) s w
    unfolding end_session
    end_session-Sweeping reason event swept =
        let (after, runs, rows) = stop_vm-answers env answers w s reason loaded open_session in
        record {
          after = _;
          change = mark_stopped reason (w.clock w.clock_reads);
          runs = Runs-bind-ok _ runs (Runs-refl (publish_event event) after);
          rows = rows;
          keeps = closed-Preserving reason (w.clock w.clock_reads) s open_session;
          same = λ r. refl;
          swept = swept;
        }

    check_idle-Sweeping : NotDue now s → Sweeping (check_idle env now policy s) s w
    unfolding check_idle
    check_idle-Sweeping later = elim (Bool-cases (idle_since now policy.idle_timeout_minutes s)) [
      | inl idle ↦ rw idle (
          end_session-Sweeping "idle_timeout" _
            (times_out later (idle_since-Idle now policy.idle_timeout_minutes s idle) _ refl))
      | inr busy ↦
          rw busy
            (elim (Bool-cases
              (idle_since now policy.idle_warning_minutes s && is_unset s.idle_warning_sent_at)) [
                | inl late ↦ rw late (record {
                  after = _;
                  change = mark_warned now;
                  runs =
                      Runs-bind-ok _ (save_lem w s (mark_warned now) loaded warned-Preserving)
                        (Runs-refl (publish_event _) _);
                  rows = refl;
                  keeps = warned-Preserving;
                  same = λ r. refl;
                  swept =
                      let (idle, unset) = late_of now policy.idle_warning_minutes s late in
                      warned later (idle_since-Busy now policy.idle_timeout_minutes s busy) idle
                        unset refl;
                })
                | inr early ↦ rw early (record {
                  after = w;
                  change = λ r. r;
                  runs = Runs-refl (pure tt) w;
                  rows = sym (update_rows-same s.id w.sessions);
                  keeps = record { id = refl; user = refl; stays_closed = λ e. e };
                  same = λ r. refl;
                  swept =
                      stays later (idle_since-Busy now policy.idle_timeout_minutes s busy)
                        (early_of now policy.idle_warning_minutes s early) refl;
                })
              ])
    ]
      where
        warned-Preserving : Preserving (mark_warned now) s
        warned-Preserving = record { id = refl; user = refl; stays_closed = λ e. e }

  -- A warning publishes an event at most.
  warn_expiry-events :
      (w : World H) (s : VmSession) (expires_at : Option Time)
      → (events : List Event) × Runs
          (warn_expiry env now s expires_at)
          w
          (ok tt, record w { events = events })
  unfolding warn_expiry
  warn_expiry-events w s none = (w.events, Runs-refl (pure tt) w)
  warn_expiry-events w s (some t) =
      let warn_at = t -ℤ minutes env.settings.session_expiry_warning_minutes in
      elim (Bool-cases (leb_ℤ warn_at now && is_unset s.idle_warning_sent_at)) [
        | inl e ↦ (w.events ++ vm_expiry_warning s.id s.user_id t ∷ [], record { at = rw e })
        | inr e ↦ (w.events, record { at = rw e })
      ]

  pub check_session-Sweeping :
      Answers env.libvirt
      → (w : World H) (s : VmSession) → IsLoaded w.sessions s
      → active s ≡ true
      → Sweeping (check_session env now policy s) s w
  unfolding check_session
  check_session-Sweeping answers w s loaded open_session =
      elim (Bool-cases (is_due s.expires_at now)) [
        | inl due ↦ rw due (
            end_session-Sweeping answers w s loaded open_session "expired" _
              (expires (is_due-Due s.expires_at now due) _ refl))
        | inr later ↦ rw later (
            warned_first (is_due-NotDue s.expires_at now later)
              (warn_expiry-events w s s.expires_at))
      ]
    where
      warned_first :
          NotDue now s
          → (events : List Event) × Runs
              (warn_expiry env now s s.expires_at)
              w
              (ok tt, record w { events = events })
          → Sweeping (warn_expiry env now s s.expires_at >> check_idle env now policy s) s w
      warned_first later (events, runs) =
          let rest =
            check_idle-Sweeping answers (record w { events = events }) s loaded open_session
              later in
          record {
            after = rest.after;
            change = rest.change;
            runs = Runs-bind-ok _ runs rest.runs;
            rows = rest.rows;
            keeps = rest.keeps;
            same = rest.same;
            swept = rest.swept;
          }
