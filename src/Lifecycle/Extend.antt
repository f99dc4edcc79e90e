-- ===== src/Lifecycle/Extend.antt =====
-- `extend_session` and `record_activity`.
use knpodly.Base.{
  ℕ, suc, pos, ◌+ℤ◌, ◌≤ℤ◌, leb_ℤ, leb_ℤ→lt, leb_ℤ→le, int_laws, ◌≡◌, refl, false, inl, inr, Option,
  none, some, Bool-cases,
}
use knpodly.Exec.{Result, ok, err, vm_limit_exceeded, gets, pure}
use knpodly.Exec.Runs.{
  Runs, Runs-bind-ok, Runs-bind-err, Runs-refl, Runs-raise_if-pass, Runs-raise_if-fail,
}
use knpodly.Models.{Time, minutes, VmSession}
use knpodly.World.{World, Env, read_clock}
use knpodly.World.Tables.{update_rows}
use knpodly.World.Tables.Laws.{Preserving}
use knpodly.World.Saves.{IsLoaded, save_lem, save-IsLoaded, refresh_lem}
use knpodly.Policy.{get_active_policy}
use knpodly.Lifecycle.{mark_activity, expiry_or_now, extend_session, record_activity}

-- The time that an extension counts from.
module _ {H : Type 0} where
  abbrev pub base_time : World H → Option Time → Time
  base_time w (some expires_at) = expires_at
  base_time w none = w.clock w.clock_reads

  pub expiry_or_now_lem :
      (w : World H) (expires_at : Option Time)
      → (reads : ℕ) × Runs
          (expiry_or_now expires_at)
          w
          (ok (base_time w expires_at), record w { clock_reads = reads })
  unfolding expiry_or_now
  expiry_or_now_lem w none = (suc w.clock_reads, record { at = refl })
  expiry_or_now_lem w (some t) = (w.clock_reads, record { at = refl })

module _ {H : Type 0} (env : Env H) (w : World H) (s : VmSession)
    (loaded : IsLoaded w.sessions s) where
  abbrev pub extended : VmSession → VmSession
  extended r = record r {
    expires_at =
        some (base_time w s.expires_at +ℤ minutes (get_active_policy env w).max_extension_minutes);
    extension_count = s.extension_count +ℤ pos 1;
  }

  abbrev pub Extends : Result VmSession × World H → Type 0
  Extends (ok s', w') =
      (s' ≡ extended s)
      × (w'.sessions ≡ update_rows s.id extended w.sessions)
      × (s'.extension_count ≤ℤ s.max_extensions)
  Extends (err e, w') =
      (e ≡ vm_limit_exceeded "No extensions remaining for this session.")
      × (s.max_extensions ≤ℤ s.extension_count)
      × (w' ≡ w)

  extended-Preserving : Preserving extended s
  extended-Preserving = record { id = refl; user = refl; stays_closed = λ e. e }

  extend_session-Runs :
      (reads : ℕ)
      → Runs
          (expiry_or_now s.expires_at)
          w
          (ok (base_time w s.expires_at), record w { clock_reads = reads })
      → leb_ℤ s.max_extensions s.extension_count ≡ false
      → Runs (extend_session env s) w (
        ok (extended s),
        record w { clock_reads = reads; sessions = update_rows s.id extended w.sessions },
      )
  unfolding extend_session
  extend_session-Runs reads base room =
      Runs-bind-ok _
        (Runs-raise_if-pass (vm_limit_exceeded "No extensions remaining for this session.") w room)
        (Runs-bind-ok _ (Runs-refl (gets (get_active_policy env)) w) (
          Runs-bind-ok _ base (
            Runs-bind-ok _ (save_lem _ s extended loaded extended-Preserving) (
              refresh_lem _ _
                (save-IsLoaded extended w.sessions s loaded extended-Preserving (λ r. refl))))))

  extend_session-Extends_room :
      leb_ℤ s.max_extensions s.extension_count ≡ false → Extends (extend_session env s w)
  extend_session-Extends_room room =
      let (reads, base) = expiry_or_now_lem w s.expires_at in
      rw ((extend_session-Runs reads base room).at)
        (refl, refl, omega (int_laws, leb_ℤ→lt s.max_extensions s.extension_count room))

  -- An extension of a stored session is refused, and changes nothing, only when none is left;
  -- otherwise it moves the expiry by the policy's extension minutes, counts one, stores both, changes
  -- no other field and does not pass the session's maximum of extensions. A session without an expiry
  -- is extended from the present.
  pub extend_session-Extends : Extends (extend_session env s w)
  unfolding extend_session
  extend_session-Extends = elim (Bool-cases (leb_ℤ s.max_extensions s.extension_count)) [
    | inl full ↦
        rw
          ((Runs-bind-err _ (
            Runs-raise_if-fail (vm_limit_exceeded "No extensions remaining for this session.") w
              full)).at)
          (refl, leb_ℤ→le s.max_extensions s.extension_count full, refl)
    | inr room ↦ extend_session-Extends_room room
  ]

  -- It takes and frees no port.
  pub extend_session-ports : (extend_session env s w).1.ports ≡ w.ports
  unfolding extend_session
  extend_session-ports = elim (Bool-cases (leb_ℤ s.max_extensions s.extension_count)) [
    | inl full ↦
        rw
          ((Runs-bind-err _ (
            Runs-raise_if-fail (vm_limit_exceeded "No extensions remaining for this session.") w
              full)).at)
          refl
    | inr room ↦
        let (reads, base) = expiry_or_now_lem w s.expires_at in
        rw ((extend_session-Runs reads base room).at) refl
  ]

  -- Activity on a stored session sets its last activity to the present and takes back its idle
  -- warning, and changes no other row.
  pub record_activity_lem : record_activity s w ≡ (
    ok tt,
    record w {
      clock_reads = suc w.clock_reads;
      sessions = update_rows s.id (mark_activity (w.clock w.clock_reads)) w.sessions;
    },
  )
  unfolding record_activity
  record_activity_lem =
      (Runs-bind-ok _ (Runs-refl read_clock w) (
        Runs-bind-ok _
          (save_lem _ s (mark_activity (w.clock w.clock_reads)) loaded
            (record { id = refl; user = refl; stays_closed = λ e. e }))
          (Runs-refl (pure tt) _))).at
