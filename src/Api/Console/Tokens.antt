-- ===== src/Api/Console/Tokens.antt =====
-- What a console token opens, and for how long.
use knpodly.Base.{
  ◌≡◌, refl, String, true, false, none, some, List, [], ◌∷◌, All, where_rows, arith, Bool-cases,
  inl, inr, ◌==◌,
}
use knpodly.Exec.{ok, gets, pure}
use knpodly.Exec.Runs.{Runs-bind-ok, Runs-refl}
use knpodly.Models.{Uuid, Time, VmSession, is_running}
use knpodly.World.{World, Env}
use knpodly.World.Tables.{active, update_rows}
use knpodly.World.Saves.{IsLoaded}
use knpodly.Lifecycle.{mark_stopped, stop_vm}
use knpodly.Lifecycle.Answering.{Answers, stop_vm-answers}
use knpodly.Api.Console.{closed, opens, relay_port, console_ws}

module _ {H : Type 0} (env : Env H) (token : String) (w : World H) where
  -- One row opens to the token, or none does.
  console_ws-one :
      (s : VmSession)
      → where_rows (opens token) w.sessions ≡ s ∷ []
      → console_ws env token w ≡ (ok (relay_port env.settings.vm_vnc_host s.vnc_port), w)
  unfolding console_ws
  console_ws-one s e =
      (Runs-bind-ok _ (Runs-refl (gets (λ w. where_rows (opens token) w.sessions)) w)
        (Runs-bind-ok _ {a = some s} (record { at = rw e }) (Runs-refl (pure _) w))).at

  console_ws-none :
      where_rows (opens token) w.sessions ≡ [] → console_ws env token w ≡ (ok (closed 4001), w)
  unfolding console_ws
  console_ws-none e =
      (Runs-bind-ok _ (Runs-refl (gets (λ w. where_rows (opens token) w.sessions)) w)
        (Runs-bind-ok _ {a = none} (record { at = rw e }) (Runs-refl (pure _) w))).at

stopped_not_running :
    (reason : String) (t : Time) (s : VmSession)
    → is_running (mark_stopped reason t s).state ≡ false
stopped_not_running reason t s = ground arith

-- All rows that open to the token have the key `k`.
abbrev OnlyKey : String → Uuid → List VmSession → Type 0
OnlyKey token k rows = All (λ r. (r.id == k) ≡ true) (where_rows (opens token) rows)

OnlyKey-tail :
    (token : String) (k : Uuid) (x : VmSession) (rows : List VmSession)
    → OnlyKey token k (x ∷ rows)
    → OnlyKey token k rows × (opens token x ≡ true → (x.id == k) ≡ true)
OnlyKey-tail token k x rows h = elim (Bool-cases (opens token x)) [
  | inl o ↦ let h' : ((x.id == k) ≡ true) × OnlyKey token k rows = rw o at h in (h'.1, λ _. h'.0)
  | inr o ↦ let h' : OnlyKey token k rows = rw o at h in (h', λ p. cc)
]

-- Once its row is closed, no row opens to the token.
opens-closed :
    (token reason : String) (t : Time) (k : Uuid) (rows : List VmSession)
    → OnlyKey token k rows
    → where_rows (opens token) (update_rows k (mark_stopped reason t) rows) ≡ []
unfolding update_rows
opens-closed token reason t k [] h = refl
opens-closed token reason t k (x ∷ rows) h =
    let (h', here) = OnlyKey-tail token k x rows h in
    ground (arith, here, stopped_not_running reason t x, opens-closed token reason t k rows h')

module _ {H : Type 0} (env : Env H) (answers : Answers env.libvirt) (w : World H) (s : VmSession)
    (reason token : String) (loaded : IsLoaded w.sessions s) (open_session : active s ≡ true) where
  -- A token that opens the console of exactly one stored active session leads to that session's own
  -- port, and changes nothing; with a driver whose shutdown and undefine do not raise, the stop of
  -- that session goes through, and after it the token is refused with code 4001.
  pub console_ws-until_stop :
      where_rows (opens token) w.sessions ≡ s ∷ []
      → (console_ws env token w ≡ (ok (relay_port env.settings.vm_vnc_host s.vnc_port), w))
        × ((s' : VmSession) × (w' : World H) × (stop_vm env s reason false w ≡ (ok s', w'))
            × (console_ws env token w' ≡ (ok (closed 4001), w')))
  console_ws-until_stop single =
      let (w', runs, rows) = stop_vm-answers env answers w s reason loaded open_session in
      let only : OnlyKey token s.id w.sessions = rw single (ground arith, tt) in
      (
        console_ws-one env token w s single,
        (
          _,
          w',
          runs.at,
          console_ws-none env token w'
              (rw rows (opens-closed token reason (w.clock w.clock_reads) s.id w.sessions only)),
        ),
      )
