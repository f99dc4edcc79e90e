-- ===== src/Tests/System.antt =====
-- The whole backend from a sample state: a launch, its job, and a sweep.
use knpodly.Base.{
  pos, some, none, ◌∷◌, ◌≡◌, ◌≢◌, ◌⊎◌, inl, inr, refl, sym, true, ◌≤◌, ℕ, arith, length, [],
  Bool-cases, ◌==◌, ==_iff, contains,
}
use knpodly.World.Saves.{IsLoaded}
use knpodly.Lifecycle.{record_activity, mark_activity}
use knpodly.Lifecycle.Extend.{record_activity_lem}
use knpodly.Exec.{Result}
use mathlib.Core.Path.{subst}
use knpodly.Libvirt.Fake.{Domains}
use knpodly.World.{World, provision_vm}
use knpodly.Models.{Uuid, VmSession}
use knpodly.World.Tables.{index_ok, find_session, conflicts, update_rows}
use knpodly.System.Ports.Rows.{PortsHeld, Holds}
use knpodly.System.Ports.{begins, touches, active_ports_apart}
use knpodly.Lifecycle.{active_of}
use knpodly.System.{launch, job, sweep, act, Reach, here, acted}
use knpodly.System.OneSession.{one_active_session}
use knpodly.Tests.Samples.{env, ada, live, world}

abbrev later : World Domains
later =
    (act env sweep
      (act env (job (provision_vm 100)) (act env (launch ada "ubuntu-24.04") (world [])).1).1).1

later-Reach : Reach env (world []) later
later-Reach = acted sweep (acted (job (provision_vm 100)) (acted (launch ada "ubuntu-24.04") here))

empty_indexed : index_ok (world []).sessions ≡ true
unfolding index_ok
empty_indexed = refl

one_active_session_example : length (active_of ada.id later.sessions) ≤ 1
one_active_session_example = one_active_session env ada.id empty_indexed later-Reach

-- Two sessions that run.
abbrev other : VmSession
other = record live { id = 42; user_id = 2; vnc_port = some 5902; websocket_token = some "xyz" }

abbrev pair : World Domains
pair = world (live ∷ other ∷ [])

port_of :
    {r s : VmSession} {p q : ℕ}
    → some r ≡ some s
    → r.vnc_port ≡ some p
    → s.vnc_port ≡ some q
    → q ≡ p
port_of row at_r at_s = cc

pair-cases :
    (k : Uuid) (port : ℕ)
    → Holds pair.sessions k port
    → ((k ≡ 41) × (port ≡ 5900)) ⊎ ((k ≡ 42) × (port ≡ 5902))
unfolding find_session
pair-cases k port h = elim (Bool-cases (41 == k)) [
  | inl e ↦ inl (sym ((==_iff 41 k).0 e), port_of (rw e at h.found) refl h.at)
  | inr e ↦ elim (Bool-cases (42 == k)) [
    | inl e' ↦ inr (sym ((==_iff 42 k).0 e'), port_of (rw (e, e') at h.found) refl h.at)
    | inr e' ↦ let bad : none ≡ some h.row = rw (e, e') at h.found in cc
  ]
]

pair-PortsHeld : PortsHeld pair.sessions pair.ports
pair-PortsHeld = record {
  claimed = λ k port h. elim (pair-cases k port h) [
    | inl (_, at) ↦ rw at refl
    | inr (_, at) ↦ rw at refl
  ];
  alone = λ j k port h h'.
      let first = pair-cases j port h in let second = pair-cases k port h' in ground arith;
}

pair-IsLoaded : IsLoaded pair.sessions live
unfolding index_ok find_session conflicts
pair-IsLoaded = record { indexed = refl; stored = refl }

-- After the browser of the first was active.
abbrev touched : World Domains
touched = (record_activity live pair).1

abbrev touched_live : VmSession
touched_live = mark_activity (pos 60000000) live

touched-IsLoaded : IsLoaded touched.sessions touched_live × IsLoaded touched.sessions other
unfolding index_ok find_session conflicts update_rows
touched-IsLoaded =
    subst
      (λ (x : Result (Unit {0}) × World Domains).
        IsLoaded x.1.sessions touched_live × IsLoaded x.1.sessions other)
      (sym (record_activity_lem env pair live pair-IsLoaded))
      (record { indexed = refl; stored = refl }, record { indexed = refl; stored = refl })

active_ports_apart_example :
    (◌≢◌ {A = ℕ} 5900 5902)
    × (contains 5900 touched.ports ≡ true)
    × (contains 5902 touched.ports ≡ true)
active_ports_apart_example =
    active_ports_apart env touched_live other 5900 5902 pair-PortsHeld
      (touches live begins pair-IsLoaded) touched-IsLoaded.0 touched-IsLoaded.1
      (λ e. omega (arith, e)) refl refl refl refl
