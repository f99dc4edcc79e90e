-- ===== src/System/Ports/Rows.antt =====
-- VNC ports of the active rows of vm_sessions, and what changes of the rows do to them.
use knpodly.Base.{
  ℕ, ◌≡◌, ◌≢◌, sym, ap, ◌∙◌, true, false, Option, none, some, Option-cases, List, [], ◌∷◌, ◌++◌,
  arith, inl, inr, ◌⊎◌, Bool-cases, ◌==◌, ==_iff, if◌then◌else◌, contains, contains-erase,
}
use mathlib.Core.Path.{subst}
use knpodly.Models.{Uuid, VmSession}
use knpodly.World.Tables.{active, update_rows, find_session}
use knpodly.World.Tables.Laws.{find-append, find-update_self, find-update_ne}
use knpodly.Lifecycle.Stop.{ports_without}

-- The row of that key is active and has that port.
pub record Holds (rows : List VmSession) (k : Uuid) (port : ℕ) : Type 0 where
  pub row : VmSession
  pub found : find_session k rows ≡ some row
  pub open_session : active row ≡ true
  pub at : row.vnc_port ≡ some port

-- Every port of an active session is in the Redis set, and no two have one port.
pub record PortsHeld (rows : List VmSession) (ports : List ℕ) : Type 0 where
  pub claimed : (k : Uuid) (port : ℕ) → Holds rows k port → contains port ports ≡ true
  pub alone : (j k : Uuid) (port : ℕ) → Holds rows j port → Holds rows k port → j ≡ k

-- A table in which every active session has the port that it had.
no_new-PortsHeld :
    (rows rows' : List VmSession) (ports : List ℕ)
    → ((k : Uuid) (port : ℕ) → Holds rows' k port → Holds rows k port)
    → PortsHeld rows ports
    → PortsHeld rows' ports
no_new-PortsHeld rows rows' ports back held = record {
  claimed = λ k port h. held.claimed k port (back k port h);
  alone = λ j k port h h'. held.alone j k port (back j port h) (back k port h');
}

module _ (s : VmSession) (rows : List VmSession) (change : VmSession → VmSession)
    (same_id : (r : VmSession) → (change r).id ≡ r.id)
    (stored : find_session s.id rows ≡ some s) where
  -- A row of the table after an update is the changed one or an old one.
  updated-cases :
      (k : Uuid) (port : ℕ)
      → Holds (update_rows s.id change rows) k port
      → ((k ≡ s.id) × (active (change s) ≡ true) × ((change s).vnc_port ≡ some port))
        ⊎ ((k ≢ s.id) × Holds rows k port)
  updated-cases k port h = elim (Bool-cases (k == s.id)) [
    | inl e ↦
        let own : k ≡ s.id = (==_iff k s.id).0 e in
        let (opened, at) =
          changed (subst (λ (j : Uuid). Holds (update_rows s.id change rows) j port) own h) in
        inl (own, opened, at)
    | inr e ↦
        let apart : k ≢ s.id = λ own. cc (let same = (==_iff k s.id).1 own in sym e ∙ same) in
        inr (
          apart,
          record {
            row = h.row;
            found = sym (find-update_ne s.id change same_id k rows apart) ∙ h.found;
            open_session = h.open_session;
            at = h.at;
          },
        )
  ]
    where
      changed :
          Holds (update_rows s.id change rows) s.id port
          → (active (change s) ≡ true) × ((change s).vnc_port ≡ some port)
      changed h =
          let here : h.row ≡ change s =
            cc (sym h.found ∙ find-update_self s.id change same_id rows s stored) in
          (ap active (sym here) ∙ h.open_session, ap VmSession.vnc_port (sym here) ∙ h.at)

  module _ (ports : List ℕ) (held : PortsHeld rows ports) where
    own-Holds : (port : ℕ) → active s ≡ true → s.vnc_port ≡ some port → Holds rows s.id port
    own-Holds port open_session at = record {
      row = s;
      found = stored;
      open_session = open_session;
      at = at;
    }

    -- The change opens no session, and moves no port.
    pub still-PortsHeld :
        (active (change s) ≡ true → (active s ≡ true) × ((change s).vnc_port ≡ s.vnc_port))
        → PortsHeld (update_rows s.id change rows) ports
    still-PortsHeld still =
        no_new-PortsHeld rows (update_rows s.id change rows) ports
          (λ k port h. elim (updated-cases k port h) [
            | inl (own, opened, at) ↦
                let (before, same) = still opened in
                subst (λ (j : Uuid). Holds rows j port) (sym own)
                  (own-Holds port before (sym same ∙ at))
            | inr (apart, old) ↦ old
          ])
          held

    -- The change closes the session, and its port is released.
    pub closed-PortsHeld :
        active s ≡ true
        → active (change s) ≡ false
        → (port : Option ℕ) → s.vnc_port ≡ port
        → PortsHeld (update_rows s.id change rows) (ports_without port ports)
    closed-PortsHeld before closed none at = still-PortsHeld (λ opened. cc)
    closed-PortsHeld before closed (some port) at = record {
      claimed = λ k q h. elim (updated-cases k q h) [
        | inl (own, opened, _) ↦ cc
        | inr (apart, old) ↦ rw (contains-erase port q ports) (left k q apart old)
      ];
      alone = λ j k q h h'. elim (updated-cases j q h) [
        | inl (own, opened, _) ↦ cc
        | inr (_, old) ↦ elim (updated-cases k q h') [
          | inl (own, opened, _) ↦ cc
          | inr (_, old') ↦ held.alone j k q old old'
        ]
      ];
    }
      where
        left :
            (k : Uuid) (q : ℕ)
            → k ≢ s.id
            → Holds rows k q
            → (if port == q then false else contains q ports) ≡ true
        left k q apart old = elim (Bool-cases (port == q)) [
          | inl e ↦
              let same : port ≡ q = (==_iff port q).0 e in
              absurd (apart (held.alone k s.id q old (own-Holds q before (at ∙ ap some same))))
          | inr e ↦ rw e (held.claimed k q old)
        ]

    -- The change gives the session a port that was free.
    pub opened-PortsHeld :
        (port : ℕ)
        → contains port ports ≡ false
        → (change s).vnc_port ≡ some port
        → PortsHeld (update_rows s.id change rows) (port ∷ ports)
    opened-PortsHeld port free at = record {
      claimed = λ k q h. elim (updated-cases k q h) [
        | inl (own, _, mine) ↦ let same = given_port q mine in ground arith
        | inr (_, old) ↦ let before = held.claimed k q old in ground arith
      ];
      alone = λ j k q h h'. elim (updated-cases j q h) [
        | inl (own, _, mine) ↦ elim (updated-cases k q h') [
          | inl (own', _, _) ↦ own ∙ sym own'
          | inr (_, old') ↦ absurd (taken k q mine old')
        ]
        | inr (_, old) ↦ elim (updated-cases k q h') [
          | inl (_, _, mine') ↦ absurd (taken j q mine' old)
          | inr (_, old') ↦ held.alone j k q old old'
        ]
      ];
    }
      where
        given_port : (q : ℕ) → (change s).vnc_port ≡ some q → port ≡ q
        given_port q mine = cc

        taken : (k : Uuid) (q : ℕ) → (change s).vnc_port ≡ some q → Holds rows k q → ⊥
        taken k q mine old =
            let same = given_port q mine in
            let before = held.claimed k q old in
            let clash : contains port ports ≡ true =
              ap (λ (n : ℕ). contains n ports) same ∙ before in
            cc

-- One more port in the set does no harm.
pub more-PortsHeld :
    (rows : List VmSession) (ports : List ℕ) (port : ℕ)
    → PortsHeld rows ports
    → PortsHeld rows (port ∷ ports)
more-PortsHeld rows ports port held = record {
  claimed = λ k q h. let before = held.claimed k q h in ground arith;
  alone = held.alone;
}

find-append_old :
    (k : Uuid) (rows : List VmSession) (s r : VmSession)
    → find_session k rows ≡ some r
    → find_session k (rows ++ s ∷ []) ≡ some r
unfolding find_session
find-append_old k [] s r h = cc
find-append_old k (x ∷ rows) s r h = ground (arith, find-append_old k rows s r)

-- A new row without a port.
pub launched-PortsHeld :
    (rows : List VmSession) (s : VmSession) (ports : List ℕ)
    → s.vnc_port ≡ none
    → PortsHeld rows ports
    → PortsHeld (rows ++ s ∷ []) ports
launched-PortsHeld rows s ports unset = no_new-PortsHeld rows (rows ++ s ∷ []) ports (λ k port h.
    elim (Option-cases (find_session k rows)) [
      | inl absent ↦ absurd (unset_row k port absent h)
      | inr (r, found) ↦
          let same : r ≡ h.row = cc (sym (find-append_old k rows s r found) ∙ h.found) in
          record {
            row = r;
            found = found;
            open_session = ap active same ∙ h.open_session;
            at = ap VmSession.vnc_port same ∙ h.at;
          }
    ])
  where
    unset_row :
        (k : Uuid) (port : ℕ) → find_session k rows ≡ none → Holds (rows ++ s ∷ []) k port → ⊥
    unset_row k port absent h =
        let added = sym (find-append k rows s absent) ∙ h.found in
        elim (Bool-cases (s.id == k)) [
          | inl e ↦
              let mine : s ≡ h.row = cc (rw e at added) in
              let port_of = sym unset ∙ ap VmSession.vnc_port mine ∙ h.at in cc
          | inr e ↦ let bad = rw e at added in cc
        ]
