-- ===== src/World/Commits.antt =====
-- Commits keep the indexes of vm_sessions: the database refuses one that breaks an index.
use knpodly.Base.{◌≡◌, refl, ◌∙◌, ap, true, inl, inr, Bool-cases, Option-cases, List, [], ◌∷◌, ◌++◌}
use knpodly.Exec.{Exec}
use knpodly.Exec.Keeps.{Keeps, Keeps-bind}
use knpodly.Models.{Uuid, VmSession}
use knpodly.World.{
  World, save, refresh, insert_session, scalar_one, scalar_one_or_none, select_session,
}
use knpodly.World.Tables.{index_ok, find_session, update_rows}

abbrev pub Indexed : {H : Type 0} → World H → Type 0
Indexed w = index_ok w.sessions ≡ true

module _ {H A : Type 0} where
  -- an action that does not touch the table
  pub Indexed-aside :
      {m : Exec (World H) A} → ((w : World H) → (m w).1.sessions ≡ w.sessions) → Keeps Indexed m
  Indexed-aside h = record { at = λ w p. ap index_ok (h w) ∙ p }

module _ {H : Type 0} where
  -- A commit that breaks an index is refused.
  pub save-Indexed :
      (change : VmSession → VmSession) (s : VmSession) → Keeps {S = World H} Indexed (save change s)
  unfolding save
  save-Indexed change s = record {
    at = λ w p. elim (Bool-cases (index_ok (update_rows s.id change w.sessions))) [
      | inl e ↦ rw e e
      | inr e ↦ rw e p
    ];
  }

  pub insert_session-Indexed : (s : VmSession) → Keeps {S = World H} Indexed (insert_session s)
  unfolding insert_session
  insert_session-Indexed s = record {
    at = λ w p. elim (Bool-cases (index_ok (w.sessions ++ s ∷ []))) [
      | inl e ↦ rw e e
      | inr e ↦ rw e p
    ];
  }

  pub refresh-Indexed : (s : VmSession) → Keeps {S = World H} Indexed (refresh s)
  unfolding refresh
  refresh-Indexed s = record {
    at = λ w p. elim (Option-cases (find_session s.id w.sessions)) [
      | inl e ↦ rw (e, refresh) p
      | inr (row, e) ↦ rw (e, refresh) p
    ];
  }

  scalar-Indexed :
      {A : Type 0} (rows : List A) → Keeps {S = World H} Indexed (scalar_one_or_none rows)
  scalar-Indexed [] = Indexed-aside (λ w. refl)
  scalar-Indexed (x ∷ []) = Indexed-aside (λ w. refl)
  scalar-Indexed (x ∷ y ∷ rows) = Indexed-aside (λ w. refl)

  pub scalar_one-Indexed :
      {A : Type 0} (rows : List A) → Keeps {S = World H} Indexed (scalar_one rows)
  scalar_one-Indexed [] = Indexed-aside (λ w. refl)
  scalar_one-Indexed (x ∷ []) = Indexed-aside (λ w. refl)
  scalar_one-Indexed (x ∷ y ∷ rows) = Indexed-aside (λ w. refl)

  pub select_session-Indexed : (id : Uuid) → Keeps {S = World H} Indexed (select_session id)
  select_session-Indexed id = Keeps-bind (Indexed-aside (λ w. refl)) (λ rows. scalar-Indexed rows)
