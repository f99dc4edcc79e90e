-- ===== src/Workers/Sweep/Loop.antt =====
-- The scheduler's loop over the running sessions: each turn changes the row of its own session.
use mathlib.Core.Path.{subst}
use knpodly.Base.{
  ◌≡◌, refl, sym, ap, ◌∙◌, true, false, none, some, List, [], ◌∷◌, All, All-zip, Pairs, arith,
  Bool-cases, inl, inr, ◌==◌, if◌then◌else◌,
}
use knpodly.Exec.{ok, pure, for_each}
use knpodly.Exec.Runs.{Runs, Runs-bind-ok, Runs-refl}
use knpodly.Models.{Time, VmSession, VmLimitPolicy, is_running}
use knpodly.World.{World, Env}
use knpodly.World.Tables.{active, index_ok, find_session, update_rows}
use knpodly.World.Tables.Laws.{find-of_no_conflict, index_ok-update, find-update_ne}
use knpodly.World.Tables.Rows.{keys_apart, find_unique}
use knpodly.World.Saves.{IsLoaded}
use knpodly.Lifecycle.Answering.{Answers}
use knpodly.Workers.{check_session}
use knpodly.Workers.Sweep.Steps.{Swept, check_session-Sweeping}

module _ {H : Type 0} (env : Env H) (now : Time) (policy : VmLimitPolicy) where
  -- What the loop over `todo` does to a row, by whether the row is one of `todo`.
  abbrev pub Done : List VmSession → VmSession → VmSession → Type 0
  Done todo r r' =
      (find_session r.id todo ≡ some r → Swept now policy r r')
      × (find_session r.id todo ≡ none → r' ≡ r)

  Done-none : (rows : List VmSession) → Pairs (Done []) rows rows
  unfolding find_session
  Done-none [] = tt
  Done-none (r ∷ rows) = (((λ e. cc), (λ _. refl)), Done-none rows)

  module _ (s : VmSession) (change : VmSession → VmSession)
      (same : (r : VmSession) → (change r).id ≡ r.id) (swept : Swept now policy s (change s))
      (todo : List VmSession) (new : find_session s.id todo ≡ none) where
    -- The step for `s` in front of the rest of the loop, on one row.
    Done-row :
        (r r' : VmSession)
        → ((r.id == s.id) ≡ true → r ≡ s)
        → Done todo (if r.id == s.id then change r else r) r'
        → Done (s ∷ todo) r r'
    unfolding find_session
    Done-row r r' alone done = elim (Bool-cases (r.id == s.id)) [
      | inl e ↦
          let here = alone e in
          let done' : Done todo (change r) r' = rw e at done in
          let final : r' ≡ change s = done'.1 (ground (arith, same r, here)) ∙ ap change here in
          (
            (λ _. subst (λ x. Swept now policy x r') (sym here) (rw final swept)),
            (λ absent. ground (arith, e)),
          )
      | inr e ↦
          let done' : Done todo r r' = rw e at done in
          ((λ found. done'.0 (ground (arith, e))), (λ absent. done'.1 (ground (arith, e))))
    ]

    Done-step :
        (rows rows' : List VmSession)
        → All (λ r. (r.id == s.id) ≡ true → r ≡ s) rows
        → Pairs (Done todo) (update_rows s.id change rows) rows'
        → Pairs (Done (s ∷ todo)) rows rows'
    unfolding update_rows
    Done-step [] [] alone done = tt
    Done-step [] (r' ∷ rows') alone done = absurd done
    Done-step (r ∷ rows) [] alone done = absurd done
    Done-step (r ∷ rows) (r' ∷ rows') alone done =
        (Done-row r r' alone.0 done.0, Done-step rows rows' alone.1 done.1)

  -- What the loop needs of the rows that are still to come.
  abbrev pub Todo : World H → List VmSession → Type 0
  Todo w todo =
      All (λ s. (find_session s.id w.sessions ≡ some s) × (is_running s.state ≡ true)) todo

  abbrev pub Loops : World H → List VmSession → Type 0
  Loops w todo =
      (after : World H) × Runs (for_each (check_session env now policy) todo) w (ok tt, after)
      × Pairs (Done todo) w.sessions after.sessions

  running-active : (s : VmSession) → is_running s.state ≡ true → active s ≡ true
  running-active s h = ground arith

  Todo-step :
      (s : VmSession) (todo : List VmSession) (change : VmSession → VmSession) (w after : World H)
      → ((r : VmSession) → (change r).id ≡ r.id)
      → find_session s.id todo ≡ none
      → after.sessions ≡ update_rows s.id change w.sessions
      → All (λ r. (r.id == s.id) ≡ false) todo
      → Todo w todo
      → Todo after todo
  Todo-step s todo change w after same new rows apart h =
      All-zip todo
        (λ r e (found, running). (
          rw rows
              (find-update_ne s.id change same r.id w.sessions (λ p. ground (arith, p)) ∙ found),
          running,
        ))
        apart h

  pub sweep_loop :
      Answers env.libvirt
      → (todo : List VmSession) (w : World H) → index_ok w.sessions ≡ true
      → index_ok todo ≡ true
      → Todo w todo
      → Loops w todo
  unfolding index_ok
  sweep_loop answers [] w ix ix_todo h = (w, Runs-refl (pure tt) w, Done-none w.sessions)
  sweep_loop answers (s ∷ todo) w ix ix_todo ((found, running), h) =
      let loaded : IsLoaded w.sessions s = record { indexed = ix; stored = found } in
      let step =
        check_session-Sweeping env now policy answers w s loaded (running-active s running) in
      let new = find-of_no_conflict s todo (ground arith) in
      let ix' : index_ok step.after.sessions ≡ true =
        rw step.rows (index_ok-update s.id step.change w.sessions s step.keeps ix found) in
      let (after, runs, done) = sweep_loop answers todo step.after ix' (ground arith) (
        Todo-step s todo step.change w step.after step.same new step.rows (keys_apart s.id todo new)
          h) in
      (
        after,
        Runs-bind-ok _ step.runs runs,
        Done-step s step.change step.same step.swept todo new w.sessions after.sessions
            (find_unique s.id w.sessions s ix found) (rw step.rows at done),
      )
