-- ===== src/Api/Vms/Mine.antt =====
-- The route that a page asks for the user's own session.
use knpodly.Base.{
  ◌≡◌, refl, true, ◌&&◌, ◌==◌, ◌⊎◌, inl, inr, none, some, List, [], ◌∷◌, arith, Bool-cases,
}
use knpodly.Exec.{ok, gets, pure}
use knpodly.Exec.Runs.{Runs-bind-ok, Runs-refl}
use knpodly.Models.{Uuid, User, VmSession}
use knpodly.World.{World, Env}
use knpodly.World.Tables.{active, index_ok}
use knpodly.World.Tables.Laws.{none_active-of_no_conflict}
use knpodly.Lifecycle.{active_of}
use knpodly.Api.Vms.{with_console_url, get_my_active_vm}

-- The indexes allow a user one active session at most.
pub active_of-single :
    (user_id : Uuid) (rows : List VmSession)
    → index_ok rows ≡ true
    → (active_of user_id rows ≡ []) ⊎ ((s : VmSession) × (active_of user_id rows ≡ s ∷ []))
unfolding index_ok
active_of-single user_id [] ix = inl refl
active_of-single user_id (x ∷ rows) ix = elim (Bool-cases (x.user_id == user_id && active x)) [
  | inl e ↦
      let rest : active_of user_id rows ≡ [] = ground (arith, none_active-of_no_conflict x rows) in
      inr (x, rw e (rw rest refl))
  | inr e ↦ rw e (active_of-single user_id rows (ground arith))
]

module _ {H : Type 0} (env : Env H) (user : User) (w : World H)
    (ix : index_ok w.sessions ≡ true) where
  -- While the indexes hold, the route does not fail and changes nothing: it returns the only active
  -- session of the user, or nothing if the user has none.
  pub get_my_active_vm-single :
      ((active_of user.id w.sessions ≡ []) × (get_my_active_vm env user w ≡ (ok none, w)))
      ⊎ ((s : VmSession) × (active_of user.id w.sessions ≡ s ∷ [])
          × (get_my_active_vm env user w ≡ (ok (some (with_console_url env.settings s)), w)))
  unfolding get_my_active_vm
  get_my_active_vm-single = elim (active_of-single user.id w.sessions ix) [
    | inl e ↦ inl (
      e,
      (Runs-bind-ok _ (Runs-refl (gets (λ w. active_of user.id w.sessions)) w)
          (Runs-bind-ok _ {a = none} (record { at = rw e }) (Runs-refl (pure none) w))).at,
    )
    | inr (s, e) ↦ inr (
      s,
      e,
      (Runs-bind-ok _ (Runs-refl (gets (λ w. active_of user.id w.sessions)) w) (
          Runs-bind-ok _ {a = some s} (record { at = rw e })
            (Runs-refl (pure (some (with_console_url env.settings s))) w))).at,
    )
  ]
