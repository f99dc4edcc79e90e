-- ===== src/World/Tables/Laws.antt =====
-- Lookups and the indexes of vm_sessions under inserts and updates.
use knpodly.Base.{
  ◌≡◌, ◌≢◌, refl, true, false, not, ◌&&◌, ◌||◌, none, some, List, [], ◌∷◌, ◌++◌, any, where_rows,
  arith, ◌==◌, if◌then◌else◌, inl, inr, Bool-cases,
}
use knpodly.Models.{Uuid, VmSession}
use knpodly.World.Tables.{active, conflicts, index_ok, update_rows, find_session}

-- A change that keeps the keys of the row and does not reopen a closed session.
pub record Preserving (change : VmSession → VmSession) (s : VmSession) : Type 0 where
  pub id : (change s).id ≡ s.id
  pub user : (change s).user_id ≡ s.user_id
  pub stays_closed : active (change s) ≡ true → active s ≡ true

pub find-append :
    (k : Uuid) (rows : List VmSession) (s : VmSession)
    → find_session k rows ≡ none
    → find_session k (rows ++ s ∷ []) ≡ (if s.id == k then some s else none)
unfolding find_session
find-append k [] s h = refl
find-append k (x ∷ rows) s h = ground (arith, find-append k rows s)

pub find_session-id :
    (k : Uuid) (rows : List VmSession) (s : VmSession) → find_session k rows ≡ some s → s.id ≡ k
unfolding find_session
find_session-id k [] s h = cc
find_session-id k (x ∷ rows) s h = ground (arith, find_session-id k rows s)

-- An UPDATE of a key that no row has changes nothing.
update_rows-absent :
    (k : Uuid) (change : VmSession → VmSession) (rows : List VmSession)
    → find_session k rows ≡ none
    → update_rows k change rows ≡ rows
unfolding find_session update_rows
update_rows-absent k change [] h = refl
update_rows-absent k change (x ∷ rows) h = ground (arith, update_rows-absent k change rows)

-- A row that conflicts with none has a key of its own.
conflicts-id : (x y : VmSession) → conflicts x y ≡ false → (y.id == x.id) ≡ false
unfolding conflicts
conflicts-id x y h = ground arith

conflicts_comm : (x y : VmSession) → conflicts x y ≡ conflicts y x
unfolding conflicts
conflicts_comm x y = ground arith

pub find-of_no_conflict :
    (x : VmSession) (rows : List VmSession)
    → any (conflicts x) rows ≡ false
    → find_session x.id rows ≡ none
unfolding find_session
find-of_no_conflict x [] h = refl
find-of_no_conflict x (y ∷ rows) h = ground (arith, conflicts-id x y, find-of_no_conflict x rows)

module _ (change : VmSession → VmSession) (s : VmSession) (keeps : Preserving change s) where
  conflicts-change : (x : VmSession) → conflicts x s ≡ false → conflicts x (change s) ≡ false
  unfolding conflicts
  conflicts-change x h = ground (arith, keeps.id, keeps.user, keeps.stays_closed)

  conflicts-change_rows :
      (rows : List VmSession)
      → any (conflicts s) rows ≡ false
      → any (conflicts (change s)) rows ≡ false
  conflicts-change_rows [] h = refl
  conflicts-change_rows (y ∷ rows) h = ground (
    arith,
    conflicts_comm s y,
    conflicts_comm (change s) y,
    conflicts-change y,
    conflicts-change_rows rows,
  )

module _ (k : Uuid) (change : VmSession → VmSession) where
  -- No other row conflicts with the changed one.
  conflicts-update :
      (x s : VmSession) (rows : List VmSession)
      → Preserving change s
      → index_ok rows ≡ true
      → find_session k rows ≡ some s
      → any (conflicts x) rows ≡ false
      → any (conflicts x) (update_rows k change rows) ≡ false
  unfolding index_ok find_session update_rows
  conflicts-update x s [] keeps ix found h = refl
  conflicts-update x s (y ∷ rows) keeps ix found h = elim (Bool-cases (y.id == k)) [
    | inl at_key ↦ ground (
      arith,
      at_key,
      find-of_no_conflict y rows,
      update_rows-absent k change rows,
      conflicts-change change s keeps x,
    )
    | inr other ↦ ground (arith, other, conflicts-update x s rows keeps)
  ]

  -- An update that keeps the keys and reopens nothing is accepted by the indexes.
  pub index_ok-update :
      (rows : List VmSession) (s : VmSession)
      → Preserving change s
      → index_ok rows ≡ true
      → find_session k rows ≡ some s
      → index_ok (update_rows k change rows) ≡ true
  unfolding index_ok find_session update_rows
  index_ok-update [] s keeps ix found = refl
  index_ok-update (x ∷ rows) s keeps ix found = elim (Bool-cases (x.id == k)) [
    | inl at_key ↦ ground (
      arith,
      at_key,
      find-of_no_conflict x rows,
      update_rows-absent k change rows,
      conflicts-change_rows change s keeps rows,
    )
    | inr other ↦
        ground (arith, other, conflicts-update x s rows keeps, index_ok-update rows s keeps)
  ]

  module _ (same : (s : VmSession) → (change s).id ≡ s.id) where
    pub find-update_self :
        (rows : List VmSession) (s : VmSession)
        → find_session k rows ≡ some s
        → find_session k (update_rows k change rows) ≡ some (change s)
    unfolding find_session update_rows
    find-update_self [] s h = cc
    find-update_self (x ∷ rows) s h = ground (arith, same x, find-update_self rows s)

    pub find-update_ne :
        (j : Uuid) (rows : List VmSession)
        → j ≢ k
        → find_session j (update_rows k change rows) ≡ find_session j rows
    unfolding find_session update_rows
    find-update_ne j [] h = refl
    find-update_ne j (x ∷ rows) h = ground (arith, same x, find-update_ne j rows h)

-- The indexes accept a new row exactly when it conflicts with none.
any-conflicts-append :
    (x s : VmSession) (rows : List VmSession)
    → any (conflicts x) (rows ++ s ∷ []) ≡ (any (conflicts x) rows || conflicts s x)
any-conflicts-append x s [] = ground (arith, conflicts_comm x s)
any-conflicts-append x s (y ∷ rows) = ground (arith, any-conflicts-append x s rows)

pub index_ok-append :
    (rows : List VmSession) (s : VmSession)
    → index_ok (rows ++ s ∷ []) ≡ (not (any (conflicts s) rows) && index_ok rows)
unfolding index_ok
index_ok-append [] s = refl
index_ok-append (x ∷ rows) s = ground (arith, any-conflicts-append x s rows, index_ok-append rows s)

-- A stored row is found by its key.
pub find-append_new :
    (rows : List VmSession) (s : VmSession)
    → index_ok (rows ++ s ∷ []) ≡ true
    → find_session s.id (rows ++ s ∷ []) ≡ some s
find-append_new rows s h =
    let fresh : any (conflicts s) rows ≡ false = ground (arith, index_ok-append rows s) in
    ground (arith, find-append s.id rows s (find-of_no_conflict s rows fresh))

-- An active row that conflicts with none is the only active one of its user.
pub none_active-of_no_conflict :
    (s : VmSession) (rows : List VmSession)
    → active s ≡ true
    → any (conflicts s) rows ≡ false
    → where_rows (λ r. r.user_id == s.user_id && active r) rows ≡ []
unfolding conflicts
none_active-of_no_conflict s [] e h = refl
none_active-of_no_conflict s (r ∷ rows) e h = ground (arith, none_active-of_no_conflict s rows e)

conflicts-apart :
    (s r : VmSession)
    → (r.id == s.id) ≡ false
    → (r.user_id == s.user_id && active r) ≡ false
    → conflicts s r ≡ false
unfolding conflicts
conflicts-apart s r apart closed = ground arith

no_conflict-of_none :
    (s : VmSession) (rows : List VmSession)
    → find_session s.id rows ≡ none
    → where_rows (λ r. r.user_id == s.user_id && active r) rows ≡ []
    → any (conflicts s) rows ≡ false
unfolding find_session
no_conflict-of_none s [] e h = refl
no_conflict-of_none s (r ∷ rows) e h =
    ground (arith, conflicts-apart s r, no_conflict-of_none s rows)

-- A new key for a user with no active session is accepted.
pub index_ok-append_new :
    (rows : List VmSession) (s : VmSession)
    → index_ok rows ≡ true
    → find_session s.id rows ≡ none
    → where_rows (λ r. r.user_id == s.user_id && active r) rows ≡ []
    → index_ok (rows ++ s ∷ []) ≡ true
index_ok-append_new rows s ix fresh closed =
    ground (arith, index_ok-append rows s, no_conflict-of_none s rows fresh closed)
