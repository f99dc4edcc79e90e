-- ===== src/World/Tables/Rows.antt =====
-- A row of an indexed table is the only one with its key, in the table and in a selection of it.
use knpodly.Base.{
  ◌≡◌, refl, Bool, true, false, none, some, List, [], ◌∷◌, any, where_rows, All, All-zip, arith,
  ◌==◌, if◌then◌else◌, inl, inr, Bool-cases,
}
use knpodly.Models.{Uuid, VmSession}
use knpodly.World.Tables.{conflicts, index_ok, find_session}
use knpodly.World.Tables.Laws.{find-of_no_conflict}

pub keys_apart :
    (k : Uuid) (rows : List VmSession)
    → find_session k rows ≡ none
    → All (λ r. (r.id == k) ≡ false) rows
unfolding find_session
keys_apart k [] h = tt
keys_apart k (x ∷ rows) h = elim (Bool-cases (x.id == k)) [
  | inl e ↦ ground (arith, e)
  | inr e ↦ (e, keys_apart k rows (ground (arith, e)))
]

-- The row that a lookup finds is every row with that key.
pub find_unique :
    (k : Uuid) (rows : List VmSession) (s : VmSession)
    → index_ok rows ≡ true
    → find_session k rows ≡ some s
    → All (λ r. (r.id == k) ≡ true → r ≡ s) rows
unfolding index_ok find_session
find_unique k [] s ix h = tt
find_unique k (x ∷ rows) s ix h = elim (Bool-cases (x.id == k)) [
  | inl e ↦
      let here : x ≡ s = ground (arith, e) in
      (
        (λ _. here),
        All-zip rows (λ r apart _ same. ground arith)
            (keys_apart x.id rows (find-of_no_conflict x rows (ground arith)))
            (keys_apart x.id rows (find-of_no_conflict x rows (ground arith))),
      )
  | inr e ↦ ((λ same. ground (arith, e)), find_unique k rows s (ground arith) (ground (arith, e)))
]

-- Each row of an indexed table is found by its key.
pub rows_found :
    (rows : List VmSession) → index_ok rows ≡ true → All (λ r. find_session r.id rows ≡ some r) rows
unfolding index_ok find_session
rows_found [] ix = tt
rows_found (x ∷ rows) ix =
    let apart = keys_apart x.id rows (find-of_no_conflict x rows (ground arith)) in
    (ground arith, All-zip rows (λ r e found. ground arith) apart (rows_found rows (ground arith)))

no_conflict-where_rows :
    (p : VmSession → Bool) (s : VmSession) (rows : List VmSession)
    → any (conflicts s) rows ≡ false
    → any (conflicts s) (where_rows p rows) ≡ false
no_conflict-where_rows p s [] h = refl
no_conflict-where_rows p s (x ∷ rows) h = ground (arith, no_conflict-where_rows p s rows)

pub index_ok-where_rows :
    (p : VmSession → Bool) (rows : List VmSession)
    → index_ok rows ≡ true
    → index_ok (where_rows p rows) ≡ true
unfolding index_ok
index_ok-where_rows p [] ix = refl
index_ok-where_rows p (x ∷ rows) ix =
    ground (arith, no_conflict-where_rows p x rows, index_ok-where_rows p rows)

find-where_rows_absent :
    (k : Uuid) (p : VmSession → Bool) (rows : List VmSession)
    → find_session k rows ≡ none
    → find_session k (where_rows p rows) ≡ none
unfolding find_session
find-where_rows_absent k p [] h = refl
find-where_rows_absent k p (x ∷ rows) h = ground (arith, find-where_rows_absent k p rows)

-- A stored row is in a selection exactly if the test selects it.
pub find-where_rows :
    (k : Uuid) (p : VmSession → Bool) (rows : List VmSession) (s : VmSession)
    → index_ok rows ≡ true
    → find_session k rows ≡ some s
    → find_session k (where_rows p rows) ≡ (if p s then some s else none)
unfolding index_ok find_session
find-where_rows k p [] s ix h = cc
find-where_rows k p (x ∷ rows) s ix h = elim (Bool-cases (x.id == k)) [
  | inl e ↦ ground (arith, e, find-of_no_conflict x rows, find-where_rows_absent k p rows)
  | inr e ↦ ground (arith, e, find-where_rows k p rows s)
]

pub where_rows-key_absent :
    (k : Uuid) (rows : List VmSession)
    → find_session k rows ≡ none
    → where_rows (λ r. r.id == k) rows ≡ []
unfolding find_session
where_rows-key_absent k [] h = refl
where_rows-key_absent k (x ∷ rows) h = ground (arith, where_rows-key_absent k rows)

-- A primary key selects one row.
pub where_rows-key :
    (k : Uuid) (rows : List VmSession) (s : VmSession)
    → index_ok rows ≡ true
    → find_session k rows ≡ some s
    → where_rows (λ r. r.id == k) rows ≡ s ∷ []
unfolding index_ok find_session
where_rows-key k [] s ix h = cc
where_rows-key k (x ∷ rows) s ix h = elim (Bool-cases (x.id == k)) [
  | inl e ↦ ground (arith, e, find-of_no_conflict x rows, where_rows-key_absent k rows)
  | inr e ↦ ground (arith, e, where_rows-key k rows s)
]
