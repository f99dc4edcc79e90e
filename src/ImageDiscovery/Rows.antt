-- ===== src/ImageDiscovery/Rows.antt =====
-- Lookups in operating_systems, and its keys under inserts and updates.
use knpodly.Base.{
  ◌≡◌, refl, String, true, false, not, ◌&&◌, ◌||◌, any, none, some, List, [], ◌∷◌, ◌++◌, All,
  where_rows, str_eq, eq_iff, ◌==◌, arith, inl, inr, Bool-cases, if◌then◌else◌,
}
use knpodly.Models.{OperatingSystem}
use knpodly.ImageDiscovery.Sync.{os_conflicts, catalogue_ok, find_os, update_os}

no_conflict-slug :
    (o : OperatingSystem) (rows : List OperatingSystem)
    → any (os_conflicts o) rows ≡ false
    → where_rows (λ r. str_eq r.slug o.slug) rows ≡ []
unfolding os_conflicts
no_conflict-slug o [] h = refl
no_conflict-slug o (r ∷ rows) h =
    ground (arith, eq_iff r.slug o.slug, eq_iff o.slug r.slug, no_conflict-slug o rows)

pub where_rows-slug :
    (slug : String) (rows : List OperatingSystem) (o : OperatingSystem)
    → catalogue_ok rows ≡ true
    → find_os slug rows ≡ some o
    → where_rows (λ r. str_eq r.slug slug) rows ≡ o ∷ []
unfolding catalogue_ok find_os
where_rows-slug slug [] o ix h = cc
where_rows-slug slug (r ∷ rows) o ix h = elim (Bool-cases (str_eq r.slug slug)) [
  | inl e ↦ ground (arith, e, eq_iff r.slug slug, no_conflict-slug r rows)
  | inr e ↦ ground (arith, e, where_rows-slug slug rows o)
]

pub where_rows-slug_absent :
    (slug : String) (rows : List OperatingSystem)
    → find_os slug rows ≡ none
    → where_rows (λ r. str_eq r.slug slug) rows ≡ []
unfolding find_os
where_rows-slug_absent slug [] h = refl
where_rows-slug_absent slug (r ∷ rows) h = ground (arith, where_rows-slug_absent slug rows)

pub find_os-slug :
    (slug : String) (rows : List OperatingSystem) (o : OperatingSystem)
    → find_os slug rows ≡ some o
    → o.slug ≡ slug
unfolding find_os
find_os-slug slug [] o h = cc
find_os-slug slug (r ∷ rows) o h = ground (arith, eq_iff r.slug slug, find_os-slug slug rows o)

-- The rows with the id of `row` have its slug.
abbrev Keyed : OperatingSystem → List OperatingSystem → Type 0
Keyed row rows = All (λ r. (r.id == row.id) ≡ true → r.slug ≡ row.slug) rows

apart :
    (o row : OperatingSystem) (rows : List OperatingSystem) (r : OperatingSystem)
    → any (os_conflicts o) rows ≡ false
    → find_os row.slug rows ≡ some r
    → r.id ≡ row.id
    → (o.id == row.id) ≡ false
unfolding os_conflicts find_os
apart o row [] r h f e = cc
apart o row (q ∷ rows) r h f e = ground (arith, apart o row rows r)

no_conflict-Keyed :
    (o row : OperatingSystem) (rows : List OperatingSystem)
    → any (os_conflicts o) rows ≡ false
    → o.id ≡ row.id
    → Keyed row rows
unfolding os_conflicts
no_conflict-Keyed o row [] h e = tt
no_conflict-Keyed o row (q ∷ rows) h e =
    (λ same. ground (arith), no_conflict-Keyed o row rows (ground arith) e)

found-Keyed :
    (row : OperatingSystem) (rows : List OperatingSystem) (o : OperatingSystem)
    → catalogue_ok rows ≡ true
    → find_os row.slug rows ≡ some o
    → o.id ≡ row.id
    → Keyed row rows
unfolding catalogue_ok find_os
found-Keyed row [] o ix h e = tt
found-Keyed row (r ∷ rows) o ix h e = elim (Bool-cases (str_eq r.slug row.slug)) [
  | inl here ↦ (
    λ same. (eq_iff r.slug row.slug).0 here,
    no_conflict-Keyed r row rows (ground arith) (ground (arith, here)),
  )
  | inr there ↦ (
    λ same. ground (arith, apart r row rows o (ground arith) (ground (arith, there)) e),
    found-Keyed row rows o (ground arith) (ground (arith, there)) e,
  )
]

conflicts-update :
    (x row : OperatingSystem) (rows : List OperatingSystem)
    → Keyed row rows
    → any (os_conflicts x) (update_os row rows) ≡ any (os_conflicts x) rows
unfolding os_conflicts update_os
conflicts-update x row [] keyed = refl
conflicts-update x row (r ∷ rows) (same, keyed) = elim (Bool-cases (r.id == row.id)) [
  | inl e ↦ ground (arith, e, same e, conflicts-update x row rows keyed)
  | inr e ↦ ground (arith, e, conflicts-update x row rows keyed)
]

conflicts-keys :
    (x y : OperatingSystem) (rows : List OperatingSystem)
    → x.id ≡ y.id
    → x.slug ≡ y.slug
    → any (os_conflicts x) rows ≡ any (os_conflicts y) rows
unfolding os_conflicts
conflicts-keys x y [] i s = refl
conflicts-keys x y (r ∷ rows) i s = ground (arith, conflicts-keys x y rows)

catalogue_ok-update_in_place :
    (row : OperatingSystem) (rows : List OperatingSystem)
    → Keyed row rows
    → catalogue_ok (update_os row rows) ≡ catalogue_ok rows
unfolding catalogue_ok update_os
catalogue_ok-update_in_place row [] keyed = refl
catalogue_ok-update_in_place row (r ∷ rows) (same, keyed) = elim (Bool-cases (r.id == row.id)) [
  | inl e ↦ ground (
    arith,
    e,
    same e,
    catalogue_ok-update_in_place row rows keyed,
    conflicts-update row row rows keyed,
    conflicts-keys row r rows,
  )
  | inr e ↦
      ground
        (arith, e, catalogue_ok-update_in_place row rows keyed, conflicts-update r row rows keyed)
]

absent-update :
    (o row : OperatingSystem) (rows : List OperatingSystem)
    → any (os_conflicts o) rows ≡ false
    → o.id ≡ row.id
    → update_os row rows ≡ rows
unfolding os_conflicts update_os
absent-update o row [] h e = refl
absent-update o row (r ∷ rows) h e = ground (arith, absent-update o row rows)

-- An update of the row of a slug changes what is found for this slug alone.
pub find_os-update :
    (row : OperatingSystem) (rows : List OperatingSystem) (o : OperatingSystem) (s : String)
    → catalogue_ok rows ≡ true
    → find_os row.slug rows ≡ some o
    → o.id ≡ row.id
    → find_os s (update_os row rows) ≡ (if str_eq row.slug s then some row else find_os s rows)
unfolding catalogue_ok find_os update_os
find_os-update row [] o s ix h e = cc
find_os-update row (r ∷ rows) o s ix h e = elim (Bool-cases (str_eq r.slug row.slug)) [
  | inl here ↦ ground (arith, here, eq_iff r.slug row.slug, absent-update r row rows)
  | inr there ↦ ground (
    arith,
    there,
    apart r row rows o,
    eq_iff r.slug s,
    eq_iff row.slug s,
    eq_iff r.slug row.slug,
    find_os-update row rows o s,
  )
]

pub catalogue_ok-update :
    (row : OperatingSystem) (rows : List OperatingSystem) (o : OperatingSystem)
    → catalogue_ok rows ≡ true
    → find_os row.slug rows ≡ some o
    → o.id ≡ row.id
    → catalogue_ok (update_os row rows) ≡ true
catalogue_ok-update row rows o ix h e =
    rw (catalogue_ok-update_in_place row rows (found-Keyed row rows o ix h e)) ix

os_conflicts_comm : (a b : OperatingSystem) → os_conflicts a b ≡ os_conflicts b a
unfolding os_conflicts
os_conflicts_comm a b = ground (arith, eq_iff a.slug b.slug, eq_iff b.slug a.slug)

conflicts-append :
    (x o : OperatingSystem) (rows : List OperatingSystem)
    → any (os_conflicts x) (rows ++ o ∷ []) ≡ (any (os_conflicts x) rows || os_conflicts o x)
conflicts-append x o [] = ground (arith, os_conflicts_comm x o)
conflicts-append x o (r ∷ rows) = ground (arith, conflicts-append x o rows)

pub catalogue_ok-append :
    (rows : List OperatingSystem) (o : OperatingSystem)
    → catalogue_ok (rows ++ o ∷ []) ≡ (not (any (os_conflicts o) rows) && catalogue_ok rows)
unfolding catalogue_ok
catalogue_ok-append [] o = refl
catalogue_ok-append (r ∷ rows) o =
    ground (arith, conflicts-append r o rows, catalogue_ok-append rows o)

pub find_os-append :
    (rows : List OperatingSystem) (o : OperatingSystem) (s : String)
    → find_os o.slug rows ≡ none
    → find_os s (rows ++ o ∷ []) ≡ (if str_eq o.slug s then some o else find_os s rows)
unfolding find_os
find_os-append [] o s h = refl
find_os-append (r ∷ rows) o s h =
    ground (arith, eq_iff r.slug s, eq_iff o.slug s, eq_iff r.slug o.slug, find_os-append rows o s)
