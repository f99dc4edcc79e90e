-- ===== src/Api/Admin/Rows.antt =====
-- Rows of vm_limit_policies by their key.
use knpodly.Base.{
  ◌≡◌, refl, ap, inl, inr, Bool, true, false, any, Option, none, some, List, [], ◌∷◌, arith,
  Bool-cases, if◌then◌else◌,
}
use mathlib.Core.Path.{subst}
use knpodly.Models.{Uuid, VmLimitPolicy, is_true}
use knpodly.Policy.{active_policies}
use knpodly.Api.Admin.Fields.{same_id, update_policies, find_policy}

-- The primary key: no two rows of one id.
abbrev pub ids_ok : List VmLimitPolicy → Bool
ids_ok [] = true
ids_ok (p ∷ ps) = if any (λ q. same_id q.id p.id) ps then false else ids_ok ps

same_id_refl : (a : Option Uuid) → same_id a a ≡ true
same_id_refl none = refl
same_id_refl (some a) = ground arith

pub same_id-eq : (a b : Option Uuid) → same_id a b ≡ true → a ≡ b
same_id-eq none none h = refl
same_id-eq none (some b) h = cc
same_id-eq (some a) none h = cc
same_id-eq (some a) (some b) h = let e : a ≡ b = ground arith in ap some e

active-update_absent :
    (k : Option Uuid) (change : VmLimitPolicy → VmLimitPolicy) (rows : List VmLimitPolicy)
    → any (λ q. same_id q.id k) rows ≡ false
    → update_policies k change rows ≡ rows
unfolding update_policies
active-update_absent k change [] h = refl
active-update_absent k change (p ∷ ps) h = ground (arith, active-update_absent k change ps)

not_active :
    (k : Option Uuid) (rows : List VmLimitPolicy) (p : VmLimitPolicy)
    → active_policies rows ≡ p ∷ []
    → any (λ q. same_id q.id p.id) rows ≡ true
not_active k [] p h = cc
not_active k (q ∷ qs) p h = elim (Bool-cases (is_true q.is_active)) [
  | inl e ↦ ground (arith, e, same_id_refl p.id)
  | inr e ↦ ground (arith, e, not_active k qs p)
]

module _ (change : VmLimitPolicy → VmLimitPolicy)
    (keeps : (p : VmLimitPolicy) → (change p).is_active ≡ p.is_active)
    (keeps_id : (p : VmLimitPolicy) → (change p).id ≡ p.id) where
  -- The single active row is the one that an update by its id changes.
  pub active-update :
      (rows : List VmLimitPolicy) (p : VmLimitPolicy)
      → ids_ok rows ≡ true
      → active_policies rows ≡ p ∷ []
      → (find_policy p.id rows ≡ some p)
        × (active_policies (update_policies p.id change rows) ≡ change p ∷ [])
        × (find_policy p.id (update_policies p.id change rows) ≡ some (change p))
  unfolding find_policy update_policies
  active-update [] p ix h = cc
  active-update (q ∷ qs) p ix h = elim (Bool-cases (is_true q.is_active)) [
    | inl e ↦
        let own : q ≡ p = ground (arith, e) in
        let rest : active_policies qs ≡ [] = ground (arith, e) in
        let alone : any (λ r. same_id r.id q.id) qs ≡ false = ground (arith, ix) in
        subst
          (λ (p : VmLimitPolicy).
            (find_policy p.id (q ∷ qs) ≡ some p)
            × (active_policies (update_policies p.id change (q ∷ qs)) ≡ change p ∷ [])
            × (find_policy p.id (update_policies p.id change (q ∷ qs)) ≡ some (change p)))
          own
          (
            rw (same_id_refl q.id) refl,
            rw (same_id_refl q.id, active-update_absent q.id change qs alone, keeps q, e, rest)
                refl,
            rw (same_id_refl q.id, keeps_id q, same_id_refl q.id) refl,
          )
    | inr e ↦
        let below : active_policies qs ≡ p ∷ [] = ground (arith, e) in
        let (found, updated, refound) = active-update qs p (ground arith) below in
        let other : same_id q.id p.id ≡ false = elim (Bool-cases (same_id q.id p.id)) [
          | inl same ↦ ground (arith, not_active p.id qs p below, same_id-eq q.id p.id same)
          | inr other ↦ other
        ] in
        (rw other found, rw (other, e) updated, rw (other, other) refound)
  ]
