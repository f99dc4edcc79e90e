-- ===== src/Exec/Keeps.antt =====
-- Actions that keep a property of the state, whether they return or raise.
use mathlib.Core.Path.{subst}
use knpodly.Base.{◌≡◌, refl, sym, ap, Bool, true, false, List, [], ◌∷◌, inl, inr, if◌then◌else◌}
use knpodly.Exec.{
  Exec, Error, Result, ok, err, ◌>>=◌, on_error, caught, reraise, map_error, for_each,
}
use knpodly.Exec.Runs.{Runs, Result-cases, Runs-bind-ok, Runs-bind-err}
use knpodly.Exec.Checks.{Checks}

pub record Keeps {S A : Type 0} (P : S → Type 0) (m : Exec S A) : Type 0 where
  pub at : (s : S) → P s → P (m s).1

module _ {S A : Type 0} {P : S → Type 0} where
  -- from a run
  pub Keeps-by :
      {m : Exec S A}
      → ((s : S) → P s → (r : Result A) × (t : S) × Runs m s (r, t) × P t)
      → Keeps P m
  Keeps-by {m} h = record {
    at = λ s p. let (r, t, runs, q) = h s p in subst (λ (x : Result A × S). P x.1) (sym runs.at) q;
  }

  pub Keeps-checks : {Q : S → A → Type 0} {m : Exec S A} → ((s : S) → Checks m s (Q s)) → Keeps P m
  Keeps-checks h = Keeps-by (λ s p. elim (h s) [
    | inl (a, q, runs) ↦ (ok a, s, runs, p)
    | inr (e, runs) ↦ (err e, s, runs, p)
  ])

  pub Keeps-if : {m n : Exec S A} (c : Bool) → Keeps P m → Keeps P n → Keeps P (if c then m else n)
  Keeps-if true km kn = km
  Keeps-if false km kn = kn

  pub Keeps-map_error : {m : Exec S A} (f : Error → Error) → Keeps P m → Keeps P (map_error f m)
  unfolding map_error
  Keeps-map_error f km = record { at = km.at }

  pub Keeps-on_error :
      {m : Exec S A} {h : Exec S (Unit {0})} → Keeps P m → Keeps P h → Keeps P (on_error m h)
  unfolding on_error
  Keeps-on_error {m} {h} km kh = record { at = λ s p. handled (m s) (km.at s p) }
    where
      reraised : (e : Error) (x : Result (Unit {0}) × S) → P x.1 → P (reraise {A = A} e x).1
      reraised e (ok _, t) q = q
      reraised e (err _, t) q = q

      handled : (x : Result A × S) → P x.1 → P (caught h x).1
      handled (ok a, t) q = q
      handled (err e, t) q = reraised e (h t) (kh.at t q)

module _ {S A B : Type 0} {P : S → Type 0} where
  pub Keeps-bind :
      {m : Exec S A} {f : A → Exec S B} → Keeps P m → ((a : A) → Keeps P (f a)) → Keeps P (m >>= f)
  Keeps-bind {m} {f} km kf = record {
    at = λ s p. elim (Result-cases (m s).0) [
      | inl (a, e) ↦
          subst (λ (x : Result B × S). P x.1)
            (sym (Runs-bind-ok f (record { at = returned (m s) e }) (record { at = refl })).at)
            ((kf a).at _ (km.at s p))
      | inr (x, e) ↦
          subst (λ (x : Result B × S). P x.1)
            (sym (Runs-bind-err f (record { at = returned (m s) e })).at) (km.at s p)
    ];
  }
    where
      returned : (x : Result A × S) {r : Result A} → x.0 ≡ r → x ≡ (r, x.1)
      returned (r, t) e = ap (λ (r : Result A). let x : Result A × S = (r, t) in x) e

module _ {S A : Type 0} {P : S → Type 0} where
  pub Keeps-for_each :
      (f : A → Exec S (Unit {0})) (xs : List A)
      → ((x : A) → Keeps P (f x))
      → Keeps P (for_each f xs)
  Keeps-for_each f [] kf = record { at = λ s p. p }
  Keeps-for_each f (x ∷ xs) kf = Keeps-bind (kf x) (λ _. Keeps-for_each f xs kf)
