-- ===== src/Exec/Runs.antt =====
-- Running a `do` block one action at a time: `Runs m s r` says that `m` from `s` ends in `r`.
use knpodly.Base.{Bool, true, false, ◌≡◌, refl, ap, ◌∙◌, ◌⊎◌, inl, inr}
use knpodly.Exec.{
  Exec, Error, Result, ok, err, ◌>>=◌, on_error, caught, reraise, raise_if, map_error,
}

pub record Runs {S A : Type 0} (m : Exec S A) (s : S) (r : Result A × S) : Type 0 where
  pub at : m s ≡ r

pub Result-cases :
    {A : Type 0} (r : Result A) → ((a : A) × (r ≡ ok a)) ⊎ ((e : Error) × (r ≡ err e))
Result-cases (ok a) = inl (a, refl)
Result-cases (err e) = inr (e, refl)

pub ok_injective : {A : Type 0} {a b : A} → ok a ≡ ok b → a ≡ b
ok_injective e = cc

module _ {S A : Type 0} where
  -- for an action that computes
  pub Runs-refl : (m : Exec S A) (s : S) → Runs m s (m s)
  Runs-refl m s = record { at = refl }

module _ {S A B : Type 0} where
  pub Runs-bind-ok :
      {m : Exec S A} (f : A → Exec S B) {s t : S} {a : A} {r : Result B × S}
      → Runs m s (ok a, t)
      → Runs (f a) t r
      → Runs (m >>= f) s r
  unfolding ◌>>=◌
  Runs-bind-ok f p q = record {
    at = ap (λ (p : Result A × S). elim p.0 [ ok a ↦ f a p.1 | err e ↦ (err e, p.1) ]) p.at ∙ q.at;
  }

  pub Runs-bind-err :
      {m : Exec S A} (f : A → Exec S B) {s t : S} {e : Error}
      → Runs m s (err e, t)
      → Runs (m >>= f) s (err e, t)
  unfolding ◌>>=◌
  Runs-bind-err f p = record {
    at = ap (λ (p : Result A × S). elim p.0 [ ok a ↦ f a p.1 | err e ↦ (err e, p.1) ]) p.at;
  }

module _ {S A : Type 0} where
  pub Runs-on_error-ok :
      {m : Exec S A} (h : Exec S (Unit {0})) {s t : S} {a : A}
      → Runs m s (ok a, t)
      → Runs (on_error m h) s (ok a, t)
  unfolding on_error
  Runs-on_error-ok h p = record { at = ap (caught h) p.at }

  pub Runs-on_error-err :
      {m : Exec S A} {h : Exec S (Unit {0})} {s t u : S} {e : Error}
      → Runs m s (err e, t)
      → Runs h t (ok tt, u)
      → Runs (on_error m h) s (err e, u)
  unfolding on_error
  Runs-on_error-err {h} {e} p q = record { at = ap (caught h) p.at ∙ ap (reraise e) q.at }

module _ {S : Type 0} where
  pub Runs-raise_if-pass :
      {c : Bool} (e : Error) (s : S) → c ≡ false → Runs (raise_if c e) s (ok tt, s)
  Runs-raise_if-pass e s p = record { at = rw p }

  pub Runs-raise_if-fail :
      {c : Bool} (e : Error) (s : S) → c ≡ true → Runs (raise_if c e) s (err e, s)
  Runs-raise_if-fail e s p = record { at = rw p }

module _ {S A : Type 0} where
  pub Runs-map_error-ok :
      {m : Exec S A} (f : Error → Error) {s t : S} {a : A}
      → Runs m s (ok a, t)
      → Runs (map_error f m) s (ok a, t)
  unfolding map_error
  Runs-map_error-ok f runs = record { at = rw (runs.at) refl }

  pub Runs-map_error-err :
      {m : Exec S A} (f : Error → Error) {s t : S} {e : Error}
      → Runs m s (err e, t)
      → Runs (map_error f m) s (err (f e), t)
  unfolding map_error
  Runs-map_error-err f runs = record { at = rw (runs.at) refl }
