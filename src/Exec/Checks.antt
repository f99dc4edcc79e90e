-- ===== src/Exec/Checks.antt =====
-- Actions that look at the state and either return a value with a property or raise, and change
-- nothing: the guards at the head of an operation.
use mathlib.Core.Path.{subst}
use knpodly.Base.{Bool, false, ◌≡◌, refl, sym, ◌⊎◌, inl, inr, Bool-cases}
use knpodly.Exec.{Exec, Error, Result, ok, err, ◌>>=◌, raise_if, gets}
use knpodly.Exec.Runs.{Runs, Runs-bind-ok, Runs-bind-err, Runs-raise_if-pass, Runs-raise_if-fail}

module _ {S A : Type 0} where
  abbrev pub Checks : Exec S A → S → (A → Type 0) → Type 0
  Checks m s P = ((a : A) × P a × Runs m s (ok a, s)) ⊎ ((e : Error) × Runs m s (err e, s))

module _ {S A : Type 0} where
  -- The last action of a block.
  pub end-with :
      (G : Result A × S → Type 0) {m : Exec S A} {s : S} {r : Result A × S}
      → Runs m s r
      → G r
      → G (m s)
  end-with G runs h = subst G (sym runs.at) h

module _ {S A B : Type 0} where
  -- A guard in front of a block: only its passing leads into the block.
  pub Checks-bind :
      (G : Result B × S → Type 0) (m : Exec S A) (f : A → Exec S B) (s : S) {P : A → Type 0}
      → Checks m s P
      → ((a : A) → P a → G (f a s))
      → ((e : Error) → G (err e, s))
      → G ((m >>= f) s)
  Checks-bind G m f s (inl (a, p, runs)) pass fail =
      subst G (sym (Runs-bind-ok f runs (record { at = refl })).at) (pass a p)
  Checks-bind G m f s (inr (e, runs)) pass fail = subst G (sym (Runs-bind-err f runs).at) (fail e)

  pub ok-bind :
      (G : Result B × S → Type 0) (f : A → Exec S B) {m : Exec S A} {s t : S} {a : A}
      → Runs m s (ok a, t)
      → G (f a t)
      → G ((m >>= f) s)
  ok-bind G f runs h = subst G (sym (Runs-bind-ok f runs (record { at = refl })).at) h

  pub err-bind :
      (G : Result B × S → Type 0) (f : A → Exec S B) {m : Exec S A} {s t : S} {e : Error}
      → Runs m s (err e, t)
      → G (err e, t)
      → G ((m >>= f) s)
  err-bind G f runs h = subst G (sym (Runs-bind-err f runs).at) h

  pub gets-bind :
      (G : Result B × S → Type 0) (g : S → A) (f : A → Exec S B) (s : S)
      → G (f (g s) s)
      → G ((gets g >>= f) s)
  unfolding ◌>>=◌
  gets-bind G g f s h = h

module _ {S A B : Type 0} where
  -- One guard after another.
  pub Checks-then :
      (m : Exec S A) (f : A → Exec S B) (s : S) {P : A → Type 0} {Q : B → Type 0}
      → Checks m s P
      → ((a : A) → P a → Checks (f a) s Q)
      → Checks (m >>= f) s Q
  Checks-then m f s (inl (a, p, runs)) rest = elim (rest a p) [
    | inl (b, q, next) ↦ inl (b, q, Runs-bind-ok f runs next)
    | inr (e, next) ↦ inr (e, Runs-bind-ok f runs next)
  ]
  Checks-then m f s (inr (e, runs)) rest = inr (e, Runs-bind-err f runs)

  pub Checks-gets :
      (g : S → A) (f : A → Exec S B) (s : S) {Q : B → Type 0}
      → Checks (f (g s)) s Q
      → Checks (gets g >>= f) s Q
  Checks-gets g f s checks =
      Checks-then (gets g) f s {P = λ a. a ≡ g s} (inl (g s, refl, record { at = refl }))
        (λ a e. rw e checks)

module _ {S A : Type 0} where
  pub Checks-weaken :
      {m : Exec S A} {s : S} {P Q : A → Type 0}
      → Checks m s P
      → ((a : A) → P a → Q a)
      → Checks m s Q
  Checks-weaken (inl (a, p, runs)) h = inl (a, h a p, runs)
  Checks-weaken (inr fails) h = inr fails

module _ {S : Type 0} where
  pub raise_if-Checks : (c : Bool) (e : Error) (s : S) → Checks (raise_if c e) s (λ _. c ≡ false)
  raise_if-Checks c e s = elim (Bool-cases c) [
    | inl p ↦ inr (e, Runs-raise_if-fail e s p)
    | inr p ↦ inl (tt, p, Runs-raise_if-pass e s p)
  ]
