-- ===== src/Exec.antt =====
-- A coroutine of the backend as state passing with exceptions. What was committed before a raise
-- stays committed, so the state comes back beside the exception too.
pub mod Runs
pub mod Checks
pub mod Keeps
use knpodly.Base.{ℕ, String, Bool, Option, none, some, List, [], ◌∷◌, if◌then◌else◌}

-- The exceptions that the modelled code raises or lets through. A text is the message.
pub data Error : Type 0 where
  -- app/services/vm_lifecycle.py
  vm_limit_exceeded os_unavailable maintenance_active : String → Error
  -- fastapi.HTTPException with its status code and detail
  http_exception : ℕ → String → Error
  -- Python's RuntimeError and ValueError
  runtime_error value_error : String → Error
  -- sqlalchemy.exc
  integrity_error data_error multiple_results_found no_result_found invalid_request : Error
  -- fastapi.exceptions.ResponseValidationError
  response_validation_error : Error
  -- Python's TypeError and AttributeError
  type_error attribute_error : Error
  -- libvirt.libvirtError
  libvirt_error : String → Error

pub data Result {ℓ} (A : Type ℓ) : Type ℓ where
  ok : A → Result A
  err : Error → Result A

abbrev pub Exec {ℓ} : Type ℓ → Type ℓ → Type ℓ
Exec S A = S → Result A × S

module _ {ℓ} {S A : Type ℓ} where
  abbrev pub pure : A → Exec S A
  pure a s = (ok a, s)

  abbrev pub raise : Error → Exec S A
  raise e s = (err e, s)

  abbrev pub gets : (S → A) → Exec S A
  gets f s = (ok (f s), s)

  abbrev pub or_raise : Option A → Error → Exec S A
  or_raise none e = raise e
  or_raise (some a) _ = pure a

module _ {S : Type 0} where
  infixl 5 ◌>>=◌ ◌>>◌
  -- shut, so that a rule about a block finds its first action
  unfoldable pub ◌>>=◌ : {A B : Type 0} → Exec S A → (A → Exec S B) → Exec S B
  ◌>>=◌ m f s = let (r, s') = m s in elim r [ ok a ↦ f a s' | err e ↦ (err e, s') ]

  abbrev pub ◌>>◌ : {A B : Type 0} → Exec S A → Exec S B → Exec S B
  m >> k = m >>= λ _. k

  abbrev pub raise_if : Bool → Error → Exec S (Unit {0})
  raise_if c e s = (if c then err e else ok tt, s)

  abbrev pub modify : (S → S) → Exec S (Unit {0})
  modify f s = (ok tt, f s)

  -- The end of a handler that re-raises `e`: an exception of its own takes its place.
  abbrev pub reraise : {A : Type 0} → Error → Result (Unit {0}) × S → Result A × S
  reraise e (ok _, s) = (err e, s)
  reraise e (err e', s) = (err e', s)

  abbrev pub caught : {A : Type 0} → Exec S (Unit {0}) → Result A × S → Result A × S
  caught h (ok a, s) = (ok a, s)
  caught h (err e, s) = reraise e (h s)

  -- `try: m  except Exception: h; raise`
  unfoldable pub on_error : {A : Type 0} → Exec S A → Exec S (Unit {0}) → Exec S A
  on_error m h s = caught h (m s)

  -- `try: m  except X as e: raise Y`, for the exceptions that `f` changes
  unfoldable pub map_error : {A : Type 0} → (Error → Error) → Exec S A → Exec S A
  map_error f m s = let (r, s') = m s in (elim r [ ok a ↦ ok a | err e ↦ err (f e) ], s')

  -- `try: m  except Exception: logger.exception(...)`
  abbrev pub swallow : Exec S (Unit {0}) → Exec S (Unit {0})
  swallow m s = (ok tt, (m s).1)

  -- `for x in xs: await f(x)`
  abbrev pub for_each : {A : Type 0} → (A → Exec S (Unit {0})) → List A → Exec S (Unit {0})
  for_each f [] = pure tt
  for_each f (x ∷ xs) = f x >> for_each f xs
