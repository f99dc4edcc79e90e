-- ===== src/RateLimit/Windows.antt =====
-- How many attempts a window allows.
use mathlib.Core.Path.{subst}
use knpodly.Base.{
  ℕ, suc, pos, ◌+◌, ◌≤◌, ◌+ℤ◌, ◌<ℤ◌, ltb, lt→leb_ℤ, ◌≡◌, refl, String, false, Option, none, some,
  List, [], ◌∷◌, All, length, arith, inl, inr, Bool-cases, ◌==◌, str_eq, eq_iff, if◌then◌else◌,
}
use knpodly.Exec.{Result, ok, err, http_exception, ◌>>=◌}
use knpodly.Models.{Time}
use knpodly.RateLimit.{
  window, Counter, Counters, bump, set_key, live_at, incr, expire, login_key,
  check_login_rate_limit, reset_login_rate_limit,
}

set_key-same : (cs : Counters) (key : String) (c : Option Counter) → set_key cs key c key ≡ c
unfolding set_key
set_key-same cs key c = rw ((eq_iff key key).1 refl) refl

-- The verdict on the `n`-th attempt of a window.
abbrev pub verdict : ℕ → Result (Unit {0})
verdict n =
    if ltb 10 n
    then err
        (http_exception 429 "Too many login attempts. Please wait a few minutes and try again.")
    else ok tt

module _ (lower : String → String) (ip_address username : String) where
  -- The verdict follows from the number alone.
  pub check-verdict :
      (t : Time) (cs : Counters)
      → (n : ℕ) × (cs' : Counters) × (check_login_rate_limit lower t ip_address username cs
          ≡ (verdict n, cs'))
  unfolding check_login_rate_limit incr expire ◌>>=◌
  check-verdict t cs =
      let n = (bump (live_at t (cs (login_key lower ip_address username)))).attempts in
      let last = (check_login_rate_limit lower t ip_address username cs).1 in
      elim (Bool-cases (n == 1)) [ inl e ↦ (n, last, rw e refl) | inr e ↦ (n, last, rw e refl) ]

  abbrev key : String
  key = login_key lower ip_address username

  -- The attempts at some times, whatever becomes of them.
  abbrev pub after : List Time → Counters → Counters
  after [] cs = cs
  after (t ∷ ts) cs = after ts (check_login_rate_limit lower t ip_address username cs).1

  -- `n` attempts are counted, until `e`.
  abbrev Counted : ℕ → Time → Counters → Type 0
  Counted n e cs = cs key ≡ some (record { attempts = n; expires_at = some e })

  -- The first attempt opens a window.
  first_attempt :
      (t : Time) (cs : Counters)
      → live_at t (cs key) ≡ none
      → ((check_login_rate_limit lower t ip_address username cs).0 ≡ ok tt)
        × Counted 1 (t +ℤ window) (check_login_rate_limit lower t ip_address username cs).1
  unfolding check_login_rate_limit incr expire ◌>>=◌
  first_attempt t cs fresh =
      rw (fresh, set_key-same cs key (some (record { attempts = 1; expires_at = none })))
        (refl, set_key-same _ key _)

  -- Another one is counted in the window.
  next_attempt :
      (n : ℕ) (e t : Time) (cs : Counters)
      → 1 ≤ n
      → t <ℤ e
      → Counted n e cs
      → ((check_login_rate_limit lower t ip_address username cs).0 ≡ verdict (suc n))
        × Counted (suc n) e (check_login_rate_limit lower t ip_address username cs).1
  unfolding check_login_rate_limit incr expire ◌>>=◌
  next_attempt n e t cs some_before within counted =
      let open_window = lt→leb_ℤ e t within in
      let later : (suc n == 1) ≡ false = ground arith in
      rw (counted, open_window, later) (refl, set_key-same cs key _)

  after-Counted :
      (ts : List Time) (n : ℕ) (e : Time) (cs : Counters)
      → 1 ≤ n
      → All (λ t. t <ℤ e) ts
      → Counted n e cs
      → Counted (n + length ts) e (after ts cs)
  after-Counted [] n e cs some_before within counted =
      subst (λ m. Counted m e cs) (omega arith) counted
  after-Counted (t ∷ ts) n e cs some_before (now, within) counted =
      subst (λ m. Counted m e (after ts (check_login_rate_limit lower t ip_address username cs).1))
        (omega arith)
        (after-Counted ts (suc n) e _ (omega arith) within
          (next_attempt n e t cs some_before now counted).1)

  -- The first attempt of a window for an address and a user name passes; after it and any attempts
  -- within its 300 seconds, one more within them is refused with status 429 exactly if ten or more
  -- went before it, and passes otherwise.
  pub check_login_rate_limit-verdict :
      (start : Time) (ts : List Time) (t : Time) (cs : Counters)
      → live_at start (cs key) ≡ none
      → All (λ u. u <ℤ start +ℤ pos 300000000) ts
      → t <ℤ start +ℤ pos 300000000
      → ((check_login_rate_limit lower start ip_address username cs).0 ≡ ok tt)
        × ((check_login_rate_limit lower t ip_address username (after (start ∷ ts) cs)).0
            ≡ verdict (suc (1 + length ts)))
  check_login_rate_limit-verdict start ts t cs fresh within now =
      let (first, counted) = first_attempt start cs fresh in
      (
        first,
        (next_attempt (1 + length ts) (start +ℤ pos 300000000) t _ (omega arith) now
            (after-Counted ts 1 (start +ℤ pos 300000000) _ (omega arith) within counted)).0,
      )

  -- A reset for an address and a user name, as after a login, whatever was counted before: the next
  -- attempt opens a window, and with it ten attempts within 300 seconds pass and the eleventh is
  -- refused, just as without the attempts before the reset. All other keys are left as they were.
  pub reset_login_rate_limit-opens :
      (start : Time) (ts : List Time) (t : Time) (cs : Counters)
      → All (λ u. u <ℤ start +ℤ pos 300000000) ts
      → t <ℤ start +ℤ pos 300000000
      → let cs' = (reset_login_rate_limit lower ip_address username cs).1 in
        ((check_login_rate_limit lower start ip_address username cs').0 ≡ ok tt)
        × ((check_login_rate_limit lower t ip_address username (after (start ∷ ts) cs')).0
            ≡ verdict (suc (1 + length ts)))
        × ((k : String) → str_eq key k ≡ false → cs' k ≡ cs k)
  unfolding reset_login_rate_limit set_key
  reset_login_rate_limit-opens start ts t cs within now =
      let (first, later) =
        check_login_rate_limit-verdict start ts t _ (rw ((eq_iff key key).1 refl) refl) within
          now in
      (first, later, λ k other. rw other refl)
