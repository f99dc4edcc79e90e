-- ===== src/Tests/RateLimit.antt =====
-- Attempts of one user at sample times.
use knpodly.Base.{
  All, ◌<ℤ◌, ◌+ℤ◌, arith, pos, ◌≡◌, refl, String, none, List, [], ◌∷◌, false, str_eq,
}
use knpodly.Exec.{ok}
use knpodly.Models.{Time}
use knpodly.RateLimit.{window, Counters, login_key, check_login_rate_limit, reset_login_rate_limit}
use knpodly.RateLimit.Windows.{
  after, verdict, check_login_rate_limit-verdict, reset_login_rate_limit-opens,
}

-- a name in lower case already
abbrev same : String → String
same s = s

abbrev no_counters : Counters
no_counters k = none

abbrev nine : List Time
nine = pos 1 ∷ pos 2 ∷ pos 3 ∷ pos 4 ∷ pos 5 ∷ pos 6 ∷ pos 7 ∷ pos 8 ∷ pos 9 ∷ []

nine_within : All (λ u. u <ℤ pos 0 +ℤ window) nine
unfolding ◌+ℤ◌
nine_within = (
  omega arith,
  (
    omega arith,
    (
      omega arith,
      (omega arith, (omega arith, (omega arith, (omega arith, (omega arith, (omega arith, tt)))))),
    ),
  ),
)

ten_within : pos 10 <ℤ pos 0 +ℤ window
unfolding ◌+ℤ◌
ten_within = omega arith

check_login_rate_limit-verdict_example :
    ((check_login_rate_limit same (pos 0) "10.0.0.7" "ada" no_counters).0 ≡ ok tt)
    × ((check_login_rate_limit same
          (pos 10)
          "10.0.0.7"
          "ada"
          (after same "10.0.0.7" "ada" (pos 0 ∷ nine) no_counters)).0
        ≡ verdict 11)
check_login_rate_limit-verdict_example =
    check_login_rate_limit-verdict same "10.0.0.7" "ada" (pos 0) nine (pos 10) no_counters refl
      nine_within ten_within

abbrev reset : Counters
reset =
    (reset_login_rate_limit same "10.0.0.7" "ada"
      (after same "10.0.0.7" "ada" (pos 0 ∷ nine) no_counters)).1

reset_login_rate_limit-opens_example :
    ((check_login_rate_limit same (pos 0) "10.0.0.7" "ada" reset).0 ≡ ok tt)
    × ((check_login_rate_limit same
          (pos 10)
          "10.0.0.7"
          "ada"
          (after same "10.0.0.7" "ada" (pos 0 ∷ nine) reset)).0
        ≡ verdict 11)
    × ((k : String)
        → str_eq (login_key same "10.0.0.7" "ada") k ≡ false
        → reset k ≡ after same "10.0.0.7" "ada" (pos 0 ∷ nine) no_counters k)
reset_login_rate_limit-opens_example =
    reset_login_rate_limit-opens same "10.0.0.7" "ada" (pos 0) nine (pos 10)
      (after same "10.0.0.7" "ada" (pos 0 ∷ nine) no_counters) nine_within ten_within
