-- ===== src/Workers/Resync/Counts.antt =====
-- How many tasks of the scheduler sleep, and how many have not ended.
use knpodly.Base.{ℕ, ◌+◌, ◌≤◌, ◌≡◌, refl, Bool, true, false, List, [], ◌∷◌, ◌++◌, arith}
use knpodly.Workers.Resync.{Phase, starting, sleeping, syncing, done}

abbrev pub bit : Bool → ℕ
bit true = 1
bit false = 0

abbrev pub is_sleeping : Phase → ℕ
is_sleeping (sleeping until) = 1
is_sleeping _ = 0

abbrev pub is_active : Phase → ℕ
is_active done = 0
is_active _ = 1

unfoldable pub total : (Phase → ℕ) → List Phase → ℕ
total f [] = 0
total f (p ∷ ps) = f p + total f ps

pub total-append :
    (f : Phase → ℕ) (xs ys : List Phase) → total f (xs ++ ys) ≡ total f xs + total f ys
unfolding total
total-append f [] ys = omega arith
total-append f (x ∷ xs) ys = omega (arith, total-append f xs ys)

-- A list with one of its tasks replaced.
pub total-at :
    (f : Phase → ℕ) (xs ys : List Phase) (p : Phase)
    → total f (xs ++ p ∷ ys) ≡ total f xs + f p + total f ys
unfolding total
total-at f xs ys p = omega (arith, total-append f xs (p ∷ ys))

-- Every task has ended.
abbrev pub Ended : List Phase → Type 0
Ended [] = Unit
Ended (p ∷ ps) = (p ≡ done) × Ended ps

pub Ended-total : (ps : List Phase) → Ended ps → total is_active ps ≡ 0
unfolding total
Ended-total [] h = refl
Ended-total (p ∷ ps) (e, h) = rw e (omega (arith, Ended-total ps h))

pub replaced-total :
    (f : Phase → ℕ) (xs ys : List Phase) (p q : Phase)
    → total f (xs ++ q ∷ ys) + f p ≡ total f (xs ++ p ∷ ys) + f q
replaced-total f xs ys p q = omega (arith, total-at f xs ys p, total-at f xs ys q)

pub sleeping-le-active : (ps : List Phase) → total is_sleeping ps ≤ total is_active ps
unfolding total
sleeping-le-active [] = omega arith
sleeping-le-active (starting ∷ ps) = omega (arith, sleeping-le-active ps)
sleeping-le-active (sleeping until ∷ ps) = omega (arith, sleeping-le-active ps)
sleeping-le-active (syncing ∷ ps) = omega (arith, sleeping-le-active ps)
sleeping-le-active (done ∷ ps) = omega (arith, sleeping-le-active ps)
