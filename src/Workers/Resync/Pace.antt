-- ===== src/Workers/Resync/Pace.antt =====
-- How often the watcher of the image directory begins a resync.
use knpodly.Base.{
  ℕ, suc, ◌+◌, ◌*◌, ◌≤◌, ◌≡◌, refl, sym, ◌∙◌, ap, Bool, true, false, List, [], ◌∷◌, ◌++◌, arith,
  All, All-append,
}
use knpodly.World.{World, Env}
use knpodly.Workers.Resync.{
  Phase, starting, sleeping, syncing, done, Scheduler, resync_debounce, claim_resync, on_any_event,
  Step, edit, noise, aside, rescan, handle, claim, wake, run, tick, Reach, here, next, start,
}
use knpodly.Workers.Resync.Counts.{bit, is_sleeping, total, total-at, total-append, replaced-total}

-- A task that sleeps ends its sleep a whole delay after the last resync could begin.
abbrev pub Waits : ℕ → ℕ → Phase → Type 0
Waits begun opened (sleeping until) = suc begun * resync_debounce + opened ≤ until
Waits begun opened _ = Unit

pub record Paced {H : Type 0} (opened : ℕ) (s : Scheduler H) : Type 0 where
  pub single : total is_sleeping s.tasks ≡ bit s.resync_pending
  pub due : All (Waits s.begun opened) s.tasks
  pub rate : s.begun * resync_debounce + opened ≤ s.now

All-left : (P : Phase → Type 0) (xs ys : List Phase) → All P (xs ++ ys) → All P xs
All-left P [] ys h = tt
All-left P (x ∷ xs) ys h = (h.0, All-left P xs ys h.1)

All-right : (P : Phase → Type 0) (xs ys : List Phase) → All P (xs ++ ys) → All P ys
All-right P [] ys h = h
All-right P (x ∷ xs) ys h = All-right P xs ys h.1

-- Where no task sleeps, none ends its sleep too early.
awake-Waits :
    (begun opened : ℕ) (ps : List Phase) → total is_sleeping ps ≡ 0 → All (Waits begun opened) ps
unfolding total
awake-Waits begun opened [] h = tt
awake-Waits begun opened (starting ∷ ps) h = (tt, awake-Waits begun opened ps (omega arith))
awake-Waits begun opened (sleeping until ∷ ps) h = absurd (omega arith)
awake-Waits begun opened (syncing ∷ ps) h = (tt, awake-Waits begun opened ps (omega arith))
awake-Waits begun opened (done ∷ ps) h = (tt, awake-Waits begun opened ps (omega arith))

-- The tasks around one that is replaced.
replaced-Waits :
    (begun opened : ℕ) (xs ys : List Phase) (p q : Phase)
    → All (Waits begun opened) (xs ++ p ∷ ys)
    → Waits begun opened q
    → All (Waits begun opened) (xs ++ q ∷ ys)
replaced-Waits begun opened xs ys p q h new =
    All-append (Waits begun opened) xs (q ∷ ys) (All-left (Waits begun opened) xs (p ∷ ys) h)
      (new, (All-right (Waits begun opened) xs (p ∷ ys) h).1)

bit-le : (b : Bool) → bit b ≤ 1
bit-le true = omega arith
bit-le false = omega arith

module _ {H : Type 0} (env : Env H) (opened : ℕ) where
  claim-Paced :
      (s : Scheduler H) (xs ys : List Phase)
      → s.tasks ≡ xs ++ starting ∷ ys
      → Paced opened s
      → (b : Bool) → s.resync_pending ≡ b
      → Paced opened (record s {
        tasks = xs ++ (claim_resync b s.now).0 ∷ ys;
        resync_pending = (claim_resync b s.now).1;
      })
  unfolding claim_resync
  claim-Paced s xs ys e v true pending =
      let was = ap (total is_sleeping) (sym e) ∙ v.single ∙ ap bit pending in
      record {
        single = omega (arith, was, replaced-total is_sleeping xs ys starting done);
        due = replaced-Waits s.begun opened xs ys starting done (rw e at v.due) tt;
        rate = v.rate;
      }
  claim-Paced s xs ys e v false pending =
      let was = ap (total is_sleeping) (sym e) ∙ v.single ∙ ap bit pending in
      record {
        single = omega (
          arith,
          was,
          replaced-total is_sleeping xs ys starting (sleeping (s.now + resync_debounce)),
        );
        due =
            replaced-Waits s.begun opened xs ys starting (sleeping (s.now + resync_debounce))
              (rw e at v.due) (omega (arith, v.rate));
        rate = v.rate;
      }

  Step-Paced : {s t : Scheduler H} → Step env s t → Paced opened s → Paced opened t
  unfolding on_any_event total
  Step-Paced (edit s w more e apart) v = record { single = v.single; due = v.due; rate = v.rate }
  Step-Paced (noise s) v = record { single = v.single; due = v.due; rate = v.rate }
  Step-Paced (aside s w e files folders) v = record {
    single = v.single;
    due = v.due;
    rate = v.rate;
  }
  Step-Paced (rescan s) v = record { single = v.single; due = v.due; rate = v.rate }
  Step-Paced (handle s n e) v = record {
    single = omega (arith, v.single, total-append is_sleeping s.tasks (starting ∷ []));
    due = All-append (Waits s.begun opened) s.tasks (starting ∷ []) v.due (tt, tt);
    rate = v.rate;
  }
  Step-Paced (claim s xs ys e) v = claim-Paced s xs ys e v s.resync_pending refl
  Step-Paced (wake s xs ys until e over) v =
      let was = ap (total is_sleeping) (sym e) ∙ v.single in
      let around : (total is_sleeping xs ≡ 0) × (total is_sleeping ys ≡ 0) =
        omega (arith, was, total-at is_sleeping xs ys (sleeping until), bit-le s.resync_pending) in
      let slept = (All-right (Waits s.begun opened) xs (sleeping until ∷ ys) (rw e at v.due)).0 in
      record {
        single = omega (arith, around, total-at is_sleeping xs ys syncing);
        due =
            All-append (Waits (suc s.begun) opened) xs (syncing ∷ ys)
              (awake-Waits (suc s.begun) opened xs (around.0))
              (tt, awake-Waits (suc s.begun) opened ys (around.1));
        rate = omega (arith, slept, over);
      }
  Step-Paced (run s xs ys more e) v = record {
    single = omega (
      arith,
      ap (total is_sleeping) (sym e) ∙ v.single,
      replaced-total is_sleeping xs ys syncing done,
    );
    due = replaced-Waits s.begun opened xs ys syncing done (rw e at v.due) tt;
    rate = v.rate;
  }
  Step-Paced (tick s d) v = record { single = v.single; due = v.due; rate = omega (arith, v.rate) }

  pub Reach-Paced : {s t : Scheduler H} → Paced opened s → Reach env s t → Paced opened t
  Reach-Paced v here = v
  Reach-Paced v (next reach step) = Step-Paced step (Reach-Paced v reach)

  pub start-Paced : (w : World H) → Paced opened (start w opened)
  unfolding total
  start-Paced w = record { single = refl; due = tt; rate = omega arith }

  -- However many events the directory fires, the resyncs that begin in a time are at most one for
  -- each whole delay of it.
  pub resyncs_paced :
      (w : World H) (s : Scheduler H)
      → Reach env (start w opened) s
      → s.begun * resync_debounce + opened ≤ s.now
  resyncs_paced w s reach = (Reach-Paced (start-Paced w) reach).rate
