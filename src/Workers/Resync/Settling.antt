-- ===== src/Workers/Resync/Settling.antt =====
-- The steps of the watcher, by the events that the image directory fires.
use knpodly.Base.{ℕ, suc, ◌+◌, ◌*◌, ◌≡◌}
use knpodly.World.{World, Env}
use knpodly.Workers.Resync.{
  Phase, starting, sleeping, syncing, done, Scheduler, Step, edit, noise, handle, claim, wake, run,
}
use knpodly.Workers.Resync.Counts.{total}

-- How many blocks a task has still to run, at most.
abbrev pub blocks_left : Phase → ℕ
blocks_left starting = 3
blocks_left (sleeping until) = 2
blocks_left syncing = 1
blocks_left done = 0

-- What is left to do in a state, at most.
abbrev pub work : {H : Type 0} → Scheduler H → ℕ
work s = 4 * s.fired + total blocks_left s.tasks

module _ {H : Type 0} (env : Env H) where
  -- The events that the directory fires in a step.
  abbrev pub events : {s t : Scheduler H} → Step env s t → ℕ
  events (edit s w more e apart) = suc more
  events (noise s) = 1
  events (run s xs ys more e) = more
  events _ = 0

  -- A step of the watcher itself.
  abbrev pub cost : {s t : Scheduler H} → Step env s t → ℕ
  cost (handle s n e) = 1
  cost (claim s xs ys e) = 1
  cost (wake s xs ys until e over) = 1
  cost (run s xs ys more e) = 1
  cost _ = 0

  -- Any steps, with the number of those of the watcher and the number of events that were fired.
  pub data Works (s : Scheduler H) : ℕ → ℕ → Scheduler H → Type 0 where
    stays : Works s 0 0 s
    goes_on :
        {n k m l : ℕ} {t u : Scheduler H}
        → Works s n k t
        → (step : Step env t u) → m ≡ cost step + n
        → l ≡ events step + k
        → Works s m l u

  -- The next step of the watcher, after some time.
  abbrev pub Next : Scheduler H → Type 0
  Next s =
      (d : ℕ) × (t : Scheduler H) × (step : Step env (record s { now = s.now + d }) t) × (cost step
        ≡ 1)
