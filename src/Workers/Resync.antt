-- ===== src/Workers/Resync.antt =====
-- backend/app/workers/scheduler.py, `main`: the watcher of the image directory. Each event of the
-- directory makes a task of `debounced_resync`. No task waits while it holds `resync_lock`, so a
-- block under the lock is one step. A resync runs as a whole.
pub mod Counts
pub mod Upkeep
pub mod Pace
pub mod Settling
use knpodly.Base.{ℕ, suc, ◌+◌, ◌≤◌, ◌≡◌, Bool, true, false, List, [], ◌∷◌, ◌++◌, if◌then◌else◌}
use knpodly.Exec.{Exec, ◌>>=◌}
use knpodly.World.{World, Env, catalogue_resynced, publish_event}
use knpodly.ImageDiscovery.Sync.{sync_to_database}
use knpodly.ImageDiscovery.Scan.{distinct_folders}

-- `RESYNC_DEBOUNCE_SECONDS`, in microseconds
abbrev pub resync_debounce : ℕ
resync_debounce = 2000000

-- Where a task of `debounced_resync` stands: before its first block, in `asyncio.sleep` until a time
-- of the loop, after its second block, or at its end.
pub data Phase : Type 0 where
  starting : Phase
  sleeping : (until : ℕ) → Phase
  syncing : Phase
  done : Phase

pub record Scheduler (H : Type 0) : Type 0 where
  pub world : World H
  -- the events of the directory that the handler has not seen yet
  pub fired : ℕ
  pub tasks : List Phase
  pub resync_pending : Bool
  -- `loop.time()`, in microseconds
  pub now : ℕ
  -- how many tasks have left their second block
  pub begun : ℕ

-- The first block: the phase after it, and `resync_pending`.
unfoldable pub claim_resync : Bool → ℕ → Phase × Bool
claim_resync resync_pending now =
    if resync_pending then (done, true) else (sleeping (now + resync_debounce), true)

-- `_ImageDirHandler.on_any_event`: `loop.create_task(debounced_resync())`
unfoldable pub on_any_event : List Phase → List Phase
on_any_event tasks = tasks ++ starting ∷ []

module _ {H : Type 0} (env : Env H) where
  unfoldable pub resync : Exec (World H) (Unit {0})
  resync = do count ← sync_to_database env; publish_event (catalogue_resynced count)

  pub data Step : Scheduler H → Scheduler H → Type 0 where
    -- the image directory changes, and fires at least one event
    edit :
        (s : Scheduler H) (w : World H) (more : ℕ)
        → w.operating_systems ≡ s.world.operating_systems
        → distinct_folders w.image_folders ≡ true
        → Step s (record s { world = w; fired = suc more + s.fired })
    -- an event that no change stands behind, as that of a file that is opened
    noise : (s : Scheduler H) → Step s (record s { fired = suc s.fired })
    -- requests, jobs and sweeps, which leave the directory and the catalogue alone
    aside :
        (s : Scheduler H) (w : World H)
        → w.operating_systems ≡ s.world.operating_systems
        → w.files ≡ s.world.files
        → w.image_folders ≡ s.world.image_folders
        → Step s (record s { world = w })
    -- a synchronisation by the API: on its start, or by the route `rescan`
    rescan : (s : Scheduler H) → Step s (record s { world = (sync_to_database env s.world).1 })
    handle :
        (s : Scheduler H) (n : ℕ)
        → s.fired ≡ suc n
        → Step s (record s { fired = n; tasks = on_any_event s.tasks })
    claim :
        (s : Scheduler H) (xs ys : List Phase)
        → s.tasks ≡ xs ++ starting ∷ ys
        → Step s (record s {
          tasks = xs ++ (claim_resync s.resync_pending s.now).0 ∷ ys;
          resync_pending = (claim_resync s.resync_pending s.now).1;
        })
    -- the second block
    wake :
        (s : Scheduler H) (xs ys : List Phase) (until : ℕ)
        → s.tasks ≡ xs ++ sleeping until ∷ ys
        → until ≤ s.now
        → Step s
            (record s { tasks = xs ++ syncing ∷ ys; resync_pending = false; begun = suc s.begun })
    -- it returns, or it raises and the loop logs the exception; the directory fires events for the
    -- files that it opens and closes
    run :
        (s : Scheduler H) (xs ys : List Phase) (more : ℕ)
        → s.tasks ≡ xs ++ syncing ∷ ys
        → Step s (record s {
          world = (resync s.world).1;
          fired = more + s.fired;
          tasks = xs ++ done ∷ ys;
        })
    tick : (s : Scheduler H) (d : ℕ) → Step s (record s { now = s.now + d })

  pub data Reach (s : Scheduler H) : Scheduler H → Type 0 where
    here : Reach s s
    next : {t u : Scheduler H} → Reach s t → Step t u → Reach s u

-- `main` when its observer starts.
abbrev pub start : {H : Type 0} → World H → ℕ → Scheduler H
start w now = record {
  world = w;
  fired = 0;
  tasks = [];
  resync_pending = false;
  now = now;
  begun = 0;
}
