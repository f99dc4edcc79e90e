-- ===== src/Workers/Resync/Upkeep.antt =====
-- The watcher loses no change of the image directory.
use knpodly.Base.{
  ℕ, ◌+◌, ◌<◌, ◌≡◌, refl, sym, ◌∙◌, ap, Bool, true, false, ◌⊎◌, inl, inr, Option, none, some, List,
  [], ◌∷◌, ◌++◌, arith,
}
use knpodly.Exec.{Exec, Result, ok, err}
use knpodly.Exec.Runs.{Runs-refl, Runs-bind-ok, Runs-bind-err}
use knpodly.Exec.Keeps.{Keeps, Keeps-bind, Keeps-for_each}
use knpodly.World.{World, Env, catalogue_resynced, publish_event, scalar_one_or_none}
use knpodly.Models.{OperatingSystem}
use knpodly.ImageDiscovery.{DiscoveredImage}
use knpodly.ImageDiscovery.Scan.{distinct_folders}
use knpodly.ImageDiscovery.Sync.{
  sync_to_database, upsert, store_image, atomic, restored, catalogue_ok,
}
use knpodly.ImageDiscovery.Laws.{Syncs, sync_to_database-Syncs}
use knpodly.Workers.Resync.{
  Phase, starting, sleeping, syncing, done, Scheduler, claim_resync, on_any_event, resync_debounce,
  resync, Step, edit, noise, aside, rescan, handle, claim, wake, run, tick, Reach, here, next,
  start,
}
use knpodly.Workers.Resync.Counts.{
  bit, is_sleeping, is_active, total, total-at, total-append, replaced-total, Ended, Ended-total,
  sleeping-le-active,
}
use knpodly.Workers.Resync.Pace.{Paced, Reach-Paced, start-Paced}

-- The image directory is as it was.
abbrev SameDirectory : {H : Type 0} → World H → World H → Type 0
SameDirectory a b = (a.files ≡ b.files) × (a.image_folders ≡ b.image_folders)

module _ {H A : Type 0} (v : World H) where
  directory-aside :
      {m : Exec (World H) A} → ((w : World H) → SameDirectory w (m w).1) → Keeps (SameDirectory v) m
  directory-aside h = record { at = λ w p. (p.0 ∙ (h w).0, p.1 ∙ (h w).1) }

module _ {H : Type 0} (v : World H) where
  scalar-directory :
      {A : Type 0} (rows : List A) → Keeps {S = World H} (SameDirectory v) (scalar_one_or_none rows)
  scalar-directory [] = directory-aside v (λ w. (refl, refl))
  scalar-directory (x ∷ []) = directory-aside v (λ w. (refl, refl))
  scalar-directory (x ∷ y ∷ rows) = directory-aside v (λ w. (refl, refl))

  store_image-directory :
      (img : DiscoveredImage) (o : Option OperatingSystem)
      → Keeps {S = World H} (SameDirectory v) (store_image img o)
  unfolding store_image
  store_image-directory img none = Keeps-bind (directory-aside v (λ w. (refl, refl))) (λ id.
      Keeps-bind (directory-aside v (λ w. (refl, refl))) (λ row.
        Keeps-bind (directory-aside v (λ w. (refl, refl))) (λ rows.
          Keeps-bind (directory-aside v (λ w. (refl, refl)))
            (λ _. directory-aside v (λ w. (refl, refl))))))
  store_image-directory img (some existing) =
      Keeps-bind (directory-aside v (λ w. (refl, refl)))
        (λ row. directory-aside v (λ w. (refl, refl)))

  upsert-directory : (img : DiscoveredImage) → Keeps {S = World H} (SameDirectory v) (upsert img)
  unfolding upsert
  upsert-directory img =
      Keeps-bind (directory-aside v (λ w. (refl, refl)))
        (λ rows. Keeps-bind (scalar-directory rows) (λ o. store_image-directory img o))

  atomic-directory :
      {A : Type 0} {m : Exec (World H) A}
      → Keeps (SameDirectory v) m
      → Keeps (SameDirectory v) (atomic m)
  unfolding atomic
  atomic-directory {A} {m} km = record { at = λ w p. kept w.operating_systems (m w) (km.at w p) }
    where
      kept :
          (rows : List OperatingSystem) (x : Result A × World H)
          → SameDirectory v x.1
          → SameDirectory v (restored rows x).1
      kept rows (ok a, w) p = p
      kept rows (err e, w) p = p

  sync_to_database-directory : (env : Env H) → Keeps (SameDirectory v) (sync_to_database env)
  unfolding sync_to_database
  sync_to_database-directory env = Keeps-bind (directory-aside v (λ w. (refl, refl))) (λ scanned.
      Keeps-bind (directory-aside v (λ w. (refl, refl))) (λ images.
        Keeps-bind (atomic-directory (Keeps-for_each upsert images upsert-directory))
          (λ _. directory-aside v (λ w. (refl, refl)))))

module _ {H : Type 0} (env : Env H) where
  -- The catalogue is what a synchronisation left that found the directory as it is now, or kept if
  -- that one raised.
  abbrev pub UpToDate : World H → Type 0
  UpToDate w =
      (v : World H) × (v.files ≡ w.files)
      × (v.image_folders ≡ w.image_folders)
      × Syncs env v ((sync_to_database env v).0, w)

  -- A resync does with the catalogue and the directory what its synchronisation does.
  resync-as_sync :
      (w : World H)
      → ((resync env w).1.operating_systems ≡ (sync_to_database env w).1.operating_systems)
        × ((resync env w).1.files ≡ (sync_to_database env w).1.files)
        × ((resync env w).1.image_folders ≡ (sync_to_database env w).1.image_folders)
  unfolding resync
  resync-as_sync w = go (sync_to_database env w) refl
    where
      go :
          (x : Result ℕ × World H)
          → sync_to_database env w ≡ x
          → ((resync env w).1.operating_systems ≡ (sync_to_database env w).1.operating_systems)
            × ((resync env w).1.files ≡ (sync_to_database env w).1.files)
            × ((resync env w).1.image_folders ≡ (sync_to_database env w).1.image_folders)
      go (ok n, w') e =
          let told = λ (count : ℕ). publish_event {H = H} (catalogue_resynced count) in
          rw ((Runs-bind-ok told (record { at = e }) (Runs-refl (told n) w')).at, e)
            (refl, refl, refl)
      go (err x, w') e =
          let told = λ (count : ℕ). publish_event {H = H} (catalogue_resynced count) in
          rw ((Runs-bind-err told (record { at = e })).at, e) (refl, refl, refl)

  -- What a synchronisation says of the table, for another state with the same table.
  Syncs-table :
      (v a b : World H) (r : Result ℕ)
      → b.operating_systems ≡ a.operating_systems
      → Syncs env v (r, a)
      → Syncs env v (r, b)
  Syncs-table v a b (err e) same h = same ∙ h
  Syncs-table v a b (ok n) same h = rw same h

  UpToDate-aside :
      (a b : World H)
      → b.operating_systems ≡ a.operating_systems
      → b.files ≡ a.files
      → b.image_folders ≡ a.image_folders
      → UpToDate a
      → UpToDate b
  UpToDate-aside a b same files folders (v, found, folders', h) = (
    v,
    found ∙ sym files,
    folders' ∙ sym folders,
    Syncs-table v a b (sync_to_database env v).0 same h,
  )

  record IsSound (w : World H) : Type 0 where
    catalogue : catalogue_ok w.operating_systems ≡ true
    apart : distinct_folders w.image_folders ≡ true

  sync-catalogue_ok :
      (v : World H) (x : Result ℕ × World H)
      → catalogue_ok v.operating_systems ≡ true
      → Syncs env v x
      → catalogue_ok x.1.operating_systems ≡ true
  sync-catalogue_ok v (ok n, w) ix h = h.3
  sync-catalogue_ok v (err e, w) ix h = ap catalogue_ok h ∙ ix

  sync-UpToDate :
      (w : World H)
      → IsSound w
      → UpToDate (sync_to_database env w).1 × IsSound (sync_to_database env w).1
  sync-UpToDate w k =
      let kept = (sync_to_database-directory w env).at w (refl, refl) in
      let synced = sync_to_database-Syncs env w k.apart k.catalogue in
      (
        (w, kept.0, kept.1, synced),
        record {
          catalogue = sync-catalogue_ok w (sync_to_database env w) k.catalogue synced;
          apart = ap distinct_folders (sym kept.1) ∙ k.apart;
        },
      )

  -- After a synchronisation the catalogue is up to date.
  pub synced-UpToDate :
      (w : World H)
      → catalogue_ok w.operating_systems ≡ true
      → distinct_folders w.image_folders ≡ true
      → UpToDate (sync_to_database env w).1
  synced-UpToDate w ix apart = (sync-UpToDate w (record { catalogue = ix; apart = apart })).0

  resync-UpToDate : (w : World H) → IsSound w → UpToDate (resync env w).1 × IsSound (resync env w).1
  resync-UpToDate w k =
      let (fresh, sound) = sync-UpToDate w k in
      let (table, files, folders) = resync-as_sync w in
      (
        UpToDate-aside (sync_to_database env w).1 (resync env w).1 table files folders fresh,
        record {
          catalogue = ap catalogue_ok table ∙ sound.catalogue;
          apart = ap distinct_folders folders ∙ sound.apart;
        },
      )

  -- The catalogue is up to date, or an event or a task is still to come.
  record Kept (s : Scheduler H) : Type 0 where
    sound : IsSound s.world
    covered : UpToDate s.world ⊎ (0 < s.fired + total is_active s.tasks)

  claim-covered :
      (s : Scheduler H) (xs ys : List Phase)
      → s.tasks ≡ xs ++ starting ∷ ys
      → total is_sleeping s.tasks ≡ bit s.resync_pending
      → (b : Bool) → s.resync_pending ≡ b
      → 0 < total is_active (xs ++ (claim_resync b s.now).0 ∷ ys)
  unfolding claim_resync
  claim-covered s xs ys e single true pending =
      let was = ap (total is_sleeping) (sym e) ∙ single ∙ ap bit pending in
      omega (
        arith,
        was,
        replaced-total is_sleeping xs ys starting done,
        sleeping-le-active (xs ++ done ∷ ys),
      )
  claim-covered s xs ys e single false pending =
      omega (arith, total-at is_active xs ys (sleeping (s.now + resync_debounce)))

  Step-Kept :
      {s t : Scheduler H}
      → Step env s t
      → total is_sleeping s.tasks ≡ bit s.resync_pending
      → Kept s
      → Kept t
  unfolding on_any_event total
  Step-Kept (edit s w more e apart) single k = record {
    sound = record { catalogue = ap catalogue_ok e ∙ k.sound.catalogue; apart = apart };
    covered = inr (omega arith);
  }
  Step-Kept (noise s) single k = record { sound = k.sound; covered = inr (omega arith) }
  Step-Kept (aside s w e files folders) single k = record {
    sound = record {
      catalogue = ap catalogue_ok e ∙ k.sound.catalogue;
      apart = ap distinct_folders folders ∙ k.sound.apart;
    };
    covered = elim k.covered [
      | inl fresh ↦ inl (UpToDate-aside s.world w e files folders fresh)
      | inr more ↦ inr more
    ];
  }
  Step-Kept (rescan s) single k =
      let (fresh, sound) = sync-UpToDate s.world k.sound in
      record { sound = sound; covered = inl fresh }
  Step-Kept (handle s n e) single k = record {
    sound = k.sound;
    covered = inr (omega (arith, total-append is_active s.tasks (starting ∷ [])));
  }
  Step-Kept (claim s xs ys e) single k = record {
    sound = k.sound;
    covered = inr (omega (arith, claim-covered s xs ys e single s.resync_pending refl));
  }
  Step-Kept (wake s xs ys until e over) single k = record {
    sound = k.sound;
    covered = inr (omega (arith, total-at is_active xs ys syncing));
  }
  Step-Kept (run s xs ys more e) single k =
      let (fresh, sound) = resync-UpToDate s.world k.sound in
      record { sound = sound; covered = inl fresh }
  Step-Kept (tick s d) single k = record { sound = k.sound; covered = k.covered }

  Reach-Kept : {s t : Scheduler H} (opened : ℕ) → Paced opened s → Kept s → Reach env s t → Kept t
  Reach-Kept opened p k here = k
  Reach-Kept opened p k (next reach step) =
      Step-Kept step (Reach-Paced env opened p reach).single (Reach-Kept opened p k reach)

  -- No change is lost: if the catalogue is up to date when the scheduler starts, then it is up to date
  -- whenever every event of the image directory has been handled and every task of the watcher has
  -- ended.
  pub watcher-UpToDate :
      (w : World H) (opened : ℕ) (s : Scheduler H)
      → catalogue_ok w.operating_systems ≡ true
      → distinct_folders w.image_folders ≡ true
      → UpToDate w
      → Reach env (start w opened) s
      → s.fired ≡ 0
      → Ended s.tasks
      → UpToDate s.world
  watcher-UpToDate w opened s ix apart fresh reach handled ended =
      let k =
        Reach-Kept opened (start-Paced env opened w)
          (record { sound = record { catalogue = ix; apart = apart }; covered = inl fresh })
          reach in
      elim k.covered [
        | inl fresh' ↦ fresh'
        | inr more ↦ absurd (omega (arith, Ended-total s.tasks ended))
      ]
