-- ===== src/ImageDiscovery/Laws.antt =====
-- What a synchronisation leaves in operating_systems.
use knpodly.Base.{
  ℕ, suc, ◌≡◌, refl, sym, ap, ◌∙◌, String, true, false, any, none, some, List, [], ◌∷◌, All,
  All-zip, length, where_rows, str_eq, eq_iff, arith, inl, inr, Bool-cases, Option-cases,
  if◌then◌else◌,
}
use knpodly.Exec.{Result, ok, err, pure, gets, for_each, ◌>>◌}
use knpodly.Exec.Runs.{Runs-refl, Result-cases, Runs-raise_if-pass, Runs-raise_if-fail}
use knpodly.Exec.Checks.{ok-bind, err-bind}
use knpodly.Models.{OperatingSystem, available}
use knpodly.World.{World, Env, draw_uuid}
use knpodly.Files.{is_file}
use knpodly.ImageDiscovery.{DiscoveredImage, scan_all}
use knpodly.ImageDiscovery.Sync.{
  os_conflicts, catalogue_ok, find_os, row_of, store_image, upsert, restored, atomic,
  sync_to_database,
}
use knpodly.ImageDiscovery.Rows.{
  where_rows-slug, where_rows-slug_absent, find_os-update, catalogue_ok-update, catalogue_ok-append,
  find_os-append,
}
use knpodly.ImageDiscovery.Scan.{slugs, among, distinct, distinct_folders, Backed, scan_all-Scanned}
use knpodly.ImageDiscovery.Mirrors.{Mirrors, row_of-Mirrors}

module _ {H : Type 0} where
  -- One image is written: its row is found by its slug, and other slugs find what they found.
  abbrev Written : DiscoveredImage → World H → Result (Unit {0}) × World H → Type 0
  Written img w (err e, v) = Unit
  Written img w (ok _, v) =
      (row : OperatingSystem) × Mirrors img row
      × (catalogue_ok v.operating_systems ≡ true)
      × ((s : String)
          → find_os s v.operating_systems
            ≡ (if str_eq img.slug s then some row else find_os s w.operating_systems))

  existing-Written :
      (img : DiscoveredImage) (o : OperatingSystem) (w : World H)
      → catalogue_ok w.operating_systems ≡ true
      → find_os img.slug w.operating_systems ≡ some o
      → Written img w (store_image img (some o) w)
  unfolding store_image
  existing-Written img o w ix found = elim (Result-cases (row_of false o.id img)) [
    | inr (e, bad) ↦ err-bind (Written img w) _ {t = w} {e = e} (record { at = rw bad refl }) tt
    | inl (row, good) ↦
        let (mirrors, id) = row_of-Mirrors false o.id img row good in
        let at_row : find_os row.slug w.operating_systems ≡ some o = rw (mirrors.slug) found in
        ok-bind (Written img w) _ {t = w} {a = row} (record { at = rw good refl })
          (
            row,
            mirrors,
            catalogue_ok-update row w.operating_systems o ix at_row (sym id),
            λ s.
                find_os-update row w.operating_systems o s ix at_row (sym id)
                ∙ rw (mirrors.slug) refl,
          )
  ]

  new-Written :
      (img : DiscoveredImage) (w : World H)
      → catalogue_ok w.operating_systems ≡ true
      → find_os img.slug w.operating_systems ≡ none
      → Written img w (store_image img none w)
  unfolding store_image
  new-Written img w ix absent =
      let drawn : World H = record w { uuid_draws = suc w.uuid_draws } in
      ok-bind (Written img w) _ (Runs-refl draw_uuid w)
        (elim (Result-cases (row_of true (w.uuids w.uuid_draws) img)) [
          | inr (e, bad) ↦
              err-bind (Written img w) _ {t = drawn} {e = e} (record { at = rw bad refl }) tt
          | inl (row, good) ↦
              let (mirrors, id) = row_of-Mirrors true _ img row good in
              let at_row : find_os row.slug w.operating_systems ≡ none = rw (mirrors.slug) absent in
              ok-bind (Written img w) _ {t = drawn} {a = row} (record { at = rw good refl })
                (ok-bind (Written img w) _ (Runs-refl (gets (λ w. w.operating_systems)) drawn)
                  (elim (Bool-cases (any (os_conflicts row) w.operating_systems)) [
                    | inl clash ↦ err-bind (Written img w) _ (Runs-raise_if-fail _ drawn clash) tt
                    | inr free ↦ ok-bind (Written img w) _ (Runs-raise_if-pass _ drawn free) (
                      row,
                      mirrors,
                      catalogue_ok-append w.operating_systems row ∙ rw (free, ix) refl,
                      λ s. find_os-append w.operating_systems row s at_row ∙ rw (mirrors.slug) refl,
                    )
                  ]))
        ])

  upsert-Written :
      (img : DiscoveredImage) (w : World H)
      → catalogue_ok w.operating_systems ≡ true
      → Written img w (upsert img w)
  unfolding upsert
  upsert-Written img w ix =
      ok-bind (Written img w) _
        (Runs-refl (gets (λ w. where_rows (λ o. str_eq o.slug img.slug) w.operating_systems)) w)
        (elim (Option-cases (find_os img.slug w.operating_systems)) [
          | inl absent ↦
              ok-bind (Written img w) _ {t = w} {a = none}
                (record {
                  at = rw (where_rows-slug_absent img.slug w.operating_systems absent) refl;
                })
                (new-Written img w ix absent)
          | inr (o, found) ↦
              ok-bind (Written img w) _ {t = w} {a = some o}
                (record { at = rw (where_rows-slug img.slug w.operating_systems o ix found) refl })
                (existing-Written img o w ix found)
        ])

  -- Several images are written, no two of one slug.
  abbrev WrittenAll : List DiscoveredImage → World H → Result (Unit {0}) × World H → Type 0
  WrittenAll imgs w (err e, v) = Unit
  WrittenAll imgs w (ok _, v) =
      (catalogue_ok v.operating_systems ≡ true)
      × All
          (λ img.
            (row : OperatingSystem) × (find_os img.slug v.operating_systems ≡ some row)
            × Mirrors img row)
          imgs
      × ((s : String)
          → among s (slugs imgs) ≡ false
          → find_os s v.operating_systems ≡ find_os s w.operating_systems)

  rest-WrittenAll :
      (img : DiscoveredImage) (imgs : List DiscoveredImage) (w v : World H) (row : OperatingSystem)
      → distinct (slugs (img ∷ imgs)) ≡ true
      → Mirrors img row
      → ((s : String)
          → find_os s v.operating_systems
            ≡ (if str_eq img.slug s then some row else find_os s w.operating_systems))
      → (r : Result (Unit {0}) × World H) → WrittenAll imgs v r
      → WrittenAll (img ∷ imgs) w r
  rest-WrittenAll img imgs w v row apart mirrors finds (err e, u) h = tt
  rest-WrittenAll img imgs w v row apart mirrors finds (ok _, u) (ix, shown, others) = (
    ix,
    (
      (
        row,
        others img.slug (ground arith)
            ∙ finds img.slug
            ∙ rw ((eq_iff img.slug img.slug).1 refl) refl,
        mirrors,
      ),
      shown,
    ),
    λ s h. others s (ground arith) ∙ finds s ∙ ground arith,
  )

  step-WrittenAll :
      (img : DiscoveredImage) (imgs : List DiscoveredImage) (w : World H)
      (r : Result (Unit {0}) × World H)
      → distinct (slugs (img ∷ imgs)) ≡ true
      → upsert img w ≡ r
      → Written img w r
      → ((v : World H)
          → catalogue_ok v.operating_systems ≡ true
          → WrittenAll imgs v (for_each upsert imgs v))
      → WrittenAll (img ∷ imgs) w (for_each upsert (img ∷ imgs) w)
  step-WrittenAll img imgs w (err e, v) apart runs h next =
      err-bind (WrittenAll (img ∷ imgs) w) _ {t = v} {e = e} (record { at = runs }) tt
  step-WrittenAll img imgs w (ok _, v) apart runs (row, mirrors, ix, finds) next =
      ok-bind (WrittenAll (img ∷ imgs) w) _ {t = v} {a = tt} (record { at = runs })
        (rest-WrittenAll img imgs w v row apart mirrors finds _ (next v ix))

  all-WrittenAll :
      (imgs : List DiscoveredImage) (w : World H)
      → distinct (slugs imgs) ≡ true
      → catalogue_ok w.operating_systems ≡ true
      → WrittenAll imgs w (for_each upsert imgs w)
  all-WrittenAll [] w apart ix = (ix, tt, λ s h. refl)
  all-WrittenAll (img ∷ imgs) w apart ix =
      step-WrittenAll img imgs w _ apart refl (upsert-Written img w ix)
        (λ v. all-WrittenAll imgs v (ground arith))

module _ {H : Type 0} (env : Env H) (w : World H) where
  -- What a synchronisation leaves.
  abbrev pub Syncs : Result ℕ × World H → Type 0
  Syncs (err e, v) = v.operating_systems ≡ w.operating_systems
  Syncs (ok n, v) =
      (images : List DiscoveredImage) × (scan_all env.settings env.builtins w.files w.image_folders
        ≡ ok images)
      × (n ≡ length images)
      × (catalogue_ok v.operating_systems ≡ true)
      × All
          (λ img.
            (row : OperatingSystem) × (find_os img.slug v.operating_systems ≡ some row)
            × Mirrors img row
            × (row.status ≡ available → is_file img.base_image_path w.files ≡ true))
          images
      × ((s : String)
          → among s (slugs images) ≡ false
          → find_os s v.operating_systems ≡ find_os s w.operating_systems)

  atomic-Syncs :
      (images : List DiscoveredImage) (r : Result (Unit {0}) × World H)
      → scan_all env.settings env.builtins w.files w.image_folders ≡ ok images
      → All (Backed env.settings env.builtins w.files) images
      → WrittenAll images w r
      → for_each upsert images w ≡ r
      → Syncs ((do atomic (for_each upsert images); pure (length images)) w)
  unfolding atomic
  atomic-Syncs images (err e, v) scanned backed h runs =
      err-bind Syncs _ {e = e} (record { at = ap (restored w.operating_systems) runs }) refl
  atomic-Syncs images (ok _, v) scanned backed (ix, shown, others) runs =
      ok-bind Syncs _ {t = v} {a = tt} (record { at = ap (restored w.operating_systems) runs })
        (
          images,
          scanned,
          refl,
          ix,
          All-zip images
              (λ (img : DiscoveredImage) (row, found, mirrors) held.
                (row, found, mirrors, λ launchable. held (sym mirrors.status ∙ launchable)))
              shown backed,
          others,
        )

  -- A synchronisation either copies every image that the scan finds, so that the row of each slug
  -- holds exactly the values of its image and is available only if there was a file at its base image
  -- path, leaves the rows of all other slugs, keeps the keys of the
  -- table and returns the number of images; or it raises and leaves the whole table as it was. The
  -- names in the image directory are distinct, and the keys of the table hold before.
  pub sync_to_database-Syncs :
      distinct_folders w.image_folders ≡ true
      → catalogue_ok w.operating_systems ≡ true
      → Syncs (sync_to_database env w)
  unfolding sync_to_database
  sync_to_database-Syncs apart ix =
      let scan = scan_all env.settings env.builtins w.files w.image_folders in
      ok-bind Syncs _
        (Runs-refl (gets (λ w. scan_all env.settings env.builtins w.files w.image_folders)) w)
        (elim (Result-cases scan) [
          | inr (e, bad) ↦ err-bind Syncs _ {t = w} {e = e} (record { at = rw bad refl }) refl
          | inl (images, scanned) ↦
              let (own, backed) =
                scan_all-Scanned env.settings env.builtins w.files w.image_folders images apart
                  scanned in
              ok-bind Syncs _ {t = w} {a = images} (record { at = rw scanned refl })
                (atomic-Syncs images _ scanned backed (all-WrittenAll images w own ix) refl)
        ])
