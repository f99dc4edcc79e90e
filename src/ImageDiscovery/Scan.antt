-- ===== src/ImageDiscovery/Scan.antt =====
-- What a scan finds: one image for a directory, with the directory's name, and none that is
-- available without its file.
use knpodly.Base.{
  ℕ, ℤ, ◌≡◌, refl, ap, ◌∙◌, String, Bool, true, false, not, ◌&&◌, ◌||◌, any, Option, none, some,
  List, [], ◌∷◌, map, All, str_eq, eq_iff, arith, if◌then◌else◌,
}
use mathlib.Core.Path.{subst}
use knpodly.Exec.{Result, ok, err}
use knpodly.Exec.Runs.{ok_injective}
use knpodly.Text.{sorted, insert_text}
use knpodly.Models.{OsStatus, available, coming_soon, disabled, validating, is_available}
use knpodly.Config.{Settings}
use knpodly.Python.{Builtins, Fields, Loaded, loaded, json_decode_error, unicode_decode_error}
use knpodly.ImageDiscovery.Metadata.{fields_of}
use knpodly.Files.{Files, is_file}
use knpodly.ImageDiscovery.{
  DiscoveredImage, image, with_numbers, with_fields, with_metadata, with_file, add_found,
  scan_directory, scan_each, scan_all,
}

abbrev pub slugs : List DiscoveredImage → List String
slugs = map (λ img. img.slug)

abbrev pub among : String → List String → Bool
among s ts = any (λ t. str_eq t s) ts

abbrev pub distinct : List String → Bool
distinct [] = true
distinct (t ∷ ts) = not (among t ts) && distinct ts

-- The names in the directory are distinct.
abbrev pub distinct_folders : Option (List String) → Bool
distinct_folders none = true
distinct_folders (some folders) = distinct folders

among-insert_text :
    (s t : String) (ts : List String) → among s (insert_text t ts) ≡ (str_eq t s || among s ts)
unfolding insert_text
among-insert_text s t [] = refl
among-insert_text s t (u ∷ ts) = ground (arith, among-insert_text s t ts)

among-sorted : (s : String) (ts : List String) → among s (sorted ts) ≡ among s ts
unfolding sorted
among-sorted s [] = refl
among-sorted s (t ∷ ts) = among-insert_text s t (sorted ts) ∙ rw (among-sorted s ts) refl

distinct-insert_text :
    (t : String) (ts : List String)
    → distinct (insert_text t ts) ≡ (not (among t ts) && distinct ts)
unfolding insert_text
distinct-insert_text t [] = refl
distinct-insert_text t (u ∷ ts) =
    ground (arith, distinct-insert_text t ts, among-insert_text u t ts, eq_iff u t, eq_iff t u)

distinct-sorted : (ts : List String) → distinct (sorted ts) ≡ distinct ts
unfolding sorted
distinct-sorted [] = refl
distinct-sorted (t ∷ ts) =
    distinct-insert_text t (sorted ts) ∙ rw (among-sorted t ts, distinct-sorted ts) refl

both_false : (a b : Bool) → (a || b) ≡ false → (a ≡ false) × (b ≡ false)
both_false false b h = (refl, h)
both_false true b h = cc

head_fresh : (t : String) (ts : List String) → distinct (t ∷ ts) ≡ true → among t ts ≡ false
head_fresh t ts h = ground arith

module _ (settings : Settings) (builtins : Builtins) (files : Files) where
  -- An image is built from some metadata of its directory.
  abbrev Built : String → Result (Option DiscoveredImage) → Type 0
  Built slug (err e) = Unit
  Built slug (ok none) = Unit
  Built slug (ok (some img)) =
      (meta : Fields) × (ram vcpus : ℤ) × (img ≡ image settings builtins files slug meta ram vcpus)

  scan_directory-Built : (slug : String) → Built slug (scan_directory settings builtins files slug)
  unfolding scan_directory with_file with_metadata with_fields with_numbers
  scan_directory-Built slug = from_file _
    where
      numbers :
          (meta : Fields) (ram vcpus : Result ℤ)
          → Built slug (with_numbers settings builtins files slug meta ram vcpus)
      numbers meta (err e) vcpus = tt
      numbers meta (ok ram) (err e) = tt
      numbers meta (ok ram) (ok vcpus) = (meta, ram, vcpus, refl)

      from_fields :
          (r : Result (Option Fields)) → Built slug (with_fields settings builtins files slug r)
      from_fields (err e) = tt
      from_fields (ok none) = tt
      from_fields (ok (some meta)) = numbers meta _ _

      from_metadata : (r : Loaded) → Built slug (with_metadata settings builtins files slug r)
      from_metadata json_decode_error = tt
      from_metadata unicode_decode_error = tt
      from_metadata (loaded meta) = from_fields (fields_of meta)

      from_file : (r : Option (List ℕ)) → Built slug (with_file settings builtins files slug r)
      from_file none = tt
      from_file (some bytes) = from_metadata (builtins.json_load bytes)

  -- "Declared available but no actual image present -> don't let it be launchable"
  abbrev pub Backed : DiscoveredImage → Type 0
  Backed img = img.status ≡ available → is_file img.base_image_path files ≡ true

  held :
      (here : Bool) (declared : OsStatus)
      → (if not here && is_available declared then validating else declared) ≡ available
      → here ≡ true
  held true declared h = refl
  held false available h = cc
  held false coming_soon h = cc
  held false disabled h = cc
  held false validating h = cc

  image-Backed :
      (slug : String) (meta : Fields) (ram vcpus : ℤ)
      → Backed (image settings builtins files slug meta ram vcpus)
  image-Backed slug meta ram vcpus h = held _ _ h

  -- The images of a scan: each stands for one of the directories, and is backed by its file.
  abbrev Scanned : List String → Result (List DiscoveredImage) → Type 0
  Scanned folders (err e) = Unit
  Scanned folders (ok images) =
      (distinct (slugs images) ≡ true)
      × All Backed images
      × ((s : String) → among s folders ≡ false → among s (slugs images) ≡ false)

  add-Scanned :
      (slug : String) (folders : List String) (one : Result (Option DiscoveredImage))
      (rest : Result (List DiscoveredImage))
      → distinct (slug ∷ folders) ≡ true
      → Built slug one
      → Scanned folders rest
      → Scanned (slug ∷ folders) (add_found settings builtins files one rest)
  unfolding add_found
  add-Scanned slug folders (err e) rest apart built h = tt
  add-Scanned slug folders (ok none) (err e) apart built h = tt
  add-Scanned slug folders (ok none) (ok images) apart built (own, backed, inside) =
      (own, backed, λ s h. inside s (both_false (str_eq slug s) _ h).1)
  add-Scanned slug folders (ok (some img)) (err e) apart built h = tt
  add-Scanned slug folders (ok (some img)) (ok images) apart (meta, ram, vcpus, e)
        (own, backed, inside) =
      let named : img.slug ≡ slug = ap (λ (i : DiscoveredImage). i.slug) e in
      (
        rw (named, inside slug (head_fresh slug folders apart)) own,
        (rw e (image-Backed slug meta ram vcpus), backed),
        λ s h.
            rw (named, (both_false (str_eq slug s) _ h).0)
              (inside s (both_false (str_eq slug s) _ h).1),
      )

  scan_each-Scanned :
      (folders : List String)
      → distinct folders ≡ true
      → Scanned folders (scan_each settings builtins files folders)
  unfolding scan_each
  scan_each-Scanned [] apart = (refl, tt, λ s h. refl)
  scan_each-Scanned (slug ∷ folders) apart =
      add-Scanned slug folders _ _ apart (scan_directory-Built slug)
        (scan_each-Scanned folders (ground arith))

  pub scan_all-Scanned :
      (folders : Option (List String)) (images : List DiscoveredImage)
      → distinct_folders folders ≡ true
      → scan_all settings builtins files folders ≡ ok images
      → (distinct (slugs images) ≡ true) × All Backed images
  unfolding scan_all
  scan_all-Scanned none images apart h =
      subst (λ (i : List DiscoveredImage). (distinct (slugs i) ≡ true) × All Backed i)
        (ok_injective h) (refl, tt)
  scan_all-Scanned (some folders) images apart h =
      let (own, backed, inside) =
        subst (Scanned (sorted folders)) h
          (scan_each-Scanned (sorted folders) (distinct-sorted folders ∙ apart)) in
      (own, backed)
