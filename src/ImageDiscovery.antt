-- ===== src/ImageDiscovery.antt =====
-- backend/app/services/image_discovery.py: the scan of the image directory, and its copy into the
-- table operating_systems.
pub mod Metadata
pub mod Sync
pub mod Rows
pub mod Scan
pub mod Mirrors
pub mod Laws
use knpodly.Base.{
  ℕ, suc, ℤ, String, Bool, true, false, ◌&&◌, not, Option, none, some, List, [], ◌∷◌, str_eq,
  if◌then◌else◌,
}
use knpodly.Exec.{Result, ok, err, value_error}
use knpodly.Text.{path_join, sorted}
use knpodly.Models.{OsStatus, available, is_available, validating}
use knpodly.Config.{Settings}
use knpodly.Files.{Files, file_at, is_file}
use knpodly.Python.{
  Json, null, int, str, Fields, Loaded, loaded, json_decode_error, unicode_decode_error, Builtins,
}
use knpodly.ImageDiscovery.Metadata.{get, fields_of, status_of, to_text, parse_ram_to_mb, to_int}
use Prim.Native.String.{◌++◌}

-- The texts that metadata.json gives may be any values: nothing checks them before the database.
pub record DiscoveredImage : Type 0 where
  pub slug : String
  pub name : Json
  pub family : Json
  pub package_manager : Json
  pub ram_mb : ℤ
  pub vcpus : ℤ
  pub architecture : Json
  pub description : Json
  pub status : OsStatus
  pub base_image_path : String
  pub icon_path : Option String
  pub checksum_sha256 : Option String

abbrev icon_extensions : List String
icon_extensions = ".webp" ∷ ".svg" ∷ ".png" ∷ ".jpg" ∷ ".jpeg" ∷ []

-- The first of the extensions for which the file is there.
abbrev first_icon : String → List String → Files → Option String
first_icon stem [] files = none
first_icon stem (ext ∷ exts) files =
    let rest = first_icon stem exts files in
    if is_file (stem ++ ext) files then some (stem ++ ext) else rest

module _ (settings : Settings) (builtins : Builtins) (files : Files) where
  -- `os.path.join(d, name + ext)` is `os.path.join(d, name) + ext` for a name that is not empty.
  unfoldable pub find_icon : String → String → Option String
  find_icon slug images_dir =
      elim (first_icon (path_join images_dir "splash") icon_extensions files) [
        | some icon ↦ some icon
        | none ↦ first_icon (path_join settings.vm_icons_path slug) icon_extensions files
      ]

  -- `_checksum(path)`: the chunks that it reads are the file
  unfoldable pub checksum : String → Option String
  checksum path = elim (file_at path files) [
    | none ↦ none
    | some bytes ↦ some (builtins.sha256_hex bytes)
  ]

  abbrev pub images_dir : String → String
  images_dir slug = path_join settings.vm_images_path slug

  abbrev pub base_image_path : String → String
  base_image_path slug = path_join (images_dir slug) "base.qcow2"

  -- "Declared available but no actual image present"
  abbrev pub shown_status : String → Fields → OsStatus
  shown_status slug meta =
      let declared =
        status_of (builtins.lower (to_text builtins (get "status" (str "validating") meta))) in
      if not (is_file (base_image_path slug) files) && is_available declared
      then validating
      else declared

  -- The dataclass, once its two numbers are read.
  abbrev pub image : String → Fields → ℤ → ℤ → DiscoveredImage
  image slug meta ram_mb vcpus = record {
    slug = slug;
    name = get "name" null meta;
    family = get "family" (str "Unknown") meta;
    package_manager = get "packageManager" null meta;
    ram_mb = ram_mb;
    vcpus = vcpus;
    architecture = get "architecture" (str "x86_64") meta;
    description = get "description" null meta;
    status = shown_status slug meta;
    base_image_path = base_image_path slug;
    icon_path = find_icon slug (images_dir slug);
    checksum_sha256 = checksum (base_image_path slug);
  }

  -- The two numbers are read in this order.
  with_numbers : String → Fields → Result ℤ → Result ℤ → Result (Option DiscoveredImage)
  with_numbers slug meta (err e) vcpus = err e
  with_numbers slug meta (ok ram_mb) (err e) = err e
  with_numbers slug meta (ok ram_mb) (ok vcpus) = ok (some (image slug meta ram_mb vcpus))

  with_fields : String → Result (Option Fields) → Result (Option DiscoveredImage)
  unfolding with_numbers
  with_fields slug (err e) = err e
  with_fields slug (ok none) = ok none
  with_fields slug (ok (some meta)) =
      with_numbers slug meta
        (parse_ram_to_mb builtins settings.vm_default_ram_mb (get "ram" null meta))
        (to_int builtins (get "vcpus" (int settings.vm_default_vcpus) meta))

  -- `meta` after `json.load`
  with_metadata : String → Loaded → Result (Option DiscoveredImage)
  unfolding with_fields
  with_metadata slug json_decode_error = ok none
  with_metadata slug unicode_decode_error = err (value_error "")
  with_metadata slug (loaded meta) = with_fields slug (fields_of meta)

  with_file : String → Option (List ℕ) → Result (Option DiscoveredImage)
  unfolding with_metadata
  with_file slug none = ok none
  with_file slug (some bytes) = with_metadata slug (builtins.json_load bytes)

  unfoldable pub scan_directory : String → Result (Option DiscoveredImage)
  unfolding with_file with_metadata with_fields with_numbers
  scan_directory slug = with_file slug (file_at (path_join (images_dir slug) "metadata.json") files)

  add_found :
      Result (Option DiscoveredImage)
      → Result (List DiscoveredImage)
      → Result (List DiscoveredImage)
  add_found (err e) rest = err e
  add_found (ok none) rest = rest
  add_found (ok (some found)) (err e) = err e
  add_found (ok (some found)) (ok images) = ok (found ∷ images)

  -- The loop of `scan_all`: an exception of one directory ends the scan.
  unfoldable pub scan_each : List String → Result (List DiscoveredImage)
  unfolding add_found
  scan_each [] = ok []
  scan_each (slug ∷ slugs) = add_found (scan_directory slug) (scan_each slugs)

  -- `scan_all()`, for the sub-directories of the image directory, if it is there
  unfoldable pub scan_all : Option (List String) → Result (List DiscoveredImage)
  scan_all none = ok []
  scan_all (some folders) = scan_each (sorted folders)
