-- ===== src/Api/Images.antt =====
-- backend/app/api/v1/routers/images.py, without the list of the catalogue, which only reads. A file
-- that arrives is the list of the chunks that its reads return.
pub mod Slugs
pub mod Upload
use Prim.Native.Char.{Char, code}
use Prim.Native.String.{◌++◌ as str_append}
use knpodly.Base.{
  ℕ, ◌+◌, ℤ, pos, ltb_ℤ, ltb, String, Bool, true, false, not, ◌&&◌, ◌||◌, any, Option, none, some,
  List, [], ◌∷◌, ◌++◌, length, str_eq, ◌==◌, if◌then◌else◌,
}
use knpodly.Exec.{Exec, http_exception, pure, raise, gets, modify, raise_if, ◌>>=◌, ◌>>◌}
use knpodly.Text.{path_join, given, strip_suffix}
use knpodly.Models.{User, AuditLog, JsonValue, number}
use knpodly.Python.{Builtins}
use knpodly.Files.{Files, put, append, remove, replace}
use knpodly.World.{World, Env, record_audit}
use knpodly.ImageDiscovery.{images_dir, base_image_path}
use knpodly.ImageDiscovery.Sync.{sync_to_database}
use knpodly.Api.{require_lecturer}

pub record UploadFile : Type 0 where
  pub filename : Option String
  -- what `file.read(8 * 1024 * 1024)` returns, call by call
  pub chunks : List (List ℕ)

abbrev pub image_audit : User → String → String → Option (List (String × JsonValue)) → AuditLog
image_audit user action slug meta = record {
  actor_id = some user.id;
  actor_role = some user.role;
  action = action;
  target_type = some "operating_system";
  target_id = some slug;
  meta = meta;
  ip_address = none;
}

-- `slug.replace("-", "").replace(".", "")`
unfoldable pub without_marks : String → String
without_marks String.[] = ""
without_marks (String.◌∷◌ c s) =
    let rest = without_marks s in if code c == 45 || code c == 46 then rest else String.◌∷◌ c rest

-- every character of a text
unfoldable pub all_alnum : (Char → Bool) → String → Bool
all_alnum is_alnum String.[] = true
all_alnum is_alnum (String.◌∷◌ c s) = is_alnum c && all_alnum is_alnum s

-- `s.isalnum()`: every character is, and there is one
unfoldable pub isalnum : (Char → Bool) → String → Bool
isalnum is_alnum s = not (str_eq s "") && all_alnum is_alnum s

abbrev pub slug_ok : Builtins → String → Bool
slug_ok builtins slug = isalnum builtins.is_alnum (without_marks slug)

abbrev is_some : {A : Type 0} → Option A → Bool
is_some none = false
is_some (some a) = true

-- `file.filename and file.filename.endswith(".qcow2")`
abbrev pub is_qcow2 : Option String → Bool
is_qcow2 filename = elim (given filename) [
  | none ↦ false
  | some name ↦ is_some (strip_suffix ".qcow2" name)
]

unfoldable pub has_slash : String → Bool
has_slash String.[] = false
has_slash (String.◌∷◌ c s) = code c == 47 || has_slash s

-- the part after the last slash
after_slash : String → String
after_slash String.[] = ""
after_slash (String.◌∷◌ c s) =
    let rest = after_slash s in if has_slash s || code c == 47 then rest else String.◌∷◌ c rest

drop_dots : String → String
drop_dots String.[] = ""
drop_dots (String.◌∷◌ c s) = let rest = drop_dots s in if code c == 46 then rest else String.◌∷◌ c s

from_last_dot : String → Option String
from_last_dot String.[] = none
from_last_dot (String.◌∷◌ c s) = elim (from_last_dot s) [
  | some ext ↦ some ext
  | none ↦ if code c == 46 then some (String.◌∷◌ c s) else none
]

-- `os.path.splitext(name)[1]`: leading dots of the last part begin no extension
unfoldable pub extension : String → String
unfolding after_slash drop_dots from_last_dot
extension name = elim (from_last_dot (drop_dots (after_slash name))) [ none ↦ "" | some ext ↦ ext ]

abbrev or_empty : Option String → String
or_empty none = ""
or_empty (some s) = s

abbrev pub is_icon_extension : String → Bool
is_icon_extension ext = any (λ e. str_eq e ext) (".webp" ∷ ".svg" ∷ ".png" ∷ ".jpg" ∷ ".jpeg" ∷ [])

-- `os.makedirs(path, exist_ok=True)` of a sub-directory of the image directory
abbrev pub make_folder : String → Option (List String) → Option (List String)
make_folder slug none = some (slug ∷ [])
make_folder slug (some folders) =
    if any (λ f. str_eq f slug) folders then some folders else some (slug ∷ folders)

abbrev pub is_empty_chunk : List ℕ → Bool
is_empty_chunk [] = true
is_empty_chunk (b ∷ bytes) = false

-- All that the chunks hold: `await file.read()`.
unfoldable pub content : List (List ℕ) → List ℕ
content [] = []
content (chunk ∷ chunks) = chunk ++ content chunks

abbrev pub on_files : {H : Type 0} → (Files → Files) → Exec (World H) (Unit {0})
on_files f = modify (λ w. record w { files = f w.files })

module _ {H : Type 0} (env : Env H) where
  -- The body of the loop, after the size was added up.
  write_chunk : String → ℕ → List ℕ → Exec (World H) (Unit {0})
  write_chunk tmp_path size chunk =
      if ltb_ℤ env.settings.max_upload_bytes (pos size)
      then (do
        on_files (remove tmp_path)
        raise (http_exception 413 "Image exceeds maximum upload size"))
      else on_files (append tmp_path chunk)

  -- `while chunk := await file.read(...)`, from a size on; it returns the last size
  unfoldable pub receive : String → ℕ → List (List ℕ) → Exec (World H) ℕ
  unfolding write_chunk
  receive tmp_path size [] = pure size
  receive tmp_path size (chunk ∷ chunks) =
      let rest = receive tmp_path (size + length chunk) chunks in
      if is_empty_chunk chunk
      then pure size
      else write_chunk tmp_path (size + length chunk) chunk >> rest

  pub upload_base_image : User → String → UploadFile → Exec (World H) ℕ
  upload_base_image user slug file = do
    require_lecturer user
    raise_if (not (slug_ok env.builtins slug))
        (http_exception 400 "Slug must be alphanumeric (dashes/dots allowed)")
    raise_if (not (is_qcow2 file.filename)) (http_exception 400 "Expected a .qcow2 file")
    modify (λ w. record w { image_folders = make_folder slug w.image_folders })
    let dest_path = path_join (path_join env.settings.vm_images_path slug) "base.qcow2"
    let tmp_path = str_append dest_path ".uploading"
    on_files (put tmp_path [])
    size ← receive tmp_path 0 file.chunks
    on_files (replace tmp_path dest_path)
    record_audit (image_audit user "image.uploaded" slug (some (("bytes", number (pos size)) ∷ [])))
    pure size

  pub upload_icon : User → String → UploadFile → Exec (World H) (Unit {0})
  upload_icon user slug file = do
    require_lecturer user
    let ext = env.builtins.lower (extension (or_empty file.filename))
    raise_if (not (is_icon_extension ext))
        (http_exception 400 "Icon must be webp, svg, png, jpg, or jpeg")
    let dest_path = path_join env.settings.vm_icons_path (str_append slug ext)
    raise_if (ltb 5242880 (length (content file.chunks)))
        (http_exception 413 "Icon exceeds 5MB limit")
    on_files (put dest_path (content file.chunks))
    record_audit (image_audit user "icon.uploaded" slug none)

  pub rescan_catalogue : User → Exec (World H) ℕ
  rescan_catalogue user = do require_lecturer user; sync_to_database env
