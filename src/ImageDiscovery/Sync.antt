-- ===== src/ImageDiscovery/Sync.antt =====
-- `sync_to_database`. All of it is one transaction: the rows are written as they are met, and an
-- exception takes them back.
use knpodly.Base.{
  ℕ, String, Bool, true, false, not, ◌&&◌, ◌||◌, any, Option, none, some, List, [], ◌∷◌, ◌++◌,
  length, where_rows, str_eq, ◌==◌, if◌then◌else◌,
}
use knpodly.Exec.{
  Exec, Result, ok, err, integrity_error, pure, gets, modify, raise_if, for_each, ◌>>=◌, ◌>>◌,
}
use knpodly.Models.{Uuid, OperatingSystem}
use knpodly.World.{World, Env, draw_uuid, scalar_one_or_none}
use knpodly.ImageDiscovery.Metadata.{text_column}
use knpodly.ImageDiscovery.{DiscoveredImage, scan_all}

-- Two rows that the primary key or the unique slug does not allow together.
unfoldable pub os_conflicts : OperatingSystem → OperatingSystem → Bool
os_conflicts a b = a.id == b.id || str_eq a.slug b.slug

unfoldable pub catalogue_ok : List OperatingSystem → Bool
catalogue_ok [] = true
catalogue_ok (o ∷ rows) = not (any (os_conflicts o) rows) && catalogue_ok rows

unfoldable pub find_os : String → List OperatingSystem → Option OperatingSystem
find_os slug [] = none
find_os slug (o ∷ rows) =
    let rest = find_os slug rows in if str_eq o.slug slug then some o else rest

-- `UPDATE operating_systems SET ... WHERE id = ...`, with all columns of `row`
unfoldable pub update_os : OperatingSystem → List OperatingSystem → List OperatingSystem
update_os row [] = []
update_os row (o ∷ rows) = (if o.id == row.id then row else o) ∷ update_os row rows

-- The text columns of an image, as far as the driver takes them.
pub record Texts : Type 0 where
  pub name : Option String
  pub family : Option String
  pub package_manager : Option String
  pub architecture : Option String
  pub description : Option String

abbrev pub then_result : {A B : Type 0} → Result A → (A → Result B) → Result B
then_result (ok a) f = f a
then_result (err e) f = err e

abbrev pub texts_of : DiscoveredImage → Result Texts
texts_of img = then_result (text_column img.name) (λ name.
    then_result (text_column img.family) (λ family.
      then_result (text_column img.package_manager) (λ package_manager.
        then_result (text_column img.architecture) (λ architecture.
          then_result (text_column img.description) (λ description. ok (record {
            name = name;
            family = family;
            package_manager = package_manager;
            architecture = architecture;
            description = description;
          }))))))

-- A column that is NOT NULL.
abbrev pub required : Option String → Result String
required none = err integrity_error
required (some s) = ok s

-- A new row whose architecture is None gets the column's default; an UPDATE writes the NULL.
abbrev pub architecture_of : Bool → Option String → Result String
architecture_of is_new (some s) = ok s
architecture_of true none = ok "x86_64"
architecture_of false none = err integrity_error

-- The row of an image: all columns but the id come from the image.
unfoldable pub row_of : Bool → Uuid → DiscoveredImage → Result OperatingSystem
row_of is_new id img = then_result (texts_of img) (λ (texts : Texts).
    then_result (required texts.name) (λ name. then_result (required texts.family) (λ family.
      then_result (architecture_of is_new texts.architecture) (λ architecture. ok (record {
        id = id;
        slug = img.slug;
        name = name;
        family = family;
        package_manager = texts.package_manager;
        architecture = architecture;
        description = texts.description;
        icon_path = img.icon_path;
        default_ram_mb = img.ram_mb;
        default_vcpus = img.vcpus;
        base_image_path = some img.base_image_path;
        status = img.status;
        checksum_sha256 = img.checksum_sha256;
      })))))

module _ {H : Type 0} where
  -- a value that was computed, or its exception
  abbrev pub returned : {A : Type 0} → Result A → Exec (World H) A
  returned r w = (r, w)

  unfoldable pub store_image : DiscoveredImage → Option OperatingSystem → Exec (World H) (Unit {0})
  store_image img (some existing) = do
    row ← returned (row_of false existing.id img)
    modify (λ w. record w { operating_systems = update_os row w.operating_systems })
  store_image img none = do
    id ← draw_uuid
    row ← returned (row_of true id img)
    rows ← gets (λ w. w.operating_systems)
    raise_if (any (os_conflicts row) rows) integrity_error
    modify (λ w. record w { operating_systems = w.operating_systems ++ row ∷ [] })

  unfoldable pub upsert : DiscoveredImage → Exec (World H) (Unit {0})
  unfolding store_image
  upsert img = do
    rows ← gets (λ w. where_rows (λ o. str_eq o.slug img.slug) w.operating_systems)
    existing ← scalar_one_or_none rows
    store_image img existing

  -- The rollback.
  abbrev pub restored :
      {A : Type 0} → List OperatingSystem → Result A × World H → Result A × World H
  restored rows (ok a, w) = (ok a, w)
  restored rows (err e, w) = (err e, record w { operating_systems = rows })

  unfoldable pub atomic : {A : Type 0} → Exec (World H) A → Exec (World H) A
  atomic m w = restored w.operating_systems (m w)

  unfoldable pub sync_to_database : Env H → Exec (World H) ℕ
  unfolding upsert atomic
  sync_to_database env = do
    scanned ← gets (λ w. scan_all env.settings env.builtins w.files w.image_folders)
    discovered ← returned scanned
    atomic (for_each upsert discovered)
    pure (length discovered)
