-- ===== src/ImageDiscovery/Mirrors.antt =====
-- What a row that is written for an image says.
use knpodly.Base.{◌≡◌, refl, ap, ◌∙◌, String, Bool, true, false, Option, none, some, ◌⊎◌, inl, inr}
use knpodly.Exec.{Result, ok, err}
use knpodly.Exec.Runs.{ok_injective}
use knpodly.Models.{Uuid, OperatingSystem}
use knpodly.ImageDiscovery.Metadata.{text_column}
use knpodly.ImageDiscovery.{DiscoveredImage}
use knpodly.ImageDiscovery.Sync.{Texts, then_result, texts_of, required, architecture_of, row_of}

-- The row of an image holds its values, each text as it stands in the metadata, a null where the
-- column takes one, and the column's default for a null architecture.
pub record Mirrors (img : DiscoveredImage) (row : OperatingSystem) : Type 0 where
  pub slug : row.slug ≡ img.slug
  pub name : text_column img.name ≡ ok (some row.name)
  pub family : text_column img.family ≡ ok (some row.family)
  pub package_manager : text_column img.package_manager ≡ ok row.package_manager
  pub architecture :
      (text_column img.architecture ≡ ok (some row.architecture))
      ⊎ ((text_column img.architecture ≡ ok none) × (row.architecture ≡ "x86_64"))
  pub description : text_column img.description ≡ ok row.description
  pub ram_mb : row.default_ram_mb ≡ img.ram_mb
  pub vcpus : row.default_vcpus ≡ img.vcpus
  pub base_image_path : row.base_image_path ≡ some img.base_image_path
  pub icon_path : row.icon_path ≡ img.icon_path
  pub status : row.status ≡ img.status
  pub checksum_sha256 : row.checksum_sha256 ≡ img.checksum_sha256

then_result-ok :
    {A B : Type 0} (r : Result A) (f : A → Result B) (b : B)
    → then_result r f ≡ ok b
    → (a : A) × (r ≡ ok a) × (f a ≡ ok b)
then_result-ok (ok a) f b h = (a, refl, h)
then_result-ok (err e) f b h = cc

required-some : (o : Option String) (s : String) → required o ≡ ok s → o ≡ some s
required-some none s h = cc
required-some (some t) s h = cc

architecture-some :
    (is_new : Bool) (o : Option String) (s : String)
    → architecture_of is_new o ≡ ok s
    → (o ≡ some s) ⊎ ((o ≡ none) × (s ≡ "x86_64"))
architecture-some is_new (some t) s h = inl (cc)
architecture-some true none s h = inr (refl, cc)
architecture-some false none s h = cc

record Read (img : DiscoveredImage) (texts : Texts) : Type 0 where
  name : text_column img.name ≡ ok texts.name
  family : text_column img.family ≡ ok texts.family
  package_manager : text_column img.package_manager ≡ ok texts.package_manager
  architecture : text_column img.architecture ≡ ok texts.architecture
  description : text_column img.description ≡ ok texts.description

texts_of-Read : (img : DiscoveredImage) (texts : Texts) → texts_of img ≡ ok texts → Read img texts
texts_of-Read img texts h =
    let (name, at_name, h1) = then_result-ok (text_column img.name) _ texts h in
    let (family, at_family, h2) = then_result-ok (text_column img.family) _ texts h1 in
    let (manager, at_manager, h3) = then_result-ok (text_column img.package_manager) _ texts h2 in
    let (arch, at_arch, h4) = then_result-ok (text_column img.architecture) _ texts h3 in
    let (description, at_description, h5) =
      then_result-ok (text_column img.description) _ texts h4 in
    rw⁻¹ (ok_injective h5) (record {
      name = at_name;
      family = at_family;
      package_manager = at_manager;
      architecture = at_arch;
      description = at_description;
    })

pub row_of-Mirrors :
    (is_new : Bool) (id : Uuid) (img : DiscoveredImage) (row : OperatingSystem)
    → row_of is_new id img ≡ ok row
    → Mirrors img row × (row.id ≡ id)
unfolding row_of
row_of-Mirrors is_new id img row h =
    let (texts, at_texts, h1) = then_result-ok (texts_of img) _ row h in
    let (name, at_name, h2) = then_result-ok (required texts.name) _ row h1 in
    let (family, at_family, h3) = then_result-ok (required texts.family) _ row h2 in
    let (arch, at_arch, h4) = then_result-ok (architecture_of is_new texts.architecture) _ row h3 in
    let read = texts_of-Read img texts at_texts in
    rw⁻¹ (ok_injective h4) (
      record {
        slug = refl;
        name = read.name ∙ ap ok (required-some texts.name name at_name);
        family = read.family ∙ ap ok (required-some texts.family family at_family);
        package_manager = read.package_manager;
        architecture = elim (architecture-some is_new texts.architecture arch at_arch) [
          | inl e ↦ inl (read.architecture ∙ ap ok e)
          | inr (e, default) ↦ inr (read.architecture ∙ ap ok e, default)
        ];
        description = read.description;
        ram_mb = refl;
        vcpus = refl;
        base_image_path = refl;
        icon_path = refl;
        status = refl;
        checksum_sha256 = refl;
      },
      refl,
    )
