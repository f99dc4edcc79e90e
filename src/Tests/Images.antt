-- ===== src/Tests/Images.antt =====
-- Images and sockets at sample states.
use Prim.Native.Char.{Char, code}
use knpodly.Base.{
  none, ◌≡◌, ◌≢◌, refl, true, false, some, [], ◌∷◌, arith, String, ℕ, not, ◌==◌, str_eq, where_rows,
  Bool, if◌then◌else◌,
}
use knpodly.Python.{Json, loaded, obj, str, field, end}
use knpodly.World.{World, Env}
use knpodly.Libvirt.Fake.{Domains}
use knpodly.ImageDiscovery.Sync.{catalogue_ok, os_conflicts, sync_to_database}
use knpodly.ImageDiscovery.Laws.{Syncs, sync_to_database-Syncs}
use knpodly.Api.Sockets.{ConnectionManager, broadcast}
use knpodly.Api.Sockets.Broadcast.{broadcast-living}
use knpodly.Api.Sockets.Rounds.{
  Round, start, sent, Grows, here, send, joins, nth, broadcast-growing,
}
use knpodly.Api.Images.{
  UploadFile, upload_base_image, slug_ok, isalnum, without_marks, all_alnum, has_slash,
}
use knpodly.Api.Images.Slugs.{slug_ok-confined}
use knpodly.Api.Images.Upload.{Uploads, upload_base_image-Uploads}
use knpodly.Tests.Samples.{env, leo, builtins, world}

-- one directory with metadata and no base image
abbrev images : World Domains
images = record (world []) {
  image_folders = some ("arch" ∷ "ubuntu-24.04" ∷ []);
  files = ("/srv/knpodly/VMImages/arch/metadata.json", 1 ∷ []) ∷ [];
}

abbrev arch : Json
arch = obj (field "name" (str "Arch") (field "status" (str "available") end))

-- it reads the one file
abbrev reading : Env Domains
reading = record env { builtins = record builtins { json_load = λ bytes. loaded arch } }

images-catalogue_ok : catalogue_ok images.operating_systems ≡ true
unfolding catalogue_ok os_conflicts
images-catalogue_ok = refl

sync_to_database-Syncs_example : Syncs reading images (sync_to_database reading images)
sync_to_database-Syncs_example = sync_to_database-Syncs reading images refl images-catalogue_ok

slash_plain : (c : Char) → (code c == 47) ≡ true → builtins.is_alnum c ≡ false
slash_plain c h = rw h refl

slug_ok-sample : slug_ok builtins "ubuntu-24.04" ≡ true
unfolding isalnum without_marks all_alnum
slug_ok-sample = refl

abbrev sample_slug : String
sample_slug = "ubuntu-24.04"

slug_ok-confined_example :
    (has_slash sample_slug ≡ false)
    × (sample_slug ≢ "")
    × (sample_slug ≢ ".")
    × (sample_slug ≢ "..")
slug_ok-confined_example = slug_ok-confined builtins "ubuntu-24.04" slash_plain slug_ok-sample

abbrev file : UploadFile
file = record { filename = some "u.qcow2"; chunks = (1 ∷ 2 ∷ []) ∷ (3 ∷ []) ∷ [] }

upload_base_image-Uploads_example :
    Uploads env leo "arch" file images (upload_base_image env leo "arch" file images)
upload_base_image-Uploads_example =
    upload_base_image-Uploads env leo "arch" file images (omega arith)

-- three connections, of which the second one is gone
abbrev connections : ConnectionManager
connections channel = if str_eq channel "dashboard" then 1 ∷ 2 ∷ 3 ∷ [] else []

abbrev alive : ℕ → Bool
alive ws = not (ws == 2)

broadcast-living_example :
    ((broadcast alive "dashboard" connections).0 ≡ where_rows alive (connections "dashboard"))
    × ((broadcast alive "dashboard" connections).1 "dashboard"
        ≡ where_rows alive (connections "dashboard"))
    × ((c : String)
        → str_eq "dashboard" c ≡ false
        → (broadcast alive "dashboard" connections).1 c ≡ connections c)
broadcast-living_example = broadcast-living alive "dashboard" connections

-- The second of two connections is gone, and a third one is made after the first round.
abbrev told_one : Round
told_one = sent alive 1 (start (1 ∷ 2 ∷ []))

abbrev third_joined : Round
third_joined = record told_one { sockets = 1 ∷ 2 ∷ 3 ∷ [] }

abbrev told_all : Round
told_all = sent alive 3 (sent alive 2 third_joined)

told_all-Grows : Grows alive (start (1 ∷ 2 ∷ [])) told_all
unfolding nth
told_all-Grows = send 3 (send 2 (joins 3 (send 1 here refl)) refl) refl

told_all_done : nth told_all.index told_all.sockets ≡ none
unfolding nth
told_all_done = refl

broadcast-growing_example : told_all.reached ≡ where_rows alive told_all.sockets
broadcast-growing_example =
    broadcast-growing alive (1 ∷ 2 ∷ []) told_all told_all-Grows told_all_done
