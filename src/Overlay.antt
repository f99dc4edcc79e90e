-- ===== src/Overlay.antt =====
-- backend/app/services/overlay_manager.py: the overlay files, and the VNC ports in a Redis set.
pub mod Names
pub mod Ports
pub mod Workers
use knpodly.Base.{
  ℕ, zero, suc, ◌-◌, String, Bool, true, false, Option, none, some, List, [], ◌∷◌, contains, erase,
  str_eq, if◌then◌else◌,
}
use knpodly.Exec.{Exec, runtime_error, ok, err}
use knpodly.World.{World, Env}
use knpodly.Overlay.Names.{overlay_file, creation_failed}

abbrev pub vnc_port_min : ℕ
vnc_port_min = 5900

abbrev pub vnc_port_max : ℕ
vnc_port_max = 6900

unfoldable pub remove_file : String → List String → List String
remove_file path [] = []
remove_file path (f ∷ files) =
    let rest = remove_file path files in if str_eq f path then rest else f ∷ rest

-- The body of the `for` loop, on the set as it is now: was the port claimed, and the set after.
-- `in_use` is the snapshot that was read before the loop; SADD answers 0 for a member.
unfoldable pub try_port : List ℕ → ℕ → List ℕ → Bool × List ℕ
try_port in_use port ports =
    if contains port in_use
    then (false, ports)
    else if contains port ports
    then (false, ports)
    else (true, port ∷ ports)

-- The loop over the `n` ports from `port` on.
unfoldable pub claim_from : ℕ → ℕ → List ℕ → List ℕ → Option ℕ × List ℕ
claim_from zero port in_use ports = (none, ports)
claim_from (suc n) port in_use ports =
    let (added, ports') = try_port in_use port ports in
    elim added [ true ↦ (some port, ports') | false ↦ claim_from n (suc port) in_use ports' ]

module _ {H : Type 0} where
  create : Option String → String → Exec (World H) String
  create (some stderr) path w = (err (creation_failed stderr), w)
  create none path w = (ok path, record w { overlays = path ∷ remove_file path w.overlays })

  unfoldable pub create_overlay : Env H → Option String → String → Exec (World H) String
  unfolding create
  create_overlay env base_image_path session_id w =
      let path = overlay_file env.settings.vm_overlay_path session_id in
      create (env.qemu_img_create w.overlays base_image_path path) path w

  -- A missing file is no error.
  unfoldable pub destroy_overlay : String → Exec (World H) (Unit {0})
  destroy_overlay path w = (ok tt, record w { overlays = remove_file path w.overlays })

  claimed : Option ℕ → Exec (World H) ℕ
  claimed none w = (
    err (
        runtime_error
          "No free VNC ports in range 5900-6900; increase the range or lower VM_MAX_CONCURRENT_TOTAL."),
    w,
  )
  claimed (some port) w = (ok port, w)

  unfoldable pub allocate_vnc_port : Exec (World H) ℕ
  unfolding claimed
  allocate_vnc_port w =
      let (port, ports) = claim_from (vnc_port_max - vnc_port_min) vnc_port_min w.ports w.ports in
      claimed port (record w { ports = ports })

  unfoldable pub release_vnc_port : ℕ → Exec (World H) (Unit {0})
  release_vnc_port port w = (ok tt, record w { ports = erase port w.ports })
