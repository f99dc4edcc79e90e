-- ===== src/Overlay/Names.antt =====
-- The texts that overlay_manager.py builds.
use Prim.Native.String.{String, ◌++◌}
use knpodly.Exec.{Error, runtime_error}
use knpodly.Text.{path_join}

-- `os.path.join(settings.vm_overlay_path, f"{session_id}.qcow2")`
pub overlay_file : String → String → String
overlay_file folder session_id = path_join folder (session_id ++ ".qcow2")

pub creation_failed : String → Error
creation_failed stderr = runtime_error ("qemu-img overlay creation failed: " ++ stderr)
