-- ===== src/Tests/Ports.antt =====
-- The ports at sample states.
use knpodly.Base.{[]}
use knpodly.Overlay.{allocate_vnc_port}
use knpodly.Overlay.Ports.{Allocates, allocate_vnc_port-Allocates}
use knpodly.Tests.Samples.{world}

allocate_vnc_port-Allocates_example : Allocates (world []) (allocate_vnc_port (world []))
allocate_vnc_port-Allocates_example = allocate_vnc_port-Allocates (world [])
