-- ===== src/DomainXml.antt =====
-- backend/app/services/domain_xml.py
use Prim.Native.String.{String, ◌++◌, slice}
use knpodly.Base.{ℕ, pos, ℤ}
use knpodly.Text.{int_str, uuid_hex}
use knpodly.Models.{Uuid}

-- `_random_mac`, for the UUID that it draws
unfoldable pub random_mac : Uuid → String
random_mac u =
    let suffix = uuid_hex u in
    "02:"
    ++ slice suffix 0 2
    ++ ":"
    ++ slice suffix 2 4
    ++ ":"
    ++ slice suffix 4 6
    ++ ":"
    ++ slice suffix 6 8
    ++ ":"
    ++ slice suffix 8 10

-- The keyword arguments; `mac` is the address that was given or drawn.
pub record DomainSpec : Type 0 where
  pub name : String
  pub ram_mb : ℤ
  pub vcpus : ℤ
  pub overlay_disk_path : String
  pub vnc_port : ℕ
  pub network_bridge : String
  pub vnc_listen_address : String
  pub mac : String

machine_part : DomainSpec → String
machine_part d =
    "<domain type='kvm'>\n  <name>"
    ++ d.name
    ++ "</name>\n  <memory unit='MiB'>"
    ++ int_str d.ram_mb
    ++ "</memory>\n  <currentMemory unit='MiB'>"
    ++ int_str d.ram_mb
    ++ "</currentMemory>\n  <vcpu placement='static'>"
    ++ int_str d.vcpus
    ++ "</vcpu>\n  <os>\n    <type arch='x86_64' machine='q35'>hvm</type>\n    <boot dev='hd'/>\n"
    ++ "  </os>\n  <features>\n    <acpi/><apic/>\n  </features>\n"
    ++ "  <cpu mode='host-passthrough'/>\n  <on_poweroff>destroy</on_poweroff>\n"
    ++ "  <on_reboot>restart</on_reboot>\n  <on_crash>destroy</on_crash>\n"

devices_part : DomainSpec → String
devices_part d =
    "  <devices>\n    <disk type='file' device='disk'>\n      <driver name='qemu' type='qcow2'/>\n"
    ++ "      <source file='"
    ++ d.overlay_disk_path
    ++ "'/>\n      <target dev='vda' bus='virtio'/>\n    </disk>\n    <interface type='bridge'>\n"
    ++ "      <source bridge='"
    ++ d.network_bridge
    ++ "'/>\n      <mac address='"
    ++ d.mac
    ++ "'/>\n      <model type='virtio'/>\n"
    ++ "      <!-- No host network / NAT to host services; bridge is isolated at the\n"
    ++ "           host firewall/nftables layer per docs/architecture.md -->\n    </interface>\n"
    ++ "    <graphics type='vnc' port='"
    ++ int_str (pos d.vnc_port)
    ++ "' autoport='no' listen='"
    ++ d.vnc_listen_address
    ++ "'>\n      <listen type='address' address='"
    ++ d.vnc_listen_address
    ++ "'/>\n    </graphics>\n    <video><model type='qxl'/></video>\n"
    ++ "    <!-- Intentionally no <filesystem> (virtfs), no <hostdev> USB passthrough,\n"
    ++ "         no <channel> spice clipboard/agent devices. -->\n  </devices>\n</domain>"

unfoldable pub render_domain_xml : DomainSpec → String
unfolding machine_part devices_part
render_domain_xml d = machine_part d ++ devices_part d
