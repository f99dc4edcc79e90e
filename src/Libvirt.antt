-- ===== src/Libvirt.antt =====
-- backend/app/services/libvirt_client.py: the abstract driver as an interface over the state `H`
-- of the hypervisor, and its two drivers in the modules below.
pub mod Fake
pub mod Qemu
use knpodly.Base.{ℕ, String, Option}
use knpodly.Exec.{Exec}

-- running | shutoff | paused | crashed, and the `unknown` of QemuLibvirtClient
pub data DomainState : Type 0 where
  running shutoff paused crashed unknown : DomainState

pub record DomainInfo : Type 0 where
  pub name : String
  pub state : DomainState
  pub vnc_port : Option ℕ

pub record HostStats : Type 0 where
  pub cpu_count : ℕ
  pub memory_total_mb : ℕ
  pub free_memory_mb : ℕ

pub record BaseLibvirtClient (H : Type 0) : Type 0 where
  pub define_and_start : String → String → Exec H DomainInfo
  pub graceful_shutdown : String → Exec H (Unit {0})
  pub force_destroy : String → Exec H (Unit {0})
  pub get_domain_info : String → Exec H (Option DomainInfo)
  pub undefine : String → Exec H (Unit {0})
  pub host_stats : Exec H HostStats
