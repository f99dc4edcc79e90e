-- ===== src/Config.antt =====
-- backend/app/core/config.py: the settings that the modelled code reads, with their defaults.
use knpodly.Base.{ℤ, pos, String}

pub record Settings : Type 0 where
  pub access_token_expire_minutes : ℤ
  pub refresh_token_expire_days : ℤ
  pub libvirt_driver : String
  pub libvirt_uri : String
  pub vm_images_path : String
  pub vm_icons_path : String
  pub vm_overlay_path : String
  pub vm_network_bridge : String
  pub vm_vnc_host : String
  pub vm_default_ram_mb : ℤ
  pub vm_default_vcpus : ℤ
  pub vm_max_concurrent_total : ℤ
  pub session_max_duration_minutes : ℤ
  pub session_expiry_warning_minutes : ℤ
  pub session_max_extension_minutes : ℤ
  pub session_max_extensions : ℤ
  pub idle_warning_minutes : ℤ
  pub idle_timeout_minutes : ℤ
  pub novnc_public_base_url : String
  pub lab_internet_access_default : String
  pub max_upload_bytes : ℤ

abbrev pub default_settings : Settings
default_settings = record {
  access_token_expire_minutes = pos 30;
  refresh_token_expire_days = pos 7;
  libvirt_driver = "fake";
  libvirt_uri = "qemu:///system";
  vm_images_path = "/srv/knpodly/VMImages";
  vm_icons_path = "/srv/knpodly/VMIcons";
  vm_overlay_path = "/srv/knpodly/overlays";
  vm_network_bridge = "knpodly-labnet";
  vm_vnc_host = "172.17.0.1";
  vm_default_ram_mb = pos 2048;
  vm_default_vcpus = pos 2;
  vm_max_concurrent_total = pos 200;
  session_max_duration_minutes = pos 120;
  session_expiry_warning_minutes = pos 15;
  session_max_extension_minutes = pos 60;
  session_max_extensions = pos 1;
  idle_warning_minutes = pos 15;
  idle_timeout_minutes = pos 20;
  novnc_public_base_url = "ws://localhost:8000/console";
  lab_internet_access_default = "restricted";
  max_upload_bytes = pos 42949672960;
}
