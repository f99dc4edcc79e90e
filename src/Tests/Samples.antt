-- ===== src/Tests/Samples.antt =====
-- A small installation with the fake driver: one image, one policy row, and two users.
use Prim.Native.Char.{code}
use knpodly.Python.{Builtins, json_decode_error}
use knpodly.Security.{Crypto}
use knpodly.Text.{uuid_str}
use knpodly.Tests.Tokens.{toy_crypto}
use knpodly.Base.{
  String, not, ◌==◌, str_eq, if◌then◌else◌, ◌+◌, ◌*◌, pos, true, false, none, some, List, [], ◌∷◌,
}
use knpodly.Models.{
  User, lecturer, student, active, VmSession, queued, running, OperatingSystem, available,
  VmLimitPolicy,
}
use knpodly.Config.{default_settings}
use knpodly.Libvirt.Fake.{Domains, fake_client}
use knpodly.World.{World, Env}

abbrev same : String → String
same s = s

-- It reads the ids of the sample users, and no JSON.
abbrev pub builtins : Builtins
builtins = record {
  lower = same;
  upper = same;
  strip = same;
  is_alnum = λ c. not (code c == 47);
  int_of_float = λ s k. none;
  int_of_str = λ s. none;
  str_of = λ j. "";
  json_load = λ bytes. json_decode_error;
  sha256_hex = λ bytes. "00";
  parse_uuid =
      λ s. if str_eq s (uuid_str 1) then some 1 else if str_eq s (uuid_str 2) then some 2 else none;
}

abbrev pub crypto : Crypto
crypto = toy_crypto

abbrev pub env : Env Domains
env = record {
  settings = default_settings;
  libvirt = fake_client;
  builtins = builtins;
  crypto = crypto;
  qemu_img_create = λ files base overlay. none;
}

abbrev pub ada : User
ada = record {
  id = 1;
  username = "ada";
  email = none;
  full_name = "Ada";
  password_hash = "x";
  role = student;
  status = active;
  created_by = none;
  created_at = pos 0;
  last_login_at = none;
}

abbrev pub leo : User
leo = record ada { id = 2; username = "leo"; role = lecturer }

abbrev pub ubuntu : OperatingSystem
ubuntu = record {
  id = 7;
  slug = "ubuntu-24.04";
  name = "Ubuntu 24.04";
  family = "Debian";
  package_manager = some "apt";
  architecture = "x86_64";
  description = none;
  icon_path = none;
  default_ram_mb = pos 2048;
  default_vcpus = pos 2;
  base_image_path = some "/srv/knpodly/VMImages/ubuntu-24.04/base.qcow2";
  status = available;
  checksum_sha256 = none;
}

abbrev pub policy : VmLimitPolicy
policy = record {
  id = some 1;
  name = "default";
  max_session_minutes = pos 120;
  max_extension_minutes = pos 60;
  max_extensions = pos 1;
  idle_warning_minutes = pos 15;
  idle_timeout_minutes = pos 20;
  max_concurrent_vms_total = pos 200;
  is_active = some true;
  updated_by = none;
  updated_at = some (pos 5);
}

-- Two rows are active; the second one is newer.
abbrev pub policies : List VmLimitPolicy
policies =
    policy
    ∷ record policy { id = some 2; max_session_minutes = pos 90; updated_at = some (pos 9) }
    ∷ record policy { id = some 3; is_active = some false; updated_at = some (pos 11) }
    ∷ []

-- Its fields are those of a session in the queue; the fields of a running one are set by hand.
abbrev pub waiting : VmSession
waiting = record {
  id = 40;
  user_id = 1;
  operating_system_id = 7;
  libvirt_domain_name = none;
  overlay_disk_path = none;
  state = queued;
  vnc_port = none;
  websocket_token = none;
  ram_mb = pos 2048;
  vcpus = pos 2;
  network_policy = "restricted";
  started_at = none;
  expires_at = none;
  extension_count = pos 0;
  max_extensions = pos 1;
  last_activity_at = none;
  idle_warning_sent_at = none;
  stopped_at = none;
  stop_reason = none;
  created_at = pos 0;
}

abbrev pub live : VmSession
live = record waiting {
  id = 41;
  libvirt_domain_name = some "knpodly-41";
  overlay_disk_path = some "/srv/knpodly/overlays/41.qcow2";
  state = running;
  vnc_port = some 5900;
  websocket_token = some "abc";
  started_at = some (pos 0);
  expires_at = some (pos 7200000000);
  last_activity_at = some (pos 0);
}

-- The clock ticks in seconds.
abbrev pub world : List VmSession → World Domains
world sessions = record {
  users = ada ∷ leo ∷ [];
  sessions = sessions;
  operating_systems = ubuntu ∷ [];
  policies = policies;
  windows = [];
  audit_logs = [];
  image_folders = some [];
  files = [];
  login_attempts = λ k. none;
  ports = 5900 ∷ 5902 ∷ [];
  events = [];
  jobs = [];
  overlays = "/srv/knpodly/overlays/41.qcow2" ∷ [];
  host = [];
  clock = λ n. pos (n * 1000000);
  clock_reads = 60;
  uuids = λ n. n + 100;
  uuid_draws = 0;
}
