-- ===== src/Libvirt/Qemu.antt =====
-- `QemuLibvirtClient` over the calls of libvirt-python, which are a parameter.
use knpodly.Base.{ℕ, ◌*◌, ◌/◌, String, Bool, Option, none, some, if◌then◌else◌}
use knpodly.Exec.{Exec, ok, err, pure, ◌>>=◌, ◌>>◌}
use knpodly.Libvirt.{DomainInfo, DomainState, running, HostStats, BaseLibvirtClient}

-- The entries 1 and 2 of `conn.getInfo()`.
pub record NodeInfo : Type 0 where
  pub memory : ℕ
  pub cpus : ℕ

-- What the client uses of the package `libvirt`: `G` is the state of the hosts, `Conn` a
-- connection and `Dom` a domain handle. A call that raises libvirtError returns `err`.
pub record LibvirtApi (G Conn Dom : Type 0) : Type 0 where
  pub open_uri : String → Exec G Conn
  pub define_xml : Conn → String → Exec G Dom
  pub create : Dom → Exec G (Unit {0})
  pub lookup_by_name : Conn → String → Exec G Dom
  pub shutdown : Dom → Exec G (Unit {0})
  pub is_active : Dom → Exec G Bool
  pub destroy : Dom → Exec G (Unit {0})
  pub undefine : Dom → Exec G (Unit {0})
  -- `dom.state()`, with the code already looked up in `state_map`
  pub state : Dom → Exec G DomainState
  pub get_info : Conn → Exec G NodeInfo
  pub get_free_memory : Conn → Exec G ℕ

-- The client object's `_conn` beside the hosts.
pub record QemuHost (G Conn : Type 0) : Type 0 where
  pub conn : Option Conn
  pub hosts : G

module _ {G Conn Dom : Type 0} (api : LibvirtApi G Conn Dom) (uri : String) where
  abbrev pub on_hosts : {A : Type 0} → Exec G A → Exec (QemuHost G Conn) A
  on_hosts m s = let (r, g) = m s.hosts in (r, record s { hosts = g })

  open_connection : Option Conn → Exec (QemuHost G Conn) Conn
  open_connection (some c) s = (ok c, s)
  open_connection none s =
      let (r, g) = api.open_uri uri s.hosts in
      elim r [
        | ok c ↦ (ok c, record { conn = some c; hosts = g })
        | err e ↦ (err e, record s { hosts = g })
      ]

  -- `_connect`
  pub connect : Exec (QemuHost G Conn) Conn
  unfolding open_connection
  connect s = open_connection s.conn s

  pub define_and_start : String → String → Exec (QemuHost G Conn) DomainInfo
  unfolding connect
  define_and_start domain_xml name = do
    conn ← connect
    dom ← on_hosts (api.define_xml conn domain_xml)
    on_hosts (api.create dom)
    pure (record { name = name; state = running; vnc_port = none })

  pub graceful_shutdown : String → Exec (QemuHost G Conn) (Unit {0})
  unfolding connect
  graceful_shutdown name = do
    conn ← connect
    dom ← on_hosts (api.lookup_by_name conn name)
    on_hosts (api.shutdown dom)

  pub force_destroy : String → Exec (QemuHost G Conn) (Unit {0})
  unfolding connect
  force_destroy name = do
    conn ← connect
    dom ← on_hosts (api.lookup_by_name conn name)
    active ← on_hosts (api.is_active dom)
    if active then on_hosts (api.destroy dom) else pure tt

  pub undefine : String → Exec (QemuHost G Conn) (Unit {0})
  unfolding connect
  undefine name = do
    conn ← connect
    dom ← on_hosts (api.lookup_by_name conn name)
    on_hosts (api.undefine dom)

  -- The handler of `except libvirt.libvirtError` stands round `_connect` and the lookup.
  found_or_none : Exec (QemuHost G Conn) Dom → Exec (QemuHost G Conn) (Option Dom)
  found_or_none m s =
      let (r, s') = m s in elim r [ ok dom ↦ (ok (some dom), s') | err e ↦ (ok none, s') ]

  info_of : String → Option Dom → Exec (QemuHost G Conn) (Option DomainInfo)
  info_of name none = pure none
  info_of name (some dom) = do
    state ← on_hosts (api.state dom)
    pure (some (record { name = name; state = state; vnc_port = none }))

  pub get_domain_info : String → Exec (QemuHost G Conn) (Option DomainInfo)
  unfolding connect found_or_none info_of
  get_domain_info name = do
    found ← found_or_none (connect >>= λ conn. on_hosts (api.lookup_by_name conn name))
    info_of name found

  pub host_stats : Exec (QemuHost G Conn) HostStats
  unfolding connect
  host_stats = do
    conn ← connect
    info ← on_hosts (api.get_info conn)
    free ← on_hosts (api.get_free_memory conn)
    pure (record {
      cpu_count = info.cpus;
      memory_total_mb = info.memory;
      free_memory_mb = free / (1024 * 1024);
    })

  unfoldable pub qemu_client : BaseLibvirtClient (QemuHost G Conn)
  unfolding define_and_start graceful_shutdown force_destroy undefine get_domain_info host_stats
  qemu_client = record {
    define_and_start = define_and_start;
    graceful_shutdown = graceful_shutdown;
    force_destroy = force_destroy;
    get_domain_info = get_domain_info;
    undefine = undefine;
    host_stats = host_stats;
  }
