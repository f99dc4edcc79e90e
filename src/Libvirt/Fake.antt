-- ===== src/Libvirt/Fake.antt =====
-- `FakeLibvirtClient`: the domains in a dict from name to DomainInfo.
use knpodly.Base.{◌+◌, String, Option, none, some, List, [], ◌∷◌, length, str_eq, if◌then◌else◌}
use knpodly.Exec.{Exec, ok}
use knpodly.Libvirt.{DomainInfo, running, shutoff, BaseLibvirtClient}

abbrev pub Domains : Type 0
Domains = List (String × DomainInfo)

-- `self._domains.get(name)`
unfoldable pub lookup : String → Domains → Option DomainInfo
lookup k [] = none
lookup k ((j, v) ∷ d) = if str_eq j k then some v else lookup k d

-- `self._domains[name] = info`
unfoldable pub insert : String → DomainInfo → Domains → Domains
insert k v [] = (k, v) ∷ []
insert k v ((j, w) ∷ d) = if str_eq j k then (k, v) ∷ d else (j, w) ∷ insert k v d

-- `self._domains.pop(name, None)`
unfoldable pub pop : String → Domains → Domains
pop k [] = []
pop k ((j, w) ∷ d) = let rest = pop k d in if str_eq j k then rest else (j, w) ∷ rest

-- `if name in self._domains: self._domains[name].state = "shutoff"`
unfoldable pub shut_off : String → Domains → Domains
shut_off k [] = []
shut_off k ((j, w) ∷ d) =
    if str_eq j k then (j, record w { state = shutoff }) ∷ d else (j, w) ∷ shut_off k d

unfoldable pub define_and_start : String → String → Exec Domains DomainInfo
unfolding insert
define_and_start domain_xml name d =
    let info : DomainInfo = record {
      name = name;
      state = running;
      vnc_port = some (5900 + length d);
    } in
    (ok info, insert name info d)

-- The client that `get_libvirt_client` returns for LIBVIRT_DRIVER=fake.
unfoldable pub fake_client : BaseLibvirtClient Domains
unfolding define_and_start shut_off pop lookup
fake_client = record {
  define_and_start = define_and_start;
  graceful_shutdown = λ name d. (ok tt, shut_off name d);
  force_destroy = λ name d. (ok tt, shut_off name d);
  get_domain_info = λ name d. (ok (lookup name d), d);
  undefine = λ name d. (ok tt, pop name d);
  host_stats =
      λ d. (ok (record { cpu_count = 8; memory_total_mb = 32768; free_memory_mb = 20480 }), d);
}
