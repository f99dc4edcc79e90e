-- ===== src/Lifecycle/Provision/Accepts.antt =====
-- A provisioning that goes through.
use knpodly.Base.{ℕ, ◌≤◌, ◌<◌, ◌≡◌, refl, sym, ◌∙◌, inl, inr, true, false, String, none, contains}
use knpodly.Exec.{Error, Result, ok, err}
use knpodly.Text.{uuid_str}
use knpodly.Models.{VmSession, OperatingSystem}
use knpodly.Libvirt.{DomainInfo, BaseLibvirtClient}
use knpodly.Libvirt.Fake.{fake_client}
use knpodly.World.{World, Env}
use knpodly.World.Tables.{active}
use knpodly.World.Saves.{IsLoaded}
use knpodly.Overlay.{vnc_port_min, vnc_port_max}
use knpodly.Overlay.Names.{overlay_file}
use knpodly.Lifecycle.{define_and_start, provision_vm}
use knpodly.Lifecycle.Provision.{Provisions, provision_vm-Provisions}

-- A driver that starts every domain, as FakeLibvirtClient does.
pub record Starts {H : Type 0} (libvirt : BaseLibvirtClient H) : Type 0 where
  pub starts :
      (domain_xml name : String) (h : H)
      → (info : DomainInfo) × ((libvirt.define_and_start domain_xml name h).0 ≡ ok info)

pub fake_client-Starts : Starts fake_client
unfolding fake_client
fake_client-Starts = record { starts = λ domain_xml name h. (_, refl) }

module _ {H : Type 0} (env : Env H) (w : World H) (s : VmSession) (os : OperatingSystem)
    (loaded : IsLoaded w.sessions s) (open_session : active s ≡ true) (driver : Starts env.libvirt)
    (q : ℕ) (low : vnc_port_min ≤ q) (high : q < vnc_port_max) (free : contains q w.ports ≡ false)
    (writes : env.qemu_img_create w.overlays os.base_image_path
        (overlay_file env.settings.vm_overlay_path (uuid_str s.id))
      ≡ none) where
  never_raises :
      (e : Error) (v : World H) → Provisions env w s os loaded open_session (err e, v) → ⊥
  unfolding define_and_start
  never_raises e v (inl (stderr, fails, why, rows, ports, files)) =
      let bad = sym writes ∙ fails in cc
  never_raises e v (inr (inl (taken, rows, ports, files))) =
      let bad = sym free ∙ taken q low high in cc
  never_raises e v (inr (inr (port, fails, rows, unused, ports, files))) =
      let (info, started) = driver.starts _ _ w.host in let bad = sym started ∙ fails in cc

  pub provision_vm-accepts :
      (s' : VmSession) × (v : World H) × (provision_vm env s os w ≡ (ok s', v))
  provision_vm-accepts = returned _ refl (provision_vm-Provisions env w s os loaded open_session)
    where
      returned :
          (r : Result VmSession × World H)
          → provision_vm env s os w ≡ r
          → Provisions env w s os loaded open_session r
          → (s' : VmSession) × (v : World H) × (provision_vm env s os w ≡ (ok s', v))
      returned (ok s', v) runs ends = (s', v, runs)
      returned (err e, v) runs ends = absurd (never_raises e v ends)
