-- ===== src/Lifecycle/Silent.antt =====
-- The operations of vm_lifecycle publish nothing: whoever calls them does.
use knpodly.Base.{◌≡◌, refl, ◌∙◌, inl, inr, String, ℕ, List, arith, Option-cases}
use knpodly.Exec.{Exec}
use knpodly.Exec.Keeps.{Keeps, Keeps-by, Keeps-on_error, Keeps-bind}
use knpodly.Models.{Uuid, VmSession, OperatingSystem}
use knpodly.World.{World, Env, Event, save, refresh}
use knpodly.World.Tables.{find_session}
use knpodly.Overlay.{destroy_overlay}
use knpodly.Overlay.Ports.{allocate_vnc_port-cases}
use knpodly.Lifecycle.{provision_vm, start_domain}
use knpodly.Lifecycle.Provision.{create_overlay-cases}

abbrev pub Silent : {H : Type 0} → List Event → World H → Type 0
Silent events w = w.events ≡ events

module _ {H : Type 0} (events : List Event) where
  Silent-aside :
      {A : Type 0} {m : Exec (World H) A}
      → ((w : World H) → (m w).1.events ≡ w.events)
      → Keeps (Silent events) m
  Silent-aside same = record { at = λ w p. same w ∙ p }

  save-Silent :
      (change : VmSession → VmSession) (s : VmSession)
      → Keeps {S = World H} (Silent events) (save change s)
  unfolding save
  save-Silent change s = Silent-aside (λ w. ground arith)

  refresh-Silent : (s : VmSession) → Keeps {S = World H} (Silent events) (refresh s)
  unfolding refresh
  refresh-Silent s = Silent-aside (λ w. elim (Option-cases (find_session s.id w.sessions)) [
    | inl e ↦ rw (e, refresh) refl
    | inr (row, e) ↦ rw (e, refresh) refl
  ])

  module _ (env : Env H) where
    start_domain-Silent :
        (s : VmSession) (path : String) (port : ℕ) (mac : Uuid)
        → Keeps (Silent events) (start_domain env s path port mac)
    unfolding start_domain destroy_overlay
    start_domain-Silent s path port mac =
        Keeps-on_error (Keeps-bind (Silent-aside (λ w. refl)) (λ _. Silent-aside (λ w. refl)))
          (Keeps-bind (save-Silent _ s) (λ _. Silent-aside (λ w. refl)))

    pub provision_vm-Silent :
        (s : VmSession) (os : OperatingSystem) → Keeps (Silent events) (provision_vm env s os)
    unfolding provision_vm
    provision_vm-Silent s os = Keeps-bind (save-Silent _ s) (λ s'.
        Keeps-bind (Silent-aside (λ w. refl)) (λ policy.
          Keeps-bind
            (Keeps-by (λ w p. elim (create_overlay-cases env os.base_image_path _ w) [
              | inl runs ↦ (_, _, runs, p)
              | inr (stderr, e, runs) ↦ (_, _, runs, p)
            ]))
            (λ path.
              Keeps-bind
                (Keeps-by (λ w p. elim (allocate_vnc_port-cases w) [
                  | inl (port, runs, low, high, free) ↦ (_, _, runs, p)
                  | inr (e, runs, taken) ↦ (_, _, runs, p)
                ]))
                (λ port. Keeps-bind (Silent-aside (λ w. refl)) (λ mac.
                  Keeps-bind (start_domain-Silent s' path port mac) (λ _.
                    Keeps-bind (Silent-aside (λ w. refl)) (λ now.
                      Keeps-bind (Silent-aside (λ w. refl))
                        (λ token. Keeps-bind (save-Silent _ s') (λ s''. refresh-Silent s'')))))))))
