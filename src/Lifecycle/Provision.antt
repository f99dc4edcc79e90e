-- ===== src/Lifecycle/Provision.antt =====
-- `provision_vm` on a session that is stored and active: all of its endings.
pub mod Accepts
use knpodly.Base.{
  some, ℕ, suc, ◌+ℤ◌, ◌≤◌, ◌<◌, ◌≡◌, refl, String, true, false, ◌⊎◌, inl, inr, Option, List, ◌∷◌,
  contains, Option-cases,
}
use knpodly.Exec.{Error, Result, ok, err, ◌>>=◌, gets, pure}
use knpodly.Exec.Runs.{
  Runs, Result-cases, Runs-bind-ok, Runs-bind-err, Runs-refl, Runs-on_error-ok, Runs-on_error-err,
}
use knpodly.Exec.Checks.{ok-bind, err-bind, end-with}
use knpodly.Text.{uuid_str, uuid_hex}
use knpodly.Models.{
  Uuid, minutes, VmSession, VmState, OperatingSystem, provisioning, running, failed,
}
use knpodly.World.{World, Env, save, refresh, read_clock, draw_uuid}
use knpodly.World.Tables.{active, update_rows}
use knpodly.World.Tables.Laws.{Preserving}
use knpodly.World.Saves.{IsLoaded, save_lem, save-IsLoaded, refresh_lem, on_host_lem, update-update}
use knpodly.Policy.{get_active_policy}
use knpodly.Overlay.{vnc_port_min, vnc_port_max, remove_file, create_overlay, destroy_overlay}
use knpodly.Overlay.Names.{overlay_file, creation_failed}
use knpodly.Overlay.Ports.{allocate_vnc_port-cases}
use knpodly.Lifecycle.{mark_state, mark_running, define_and_start, start_domain, provision_vm}
use knpodly.Lifecycle.Texts.{domain_name}

-- A change of state that is safe from an active state.
state-Preserving :
    (state : VmState) (s : VmSession) → active s ≡ true → Preserving (mark_state state) s
state-Preserving state s e = record { id = refl; user = refl; stays_closed = λ _. e }

module _ {H : Type 0} (env : Env H) where
  -- qemu-img writes the overlay file, or fails and RuntimeError is raised.
  pub create_overlay-cases :
      (base : Option String) (id : String) (w : World H)
      → let path = overlay_file env.settings.vm_overlay_path id in
        Runs
          (create_overlay env base id)
          w
          (ok path, record w { overlays = path ∷ remove_file path w.overlays })
        ⊎ ((stderr : String) × (env.qemu_img_create w.overlays base path ≡ some stderr)
            × Runs (create_overlay env base id) w (err (creation_failed stderr), w))
  unfolding create_overlay
  create_overlay-cases base id w =
      elim (Option-cases
        (env.qemu_img_create w.overlays base (overlay_file env.settings.vm_overlay_path id))) [
          | inl e ↦ inl (record { at = rw e })
          | inr (x, e) ↦ inr (x, e, record { at = rw e })
        ]

  -- The domain starts, or the handler marks the session failed and removes the overlay.
  start_domain-cases :
      (s : VmSession) (path : String) (port : ℕ) (mac : Uuid) (w : World H)
      → IsLoaded w.sessions s
      → active s ≡ true
      → ((h : H) × Runs (start_domain env s path port mac) w (ok tt, record w { host = h }))
        ⊎ ((e : Error) × ((define_and_start env s path port mac w.host).0 ≡ err e)
            × (h : H) × Runs (start_domain env s path port mac) w (
              err e,
              record w {
                host = h;
                sessions = update_rows s.id (mark_state failed) w.sessions;
                overlays = remove_file path w.overlays;
              },
            ))
  unfolding start_domain destroy_overlay
  start_domain-cases s path port mac w loaded open_session =
      let start = define_and_start env s path port mac in
      elim (Result-cases (start w.host).0) [
        | inl (info, e) ↦
            inl (
              _,
              Runs-on_error-ok _ (Runs-bind-ok _ (on_host_lem start w e) (Runs-refl (pure tt) _)),
            )
        | inr (x, e) ↦ inr (
          x,
          e,
          (start w.host).1,
          Runs-on_error-err (Runs-bind-err _ (on_host_lem start w e)) (
              Runs-bind-ok _
                (save_lem _ s (mark_state failed) loaded (state-Preserving failed s open_session))
                (record { at = refl })),
        )
      ]

-- The endings of `provision_vm` for a session that is stored and active.
module _ {H : Type 0} (env : Env H) (w : World H) (s : VmSession) (os : OperatingSystem)
    (loaded : IsLoaded w.sessions s) (open_session : active s ≡ true) where
  abbrev path : String
  path = overlay_file env.settings.vm_overlay_path (uuid_str s.id)

  abbrev with_overlay : List String
  with_overlay = path ∷ remove_file path w.overlays

  abbrev in_state : VmState → List VmSession
  in_state state = update_rows s.id (λ r. record r { state = state }) w.sessions

  abbrev running_session : ℕ → Uuid → VmSession → VmSession
  running_session port token r = record r {
    state = running;
    libvirt_domain_name = some (domain_name s.id);
    overlay_disk_path = some path;
    vnc_port = some port;
    websocket_token = some (uuid_hex token);
    started_at = some (w.clock w.clock_reads);
    last_activity_at = some (w.clock w.clock_reads);
    expires_at =
        some (w.clock w.clock_reads +ℤ minutes (get_active_policy env w).max_session_minutes);
  }

  pub record Provisioned (s' : VmSession) (w' : World H) (port : ℕ) (token : Uuid) : Type 0 where
    pub session : s' ≡ running_session port token s
    pub stored : w'.sessions ≡ update_rows s.id (running_session port token) w.sessions
    pub token_drawn : token ≡ w.uuids (suc w.uuid_draws)
    pub in_range : (vnc_port_min ≤ port) × (port < vnc_port_max)
    pub port_was_free : contains port w.ports ≡ false
    pub port_claimed : w'.ports ≡ port ∷ w.ports
    pub overlay_created : w'.overlays ≡ with_overlay

  abbrev pub Provisions : Result VmSession × World H → Type 0
  Provisions (ok s', w') = (port : ℕ) × (token : Uuid) × Provisioned s' w' port token
  Provisions (err e, w') =
      -- qemu-img failed
      ((stderr : String) × (env.qemu_img_create w.overlays os.base_image_path path ≡ some stderr)
        × (e ≡ creation_failed stderr)
        × (w'.sessions ≡ in_state provisioning)
        × (w'.ports ≡ w.ports)
        × (w'.overlays ≡ w.overlays))
      -- no port was free
      ⊎ (((q : ℕ) → vnc_port_min ≤ q → q < vnc_port_max → contains q w.ports ≡ true)
          × (w'.sessions ≡ in_state provisioning)
          × (w'.ports ≡ w.ports)
          × (w'.overlays ≡ with_overlay))
      -- the domain did not start
      ⊎ ((port : ℕ) × ((define_and_start env (mark_state provisioning s) path port
              (w.uuids w.uuid_draws) w.host).0
            ≡ err e)
          × (w'.sessions ≡ in_state failed)
          × (contains port w.ports ≡ false)
          × (w'.ports ≡ port ∷ w.ports)
          × (w'.overlays ≡ remove_file path with_overlay))

  abbrev marked_world : World H
  marked_world = record w { sessions = in_state provisioning }

  abbrev overlay_world : World H
  overlay_world = record marked_world { overlays = with_overlay }

  abbrev port_world : ℕ → World H
  port_world port = record overlay_world { ports = port ∷ w.ports; uuid_draws = suc w.uuid_draws }

  running-Preserving :
      (port : ℕ) (token : Uuid)
      → Preserving (running_session port token) (mark_state provisioning s)
  running-Preserving port token = record { id = refl; user = refl; stays_closed = λ e. e }

  midway : IsLoaded (in_state provisioning) (mark_state provisioning s)
  midway =
      save-IsLoaded (mark_state provisioning) w.sessions s loaded
        (state-Preserving provisioning s open_session) (λ r. refl)

  abbrev token : Uuid
  token = w.uuids (suc w.uuid_draws)

  -- From `now = ...` on.
  running_end :
      (port : ℕ) (h : H)
      → vnc_port_min ≤ port
      → port < vnc_port_max
      → contains port w.ports ≡ false
      → Provisions (
          (do
            now ← read_clock
            token ← draw_uuid
            session' ←
                save
                  (mark_running
                    (domain_name s.id)
                    path
                    port
                    (uuid_hex token)
                    now
                    (now +ℤ minutes (get_active_policy env w).max_session_minutes))
                  (mark_state provisioning s)
            refresh session')
            (record (port_world port) { host = h }))
  running_end port h low high free =
      let keeps = running-Preserving port token in
      let change = running_session port token in
      let rows = update-update s.id (mark_state provisioning) change w.sessions (λ r. refl) in
      ok-bind Provisions _ (Runs-refl read_clock _) (
        ok-bind Provisions _ (Runs-refl draw_uuid _) (
          ok-bind Provisions _ (save_lem _ (mark_state provisioning s) change midway keeps) (
            end-with Provisions
              (refresh_lem _ _ (save-IsLoaded change _ _ midway keeps (λ r. refl)))
              (
                port,
                token,
                record {
                  session = refl;
                  stored = rows;
                  token_drawn = refl;
                  in_range = (low, high);
                  port_was_free = free;
                  port_claimed = refl;
                  overlay_created = refl;
                },
              ))))

  -- A provisioning of a stored active session either leaves it running with a port of the range
  -- that was free and is now claimed, its overlay, a newly drawn console token, and an expiry after
  -- the session minutes of the policy, and changes no other field of it; or raises for one of three
  -- reasons: qemu-img failed, or all ports are in use and the overlay stays, and the session is left
  -- `provisioning`; or the driver raised, and the session is `failed`, its overlay removed and its
  -- port still claimed.
  pub provision_vm-Provisions : Provisions (provision_vm env s os w)
  unfolding provision_vm get_active_policy
  provision_vm-Provisions =
      ok-bind Provisions _
        (save_lem w s (mark_state provisioning) loaded
          (state-Preserving provisioning s open_session))
        (ok-bind Provisions _ (Runs-refl (gets (get_active_policy env)) _)
          (elim (create_overlay-cases env os.base_image_path (uuid_str s.id) marked_world) [
            | inr (stderr, fails, runs) ↦
                err-bind Provisions _ runs (inl (stderr, fails, refl, refl, refl, refl))
            | inl made ↦ ok-bind Provisions _ made (elim (allocate_vnc_port-cases overlay_world) [
              | inr (e, runs, taken) ↦
                  err-bind Provisions _ runs (inr (inl (taken, refl, refl, refl)))
              | inl (port, claimed, low, high, free) ↦ ok-bind Provisions _ claimed (
                  ok-bind Provisions _ (Runs-refl draw_uuid _)
                    (elim (start_domain-cases env (mark_state provisioning s) path port
                      (w.uuids w.uuid_draws) (port_world port) midway refl) [
                        | inr (e, fails, h, runs) ↦ err-bind Provisions _ runs (
                            inr (
                              inr (
                                port,
                                fails,
                                update-update s.id (mark_state provisioning) (mark_state failed)
                                    w.sessions (λ r. refl),
                                free,
                                refl,
                                refl,
                              )))
                        | inl (h, started) ↦
                            ok-bind Provisions _ started (running_end port h low high free)
                      ]))
            ])
          ]))
