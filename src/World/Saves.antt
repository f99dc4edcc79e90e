-- ===== src/World/Saves.antt =====
-- What `save` and `refresh` do to a row that was loaded from the table.
use knpodly.Base.{◌≡◌, refl, ap, sym, true, some, List, [], ◌∷◌, ◌++◌, false, arith}
use mathlib.Core.Path.{subst}
use knpodly.Exec.{Exec, Result, ok, err, integrity_error}
use knpodly.Exec.Runs.{Runs}
use knpodly.Models.{Uuid, VmSession}
use knpodly.World.{World, save, refresh, on_host, insert_session}
use knpodly.World.Tables.{index_ok, update_rows, find_session}
use knpodly.World.Tables.Laws.{Preserving, index_ok-update, find-update_self}

-- The indexes of the database hold, and `s` is the row as it is stored.
pub record IsLoaded (rows : List VmSession) (s : VmSession) : Type 0 where
  pub indexed : index_ok rows ≡ true
  pub stored : find_session s.id rows ≡ some s

pub update-update :
    (k : Uuid) (f g : VmSession → VmSession) (rows : List VmSession)
    → ((s : VmSession) → (f s).id ≡ s.id)
    → update_rows k g (update_rows k f rows) ≡ update_rows k (λ s. g (f s)) rows
unfolding update_rows
update-update k f g [] same = refl
update-update k f g (x ∷ rows) same = ground (arith, same x, update-update k f g rows same)

module _ {H : Type 0} (w : World H) (s : VmSession) (change : VmSession → VmSession) where
  pub save_lem :
      IsLoaded w.sessions s
      → Preserving change s
      → Runs
          (save change s)
          w
          (ok (change s), record w { sessions = update_rows s.id change w.sessions })
  unfolding save
  save_lem loaded keeps = record {
    at = rw (index_ok-update s.id change w.sessions s keeps loaded.indexed loaded.stored, save);
  }

pub save-IsLoaded :
    (change : VmSession → VmSession) (rows : List VmSession) (s : VmSession)
    → IsLoaded rows s
    → Preserving change s
    → ((r : VmSession) → (change r).id ≡ r.id)
    → IsLoaded (update_rows s.id change rows) (change s)
save-IsLoaded change rows s loaded keeps same = record {
  indexed = index_ok-update s.id change rows s keeps loaded.indexed loaded.stored;
  stored =
      subst (λ (k : Uuid). find_session k (update_rows s.id change rows) ≡ some (change s))
        (sym (same s)) (find-update_self s.id change same rows s loaded.stored);
}

pub refresh_lem :
    {H : Type 0} (w : World H) (s : VmSession)
    → IsLoaded w.sessions s
    → Runs (refresh s) w (ok s, w)
unfolding refresh
refresh_lem w s loaded = record { at = rw (loaded.stored, refresh) }

-- A call of the hypervisor changes the hypervisor alone.
pub on_host_lem :
    {H A : Type 0} (m : Exec H A) (w : World H) {r : Result A}
    → (m w.host).0 ≡ r
    → Runs (on_host m) w (r, record w { host = (m w.host).1 })
on_host_lem {H} {A} m w e = record {
  at =
      ap (λ (r : Result A). let p : Result A × World H = (r, record w { host = (m w.host).1 }) in p)
        e;
}

module _ {H : Type 0} (w : World H) (s : VmSession) where
  -- An accepted insert can be read back.
  pub insert_session-Runs :
      index_ok (w.sessions ++ s ∷ []) ≡ true
      → Runs (insert_session s) w (ok tt, record w { sessions = w.sessions ++ s ∷ [] })
  unfolding insert_session
  insert_session-Runs e = record { at = rw e }

  pub insert_session-refused :
      index_ok (w.sessions ++ s ∷ []) ≡ false → Runs (insert_session s) w (err integrity_error, w)
  unfolding insert_session
  insert_session-refused e = record { at = rw e }
