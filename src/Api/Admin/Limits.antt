-- ===== src/Api/Admin/Limits.antt =====
-- `update_vm_limit_policy` and what it changes for the readers of the policy.
use knpodly.Base.{
  suc, ℤ, eq_of_parts, ◌≡◌, refl, ap, sym, ◌⊎◌, inl, inr, true, false, not, some, [], ◌∷◌, head?,
  arith, Bool-cases, if◌then◌else◌,
}
use knpodly.Exec.{Result, ok, err, http_exception, integrity_error, Error, gets, ◌>>=◌, ◌>>◌}
use knpodly.Exec.Runs.{Runs, Runs-refl, Runs-bind-ok, Runs-raise_if-pass, Runs-raise_if-fail}
use knpodly.Models.{Time, User, VmLimitPolicy}
use knpodly.World.{World, Env, record_audit}
use knpodly.Policy.{active_policies, get_active_policy}
use knpodly.Policy.Selection.{get_active_policy-single}
use knpodly.Exec.Checks.{ok-bind, err-bind}
use knpodly.Api.{is_staff, require_roles}
use knpodly.Api.Admin.Fields.{
  differs, Field, unset, null, value, VmLimitPolicyUpdate, VmLimitPolicyOut, has_null, has_change,
  patched, patch_policy, update_policies, find_policy, updates, id_str,
}
use knpodly.Api.Admin.{
  admin_audit, policy_out, require_policy, save_policy, refresh_policy, update_vm_limit_policy,
  get_vm_limit_policy,
}
use knpodly.Api.Admin.Rows.{ids_ok, same_id-eq, active-update}

module _ {H : Type 0} (env : Env H) (user : User) (payload : VmLimitPolicyUpdate)
    (w : World H) where
  -- One row is active, with the time that its column must hold, or none is.
  abbrev pub AtMostOne : Type 0
  AtMostOne =
      (active_policies w.policies ≡ [])
      ⊎ ((p : VmLimitPolicy) × (t : Time) × (active_policies w.policies ≡ p ∷ [])
          × (p.updated_at ≡ some t))

  -- What the request makes of the active row.
  abbrev pub next : VmLimitPolicy → VmLimitPolicy
  next p =
      if has_change user payload p then patch_policy user payload (w.clock w.clock_reads) p else p

  -- The fields of the request are in force, and the others are as they were.
  pub record Patched (p q : VmLimitPolicy) : Type 0 where
    pub max_session_minutes :
        q.max_session_minutes ≡ patched payload.max_session_minutes p.max_session_minutes
    pub max_extension_minutes :
        q.max_extension_minutes ≡ patched payload.max_extension_minutes p.max_extension_minutes
    pub max_extensions : q.max_extensions ≡ patched payload.max_extensions p.max_extensions
    pub idle_warning_minutes :
        q.idle_warning_minutes ≡ patched payload.idle_warning_minutes p.idle_warning_minutes
    pub idle_timeout_minutes :
        q.idle_timeout_minutes ≡ patched payload.idle_timeout_minutes p.idle_timeout_minutes
    pub max_concurrent_vms_total :
        q.max_concurrent_vms_total
        ≡ patched payload.max_concurrent_vms_total p.max_concurrent_vms_total
    pub updated_by : q.updated_by ≡ some user.id
    pub key : (q.id ≡ p.id) × (q.is_active ≡ p.is_active)

  unchanged : (f : Field) (old : ℤ) → differs f old ≡ false → old ≡ patched f old
  unchanged unset old h = refl
  unchanged null old h = refl
  unchanged (value n) old h = eq_of_parts old n (ground arith)

  next-Patched : (p : VmLimitPolicy) → Patched p (next p)
  unfolding has_change
  next-Patched p = elim (Bool-cases (has_change user payload p)) [
    | inl e ↦ rw e (record {
      max_session_minutes = refl;
      max_extension_minutes = refl;
      max_extensions = refl;
      idle_warning_minutes = refl;
      idle_timeout_minutes = refl;
      max_concurrent_vms_total = refl;
      updated_by = refl;
      key = (refl, refl);
    })
    | inr e ↦ rw e (record {
      max_session_minutes =
          unchanged payload.max_session_minutes p.max_session_minutes (ground (arith, e));
      max_extension_minutes =
          unchanged payload.max_extension_minutes p.max_extension_minutes (ground (arith, e));
      max_extensions = unchanged payload.max_extensions p.max_extensions (ground (arith, e));
      idle_warning_minutes =
          unchanged payload.idle_warning_minutes p.idle_warning_minutes (ground (arith, e));
      idle_timeout_minutes =
          unchanged payload.idle_timeout_minutes p.idle_timeout_minutes (ground (arith, e));
      max_concurrent_vms_total =
          unchanged payload.max_concurrent_vms_total p.max_concurrent_vms_total (ground (arith, e));
      updated_by = sym (same_id-eq (some user.id) p.updated_by (ground (arith, e)));
      key = (refl, refl);
    })
  ]

  -- A stored row as the response shows it.
  abbrev pub out_of : VmLimitPolicy → Time → VmLimitPolicyOut
  out_of p updated_at = record {
    name = p.name;
    max_session_minutes = p.max_session_minutes;
    max_extension_minutes = p.max_extension_minutes;
    max_extensions = p.max_extensions;
    idle_warning_minutes = p.idle_warning_minutes;
    idle_timeout_minutes = p.idle_timeout_minutes;
    max_concurrent_vms_total = p.max_concurrent_vms_total;
    updated_at = updated_at;
  }

  -- After the commit the row of `p` is `next p`, found by its key and alone active.
  saves :
      (p : VmLimitPolicy)
      → has_null payload ≡ false
      → ids_ok w.policies ≡ true
      → active_policies w.policies ≡ p ∷ []
      → (v : World H) × Runs (save_policy user payload p) w (ok tt, v)
        × (find_policy p.id v.policies ≡ some (next p))
        × (active_policies v.policies ≡ next p ∷ [])
        × (v.audit_logs ≡ w.audit_logs)
  unfolding save_policy ◌>>=◌
  saves p no_null ix single =
      let change = patch_policy user payload (w.clock w.clock_reads) in
      let (found, updated, refound) =
        active-update change (λ p. refl) (λ p. refl) w.policies p ix single in
      elim (Bool-cases (has_change user payload p)) [
        | inl e ↦ (
          record w {
            clock_reads = suc w.clock_reads;
            policies = update_policies p.id change w.policies;
          },
          record { at = rw (no_null, e) refl },
          rw e refound,
          rw e updated,
          refl,
        )
        | inr e ↦ (w, record { at = rw (no_null, e) refl }, rw e found, rw e single, refl)
      ]

  -- Why a request is refused.
  pub data Refusal (e : Error) : Type 0 where
    not_staff :
        is_staff user.role ≡ false → e ≡ http_exception 403 "Insufficient permissions" → Refusal e
    no_row :
        active_policies w.policies ≡ []
        → e ≡ http_exception 404 "No active policy row found"
        → Refusal e
    null_field : has_null payload ≡ true → e ≡ integrity_error → Refusal e

  abbrev pub Updates : Result VmLimitPolicyOut × World H → Type 0
  Updates (err e, v) = (v ≡ w) × Refusal e
  Updates (ok out, v) =
      (p : VmLimitPolicy) × (active_policies w.policies ≡ p ∷ [])
      × Patched p (get_active_policy env v)
      × (active_policies v.policies ≡ get_active_policy env v ∷ [])
      × (get_vm_limit_policy env user v ≡ (ok out, v))

  reads :
      (v : World H) (q : VmLimitPolicy) (t : Time)
      → is_staff user.role ≡ true
      → active_policies v.policies ≡ q ∷ []
      → q.updated_at ≡ some t
      → get_vm_limit_policy env user v ≡ (ok (out_of q t), v)
  unfolding get_vm_limit_policy policy_out require_roles
  reads v q t e single stamped =
      (Runs-bind-ok _ (Runs-raise_if-pass _ v (ap not e)) (
        Runs-bind-ok _ (Runs-refl (gets (get_active_policy env)) v)
          (record { at = rw (get_active_policy-single env v q single, stamped) refl }))).at

  stamp :
      (p : VmLimitPolicy) (t : Time)
      → p.updated_at ≡ some t
      → (t' : Time) × ((next p).updated_at ≡ some t')
  stamp p t stamped = elim (Bool-cases (has_change user payload p)) [
    | inl e ↦ (w.clock w.clock_reads, rw e refl)
    | inr e ↦ (t, rw e stamped)
  ]

  answers :
      (v : World H) (p : VmLimitPolicy) (t : Time)
      → is_staff user.role ≡ true
      → active_policies w.policies ≡ p ∷ []
      → active_policies v.policies ≡ next p ∷ []
      → (next p).updated_at ≡ some t
      → Updates (policy_out (next p) (some t) v)
  unfolding policy_out
  answers v p t e single updated stamped = (
    p,
    single,
    rw (get_active_policy-single env v (next p) updated) (next-Patched p),
    rw (get_active_policy-single env v (next p) updated) updated,
    reads v (next p) t e updated stamped,
  )

  -- From the row on.
  row-Updates :
      (p : VmLimitPolicy) (t : Time)
      → is_staff user.role ≡ true
      → ids_ok w.policies ≡ true
      → active_policies w.policies ≡ p ∷ []
      → p.updated_at ≡ some t
      → Updates (
          (do
            save_policy user payload p
            policy' ← refresh_policy p.id
            record_audit (
                admin_audit user "vm_limit_policy.updated"
                  (some "vm_limit_policy")
                  (some (id_str policy'.id))
                  (some (updates payload)))
            policy_out policy' policy'.updated_at)
            w)
  unfolding save_policy refresh_policy policy_out
  row-Updates p t e ix single stamped = elim (Bool-cases (has_null payload)) [
    | inl bad ↦ err-bind Updates _ {t = w} (record { at = rw bad refl }) (refl, null_field bad refl)
    | inr good ↦
        let (v, runs, found, updated, kept) = saves p good ix single in
        let (t', stamped') = stamp p t stamped in
        ok-bind Updates _ runs (
          ok-bind Updates _ {t = v} {a = next p} (record { at = rw (found, refresh_policy) refl })
            (ok-bind Updates _ (Runs-refl (record_audit _) v)
              (rw stamped' (answers _ p t' e single updated stamped'))))
  ]

  -- While at most one policy row is active, a request to change the limits either puts exactly the
  -- numbers that it gives into force, keeps the other limits and stays the only active row, and
  -- the route that reads the limits then returns what the request did; or it is refused and changes
  -- nothing, because its user is a student, no row is active, or it gives a null.
  pub update_vm_limit_policy-Updates :
      ids_ok w.policies ≡ true → AtMostOne → Updates (update_vm_limit_policy user payload w)
  unfolding update_vm_limit_policy require_roles require_policy
  update_vm_limit_policy-Updates ix rows = elim (Bool-cases (is_staff user.role)) [
    | inr e ↦ err-bind Updates _ (Runs-raise_if-fail _ w (ap not e)) (refl, not_staff e refl)
    | inl e ↦ ok-bind Updates _ (Runs-raise_if-pass _ w (ap not e)) (
        ok-bind Updates _ (Runs-refl (gets (λ w. head? (active_policies w.policies))) w)
          (elim rows [
            | inl none_active ↦
                rw none_active (
                  err-bind Updates _ {t = w} (record { at = refl }) (refl, no_row none_active refl))
            | inr (p, t, single, stamped) ↦ rw single (
                ok-bind Updates _ {t = w} {a = p} (record { at = refl })
                  (row-Updates p t e ix single stamped))
          ]))
  ]
