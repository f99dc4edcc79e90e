-- ===== src/Overlay/Ports.antt =====
-- What the port loop claims: the lowest port of the range that is free, or none if all are in use.
use knpodly.Base.{
  ℕ, zero, suc, ◌+◌, ◌≤◌, ◌<◌, ◌≡◌, refl, ◌⊎◌, inl, inr, Bool, true, false, ◌||◌, Option, none,
  some, List, ◌∷◌, arith, contains, contains-erase, Bool-cases, if◌then◌else◌, ◌==◌, ap, ◌∙◌,
}
use mathlib.Core.Path.{subst}
use native.Mathlib.Decide.{ℕ_discrete}
use knpodly.Exec.{Error, Result, ok, err}
use knpodly.Exec.Runs.{Runs}
use knpodly.World.{World}
use knpodly.Overlay.{
  vnc_port_min, vnc_port_max, try_port, claim_from, claimed, allocate_vnc_port, release_vnc_port,
}

-- What a run of the loop over the `n` ports from `port` may return, given the snapshot and the set.
abbrev pub Claims : ℕ → ℕ → List ℕ → List ℕ → Option ℕ × List ℕ → Type 0
Claims n port in_use ports (none, ports') =
    (ports' ≡ ports)
    × ((q : ℕ) → port ≤ q → q < port + n → (contains q in_use || contains q ports) ≡ true)
Claims n port in_use ports (some p, ports') =
    (ports' ≡ p ∷ ports)
    × (port ≤ p)
    × (p < port + n)
    × (contains p in_use ≡ false)
    × (contains p ports ≡ false)
    × ((q : ℕ) → port ≤ q → q < p → (contains q in_use || contains q ports) ≡ true)

-- A port is claimed if it is in neither set; otherwise nothing changes.
try_port_lem :
    (in_use ports : List ℕ) (port : ℕ)
    → ((try_port in_use port ports ≡ (false, ports))
        × ((contains port in_use || contains port ports) ≡ true))
      ⊎ ((try_port in_use port ports ≡ (true, port ∷ ports))
          × (contains port in_use ≡ false)
          × (contains port ports ≡ false))
unfolding try_port
try_port_lem in_use ports port = elim (Bool-cases (contains port in_use)) [
  | inl e ↦ inl (rw e, rw e)
  | inr e ↦ elim (Bool-cases (contains port ports)) [
    | inl d ↦ inl (rw (e, d), rw (e, d))
    | inr d ↦ inr (rw (e, d), e, d)
  ]
]

-- One port more in front of a range of taken ports.
taken_from :
    (P : ℕ → Type 0) (port top : ℕ)
    → P port
    → ((q : ℕ) → suc port ≤ q → q < top → P q)
    → (q : ℕ) → port ≤ q
    → q < top
    → P q
taken_from P port top first rest q low high = elim (ℕ_discrete port q) [
  | yes e ↦ subst P e first
  | no ne ↦ rest q (omega arith) high
]

Claims-suc :
    (n port : ℕ) (in_use ports : List ℕ) (r : Option ℕ × List ℕ)
    → (contains port in_use || contains port ports) ≡ true
    → Claims n (suc port) in_use ports r
    → Claims (suc n) port in_use ports r
Claims-suc n port in_use ports (none, ports') taken (same, rest) = (
  same,
  taken_from (λ q. (contains q in_use || contains q ports) ≡ true) port (port + suc n) taken
      (λ q low high. rest q low (omega arith)),
)
Claims-suc n port in_use ports (some p, ports') taken (set, low, high, fresh, free, rest) = (
  set,
  omega arith,
  omega arith,
  fresh,
  free,
  taken_from (λ q. (contains q in_use || contains q ports) ≡ true) port p taken rest,
)

-- The loop claims the lowest port that is in neither the snapshot nor the set, or leaves the set.
claim_from-Claims :
    (n port : ℕ) (in_use ports : List ℕ)
    → Claims n port in_use ports (claim_from n port in_use ports)
unfolding claim_from
claim_from-Claims zero port in_use ports = (refl, λ q low high. absurd (omega arith))
claim_from-Claims (suc n) port in_use ports = elim (try_port_lem in_use ports port) [
  | inl (e, taken) ↦
      rw (e, claim_from, ap (λ (r : Bool × List ℕ). r.1) e)
        (Claims-suc n port in_use ports _ taken (claim_from-Claims n (suc port) in_use ports))
  | inr (e, fresh, free) ↦
      rw (e, claim_from)
        (
          ap (λ (r : Bool × List ℕ). r.1) e,
          omega arith,
          omega arith,
          fresh,
          free,
          λ q low high. absurd (omega arith),
        )
]

or_self : (b : Bool) → (b || b) ≡ true → b ≡ true
or_self b h = ground arith

module _ {H : Type 0} where
  -- How `allocate_vnc_port` may end: it claims the lowest free port, or the range is exhausted.
  abbrev pub Allocates : World H → Result ℕ × World H → Type 0
  Allocates w (ok p, w') =
      (w' ≡ record w { ports = p ∷ w.ports })
      × (vnc_port_min ≤ p)
      × (p < vnc_port_max)
      × (contains p w.ports ≡ false)
      × ((q : ℕ) → vnc_port_min ≤ q → q < p → contains q w.ports ≡ true)
  Allocates w (err e, w') =
      (w' ≡ w) × ((q : ℕ) → vnc_port_min ≤ q → q < vnc_port_max → contains q w.ports ≡ true)

  claimed-Allocates :
      (w : World H) (r : Option ℕ × List ℕ)
      → Claims 1000 vnc_port_min w.ports w.ports r
      → Allocates w (claimed r.0 (record w { ports = r.1 }))
  unfolding claimed
  claimed-Allocates w (none, ports') (same, taken) =
      (ap (λ (l : List ℕ). record w { ports = l }) same, λ q low high. or_self _ (taken q low high))
  claimed-Allocates w (some p, ports') (set, low, high, fresh, free, taken) = (
    ap (λ (l : List ℕ). record w { ports = l }) set,
    low,
    high,
    free,
    λ q low high. or_self _ (taken q low high),
  )

  -- Allocation returns the lowest free port of 5900 to 6899 and adds it alone to the set, or raises
  -- with all of them in use and nothing changed.
  pub allocate_vnc_port-Allocates : (w : World H) → Allocates w (allocate_vnc_port w)
  unfolding allocate_vnc_port
  allocate_vnc_port-Allocates w =
      claimed-Allocates w _ (claim_from-Claims 1000 vnc_port_min w.ports w.ports)

  -- The two endings as two cases.
  pub allocate_vnc_port-cases :
      (w : World H)
      → ((p : ℕ) × Runs allocate_vnc_port w (ok p, record w { ports = p ∷ w.ports })
          × (vnc_port_min ≤ p)
          × (p < vnc_port_max)
          × (contains p w.ports ≡ false))
        ⊎ ((e : Error) × Runs allocate_vnc_port w (err e, w)
            × ((q : ℕ) → vnc_port_min ≤ q → q < vnc_port_max → contains q w.ports ≡ true))
  allocate_vnc_port-cases w = split (allocate_vnc_port w) refl (allocate_vnc_port-Allocates w)
    where
      split :
          (r : Result ℕ × World H)
          → allocate_vnc_port w ≡ r
          → Allocates w r
          → ((p : ℕ) × Runs allocate_vnc_port w (ok p, record w { ports = p ∷ w.ports })
              × (vnc_port_min ≤ p)
              × (p < vnc_port_max)
              × (contains p w.ports ≡ false))
            ⊎ ((e : Error) × Runs allocate_vnc_port w (err e, w)
                × ((q : ℕ) → vnc_port_min ≤ q → q < vnc_port_max → contains q w.ports ≡ true))
      split (ok p, w') e (same, low, high, free, taken) = inl (
        p,
        record { at = e ∙ ap (λ (v : World H). let r : Result ℕ × World H = (ok p, v) in r) same },
        low,
        high,
        free,
      )
      split (err x, w') e (same, taken) = inr (
        x,
        record { at = e ∙ ap (λ (v : World H). let r : Result ℕ × World H = (err x, v) in r) same },
        taken,
      )

  -- A released port is free again, and the other ports keep their state.
  pub contains-release :
      (w : World H) (p q : ℕ)
      → contains q (release_vnc_port p w).1.ports ≡ (if p == q then false else contains q w.ports)
  unfolding release_vnc_port
  contains-release w p q = contains-erase p q w.ports
