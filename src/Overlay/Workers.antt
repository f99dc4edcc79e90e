-- ===== src/Overlay/Workers.antt =====
-- Several vm-worker replicas that allocate and release ports over the one Redis set, in any
-- interleaving of their reads, SADDs and SREMs.
use knpodly.Base.{ℕ, suc, ◌≡◌, ◌<◌, Bool, true, false, List, arith, contains, erase, contains-erase}
use native.Mathlib.Decide.{ℕ_discrete}
use mathlib.Core.Logic.{ite}
use knpodly.Overlay.{vnc_port_min, vnc_port_max, try_port}

-- Where a replica stands: outside of `allocate_vnc_port`, in its loop at `port` with the snapshot
-- it read, or with a port that it was given.
pub data Phase : Type 0 where
  idle : Phase
  scanning : (port : ℕ) (in_use : List ℕ) → Phase
  holding : (port : ℕ) → Phase

pub record Replicas : Type 0 where
  pub ports : List ℕ
  pub phase : ℕ → Phase

abbrev pub set_phase : (ℕ → Phase) → ℕ → Phase → ℕ → Phase
set_phase phase i p j = ite (ℕ_discrete i j) p (phase j)

-- The phase after one round of the loop: it returns the port, or goes on with the next one.
abbrev pub after_round : ℕ → List ℕ → Bool → Phase
after_round port in_use true = holding port
after_round port in_use false = scanning (suc port) in_use

-- The phase after the release of a port.
abbrev pub after_release : ℕ → Phase → Phase
after_release port idle = idle
after_release port (scanning p in_use) = scanning p in_use
after_release port (holding p) = ite (ℕ_discrete port p) idle (holding p)

pub data Step : Replicas → Replicas → Type 0 where
  -- SMEMBERS
  snapshot :
      (r : Replicas) (i : ℕ)
      → r.phase i ≡ idle
      → Step r (record r { phase = set_phase r.phase i (scanning vnc_port_min r.ports) })
  -- one round of the loop
  round :
      (r : Replicas) (i port : ℕ) (in_use : List ℕ)
      → r.phase i ≡ scanning port in_use
      → port < vnc_port_max
      → Step r (record {
        ports = (try_port in_use port r.ports).1;
        phase = set_phase r.phase i (after_round port in_use (try_port in_use port r.ports).0);
      })
  -- the range is exhausted, and RuntimeError is raised
  exhausted :
      (r : Replicas) (i : ℕ) (in_use : List ℕ)
      → r.phase i ≡ scanning vnc_port_max in_use
      → Step r (record r { phase = set_phase r.phase i idle })
  -- `release_vnc_port`, which takes any port out of the set; a replica that was given this port does
  -- not hold it any more
  release :
      (r : Replicas) (i port : ℕ)
      → Step r (record {
        ports = erase port r.ports;
        phase = set_phase r.phase i (after_release port (r.phase i));
      })

-- A replica releases no port but the one that it holds.
abbrev pub Careful : {r t : Replicas} → Step r t → Type 0
Careful (release r i port) = r.phase i ≡ holding port
Careful (snapshot r i e) = Unit
Careful (round r i port in_use e below) = Unit
Careful (exhausted r i in_use e) = Unit

-- The Redis set holds every port that a replica holds, and no two replicas hold one port.
pub record Inv (r : Replicas) : Type 0 where
  pub marked : (i p : ℕ) → r.phase i ≡ holding p → contains p r.ports ≡ true
  pub exclusive : (i j p : ℕ) → r.phase i ≡ holding p → r.phase j ≡ holding p → i ≡ j

round-marked :
    (in_use ports : List ℕ) (port p : ℕ)
    → contains p ports ≡ true
    → contains p (try_port in_use port ports).1 ≡ true
unfolding try_port
round-marked in_use ports port p h = ground arith

round-claims :
    (in_use ports : List ℕ) (port : ℕ)
    → (try_port in_use port ports).0 ≡ true
    → (contains port ports ≡ false) × (contains port (try_port in_use port ports).1 ≡ true)
unfolding try_port
round-claims in_use ports port h = ground arith

-- A replica that releases its own port is idle.
release-own : (port : ℕ) (p : Phase) → p ≡ holding port → after_release port p ≡ idle
release-own port p own = rw own (ground arith)

Step-Inv : {r t : Replicas} (step : Step r t) → Careful step → Inv r → Inv t
Step-Inv (snapshot r i e) careful v = record {
  marked = λ j p h. ground (arith, v.marked j p);
  exclusive = λ j k p h h'. ground (arith, v.exclusive j k p);
}
Step-Inv (round r i port in_use e below) careful v = record {
  marked = λ j p h.
      ground
        (arith, v.marked j p, round-marked in_use r.ports port p, round-claims in_use r.ports port);
  exclusive = λ j k p h h'.
      ground
        (arith, v.exclusive j k p, v.marked j p, v.marked k p, round-claims in_use r.ports port);
}
Step-Inv (exhausted r i in_use e) careful v = record {
  marked = λ j p h. ground (arith, v.marked j p);
  exclusive = λ j k p h h'. ground (arith, v.exclusive j k p);
}
Step-Inv (release r i port) own v = rw (release-own port (r.phase i) own) (record {
  marked =
      λ j p h. ground (arith, own, v.marked j p, v.exclusive i j p, contains-erase port p r.ports);
  exclusive = λ j k p h h'. ground (arith, v.exclusive j k p);
})

pub data Reach (r : Replicas) : Replicas → Type 0 where
  here : Reach r r
  next : {s t : Replicas} → Reach r s → Step s t → Reach r t

-- In all of its steps no replica releases a port but the one that it holds.
abbrev pub AllCareful : {r t : Replicas} → Reach r t → Type 0
AllCareful here = Unit
AllCareful (next reach step) = AllCareful reach × Careful step

Reach-Inv : {r t : Replicas} → Inv r → (reach : Reach r t) → AllCareful reach → Inv t
Reach-Inv v here careful = v
Reach-Inv v (next reach step) careful = Step-Inv step careful.1 (Reach-Inv v reach careful.0)

-- No replica has taken a port yet; the set may hold ports of VMs that run already.
abbrev pub start : List ℕ → Replicas
start ports = record { ports = ports; phase = λ i. idle }

start-Inv : (ports : List ℕ) → Inv (start ports)
start-Inv ports = record { marked = λ i p h. cc; exclusive = λ i j p h h'. cc }

-- From a state where no replica holds a port, however their reads, claims and releases interleave,
-- as long as each replica releases only a port that it holds, two replicas that hold one port are the
-- same, and that port is in the Redis set. `release_vnc_port` itself does not check this: the stop of
-- a session that is closed already releases a port that another one may hold.
pub exclusive_ports :
    {ports : List ℕ} {r : Replicas} (i j p : ℕ) (reach : Reach (start ports) r)
    → AllCareful reach
    → r.phase i ≡ holding p
    → r.phase j ≡ holding p
    → (i ≡ j) × (contains p r.ports ≡ true)
exclusive_ports {ports} i j p reach careful at_i at_j =
    let v = Reach-Inv (start-Inv ports) reach careful in
    (v.exclusive i j p at_i at_j, v.marked i p at_i)
