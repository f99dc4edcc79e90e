-- ===== src/Api/Sockets/Rounds.antt =====
-- A broadcast whose coroutine waits in each round, with others that connect and disconnect between
-- the rounds. The loop of `ConnectionManager.broadcast` walks over the live list by position.
use knpodly.Base.{
  append_nil, length-append, ℕ, zero, suc, ◌≤◌, ◌≡◌, refl, sym, ap, ◌∙◌, Bool, Option, none, some,
  List, [], ◌∷◌, ◌++◌, where_rows, where_rows-append, length, arith, inl, inr, Bool-cases,
  if◌then◌else◌,
}

-- The socket at a position.
unfoldable pub nth : ℕ → List ℕ → Option ℕ
nth i [] = none
nth zero (x ∷ xs) = some x
nth (suc i) (x ∷ xs) = nth i xs

-- The sockets before a position.
unfoldable pub before : ℕ → List ℕ → List ℕ
before i [] = []
before zero (x ∷ xs) = []
before (suc i) (x ∷ xs) = x ∷ before i xs

pub record Round : Type 0 where
  -- the list of the channel
  pub sockets : List ℕ
  -- where the loop stands
  pub index : ℕ
  pub reached : List ℕ
  pub dead : List ℕ

-- The loop at its start.
abbrev pub start : List ℕ → Round
start sockets = record { sockets = sockets; index = 0; reached = []; dead = [] }

module _ (alive : ℕ → Bool) where
  -- A round of the loop: the message is sent to the socket at the position, or fails.
  abbrev pub sent : ℕ → Round → Round
  sent ws r = record r {
    index = suc r.index;
    reached = if alive ws then r.reached ++ ws ∷ [] else r.reached;
    dead = if alive ws then r.dead else r.dead ++ ws ∷ [];
  }

  -- Rounds of the loop, and connections that other coroutines make between them.
  pub data Grows (first : Round) : Round → Type 0 where
    here : Grows first first
    send :
        {r : Round} (ws : ℕ)
        → Grows first r
        → nth r.index r.sockets ≡ some ws
        → Grows first (sent ws r)
    joins :
        {r : Round} (ws : ℕ)
        → Grows first r
        → Grows first (record r { sockets = r.sockets ++ ws ∷ [] })

nth-before :
    (i : ℕ) (xs : List ℕ) (ws : ℕ) → nth i xs ≡ some ws → before (suc i) xs ≡ before i xs ++ ws ∷ []
unfolding nth before
nth-before i [] ws h = cc
nth-before zero (x ∷ []) ws h = cc
nth-before zero (x ∷ y ∷ xs) ws h = cc
nth-before (suc i) (x ∷ xs) ws h = ap (λ (l : List ℕ). x ∷ l) (nth-before i xs ws h)

nth_below : (i : ℕ) (xs : List ℕ) (ws : ℕ) → nth i xs ≡ some ws → suc i ≤ length xs
unfolding nth
nth_below i [] ws h = cc
nth_below zero (x ∷ xs) ws h = omega arith
nth_below (suc i) (x ∷ xs) ws h = omega (arith, nth_below i xs ws h)

before-append : (i : ℕ) (xs ys : List ℕ) → i ≤ length xs → before i (xs ++ ys) ≡ before i xs
unfolding before
before-append zero [] [] h = refl
before-append zero [] (y ∷ ys) h = refl
before-append (suc i) [] ys h = absurd (omega arith)
before-append zero (x ∷ xs) ys h = refl
before-append (suc i) (x ∷ xs) ys h =
    ap (λ (l : List ℕ). x ∷ l) (before-append i xs ys (omega arith))

before_end : (i : ℕ) (xs : List ℕ) → nth i xs ≡ none → before i xs ≡ xs
unfolding nth before
before_end i [] h = refl
before_end zero (x ∷ xs) h = cc
before_end (suc i) (x ∷ xs) h = ap (λ (l : List ℕ). x ∷ l) (before_end i xs h)

module _ (alive : ℕ → Bool) where
  -- What the rounds so far have reached.
  record Inv (r : Round) : Type 0 where
    within : r.index ≤ length r.sockets
    told : r.reached ≡ where_rows alive (before r.index r.sockets)

  Grows-Inv : (sockets : List ℕ) {r : Round} → Grows alive (start sockets) r → Inv r
  unfolding before
  Grows-Inv [] here = record { within = omega arith; told = refl }
  Grows-Inv (x ∷ sockets) here = record { within = omega arith; told = refl }
  Grows-Inv sockets (send {r} ws grows at) =
      let inv = Grows-Inv sockets grows in
      record {
        within = nth_below r.index r.sockets ws at;
        told = rw (nth-before r.index r.sockets ws at) (elim (Bool-cases (alive ws)) [
          | inl e ↦ rw (where_rows-append alive, e) (ap (λ (l : List ℕ). l ++ ws ∷ []) inv.told)
          | inr e ↦ rw (where_rows-append alive, e) (inv.told ∙ sym (append_nil _))
        ]);
      }
  Grows-Inv sockets (joins {r} ws grows) =
      let inv = Grows-Inv sockets grows in
      record {
        within = omega (arith, inv.within, length-append r.sockets (ws ∷ []));
        told = rw (before-append r.index r.sockets (ws ∷ []) inv.within) inv.told;
      }

  -- While no connection of the channel is taken away, a broadcast that has come to the end of its list
  -- has reached exactly the sockets that can be sent to among all that are then connected, in the
  -- order in which they connected: those that connected during the broadcast too.
  pub broadcast-growing :
      (sockets : List ℕ) (r : Round)
      → Grows alive (start sockets) r
      → nth r.index r.sockets ≡ none
      → r.reached ≡ where_rows alive r.sockets
  broadcast-growing sockets r grows done =
      (Grows-Inv sockets grows).told ∙ ap (where_rows alive) (before_end r.index r.sockets done)
