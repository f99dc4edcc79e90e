-- ===== src/Api/Sockets/Broadcast.antt =====
-- Whom a broadcast reaches, and which connections it keeps.
use knpodly.Base.{
  append_assoc, append_nil, ℕ, ◌≡◌, refl, sym, ap, ◌∙◌, String, Bool, true, false, not, List, [],
  ◌∷◌, ◌++◌, where_rows, contains, str_eq, eq_iff, ◌==◌, arith, inl, inr, Bool-cases, All, ==_iff,
  if◌then◌else◌,
}
use knpodly.Api.Sockets.{
  ConnectionManager, set_channel, remove_first, disconnect, disconnect_all, send_each, broadcast,
}

remove_first-absent : (ws : ℕ) (xs : List ℕ) → contains ws xs ≡ false → remove_first ws xs ≡ xs
unfolding remove_first
remove_first-absent ws [] h = refl
remove_first-absent ws (x ∷ xs) h = ground (arith, remove_first-absent ws xs)

-- The channel's list after `disconnect`, and the lists of the others.
pub disconnect-channel :
    (channel c : String) (ws : ℕ) (m : ConnectionManager)
    → disconnect channel ws m c ≡ (if str_eq channel c then remove_first ws (m channel) else m c)
unfolding disconnect set_channel
disconnect-channel channel c ws m = elim (Bool-cases (contains ws (m channel))) [
  | inl e ↦ rw e refl
  | inr e ↦ rw (e, remove_first-absent ws (m channel) e) (same (str_eq channel c) refl)
]
  where
    same : (b : Bool) → str_eq channel c ≡ b → m c ≡ (if b then m channel else m c)
    same true e = ap m (sym ((eq_iff channel c).0 e))
    same false e = refl

-- The list without the given sockets, one occurrence for each.
remove_all : List ℕ → List ℕ → List ℕ
remove_all [] xs = xs
remove_all (d ∷ dead) xs = remove_all dead (remove_first d xs)

disconnect_all-channel :
    (channel c : String) (dead : List ℕ) (m : ConnectionManager)
    → disconnect_all channel dead m c
      ≡ (if str_eq channel c then remove_all dead (m channel) else m c)
unfolding disconnect_all remove_all
disconnect_all-channel channel c [] m = elim (Bool-cases (str_eq channel c)) [
  | inl e ↦ rw e (ap m (sym ((eq_iff channel c).0 e)))
  | inr e ↦ rw e refl
]
disconnect_all-channel channel c (ws ∷ dead) m =
    disconnect_all-channel channel c dead (disconnect channel ws m)
    ∙ rw
        (
          disconnect-channel channel channel ws m,
          disconnect-channel channel c ws m,
          (eq_iff channel channel).1 refl,
        )
        (elim (Bool-cases (str_eq channel c)) [ inl e ↦ rw e refl | inr e ↦ rw e refl ])

module _ (alive : ℕ → Bool) where
  abbrev living : List ℕ → List ℕ
  living = where_rows alive

  abbrev dead_of : List ℕ → List ℕ
  dead_of = where_rows (λ ws. not (alive ws))

  send_each_lem :
      (xs sent dead : List ℕ)
      → send_each alive xs sent dead ≡ (sent ++ living xs, dead ++ dead_of xs)
  unfolding send_each
  send_each_lem [] sent dead = rw (append_nil sent, append_nil dead) refl
  send_each_lem (x ∷ xs) sent dead = elim (Bool-cases (alive x)) [
    | inl e ↦
        rw e (
          send_each_lem xs (sent ++ x ∷ []) dead ∙ rw (append_assoc sent (x ∷ []) (living xs)) refl)
    | inr e ↦
        rw e (
          send_each_lem xs sent (dead ++ x ∷ [])
          ∙ rw (append_assoc dead (x ∷ []) (dead_of xs)) refl)
  ]

  abbrev Dead : ℕ → Type 0
  Dead ws = alive ws ≡ false

  apart : (x d : ℕ) → alive x ≡ true → Dead d → (x == d) ≡ false
  apart x d e h = elim (Bool-cases (x == d)) [
    | inl same ↦ let both : x ≡ d = (==_iff x d).0 same in let bad = rw both at e in cc
    | inr other ↦ other
  ]

  -- A living head stays in front of what the removal of dead sockets leaves.
  keep_head :
      (x : ℕ) (dead xs : List ℕ)
      → alive x ≡ true
      → All Dead dead
      → remove_all dead (x ∷ xs) ≡ x ∷ remove_all dead xs
  unfolding remove_all remove_first
  keep_head x [] xs e h = refl
  keep_head x (d ∷ dead) xs e (h, hs) =
      rw (apart x d e h) (keep_head x dead (remove_first d xs) e hs)

  dead_of-All : (xs : List ℕ) → All Dead (dead_of xs)
  dead_of-All [] = tt
  dead_of-All (x ∷ xs) = elim (Bool-cases (alive x)) [
    | inl e ↦ rw e (dead_of-All xs)
    | inr e ↦ rw e (e, dead_of-All xs)
  ]

  remove_all-dead_of : (xs : List ℕ) → remove_all (dead_of xs) xs ≡ living xs
  unfolding remove_all remove_first
  remove_all-dead_of [] = refl
  remove_all-dead_of (x ∷ xs) = elim (Bool-cases (alive x)) [
    | inl e ↦ rw e (
        keep_head x (dead_of xs) xs e (dead_of-All xs)
        ∙ ap (λ (l : List ℕ). x ∷ l) (remove_all-dead_of xs))
    | inr e ↦ let own : (x == x) ≡ true = ground arith in rw (e, own) (remove_all-dead_of xs)
  ]

  -- A broadcast that no other coroutine interrupts reaches exactly the sockets of its channel that
  -- can be sent to, in the order in which they connected; these are the ones that the channel keeps,
  -- and the other channels keep all of theirs.
  pub broadcast-living :
      (channel : String) (m : ConnectionManager)
      → ((broadcast alive channel m).0 ≡ where_rows alive (m channel))
        × ((broadcast alive channel m).1 channel ≡ where_rows alive (m channel))
        × ((c : String) → str_eq channel c ≡ false → (broadcast alive channel m).1 c ≡ m c)
  unfolding broadcast
  broadcast-living channel m = rw (send_each_lem (m channel) [] []) (
    refl,
    disconnect_all-channel channel channel (dead_of (m channel)) m
        ∙ rw ((eq_iff channel channel).1 refl) (remove_all-dead_of (m channel)),
    λ c other. disconnect_all-channel channel c (dead_of (m channel)) m ∙ rw other refl,
  )
