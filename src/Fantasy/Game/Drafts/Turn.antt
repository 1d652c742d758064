-- ===== src/Fantasy/Game/Drafts/Turn.antt =====
-- Whose turn it is in a draft.
use so_tpe.Prelude.{
  ℕ, zero, suc, ◌≡◌, refl, inl, inr, true, false, some, List, [], ◌∷◌, map, arith, get_elem?,
  Bool-cases,
}
use so_tpe.Fantasy.Game.{Team, League, same}
use so_tpe.Fantasy.Game.Names.{same_refl, eq_of_same, same_sym, has, Distinct}
use so_tpe.Fantasy.Game.Drafts.Coordinator.{
  next_owner, change_turn, all_full, check_status, wait_answer, coordinator_round,
}

-- The owner of the team behind position `k`, or `first`.
abbrev pub follower : List ℕ → List Team → ℕ → List ℕ
follower first [] k = first
follower first (t ∷ []) zero = first
follower first (t ∷ u ∷ ts) zero = u.owner
follower first (t ∷ ts) (suc k) = follower first ts k

has-get_elem? :
    (k : List ℕ) (ts : List Team) (i : ℕ) {t : Team}
    → has k (map (λ t. t.owner) ts) ≡ false
    → get_elem? ts i ≡ some t
    → same t.owner k ≡ false
has-get_elem? k [] i n e = absurd cc
has-get_elem? k (x ∷ ts) zero {t} n e = let f : x ≡ t = cc in rw (← f) (ground arith)
has-get_elem? k (x ∷ ts) (suc i) n e = has-get_elem? k ts i (ground arith) e

next_owner-follower :
    (first : List ℕ) (ts : List Team) (k : ℕ) {t : Team}
    → get_elem? ts k ≡ some t
    → Distinct (map (λ t. t.owner) ts)
    → next_owner first t.owner ts ≡ some (follower first ts k)
unfolding next_owner
next_owner-follower first [] k e d = absurd cc
next_owner-follower first (x ∷ []) zero {t} e d =
    let f : x ≡ t = cc in rw (← f, same_refl x.owner) refl
next_owner-follower first (x ∷ []) (suc k) e d = absurd cc
next_owner-follower first (x ∷ u ∷ ts) zero {t} e d =
    let f : x ≡ t = cc in rw (← f, same_refl x.owner) refl
next_owner-follower first (x ∷ u ∷ ts) (suc k) {t} e d =
    let f = has-get_elem? x.owner (u ∷ ts) k d.0 e in
    rw (same_sym x.owner t.owner, f) (next_owner-follower first (u ∷ ts) k e d.1)

-- In a league whose teams have different owners the turn goes from the owner of a team to that of
-- the next one, and from the last to the first; nothing else of the league changes.
pub change_turn-follower :
    (l : League) (first : Team) (ts : List Team) (k : ℕ) {t : Team}
    → l.teams ≡ first ∷ ts
    → get_elem? (first ∷ ts) k ≡ some t
    → same t.owner l.turn ≡ true
    → Distinct (map (λ t. t.owner) (first ∷ ts))
    → change_turn l ≡ some (record l { turn = follower first.owner (first ∷ ts) k })
unfolding change_turn
change_turn-follower l first ts k {t} is at turn d =
    let n = next_owner-follower first.owner (first ∷ ts) k at d in
    let o : t.owner ≡ l.turn = eq_of_same t.owner l.turn turn in simp (is, ← o, n, change_turn) refl

check_status-turn : (l : League) → (check_status l).turn ≡ l.turn
unfolding check_status
check_status-turn l = elim (Bool-cases (all_full l.teams)) [ inl e ↦ rw e refl | inr e ↦ rw e refl ]

-- When the answer comes while the coordinator sleeps, the round does not pass the turn: it ends
-- with the league as the others left it, but for its status.
pub coordinator_round-answered :
    (others : ℕ → League → League) (number : ℕ) (l : League)
    → (others 0 (record l { answer = false })).answer ≡ true
    → coordinator_round others number l
      ≡ some (check_status (others 0 (record l { answer = false })))
unfolding coordinator_round wait_answer
coordinator_round-answered others number l answered = simp answered refl
