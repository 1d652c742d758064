-- ===== src/Fantasy/Game/Drafts/Pool.antt =====
-- The players of a league in a draft: they change hands and are neither lost nor made.
use so_tpe.Prelude.{
  ℕ, zero, suc, ◌+◌, ◌%◌, ◌^◌, ◌≡◌, refl, sym, ap, Bool, ◌∙◌, inl, inr, true, none, some, List, [],
  ◌∷◌, ◌==◌, arith, length, get_elem?, Bool-cases, Option-cases, not,
}
use so_tpe.Fantasy.Game.{
  Player, User, Team, League, Server, done, communicate, same, find, remove_at, add_to_list, modify,
}
use so_tpe.Fantasy.Game.Names.{find-get_elem?}
use so_tpe.Fantasy.Game.Trades.{find_player}
use so_tpe.Fantasy.Game.Drafts.{assign, choose_player, set_league}
use so_tpe.Fantasy.Game.Steps.Ends.{Ends}
use so_tpe.Fantasy.Game.Returns.{IsDone, IsDone-if, done_of}
use so_tpe.Fantasy.Game.Steps.Cancels.{get_elem?-modify}
use so_tpe.Fantasy.Game.Drafts.Coordinator.{next_owner, change_turn, auto_asign}

-- What the players weigh together, when each weighs `w`.
abbrev pub weight : (Player → ℕ) → List Player → ℕ
weight w [] = 0
weight w (p ∷ ps) = w p + weight w ps

abbrev pub team_weight : (Player → ℕ) → List Team → ℕ
team_weight w [] = 0
team_weight w (t ∷ ts) = weight w t.players + team_weight w ts

-- The available players and those of the teams.
abbrev pub pool : (Player → ℕ) → League → ℕ
pool w l = weight w l.available_players + team_weight w l.teams

weight-add :
    (w : Player → ℕ) (p : Player) (ps : List Player)
    → weight w (add_to_list p ps) ≡ weight w ps + w p
weight-add w p [] = omega arith
weight-add w p (q ∷ ps) = ground (arith, weight-add w p ps)

weight-remove :
    (w : Player → ℕ) (i : ℕ) (ps : List Player) {p : Player}
    → get_elem? ps i ≡ some p
    → weight w (remove_at i ps) + w p ≡ weight w ps
unfolding remove_at
weight-remove w i [] e = absurd cc
weight-remove w zero (q ∷ ps) {p} e =
    let f : q ≡ p = cc in let g : w q ≡ w p = ap w f in omega arith
weight-remove w (suc i) (q ∷ ps) e = ground (arith, weight-remove w i ps e)

take_player : Player → Team → Team
take_player p t = record t {
  players = add_to_list p t.players;
  cant_players = (t.cant_players + 1) % 2 ^ 32;
}

team_weight-take :
    (w : Player → ℕ) (k : ℕ) (p : Player) (ts : List Team) {t : Team}
    → get_elem? ts k ≡ some t
    → team_weight w (modify k (take_player p) ts) ≡ team_weight w ts + w p
unfolding modify take_player
team_weight-take w k p [] e = absurd cc
team_weight-take w zero p (t ∷ ts) e = ground (arith, weight-add w p t.players)
team_weight-take w (suc k) p (t ∷ ts) e = ground (arith, team_weight-take w k p ts e)

pub assign-pool :
    (w : Player → ℕ) (i : ℕ) (p : Player) (k : ℕ) (l : League) {t : Team}
    → get_elem? l.available_players i ≡ some p
    → get_elem? l.teams k ≡ some t
    → pool w (assign i p k l) ≡ pool w l
unfolding assign take_player
assign-pool w i p k l e f =
    let a = weight-remove w i l.available_players e in
    let b = team_weight-take w k p l.teams f in ground arith

nothing : {r : League} → none ≡ some r → ⊥
nothing e = cc

change_turn-pool :
    (w : Player → ℕ) (l : League) (ts : List Team) {l' : League}
    → l.teams ≡ ts
    → change_turn l ≡ some l'
    → pool w l' ≡ pool w l
unfolding change_turn
change_turn-pool w l [] is e = absurd (nothing (rw (is, change_turn) at e))
change_turn-pool w l (t ∷ ts) {l'} is e = elim (Option-cases (next_owner t.owner l.turn (t ∷ ts))) [
  | inl n ↦ absurd (nothing (rw (is, n, change_turn) at e))
  | inr (owner, n) ↦
      let f : some (record l { teams = t ∷ ts; turn = owner }) ≡ some l' =
        simp (is, n, change_turn) at e in
      let g : record l { teams = t ∷ ts; turn = owner } ≡ l' = cc in
      ap (pool w) (sym g) ∙ ap (λ x. weight w l.available_players + team_weight w x) (sym is)
]

assigned-pool :
    (w : Player → ℕ) (n : ℕ) (p : Player) (k : ℕ) (l : League) {l' : League} {t : Team}
    → get_elem? l.available_players n ≡ some p
    → get_elem? l.teams k ≡ some t
    → change_turn (assign n p k l) ≡ some l'
    → pool w l' ≡ pool w l
assigned-pool w n p k l {l'} at_player at_team e =
    change_turn-pool w (assign n p k l) (assign n p k l).teams refl e
    ∙ assign-pool w n p k l at_player at_team

-- When the coordinator assigns a player, what all the players of the league weigh, available or in
-- a team and whatever each weighs, stays the same.
pub auto_asign-pool :
    (w : Player → ℕ) (number : ℕ) (l l' : League)
    → auto_asign number l ≡ some l'
    → pool w l' ≡ pool w l
unfolding auto_asign
auto_asign-pool w number l l' e =
    let n = number % length l.available_players in
    elim (Bool-cases (length l.available_players == 0)) [
      | inl empty ↦ absurd (nothing (simp (empty, auto_asign) at e))
      | inr more ↦ elim (Option-cases (find (λ t. same l.turn t.owner) l.teams)) [
        | inl no_team ↦ absurd (nothing (simp (more, no_team, auto_asign) at e))
        | inr ((k, t), f) ↦ elim (Option-cases (get_elem? l.available_players n)) [
          | inl no_player ↦ absurd (nothing (simp (more, f, no_player, auto_asign) at e))
          | inr (p, g) ↦
              assigned-pool w n p k l g (find-get_elem? (λ t. same l.turn t.owner) l.teams f).0
                (simp (more, f, g, auto_asign) at e)
        ]
      ]
    ]

player_at :
    (name : List ℕ) (ps : List Player) {i : ℕ} {p : Player}
    → find_player name ps ≡ some (i, p)
    → get_elem? ps i ≡ some p
unfolding find_player
player_at name ps e = (find-get_elem? (λ p. same p.name name) ps e).0

-- The league at a position has players of the same weight as `l`.
abbrev pub SamePool : (Player → ℕ) → ℕ → League → Server × Bool → Type 0
SamePool w j l (s, flag) =
    (l' : League) × (get_elem? s.game.leagues j ≡ some l') × (pool w l' ≡ pool w l)

-- So it is when a choice returns.
choose_player-SamePool :
    (w : Player → ℕ) (name : List ℕ) (flag : Bool) (u : User) (j : ℕ) (l : League) (s : Server)
    → get_elem? s.game.leagues j ≡ some l
    → Ends (SamePool w j l) (choose_player name flag u j l s)
unfolding choose_player set_league communicate
choose_player-SamePool w name flag u j l s is = elim (Bool-cases (same l.turn u.user)) [
  | inr not_yours ↦ rw not_yours (l, is, refl)
  | inl yours ↦ rw yours (elim (Option-cases (find_player name l.available_players)) [
    | inl none_such ↦ rw none_such (l, is, refl)
    | inr ((p, player), f) ↦ rw f (elim (Option-cases (find (λ t. same t.owner u.user) l.teams)) [
      | inl no_team ↦ rw no_team tt
      | inr ((k, t), g) ↦ rw g (
        record (assign p player k l) { answer = true },
        get_elem?-modify j (λ x. record (assign p player k x) { answer = true }) s.game.leagues is,
        assign-pool w p player k l (player_at name l.available_players f)
            (find-get_elem? (λ t. same t.owner u.user) l.teams g).0,
      )
    ])
  ])
]

choose_player-IsDone :
    (name : List ℕ) (flag : Bool) (u : User) (j : ℕ) (l : League) (s : Server) (k : ℕ) (t : Team)
    → find (λ t. same t.owner u.user) l.teams ≡ some (k, t)
    → IsDone (choose_player name flag u j l s)
unfolding choose_player
choose_player-IsDone name flag u j l s k t team =
    IsDone-if (not (same l.turn u.user)) _ _ tt
      (elim (Option-cases (find_player name l.available_players)) [
        | inl none_such ↦ rw none_such tt
        | inr (_, f) ↦ rw (f, team) tt
      ])

-- A choice in a draft, by a user with a team in the league, returns. Whether it is refused or a
-- player goes from the available ones to a team: what all the players of the league weigh,
-- whatever each weighs, stays the same.
pub choose_player-pool :
    (w : Player → ℕ) (name : List ℕ) (flag : Bool) (u : User) (j : ℕ) (l : League) (s : Server)
    (k : ℕ) (t : Team)
    → get_elem? s.game.leagues j ≡ some l
    → find (λ t. same t.owner u.user) l.teams ≡ some (k, t)
    → (r : Server × Bool) × (choose_player name flag u j l s ≡ done r) × SamePool w j l r
choose_player-pool w name flag u j l s k t is team =
    let (r, e) =
      done_of (choose_player name flag u j l s) (choose_player-IsDone name flag u j l s k t team) in
    (r, e, rw e at (choose_player-SamePool w name flag u j l s is))
