-- ===== src/Fantasy/Storage/Points/Awarded.antt =====
-- A match as one pass over the leagues: updatePlayers of TPE1/src/IO/io.c.
use so_tpe.Prelude.{
  ℕ, ◌+◌, ◌%◌, ◌^◌, ◌<◌, ◌≡◌, refl, sym, ap, ◌∙◌, inl, inr, List, [], ◌∷◌, map, arith, All,
  Bool-cases,
}
use so_tpe.Fantasy.Game.{Player, Team, League, same}
use so_tpe.Fantasy.Storage.Points.{
  credit_player, points_after, credit_team, is_active, credit_league, update_players,
}
use so_tpe.Fantasy.Storage.Points.Totals.{
  total, total_of, award_player, award_team, award_league, map-map, map-same,
  award_league-credit_league,
}

-- All points are the patterns of an `int`.
abbrev pub IsPlayerWord : Player → Type 0
IsPlayerWord q = q.points < 2 ^ 32

abbrev pub IsTeamWord : Team → Type 0
IsTeamWord t = (t.points < 2 ^ 32) × All IsPlayerWord t.players

abbrev pub IsLeagueWord : League → Type 0
IsLeagueWord l = All IsPlayerWord l.available_players × All IsTeamWord l.teams

All-map {ℓ κ} :
    {A : Type ℓ} (P : A → Type κ) (f : A → A)
    → ((x : A) → P x → P (f x))
    → (xs : List A) → All P xs
    → All P (map f xs)
All-map P f g [] h = tt
All-map P f g (x ∷ xs) (h, hs) = (g x h, All-map P f g xs hs)

All-weaken {ℓ κ μ} :
    {A : Type ℓ} (P : A → Type κ) (Q : A → Type μ)
    → ((x : A) → P x → Q x)
    → (xs : List A) → All P xs
    → All Q xs
All-weaken P Q g [] h = tt
All-weaken P Q g (x ∷ xs) (h, hs) = (g x h, All-weaken P Q g xs hs)

credit_player-IsPlayerWord : (p q : Player) → IsPlayerWord q → IsPlayerWord (credit_player p q)
unfolding credit_player
credit_player-IsPlayerWord p q h = elim (Bool-cases (same p.name q.name)) [
  | inl e ↦ rw e (omega arith)
  | inr e ↦ rw e h
]

points_after-lt :
    (p : Player) (points : ℕ) (qs : List Player)
    → points < 2 ^ 32
    → points_after p points qs < 2 ^ 32
unfolding points_after
points_after-lt p points [] h = h
points_after-lt p points (q ∷ qs) h = elim (Bool-cases (same p.name q.name)) [
  | inl e ↦ rw e (points_after-lt p ((points + p.points) % 2 ^ 32) qs (omega arith))
  | inr e ↦ rw e (points_after-lt p points qs h)
]

credit_team-IsTeamWord : (p : Player) (t : Team) → IsTeamWord t → IsTeamWord (credit_team p t)
unfolding credit_team
credit_team-IsTeamWord p t (h, hs) = (
  points_after-lt p t.points t.players h,
  All-map IsPlayerWord (credit_player p) (credit_player-IsPlayerWord p) t.players hs,
)

credit_league-IsLeagueWord :
    (p : Player) (l : League) → IsLeagueWord l → IsLeagueWord (credit_league p l)
unfolding credit_league
credit_league-IsLeagueWord p l (h, g) = elim (Bool-cases (is_active l.status)) [
  | inl e ↦ rw e (
    All-map IsPlayerWord (credit_player p) (credit_player-IsPlayerWord p) l.available_players h,
    All-map IsTeamWord (credit_team p) (credit_team-IsTeamWord p) l.teams g,
  )
  | inr e ↦ rw e (h, g)
]

total_of-nil : (qs : List Player) → total_of [] qs ≡ 0
unfolding total_of total
total_of-nil [] = refl
total_of-nil (q ∷ qs) = rw (total_of-nil qs) (omega arith)

award_player-nil : (q : Player) → IsPlayerWord q → award_player [] q ≡ q
unfolding award_player total
award_player-nil q h = ap (λ n. record q { points = n }) (omega arith)

award_team-nil : (t : Team) → IsTeamWord t → award_team [] t ≡ t
unfolding award_team
award_team-nil t (h, hs) =
    let e = total_of-nil t.players in
    let d =
      map-same (award_player []) t.players
        (All-weaken IsPlayerWord (λ q. award_player [] q ≡ q) award_player-nil t.players hs) in
    rw d (ap (λ n. record t { points = n }) (omega arith))

award_league-nil : (l : League) → IsLeagueWord l → award_league [] l ≡ l
unfolding award_league
award_league-nil l (h, g) =
    let d = map-same (award_player []) l.available_players (
      All-weaken IsPlayerWord (λ q. award_player [] q ≡ q) award_player-nil l.available_players
        h) in
    let c =
      map-same (award_team []) l.teams
        (All-weaken IsTeamWord (λ t. award_team [] t ≡ t) award_team-nil l.teams g) in
    elim (Bool-cases (is_active l.status)) [ inl e ↦ rw (e, d, c) refl | inr e ↦ rw e refl ]

-- The loops of updatePlayers, where the points are 32-bit patterns, are one pass that adds, in each
-- active league, to every player the points that the match gives its name, and to every team those
-- of the names of its players, modulo 2^32.
pub update_players-award :
    (ps : List Player) (leagues : List League)
    → All IsLeagueWord leagues
    → update_players ps leagues ≡ map (award_league ps) leagues
unfolding update_players
update_players-award [] leagues h = sym (
    map-same (award_league []) leagues
      (All-weaken IsLeagueWord (λ l. award_league [] l ≡ l) award_league-nil leagues h))
update_players-award (p ∷ ps) leagues h =
    update_players-award ps (map (credit_league p) leagues)
      (All-map IsLeagueWord (credit_league p) (credit_league-IsLeagueWord p) leagues h)
    ∙ map-map (award_league ps) (credit_league p) (award_league (p ∷ ps))
        (award_league-credit_league p ps) leagues
