-- ===== src/Fantasy/Storage/Points/Totals.antt =====
-- What a match adds to each player and to each team: updatePlayers of TPE1/src/IO/io.c.
use so_tpe.Prelude.{
  ℕ, ◌+◌, ◌%◌, ◌^◌, ◌≡◌, refl, ap, inl, inr, List, [], ◌∷◌, map, arith, All, if◌then◌else◌,
  Bool-cases,
}
use so_tpe.Fantasy.Game.{Player, Team, League, same}
use so_tpe.Fantasy.Storage.Points.{
  credit_player, points_after, credit_team, is_active, credit_league,
}

-- The points that a match gives to a name.
unfoldable pub total : List Player → List ℕ → ℕ
total [] name = 0
total (p ∷ ps) name = (if same p.name name then p.points else 0) + total ps name

-- The points that a match gives to the names of some players.
unfoldable pub total_of : List Player → List Player → ℕ
total_of ps [] = 0
total_of ps (q ∷ qs) = total ps q.name + total_of ps qs

-- The leagues after a match: the active ones with the totals added.
unfoldable pub award_player : List Player → Player → Player
award_player ps q = record q { points = (q.points + total ps q.name) % 2 ^ 32 }

unfoldable pub award_team : List Player → Team → Team
award_team ps t = record t {
  points = (t.points + total_of ps t.players) % 2 ^ 32;
  players = map (award_player ps) t.players;
}

unfoldable pub award_league : List Player → League → League
award_league ps l =
    if is_active l.status
    then record l {
      available_players = map (award_player ps) l.available_players;
      teams = map (award_team ps) l.teams;
    }
    else l

award_player-credit_player :
    (p : Player) (ps : List Player) (q : Player)
    → award_player ps (credit_player p q) ≡ award_player (p ∷ ps) q
unfolding award_player credit_player total
award_player-credit_player p ps q = elim (Bool-cases (same p.name q.name)) [
  | inl e ↦ rw e (ap (λ n. record q { points = n }) (omega arith))
  | inr e ↦ rw e (ap (λ n. record q { points = n }) (omega arith))
]

total_of-cons :
    (p : Player) (ps qs : List Player) (points : ℕ)
    → (points_after p points qs + total_of ps (map (credit_player p) qs)) % 2 ^ 32
      ≡ (points + total_of (p ∷ ps) qs) % 2 ^ 32
unfolding points_after total_of total credit_player
total_of-cons p ps [] points = refl
total_of-cons p ps (q ∷ qs) points = elim (Bool-cases (same p.name q.name)) [
  | inl e ↦ let h = total_of-cons p ps qs ((points + p.points) % 2 ^ 32) in rw e (omega arith)
  | inr e ↦ let h = total_of-cons p ps qs points in rw e (omega arith)
]

pub map-map {ℓ} :
    {A : Type ℓ} (f g h : A → A)
    → ((x : A) → f (g x) ≡ h x)
    → (xs : List A) → map f (map g xs) ≡ map h xs
map-map f g h e [] = refl
map-map f g h e (x ∷ xs) = rw (e x, map-map f g h e xs) refl

pub map-same {ℓ} : {A : Type ℓ} (f : A → A) (xs : List A) → All (λ x. f x ≡ x) xs → map f xs ≡ xs
map-same f [] e = refl
map-same f (x ∷ xs) (e, d) = rw (e, map-same f xs d) refl

map_players :
    (p : Player) (ps qs : List Player)
    → map (award_player ps) (map (credit_player p) qs) ≡ map (award_player (p ∷ ps)) qs
map_players p ps =
    map-map (award_player ps) (credit_player p) (award_player (p ∷ ps))
      (award_player-credit_player p ps)

award_team-credit_team :
    (p : Player) (ps : List Player) (t : Team)
    → award_team ps (credit_team p t) ≡ award_team (p ∷ ps) t
unfolding award_team credit_team
award_team-credit_team p ps t =
    rw (map_players p ps t.players, total_of-cons p ps t.players t.points) refl

pub award_league-credit_league :
    (p : Player) (ps : List Player) (l : League)
    → award_league ps (credit_league p l) ≡ award_league (p ∷ ps) l
unfolding award_league credit_league
award_league-credit_league p ps l = elim (Bool-cases (is_active l.status)) [
  | inl e ↦ rw e (
      rw e (
        rw
          (
            map_players p ps l.available_players,
            map-map (award_team ps) (credit_team p) (award_team (p ∷ ps))
                (award_team-credit_team p ps) l.teams,
          )
          refl))
  | inr e ↦ rw e (rw e refl)
]
