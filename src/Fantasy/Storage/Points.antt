-- ===== src/Fantasy/Storage/Points.antt =====
-- The points of a match: updatePlayers of TPE1/src/IO/io.c, over the leagues of the game.
pub mod Totals
pub mod Awarded
use so_tpe.Prelude.{ℕ, ◌+◌, ◌%◌, ◌^◌, Bool, true, false, List, [], ◌∷◌, map, if◌then◌else◌}
use so_tpe.Fantasy.Game.{Player, Team, LeagueStatus, League, same}

-- `player->points += p->points`, for a player of that name.
unfoldable pub credit_player : Player → Player → Player
credit_player p q =
    if same p.name q.name then record q { points = (q.points + p.points) % 2 ^ 32 } else q

-- The team's points, while the loop goes over its players.
unfoldable pub points_after : Player → ℕ → List Player → ℕ
points_after p points [] = points
points_after p points (q ∷ qs) =
    points_after p (if same p.name q.name then (points + p.points) % 2 ^ 32 else points) qs

unfoldable pub credit_team : Player → Team → Team
credit_team p t = record t {
  points = points_after p t.points t.players;
  players = map (credit_player p) t.players;
}

abbrev pub is_active : LeagueStatus → Bool
is_active LeagueStatus.inactive = false
is_active LeagueStatus.drafting = false
is_active LeagueStatus.active = true

unfoldable pub credit_league : Player → League → League
credit_league p l =
    if is_active l.status
    then record l {
      available_players = map (credit_player p) l.available_players;
      teams = map (credit_team p) l.teams;
    }
    else l

-- `updatePlayers(l)`, on the leagues of the game.
unfoldable pub update_players : List Player → List League → List League
update_players [] leagues = leagues
update_players (p ∷ ps) leagues = update_players ps (map (credit_league p) leagues)
