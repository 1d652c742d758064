-- ===== src/Fantasy/Game/Leagues.antt =====
-- executeJoinLeague and executeCreateLeague of TPE1/src/server/execute.c.
use so_tpe.Prelude.{
  ℕ, ◌+◌, ◌%◌, ◌^◌, Bool, true, false, none, some, List, [], map, length, get_elem?, ◌==◌,
  if◌then◌else◌,
}
use so_tpe.Fantasy.Game.{
  Player, User, Team, LeagueStatus, League, Game, cant_teams_max, Server, Outcome, done, fault,
  ◌>>=◌, lock, unlock, communicate, set_game, int_gt, same, find, add_to_list, modify,
}
use so_tpe.Fantasy.Game.Text
use so_tpe.Fantasy.Game.Answer.{refusal, success}

abbrev pub join_league_type : ℕ
join_league_type = 14

abbrev pub create_league_type : ℕ
create_league_type = 15

abbrev pub is_active : LeagueStatus → Bool
is_active LeagueStatus.active = true
is_active _ = false

-- A refusal inside the section that the mutex guards.
abbrev pub refuse : ℕ → List ℕ → Server → Outcome Server
refuse type text s = done (communicate (refusal type text s) (unlock s))

abbrev pub new_team : ℕ → List ℕ → Team
new_team id owner = record { id = id; owner = owner; points = 0; cant_players = 0; players = [] }

-- The new team in the league at `j`, and the league among those of the user at `i`.
unfoldable pub join : ℕ → ℕ → User → ℕ → Game → Game
join j i u input g =
    let id = (g.cant_teams + 1) % 2 ^ 32 in
    record g {
      cant_teams = id;
      leagues =
          modify j (λ l. record l { teams = add_to_list (new_team id u.user) l.teams }) g.leagues;
      users =
          modify i
            (λ v. record v {
              leagues_ids = add_to_list input v.leagues_ids;
              leagues = (v.leagues + 1) % 2 ^ 32;
            })
            g.users;
    }

-- The league is found at `j`.
unfoldable pub join_found : ℕ → ℕ → User → ℕ → League → Server → Outcome Server
join_found input i u j l s =
    if is_active l.status
    then refuse join_league_type Text.already_active s
    else if length l.teams == cant_teams_max
    then refuse join_league_type Text.league_full s
    else elim (find (λ t. same t.owner u.user) l.teams) [
      | some _ ↦ refuse join_league_type Text.already_belong_to_league s
      | none ↦ done (
          communicate (success join_league_type Text.successful_join s)
            (unlock (set_game (join j i u input s.game) s)))
    ]

-- With no league of that number it returns in the locked section, without an answer.
unfoldable pub join_locked : ℕ → ℕ → User → Server → Outcome Server
join_locked input i u s =
    if int_gt input (length s.game.leagues)
    then refuse join_league_type Text.incorrect_id s
    else elim (find (λ l. l.id == input) s.game.leagues) [
      | none ↦ done s
      | some (j, l) ↦ join_found input i u j l s
    ]

unfoldable pub execute_join_league : ℕ → Server → Outcome Server
execute_join_league input s = elim s.me [
  | none ↦ done (communicate (refusal join_league_type Text.no_logged s) s)
  | some i ↦ elim (get_elem? s.game.users i) [
    | none ↦ fault
    | some u ↦ lock s >>= join_locked input i u
  ]
]

-- The league before it has a number. `turn` is not written yet, and not read before a draft.
abbrev pub new_league : ℕ → List ℕ → List (List ℕ) → League
new_league id name players = record {
  id = id;
  name = name;
  status = LeagueStatus.inactive;
  cant_available_players = length players % 2 ^ 32;
  available_players = map (λ p. let q : Player = record { name = p; points = 0 } in q) players;
  teams = [];
  trades = [];
  cant_draft = 0;
  turn = [];
  answer = false;
}

-- `players` is what `loadPlayers` reads.
unfoldable pub execute_create_league : List (List ℕ) → List ℕ → Server → Outcome Server
execute_create_league players name s = elim s.me [
  | none ↦ done (communicate (refusal create_league_type Text.no_logged s) s)
  | some _ ↦ do
    s1 ← lock s
    let g = s1.game
    let league = new_league (length g.leagues + 1) name players
    let s2 = set_game (record g { leagues = add_to_list league g.leagues }) s1
    done (unlock (communicate (success create_league_type Text.successful_creation s) s2))
]
