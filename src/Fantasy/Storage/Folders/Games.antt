-- ===== src/Fantasy/Storage/Folders/Games.antt =====
-- The whole game from its folders: loadUsers, loadLeagues and loadGame of TPE1/src/IO/io.c.
use so_tpe.Prelude.{
  ℕ, ◌+◌, ◌%◌, ◌^◌, Option, some, List, [], ◌∷◌, ◌++◌, length, ◌>>=◌, if◌then◌else◌,
}
use so_tpe.Fantasy.Game.{User, League, Game}
use so_tpe.Fantasy.Game.Text.{codes}
use so_tpe.Fantasy.Storage.Objects.{load_user}
use so_tpe.Fantasy.Storage.Folders.{
  Entry, Files, LeagueFolder, is_dismissed, create_file_path, open_file, load_league,
}

-- Every regular file is a user, whatever its extension.
unfoldable pub load_user_entry : ℕ → Entry Unit → Option (List User)
load_user_entry n (Entry.file name bytes) =
    if is_dismissed name
    then some []
    else (do path ← create_file_path n name; u ← open_file load_user bytes; some (u ∷ []))
load_user_entry n (Entry.folder name inside) =
    if is_dismissed name then some [] else (do path ← create_file_path n name; some [])

unfoldable pub load_users : ℕ → Files → Option (List User)
load_users n [] = some []
load_users n (e ∷ es) = do here ← load_user_entry n e; rest ← load_users n es; some (here ++ rest)

-- Every folder is a league.
unfoldable pub load_leagues_entry : ℕ → Entry LeagueFolder → Option (List League)
load_leagues_entry n (Entry.file name bytes) =
    if is_dismissed name then some [] else (do path ← create_file_path n name; some [])
load_leagues_entry n (Entry.folder name inside) = if is_dismissed name then some [] else (do
  path ← create_file_path n name
  path' ← create_file_path path (codes "/")
  l ← load_league path' inside
  some (l ∷ []))

unfoldable pub load_leagues : ℕ → List (Entry LeagueFolder) → Option (List League)
load_leagues n [] = some []
load_leagues n (e ∷ es) = do
  here ← load_leagues_entry n e
  rest ← load_leagues n es
  some (here ++ rest)

-- The two sums over the leagues, of 32 bits.
unfoldable pub count_teams : List League → ℕ
count_teams [] = 0
count_teams (l ∷ ls) = (length l.teams + count_teams ls) % 2 ^ 32

unfoldable pub count_trades : List League → ℕ
count_trades [] = 0
count_trades (l ∷ ls) = (length l.trades + count_trades ls) % 2 ^ 32

-- The folders "./res/users/" and "./res/leagues/", both of which are there.
unfoldable pub load_game : Files → List (Entry LeagueFolder) → Option Game
load_game users leagues = do
  us ← load_users 12 users
  ls ← load_leagues 14 leagues
  some (record {
    users = us;
    leagues = ls;
    logged_users = [];
    cant_teams = count_teams ls;
    cant_trades = count_trades ls;
  })
