-- ===== src/Fantasy/Storage/Folders.antt =====
-- The folders of the saved game: loadUsers, loadTeams, loadTrades, loadLeague, loadLeagues and loadGame,
-- with saveUser, saveTeam, saveTrade and saveLeague, of TPE1/src/IO/io.c.
--
-- A folder is the list of its entries, in the order in which readdir gives them. A folder that a
-- league needs and that is not there is never read, and its list is then used with no value: `none`.
pub mod Listing
pub mod Saved
pub mod Files
pub mod Restored
pub mod Leagues
pub mod Games
pub mod Users
pub mod Whole
use so_tpe.Prelude.{
  ℕ, zero, suc, ◌+◌, Bool, true, false, ◌||◌, Option, none, some, List, [], ◌∷◌, ◌++◌, ◌==◌, ltb,
  length, ◌>>=◌, if◌then◌else◌,
}
use so_tpe.Fantasy.Game.{User, Trade, Team, League, Game, same}
use so_tpe.Fantasy.Game.Answer.{decimal}
use so_tpe.Fantasy.Game.Text.{codes}
use so_tpe.Fantasy.Storage.{Reader, Reads, buffer_size}
use so_tpe.Fantasy.Storage.Objects.{
  load_user, load_trade, load_team, load_league_file, reverse, user_to_string, trade_to_string,
  team_to_string, league_to_string,
}

-- A regular file with its bytes, or a folder with what the program reads of it.
pub data Entry (A : Type 0) : Type 0 where
  file : (name bytes : List ℕ) → Entry A
  folder : (name : List ℕ) (inside : A) → Entry A

-- Of the folders of teams and trades only the files are read.
abbrev pub Files : Type 0
Files = List (Entry Unit)

abbrev pub LeagueFolder : Type 0
LeagueFolder = List (Entry Files)

-- `!dismissWrongFiles(entry)`
abbrev pub is_dismissed : List ℕ → Bool
is_dismissed [] = false
is_dismissed (c ∷ name) = c == 46

-- The name and the extension from their last bytes; a name that is over before the extension is read
-- out of its bounds.
abbrev pub ends_in : List ℕ → List ℕ → Option Bool
ends_in [] name = some true
ends_in (e ∷ ext) [] = none
ends_in (e ∷ ext) (c ∷ name) = let rest = ends_in ext name in if c == e then rest else some false

unfoldable pub is_ext : List ℕ → List ℕ → Option Bool
is_ext name ext = ends_in (reverse ext) (reverse name)

-- `createFilePath`, for a path of `n` bytes: the length of the joined path, which with its NUL overflows
-- the buffer if it is not below `BUFFER_SIZE`.
unfoldable pub create_file_path : ℕ → List ℕ → Option ℕ
create_file_path n name = if ltb (n + length name) buffer_size then some (n + length name) else none

-- What a loader makes of the bytes of a file.
unfoldable pub open_file {ℓ} : {A : Type ℓ} → (Reader → Option (A × Reader)) → List ℕ → Option A
open_file m bytes = do (a, r) ← m (record { aux = none; rest = bytes }); some a

-- loadTeams and loadTrades, for an extension and a loader, and the length of the path.
module _ {A : Type 0} (ext : List ℕ) (load : Reads A) (n : ℕ) where
  unfoldable pub load_entry : Entry Unit → Option (List A)
  load_entry (Entry.file name bytes) = if is_dismissed name then some [] else (do
    path ← create_file_path n name
    wanted ← is_ext name ext
    if wanted then (do a ← open_file load bytes; some (a ∷ [])) else some [])
  load_entry (Entry.folder name inside) =
      if is_dismissed name then some [] else (do path ← create_file_path n name; some [])

  unfoldable pub load_entries : Files → Option (List A)
  load_entries [] = some []
  load_entries (e ∷ es) = do here ← load_entry e; rest ← load_entries es; some (here ++ rest)

unfoldable pub load_teams : ℕ → Files → Option (List Team)
load_teams = load_entries (codes "team") load_team

unfoldable pub load_trades : ℕ → Files → Option (List Trade)
load_trades = load_entries (codes "trade") load_trade

-- What loadLeague has found: the file of the league, its teams and its trades.
pub record Found : Type 0 where
  pub league : Option League
  pub teams : Option (List Team)
  pub trades : Option (List Trade)

unfoldable pub load_league_entry : ℕ → Found → Entry Files → Option Found
load_league_entry n f (Entry.file name bytes) = if is_dismissed name then some f else (do
  path ← create_file_path n name
  wanted ← is_ext name (codes "league")
  if wanted
      then (do l ← open_file load_league_file bytes; some (record f { league = some l }))
      else some f)
load_league_entry n f (Entry.folder name inside) = if is_dismissed name then some f else (do
  path ← create_file_path n name
  teams ← is_ext name (codes "teams")
  if teams
      then (do
        path' ← create_file_path path (codes "/")
        ts ← load_teams path' inside
        some (record f { teams = some ts }))
      else (do
        trades ← is_ext name (codes "trades")
        if trades
            then (do
              path' ← create_file_path path (codes "/")
              ts ← load_trades path' inside
              some (record f { trades = some ts }))
            else some f))

unfoldable pub load_league_entries : ℕ → Found → LeagueFolder → Option Found
load_league_entries n f [] = some f
load_league_entries n f (e ∷ es) = do f' ← load_league_entry n f e; load_league_entries n f' es

unfoldable pub load_league : ℕ → LeagueFolder → Option League
load_league n es = do
  f ← load_league_entries n (record { league = none; teams = none; trades = none }) es
  l ← f.league
  teams ← f.teams
  trades ← f.trades
  some (record l { teams = teams; trades = trades })
