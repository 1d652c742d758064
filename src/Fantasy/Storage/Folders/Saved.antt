-- ===== src/Fantasy/Storage/Folders/Saved.antt =====
-- The folders as they are written: saveUser, saveTeam, saveTrade, saveLeague and
-- saveGame, of TPE1/src/IO/io.c, into folders that are empty before.
use so_tpe.Prelude.{ℕ, Option, none, some, List, [], ◌∷◌, ◌++◌, map, ◌>>=◌, if◌then◌else◌}
use so_tpe.Fantasy.Game.{User, Trade, Team, League, Game}
use so_tpe.Fantasy.Game.Answer.{decimal}
use so_tpe.Fantasy.Game.Names.{has}
use so_tpe.Fantasy.Game.Text.{codes}
use so_tpe.Fantasy.Storage.Objects.{
  user_to_string, trade_to_string, team_to_string, league_to_string,
}
use so_tpe.Fantasy.Storage.Folders.{Entry, Files, LeagueFolder}
use so_tpe.Fantasy.Storage.Folders.Listing.{shuffle}

-- A name and the bytes that are written under it.
pub record Document : Type 0 where
  pub name : List ℕ
  pub bytes : List ℕ

abbrev pub entry : Document → Entry Unit
entry d = Entry.file d.name d.bytes

-- Of two documents of one name the later one is what the file holds.
unfoldable pub save_files : List Document → Files
save_files [] = []
save_files (d ∷ ds) =
    let rest = save_files ds in if has d.name (map (λ d. d.name) ds) then rest else entry d ∷ rest

unfoldable pub save_user : User → Option Document
save_user u = do
  text ← user_to_string u
  some (record { name = u.user ++ codes ".user"; bytes = text })

-- The users' part of saveGame.
unfoldable pub save_users : List User → Option (List Document)
save_users [] = some []
save_users (u ∷ us) = do d ← save_user u; ds ← save_users us; some (d ∷ ds)

unfoldable pub save_team : Team → Document
save_team t = record { name = t.owner ++ codes ".team"; bytes = team_to_string t }

unfoldable pub save_trade : Trade → Document
save_trade t = record { name = decimal t.id ++ codes ".trade"; bytes = trade_to_string t }

unfoldable pub save_league : League → LeagueFolder
save_league l =
    Entry.folder (codes "teams") (save_files (map save_team l.teams))
    ∷ Entry.folder (codes "trades") (save_files (map save_trade l.trades))
    ∷ Entry.file (decimal l.id ++ codes ".league") (league_to_string l)
    ∷ []

-- The league's folder as readdir lists it: `order` gives the positions of its entries, and of those of
-- each folder inside.
abbrev list_entry : (List ℕ → List ℕ) → Entry Files → Entry Files
list_entry order (Entry.file name bytes) = Entry.file name bytes
list_entry order (Entry.folder name inside) = Entry.folder name (shuffle (order name) inside)

unfoldable pub list_league : (List ℕ → List ℕ) → LeagueFolder → LeagueFolder
list_league order es = shuffle (order []) (map (list_entry order) es)

-- The leagues' part of saveGame, into a folder of its own for each league: a second league of one id
-- would write into the folder of the first, and is left out here.
unfoldable pub save_leagues : List League → Option (List (Entry LeagueFolder))
save_leagues [] = some []
save_leagues (l ∷ ls) = do
  es ← save_leagues ls
  if has (decimal l.id) (map (λ l. decimal l.id) ls)
      then none
      else some (Entry.folder (decimal l.id) (save_league l) ∷ es)

-- What is in "./res/users/" and in "./res/leagues/" behind saveGame.
unfoldable pub save_game : Game → Option (Files × List (Entry LeagueFolder))
save_game g = do ds ← save_users g.users; es ← save_leagues g.leagues; some (save_files ds, es)

abbrev pub list_leagues_entry : (List ℕ → List ℕ → List ℕ) → Entry LeagueFolder → Entry LeagueFolder
list_leagues_entry orders (Entry.file name bytes) = Entry.file name bytes
list_leagues_entry orders (Entry.folder name inside) =
    Entry.folder name (list_league (orders name) inside)

-- The folder of the leagues as readdir lists it, and `orders` for what is in the folder of that name.
unfoldable pub list_leagues :
    List ℕ → (List ℕ → List ℕ → List ℕ) → List (Entry LeagueFolder) → List (Entry LeagueFolder)
list_leagues order orders es = shuffle order (map (list_leagues_entry orders) es)
