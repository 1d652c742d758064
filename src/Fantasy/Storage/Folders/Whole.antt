-- ===== src/Fantasy/Storage/Folders/Whole.antt =====
-- The whole game, saved and loaded: saveGame and loadGame of TPE1/src/IO/io.c.
use so_tpe.Prelude.{
  ℕ, ◌+◌, ◌≡◌, refl, sym, ap, ◌∙◌, false, some, List, [], ◌∷◌, map, All, length, arith,
}
use so_tpe.Fantasy.Game.{League, Game}
use so_tpe.Fantasy.Game.Answer.{decimal}
use so_tpe.Fantasy.Game.Names.{Distinct}
use so_tpe.Fantasy.Game.Text.{codes}
use so_tpe.Fantasy.Storage.Lines.{length-decimal}
use so_tpe.Fantasy.Storage.Folders.{Entry, Files, LeagueFolder, is_dismissed}
use so_tpe.Fantasy.Storage.Folders.Games.{
  load_leagues_entry, load_leagues, count_teams, count_trades, load_game,
}
use so_tpe.Fantasy.Storage.Folders.Listing.{shuffle, shuffle-map, shuffle-All}
use so_tpe.Fantasy.Storage.Folders.Saved.{
  save_files, save_league, list_league, save_leagues, save_game, list_leagues, list_leagues_entry,
}
use so_tpe.Fantasy.Storage.Folders.Files.{create_file_path-fits}
use so_tpe.Fantasy.Storage.Folders.Restored.{IsRestorable}
use so_tpe.Fantasy.Storage.Numbers.{decimal_head}
use so_tpe.Fantasy.Storage.Folders.Leagues.{load_league-save_league}
use so_tpe.Fantasy.Storage.Folders.Users.{IsRestorableUser, document, load_users-save_users}

-- The path of a league's folder, "./res/leagues/<id>/".
abbrev pub league_path : League → ℕ
league_path l = 14 + length (decimal l.id) + 1

-- A league as it is loaded, where its folder is listed in these orders.
abbrev pub restored : (List ℕ → List ℕ → List ℕ) → League → League
restored orders l = record l {
  teams = shuffle (orders (decimal l.id) (codes "teams")) l.teams;
  trades = shuffle (orders (decimal l.id) (codes "trades")) l.trades;
  cant_draft = 0;
  turn = [];
  answer = false;
}

abbrev league_entry : (List ℕ → List ℕ → List ℕ) → League → Entry LeagueFolder
league_entry orders l =
    Entry.folder (decimal l.id) (list_league (orders (decimal l.id)) (save_league l))

decimal-shown : (n : ℕ) → is_dismissed (decimal n) ≡ false
decimal-shown n = let (c, t, e, h) = decimal_head n in rw e h

module _ (orders : List ℕ → List ℕ → List ℕ) where
  load_leagues_entry-league_entry :
      (l : League)
      → IsRestorable (league_path l) l
      → load_leagues_entry 14 (league_entry orders l) ≡ some (restored orders l ∷ [])
  unfolding load_leagues_entry codes
  load_leagues_entry-league_entry l h =
      let d = length-decimal l.id in
      rw
        (
          decimal-shown l.id,
          create_file_path-fits 14 (decimal l.id) (omega arith),
          create_file_path-fits (14 + length (decimal l.id)) (codes "/") (omega arith),
          load_league-save_league (league_path l) l (orders (decimal l.id)) h,
        )
        refl

  load_leagues-league_entry :
      (ls : List League)
      → All (λ l. IsRestorable (league_path l) l) ls
      → load_leagues 14 (map (league_entry orders) ls) ≡ some (map (restored orders) ls)
  unfolding load_leagues
  load_leagues-league_entry [] h = refl
  load_leagues-league_entry (l ∷ ls) (h, hs) =
      rw (load_leagues_entry-league_entry l h, load_leagues-league_entry ls hs) refl

  listed :
      (ls : List League)
      → map (list_leagues_entry orders) (map (λ l. Entry.folder (decimal l.id) (save_league l)) ls)
        ≡ map (league_entry orders) ls
  listed [] = refl
  listed (l ∷ ls) = ap (λ es. league_entry orders l ∷ es) (listed ls)

save_leagues-Distinct :
    (ls : List League)
    → Distinct (map (λ l. decimal l.id) ls)
    → save_leagues ls ≡ some (map (λ l. Entry.folder (decimal l.id) (save_league l)) ls)
unfolding save_leagues
save_leagues-Distinct [] h = refl
save_leagues-Distinct (l ∷ ls) (h, hs) = rw (save_leagues-Distinct ls hs, h) refl

-- A game whose users and leagues are all loaded as they were saved, from files and folders of different
-- names.
pub record IsRestorableGame (g : Game) : Type 0 where
  pub users : All (IsRestorableUser 12) g.users
  pub user_names : Distinct (map (λ d. d.name) (map document g.users))
  pub leagues : All (λ l. IsRestorable (league_path l) l) g.leagues
  pub league_names : Distinct (map (λ l. decimal l.id) g.leagues)

-- The game as it is loaded, where the folders are listed in these orders.
abbrev pub restored_game : List ℕ → List ℕ → (List ℕ → List ℕ → List ℕ) → Game → Game
restored_game users leagues orders g =
    let ls = shuffle leagues (map (restored orders) g.leagues) in
    record {
      users = shuffle users g.users;
      leagues = ls;
      logged_users = [];
      cant_teams = count_teams ls;
      cant_trades = count_trades ls;
    }

-- A game that is saved is loaded again, with nobody logged in, its teams and trades counted, and the
-- users, leagues, teams and trades in the orders in which readdir lists their files; a league's draft
-- has ended. This holds for a game in which the texts fit a line, the counts of leagues and players
-- are right, a team has at most five players, a league id of a user has at most nine digits, the names
-- of the files in a folder differ, none begins with '.', and their paths fit the buffer.
pub load_game-save_game :
    (g : Game) (user_order league_order : List ℕ) (orders : List ℕ → List ℕ → List ℕ)
    → IsRestorableGame g
    → (users : Files) × (leagues : List (Entry LeagueFolder)) × (save_game g
        ≡ some (users, leagues))
      × (load_game (shuffle user_order users) (list_leagues league_order orders leagues)
          ≡ some (restored_game user_order league_order orders g))
unfolding save_game load_game list_leagues
load_game-save_game g user_order league_order orders h =
    let (docs, saved, loaded) = load_users-save_users 12 g.users user_order h.users h.user_names in
    let es = map (λ l. Entry.folder (decimal l.id) (save_league l)) g.leagues in
    let ls =
      ap (λ es. load_leagues 14 (shuffle league_order es)) (listed orders g.leagues)
      ∙ ap (load_leagues 14) (shuffle-map (league_entry orders) league_order g.leagues)
      ∙ load_leagues-league_entry orders (shuffle league_order g.leagues)
          (shuffle-All (λ l. IsRestorable (league_path l) l) league_order g.leagues h.leagues)
      ∙ ap some (sym (shuffle-map (restored orders) league_order g.leagues)) in
    (
      save_files docs,
      es,
      rw (saved, save_leagues-Distinct g.leagues h.league_names) refl,
      rw (loaded, ls) refl,
    )
