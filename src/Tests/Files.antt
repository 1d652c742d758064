-- ===== src/Tests/Files.antt =====
-- Runs of the files of the league server.
use so_tpe.Prelude.{ℕ, ◌-◌, ◌^◌, ◌≡◌, refl, arith, false, some, List, [], ◌∷◌, map}
use so_tpe.Fantasy.Game.{Player, TradeState, Trade, User, Team, LeagueStatus, League, Game, same}
use so_tpe.Fantasy.Game.Text.{codes}
use so_tpe.Fantasy.Game.Answer.{digits, decimal}
use so_tpe.Fantasy.Storage.Roundtrip.Users.{IsStorableUser}
use so_tpe.Fantasy.Storage.Folders.{Entry, Files, LeagueFolder, load_league}
use so_tpe.Fantasy.Storage.Folders.Games.{load_game}
use so_tpe.Fantasy.Storage.Folders.Listing.{shuffle}
use so_tpe.Fantasy.Storage.Folders.Saved.{
  save_team, save_trade, save_league, list_league, save_game, list_leagues,
}
use so_tpe.Fantasy.Storage.Folders.Restored.{IsRestorable}
use so_tpe.Fantasy.Storage.Folders.Leagues.{load_league-save_league}
use so_tpe.Fantasy.Storage.Folders.Whole.{IsRestorableGame, restored_game, load_game-save_game}
use so_tpe.Fantasy.Storage.Points.{update_players}
use so_tpe.Fantasy.Storage.Points.Totals.{award_league}
use so_tpe.Fantasy.Storage.Points.Awarded.{update_players-award}

abbrev ana : User
ana = record { user = 97 ∷ []; pass = 112 ∷ []; leagues = 2; leagues_ids = 3 ∷ 12 ∷ [] }

ana-IsStorable : IsStorableUser ana
ana-IsStorable = record {
  user = ((refl, tt), omega arith);
  pass = ((refl, tt), omega arith);
  ids = (omega arith, (omega arith, tt));
  leagues = refl;
  few = omega arith;
}

abbrev team_a : Team
team_a = record {
  id = 1;
  owner = 97 ∷ [];
  points = 4;
  cant_players = 1;
  players = record { name = 77 ∷ []; points = 2 ^ 32 - 1 } ∷ [];
}

abbrev team_b : Team
team_b = record { id = 2; owner = 98 ∷ []; points = 0; cant_players = 0; players = [] }

abbrev bid : Trade
bid = record {
  id = 5;
  state = TradeState.accepted;
  user_from = 97 ∷ [];
  user_to = 98 ∷ [];
  player_from = 77 ∷ [];
  player_to = 78 ∷ [];
}

abbrev cup : League
cup = record {
  id = 3;
  name = 99 ∷ [];
  status = LeagueStatus.active;
  cant_available_players = 1;
  available_players = record { name = 78 ∷ []; points = 9 } ∷ [];
  teams = team_a ∷ team_b ∷ [];
  trades = bid ∷ [];
  cant_draft = 2;
  turn = 97 ∷ [];
  answer = false;
}

-- Every folder is listed with its first entry behind the second.
abbrev swapped : List ℕ → List ℕ
swapped name = 1 ∷ []

cup-IsRestorable : IsRestorable 16 cup
unfolding save_team save_trade codes same
cup-IsRestorable = record {
  path = omega arith;
  storable = record {
    id = omega arith;
    name = ((refl, tt), omega arith);
    players = ((((refl, tt), omega arith), omega arith), tt);
    cant = refl;
    few = omega arith;
  };
  teams = (
    record {
      storable = record {
        id = omega arith;
        owner = ((refl, tt), omega arith);
        points = omega arith;
        players = ((((refl, tt), omega arith), omega arith), tt);
        cant = refl;
        few = omega arith;
      };
      shown = refl;
      short = omega arith;
    },
    (
      record {
        storable = record {
          id = omega arith;
          owner = ((refl, tt), omega arith);
          points = omega arith;
          players = tt;
          cant = refl;
          few = omega arith;
        };
        shown = refl;
        short = omega arith;
      },
      tt,
    ),
  );
  trades = (
    record {
      id = omega arith;
      user_from = ((refl, tt), omega arith);
      user_to = ((refl, tt), omega arith);
      player_from = ((refl, tt), omega arith);
      player_to = ((refl, tt), omega arith);
    },
    tt,
  );
  team_names = (refl, (refl, tt));
  trade_names = (refl, tt);
}

load_league-save_league_example :
    load_league 16 (list_league swapped (save_league cup))
    ≡ some (record cup { teams = team_b ∷ team_a ∷ []; cant_draft = 0; turn = [] })
load_league-save_league_example = load_league-save_league 16 cup swapped cup-IsRestorable

abbrev season : Game
season = record {
  users = ana ∷ record { user = 98 ∷ []; pass = 113 ∷ []; leagues = 0; leagues_ids = [] } ∷ [];
  leagues = cup ∷ [];
  logged_users = (97 ∷ []) ∷ [];
  cant_teams = 2;
  cant_trades = 1;
}

season-IsRestorable : IsRestorableGame season
unfolding codes same decimal digits
season-IsRestorable = record {
  users = (
    record { storable = ana-IsStorable; shown = refl; short = omega arith },
    (
      record {
        storable = record {
          user = ((refl, tt), omega arith);
          pass = ((refl, tt), omega arith);
          ids = tt;
          leagues = refl;
          few = omega arith;
        };
        shown = refl;
        short = omega arith;
      },
      tt,
    ),
  );
  user_names = (refl, (refl, tt));
  leagues = (cup-IsRestorable, tt);
  league_names = (refl, tt);
}

load_game-save_game_example :
    (users : Files) × (leagues : List (Entry LeagueFolder)) × (save_game season
      ≡ some (users, leagues))
    × (load_game (shuffle (1 ∷ []) users) (list_leagues [] (λ name. swapped) leagues)
        ≡ some (restored_game (1 ∷ []) [] (λ name. swapped) season))
load_game-save_game_example =
    load_game-save_game season (1 ∷ []) [] (λ name. swapped) season-IsRestorable

-- Two entries of the match are of one player.
abbrev match_day : List Player
match_day =
    record { name = 77 ∷ []; points = 3 }
    ∷ record { name = 78 ∷ []; points = 5 }
    ∷ record { name = 77 ∷ []; points = 4 }
    ∷ []

update_players-award_example :
    update_players match_day (cup ∷ []) ≡ map (award_league match_day) (cup ∷ [])
update_players-award_example =
    update_players-award match_day (cup ∷ [])
      (((omega arith, tt), ((omega arith, (omega arith, tt)), ((omega arith, tt), tt))), tt)
