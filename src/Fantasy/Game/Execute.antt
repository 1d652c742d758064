-- ===== src/Fantasy/Game/Execute.antt =====
-- `execute` of TPE1/src/server/execute.c: a request and its handler.
use so_tpe.Prelude.{ℕ, List}
use so_tpe.Fantasy.Message.Defs
use so_tpe.Fantasy.Message.Defs.{Message}
use so_tpe.Fantasy.Game.{Server, Outcome, done, ◌>>=◌}
use so_tpe.Fantasy.Game.Account.{execute_register, execute_login, execute_logout}
use so_tpe.Fantasy.Game.Show.{
  execute_list_leagues, execute_list_teams, execute_list_trades, execute_league_show,
  execute_team_show, execute_trade_show,
}
use so_tpe.Fantasy.Game.Leagues.{execute_join_league, execute_create_league}
use so_tpe.Fantasy.Game.Trades.{execute_trade, execute_trade_withdraw}
use so_tpe.Fantasy.Game.Trades.Accept.{execute_trade_accept}
use so_tpe.Fantasy.Game.Trades.Negotiate.{execute_trade_negotiate}
use so_tpe.Fantasy.Game.Drafts.{Next, returned, execute_draft}

-- A handler that does not draft.
abbrev pub finish : Outcome Server → Outcome (Server × Next)
finish o = o >>= λ s. done (s, returned)

-- `players` is what `loadPlayers` reads. A request of another type is ignored.
unfoldable pub execute : List (List ℕ) → Message → Server → Outcome (Server × Next)
execute players (Defs.register user pass) s = finish (execute_register user pass s)
execute players (Defs.login user pass) s = finish (execute_login user pass s)
execute players Defs.list_leagues s = finish (execute_list_leagues s)
execute players Defs.list_teams s = finish (execute_list_teams s)
execute players Defs.list_trades s = finish (execute_list_trades s)
execute players (Defs.league_show id) s = finish (execute_league_show id s)
execute players (Defs.team_show id) s = finish (execute_team_show id s)
execute players (Defs.trade_show id) s = finish (execute_trade_show id s)
execute players (Defs.trade from to team_id) s = finish (execute_trade from to team_id s)
execute players (Defs.trade_withdraw id) s = finish (execute_trade_withdraw id s)
execute players (Defs.trade_accept id) s = finish (execute_trade_accept id s)
execute players (Defs.trade_negotiate from to id) s = finish (execute_trade_negotiate from to id s)
execute players Defs.logout s = finish (execute_logout s)
execute players (Defs.join_league id) s = finish (execute_join_league id s)
execute players (Defs.create_league name) s = finish (execute_create_league players name s)
execute players (Defs.draft id) s = execute_draft id s
execute players (Defs.contact c) s = done (s, returned)
execute players Defs.draft_out s = done (s, returned)
execute players (Defs.choose name) s = done (s, returned)
