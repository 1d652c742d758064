-- ===== src/Fantasy/Game/Locks.antt =====
-- The mutex of TPE1/src/server/execute.c that some handlers return with.
pub mod Waiting
use so_tpe.Prelude.{
  ℕ, ◌≡◌, refl, Bool, true, false, Option, none, some, List, ◌==◌, get_elem?, length,
}
use so_tpe.Fantasy.Message.Defs
use so_tpe.Fantasy.Message.Defs.{Message}
use so_tpe.Fantasy.Game.{
  Server, League, User, done, blocked, ◌>>=◌, lock, communicate, find, find_in, int_gt,
}
use so_tpe.Fantasy.Game.Account.{execute_register, execute_login}
use so_tpe.Fantasy.Game.Show.{
  execute_list_leagues, execute_list_teams, execute_list_trades, execute_league_show,
  execute_team_show, execute_trade_show, trade_show_locked,
}
use so_tpe.Fantasy.Game.Leagues.{execute_join_league, join_locked}
use so_tpe.Fantasy.Game.Trades.{execute_trade_withdraw, withdraw_locked}
use so_tpe.Fantasy.Game.Drafts.{returned, execute_draft}
use so_tpe.Fantasy.Game.Execute.{execute}

-- The requests whose handler locks before anything else.
abbrev pub locks_first : Message → Bool
locks_first (Defs.register user pass) = true
locks_first (Defs.login user pass) = true
locks_first Defs.list_leagues = true
locks_first Defs.list_teams = true
locks_first Defs.list_trades = true
locks_first (Defs.league_show id) = true
locks_first (Defs.team_show id) = true
locks_first (Defs.trade_show id) = true
locks_first (Defs.draft id) = true
locks_first _ = false

-- While the mutex is held they never return.
pub execute-blocked :
    (players : List (List ℕ)) (m : Message) (s : Server)
    → locks_first m ≡ true
    → s.locked ≡ true
    → execute players m s ≡ blocked
unfolding execute lock execute_register execute_login execute_list_leagues execute_list_teams
    execute_list_trades execute_league_show execute_team_show execute_trade_show execute_draft
execute-blocked players (Defs.register user pass) s f h = rw h refl
execute-blocked players (Defs.login user pass) s f h = rw h refl
execute-blocked players Defs.list_leagues s f h = rw h refl
execute-blocked players Defs.list_teams s f h = rw h refl
execute-blocked players Defs.list_trades s f h = rw h refl
execute-blocked players (Defs.league_show id) s f h = rw h refl
execute-blocked players (Defs.team_show id) s f h = rw h refl
execute-blocked players (Defs.trade_show id) s f h = rw h refl
execute-blocked players (Defs.draft id) s f h = rw h refl
execute-blocked players (Defs.trade from to team_id) s f h = absurd cc
execute-blocked players (Defs.trade_withdraw id) s f h = absurd cc
execute-blocked players (Defs.trade_accept id) s f h = absurd cc
execute-blocked players (Defs.trade_negotiate from to id) s f h = absurd cc
execute-blocked players Defs.logout s f h = absurd cc
execute-blocked players (Defs.join_league id) s f h = absurd cc
execute-blocked players (Defs.create_league name) s f h = absurd cc
execute-blocked players (Defs.contact c) s f h = absurd cc
execute-blocked players Defs.draft_out s f h = absurd cc
execute-blocked players (Defs.choose name) s f h = absurd cc

abbrev held : Server → Server
held s = record s { locked = true }

-- A request leaves the mutex behind, and the next one waits for it.
abbrev pub Jams : List (List ℕ) → Message → Message → Server → Type 0
Jams players m n s =
    (execute players m s ≡ done (record s { locked = true }, returned))
    × (execute players n (record s { locked = true }) ≡ blocked)

jams :
    (players : List (List ℕ)) (m n : Message) (s : Server)
    → locks_first n ≡ true
    → execute players m s ≡ done (held s, returned)
    → Jams players m n s
jams players m n s f e = (e, execute-blocked players n (held s) f refl)

-- With the mutex free, a request for a trade whose number is not above the counter and is of no
-- trade returns with the mutex held and no answer, and a request whose handler locks first then
-- never returns.
pub trade_show-Jams :
    (players : List (List ℕ)) (id : ℕ) (n : Message) (s : Server)
    → locks_first n ≡ true
    → s.locked ≡ false
    → int_gt id s.game.cant_trades ≡ false
    → find_in (λ l. l.trades) (λ t. t.id == id) s.game.leagues ≡ none
    → Jams players (Defs.trade_show id) n s
unfolding execute lock execute_trade_show trade_show_locked
trade_show-Jams players id n s f free small none_such =
    jams players (Defs.trade_show id) n s f (simp (free, small, none_such) refl)

-- So does a user of the game that joins a league whose number is not above the number of leagues
-- and is of no league: no answer, the mutex held, and a request whose handler locks first never
-- returns.
pub join_league-Jams :
    (players : List (List ℕ)) (input : ℕ) (n : Message) (s : Server) (i : ℕ) (u : User)
    → locks_first n ≡ true
    → s.locked ≡ false
    → s.me ≡ some i
    → get_elem? s.game.users i ≡ some u
    → int_gt input (length s.game.leagues) ≡ false
    → find (λ l. l.id == input) s.game.leagues ≡ none
    → Jams players (Defs.join_league input) n s
unfolding execute lock execute_join_league join_locked
join_league-Jams players input n s i u f free me user small none_such =
    jams players (Defs.join_league input) n s f
      (simp (me, user, free, small, none_such, execute_join_league) refl)

-- So does withdrawing a trade of a number like that.
pub withdraw-Jams :
    (players : List (List ℕ)) (id : ℕ) (n : Message) (s : Server) (i : ℕ) (u : User)
    → locks_first n ≡ true
    → s.locked ≡ false
    → s.me ≡ some i
    → get_elem? s.game.users i ≡ some u
    → int_gt id s.game.cant_trades ≡ false
    → find_in (λ l. l.trades) (λ t. t.id == id) s.game.leagues ≡ none
    → Jams players (Defs.trade_withdraw id) n s
unfolding execute lock execute_trade_withdraw withdraw_locked
withdraw-Jams players id n s i u f free me user small none_such =
    jams players (Defs.trade_withdraw id) n s f
      (simp (me, user, free, small, none_such, execute_trade_withdraw) refl)
