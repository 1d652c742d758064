-- ===== src/Tests/Games.antt =====
-- A league of three users: two of its trades, a draft, and requests of one of the users.
use so_tpe.Prelude.{ℕ, ◌+◌, ◌==◌, ◌≡◌, refl, Bool, true, false, none, some, List, [], ◌∷◌, arith}
use so_tpe.Fantasy.Message.Defs
use so_tpe.Fantasy.Message.Defs.{Message}
use so_tpe.Fantasy.Game.{
  Player, TradeState, Trade, User, Team, LeagueStatus, League, Game, Server, Outcome, lock, unlock,
  communicate, set_game, int_gt, same, find, find_in, modify,
}
use so_tpe.Fantasy.Game.Text
use so_tpe.Fantasy.Game.Answer.{success}
use so_tpe.Fantasy.Game.Names.{Distinct}
use so_tpe.Fantasy.Game.Returns.{IsConnected, somebody}
use so_tpe.Fantasy.Game.Returns.Executes.{HasRoom, execute-returns}
use so_tpe.Fantasy.Game.Trades.{name_fits, find_player}
use so_tpe.Fantasy.Game.Trades.Accept.{trade_accept_type, execute_trade_accept}
use so_tpe.Fantasy.Game.Trades.Exchange.{IsOpen, IsExchanged, execute_trade_accept-exchange}
use so_tpe.Fantasy.Game.Trades.{
  trade_withdraw_type, set_trade_state, execute_trade_withdraw, withdraw_locked, withdraw_found,
}
use so_tpe.Fantasy.Game.Drafts.{Next, returned, assign}
use so_tpe.Fantasy.Game.Drafts.Coordinator.{
  next_owner, change_turn, auto_asign, check_status, coordinator_round,
}
use so_tpe.Fantasy.Game.Drafts.Pool.{pool, SamePool, auto_asign-pool, choose_player-pool}
use so_tpe.Fantasy.Game.Drafts.Turn.{change_turn-follower, coordinator_round-answered}
use so_tpe.Fantasy.Game.Execute.{execute}
use so_tpe.Fantasy.Game.Steps.{IsFair, IsValid}
use so_tpe.Fantasy.Game.Steps.Ends.{Ends}
use so_tpe.Fantasy.Game.Steps.Executes.{execute-IsValid, AnsweredOnce, execute-Answered}
use so_tpe.Fantasy.Game.Steps.Final.{TradeAt, execute-TradeAt}
use so_tpe.Fantasy.Game.Locks.{Jams, trade_show-Jams, join_league-Jams}
use so_tpe.Fantasy.Game.Locks.Waiting.{Waits, wait_round-blocked}
use so_tpe.Fantasy.Game.Drafts.{
  draft_type, drafted, execute_draft, draft_locked, draft_found, enter_draft, set_league,
  wait_round, make_draft, choose_player,
}

abbrev player : ℕ → Player
player n = record { name = n ∷ []; points = 0 }

abbrev member : ℕ → User
member n = record { user = n ∷ []; pass = 9 ∷ []; leagues = 1; leagues_ids = 1 ∷ [] }

abbrev offered : ℕ → TradeState → Trade
offered id state = record {
  id = id;
  state = state;
  user_from = 1 ∷ [];
  user_to = 2 ∷ [];
  player_from = 10 ∷ [];
  player_to = 20 ∷ [];
}

abbrev team : ℕ → List Player → Team
team n players = record { id = n; owner = n ∷ []; points = 0; cant_players = 1; players = players }

abbrev league : League
league = record {
  id = 1;
  name = 65 ∷ [];
  status = LeagueStatus.active;
  cant_available_players = 2;
  available_players = player 40 ∷ player 50 ∷ [];
  teams = team 1 (player 10 ∷ []) ∷ team 2 (player 20 ∷ []) ∷ team 3 [] ∷ [];
  trades = offered 1 TradeState.accepted ∷ offered 2 TradeState.awaiting ∷ [];
  cant_draft = 3;
  turn = 3 ∷ [];
  answer = false;
}

abbrev game : Game
game = record {
  users = member 1 ∷ member 2 ∷ member 3 ∷ [];
  leagues = league ∷ [];
  logged_users = (2 ∷ []) ∷ [];
  cant_teams = 3;
  cant_trades = 2;
}

-- The connection of the second user.
abbrev server : Server
server = record { game = game; locked = false; me = some 1; sent = []; stale = 7; usable = λ n. 24 }

league-IsFair : IsFair league
unfolding same
league-IsFair = record { few = omega arith; owners = (refl, (refl, (refl, tt))) }

game-IsValid : IsValid game
unfolding same
game-IsValid = record {
  users = (refl, (refl, (refl, tt)));
  logged = (refl, tt);
  leagues = (league-IsFair, tt);
}

abbrev entered : Server
entered = record server { locked = true }

abbrev withdrawn : Server
withdrawn =
    communicate (success trade_withdraw_type Text.trade_canceled entered)
      (unlock (set_game (set_trade_state 0 1 TradeState.canceled game) entered))

withdraws : execute [] (Defs.trade_withdraw 2) server ≡ Outcome.done (withdrawn, returned)
unfolding execute execute_trade_withdraw withdraw_locked withdraw_found lock int_gt find_in find
    same
withdraws = refl

execute-IsValid_example : IsValid withdrawn.game
execute-IsValid_example =
    execute-IsValid [] (Defs.trade_withdraw 2) server withdrawn returned game-IsValid withdraws

execute-TradeAt_example : TradeAt withdrawn.game 0 0 (offered 1 TradeState.accepted)
execute-TradeAt_example =
    execute-TradeAt [] (Defs.trade_withdraw 2) server withdrawn returned 0 0
      (offered 1 TradeState.accepted) refl
      (record { league = league; at_league = refl; at_trade = refl }) withdraws

execute-Answered_example : Ends (AnsweredOnce server) (execute [] (Defs.trade_withdraw 2) server)
execute-Answered_example = execute-Answered [] (Defs.trade_withdraw 2) server refl refl

no_trade_zero : find_in (λ (l : League). l.trades) (λ t. t.id == 0) game.leagues ≡ none
unfolding find_in find
no_trade_zero = refl

zero_small : int_gt 0 2 ≡ false
unfolding int_gt
zero_small = refl

trade_show-Jams_example : Jams [] (Defs.trade_show 0) Defs.list_leagues server
trade_show-Jams_example =
    trade_show-Jams [] 0 Defs.list_leagues server refl refl zero_small no_trade_zero

no_league_zero : find (λ (l : League). l.id == 0) game.leagues ≡ none
unfolding find
no_league_zero = refl

one_large : int_gt 0 1 ≡ false
unfolding int_gt
one_large = refl

join_league-Jams_example : Jams [] (Defs.join_league 0) (Defs.register [] []) server
join_league-Jams_example =
    join_league-Jams [] 0 (Defs.register [] []) server 1 (member 2) refl refl refl refl one_large
      no_league_zero

-- The second user drafts when one team is ready; then the third team comes.
abbrev lobby : ℕ → Game
lobby n = record game {
  leagues = record league { status = LeagueStatus.inactive; cant_draft = n } ∷ [];
}

abbrev lobby_server : Server
lobby_server = record server { game = lobby 1 }

abbrev waiter : Server
waiter = record server {
  game = lobby 2;
  locked = true;
  sent = success draft_type Text.draft_in_successful (record lobby_server { locked = true }) ∷ [];
}

waiter-Waits : Waits 0 waiter
unfolding execute_draft draft_locked draft_found enter_draft set_league lock communicate find int_gt
    modify
waiter-Waits = Waits.enters 1 lobby_server refl

wait_round-blocked_example :
    (s' : Server) × (wait_round none 0 (set_game (lobby 3) waiter)
      ≡ Outcome.done (s', drafted false 0))
    × (make_draft s' ≡ Outcome.blocked)
wait_round-blocked_example =
    wait_round-blocked none 0 (lobby 3)
      (record league { status = LeagueStatus.inactive; cant_draft = 3 }) waiter waiter-Waits refl
      refl

connected : IsConnected server
unfolding find same
connected = somebody 1 (member 2) 0 (2 ∷ []) refl refl refl

room_of_two : (u : User) → some (member 2) ≡ some u → name_fits (λ n. 24) u.user ≡ true
unfolding name_fits
room_of_two u e = let f : member 2 ≡ u = cc in rw (← f) refl

server-HasRoom : HasRoom server
server-HasRoom i u me user = let one : 1 ≡ i = cc in room_of_two u (rw (← one) at user)

execute-returns_example :
    (s' : Server) × (n : Next) × (execute [] (Defs.trade (20 ∷ []) (10 ∷ []) 1) server
      ≡ Outcome.done (s', n))
    × AnsweredOnce server (s', n)
execute-returns_example =
    execute-returns [] (Defs.trade (20 ∷ []) (10 ∷ []) 1) server refl connected refl
      (λ asked. server-HasRoom)

open_trade : IsOpen (member 2) 2 game 0 1 0 (0, player 10) 1 (0, player 20)
unfolding int_gt find_in find same find_player
open_trade = record {
  league = league;
  trade = offered 2 TradeState.awaiting;
  team_from = team 1 (player 10 ∷ []);
  team_to = team 2 (player 20 ∷ []);
  counted = refl;
  at_trade = refl;
  mine = refl;
  waiting = refl;
  at_from = refl;
  has_from = refl;
  at_to = refl;
  has_to = refl;
  apart = λ e. absurd (omega arith);
}

execute_trade_accept-exchange_example :
    (s' : Server) × (execute_trade_accept 2 server ≡ Outcome.done s')
    × IsExchanged game s'.game 0 1 0
        (0, player 10)
        1
        (0, player 20)
        league
        (offered 2 TradeState.awaiting)
        (team 1 (player 10 ∷ []))
        (team 2 (player 20 ∷ []))
    × (s'.sent ≡ success trade_accept_type Text.trade_accepted server ∷ [])
    × (s'.locked ≡ false)
unfolding open_trade
execute_trade_accept-exchange_example =
    execute_trade_accept-exchange (member 2) 1 2 server 0 1 0 (0, player 10) 1 (0, player 20) refl
      refl refl open_trade

abbrev drafting : League
drafting = record league { status = LeagueStatus.drafting }

-- The third team gets the second player, and the turn goes to the first.
abbrev assigned : League
assigned = record (assign 1 (player 50) 2 drafting) { turn = 1 ∷ [] }

assigns : auto_asign 5 drafting ≡ some assigned
unfolding auto_asign find same change_turn next_owner assign modify
assigns = refl

auto_asign-pool_example : pool (λ p. p.points + 1) assigned ≡ pool (λ p. p.points + 1) drafting
auto_asign-pool_example = auto_asign-pool (λ p. p.points + 1) 5 drafting assigned assigns

owners-Distinct : Distinct ((1 ∷ []) ∷ (2 ∷ []) ∷ (3 ∷ []) ∷ [])
unfolding same
owners-Distinct = (refl, (refl, (refl, tt)))

turn_three : same (3 ∷ []) (3 ∷ []) ≡ true
unfolding same
turn_three = refl

change_turn-follower_example : change_turn drafting ≡ some (record drafting { turn = 1 ∷ [] })
change_turn-follower_example =
    change_turn-follower drafting (team 1 (player 10 ∷ []))
      (team 2 (player 20 ∷ []) ∷ team 3 [] ∷ []) 2 refl refl turn_three owners-Distinct

-- The others choose a player while the coordinator sleeps.
abbrev answering : ℕ → League → League
answering n l = record l { answer = true }

coordinator_round-answered_example :
    coordinator_round answering 0 drafting ≡ some (check_status (record drafting { answer = true }))
coordinator_round-answered_example = coordinator_round-answered answering 0 drafting refl

abbrev drafting_server : Server
drafting_server = record server { game = record game { leagues = drafting ∷ [] } }

third_team : find (λ (t : Team). same t.owner (3 ∷ [])) drafting.teams ≡ some (2, team 3 [])
unfolding find same
third_team = refl

choose_player-pool_example :
    (r : Server × Bool) × (choose_player (40 ∷ []) true (member 3) 0 drafting drafting_server
      ≡ Outcome.done r)
    × SamePool (λ p. p.points + 1) 0 drafting r
choose_player-pool_example =
    choose_player-pool (λ p. p.points + 1) (40 ∷ []) true (member 3) 0 drafting drafting_server 2
      (team 3 []) refl third_team
