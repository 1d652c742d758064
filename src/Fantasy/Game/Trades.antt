-- ===== src/Fantasy/Game/Trades.antt =====
-- executeTrade, executeTradeWithdraw, executeTradeAccept and executeTradeNegotiate of
-- TPE1/src/server/execute.c.
pub mod Accept
pub mod Negotiate
pub mod Loops
pub mod Swap
pub mod Exchange
use so_tpe.Prelude.{
  ℕ, ◌+◌, ◌%◌, ◌^◌, Bool, true, false, Option, none, some, List, get_elem?, not, ◌&&◌, ◌==◌,
  if◌then◌else◌, [], ◌∷◌, ltb, length,
}
use so_tpe.Fantasy.Reply.{Reply}
use so_tpe.Fantasy.Game.{
  Player, TradeState, Trade, User, Team, LeagueStatus, League, Game, Server, Outcome, done, blocked,
  fault, ◌>>=◌, lock, unlock, communicate, set_game, int_gt, same, find, find_in, add_to_list,
  modify,
}
use so_tpe.Fantasy.Game.Text
use so_tpe.Fantasy.Game.Answer.{
  error_status, create_msg, say, in_red, with_status, refusal, success,
}
use so_tpe.Fantasy.Game.Leagues.{refuse}

abbrev pub trade_type : ℕ
trade_type = 9

abbrev pub trade_withdraw_type : ℕ
trade_withdraw_type = 10

abbrev pub is_some {ℓ} : {A : Type ℓ} → Option A → Bool
is_some none = false
is_some (some _) = true

abbrev pub is_inactive : LeagueStatus → Bool
is_inactive LeagueStatus.inactive = true
is_inactive _ = false

abbrev pub is_awaiting : TradeState → Bool
is_awaiting TradeState.awaiting = true
is_awaiting _ = false

-- The player of that name, with the position in the team.
unfoldable pub find_player : List ℕ → List Player → Option (ℕ × Player)
find_player name players = find (λ p. same p.name name) players

-- Does the first team of that owner have the player?
unfoldable pub owns : List ℕ → List ℕ → List Team → Bool
owns owner name teams = elim (find (λ t. same t.owner owner) teams) [
  | none ↦ false
  | some (_, t) ↦ is_some (find_player name t.players)
]

-- `malloc(strlen(user + 1))` for the copy of a name: does it give room for the name and its NUL?
-- `user + 1` skips the first byte, and of an empty name it is behind the NUL.
unfoldable pub name_fits : (ℕ → ℕ) → List ℕ → Bool
name_fits usable [] = false
name_fits usable (_ ∷ name) = ltb (length name + 1) (usable (length name))

-- The trade that is made, when its names have room.
unfoldable pub offer : ℕ → List ℕ → List ℕ → List ℕ → List ℕ → Game → Game
offer j from to user_from user_to g =
    let id = (g.cant_trades + 1) % 2 ^ 32 in
    let t : Trade = record {
      id = id;
      state = TradeState.awaiting;
      user_from = user_from;
      user_to = user_to;
      player_from = from;
      player_to = to;
    } in
    record g {
      cant_trades = id;
      leagues = modify j (λ l. record l { trades = add_to_list t l.trades }) g.leagues;
    }

-- The team is found in the league at `j`. A copy of the user's name without room is a fault.
unfoldable pub trade_found : List ℕ → List ℕ → User → ℕ → League → Team → Server → Outcome Server
trade_found from to u j l t s =
    if is_inactive l.status
    then refuse trade_type Text.inactive_league s
    else if not (is_some (find (λ id. id == l.id) u.leagues_ids))
    then refuse trade_type Text.no_team_in_league s
    else if not (is_some (find_player to t.players))
    then refuse trade_type Text.no_player_to s
    else if not (owns u.user from l.teams)
    then refuse trade_type Text.no_player_from s
    else if not (name_fits s.usable u.user)
    then fault
    else done (
        communicate (success trade_type Text.successful_trade s)
          (unlock (set_game (offer j from to u.user t.owner s.game) s)))

-- With no team of that number it returns in the locked section, without an answer. The refusal of
-- a number that is too large has its text twice.
unfoldable pub trade_locked : List ℕ → List ℕ → ℕ → User → Server → Outcome Server
trade_locked from to team_id u s =
    let twice =
      with_status error_status
        (say Text.incorrect_id (in_red Text.incorrect_id (create_msg trade_type s))) in
    if int_gt team_id s.game.cant_teams
    then done (communicate twice (unlock s))
    else elim (find_in (λ l. l.teams) (λ t. t.id == team_id) s.game.leagues) [
      | none ↦ done s
      | some (j, l, _, t) ↦ trade_found from to u j l t s
    ]

unfoldable pub execute_trade : List ℕ → List ℕ → ℕ → Server → Outcome Server
execute_trade from to team_id s = elim s.me [
  | none ↦ done (communicate (refusal trade_type Text.no_logged s) s)
  | some i ↦ elim (get_elem? s.game.users i) [
    | none ↦ fault
    | some u ↦ lock s >>= trade_locked from to team_id u
  ]
]

unfoldable pub set_trade_state : ℕ → ℕ → TradeState → Game → Game
set_trade_state j k state g = record g {
  leagues =
      modify j (λ l. record l { trades = modify k (λ t. record t { state = state }) l.trades })
        g.leagues;
}

unfoldable pub withdraw_found : User → ℕ → ℕ → Trade → Server → Outcome Server
withdraw_found u j k t s =
    if not (same t.user_to u.user) && not (same t.user_from u.user)
    then refuse trade_withdraw_type Text.is_not_your_trade s
    else if not (is_awaiting t.state)
    then refuse trade_withdraw_type Text.ended_trade s
    else done (
        communicate (success trade_withdraw_type Text.trade_canceled s)
          (unlock (set_game (set_trade_state j k TradeState.canceled s.game) s)))

-- As `trade_locked`, with no trade of that number.
unfoldable pub withdraw_locked : ℕ → User → Server → Outcome Server
withdraw_locked input u s =
    if int_gt input s.game.cant_trades
    then refuse trade_withdraw_type Text.incorrect_id s
    else elim (find_in (λ l. l.trades) (λ t. t.id == input) s.game.leagues) [
      | none ↦ done s
      | some (j, _, k, t) ↦ withdraw_found u j k t s
    ]

unfoldable pub execute_trade_withdraw : ℕ → Server → Outcome Server
execute_trade_withdraw input s = elim s.me [
  | none ↦ done (communicate (refusal trade_withdraw_type Text.no_logged s) s)
  | some i ↦ elim (get_elem? s.game.users i) [
    | none ↦ fault
    | some u ↦ lock s >>= withdraw_locked input u
  ]
]
