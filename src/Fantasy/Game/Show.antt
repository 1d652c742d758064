-- ===== src/Fantasy/Game/Show.antt =====
-- executeListLeagues, executeListTeams, executeListTrades, executeLeagueShow, executeTeamShow and
-- executeTradeShow of TPE1/src/server/execute.c. They read the game and answer.
use so_tpe.Prelude.{
  ℕ, none, some, List, [], ◌∷◌, ◌++◌, length, get_elem?, ◌||◌, ◌==◌, if◌then◌else◌,
}
use so_tpe.Fantasy.Reply.{Reply}
use so_tpe.Fantasy.Game.{
  Player, TradeState, Trade, Team, League, Server, Outcome, done, fault, ◌>>=◌, lock, unlock,
  communicate, int_gt, same, find, find_in,
}
use so_tpe.Fantasy.Game.Text
use so_tpe.Fantasy.Game.Text.{codes}
use so_tpe.Fantasy.Game.Answer.{
  ok_status, error_status, decimal, create_msg, say, print_yellow_color, print_green_color,
  release_print_color, in_red, in_green, with_status,
}
use so_tpe.Fantasy.Game.Leagues.{refuse}

abbrev pub list_leagues_type : ℕ
list_leagues_type = 3

abbrev pub list_teams_type : ℕ
list_teams_type = 4

abbrev pub list_trades_type : ℕ
list_trades_type = 5

abbrev pub league_show_type : ℕ
league_show_type = 6

abbrev pub team_show_type : ℕ
team_show_type = 7

abbrev pub trade_show_type : ℕ
trade_show_type = 8

-- "*** League "name" ***"
unfoldable pub title : League → List ℕ
title l = codes "\n*** League \"" ++ l.name ++ codes "\" *** \n"

-- The heading of each league is formatted and not added.
unfoldable pub league_lines : List League → Reply → Reply
league_lines [] r = r
league_lines (l ∷ ls) r =
    let line =
      codes "\tLeague #"
      ++ decimal l.id
      ++ codes ": "
      ++ 0x1b ∷ codes "[0;32;40m\""
      ++ l.name
      ++ codes "\" \n" in
    league_lines ls (
      release_print_color
        (say line (print_green_color (release_print_color (print_green_color r)))))

unfoldable pub execute_list_leagues : Server → Outcome Server
execute_list_leagues s0 = do
  s ← lock s0
  let r = create_msg list_leagues_type s
  let answer =
      if length s.game.leagues == 0 then in_red Text.no_league r else league_lines s.game.leagues r
  done (communicate (with_status ok_status answer) (unlock s))

unfoldable pub team_lines : List Team → Reply → Reply
team_lines [] r = r
team_lines (t ∷ ts) r =
    team_lines ts
      (say (codes "\tTeam: " ++ decimal t.id ++ codes " - Owner: " ++ t.owner ++ codes "\n") r)

unfoldable pub teams_by_league : List League → Reply → Reply
teams_by_league [] r = r
teams_by_league (l ∷ ls) r = teams_by_league ls (team_lines l.teams (in_green (title l) r))

unfoldable pub execute_list_teams : Server → Outcome Server
execute_list_teams s0 = do
  s ← lock s0
  let answer = teams_by_league s.game.leagues (create_msg list_teams_type s)
  (if s.game.cant_teams == 0
      then refuse list_teams_type Text.no_teams s
      else done (unlock (communicate (with_status ok_status answer) s)))

unfoldable pub state_text : TradeState → List ℕ
state_text TradeState.awaiting = codes "[5;33m[AWAITING]"
state_text TradeState.canceled = codes "[5;31m[CANCELED]"
state_text TradeState.accepted = codes "[5;32m[ACCEPTED]"

-- The line of a trade, and its two resets.
unfoldable pub trade_line : Trade → Reply → Reply
trade_line t r =
    let head = codes "\n" ++ 0x1b ∷ codes "[1;36mTrade ID " ++ decimal t.id ++ codes ": " in
    let parties =
      0x1b ∷ codes "[0;36m"
      ++ t.player_from
      ++ codes " ("
      ++ t.user_from
      ++ codes ") ---> "
      ++ t.user_to
      ++ codes " ("
      ++ t.player_to
      ++ codes ")\n\t\t" in
    release_print_color (say (head ++ parties ++ 0x1b ∷ state_text t.state) r)

unfoldable pub trade_lines : List ℕ → List Trade → Reply → Reply
trade_lines user [] r = r
trade_lines user (t ∷ ts) r =
    trade_lines user ts (if same user t.user_from || same user t.user_to then trade_line t r else r)

unfoldable pub trades_by_league : List ℕ → List League → Reply → Reply
trades_by_league user [] r = r
trades_by_league user (l ∷ ls) r =
    trades_by_league user ls (trade_lines user l.trades (in_green (title l) r))

-- The status is OK at the end whatever it was before.
unfoldable pub list_trades : Server → Outcome Server
list_trades s =
    let r = create_msg list_trades_type s in
    let send = λ (a : Reply). done (communicate (with_status ok_status a) (unlock s)) in
    elim s.me [
      | none ↦ send (in_red Text.no_logged r)
      | some i ↦ elim (get_elem? s.game.users i) [
        | none ↦ fault
        | some u ↦
            let a = trades_by_league u.user s.game.leagues r in
            send (if length a.msg_list == 0 then in_red Text.no_trades a else a)
      ]
    ]

unfoldable pub execute_list_trades : Server → Outcome Server
execute_list_trades s = lock s >>= list_trades

unfoldable pub in_yellow : List ℕ → Reply → Reply
in_yellow text r = release_print_color (say text (print_yellow_color r))

unfoldable pub player_lines : List ℕ → List Player → Reply → Reply
player_lines indent [] r = r
player_lines indent (p ∷ ps) r =
    player_lines indent ps
      (say (indent ++ p.name ++ codes "\t(" ++ decimal p.points ++ codes " points)") r)

unfoldable pub team_line : Team → List ℕ
team_line t =
    codes "\tTeam: "
    ++ decimal t.id
    ++ codes " - Owner: "
    ++ t.owner
    ++ codes " - Points: "
    ++ decimal t.points
    ++ codes "\n"

unfoldable pub score_lines : List Team → Reply → Reply
score_lines [] r = r
score_lines (t ∷ ts) r = score_lines ts (say (team_line t) r)

-- A number of no league is answered with OK too.
unfoldable pub execute_league_show : ℕ → Server → Outcome Server
execute_league_show input s0 = do
  s ← lock s0
  let r = create_msg league_show_type s
  let show = λ (l : League). score_lines l.teams (
      in_yellow (codes "\n** Teams **\n") (
        player_lines (codes "\n\t") l.available_players
          (in_yellow (codes "\n** Available Players **") (in_green (title l) r))))
  let answer : Reply = elim (find (λ l. l.id == input) s.game.leagues) [
    | some (_, l) ↦ show l
    | none ↦ in_red Text.incorrect_id r
  ]
  done (communicate (with_status ok_status answer) (unlock s))

-- The status is ERROR also when the team is found.
unfoldable pub execute_team_show : ℕ → Server → Outcome Server
execute_team_show input s0 = do
  s ← lock s0
  let r = create_msg team_show_type s
  let show = λ (l : League) (t : Team).
      player_lines (codes "\n\t\t") t.players
        (say (codes "\tPlayers:") (in_yellow (team_line t) (in_green (title l) r)))
  let answer : Reply = elim (find_in (λ l. l.teams) (λ t. t.id == input) s.game.leagues) [
    | some (_, l, _, t) ↦ show l t
    | none ↦ in_red Text.incorrect_id r
  ]
  done (communicate (with_status error_status answer) (unlock s))

-- With no trade of that number it returns in the locked section, without an answer.
unfoldable pub trade_show_locked : ℕ → Server → Outcome Server
trade_show_locked input s =
    if int_gt input s.game.cant_trades
    then refuse trade_show_type Text.incorrect_id s
    else elim (find_in (λ l. l.trades) (λ t. t.id == input) s.game.leagues) [
      | none ↦ done s
      | some (_, _, _, t) ↦ done (
          communicate (with_status ok_status (trade_line t (create_msg trade_show_type s)))
            (unlock s))
    ]

unfoldable pub execute_trade_show : ℕ → Server → Outcome Server
execute_trade_show input s = lock s >>= trade_show_locked input
