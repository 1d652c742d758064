-- ===== src/Fantasy/Game/Trades/Negotiate.antt =====
-- executeTradeNegotiate of TPE1/src/server/execute.c.
use so_tpe.Prelude.{
  ℕ, ◌+◌, true, false, none, some, List, [], ◌∷◌, get_elem?, not, ◌==◌, if◌then◌else◌,
}
use so_tpe.Fantasy.Game.{
  TradeState, Trade, User, Team, League, Game, Server, Outcome, done, fault, ◌>>=◌, Search, go,
  stop, lock, unlock, communicate, set_game, int_gt, same, find,
}
use so_tpe.Fantasy.Game.Text
use so_tpe.Fantasy.Game.Answer.{refusal}
use so_tpe.Fantasy.Game.Leagues.{refuse}
use so_tpe.Fantasy.Game.Trades.{is_awaiting, set_trade_state, execute_trade}

abbrev pub trade_negotiate_type : ℕ
trade_negotiate_type = 12

-- What the search comes to: a refusal, or a new offer to the team of that number.
pub data Verdict : Type 0 where
  refused : (text : List ℕ) → Verdict
  renewed : (team_id : ℕ) → Verdict

-- The body at a trade of the number asked for, at position `k` of the league at `j`. With no team of
-- `userFrom` the trade stays cancelled and the loop goes on.
unfoldable pub negotiate_trade :
    User → List Team → ℕ → ℕ → Trade → Game → Search Game (Game × Verdict)
negotiate_trade u teams j k t g =
    let g' = set_trade_state j k TradeState.canceled g in
    if not (same t.user_to u.user)
    then stop (g, refused Text.is_not_your_trade)
    else if not (is_awaiting t.state)
    then stop (g, refused Text.ended_trade)
    else elim (find (λ x. same x.owner t.user_from) teams) [
      | some (_, x) ↦ stop (g', renewed x.id)
      | none ↦ go g'
    ]

unfoldable pub negotiate_trades :
    ℕ → User → List Team → ℕ → ℕ → List Trade → Game → Search Game (Game × Verdict)
negotiate_trades input u teams j k [] g = go g
negotiate_trades input u teams j k (t ∷ ts) g = elim (t.id == input) [
  | true ↦ elim (negotiate_trade u teams j k t g) [
    | go g' ↦ negotiate_trades input u teams j (k + 1) ts g'
    | stop v ↦ stop v
  ]
  | false ↦ negotiate_trades input u teams j (k + 1) ts g
]

unfoldable pub negotiate_leagues : ℕ → User → ℕ → List League → Game → Search Game (Game × Verdict)
negotiate_leagues input u j [] g = go g
negotiate_leagues input u j (l ∷ ls) g = elim (negotiate_trades input u l.teams j 0 l.trades g) [
  | go g' ↦ negotiate_leagues input u (j + 1) ls g'
  | stop v ↦ stop v
]

-- The answer about the cancelled trade is built and never sent; that of the new offer is.
unfoldable pub negotiate_locked : List ℕ → List ℕ → ℕ → User → Server → Outcome Server
negotiate_locked from to input u s =
    if int_gt input s.game.cant_trades
    then refuse trade_negotiate_type Text.incorrect_id s
    else elim (negotiate_leagues input u 0 s.game.leagues s.game) [
      | go g ↦ done (set_game g s)
      | stop (g, refused text) ↦ refuse trade_negotiate_type text (set_game g s)
      | stop (g, renewed team_id) ↦ execute_trade from to team_id (unlock (set_game g s))
    ]

unfoldable pub execute_trade_negotiate : List ℕ → List ℕ → ℕ → Server → Outcome Server
execute_trade_negotiate from to input s = elim s.me [
  | none ↦ done (communicate (refusal trade_negotiate_type Text.no_logged s) s)
  | some i ↦ elim (get_elem? s.game.users i) [
    | none ↦ fault
    | some u ↦ lock s >>= negotiate_locked from to input u
  ]
]
