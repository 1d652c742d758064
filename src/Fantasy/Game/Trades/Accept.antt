-- ===== src/Fantasy/Game/Trades/Accept.antt =====
-- executeTradeAccept of TPE1/src/server/execute.c.
use so_tpe.Prelude.{
  ℕ, ◌+◌, ◌-◌, Bool, true, false, Option, none, some, List, [], ◌∷◌, get_elem?, not, ◌&&◌, ◌||◌,
  ◌==◌, ltb, if◌then◌else◌,
}
use so_tpe.Fantasy.Game.{
  Player, TradeState, Trade, User, Team, League, Game, Server, Outcome, done, fault, ◌>>=◌, Search,
  go, stop, lock, unlock, communicate, set_game, int_gt, same, remove_at, add_to_list, modify,
}
use so_tpe.Fantasy.Game.Text
use so_tpe.Fantasy.Game.Answer.{refusal, success}
use so_tpe.Fantasy.Game.Leagues.{refuse}
use so_tpe.Fantasy.Game.Trades.{is_some, is_awaiting, find_player, set_trade_state}

abbrev pub trade_accept_type : ℕ
trade_accept_type = 11

-- What the search comes to: a refusal, or an exchange between the teams at two positions, of the
-- players found there.
pub data Verdict : Type 0 where
  refused : (text : List ℕ) → Verdict
  exchange : (team_from : ℕ) (from : Option (ℕ × Player)) (team_to : ℕ) (to : ℕ × Player) → Verdict

-- The loop for the team of `userTo`, from position `j` on. It returns at the first such team.
unfoldable pub seek_to : Trade → ℕ → Option (ℕ × Player) → ℕ → List Team → Option Verdict
seek_to t i from j [] = none
seek_to t i from j (x ∷ ts) =
    let rest = seek_to t i from (j + 1) ts in
    if same x.owner t.user_to
    then elim (find_player t.player_to x.players) [
      | none ↦ some (refused Text.unavailable_player_t)
      | some to ↦ some (exchange i from j to)
    ]
    else rest

-- The loop for the teams of `userFrom`, from position `i` on; `flag` is `flagF`.
unfoldable pub seek_from : Trade → List Team → Bool → ℕ → List Team → Search Bool Verdict
seek_from t teams flag i [] = go flag
seek_from t teams flag i (x ∷ ts) =
    let from = find_player t.player_from x.players in
    let next = seek_from t teams true (i + 1) ts in
    let rest = seek_from t teams flag (i + 1) ts in
    if same x.owner t.user_from
    then if flag || is_some from
      then elim (seek_to t i from 0 teams) [ some v ↦ stop v | none ↦ next ]
      else stop (refused Text.unavailable_player_f)
    else rest

-- The body at a trade of the number asked for.
unfoldable pub accept_trade : User → List Team → Bool → Trade → Search Bool Verdict
accept_trade u teams flag t =
    if not (same t.user_to u.user)
    then stop (refused Text.is_not_your_trade)
    else if not (is_awaiting t.state)
    then stop (refused Text.ended_trade)
    else seek_from t teams flag 0 teams

-- The loop over the trades of a league, from position `k` on.
unfoldable pub accept_trades :
    ℕ → User → List Team → Bool → ℕ → List Trade → Search Bool (ℕ × Verdict)
accept_trades input u teams flag k [] = go flag
accept_trades input u teams flag k (t ∷ ts) = elim (t.id == input) [
  | true ↦ elim (accept_trade u teams flag t) [
    | go flag' ↦ accept_trades input u teams flag' (k + 1) ts
    | stop v ↦ stop (k, v)
  ]
  | false ↦ accept_trades input u teams flag (k + 1) ts
]

-- The loop over the leagues, from position `j` on.
unfoldable pub accept_leagues : ℕ → User → Bool → ℕ → List League → Search Bool (ℕ × ℕ × Verdict)
accept_leagues input u flag j [] = go flag
accept_leagues input u flag j (l ∷ ls) = elim (accept_trades input u l.teams flag 0 l.trades) [
  | go flag' ↦ accept_leagues input u flag' (j + 1) ls
  | stop (k, v) ↦ stop (j, k, v)
]

-- The players change teams: each is taken out of its own, and then put at the end of the other. When
-- both are one team the first removal moves the second player.
unfoldable pub exchange_players : ℕ → ℕ × Player → ℕ → ℕ × Player → List Team → List Team
exchange_players i (p, from) j (q, to) teams =
    let out =
      λ (n : ℕ) (x : Team). let x' : Team = record x { players = remove_at n x.players } in x' in
    let into = λ (y : Player) (x : Team).
      let x' : Team = record x { players = add_to_list y x.players } in x' in
    let q' = if (i == j) && ltb p q then q - 1 else q in
    modify i (into to) (modify j (out q') (modify j (into from) (modify i (out p) teams)))

-- One player twice, in one team, is a fault: `Remove` reads its `flag` before it is written.
unfoldable pub accept_exchange :
    ℕ → ℕ → ℕ → Option (ℕ × Player) → ℕ → ℕ × Player → Server → Outcome Server
accept_exchange n k i none j to s = fault
accept_exchange n k i (some from) j to s =
    let g = set_trade_state n k TradeState.accepted s.game in
    let g' : Game = record g {
      leagues = modify n (λ l. record l { teams = exchange_players i from j to l.teams }) g.leagues;
    } in
    if (i == j) && (from.0 == to.0)
    then fault
    else done
        (communicate (success trade_accept_type Text.trade_accepted s) (unlock (set_game g' s)))

-- With no verdict it returns in the locked section, without an answer.
unfoldable pub accept_locked : ℕ → User → Server → Outcome Server
accept_locked input u s =
    if int_gt input s.game.cant_trades
    then refuse trade_accept_type Text.incorrect_id s
    else elim (accept_leagues input u false 0 s.game.leagues) [
      | go _ ↦ done s
      | stop (n, k, refused text) ↦ refuse trade_accept_type text s
      | stop (n, k, exchange i from j to) ↦ accept_exchange n k i from j to s
    ]

unfoldable pub execute_trade_accept : ℕ → Server → Outcome Server
execute_trade_accept input s = elim s.me [
  | none ↦ done (communicate (refusal trade_accept_type Text.no_logged s) s)
  | some i ↦ elim (get_elem? s.game.users i) [
    | none ↦ fault
    | some u ↦ lock s >>= accept_locked input u
  ]
]
