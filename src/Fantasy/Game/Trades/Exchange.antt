-- ===== src/Fantasy/Game/Trades/Exchange.antt =====
-- What accepting a trade does, by executeTradeAccept of TPE1/src/server/execute.c.
use so_tpe.Prelude.{
  ℕ, ◌≡◌, ◌≢◌, refl, ap, ◌∙◌, Bool, true, false, some, [], ◌∷◌, ◌++◌, ◌==◌, ◌&&◌, arith, get_elem?,
}
use so_tpe.Fantasy.Game.{
  Player, TradeState, Trade, User, Team, League, Game, Server, done, stop, lock, unlock,
  communicate, set_game, int_gt, same, find, find_in, modify,
}
use so_tpe.Fantasy.Game.Text
use so_tpe.Fantasy.Game.Answer.{success, create_msg}
use so_tpe.Fantasy.Game.Trades.{is_awaiting, find_player, set_trade_state}
use so_tpe.Fantasy.Game.Names.{find-get_elem?}
use so_tpe.Fantasy.Game.Found.{find_in-FoundIn}
use so_tpe.Fantasy.Game.Steps.Cancels.{get_elem?-modify, get_elem?-modify_other}
use so_tpe.Fantasy.Game.Trades.Swap.{IsSwapped, exchange_players-IsSwapped}
use so_tpe.Fantasy.Game.Trades.Loops.{seek_from-exchange, accept_leagues-stop}
use so_tpe.Fantasy.Game.Trades.Accept.{
  trade_accept_type, exchange, accept_trade, accept_leagues, exchange_players, accept_exchange,
  accept_locked, execute_trade_accept,
}

-- The first trade of that number waits for the user `u`, and the first teams of its two users have
-- the players that it names; these are two teams.
pub record IsOpen (u : User) (input : ℕ) (g : Game) (n k i : ℕ) (from : ℕ × Player) (j : ℕ)
    (to : ℕ × Player) : Type 0 where
  pub league : League
  pub trade : Trade
  pub team_from : Team
  pub team_to : Team
  pub counted : int_gt input g.cant_trades ≡ false
  pub at_trade : find_in (λ l. l.trades) (λ t. t.id == input) g.leagues ≡ some (n, league, k, trade)
  pub mine : same trade.user_to u.user ≡ true
  pub waiting : is_awaiting trade.state ≡ true
  pub at_from : find (λ x. same x.owner trade.user_from) league.teams ≡ some (i, team_from)
  pub has_from : find_player trade.player_from team_from.players ≡ some from
  pub at_to : find (λ x. same x.owner trade.user_to) league.teams ≡ some (j, team_to)
  pub has_to : find_player trade.player_to team_to.players ≡ some to
  pub apart : i ≢ j

-- The game as the handler leaves it.
exchanged : ℕ → ℕ → ℕ → ℕ × Player → ℕ → ℕ × Player → Game → Game
exchanged n k i from j to g =
    let g' = set_trade_state n k TradeState.accepted g in
    record g' {
      leagues =
          modify n (λ l. record l { teams = exchange_players i from j to l.teams }) g'.leagues;
    }

accept_trade-exchange :
    (u : User) (input : ℕ) (g : Game) (n k i : ℕ) (from : ℕ × Player) (j : ℕ) (to : ℕ × Player)
    (w : IsOpen u input g n k i from j to)
    → accept_trade u w.league.teams false w.trade ≡ stop (exchange i (some from) j to)
unfolding accept_trade
accept_trade-exchange u input g n k i from j to w =
    rw (w.mine, w.waiting)
      (seek_from-exchange w.trade w.league.teams 0 w.league.teams i w.team_from from j w.team_to to
          w.at_from w.has_from w.at_to w.has_to
        ∙ ap (λ m. stop (exchange m (some from) j to)) (omega arith))

different : (i j : ℕ) (b : Bool) → i ≢ j → ((i == j) && b) ≡ false
different i j b apart = ground arith

accept_locked-exchange :
    (u : User) (input : ℕ) (s : Server) (n k i : ℕ) (from : ℕ × Player) (j : ℕ) (to : ℕ × Player)
    → IsOpen u input s.game n k i from j to
    → accept_locked input u s
      ≡ done (
          communicate
            (success trade_accept_type Text.trade_accepted s)
            (unlock (set_game (exchanged n k i from j to s.game) s)))
unfolding accept_locked accept_exchange exchanged
accept_locked-exchange u input s n k i from j to w =
    let all : accept_leagues input u false 0 s.game.leagues
        ≡ stop (n, k, exchange i (some from) j to) =
      accept_leagues-stop input u false 0 s.game.leagues n w.league k w.trade _ w.at_trade
        (accept_trade-exchange u input s.game n k i from j to w)
      ∙ ap (λ m. stop (m, k, exchange i (some from) j to)) (omega arith) in
    let two : ((i == j) && (from.0 == to.0)) ≡ false = different i j (from.0 == to.0) w.apart in
    rw (w.counted, all, accept_locked) (rw two refl)

accept_run :
    (u : User) (m input : ℕ) (s : Server)
    → s.locked ≡ false
    → s.me ≡ some m
    → get_elem? s.game.users m ≡ some u
    → execute_trade_accept input s ≡ accept_locked input u (record s { locked = true })
unfolding execute_trade_accept lock
accept_run u m input s free me user = simp (me, user, free, execute_trade_accept)

-- `g'` is `g` but for the trade at `k` of the league at `n`, which is accepted, and for the players
-- `from` of the team at `i` and `to` of that at `j`, each by the position in its team: each is taken
-- out of its own team and stands at the end of the other.
pub record IsExchanged (g g' : Game) (n k i : ℕ) (from : ℕ × Player) (j : ℕ) (to : ℕ × Player)
    (l : League) (t : Trade) (a b : Team) : Type 0 where
  pub league : League
  pub at_league : get_elem? g'.leagues n ≡ some league
  pub at_trade : get_elem? league.trades k ≡ some (record t { state = TradeState.accepted })
  pub teams : IsSwapped l.teams league.teams i a from.0 from.1 j b to.0 to.1
  pub trades : (m : ℕ) → k ≢ m → get_elem? league.trades m ≡ get_elem? l.trades m
  pub same_league : league ≡ record l { teams = league.teams; trades = league.trades }
  pub leagues : (m : ℕ) → n ≢ m → get_elem? g'.leagues m ≡ get_elem? g.leagues m
  pub same_game : g' ≡ record g { leagues = g'.leagues }

exchanged-IsExchanged :
    (u : User) (input : ℕ) (g : Game) (n k i : ℕ) (from : ℕ × Player) (j : ℕ) (to : ℕ × Player)
    (w : IsOpen u input g n k i from j to)
    → IsExchanged g
        (exchanged n k i from j to g)
        n
        k
        i
        from
        j
        to
        w.league
        w.trade
        w.team_from
        w.team_to
unfolding exchanged set_trade_state find_player
exchanged-IsExchanged u input g n k i from j to w =
    let found =
      find_in-FoundIn (λ (l : League). l.trades) (λ (t : Trade). t.id == input) g.leagues
        w.at_trade in
    let accept = λ (t : Trade). let t' : Trade = record t { state = TradeState.accepted } in t' in
    let f =
      λ (l : League). let l' : League = record l { trades = modify k accept l.trades } in l' in
    let h = λ (l : League).
      let l' : League = record l { teams = exchange_players i from j to l.teams } in l' in
    record {
      league = h (f w.league);
      at_league =
          get_elem?-modify n h (modify n f g.leagues)
            (get_elem?-modify n f g.leagues found.outside);
      at_trade = get_elem?-modify k accept w.league.trades found.inside;
      teams =
          exchange_players-IsSwapped w.league.teams i w.team_from from.0 from.1 j w.team_to to.0
            to.1 w.apart
            (find-get_elem? (λ (x : Team). same x.owner w.trade.user_from) w.league.teams
              w.at_from).0
            (find-get_elem? (λ (x : Team). same x.owner w.trade.user_to) w.league.teams w.at_to).0
            (find-get_elem? (λ (y : Player). same y.name w.trade.player_to) w.team_to.players
              w.has_to).0;
      trades = λ m ne. get_elem?-modify_other k accept w.league.trades m ne;
      same_league = refl;
      leagues = λ m ne.
          get_elem?-modify_other n h (modify n f g.leagues) m ne
          ∙ get_elem?-modify_other n f g.leagues m ne;
      same_game = refl;
    }

-- With the mutex free, a user who accepts a trade that waits for her, between two teams that still
-- have its players, gets one answer, and the mutex is free again: the trade is accepted, each of
-- the two players goes to the end of the other team, and nothing else of the game changes.
pub execute_trade_accept-exchange :
    (u : User) (m input : ℕ) (s : Server) (n k i : ℕ) (from : ℕ × Player) (j : ℕ) (to : ℕ × Player)
    → s.locked ≡ false
    → s.me ≡ some m
    → get_elem? s.game.users m ≡ some u
    → (w : IsOpen u input s.game n k i from j to)
    → (s' : Server) × (execute_trade_accept input s ≡ done s')
      × IsExchanged s.game s'.game n k i from j to w.league w.trade w.team_from w.team_to
      × (s'.sent ≡ s.sent ++ success trade_accept_type Text.trade_accepted s ∷ [])
      × (s'.locked ≡ false)
unfolding communicate unlock success create_msg
execute_trade_accept-exchange u m input s n k i from j to free me user w =
    let s1 : Server = record s { locked = true } in
    (
      communicate (success trade_accept_type Text.trade_accepted s1)
          (unlock (set_game (exchanged n k i from j to s.game) s1)),
      accept_run u m input s free me user ∙ accept_locked-exchange u input s1 n k i from j to w,
      exchanged-IsExchanged u input s.game n k i from j to w,
      refl,
      refl,
    )
