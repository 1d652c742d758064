-- ===== src/Fantasy/Game/Steps/Final.antt =====
-- A trade that has ended stays as it is.
use so_tpe.Prelude.{
  ℕ, zero, suc, ◌+◌, ◌%◌, ◌^◌, ◌≡◌, ◌≢◌, sym, ap, ◌∙◌, inl, inr, true, false, some, List, [], ◌∷◌,
  ◌++◌, ◌==◌, Bool-cases, arith, get_elem?,
}
use so_tpe.Fantasy.Game.{Trade, TradeState, League, Game, add_to_list, modify, Server, Outcome}
use so_tpe.Fantasy.Message.Defs.{Message}
use so_tpe.Fantasy.Game.Drafts.{Next}
use so_tpe.Fantasy.Game.Execute.{execute}
use so_tpe.Fantasy.Game.Steps.Executes.{execute-Steps}
use so_tpe.Fantasy.Game.Leagues.{new_league, new_team, join}
use so_tpe.Fantasy.Game.Trades.{is_awaiting, offer, set_trade_state}
use so_tpe.Fantasy.Game.Trades.Accept.{exchange_players}
use so_tpe.Fantasy.Game.Steps.{Step, Steps, here, next, Awaits}
use so_tpe.Fantasy.Game.Steps.Cancels.{get_elem?-modify, get_elem?-modify_other}

-- `t` is the trade at position `k` of the league at `j`.
pub record TradeAt (g : Game) (j k : ℕ) (t : Trade) : Type 0 where
  pub league : League
  pub at_league : get_elem? g.leagues j ≡ some league
  pub at_trade : get_elem? league.trades k ≡ some t

get_elem?-append {ℓ} :
    {A : Type ℓ} (xs ys : List A) (i : ℕ) {x : A}
    → get_elem? xs i ≡ some x
    → get_elem? (xs ++ ys) i ≡ some x
get_elem?-append [] ys i e = absurd cc
get_elem?-append (x ∷ xs) ys zero e = e
get_elem?-append (x ∷ xs) ys (suc i) e = get_elem?-append xs ys i e

-- A change of the leagues that keeps the trade, if it changes its league.
TradeAt-modify :
    (g : Game) (i : ℕ) (f : League → League) (j k : ℕ) (t : Trade)
    → TradeAt g j k t
    → (i ≡ j
        → (l : League) → get_elem? g.leagues j ≡ some l
        → get_elem? l.trades k ≡ some t
        → get_elem? (f l).trades k ≡ some t)
    → TradeAt (record g { leagues = modify i f g.leagues }) j k t
TradeAt-modify g i f j k t a keep = elim (Bool-cases (i == j)) [
  | inl e ↦
      let same_league : i ≡ j = ground arith in
      record {
        league = f a.league;
        at_league = rw same_league (get_elem?-modify j f g.leagues a.at_league);
        at_trade = keep same_league a.league a.at_league a.at_trade;
      }
  | inr e ↦
      let other : i ≢ j = ground arith in
      record {
        league = a.league;
        at_league = rw (get_elem?-modify_other i f g.leagues j other) a.at_league;
        at_trade = a.at_trade;
      }
]

cong_at :
    (ls : List League) {i j : ℕ} {l m : League}
    → i ≡ j
    → get_elem? ls i ≡ some l
    → get_elem? ls j ≡ some m
    → l ≡ m
cong_at ls e a b = cc

differ :
    {l m : League} {n k : ℕ} {t u : Trade}
    → l ≡ m
    → n ≡ k
    → get_elem? l.trades n ≡ some t
    → get_elem? m.trades k ≡ some u
    → is_awaiting t.state ≡ true
    → is_awaiting u.state ≡ false
    → ⊥
differ {l} {m} {n} {k} {t} {u} e f a b c d =
    let same_trade : t ≡ u = cc in
    let clash : true ≡ false = sym c ∙ ap (λ x. is_awaiting x.state) same_trade ∙ d in cc

-- A trade that has ended is not the one that waits.
set_trade_state-TradeAt :
    (g : Game) (i n : ℕ) (state : TradeState) (j k : ℕ) (t : Trade)
    → Awaits g i n
    → is_awaiting t.state ≡ false
    → TradeAt g j k t
    → TradeAt (set_trade_state i n state g) j k t
unfolding set_trade_state
set_trade_state-TradeAt g i n state j k t w ended a = TradeAt-modify g i _ j k t a (λ e l at is.
    rw
      (get_elem?-modify_other n (λ t. record t { state = state }) l.trades k
        (λ (m : n ≡ k).
          differ (cong_at g.leagues e w.at_league at) m w.at_trade is w.waiting ended))
      is)

pub Step-TradeAt :
    {g h : Game} {j k : ℕ} {t : Trade}
    → Step g h
    → is_awaiting t.state ≡ false
    → TradeAt g j k t
    → TradeAt h j k t
unfolding join offer
Step-TradeAt (Step.register g user pass new) ended a = record {
  league = a.league;
  at_league = a.at_league;
  at_trade = a.at_trade;
}
Step-TradeAt (Step.log_in g user new) ended a = record {
  league = a.league;
  at_league = a.at_league;
  at_trade = a.at_trade;
}
Step-TradeAt (Step.log_out g i) ended a = record {
  league = a.league;
  at_league = a.at_league;
  at_trade = a.at_trade;
}
Step-TradeAt {j = j} {k = k} {t = t} (Step.join_league g i n u input l is room new) ended a =
    let team = new_team ((g.cant_teams + 1) % 2 ^ 32) u.user in
    let b =
      TradeAt-modify g i (λ l. record l { teams = add_to_list team l.teams }) j k t a
        (λ e l at is. is) in
    record { league = b.league; at_league = b.at_league; at_trade = b.at_trade }
Step-TradeAt {j = j} {k = k} {t = t} (Step.create_league g id name players) ended a = record {
  league = a.league;
  at_league = get_elem?-append g.leagues (new_league id name players ∷ []) j a.at_league;
  at_trade = a.at_trade;
}
Step-TradeAt {j = j} {k = k} {t = t} (Step.make_offer g i from to user_from user_to) ended a =
    let new : Trade = record {
      id = (g.cant_trades + 1) % 2 ^ 32;
      state = TradeState.awaiting;
      user_from = user_from;
      user_to = user_to;
      player_from = from;
      player_to = to;
    } in
    let b =
      TradeAt-modify g i (λ l. record l { trades = add_to_list new l.trades }) j k t a
        (λ e l at is. get_elem?-append l.trades (new ∷ []) k is) in
    record { league = b.league; at_league = b.at_league; at_trade = b.at_trade }
Step-TradeAt {j = j} {k = k} {t = t} (Step.cancel g i n w) ended a =
    set_trade_state-TradeAt g i n TradeState.canceled j k t w ended a
Step-TradeAt {j = j} {k = k} {t = t} (Step.accept g i n w) ended a =
    set_trade_state-TradeAt g i n TradeState.accepted j k t w ended a
Step-TradeAt {j = j} {k = k} {t = t} (Step.exchange g n i from m to) ended a =
    TradeAt-modify g n (λ l. record l { teams = exchange_players i from m to l.teams }) j k t a
      (λ e l at is. is)
Step-TradeAt {j = j} {k = k} {t = t} (Step.draft g i f only) ended a =
    TradeAt-modify g i f j k t a (λ e l at is. rw (only.trades l) is)

-- A trade that was accepted or cancelled is the same after any steps.
pub Steps-TradeAt :
    {g h : Game} {j k : ℕ} {t : Trade}
    → Steps g h
    → is_awaiting t.state ≡ false
    → TradeAt g j k t
    → TradeAt h j k t
Steps-TradeAt (here g) ended a = a
Steps-TradeAt (next r s) ended a = Step-TradeAt s ended (Steps-TradeAt r ended a)

-- A trade that was accepted or cancelled stands unchanged at its place after each request that
-- returns.
pub execute-TradeAt :
    (players : List (List ℕ)) (m : Message) (s s' : Server) (n : Next) (j k : ℕ) (t : Trade)
    → is_awaiting t.state ≡ false
    → TradeAt s.game j k t
    → execute players m s ≡ Outcome.done (s', n)
    → TradeAt s'.game j k t
execute-TradeAt players m s s' n j k t ended a e =
    let r : Steps s.game s'.game = rw e at (execute-Steps players m s) in Steps-TradeAt r ended a
