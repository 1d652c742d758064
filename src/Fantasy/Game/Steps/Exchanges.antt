-- ===== src/Fantasy/Game/Steps/Exchanges.antt =====
-- The handler that accepts a trade, as steps.
use so_tpe.Prelude.{
  ℕ, ◌≡◌, refl, inl, inr, true, false, Option, none, some, ◌==◌, ◌&&◌, Bool-cases, Option-cases,
  get_elem?,
}
use so_tpe.Fantasy.Game.{Player, User, TradeState, Search, Server, unlock, communicate, int_gt}
use so_tpe.Fantasy.Game.Trades.{set_trade_state}
use so_tpe.Fantasy.Game.Trades.Accept.{
  Verdict, accept_leagues, accept_exchange, accept_locked, execute_trade_accept,
}
use so_tpe.Fantasy.Game.Trades.Accept
use so_tpe.Fantasy.Game.Steps.{Step, here, next, Awaits}
use so_tpe.Fantasy.Game.Steps.Ends.{Ends, Goes, Serves, Serves-lock, one}
use so_tpe.Fantasy.Game.Steps.Searches.{
  Search-cases, IfExchange, of_stop, From-all, accept_leagues-Awaits,
}

accept_exchange-Steps :
    (n k i : ℕ) (from : Option (ℕ × Player)) (j : ℕ) (to : ℕ × Player) (s : Server)
    → Awaits s.game n k
    → Ends (Goes s) (accept_exchange n k i from j to s)
unfolding accept_exchange unlock communicate
accept_exchange-Steps n k i none j to s w = tt
accept_exchange-Steps n k i (some from) j to s w =
    elim (Bool-cases ((i == j) && (from.0 == to.0))) [
      | inl e ↦ rw e tt
      | inr e ↦ rw e (
        next (one (Step.accept s.game n k w))
            (Step.exchange (set_trade_state n k TradeState.accepted s.game) n i from j to),
        inl (_, refl, refl),
      )
    ]

accept_verdict-Steps :
    (n k : ℕ) (v : Verdict) (input : ℕ) (u : User) (s : Server)
    → int_gt input s.game.cant_trades ≡ false
    → accept_leagues input u false 0 s.game.leagues ≡ Search.stop (n, k, v)
    → Ends (Goes s) (accept_locked input u s)
unfolding accept_locked unlock communicate
accept_verdict-Steps n k (Accept.refused text) input u s small e =
    rw (small, e, accept_locked) (here s.game, inl (_, refl, refl))
accept_verdict-Steps n k (Accept.exchange i from j to) input u s small e =
    rw (small, e, accept_locked)
      (accept_exchange-Steps n k i from j to s (
        of_stop (λ (m, l, v). IfExchange (Awaits s.game m l) v) _ e
          (accept_leagues-Awaits s.game input u false 0 s.game.leagues (From-all s.game.leagues))))

accept_locked-Steps :
    (input : ℕ) (u : User) (s : Server) → s.locked ≡ true → Ends (Goes s) (accept_locked input u s)
unfolding accept_locked unlock communicate
accept_locked-Steps input u s held = elim (Bool-cases (int_gt input s.game.cant_trades)) [
  | inl large ↦ rw large (here s.game, inl (_, refl, refl))
  | inr small ↦ elim (Search-cases (accept_leagues input u false 0 s.game.leagues)) [
    | inl (_, e) ↦ rw (small, e, accept_locked) (here s.game, inr (refl, held))
    | inr ((n, k, v), e) ↦ accept_verdict-Steps n k v input u s small e
  ]
]

pub accept-Steps : (input : ℕ) (s : Server) → Ends (Serves s) (execute_trade_accept input s)
unfolding execute_trade_accept communicate
accept-Steps input s = elim (Option-cases s.me) [
  | inl e ↦ simp (e, execute_trade_accept) (here s.game, λ free. inl (_, refl, free))
  | inr (i, e) ↦ elim (Option-cases (get_elem? s.game.users i)) [
    | inl f ↦ simp (e, f, execute_trade_accept) tt
    | inr (u, f) ↦
        simp (e, f, execute_trade_accept)
          (Serves-lock s (accept_locked input u)
            (accept_locked-Steps input u (record s { locked = true }) refl))
  ]
]
