-- ===== src/Fantasy/Game/Steps/Offers.antt =====
-- The handlers that offer a trade and withdraw one, as steps.
use so_tpe.Prelude.{
  ℕ, ◌≡◌, refl, inl, inr, true, some, List, ◌==◌, not, ◌&&◌, Bool-cases, Option-cases, get_elem?,
}
use so_tpe.Fantasy.Game.{
  User, Team, Trade, League, Server, unlock, communicate, same, find, find_in, int_gt,
}
use so_tpe.Fantasy.Game.Found.{find_in-FoundIn}
use so_tpe.Fantasy.Game.Trades.{
  execute_trade, trade_locked, trade_found, execute_trade_withdraw, withdraw_locked, withdraw_found,
  is_inactive, is_awaiting, is_some, find_player, owns, name_fits,
}
use so_tpe.Fantasy.Game.Steps.{Step, here}
use so_tpe.Fantasy.Game.Steps.Ends.{Ends, Goes, Serves, Serves-lock, one}

trade_found-Steps :
    (from to : List ℕ) (u : User) (j : ℕ) (l : League) (t : Team) (s : Server)
    → Ends (Goes s) (trade_found from to u j l t s)
unfolding trade_found unlock communicate
trade_found-Steps from to u j l t s = elim (Bool-cases (is_inactive l.status)) [
  | inl a ↦ rw a (here s.game, inl (_, refl, refl))
  | inr a ↦ rw a (elim (Bool-cases (is_some (find (λ id. id == l.id) u.leagues_ids))) [
    | inr b ↦ rw b (here s.game, inl (_, refl, refl))
    | inl b ↦ rw b (elim (Bool-cases (is_some (find_player to t.players))) [
      | inr c ↦ rw c (here s.game, inl (_, refl, refl))
      | inl c ↦ rw c (elim (Bool-cases (owns u.user from l.teams)) [
        | inr d ↦ rw d (here s.game, inl (_, refl, refl))
        | inl d ↦ rw d (elim (Bool-cases (name_fits s.usable u.user)) [
          | inr e ↦ rw e tt
          | inl e ↦
              rw e (one (Step.make_offer s.game j from to u.user t.owner), inl (_, refl, refl))
        ])
      ])
    ])
  ])
]

trade_locked-Steps :
    (from to : List ℕ) (team_id : ℕ) (u : User) (s : Server)
    → s.locked ≡ true
    → Ends (Goes s) (trade_locked from to team_id u s)
unfolding trade_locked unlock communicate
trade_locked-Steps from to team_id u s held = elim (Bool-cases (int_gt team_id s.game.cant_teams)) [
  | inl large ↦ rw large (here s.game, inl (_, refl, refl))
  | inr small ↦
      rw small (elim (Option-cases (find_in (λ l. l.teams) (λ t. t.id == team_id) s.game.leagues)) [
        | inl e ↦ rw e (here s.game, inr (refl, held))
        | inr ((j, l, _, t), e) ↦ rw e (trade_found-Steps from to u j l t s)
      ])
]

pub trade-Steps :
    (from to : List ℕ) (team_id : ℕ) (s : Server)
    → Ends (Serves s) (execute_trade from to team_id s)
unfolding execute_trade communicate
trade-Steps from to team_id s = elim (Option-cases s.me) [
  | inl e ↦ simp (e, execute_trade) (here s.game, λ free. inl (_, refl, free))
  | inr (i, e) ↦ elim (Option-cases (get_elem? s.game.users i)) [
    | inl f ↦ simp (e, f, execute_trade) tt
    | inr (u, f) ↦
        simp (e, f, execute_trade)
          (Serves-lock s (trade_locked from to team_id u)
            (trade_locked-Steps from to team_id u (record s { locked = true }) refl))
  ]
]

withdraw_found-Steps :
    (u : User) (j k : ℕ) (l : League) (t : Trade) (s : Server)
    → get_elem? s.game.leagues j ≡ some l
    → get_elem? l.trades k ≡ some t
    → Ends (Goes s) (withdraw_found u j k t s)
unfolding withdraw_found unlock communicate
withdraw_found-Steps u j k l t s out inside =
    elim (Bool-cases (not (same t.user_to u.user) && not (same t.user_from u.user))) [
      | inl a ↦ rw a (here s.game, inl (_, refl, refl))
      | inr a ↦ rw a (elim (Bool-cases (is_awaiting t.state)) [
        | inr b ↦ rw b (here s.game, inl (_, refl, refl))
        | inl b ↦ rw b (
          one (
              Step.cancel s.game j k (record {
                league = l;
                trade = t;
                at_league = out;
                at_trade = inside;
                waiting = b;
              })),
          inl (_, refl, refl),
        )
      ])
    ]

withdraw_locked-Steps :
    (input : ℕ) (u : User) (s : Server)
    → s.locked ≡ true
    → Ends (Goes s) (withdraw_locked input u s)
unfolding withdraw_locked unlock communicate
withdraw_locked-Steps input u s held = elim (Bool-cases (int_gt input s.game.cant_trades)) [
  | inl large ↦ rw large (here s.game, inl (_, refl, refl))
  | inr small ↦
      rw small (elim (Option-cases (find_in (λ l. l.trades) (λ t. t.id == input) s.game.leagues)) [
        | inl e ↦ rw e (here s.game, inr (refl, held))
        | inr ((j, l, k, t), e) ↦
            let f = find_in-FoundIn (λ l. l.trades) (λ t. t.id == input) s.game.leagues e in
            rw e (withdraw_found-Steps u j k l t s f.outside f.inside)
      ])
]

pub withdraw-Steps : (input : ℕ) (s : Server) → Ends (Serves s) (execute_trade_withdraw input s)
unfolding execute_trade_withdraw communicate
withdraw-Steps input s = elim (Option-cases s.me) [
  | inl e ↦ simp (e, execute_trade_withdraw) (here s.game, λ free. inl (_, refl, free))
  | inr (i, e) ↦ elim (Option-cases (get_elem? s.game.users i)) [
    | inl f ↦ simp (e, f, execute_trade_withdraw) tt
    | inr (u, f) ↦
        simp (e, f, execute_trade_withdraw)
          (Serves-lock s (withdraw_locked input u)
            (withdraw_locked-Steps input u (record s { locked = true }) refl))
  ]
]
