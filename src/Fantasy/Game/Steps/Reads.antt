-- ===== src/Fantasy/Game/Steps/Reads.antt =====
-- The handlers that only read.
use so_tpe.Prelude.{ℕ, ◌≡◌, refl, inl, inr, true, false, ◌==◌, Bool-cases, Option-cases, get_elem?}
use so_tpe.Fantasy.Game.{Server, Outcome, ◌>>=◌, lock, unlock, communicate, find_in, int_gt}
use so_tpe.Fantasy.Game.Show.{
  execute_list_leagues, execute_list_teams, execute_list_trades, list_trades, execute_league_show,
  execute_team_show, execute_trade_show, trade_show_locked,
}
use so_tpe.Fantasy.Game.Steps.Ends.{Ends, Ends-lock, Ends-map, Answered}

-- A handler that keeps the game, inside the section that the mutex guards.
abbrev Keeps : Server → Server → Type 0
Keeps s s' = (s'.game ≡ s.game) × Answered s.sent s'

-- The same of a whole handler.
abbrev pub Reads : Server → Server → Type 0
Reads s s' = (s'.game ≡ s.game) × (s.locked ≡ false → Answered s.sent s')

Reads-lock :
    (s : Server) (k : Server → Outcome Server)
    → Ends (Keeps s) (k (record s { locked = true }))
    → Ends (Reads s) (lock s >>= k)
Reads-lock s k r =
    Ends-lock (Reads s) s k
      (Ends-map (Keeps s) (Reads s) (k (record s { locked = true })) (λ a (t, u). (t, λ f. u)) r)

pub list_leagues-Reads : (s : Server) → Ends (Reads s) (execute_list_leagues s)
unfolding execute_list_leagues unlock communicate
list_leagues-Reads s = Reads-lock s _ (refl, inl (_, refl, refl))

pub list_teams-Reads : (s : Server) → Ends (Reads s) (execute_list_teams s)
unfolding execute_list_teams unlock communicate
list_teams-Reads s = Reads-lock s _ (elim (Bool-cases (s.game.cant_teams == 0)) [
  | inl e ↦ rw e (refl, inl (_, refl, refl))
  | inr e ↦ rw e (refl, inl (_, refl, refl))
])

list_trades-Keeps : (s : Server) → Ends (Keeps s) (list_trades s)
unfolding list_trades unlock communicate
list_trades-Keeps s = elim (Option-cases s.me) [
  | inl e ↦ simp (e, list_trades) (refl, inl (_, refl, refl))
  | inr (i, e) ↦ elim (Option-cases (get_elem? s.game.users i)) [
    | inl f ↦ simp (e, f, list_trades) tt
    | inr (u, f) ↦ simp (e, f, list_trades) (refl, inl (_, refl, refl))
  ]
]

pub lists_trades-Reads : (s : Server) → Ends (Reads s) (execute_list_trades s)
unfolding execute_list_trades
lists_trades-Reads s = Reads-lock s list_trades (list_trades-Keeps (record s { locked = true }))

pub league_show-Reads : (input : ℕ) (s : Server) → Ends (Reads s) (execute_league_show input s)
unfolding execute_league_show unlock communicate
league_show-Reads input s = Reads-lock s _ (refl, inl (_, refl, refl))

pub team_show-Reads : (input : ℕ) (s : Server) → Ends (Reads s) (execute_team_show input s)
unfolding execute_team_show unlock communicate
team_show-Reads input s = Reads-lock s _ (refl, inl (_, refl, refl))

trade_show_locked-Keeps :
    (input : ℕ) (s : Server) → s.locked ≡ true → Ends (Keeps s) (trade_show_locked input s)
unfolding trade_show_locked unlock communicate
trade_show_locked-Keeps input s held = elim (Bool-cases (int_gt input s.game.cant_trades)) [
  | inl large ↦ rw large (refl, inl (_, refl, refl))
  | inr small ↦
      rw small (elim (Option-cases (find_in (λ l. l.trades) (λ t. t.id == input) s.game.leagues)) [
        | inl e ↦ rw e (refl, inr (refl, held))
        | inr (_, e) ↦ rw e (refl, inl (_, refl, refl))
      ])
]

pub trade_show-Reads : (input : ℕ) (s : Server) → Ends (Reads s) (execute_trade_show input s)
unfolding execute_trade_show
trade_show-Reads input s =
    Reads-lock s (trade_show_locked input)
      (trade_show_locked-Keeps input (record s { locked = true }) refl)
