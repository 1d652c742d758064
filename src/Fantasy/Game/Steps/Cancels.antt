-- ===== src/Fantasy/Game/Steps/Cancels.antt =====
-- The loops of executeTradeNegotiate, which cancel trades as they go.
use so_tpe.Prelude.{
  ℕ, zero, suc, ◌+◌, ◌≡◌, ◌≢◌, refl, ap, inl, inr, some, List, [], ◌∷◌, ◌==◌, Bool-cases,
  Option-cases, arith, get_elem?,
}
use so_tpe.Fantasy.Game.{
  User, Team, Trade, League, Game, TradeState, Search, go, stop, same, find, modify,
}
use so_tpe.Fantasy.Game.Trades.{is_awaiting, set_trade_state}
use so_tpe.Fantasy.Game.Trades.Negotiate.{
  Verdict, negotiate_trade, negotiate_trades, negotiate_leagues,
}
use so_tpe.Fantasy.Game.Steps.{Step, Steps, next, Awaits}
use so_tpe.Fantasy.Game.Steps.Searches.{From, From-head, From-tail, From-all, Search-cases}

module _ {ℓ} {A : Type ℓ} where
  pub get_elem?-modify :
      (i : ℕ) (f : A → A) (xs : List A) {x : A}
      → get_elem? xs i ≡ some x
      → get_elem? (modify i f xs) i ≡ some (f x)
  unfolding modify
  get_elem?-modify i f [] e = absurd cc
  get_elem?-modify zero f (x ∷ xs) e = ap some (ap f (cc))
  get_elem?-modify (suc i) f (x ∷ xs) e = get_elem?-modify i f xs e

  pub get_elem?-modify_other :
      (i : ℕ) (f : A → A) (xs : List A) (j : ℕ)
      → i ≢ j
      → get_elem? (modify i f xs) j ≡ get_elem? xs j
  unfolding modify
  get_elem?-modify_other i f [] j n = refl
  get_elem?-modify_other zero f (x ∷ xs) zero n = absurd (n refl)
  get_elem?-modify_other zero f (x ∷ xs) (suc j) n = refl
  get_elem?-modify_other (suc i) f (x ∷ xs) zero n = refl
  get_elem?-modify_other (suc i) f (x ∷ xs) (suc j) n =
      get_elem?-modify_other i f xs j (λ e. n (ap suc e))

  -- A change leaves what is behind it.
  From-modify :
      (k : ℕ) (f : A → A) (xs ys : List A) → From xs (k + 1) ys → From (modify k f xs) (k + 1) ys
  From-modify k f xs ys from i x e =
      rw (get_elem?-modify_other k f xs (k + 1 + i) (λ (n : k ≡ k + 1 + i). omega arith))
        (from i x e)

-- The loop over trades stands at position `k` of the league at `j`, with `ts` before it.
record Stands (g : Game) (j k : ℕ) (ts : List Trade) : Type 0 where
  league : League
  at_league : get_elem? g.leagues j ≡ some league
  ahead : From league.trades k ts

cancel-Stands :
    (g : Game) (j k : ℕ) (t : Trade) (ts : List Trade)
    → Stands g j k (t ∷ ts)
    → Stands (set_trade_state j k TradeState.canceled g) j (k + 1) ts
unfolding set_trade_state
cancel-Stands g j k t ts v =
    let f = λ (t : Trade). let t' : Trade = record t { state = TradeState.canceled } in t' in
    let l : League = v.league in
    record {
      league = record l { trades = modify k f l.trades };
      at_league =
          get_elem?-modify j (λ x. record x { trades = modify k f x.trades }) g.leagues v.at_league;
      ahead = From-modify k f l.trades ts (From-tail l.trades k t ts v.ahead);
    }

-- What the loops come to in steps from `g0`; going on they leave `R`.
abbrev pub Comes : Game → (Game → Type 0) → Search Game (Game × Verdict) → Type 0
Comes g0 R (go g) = Steps g0 g × R g
Comes g0 R (stop (g, v)) = Steps g0 g

later_of :
    (g : Game) (j k : ℕ) (ls : List League)
    → From g.leagues (j + 1) ls
    → From (set_trade_state j k TradeState.canceled g).leagues (j + 1) ls
unfolding set_trade_state
later_of g j k ls later = From-modify j _ g.leagues ls later

negotiate_trade-Comes :
    (g0 : Game) (u : User) (teams : List Team) (j k : ℕ) (t : Trade) (ts : List Trade)
    (ls : List League) (g : Game)
    → Steps g0 g
    → Stands g j k (t ∷ ts)
    → From g.leagues (j + 1) ls
    → Comes g0
        (λ h. Stands h j (k + 1) ts × From h.leagues (j + 1) ls)
        (negotiate_trade u teams j k t g)
unfolding negotiate_trade
negotiate_trade-Comes g0 u teams j k t ts ls g r v later =
    elim (Bool-cases (same t.user_to u.user)) [
      | inr a ↦ rw a r
      | inl a ↦ rw a (elim (Bool-cases (is_awaiting t.state)) [
        | inr b ↦ rw b r
        | inl b ↦
            let w : Awaits g j k = record {
              league = v.league;
              trade = t;
              at_league = v.at_league;
              at_trade = From-head v.league.trades k t ts v.ahead;
              waiting = b;
            } in
            let cancelled = next r (Step.cancel g j k w) in
            rw b (elim (Option-cases (find (λ x. same x.owner t.user_from) teams)) [
              | inr (x, e) ↦ rw e cancelled
              | inl e ↦ rw e (cancelled, (cancel-Stands g j k t ts v, later_of g j k ls later))
            ])
      ])
    ]

pub come :
    (g0 : Game) (R : Game → Type 0) {o : Search Game (Game × Verdict)}
    {p : Search Game (Game × Verdict)}
    → o ≡ p
    → Comes g0 R o
    → Comes g0 R p
come g0 R e c = rw e at c

negotiate_trades-Comes :
    (g0 : Game) (input : ℕ) (u : User) (teams : List Team) (j k : ℕ) (ts : List Trade)
    (ls : List League) (g : Game)
    → Steps g0 g
    → Stands g j k ts
    → From g.leagues (j + 1) ls
    → Comes g0 (λ h. From h.leagues (j + 1) ls) (negotiate_trades input u teams j k ts g)
unfolding negotiate_trades
negotiate_trades-Comes g0 input u teams j k [] ls g r v later = (r, later)
negotiate_trades-Comes g0 input u teams j k (t ∷ ts) ls g r v later =
    let at_trade = negotiate_trade-Comes g0 u teams j k t ts ls g r v later in
    let R = λ (h : Game). Stands h j (k + 1) ts × From h.leagues (j + 1) ls in
    elim (Bool-cases (t.id == input)) [
      | inr a ↦
          rw (a, negotiate_trades)
            (negotiate_trades-Comes g0 input u teams j (k + 1) ts ls g r
              (record {
                league = v.league;
                at_league = v.at_league;
                ahead = From-tail v.league.trades k t ts v.ahead;
              })
              later)
      | inl a ↦ elim (Search-cases (negotiate_trade u teams j k t g)) [
        | inl (g', e) ↦
            let c = come g0 R e at_trade in
            rw (a, e, negotiate_trades)
              (negotiate_trades-Comes g0 input u teams j (k + 1) ts ls g' c.0 c.1.0 c.1.1)
        | inr ((g', w), e) ↦ rw (a, e, negotiate_trades) (come g0 R e at_trade)
      ]
    ]

pub negotiate_leagues-Comes :
    (g0 : Game) (input : ℕ) (u : User) (j : ℕ) (ls : List League) (g : Game)
    → Steps g0 g
    → From g.leagues j ls
    → Comes g0 (λ h. Unit) (negotiate_leagues input u j ls g)
unfolding negotiate_leagues
negotiate_leagues-Comes g0 input u j [] g r at = (r, tt)
negotiate_leagues-Comes g0 input u j (l ∷ ls) g r at =
    let inner =
      negotiate_trades-Comes g0 input u l.teams j 0 l.trades ls g r
        (record {
          league = l;
          at_league = From-head g.leagues j l ls at;
          ahead = From-all l.trades;
        })
        (From-tail g.leagues j l ls at) in
    let R = λ (h : Game). From h.leagues (j + 1) ls in
    elim (Search-cases (negotiate_trades input u l.teams j 0 l.trades g)) [
      | inl (g', e) ↦
          let c = come g0 R e inner in
          rw (e, negotiate_leagues) (negotiate_leagues-Comes g0 input u (j + 1) ls g' c.0 c.1)
      | inr ((g', w), e) ↦ rw (e, negotiate_leagues) (come g0 R e inner)
    ]
