-- ===== src/Fantasy/Game/Steps/Searches.antt =====
-- The searches of executeTradeAccept and executeTradeNegotiate: the trade that they act on waits.
use so_tpe.Prelude.{
  ℕ, suc, ◌+◌, ◌≡◌, ◌⊎◌, refl, inl, inr, Bool, true, some, List, [], ◌∷◌, ◌==◌, Bool-cases, arith,
  get_elem?,
}
use so_tpe.Fantasy.Game.{User, Team, Trade, League, Game, Search, go, stop, same}
use so_tpe.Fantasy.Game.Trades.{is_awaiting}
use so_tpe.Fantasy.Game.Trades.Accept.{Verdict, accept_trade, accept_trades, accept_leagues}
use so_tpe.Fantasy.Game.Trades.Accept
use so_tpe.Fantasy.Game.Steps.{Awaits}

-- The items from position `k` on.
abbrev pub From {ℓ} : {A : Type ℓ} → List A → ℕ → List A → Type ℓ
From {A = A} xs k ys = (i : ℕ) (x : A) → get_elem? ys i ≡ some x → get_elem? xs (k + i) ≡ some x

module _ {ℓ} {A : Type ℓ} where
  pub From-head :
      (xs : List A) (k : ℕ) (y : A) (ys : List A) → From xs k (y ∷ ys) → get_elem? xs k ≡ some y
  From-head xs k y ys f = rw zero_law at (f 0 y refl)
    where
      zero_law : k + 0 ≡ k
      zero_law = omega arith

  pub From-tail :
      (xs : List A) (k : ℕ) (y : A) (ys : List A) → From xs k (y ∷ ys) → From xs (k + 1) ys
  From-tail xs k y ys f i x e = rw (shift_law) (f (suc i) x e)
    where
      shift_law : k + 1 + i ≡ k + suc i
      shift_law = omega arith

  pub From-all : (xs : List A) → From xs 0 xs
  From-all xs i x e = rw zero_law e
    where
      zero_law : 0 + i ≡ i
      zero_law = omega arith

pub Search-cases {ℓ κ} :
    {S : Type ℓ} {A : Type κ} (o : Search S A) → ((s : S) × (o ≡ go s)) ⊎ ((a : A) × (o ≡ stop a))
Search-cases (go s) = inl (s, refl)
Search-cases (stop a) = inr (a, refl)

-- An exchange is of a trade that waits.
abbrev pub IfExchange : Type 0 → Verdict → Type 0
IfExchange P (Accept.refused text) = Unit
IfExchange P (Accept.exchange i from j to) = P

if_exchange : (P : Type 0) (v : Verdict) → P → IfExchange P v
if_exchange P (Accept.refused text) p = tt
if_exchange P (Accept.exchange i from j to) p = p

abbrev pub IfStop {ℓ κ μ} : {S : Type ℓ} {A : Type κ} → (A → Type μ) → Search S A → Type μ
IfStop P (go s) = Unit
IfStop P (stop a) = P a

if_stop {ℓ κ μ} :
    {S : Type ℓ} {A : Type κ} (P : A → Type μ) (o : Search S A) → ((a : A) → P a) → IfStop P o
if_stop P (go s) p = tt
if_stop P (stop a) p = p a

pub of_stop {ℓ κ μ} :
    {S : Type ℓ} {A : Type κ} (P : A → Type μ) (o : Search S A) {a : A}
    → o ≡ stop a
    → IfStop P o
    → P a
of_stop P o e p = rw e at p

accept_trade-waits :
    (u : User) (teams : List Team) (flag : Bool) (t : Trade)
    → IfStop (IfExchange (is_awaiting t.state ≡ true)) (accept_trade u teams flag t)
unfolding accept_trade
accept_trade-waits u teams flag t = elim (Bool-cases (same t.user_to u.user)) [
  | inr a ↦ rw a tt
  | inl a ↦ rw a (elim (Bool-cases (is_awaiting t.state)) [
    | inr b ↦ rw b tt
    | inl b ↦ rw b (if_stop _ _ (λ v. if_exchange _ v refl))
  ])
]

-- The trade at position `k` of `trades` waits.
abbrev WaitsAt : List Trade → ℕ → Type 0
WaitsAt trades k = (t : Trade) × (get_elem? trades k ≡ some t) × (is_awaiting t.state ≡ true)

IfExchange-map : (P Q : Type 0) (v : Verdict) → (P → Q) → IfExchange P v → IfExchange Q v
IfExchange-map P Q (Accept.refused text) f p = tt
IfExchange-map P Q (Accept.exchange i from j to) f p = f p

accept_trades-waits :
    (trades : List Trade) (input : ℕ) (u : User) (teams : List Team) (flag : Bool) (k : ℕ)
    (ts : List Trade)
    → From trades k ts
    → IfStop (λ (n, v). IfExchange (WaitsAt trades n) v) (accept_trades input u teams flag k ts)
unfolding accept_trades
accept_trades-waits trades input u teams flag k [] at = tt
accept_trades-waits trades input u teams flag k (t ∷ ts) at =
    let later = λ (flag' : Bool).
      accept_trades-waits trades input u teams flag' (k + 1) ts (From-tail trades k t ts at) in
    elim (Bool-cases (t.id == input)) [
      | inr a ↦ rw (a, accept_trades) (later flag)
      | inl a ↦ elim (Search-cases (accept_trade u teams flag t)) [
        | inl (flag', e) ↦ rw (a, e, accept_trades) (later flag')
        | inr (v, e) ↦
            rw (a, e, accept_trades)
              (IfExchange-map (is_awaiting t.state ≡ true) (WaitsAt trades k) v
                (λ w. (t, From-head trades k t ts at, w))
                (of_stop (IfExchange (is_awaiting t.state ≡ true)) _ e
                  (accept_trade-waits u teams flag t)))
      ]
    ]

Awaits-of :
    (g : Game) (j : ℕ) (l : League) (k : ℕ)
    → get_elem? g.leagues j ≡ some l
    → WaitsAt l.trades k
    → Awaits g j k
Awaits-of g j l k out (t, inside, w) = record {
  league = l;
  trade = t;
  at_league = out;
  at_trade = inside;
  waiting = w;
}

pub accept_leagues-Awaits :
    (g : Game) (input : ℕ) (u : User) (flag : Bool) (j : ℕ) (ls : List League)
    → From g.leagues j ls
    → IfStop (λ (m, k, v). IfExchange (Awaits g m k) v) (accept_leagues input u flag j ls)
unfolding accept_leagues
accept_leagues-Awaits g input u flag j [] at = tt
accept_leagues-Awaits g input u flag j (l ∷ ls) at =
    elim (Search-cases (accept_trades input u l.teams flag 0 l.trades)) [
      | inl (flag', e) ↦
          rw (e, accept_leagues)
            (accept_leagues-Awaits g input u flag' (j + 1) ls (From-tail g.leagues j l ls at))
      | inr ((k, v), e) ↦
          rw (e, accept_leagues)
            (IfExchange-map (WaitsAt l.trades k) (Awaits g j k) v
              (Awaits-of g j l k (From-head g.leagues j l ls at))
              (of_stop (λ (n, v). IfExchange (WaitsAt l.trades n) v) _ e
                (accept_trades-waits l.trades input u l.teams flag 0 l.trades (From-all l.trades))))
    ]
