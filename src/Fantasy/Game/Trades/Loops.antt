-- ===== src/Fantasy/Game/Trades/Loops.antt =====
-- The loops of executeTradeAccept, TPE1/src/server/execute.c, as searches.
use so_tpe.Prelude.{
  ℕ, suc, ◌+◌, ◌≡◌, refl, ap, ◌∙◌, inl, inr, ◌⊎◌, Bool, true, false, Option, none, some, List, [],
  ◌∷◌, ◌==◌, arith, Bool-cases, Option-cases,
}
use so_tpe.Fantasy.Game.{Player, Trade, User, Team, League, go, stop, same, find, find_in}
use so_tpe.Fantasy.Game.Trades.{find_player}
use so_tpe.Fantasy.Game.Trades.Accept.{
  Verdict, exchange, seek_to, seek_from, accept_trade, accept_trades, accept_leagues,
}

-- What a search in a row that is not empty came to.
module _ {ℓ} {A : Type ℓ} where
  abbrev FoundBy : (A → Bool) → A → List A → ℕ → A → Type ℓ
  FoundBy p x xs i y =
      ((p x ≡ true) × (i ≡ 0) × (x ≡ y))
      ⊎ ((p x ≡ false) × (n : ℕ) × (find p xs ≡ some (n, y)) × (i ≡ suc n))

  at_first :
      (x y : A) {i : ℕ} → ◌≡◌ {A = Option (ℕ × A)} (some (0, x)) (some (i, y)) → (i ≡ 0) × (x ≡ y)
  at_first x y e = (ground arith, ground arith)

  further :
      (n : ℕ) (z y : A) {i : ℕ}
      → ◌≡◌ {A = Option (ℕ × A)} (some (n + 1, z)) (some (i, y))
      → (i ≡ suc n) × (z ≡ y)
  further n z y e = (ground arith, ground arith)

  no_more : {y : ℕ × A} → none ≡ some y → ⊥
  no_more e = cc

  find-FoundBy :
      (p : A → Bool) (x : A) (xs : List A) (i : ℕ) (y : A)
      → find p (x ∷ xs) ≡ some (i, y)
      → FoundBy p x xs i y
  unfolding find
  find-FoundBy p x xs i y e = elim (Bool-cases (p x)) [
    | inl f ↦ let (a, b) = at_first x y (rw f at e) in inl (f, a, b)
    | inr f ↦ elim (Option-cases (find p xs)) [
      | inl n ↦ absurd (no_more (rw (f, n) at e))
      | inr ((n, z), g) ↦ let (a, b) = further n z y (rw (f, g) at e) in inr (f, n, rw (← b) g, a)
    ]
  ]

  find-nil : (p : A → Bool) {y : ℕ × A} → find p [] ≡ some y → ⊥
  unfolding find
  find-nil p e = cc

-- The loops as searches: each goes on to the first item that passes.
seek_to-exchange :
    (t : Trade) (i : ℕ) (from : Option (ℕ × Player)) (j : ℕ) (ts : List Team) (n : ℕ) (b : Team)
    (to : ℕ × Player)
    → find (λ x. same x.owner t.user_to) ts ≡ some (n, b)
    → find_player t.player_to b.players ≡ some to
    → seek_to t i from j ts ≡ some (exchange i from (j + n) to)
unfolding seek_to
seek_to-exchange t i from j [] n b to e p = absurd (find-nil (λ x. same x.owner t.user_to) e)
seek_to-exchange t i from j (x ∷ ts) n b to e p =
    elim (find-FoundBy (λ x. same x.owner t.user_to) x ts n b e) [
      | inl (f, z, g) ↦
          let q : find_player t.player_to x.players ≡ some to = rw g p in
          let a : j + n ≡ j = omega arith in rw (f, q, a) refl
      | inr (f, m, g, z) ↦
          let a : j + n ≡ j + 1 + m = omega arith in
          rw (f, a) (seek_to-exchange t i from (j + 1) ts m b to g p)
    ]

pub seek_from-exchange :
    (t : Trade) (teams : List Team) (i : ℕ) (ts : List Team) (n : ℕ) (a : Team) (from : ℕ × Player)
    (m : ℕ) (b : Team) (to : ℕ × Player)
    → find (λ x. same x.owner t.user_from) ts ≡ some (n, a)
    → find_player t.player_from a.players ≡ some from
    → find (λ x. same x.owner t.user_to) teams ≡ some (m, b)
    → find_player t.player_to b.players ≡ some to
    → seek_from t teams false i ts ≡ stop (exchange (i + n) (some from) m to)
unfolding seek_from
seek_from-exchange t teams i [] n a from m b to e p f q =
    absurd (find-nil (λ x. same x.owner t.user_from) e)
seek_from-exchange t teams i (x ∷ ts) n a from m b to e p f q =
    elim (find-FoundBy (λ x. same x.owner t.user_from) x ts n a e) [
      | inl (h, z, g) ↦
          let r : find_player t.player_from x.players ≡ some from = rw g p in
          let c : i + n ≡ i = omega arith in
          let d : seek_to t i (some from) 0 teams ≡ some (exchange i (some from) m to) =
            seek_to-exchange t i (some from) 0 teams m b to f q
            ∙ ap (λ k. some (exchange i (some from) k to)) (omega arith) in
          rw (h, r, d, c) refl
      | inr (h, k, g, z) ↦
          let c : i + n ≡ i + 1 + k = omega arith in
          rw (h, c) (seek_from-exchange t teams (i + 1) ts k a from m b to g p f q)
    ]

accept_trades-none :
    (input : ℕ) (u : User) (teams : List Team) (flag : Bool) (k : ℕ) (ts : List Trade)
    → find (λ t. t.id == input) ts ≡ none
    → accept_trades input u teams flag k ts ≡ go flag
unfolding accept_trades find
accept_trades-none input u teams flag k [] e = refl
accept_trades-none input u teams flag k (t ∷ ts) e = elim (Bool-cases (t.id == input)) [
  | inl f ↦ absurd (hit (rw f at e))
  | inr f ↦ elim (Option-cases (find (λ t. t.id == input) ts)) [
    | inl g ↦ rw (f, accept_trades) (accept_trades-none input u teams flag (k + 1) ts g)
    | inr (y, g) ↦ absurd (hit (rw (f, g) at e))
  ]
]
  where
    hit : {y : ℕ × Trade} → some y ≡ none → ⊥
    hit e = cc

accept_trades-stop :
    (input : ℕ) (u : User) (teams : List Team) (flag : Bool) (k : ℕ) (ts : List Trade) (n : ℕ)
    (t : Trade) (v : Verdict)
    → find (λ t. t.id == input) ts ≡ some (n, t)
    → accept_trade u teams flag t ≡ stop v
    → accept_trades input u teams flag k ts ≡ stop (k + n, v)
unfolding accept_trades
accept_trades-stop input u teams flag k [] n t v e s = absurd (find-nil (λ t. t.id == input) e)
accept_trades-stop input u teams flag k (x ∷ ts) n t v e s =
    elim (find-FoundBy (λ t. t.id == input) x ts n t e) [
      | inl (f, z, g) ↦
          let r : accept_trade u teams flag x ≡ stop v = rw g s in
          let c : k + n ≡ k = omega arith in rw (f, r, c, accept_trades) refl
      | inr (f, m, g, z) ↦
          let c : k + n ≡ k + 1 + m = omega arith in
          rw (f, c, accept_trades) (accept_trades-stop input u teams flag (k + 1) ts m t v g s)
    ]

-- The same for the two nested loops.
abbrev FoundInBy : ℕ → League → List League → ℕ → League → ℕ → Trade → Type 0
FoundInBy input x xs i l j t =
    ((find (λ t. t.id == input) x.trades ≡ some (j, t)) × (i ≡ 0) × (x ≡ l))
    ⊎ ((find (λ t. t.id == input) x.trades ≡ none)
        × (n : ℕ) × (find_in (λ l. l.trades) (λ t. t.id == input) xs ≡ some (n, l, j, t))
        × (i ≡ suc n))

here_in :
    (x l : League) (k j : ℕ) (w t : Trade) {i : ℕ}
    → ◌≡◌ {A = Option (ℕ × League × ℕ × Trade)} (some (0, x, k, w)) (some (i, l, j, t))
    → (k ≡ j) × (w ≡ t) × (i ≡ 0) × (x ≡ l)
here_in x l k j w t e = (ground arith, ground arith, ground arith, ground arith)

there_in :
    (n : ℕ) (x l : League) (k j : ℕ) (w t : Trade) {i : ℕ}
    → ◌≡◌ {A = Option (ℕ × League × ℕ × Trade)} (some (n + 1, x, k, w)) (some (i, l, j, t))
    → (k ≡ j) × (w ≡ t) × (i ≡ suc n) × (x ≡ l)
there_in n x l k j w t e = (ground arith, ground arith, ground arith, ground arith)

find_in-FoundInBy :
    (input : ℕ) (x : League) (xs : List League) (i : ℕ) (l : League) (j : ℕ) (t : Trade)
    → find_in (λ l. l.trades) (λ t. t.id == input) (x ∷ xs) ≡ some (i, l, j, t)
    → FoundInBy input x xs i l j t
unfolding find_in
find_in-FoundInBy input x xs i l j t e = elim (Option-cases (find (λ t. t.id == input) x.trades)) [
  | inr ((k, w), f) ↦
      let (a, b, c, d) = here_in x l k j w t (rw (f, find_in) at e) in inl (rw (← a, ← b) f, c, d)
  | inl f ↦ elim (Option-cases (find_in (λ l. l.trades) (λ t. t.id == input) xs)) [
    | inl n ↦ absurd (missing (rw (f, n, find_in) at e))
    | inr ((n, y, k, w), g) ↦
        let (a, b, c, d) = there_in n y l k j w t (rw (f, g, find_in) at e) in
        inr (f, n, rw (← a, ← b, ← d) g, c)
  ]
]
  where
    missing : {r : ℕ × League × ℕ × Trade} → none ≡ some r → ⊥
    missing e = cc

no_league_left :
    (input : ℕ) {r : ℕ × League × ℕ × Trade}
    → find_in (λ l. l.trades) (λ t. t.id == input) [] ≡ some r
    → ⊥
unfolding find_in
no_league_left input e = cc

pub accept_leagues-stop :
    (input : ℕ) (u : User) (flag : Bool) (j : ℕ) (ls : List League) (n : ℕ) (l : League) (k : ℕ)
    (t : Trade) (v : Verdict)
    → find_in (λ l. l.trades) (λ t. t.id == input) ls ≡ some (n, l, k, t)
    → accept_trade u l.teams flag t ≡ stop v
    → accept_leagues input u flag j ls ≡ stop (j + n, k, v)
unfolding accept_leagues
accept_leagues-stop input u flag j [] n l k t v e s = absurd (no_league_left input e)
accept_leagues-stop input u flag j (x ∷ ls) n l k t v e s =
    elim (find_in-FoundInBy input x ls n l k t e) [
      | inl (f, z, g) ↦
          let same_teams : accept_trade u x.teams flag t ≡ stop v = rw g s in
          let r : accept_trades input u x.teams flag 0 x.trades ≡ stop (0 + k, v) =
            accept_trades-stop input u x.teams flag 0 x.trades k t v f same_teams in
          let c : j + n ≡ j = omega arith in
          let d : 0 + k ≡ k = omega arith in rw (r, c, d, accept_leagues) refl
      | inr (f, m, g, z) ↦
          let c : j + n ≡ j + 1 + m = omega arith in
          rw (accept_trades-none input u x.teams flag 0 x.trades f, c, accept_leagues)
            (accept_leagues-stop input u flag (j + 1) ls m l k t v g s)
    ]
