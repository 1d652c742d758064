-- ===== src/Fantasy/Game/Trades/Swap.antt =====
-- Two players of two teams change places, in executeTradeAccept of TPE1/src/server/execute.c.
use so_tpe.Prelude.{
  ℕ, zero, suc, ◌≡◌, ◌≢◌, refl, sym, ap, ◌∙◌, some, List, [], ◌∷◌, ◌++◌, ◌==◌, false, arith,
  get_elem?,
}
use so_tpe.Fantasy.Game.{Player, Team, remove_at, add_to_list, modify}
use so_tpe.Fantasy.Game.Trades.Accept.{exchange_players}
use so_tpe.Fantasy.Game.Steps.Cancels.{get_elem?-modify, get_elem?-modify_other}

remove_at-append {ℓ} :
    {A : Type ℓ} (i : ℕ) (xs ys : List A) {x : A}
    → get_elem? xs i ≡ some x
    → remove_at i (xs ++ ys) ≡ remove_at i xs ++ ys
unfolding remove_at
remove_at-append i [] ys e = absurd cc
remove_at-append zero (x ∷ xs) ys e = refl
remove_at-append (suc i) (x ∷ xs) ys e = ap (λ zs. x ∷ zs) (remove_at-append i xs ys e)

abbrev out : ℕ → Team → Team
out n x = record x { players = remove_at n x.players }

abbrev into : Player → Team → Team
into y x = record x { players = add_to_list y x.players }

-- What the exchange leaves in the two teams, and in the others.
pub record IsSwapped (ts us : List Team) (i : ℕ) (a : Team) (p : ℕ) (x : Player) (j : ℕ) (b : Team)
    (q : ℕ) (y : Player) : Type 0 where
  pub from : get_elem? us i ≡ some (record a { players = remove_at p a.players ++ y ∷ [] })
  pub to : get_elem? us j ≡ some (record b { players = remove_at q b.players ++ x ∷ [] })
  pub others : (m : ℕ) → i ≢ m → j ≢ m → get_elem? us m ≡ get_elem? ts m

pub exchange_players-IsSwapped :
    (ts : List Team) (i : ℕ) (a : Team) (p : ℕ) (x : Player) (j : ℕ) (b : Team) (q : ℕ) (y : Player)
    → i ≢ j
    → get_elem? ts i ≡ some a
    → get_elem? ts j ≡ some b
    → get_elem? b.players q ≡ some y
    → IsSwapped ts (exchange_players i (p, x) j (q, y) ts) i a p x j b q y
unfolding exchange_players
exchange_players-IsSwapped ts i a p x j b q y apart at_i at_j at_q =
    let test : (i == j) ≡ false = ground arith in
    let ts1 = modify i (out p) ts in
    let ts2 = modify j (into x) ts1 in
    let ts3 = modify j (out q) ts2 in
    let b1 = get_elem?-modify_other i (out p) ts j apart ∙ at_j in
    let b3 = get_elem?-modify j (out q) ts2 (get_elem?-modify j (into x) ts1 b1) in
    let a3 =
      get_elem?-modify_other j (out q) ts2 i (λ e. apart (sym e))
      ∙ get_elem?-modify_other j (into x) ts1 i (λ e. apart (sym e))
      ∙ get_elem?-modify i (out p) ts at_i in
    rw test (record {
      from = get_elem?-modify i (into y) ts3 a3;
      to =
          get_elem?-modify_other i (into y) ts3 j apart
          ∙ b3
          ∙ ap (λ ps. some (record b { players = ps }))
              (remove_at-append q b.players (x ∷ []) at_q);
      others = λ m ne_i ne_j.
          get_elem?-modify_other i (into y) ts3 m ne_i
          ∙ get_elem?-modify_other j (out q) ts2 m ne_j
          ∙ get_elem?-modify_other j (into x) ts1 m ne_j
          ∙ get_elem?-modify_other i (out p) ts m ne_i;
    })
