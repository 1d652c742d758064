-- ===== src/Fantasy/Storage/Roundtrip.antt =====
-- What is saved is loaded again: tradeToString and loadTrade of TPE1/src/IO/io.c.
pub mod Members
pub mod Users
use so_tpe.Prelude.{
  ℕ, zero, suc, ◌+◌, ◌%◌, ◌^◌, ◌*◌, ◌≤◌, ◌<◌, ◌≡◌, refl, sym, ap, ◌∙◌, inl, inr, Bool, true, false,
  Option, none, some, List, [], ◌∷◌, ◌++◌, append_assoc, ◌==◌, ltb, leb, arith, All, length,
  Bool-cases,
}
use so_tpe.Fantasy.Game.{Player, TradeState, Trade, User, Team, LeagueStatus, League, int_gt}
use so_tpe.Fantasy.Game.Answer.{decimal}
use so_tpe.Fantasy.Storage.{newline, Reader, Reads, ◌>>=◌, pure, read_text, read_int}
use so_tpe.Fantasy.Storage.Objects.{
  max_players, state_code, state_of, status_code, status_of, rounds, read_ids, load_user,
  load_trade, read_players, load_team, load_league_file, line, trade_to_string, players_text,
  players_tail, team_to_string, league_to_string, itoa, ids_text, ids_size, user_to_string,
}
use so_tpe.Fantasy.Storage.Lines.{Fits, reader, read_text-line, read_int-line, read_int-last}
use so_tpe.Fantasy.Storage.Numbers.{itoa-decimal}

-- Loading a file of these bytes gives the object.
abbrev pub Loads {ℓ} : {A : Type ℓ} → (Reader → Option (A × Reader)) → List ℕ → A → Type ℓ
Loads m bytes a = (r : Reader) × (m (reader none bytes) ≡ some (a, r))

-- A trade whose texts fit a line.
pub record IsStorableTrade (t : Trade) : Type 0 where
  pub id : t.id < 2 ^ 32
  pub user_from : Fits t.user_from
  pub user_to : Fits t.user_to
  pub player_from : Fits t.player_from
  pub player_to : Fits t.player_to

pub rounds-small : (n : ℕ) → n < 2 ^ 31 → rounds n ≡ n
rounds-small n h = let e : leb (2 ^ 31) n ≡ false = ground arith in rw e refl

state_of-state_code : (s : TradeState) (r : Reader) → state_of (state_code s) r ≡ some (s, r)
unfolding state_of
state_of-state_code TradeState.awaiting r = refl
state_of-state_code TradeState.canceled r = refl
state_of-state_code TradeState.accepted r = refl

state_code-lt : (s : TradeState) → state_code s < 2 ^ 32
state_code-lt TradeState.awaiting = omega arith
state_code-lt TradeState.canceled = omega arith
state_code-lt TradeState.accepted = omega arith

-- A step that reads `a`, and what follows it.
module _ {A B : Type 0} (m : Reads A) (f : A → Reads B) {r r1 : Reader} {a : A}
    {o : Option (B × Reader)} where
  pub run : m r ≡ some (a, r1) → f a r1 ≡ o → (m >>= f) r ≡ o
  run e d =
      ap
        (λ (x : Option (A × Reader)). elim x as (λ y. Option (B × Reader)) [
          | none ↦ none
          | some (a, r') ↦ f a r'
        ])
        e
      ∙ d

module _ {B : Type 0} (aux : Option (List ℕ)) (f : List ℕ → Reads B) {o : Option (B × Reader)} where
  pub read_text_step :
      (s : List ℕ) {more : List ℕ}
      → Fits s
      → f s (reader (some s) more) ≡ o
      → (read_text >>= f) (reader aux (line s more)) ≡ o
  read_text_step s {more} h d = run read_text f (read_text-line aux s more h) d

module _ {B : Type 0} (aux : Option (List ℕ)) (f : ℕ → Reads B) {o : Option (B × Reader)} where
  pub read_int_step :
      (n : ℕ) {more : List ℕ}
      → n < 2 ^ 32
      → f n (reader (some (decimal n ++ newline ∷ [])) more) ≡ o
      → (read_int >>= f) (reader aux (line (decimal n) more)) ≡ o
  read_int_step n {more} h d = run read_int f (read_int-line aux n more h) d

  pub read_int_last_step :
      (n : ℕ)
      → n < 2 ^ 32
      → f n (reader (some (decimal n)) []) ≡ o
      → (read_int >>= f) (reader aux (decimal n)) ≡ o
  read_int_last_step n h d = run read_int f (read_int-last aux n h) d

-- A trade is loaded as it was saved.
pub load_trade-trade_to_string :
    (t : Trade) → IsStorableTrade t → Loads load_trade (trade_to_string t) t
unfolding load_trade trade_to_string
load_trade-trade_to_string t f = (
  reader (some t.player_to) [],
  read_int_step _ _ t.id f.id (
      read_int_step _ _ (state_code t.state) (state_code-lt t.state) (
        run (state_of (state_code t.state)) _ (state_of-state_code t.state _) (
          read_text_step _ _ t.user_from f.user_from (
            read_text_step _ _ t.user_to f.user_to (
              read_text_step _ _ t.player_from f.player_from
                (read_text_step _ _ t.player_to f.player_to refl)))))),
)
