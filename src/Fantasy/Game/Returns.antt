-- ===== src/Fantasy/Game/Returns.antt =====
-- The handlers of TPE1/src/server/execute.c end: with the mutex free none of them waits for it, and
-- none uses a pointer that is not valid.
pub mod Executes
use so_tpe.Prelude.{
  ℕ, ◌≡◌, refl, inl, inr, Bool, true, false, Option, none, some, List, [], ◌∷◌, ◌==◌, ◌&&◌, not,
  ltb, length, get_elem?, if◌then◌else◌, Bool-cases, Option-cases,
}
use so_tpe.Fantasy.Message.Defs
use so_tpe.Fantasy.Message.Defs.{Message}
use so_tpe.Fantasy.Game.{
  User, Team, League, LeagueStatus, Game, Server, Outcome, done, blocked, fault, ◌>>=◌, lock,
  unlock, same, find, find_in, int_gt, cant_teams_max,
}
use so_tpe.Fantasy.Game.Account.{execute_register, execute_login, execute_logout, log_out}
use so_tpe.Fantasy.Game.Show.{list_trades, trade_show_locked}
use so_tpe.Fantasy.Game.Leagues.{is_active, join_found, join_locked}
use so_tpe.Fantasy.Game.Trades.{
  is_some, is_inactive, is_awaiting, find_player, owns, name_fits, trade_found, trade_locked,
  execute_trade, withdraw_found, withdraw_locked,
}

-- The handler returns.
abbrev pub IsDone {ℓ} : {A : Type ℓ} → Outcome A → Type 0
IsDone (done a) = Unit
IsDone blocked = ⊥
IsDone fault = ⊥

pub done_of {ℓ} : {A : Type ℓ} (o : Outcome A) → IsDone o → (a : A) × (o ≡ done a)
done_of (done a) d = (a, refl)
done_of blocked d = absurd d
done_of fault d = absurd d

-- Nobody is logged in on the connection, or a user of the game whose name is among the logged ones.
pub data IsConnected (s : Server) : Type 0 where
  nobody : s.me ≡ none → IsConnected s
  somebody :
      (i : ℕ) (u : User) (j : ℕ) (name : List ℕ)
      → s.me ≡ some i
      → get_elem? s.game.users i ≡ some u
      → find (λ l. same l u.user) s.game.logged_users ≡ some (j, name)
      → IsConnected s

pub IsDone-lock {ℓ} :
    {A : Type ℓ} (s : Server) (k : Server → Outcome A)
    → s.locked ≡ false
    → IsDone (k (record s { locked = true }))
    → IsDone (lock s >>= k)
unfolding lock
IsDone-lock s k free d = rw free d

-- Both branches of a test, and both results of a search, return.
pub IsDone-if {ℓ} :
    {A : Type ℓ} (b : Bool) (o p : Outcome A) → IsDone o → IsDone p → IsDone (if b then o else p)
IsDone-if true o p d e = d
IsDone-if false o p d e = e

pub join_locked-IsDone : (input i : ℕ) (u : User) (s : Server) → IsDone (join_locked input i u s)
unfolding join_locked join_found
join_locked-IsDone input i u s =
    IsDone-if (int_gt input (length s.game.leagues)) _ _ tt
      (elim (Option-cases (find (λ l. l.id == input) s.game.leagues)) [
        | inl n ↦ rw n tt
        | inr ((j, l), n) ↦ rw n (
            IsDone-if (is_active l.status) _ _ tt (
              IsDone-if (length l.teams == cant_teams_max) _ _ tt
                (elim (Option-cases (find (λ t. same t.owner u.user) l.teams)) [
                  | inl m ↦ rw m tt
                  | inr (_, m) ↦ rw m tt
                ])))
      ])

pub trade_found-IsDone :
    (from to : List ℕ) (u : User) (j : ℕ) (l : League) (t : Team) (s : Server)
    → name_fits s.usable u.user ≡ true
    → IsDone (trade_found from to u j l t s)
unfolding trade_found
trade_found-IsDone from to u j l t s has_room = rw has_room (
    IsDone-if (is_inactive l.status) _ _ tt (
      IsDone-if (not (is_some (find (λ id. id == l.id) u.leagues_ids))) _ _ tt (
        IsDone-if (not (is_some (find_player to t.players))) _ _ tt
          (IsDone-if (not (owns u.user from l.teams)) _ _ tt tt))))

pub trade_locked-IsDone :
    (from to : List ℕ) (team_id : ℕ) (u : User) (s : Server)
    → name_fits s.usable u.user ≡ true
    → IsDone (trade_locked from to team_id u s)
unfolding trade_locked
trade_locked-IsDone from to team_id u s has_room =
    IsDone-if (int_gt team_id s.game.cant_teams) _ _ tt
      (elim (Option-cases (find_in (λ l. l.teams) (λ t. t.id == team_id) s.game.leagues)) [
        | inl n ↦ rw n tt
        | inr ((j, l, k, t), n) ↦ rw n (trade_found-IsDone from to u j l t s has_room)
      ])

pub withdraw_locked-IsDone :
    (input : ℕ) (u : User) (s : Server) → IsDone (withdraw_locked input u s)
unfolding withdraw_locked withdraw_found
withdraw_locked-IsDone input u s =
    IsDone-if (int_gt input s.game.cant_trades) _ _ tt
      (elim (Option-cases (find_in (λ l. l.trades) (λ t. t.id == input) s.game.leagues)) [
        | inl n ↦ rw n tt
        | inr ((j, l, k, t), n) ↦ rw n (
            IsDone-if (not (same t.user_to u.user) && not (same t.user_from u.user)) _ _ tt
              (IsDone-if (not (is_awaiting t.state)) _ _ tt tt))
      ])

pub trade_show_locked-IsDone : (input : ℕ) (s : Server) → IsDone (trade_show_locked input s)
unfolding trade_show_locked
trade_show_locked-IsDone input s =
    IsDone-if (int_gt input s.game.cant_trades) _ _ tt
      (elim (Option-cases (find_in (λ l. l.trades) (λ t. t.id == input) s.game.leagues)) [
        | inl n ↦ rw n tt
        | inr (_, n) ↦ rw n tt
      ])
