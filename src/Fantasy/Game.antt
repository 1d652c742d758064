-- ===== src/Fantasy/Game.antt =====
-- The league server's data, TPE1/src/includes/structs.h, and what the handlers of
-- TPE1/src/server/execute.c run on.
--
-- The lists of the source hold pointers to structures that nothing else points to, and stand for
-- their contents here; only `me`, the user of a connection, is a pointer into one, so it is a
-- position in `users`, whose items never move. Text is its bytes before the NUL, an `int` its 32-bit
-- pattern. `malloc` is taken to succeed.
pub mod Text
pub mod Names
pub mod Found
pub mod Answer
pub mod Account
pub mod Show
pub mod Leagues
pub mod Trades
pub mod Drafts
pub mod Execute
pub mod Steps
pub mod Locks
pub mod Returns
use so_tpe.Prelude.{
  ℕ, zero, suc, ◌+◌, ◌%◌, ◌^◌, Bool, true, false, Option, none, some, List, [], ◌∷◌, ◌++◌, ◌==◌,
  ltb, ◌&&◌, if◌then◌else◌,
}
use so_tpe.Fantasy.Reply.{Reply}

pub record Player : Type 0 where
  pub name : List ℕ
  pub points : ℕ

pub data TradeState : Type 0 where
  awaiting canceled accepted : TradeState

pub record Trade : Type 0 where
  pub id : ℕ
  pub state : TradeState
  pub user_from : List ℕ
  pub user_to : List ℕ
  pub player_from : List ℕ
  pub player_to : List ℕ

pub record User : Type 0 where
  pub user : List ℕ
  pub pass : List ℕ
  pub leagues : ℕ
  pub leagues_ids : List ℕ

pub record Team : Type 0 where
  pub id : ℕ
  pub owner : List ℕ
  pub points : ℕ
  pub cant_players : ℕ
  pub players : List Player

pub data LeagueStatus : Type 0 where
  inactive drafting active : LeagueStatus

pub record League : Type 0 where
  pub id : ℕ
  pub name : List ℕ
  pub status : LeagueStatus
  pub cant_available_players : ℕ
  pub available_players : List Player
  pub teams : List Team
  pub trades : List Trade
  pub cant_draft : ℕ
  pub turn : List ℕ
  pub answer : Bool

pub record Game : Type 0 where
  pub users : List User
  pub leagues : List League
  pub logged_users : List (List ℕ)
  pub cant_teams : ℕ
  pub cant_trades : ℕ

abbrev pub cant_teams_max : ℕ
cant_teams_max = 3

-- The number of players of a team that has drafted.
abbrev pub cant_players_max : ℕ
cant_players_max = 5

-- What a handler sees: the game, whether `game_mutex` is held, the user of its connection, the
-- answers sent on it, what `malloc` leaves in the status of an answer, and how many bytes `malloc`
-- really gives when it is asked for a number of them.
pub record Server : Type 0 where
  pub game : Game
  pub locked : Bool
  pub me : Option ℕ
  pub sent : List Reply
  pub stale : ℕ
  pub usable : ℕ → ℕ

-- How a handler ends. `blocked` waits for the mutex, which its own thread or one that returned
-- without unlocking still holds; `fault` is a use of an invalid pointer or of a value never written.
pub data Outcome {ℓ} (A : Type ℓ) : Type ℓ where
  done : A → Outcome A
  blocked : Outcome A
  fault : Outcome A

infixl 5 ◌>>=◌
abbrev pub ◌>>=◌ {ℓ κ} : {A : Type ℓ} {B : Type κ} → Outcome A → (A → Outcome B) → Outcome B
done a >>= f = f a
blocked >>= f = blocked
fault >>= f = fault

-- `pthread_mutex_lock(&game_mutex)` and `pthread_mutex_unlock(&game_mutex)`.
unfoldable pub lock : Server → Outcome Server
lock s = if s.locked then blocked else done (record s { locked = true })

unfoldable pub unlock : Server → Server
unlock s = record s { locked = false }

unfoldable pub communicate : Reply → Server → Server
communicate r s = record s { sent = s.sent ++ r ∷ [] }

abbrev pub set_game : Game → Server → Server
set_game g s = record s { game = g }

-- `a > b` of two `int`s.
unfoldable pub int_gt : ℕ → ℕ → Bool
int_gt a b = ltb ((b + 2 ^ 31) % 2 ^ 32) ((a + 2 ^ 31) % 2 ^ 32)

-- `strcmp(s, t) == 0`.
unfoldable pub same : List ℕ → List ℕ → Bool
same [] [] = true
same [] (b ∷ t) = false
same (a ∷ s) [] = false
same (a ∷ s) (b ∷ t) = (a == b) && same s t

-- `FOR_EACH` with a test that leaves the loop: the first item that passes, and its position.
module _ {ℓ} {A : Type ℓ} where
  abbrev pub shift : Option (ℕ × A) → Option (ℕ × A)
  shift none = none
  shift (some (i, x)) = some (i + 1, x)

  unfoldable pub find : (A → Bool) → List A → Option (ℕ × A)
  find p [] = none
  find p (x ∷ xs) = if p x then some (0, x) else shift (find p xs)

  -- `Remove` of the item at a position, and `AddToList`.
  unfoldable pub remove_at : ℕ → List A → List A
  remove_at i [] = []
  remove_at zero (x ∷ xs) = xs
  remove_at (suc i) (x ∷ xs) = x ∷ remove_at i xs

  abbrev pub add_to_list : A → List A → List A
  add_to_list x xs = xs ++ x ∷ []

-- A change of the item at a position.
unfoldable pub modify {ℓ} : {A : Type ℓ} → ℕ → (A → A) → List A → List A
modify i f [] = []
modify zero f (x ∷ xs) = f x ∷ xs
modify (suc i) f (x ∷ xs) = x ∷ modify i f xs

-- Two nested `FOR_EACH` whose inner body leaves both: the positions and items found.
module _ {ℓ κ} {A : Type ℓ} {B : Type κ} where
  abbrev pub shift_in : Option (ℕ × A × ℕ × B) → Option (ℕ × A × ℕ × B)
  shift_in none = none
  shift_in (some (i, x, j, y)) = some (i + 1, x, j, y)

  unfoldable pub find_in : (A → List B) → (B → Bool) → List A → Option (ℕ × A × ℕ × B)
  find_in inner p [] = none
  find_in inner p (x ∷ xs) = elim (find p (inner x)) [
    | some (j, y) ↦ some (0, x, j, y)
    | none ↦ shift_in (find_in inner p xs)
  ]

-- A loop whose body may leave the handler: it goes on with its variables, or stops with a result.
pub data Search {ℓ κ} (S : Type ℓ) (A : Type κ) : Type (ℓ ⊔ κ) where
  go : S → Search S A
  stop : A → Search S A
