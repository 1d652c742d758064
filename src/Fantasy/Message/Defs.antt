-- ===== src/Fantasy/Message/Defs.antt =====
-- The requests, `msg_t` of TPE1/src/includes/message.h: the tag with the union member that goes
-- with it.
use so_tpe.Prelude.{ℕ, List}
use so_tpe.Fantasy.Transport.{Contact}

pub data Message : Type 0 where
  contact : Contact → Message
  register : (user pass : List ℕ) → Message
  login : (user pass : List ℕ) → Message
  list_leagues : Message
  list_teams : Message
  list_trades : Message
  league_show : (id : ℕ) → Message
  team_show : (id : ℕ) → Message
  trade_show : (id : ℕ) → Message
  trade : (from to : List ℕ) (team_id : ℕ) → Message
  trade_withdraw : (trade_id : ℕ) → Message
  trade_accept : (trade_id : ℕ) → Message
  trade_negotiate : (from to : List ℕ) (trade_id : ℕ) → Message
  logout : Message
  join_league : (id : ℕ) → Message
  create_league : (name : List ℕ) → Message
  draft : (id : ℕ) → Message
  draft_out : Message
  choose : (name : List ℕ) → Message

-- `msg->type`, with the numbers that the header gives.
abbrev pub type_of : Message → ℕ
type_of (contact _) = 0
type_of (register _ _) = 1
type_of (login _ _) = 2
type_of list_leagues = 3
type_of list_teams = 4
type_of list_trades = 5
type_of (league_show _) = 6
type_of (team_show _) = 7
type_of (trade_show _) = 8
type_of (trade _ _ _) = 9
type_of (trade_withdraw _) = 10
type_of (trade_accept _) = 11
type_of (trade_negotiate _ _ _) = 12
type_of logout = 13
type_of (join_league _) = 14
type_of (create_league _) = 15
type_of (draft _) = 16
type_of draft_out = 17
type_of (choose _) = 18
