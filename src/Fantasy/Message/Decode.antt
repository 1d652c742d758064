-- ===== src/Fantasy/Message/Decode.antt =====
-- The `deserialize_*` functions and their table. The stream is what follows the size field.
use so_tpe.Prelude.{ℕ, ◌+◌, Option, none, some, List, length, drop, ◌>>=◌, ◌==◌, if◌then◌else◌}
use so_tpe.Fantasy.Transport.{Transport}
use so_tpe.Fantasy.Wire.{int_size, get_int, get_string, strcpy_into}
use so_tpe.Fantasy.Message.Defs.{
  Message, contact, register, login, list_leagues, list_teams, list_trades, league_show, team_show,
  trade_show, trade, trade_withdraw, trade_accept, trade_negotiate, logout, join_league,
  create_league, draft, draft_out, choose,
}

unfoldable pub deserialize_register : List ℕ → Option Message
deserialize_register stream = do
  source ← get_string stream
  let size = length source + 1
  user ← strcpy_into size source
  let stream = drop size stream
  source ← get_string stream
  let size = length source + 1
  pass ← strcpy_into size source
  some (register user pass)

unfoldable pub deserialize_login : List ℕ → Option Message
deserialize_login stream = do
  source ← get_string stream
  let size = length source + 1
  user ← strcpy_into size source
  let stream = drop size stream
  source ← get_string stream
  let size = length source + 1
  pass ← strcpy_into size source
  some (login user pass)

unfoldable pub deserialize_list_leagues : List ℕ → Option Message
deserialize_list_leagues stream = some list_leagues

unfoldable pub deserialize_list_teams : List ℕ → Option Message
deserialize_list_teams stream = some list_teams

unfoldable pub deserialize_list_trades : List ℕ → Option Message
deserialize_list_trades stream = some list_trades

unfoldable pub deserialize_league_show : List ℕ → Option Message
deserialize_league_show stream = do id ← get_int stream; some (league_show id)

unfoldable pub deserialize_team_show : List ℕ → Option Message
deserialize_team_show stream = do id ← get_int stream; some (team_show id)

unfoldable pub deserialize_trade_show : List ℕ → Option Message
deserialize_trade_show stream = do id ← get_int stream; some (trade_show id)

unfoldable pub deserialize_trade : List ℕ → Option Message
deserialize_trade stream = do
  source ← get_string stream
  let size = length source + 1
  from ← strcpy_into size source
  let stream = drop size stream
  source ← get_string stream
  let size = length source + 1
  to ← strcpy_into size source
  let stream = drop size stream
  team_id ← get_int stream
  some (trade from to team_id)

unfoldable pub deserialize_trade_withdraw : List ℕ → Option Message
deserialize_trade_withdraw stream = do trade_id ← get_int stream; some (trade_withdraw trade_id)

unfoldable pub deserialize_trade_accept : List ℕ → Option Message
deserialize_trade_accept stream = do trade_id ← get_int stream; some (trade_accept trade_id)

unfoldable pub deserialize_trade_negotiate : List ℕ → Option Message
deserialize_trade_negotiate stream = do
  source ← get_string stream
  let size = length source + 1
  from ← strcpy_into size source
  let stream = drop size stream
  source ← get_string stream
  let size = length source + 1
  to ← strcpy_into size source
  let stream = drop size stream
  trade_id ← get_int stream
  some (trade_negotiate from to trade_id)

unfoldable pub deserialize_logout : List ℕ → Option Message
deserialize_logout stream = some logout

unfoldable pub deserialize_join_league : List ℕ → Option Message
deserialize_join_league stream = do id ← get_int stream; some (join_league id)

unfoldable pub deserialize_create_league : List ℕ → Option Message
deserialize_create_league stream = do
  source ← get_string stream
  let size = length source + 1
  name ← strcpy_into size source
  some (create_league name)

unfoldable pub deserialize_draft : List ℕ → Option Message
deserialize_draft stream = do id ← get_int stream; some (draft id)

unfoldable pub deserialize_draft_out : List ℕ → Option Message
deserialize_draft_out stream = some draft_out

unfoldable pub deserialize_choose : List ℕ → Option Message
deserialize_choose stream = do
  source ← get_string stream
  let size = length source + 1
  name ← strcpy_into size source
  some (choose name)

-- The table `_deserialize_t`; a number past its end is no function.
module _ (t : Transport) where
  unfoldable pub dispatch : ℕ → List ℕ → Option Message
  dispatch type stream =
      if type == 0
      then (t.deserialize_contact stream >>= λ c. some (contact c))
      else if type == 1
      then deserialize_register stream
      else if type == 2
      then deserialize_login stream
      else if type == 3
      then deserialize_list_leagues stream
      else if type == 4
      then deserialize_list_teams stream
      else if type == 5
      then deserialize_list_trades stream
      else if type == 6
      then deserialize_league_show stream
      else if type == 7
      then deserialize_team_show stream
      else if type == 8
      then deserialize_trade_show stream
      else if type == 9
      then deserialize_trade stream
      else if type == 10
      then deserialize_trade_withdraw stream
      else if type == 11
      then deserialize_trade_accept stream
      else if type == 12
      then deserialize_trade_negotiate stream
      else if type == 13
      then deserialize_logout stream
      else if type == 14
      then deserialize_join_league stream
      else if type == 15
      then deserialize_create_league stream
      else if type == 16
      then deserialize_draft stream
      else if type == 17
      then deserialize_draft_out stream
      else if type == 18
      then deserialize_choose stream
      else none

  unfoldable pub deserialize_msg : List ℕ → Option Message
  unfolding dispatch
  deserialize_msg stream = do type ← get_int stream; dispatch type (drop int_size stream)
