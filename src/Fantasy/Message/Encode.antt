-- ===== src/Fantasy/Message/Encode.antt =====
-- The `serialize_*` functions and their table. Each computes the size of what follows the size
-- field, allocates that and the field, and fills it.
use so_tpe.Prelude.{ℕ, ◌+◌, ◌*◌, Option, List, length, ◌>>=◌}
use so_tpe.Fantasy.Transport.{Transport}
use so_tpe.Fantasy.Wire.{int_size, Buffer, put_size, put_int, put_string}
use so_tpe.Fantasy.Message.Defs.{
  Message, type_of, contact, register, login, list_leagues, list_teams, list_trades, league_show,
  team_show, trade_show, trade, trade_withdraw, trade_accept, trade_negotiate, logout, join_league,
  create_league, draft, draft_out, choose,
}

unfoldable pub serialize_register : ℕ → List ℕ → List ℕ → Option Buffer
serialize_register type user pass = do
  let user_size = length user + 1
  let pass_size = length pass + 1
  let msg_size = int_size + user_size + pass_size
  msg ← put_size msg_size
  msg ← put_int type msg
  msg ← put_string user msg
  put_string pass msg

unfoldable pub serialize_login : ℕ → List ℕ → List ℕ → Option Buffer
serialize_login type user pass = do
  let user_size = length user + 1
  let pass_size = length pass + 1
  let msg_size = int_size + user_size + pass_size
  msg ← put_size msg_size
  msg ← put_int type msg
  msg ← put_string user msg
  put_string pass msg

unfoldable pub serialize_list_leagues : ℕ → Option Buffer
serialize_list_leagues type = do let msg_size = int_size; msg ← put_size msg_size; put_int type msg

unfoldable pub serialize_list_teams : ℕ → Option Buffer
serialize_list_teams type = do let msg_size = int_size; msg ← put_size msg_size; put_int type msg

unfoldable pub serialize_list_trades : ℕ → Option Buffer
serialize_list_trades type = do let msg_size = int_size; msg ← put_size msg_size; put_int type msg

unfoldable pub serialize_league_show : ℕ → ℕ → Option Buffer
serialize_league_show type id = do
  let msg_size = 2 * int_size
  msg ← put_size msg_size
  msg ← put_int type msg
  put_int id msg

unfoldable pub serialize_team_show : ℕ → ℕ → Option Buffer
serialize_team_show type id = do
  let msg_size = 2 * int_size
  msg ← put_size msg_size
  msg ← put_int type msg
  put_int id msg

unfoldable pub serialize_trade_show : ℕ → ℕ → Option Buffer
serialize_trade_show type id = do
  let msg_size = 2 * int_size
  msg ← put_size msg_size
  msg ← put_int type msg
  put_int id msg

unfoldable pub serialize_trade : ℕ → List ℕ → List ℕ → ℕ → Option Buffer
serialize_trade type from to team_id = do
  let from_size = length from + 1
  let to_size = length to + 1
  let msg_size = 2 * int_size + from_size + to_size
  msg ← put_size msg_size
  msg ← put_int type msg
  msg ← put_string from msg
  msg ← put_string to msg
  put_int team_id msg

unfoldable pub serialize_trade_withdraw : ℕ → ℕ → Option Buffer
serialize_trade_withdraw type trade_id = do
  let msg_size = 2 * int_size
  msg ← put_size msg_size
  msg ← put_int type msg
  put_int trade_id msg

unfoldable pub serialize_trade_accept : ℕ → ℕ → Option Buffer
serialize_trade_accept type trade_id = do
  let msg_size = 2 * int_size
  msg ← put_size msg_size
  msg ← put_int type msg
  put_int trade_id msg

unfoldable pub serialize_trade_negotiate : ℕ → List ℕ → List ℕ → ℕ → Option Buffer
serialize_trade_negotiate type from to trade_id = do
  let from_size = length from + 1
  let to_size = length to + 1
  let msg_size = 2 * int_size + from_size + to_size
  msg ← put_size msg_size
  msg ← put_int type msg
  msg ← put_string from msg
  msg ← put_string to msg
  put_int trade_id msg

unfoldable pub serialize_logout : ℕ → Option Buffer
serialize_logout type = do let msg_size = int_size; msg ← put_size msg_size; put_int type msg

unfoldable pub serialize_join_league : ℕ → ℕ → Option Buffer
serialize_join_league type id = do
  let msg_size = 2 * int_size
  msg ← put_size msg_size
  msg ← put_int type msg
  put_int id msg

unfoldable pub serialize_create_league : ℕ → List ℕ → Option Buffer
serialize_create_league type name = do
  let name_size = length name + 1
  let msg_size = int_size + name_size
  msg ← put_size msg_size
  msg ← put_int type msg
  put_string name msg

unfoldable pub serialize_draft : ℕ → ℕ → Option Buffer
serialize_draft type id = do
  let msg_size = 2 * int_size
  msg ← put_size msg_size
  msg ← put_int type msg
  put_int id msg

unfoldable pub serialize_draft_out : ℕ → Option Buffer
serialize_draft_out type = do let msg_size = int_size; msg ← put_size msg_size; put_int type msg

unfoldable pub serialize_choose : ℕ → List ℕ → Option Buffer
serialize_choose type name = do
  let name_size = length name + 1
  let msg_size = int_size + name_size
  msg ← put_size msg_size
  msg ← put_int type msg
  put_string name msg

-- The table `_serialize_t`, by the tag.
module _ (t : Transport) where
  unfoldable pub serialize_msg : Message → Option Buffer
  serialize_msg (contact c) = t.serialize_contact (type_of (contact c)) c
  serialize_msg (register user pass) = serialize_register (type_of (register user pass)) user pass
  serialize_msg (login user pass) = serialize_login (type_of (login user pass)) user pass
  serialize_msg list_leagues = serialize_list_leagues (type_of list_leagues)
  serialize_msg list_teams = serialize_list_teams (type_of list_teams)
  serialize_msg list_trades = serialize_list_trades (type_of list_trades)
  serialize_msg (league_show id) = serialize_league_show (type_of (league_show id)) id
  serialize_msg (team_show id) = serialize_team_show (type_of (team_show id)) id
  serialize_msg (trade_show id) = serialize_trade_show (type_of (trade_show id)) id
  serialize_msg (trade from to team_id) =
      serialize_trade (type_of (trade from to team_id)) from to team_id
  serialize_msg (trade_withdraw trade_id) =
      serialize_trade_withdraw (type_of (trade_withdraw trade_id)) trade_id
  serialize_msg (trade_accept trade_id) =
      serialize_trade_accept (type_of (trade_accept trade_id)) trade_id
  serialize_msg (trade_negotiate from to trade_id) =
      serialize_trade_negotiate (type_of (trade_negotiate from to trade_id)) from to trade_id
  serialize_msg logout = serialize_logout (type_of logout)
  serialize_msg (join_league id) = serialize_join_league (type_of (join_league id)) id
  serialize_msg (create_league name) = serialize_create_league (type_of (create_league name)) name
  serialize_msg (draft id) = serialize_draft (type_of (draft id)) id
  serialize_msg draft_out = serialize_draft_out (type_of draft_out)
  serialize_msg (choose name) = serialize_choose (type_of (choose name)) name
