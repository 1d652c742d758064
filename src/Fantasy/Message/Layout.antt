-- ===== src/Fantasy/Message/Layout.antt =====
-- The wire format of a request, independent of the code that writes and reads it.
use so_tpe.Prelude.{ℕ, ◌<◌, List, ◌++◌}
use so_tpe.Fantasy.Transport.{Transport}
use so_tpe.Fantasy.Transport.Laws.{Carried, carried}
use so_tpe.Fantasy.Wire.{int_mod, int_bytes, IsString, terminated}
use so_tpe.Fantasy.Message.Defs.{
  Message, contact, register, login, list_leagues, list_teams, list_trades, league_show, team_show,
  trade_show, trade, trade_withdraw, trade_accept, trade_negotiate, logout, join_league,
  create_league, draft, draft_out, choose,
}

-- What a request may hold: C strings, numbers of 32 bits, and a contact message of the
-- transport.
abbrev pub Fits : Transport → Message → Type 0
Fits t (contact c) = Carried t c
Fits t (register user pass) = IsString user × IsString pass
Fits t (login user pass) = IsString user × IsString pass
Fits t list_leagues = Unit
Fits t list_teams = Unit
Fits t list_trades = Unit
Fits t (league_show id) = (id < int_mod)
Fits t (team_show id) = (id < int_mod)
Fits t (trade_show id) = (id < int_mod)
Fits t (trade from to team_id) = IsString from × IsString to × (team_id < int_mod)
Fits t (trade_withdraw trade_id) = (trade_id < int_mod)
Fits t (trade_accept trade_id) = (trade_id < int_mod)
Fits t (trade_negotiate from to trade_id) = IsString from × IsString to × (trade_id < int_mod)
Fits t logout = Unit
Fits t (join_league id) = (id < int_mod)
Fits t (create_league name) = IsString name
Fits t (draft id) = (id < int_mod)
Fits t draft_out = Unit
Fits t (choose name) = IsString name

-- The bytes behind the size field: the tag, each string with its NUL, each number in four bytes.
abbrev pub body : (t : Transport) (m : Message) → Fits t m → List ℕ
body t (contact c) h = int_bytes 0 ++ (carried h).data_bytes
body t (register user pass) h = int_bytes 1 ++ (terminated user ++ (terminated pass))
body t (login user pass) h = int_bytes 2 ++ (terminated user ++ (terminated pass))
body t list_leagues h = int_bytes 3
body t list_teams h = int_bytes 4
body t list_trades h = int_bytes 5
body t (league_show id) h = int_bytes 6 ++ (int_bytes id)
body t (team_show id) h = int_bytes 7 ++ (int_bytes id)
body t (trade_show id) h = int_bytes 8 ++ (int_bytes id)
body t (trade from to team_id) h =
    int_bytes 9 ++ (terminated from ++ (terminated to ++ (int_bytes team_id)))
body t (trade_withdraw trade_id) h = int_bytes 10 ++ (int_bytes trade_id)
body t (trade_accept trade_id) h = int_bytes 11 ++ (int_bytes trade_id)
body t (trade_negotiate from to trade_id) h =
    int_bytes 12 ++ (terminated from ++ (terminated to ++ (int_bytes trade_id)))
body t logout h = int_bytes 13
body t (join_league id) h = int_bytes 14 ++ (int_bytes id)
body t (create_league name) h = int_bytes 15 ++ (terminated name)
body t (draft id) h = int_bytes 16 ++ (int_bytes id)
body t draft_out h = int_bytes 17
body t (choose name) h = int_bytes 18 ++ (terminated name)
