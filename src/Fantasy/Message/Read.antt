-- ===== src/Fantasy/Message/Read.antt =====
-- What each `deserialize_*` function reads from the bytes of its request.
use so_tpe.Prelude.{ℕ, ◌<◌, ◌≡◌, some, List, ◌++◌, append_assoc}
use so_tpe.Fantasy.Wire.{
  int_mod, int_bytes, IsString, terminated, terminated-append, get_int-int_bytes, get_string-append,
  drop-append, strcpy_into-fits,
}
use so_tpe.Fantasy.Message.Defs.{
  register, login, league_show, team_show, trade_show, trade, trade_withdraw, trade_accept,
  trade_negotiate, join_league, create_league, draft, choose,
}
use so_tpe.Fantasy.Message.Decode.{
  deserialize_register, deserialize_login, deserialize_league_show, deserialize_team_show,
  deserialize_trade_show, deserialize_trade, deserialize_trade_withdraw, deserialize_trade_accept,
  deserialize_trade_negotiate, deserialize_join_league, deserialize_create_league,
  deserialize_draft, deserialize_choose,
}

pub decode_register :
    (user : List ℕ) (pass : List ℕ) (rest : List ℕ)
    → IsString user
    → IsString pass
    → deserialize_register ((terminated user ++ (terminated pass)) ++ rest)
      ≡ some (register user pass)
unfolding deserialize_register
decode_register user pass rest h_user h_pass = rw (
  append_assoc (terminated user) (terminated pass) rest,
  terminated-append user _,
  get_string-append _ user h_user,
  strcpy_into-fits user,
  drop-append _ user,
  terminated-append pass _,
  get_string-append _ pass h_pass,
  strcpy_into-fits pass,
)

pub decode_login :
    (user : List ℕ) (pass : List ℕ) (rest : List ℕ)
    → IsString user
    → IsString pass
    → deserialize_login ((terminated user ++ (terminated pass)) ++ rest) ≡ some (login user pass)
unfolding deserialize_login
decode_login user pass rest h_user h_pass = rw (
  append_assoc (terminated user) (terminated pass) rest,
  terminated-append user _,
  get_string-append _ user h_user,
  strcpy_into-fits user,
  drop-append _ user,
  terminated-append pass _,
  get_string-append _ pass h_pass,
  strcpy_into-fits pass,
)

pub decode_league_show :
    (id : ℕ) (rest : List ℕ)
    → id < int_mod
    → deserialize_league_show ((int_bytes id) ++ rest) ≡ some (league_show id)
unfolding deserialize_league_show
decode_league_show id rest h_id = rw (get_int-int_bytes id rest h_id)

pub decode_team_show :
    (id : ℕ) (rest : List ℕ)
    → id < int_mod
    → deserialize_team_show ((int_bytes id) ++ rest) ≡ some (team_show id)
unfolding deserialize_team_show
decode_team_show id rest h_id = rw (get_int-int_bytes id rest h_id)

pub decode_trade_show :
    (id : ℕ) (rest : List ℕ)
    → id < int_mod
    → deserialize_trade_show ((int_bytes id) ++ rest) ≡ some (trade_show id)
unfolding deserialize_trade_show
decode_trade_show id rest h_id = rw (get_int-int_bytes id rest h_id)

pub decode_trade :
    (from : List ℕ) (to : List ℕ) (team_id : ℕ) (rest : List ℕ)
    → IsString from
    → IsString to
    → team_id < int_mod
    → deserialize_trade ((terminated from ++ (terminated to ++ (int_bytes team_id))) ++ rest)
      ≡ some (trade from to team_id)
unfolding deserialize_trade
decode_trade from to team_id rest h_from h_to h_team_id = rw (
  append_assoc (terminated from) (terminated to ++ int_bytes team_id) rest,
  append_assoc (terminated to) (int_bytes team_id) rest,
  terminated-append from _,
  get_string-append _ from h_from,
  strcpy_into-fits from,
  drop-append _ from,
  terminated-append to _,
  get_string-append _ to h_to,
  strcpy_into-fits to,
  drop-append _ to,
  get_int-int_bytes team_id rest h_team_id,
)

pub decode_trade_withdraw :
    (trade_id : ℕ) (rest : List ℕ)
    → trade_id < int_mod
    → deserialize_trade_withdraw ((int_bytes trade_id) ++ rest) ≡ some (trade_withdraw trade_id)
unfolding deserialize_trade_withdraw
decode_trade_withdraw trade_id rest h_trade_id = rw (get_int-int_bytes trade_id rest h_trade_id)

pub decode_trade_accept :
    (trade_id : ℕ) (rest : List ℕ)
    → trade_id < int_mod
    → deserialize_trade_accept ((int_bytes trade_id) ++ rest) ≡ some (trade_accept trade_id)
unfolding deserialize_trade_accept
decode_trade_accept trade_id rest h_trade_id = rw (get_int-int_bytes trade_id rest h_trade_id)

pub decode_trade_negotiate :
    (from : List ℕ) (to : List ℕ) (trade_id : ℕ) (rest : List ℕ)
    → IsString from
    → IsString to
    → trade_id < int_mod
    → deserialize_trade_negotiate
        ((terminated from ++ (terminated to ++ (int_bytes trade_id))) ++ rest)
      ≡ some (trade_negotiate from to trade_id)
unfolding deserialize_trade_negotiate
decode_trade_negotiate from to trade_id rest h_from h_to h_trade_id = rw (
  append_assoc (terminated from) (terminated to ++ int_bytes trade_id) rest,
  append_assoc (terminated to) (int_bytes trade_id) rest,
  terminated-append from _,
  get_string-append _ from h_from,
  strcpy_into-fits from,
  drop-append _ from,
  terminated-append to _,
  get_string-append _ to h_to,
  strcpy_into-fits to,
  drop-append _ to,
  get_int-int_bytes trade_id rest h_trade_id,
)

pub decode_join_league :
    (id : ℕ) (rest : List ℕ)
    → id < int_mod
    → deserialize_join_league ((int_bytes id) ++ rest) ≡ some (join_league id)
unfolding deserialize_join_league
decode_join_league id rest h_id = rw (get_int-int_bytes id rest h_id)

pub decode_create_league :
    (name : List ℕ) (rest : List ℕ)
    → IsString name
    → deserialize_create_league ((terminated name) ++ rest) ≡ some (create_league name)
unfolding deserialize_create_league
decode_create_league name rest h_name =
    rw (terminated-append name _, get_string-append _ name h_name, strcpy_into-fits name)

pub decode_draft :
    (id : ℕ) (rest : List ℕ)
    → id < int_mod
    → deserialize_draft ((int_bytes id) ++ rest) ≡ some (draft id)
unfolding deserialize_draft
decode_draft id rest h_id = rw (get_int-int_bytes id rest h_id)

pub decode_choose :
    (name : List ℕ) (rest : List ℕ)
    → IsString name
    → deserialize_choose ((terminated name) ++ rest) ≡ some (choose name)
unfolding deserialize_choose
decode_choose name rest h_name =
    rw (terminated-append name _, get_string-append _ name h_name, strcpy_into-fits name)
