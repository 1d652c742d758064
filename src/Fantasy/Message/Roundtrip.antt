-- ===== src/Fantasy/Message/Roundtrip.antt =====
-- A request that is sent is the request that arrives.
use so_tpe.Prelude.{
  ℕ, ◌<◌, ◌^◌, length, ◌≡◌, sym, ap, ◌∙◌, some, List, [], ◌++◌, arith, append_assoc, append-nil,
  length-append, ◌>>=◌,
}
use so_tpe.Fantasy.Transport.{Transport}
use so_tpe.Fantasy.Wire.{
  int_mod, int_bytes, terminated, length-terminated, get_int-int_bytes, drop-int_bytes,
  length-int_bytes,
}
use so_tpe.Fantasy.Message.Defs.{
  Message, contact, register, login, list_leagues, list_teams, list_trades, league_show, team_show,
  trade_show, trade, trade_withdraw, trade_accept, trade_negotiate, logout, join_league,
  create_league, draft, draft_out, choose,
}
use so_tpe.Fantasy.Wire.Frame.{
  framed, put_int-Writes, put_string-Writes, Writes-append, Writes-framed,
}
use so_tpe.Fantasy.Message.Encode.{
  serialize_msg, serialize_register, serialize_login, serialize_list_leagues, serialize_list_teams,
  serialize_list_trades, serialize_league_show, serialize_team_show, serialize_trade_show,
  serialize_trade, serialize_trade_withdraw, serialize_trade_accept, serialize_trade_negotiate,
  serialize_logout, serialize_join_league, serialize_create_league, serialize_draft,
  serialize_draft_out, serialize_choose,
}
use so_tpe.Fantasy.Message.Decode.{
  dispatch, deserialize_msg, deserialize_list_leagues, deserialize_list_teams,
  deserialize_list_trades, deserialize_logout, deserialize_draft_out,
}
use so_tpe.Fantasy.Message.Read.{
  decode_register, decode_login, decode_league_show, decode_team_show, decode_trade_show,
  decode_trade, decode_trade_withdraw, decode_trade_accept, decode_trade_negotiate,
  decode_join_league, decode_create_league, decode_draft, decode_choose,
}
use so_tpe.Fantasy.Message.Layout.{Fits, body}
use so_tpe.Fantasy.Transport.Laws.{carried}

module _ (t : Transport) where
  pub serialize_msg-framed :
      (m : Message) (h : Fits t m)
      → length (body t m h) < 2 ^ 31
      → serialize_msg t m ≡ some (framed (body t m h))
  unfolding serialize_msg serialize_register serialize_login serialize_list_leagues
      serialize_list_teams serialize_list_trades serialize_league_show serialize_team_show
      serialize_trade_show serialize_trade serialize_trade_withdraw serialize_trade_accept
      serialize_trade_negotiate serialize_logout serialize_join_league serialize_create_league
      serialize_draft serialize_draft_out serialize_choose
  serialize_msg-framed (contact c) h small = (carried h).sent 0
  serialize_msg-framed (register user pass) h small =
      Writes-framed _ small
        (omega (
          arith,
          length-int_bytes 1,
          length-terminated user,
          length-terminated pass,
          length-append (int_bytes 1) (terminated user ++ (terminated pass)),
          length-append (terminated user) (terminated pass),
        ))
        (Writes-append (put_int-Writes 1)
          (Writes-append (put_string-Writes user) (put_string-Writes pass)))
  serialize_msg-framed (login user pass) h small =
      Writes-framed _ small
        (omega (
          arith,
          length-int_bytes 2,
          length-terminated user,
          length-terminated pass,
          length-append (int_bytes 2) (terminated user ++ (terminated pass)),
          length-append (terminated user) (terminated pass),
        ))
        (Writes-append (put_int-Writes 2)
          (Writes-append (put_string-Writes user) (put_string-Writes pass)))
  serialize_msg-framed list_leagues h small =
      Writes-framed _ small (omega (arith, length-int_bytes 3)) (put_int-Writes 3)
  serialize_msg-framed list_teams h small =
      Writes-framed _ small (omega (arith, length-int_bytes 4)) (put_int-Writes 4)
  serialize_msg-framed list_trades h small =
      Writes-framed _ small (omega (arith, length-int_bytes 5)) (put_int-Writes 5)
  serialize_msg-framed (league_show id) h small =
      Writes-framed _ small
        (omega (
          arith,
          length-int_bytes 6,
          length-int_bytes id,
          length-append (int_bytes 6) (int_bytes id),
        ))
        (Writes-append (put_int-Writes 6) (put_int-Writes id))
  serialize_msg-framed (team_show id) h small =
      Writes-framed _ small
        (omega (
          arith,
          length-int_bytes 7,
          length-int_bytes id,
          length-append (int_bytes 7) (int_bytes id),
        ))
        (Writes-append (put_int-Writes 7) (put_int-Writes id))
  serialize_msg-framed (trade_show id) h small =
      Writes-framed _ small
        (omega (
          arith,
          length-int_bytes 8,
          length-int_bytes id,
          length-append (int_bytes 8) (int_bytes id),
        ))
        (Writes-append (put_int-Writes 8) (put_int-Writes id))
  serialize_msg-framed (trade from to team_id) h small =
      Writes-framed _ small
        (omega (
          arith,
          length-int_bytes 9,
          length-terminated from,
          length-terminated to,
          length-int_bytes team_id,
          length-append (int_bytes 9) (terminated from ++ (terminated to ++ (int_bytes team_id))),
          length-append (terminated from) (terminated to ++ (int_bytes team_id)),
          length-append (terminated to) (int_bytes team_id),
        ))
        (Writes-append (put_int-Writes 9) (
          Writes-append (put_string-Writes from)
            (Writes-append (put_string-Writes to) (put_int-Writes team_id))))
  serialize_msg-framed (trade_withdraw trade_id) h small =
      Writes-framed _ small
        (omega (
          arith,
          length-int_bytes 10,
          length-int_bytes trade_id,
          length-append (int_bytes 10) (int_bytes trade_id),
        ))
        (Writes-append (put_int-Writes 10) (put_int-Writes trade_id))
  serialize_msg-framed (trade_accept trade_id) h small =
      Writes-framed _ small
        (omega (
          arith,
          length-int_bytes 11,
          length-int_bytes trade_id,
          length-append (int_bytes 11) (int_bytes trade_id),
        ))
        (Writes-append (put_int-Writes 11) (put_int-Writes trade_id))
  serialize_msg-framed (trade_negotiate from to trade_id) h small =
      Writes-framed _ small
        (omega (
          arith,
          length-int_bytes 12,
          length-terminated from,
          length-terminated to,
          length-int_bytes trade_id,
          length-append (int_bytes 12) (terminated from ++ (terminated to ++ (int_bytes trade_id))),
          length-append (terminated from) (terminated to ++ (int_bytes trade_id)),
          length-append (terminated to) (int_bytes trade_id),
        ))
        (Writes-append (put_int-Writes 12) (
          Writes-append (put_string-Writes from)
            (Writes-append (put_string-Writes to) (put_int-Writes trade_id))))
  serialize_msg-framed logout h small =
      Writes-framed _ small (omega (arith, length-int_bytes 13)) (put_int-Writes 13)
  serialize_msg-framed (join_league id) h small =
      Writes-framed _ small
        (omega (
          arith,
          length-int_bytes 14,
          length-int_bytes id,
          length-append (int_bytes 14) (int_bytes id),
        ))
        (Writes-append (put_int-Writes 14) (put_int-Writes id))
  serialize_msg-framed (create_league name) h small =
      Writes-framed _ small
        (omega (
          arith,
          length-int_bytes 15,
          length-terminated name,
          length-append (int_bytes 15) (terminated name),
        ))
        (Writes-append (put_int-Writes 15) (put_string-Writes name))
  serialize_msg-framed (draft id) h small =
      Writes-framed _ small
        (omega (
          arith,
          length-int_bytes 16,
          length-int_bytes id,
          length-append (int_bytes 16) (int_bytes id),
        ))
        (Writes-append (put_int-Writes 16) (put_int-Writes id))
  serialize_msg-framed draft_out h small =
      Writes-framed _ small (omega (arith, length-int_bytes 17)) (put_int-Writes 17)
  serialize_msg-framed (choose name) h small =
      Writes-framed _ small
        (omega (
          arith,
          length-int_bytes 18,
          length-terminated name,
          length-append (int_bytes 18) (terminated name),
        ))
        (Writes-append (put_int-Writes 18) (put_string-Writes name))

  tagged :
      (type : ℕ) (x rest : List ℕ)
      → type < int_mod
      → deserialize_msg t ((int_bytes type ++ x) ++ rest) ≡ dispatch t type (x ++ rest)
  unfolding deserialize_msg
  tagged type x rest h =
      rw (append_assoc (int_bytes type) x rest, get_int-int_bytes type _ h, drop-int_bytes type)

  pub deserialize_msg-body :
      (m : Message) (h : Fits t m) (rest : List ℕ) → deserialize_msg t (body t m h ++ rest) ≡ some m
  unfolding dispatch deserialize_list_leagues deserialize_list_teams deserialize_list_trades
      deserialize_logout deserialize_draft_out
  deserialize_msg-body (contact c) h rest =
      tagged 0 (carried h).data_bytes rest (omega arith)
      ∙ ap (λ o. o >>= λ c'. some (contact c')) ((carried h).received rest)
  deserialize_msg-body (register user pass) h rest =
      tagged 1 (terminated user ++ (terminated pass)) rest (omega arith)
      ∙ decode_register user pass rest h.0 h.1
  deserialize_msg-body (login user pass) h rest =
      tagged 2 (terminated user ++ (terminated pass)) rest (omega arith)
      ∙ decode_login user pass rest h.0 h.1
  deserialize_msg-body list_leagues h rest =
      (ap (λ x. deserialize_msg t (x ++ rest)) (sym (append-nil (int_bytes 3)))
        ∙ tagged 3 [] rest (omega arith))
  deserialize_msg-body list_teams h rest =
      (ap (λ x. deserialize_msg t (x ++ rest)) (sym (append-nil (int_bytes 4)))
        ∙ tagged 4 [] rest (omega arith))
  deserialize_msg-body list_trades h rest =
      (ap (λ x. deserialize_msg t (x ++ rest)) (sym (append-nil (int_bytes 5)))
        ∙ tagged 5 [] rest (omega arith))
  deserialize_msg-body (league_show id) h rest =
      tagged 6 (int_bytes id) rest (omega arith) ∙ decode_league_show id rest h
  deserialize_msg-body (team_show id) h rest =
      tagged 7 (int_bytes id) rest (omega arith) ∙ decode_team_show id rest h
  deserialize_msg-body (trade_show id) h rest =
      tagged 8 (int_bytes id) rest (omega arith) ∙ decode_trade_show id rest h
  deserialize_msg-body (trade from to team_id) h rest =
      tagged 9 (terminated from ++ (terminated to ++ (int_bytes team_id))) rest (omega arith)
      ∙ decode_trade from to team_id rest h.0 h.1 h.2
  deserialize_msg-body (trade_withdraw trade_id) h rest =
      tagged 10 (int_bytes trade_id) rest (omega arith) ∙ decode_trade_withdraw trade_id rest h
  deserialize_msg-body (trade_accept trade_id) h rest =
      tagged 11 (int_bytes trade_id) rest (omega arith) ∙ decode_trade_accept trade_id rest h
  deserialize_msg-body (trade_negotiate from to trade_id) h rest =
      tagged 12 (terminated from ++ (terminated to ++ (int_bytes trade_id))) rest (omega arith)
      ∙ decode_trade_negotiate from to trade_id rest h.0 h.1 h.2
  deserialize_msg-body logout h rest =
      (ap (λ x. deserialize_msg t (x ++ rest)) (sym (append-nil (int_bytes 13)))
        ∙ tagged 13 [] rest (omega arith))
  deserialize_msg-body (join_league id) h rest =
      tagged 14 (int_bytes id) rest (omega arith) ∙ decode_join_league id rest h
  deserialize_msg-body (create_league name) h rest =
      tagged 15 (terminated name) rest (omega arith) ∙ decode_create_league name rest h
  deserialize_msg-body (draft id) h rest =
      tagged 16 (int_bytes id) rest (omega arith) ∙ decode_draft id rest h
  deserialize_msg-body draft_out h rest =
      (ap (λ x. deserialize_msg t (x ++ rest)) (sym (append-nil (int_bytes 17)))
        ∙ tagged 17 [] rest (omega arith))
  deserialize_msg-body (choose name) h rest =
      tagged 18 (terminated name) rest (omega arith) ∙ decode_choose name rest h

  -- A request of C strings and of numbers of 32 bits, or a contact message of the transport, with
  -- less than 2 GB in all, fills its allocation exactly, behind a size field that counts the bytes
  -- after it; and from those bytes, whatever follows them, the same request is read.
  pub deserialize_msg-serialize_msg :
      (m : Message)
      → (h : Fits t m) → length (body t m h) < 2 ^ 31
      → (bytes : List ℕ) × (serialize_msg t m ≡ some (framed bytes))
        × ((rest : List ℕ) → deserialize_msg t (bytes ++ rest) ≡ some m)
  deserialize_msg-serialize_msg m h small =
      (body t m h, serialize_msg-framed m h small, deserialize_msg-body m h)
