-- ===== src/Fantasy/Game/Returns/Executes.antt =====
-- `execute` of TPE1/src/server/execute.c ends and answers.
use so_tpe.Prelude.{
  ℕ, ◌+◌, ◌≡◌, refl, ap, ◌∙◌, inl, inr, Bool, true, false, some, List, [], ◌∷◌, ◌==◌, get_elem?,
  Bool-cases, Option-cases, arith,
}
use so_tpe.Fantasy.Message.Defs
use so_tpe.Fantasy.Message.Defs.{Message}
use so_tpe.Fantasy.Game.{
  User, Team, League, Trade, Game, Search, go, stop, Server, Outcome, done, blocked, fault, lock,
  unlock, set_game, same, find, int_gt,
}
use so_tpe.Fantasy.Game.Account.{execute_register, execute_login, execute_logout, log_out}
use so_tpe.Fantasy.Game.Show.{
  execute_list_leagues, execute_list_teams, execute_list_trades, list_trades, execute_league_show,
  execute_team_show, execute_trade_show,
}
use so_tpe.Fantasy.Game.Leagues.{join_locked, execute_join_league, execute_create_league}
use so_tpe.Fantasy.Game.Trades.{
  name_fits, is_awaiting, set_trade_state, execute_trade, trade_locked, execute_trade_withdraw,
  withdraw_locked,
}
use so_tpe.Fantasy.Game.Trades.Negotiate.{
  Verdict, refused, renewed, negotiate_trade, negotiate_trades, negotiate_leagues, negotiate_locked,
  execute_trade_negotiate,
}
use so_tpe.Fantasy.Game.Drafts.{Next}
use so_tpe.Fantasy.Game.Execute.{execute, finish}
use so_tpe.Fantasy.Game.Steps.Ends.{Ends}
use so_tpe.Fantasy.Game.Steps.Executes.{answers_once, AnsweredOnce, execute-Answered}
use so_tpe.Fantasy.Game.Steps.Searches.{Search-cases}
use so_tpe.Fantasy.Game.Returns.{
  IsDone, done_of, IsConnected, nobody, somebody, IsDone-lock, IsDone-if, join_locked-IsDone,
  trade_locked-IsDone, withdraw_locked-IsDone, trade_show_locked-IsDone,
}

-- `negotiate` changes trades and leaves the users.
abbrev SameUsers : Game → Search Game (Game × Verdict) → Type 0
SameUsers g (go h) = h.users ≡ g.users
SameUsers g (stop (h, v)) = h.users ≡ g.users

negotiate_trade-SameUsers :
    (u : User) (teams : List Team) (j k : ℕ) (t : Trade) (g : Game)
    → SameUsers g (negotiate_trade u teams j k t g)
unfolding negotiate_trade set_trade_state
negotiate_trade-SameUsers u teams j k t g = elim (Bool-cases (same t.user_to u.user)) [
  | inr e ↦ rw e refl
  | inl e ↦ rw e (elim (Bool-cases (is_awaiting t.state)) [
    | inr f ↦ rw f refl
    | inl f ↦ rw f (elim (Option-cases (find (λ x. same x.owner t.user_from) teams)) [
      | inl n ↦ rw n refl
      | inr (_, n) ↦ rw n refl
    ])
  ])
]

SameUsers-trans :
    (g h : Game) (r : Search Game (Game × Verdict))
    → h.users ≡ g.users
    → SameUsers h r
    → SameUsers g r
SameUsers-trans g h (go k) e d = d ∙ e
SameUsers-trans g h (stop (k, v)) e d = d ∙ e

negotiate_trades-SameUsers :
    (input : ℕ) (u : User) (teams : List Team) (j k : ℕ) (ts : List Trade) (g : Game)
    → SameUsers g (negotiate_trades input u teams j k ts g)
unfolding negotiate_trades
negotiate_trades-SameUsers input u teams j k [] g = refl
negotiate_trades-SameUsers input u teams j k (t ∷ ts) g = elim (Bool-cases (t.id == input)) [
  | inr e ↦ rw (e, negotiate_trades) (negotiate_trades-SameUsers input u teams j (k + 1) ts g)
  | inl e ↦
      let one = negotiate_trade-SameUsers u teams j k t g in
      elim (Search-cases (negotiate_trade u teams j k t g)) [
        | inl (h, f) ↦
            rw (e, f, negotiate_trades)
              (SameUsers-trans g h _ (rw f at one)
                (negotiate_trades-SameUsers input u teams j (k + 1) ts h))
        | inr ((h, v), f) ↦ rw (e, f, negotiate_trades) (rw f at one)
      ]
]

negotiate_leagues-SameUsers :
    (input : ℕ) (u : User) (j : ℕ) (ls : List League) (g : Game)
    → SameUsers g (negotiate_leagues input u j ls g)
unfolding negotiate_leagues
negotiate_leagues-SameUsers input u j [] g = refl
negotiate_leagues-SameUsers input u j (l ∷ ls) g =
    let one = negotiate_trades-SameUsers input u l.teams j 0 l.trades g in
    elim (Search-cases (negotiate_trades input u l.teams j 0 l.trades g)) [
      | inl (h, f) ↦
          rw (f, negotiate_leagues)
            (SameUsers-trans g h _ (rw f at one) (negotiate_leagues-SameUsers input u (j + 1) ls h))
      | inr ((h, v), f) ↦ rw (f, negotiate_leagues) (rw f at one)
    ]

-- The copy that an offer makes of the name of the connection's user has room.
abbrev pub HasRoom : Server → Type 0
HasRoom s =
    (i : ℕ) (u : User)
    → s.me ≡ some i
    → get_elem? s.game.users i ≡ some u
    → name_fits s.usable u.user ≡ true

trade-IsDone :
    (from to : List ℕ) (team_id : ℕ) (s : Server)
    → IsConnected s
    → s.locked ≡ false
    → HasRoom s
    → IsDone (execute_trade from to team_id s)
unfolding execute_trade
trade-IsDone from to team_id s (nobody e) free h = simp (e, execute_trade) tt
trade-IsDone from to team_id s (somebody i u j name e f g) free h =
    simp (e, f, execute_trade)
      (IsDone-lock s (trade_locked from to team_id u) free
        (trade_locked-IsDone from to team_id u _ (h i u e f)))

trade_of :
    (from to : List ℕ) (team_id : ℕ) (s : Server) (i : ℕ) (u : User)
    → s.me ≡ some i
    → get_elem? s.game.users i ≡ some u
    → s.locked ≡ false
    → name_fits s.usable u.user ≡ true
    → IsDone (execute_trade from to team_id s)
unfolding execute_trade
trade_of from to team_id s i u e f free h =
    simp (e, f, execute_trade)
      (IsDone-lock s (trade_locked from to team_id u) free
        (trade_locked-IsDone from to team_id u _ h))

negotiate_verdict-IsDone :
    (from to : List ℕ) (input : ℕ) (i : ℕ) (u : User) (g : Game) (v : Verdict) (s : Server)
    → int_gt input s.game.cant_trades ≡ false
    → negotiate_leagues input u 0 s.game.leagues s.game ≡ stop (g, v)
    → s.me ≡ some i
    → get_elem? g.users i ≡ some u
    → name_fits s.usable u.user ≡ true
    → IsDone (negotiate_locked from to input u s)
unfolding negotiate_locked unlock
negotiate_verdict-IsDone from to input i u g (refused text) s small e me user h =
    rw (small, e, negotiate_locked) tt
negotiate_verdict-IsDone from to input i u g (renewed team_id) s small e me user h =
    rw (small, e, negotiate_locked)
      (trade_of from to team_id (unlock (set_game g s)) i u me user refl h)

negotiate_locked-IsDone :
    (from to : List ℕ) (input : ℕ) (i : ℕ) (u : User) (s : Server)
    → s.me ≡ some i
    → get_elem? s.game.users i ≡ some u
    → name_fits s.usable u.user ≡ true
    → IsDone (negotiate_locked from to input u s)
unfolding negotiate_locked
negotiate_locked-IsDone from to input i u s me user h =
    let all = negotiate_leagues-SameUsers input u 0 s.game.leagues s.game in
    elim (Bool-cases (int_gt input s.game.cant_trades)) [
      | inl large ↦ rw large tt
      | inr small ↦ elim (Search-cases (negotiate_leagues input u 0 s.game.leagues s.game)) [
        | inl (g, e) ↦ rw (small, e, negotiate_locked) tt
        | inr ((g, v), e) ↦
            let same_users : g.users ≡ s.game.users = rw e at all in
            negotiate_verdict-IsDone from to input i u g v s small e me
              (ap (λ xs. get_elem? xs i) same_users ∙ user) h
      ]
    ]

list_trades-IsDone :
    (s : Server) → IsConnected s → IsDone (list_trades (record s { locked = true }))
unfolding list_trades
list_trades-IsDone s (nobody e) = simp (e, list_trades) tt
list_trades-IsDone s (somebody i u j name e f g) = simp (e, f, list_trades) tt

logout-IsDone : (s : Server) → IsConnected s → s.locked ≡ false → IsDone (execute_logout s)
unfolding execute_logout log_out
logout-IsDone s (nobody e) free = simp (e, execute_logout) tt
logout-IsDone s (somebody i u j name e f g) free =
    simp (e, execute_logout) (IsDone-lock s (log_out i) free (simp (f, g, log_out) tt))

negotiate-IsDone :
    (from to : List ℕ) (id : ℕ) (s : Server)
    → IsConnected s
    → s.locked ≡ false
    → HasRoom s
    → IsDone (execute_trade_negotiate from to id s)
unfolding execute_trade_negotiate
negotiate-IsDone from to id s (nobody e) free h = simp (e, execute_trade_negotiate) tt
negotiate-IsDone from to id s (somebody i u j name e f g) free h =
    simp (e, f, execute_trade_negotiate)
      (IsDone-lock s (negotiate_locked from to id u) free
        (negotiate_locked-IsDone from to id i u (record s { locked = true }) e f (h i u e f)))

withdraw-IsDone :
    (id : ℕ) (s : Server) → IsConnected s → s.locked ≡ false → IsDone (execute_trade_withdraw id s)
unfolding execute_trade_withdraw
withdraw-IsDone id s (nobody e) free = simp (e, execute_trade_withdraw) tt
withdraw-IsDone id s (somebody i u j name e f g) free =
    simp (e, f, execute_trade_withdraw)
      (IsDone-lock s (withdraw_locked id u) free (withdraw_locked-IsDone id u _))

join-IsDone :
    (id : ℕ) (s : Server) → IsConnected s → s.locked ≡ false → IsDone (execute_join_league id s)
unfolding execute_join_league
join-IsDone id s (nobody e) free = simp (e, execute_join_league) tt
join-IsDone id s (somebody i u j name e f g) free =
    simp (e, f, execute_join_league)
      (IsDone-lock s (join_locked id i u) free (join_locked-IsDone id i u _))

create-IsDone :
    (players : List (List ℕ)) (name : List ℕ) (s : Server)
    → IsConnected s
    → s.locked ≡ false
    → IsDone (execute_create_league players name s)
unfolding execute_create_league lock
create-IsDone players name s (nobody e) free = simp (e, execute_create_league) tt
create-IsDone players name s (somebody i u j n e f g) free =
    simp (e, free, execute_create_league, lock) tt

register-IsDone :
    (user pass : List ℕ) (s : Server) → s.locked ≡ false → IsDone (execute_register user pass s)
unfolding execute_register
register-IsDone user pass s free =
    IsDone-lock s _ free (elim (Option-cases (find (λ u. same u.user user) s.game.users)) [
      | inl e ↦ rw e tt
      | inr (_, e) ↦ rw e tt
    ])

list_teams-IsDone : (s : Server) → s.locked ≡ false → IsDone (execute_list_teams s)
unfolding execute_list_teams lock
list_teams-IsDone s free = rw free (IsDone-if (s.game.cant_teams == 0) _ _ tt tt)

went-IsDone : (o : Outcome Server) → IsDone o → IsDone (finish o)
went-IsDone (done s) d = tt
went-IsDone blocked d = d
went-IsDone fault d = d

-- Every request that is answered, but the acceptance of a trade.
abbrev pub is_safe : Message → Bool
is_safe (Defs.trade_accept id) = false
is_safe m = answers_once m

-- The requests that may end in `offer`.
abbrev pub makes_offer : Message → Bool
makes_offer (Defs.trade from to team_id) = true
makes_offer (Defs.trade_negotiate from to id) = true
makes_offer _ = false

execute-IsDone :
    (players : List (List ℕ)) (m : Message) (s : Server)
    → is_safe m ≡ true
    → IsConnected s
    → s.locked ≡ false
    → (makes_offer m ≡ true → HasRoom s)
    → IsDone (execute players m s)
unfolding execute execute_login execute_list_leagues execute_list_trades execute_league_show
    execute_team_show execute_trade_show lock
execute-IsDone players (Defs.register user pass) s ok c free h =
    went-IsDone _ (register-IsDone user pass s free)
execute-IsDone players (Defs.login user pass) s ok c free h = rw free tt
execute-IsDone players Defs.list_leagues s ok c free h = rw free tt
execute-IsDone players Defs.list_teams s ok c free h = went-IsDone _ (list_teams-IsDone s free)
execute-IsDone players Defs.list_trades s ok c free h =
    rw free (went-IsDone _ (list_trades-IsDone s c))
execute-IsDone players (Defs.league_show id) s ok c free h = rw free tt
execute-IsDone players (Defs.team_show id) s ok c free h = rw free tt
execute-IsDone players (Defs.trade_show id) s ok c free h =
    rw free (went-IsDone _ (trade_show_locked-IsDone id _))
execute-IsDone players (Defs.trade from to team_id) s ok c free h =
    went-IsDone _ (trade-IsDone from to team_id s c free (h refl))
execute-IsDone players (Defs.trade_withdraw id) s ok c free h =
    went-IsDone _ (withdraw-IsDone id s c free)
execute-IsDone players (Defs.trade_negotiate from to id) s ok c free h =
    went-IsDone _ (negotiate-IsDone from to id s c free (h refl))
execute-IsDone players Defs.logout s ok c free h = went-IsDone _ (logout-IsDone s c free)
execute-IsDone players (Defs.join_league id) s ok c free h = went-IsDone _ (join-IsDone id s c free)
execute-IsDone players (Defs.create_league name) s ok c free h =
    went-IsDone _ (create-IsDone players name s c free)
execute-IsDone players (Defs.trade_accept id) s ok c free h = absurd cc
execute-IsDone players (Defs.draft id) s ok c free h = absurd cc
execute-IsDone players (Defs.contact k) s ok c free h = absurd cc
execute-IsDone players Defs.draft_out s ok c free h = absurd cc
execute-IsDone players (Defs.choose name) s ok c free h = absurd cc

safe_answers : (m : Message) → is_safe m ≡ true → answers_once m ≡ true
safe_answers m ok = ground arith

-- On a connection with nobody logged in, or with a user of the game whose name is among the logged
-- ones, and with the mutex free, a request returns: with one answer sent and the mutex free, or
-- with no answer and the mutex held. Left out are accepting a trade, drafting, and the messages
-- that `execute` ignores. When the request is for a trade or negotiates one, the user's name is
-- not empty, and `malloc`, asked for a byte less than the length of the name, gives at least a byte
-- more than it.
pub execute-returns :
    (players : List (List ℕ)) (m : Message) (s : Server)
    → is_safe m ≡ true
    → IsConnected s
    → s.locked ≡ false
    → (makes_offer m ≡ true → HasRoom s)
    → (s' : Server) × (n : Next) × (execute players m s ≡ done (s', n)) × AnsweredOnce s (s', n)
execute-returns players m s ok c free h =
    let ((s', n), e) = done_of (execute players m s) (execute-IsDone players m s ok c free h) in
    let a : Ends (AnsweredOnce s) (execute players m s) =
      execute-Answered players m s (safe_answers m ok) free in
    (s', n, e, rw e at a)
