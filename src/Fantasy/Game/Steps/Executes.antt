-- ===== src/Fantasy/Game/Steps/Executes.antt =====
-- The handlers that only read, and `execute`, as steps.
use so_tpe.Prelude.{Bool, ℕ, ◌≡◌, sym, true, false, List}
use so_tpe.Fantasy.Message.Defs
use so_tpe.Fantasy.Message.Defs.{Message}
use so_tpe.Fantasy.Game.{Server, Outcome}
use so_tpe.Fantasy.Game.Drafts.{Next}
use so_tpe.Fantasy.Game.Execute.{execute, finish}
use so_tpe.Fantasy.Game.Steps.{Steps, here, IsValid, Steps-IsValid}
use so_tpe.Fantasy.Game.Steps.Ends.{Ends, Ends-bind, Serves, Answered}
use so_tpe.Fantasy.Game.Steps.Accounts.{
  register-Steps, login-Steps, logout-Steps, join_league-Steps, create_league-Steps,
}
use so_tpe.Fantasy.Game.Steps.Reads.{
  Reads, list_leagues-Reads, list_teams-Reads, lists_trades-Reads, league_show-Reads,
  team_show-Reads, trade_show-Reads,
}
use so_tpe.Fantasy.Game.Steps.Offers.{trade-Steps, withdraw-Steps}
use so_tpe.Fantasy.Game.Steps.Exchanges.{accept-Steps}
use so_tpe.Fantasy.Game.Steps.Requests.{GoesOn, negotiate-Steps, draft-Steps}

went : (s : Server) (o : Outcome Server) → Ends (Serves s) o → Ends (GoesOn s.game) (finish o)
went s o r = Ends-bind (GoesOn s.game) (Serves s) o _ r (λ b q. q.0)

kept : (s : Server) (o : Outcome Server) → Ends (Reads s) o → Ends (GoesOn s.game) (finish o)
kept s o k = Ends-bind (GoesOn s.game) (Reads s) o _ k (λ b q. rw (sym q.0) (here b.game))

-- A request that returns has changed the game in steps.
pub execute-Steps :
    (players : List (List ℕ)) (m : Message) (s : Server)
    → Ends (GoesOn s.game) (execute players m s)
unfolding execute
execute-Steps players (Defs.register user pass) s = went s _ (register-Steps user pass s)
execute-Steps players (Defs.login user pass) s = went s _ (login-Steps user pass s)
execute-Steps players Defs.list_leagues s = kept s _ (list_leagues-Reads s)
execute-Steps players Defs.list_teams s = kept s _ (list_teams-Reads s)
execute-Steps players Defs.list_trades s = kept s _ (lists_trades-Reads s)
execute-Steps players (Defs.league_show id) s = kept s _ (league_show-Reads id s)
execute-Steps players (Defs.team_show id) s = kept s _ (team_show-Reads id s)
execute-Steps players (Defs.trade_show id) s = kept s _ (trade_show-Reads id s)
execute-Steps players (Defs.trade from to team_id) s = went s _ (trade-Steps from to team_id s)
execute-Steps players (Defs.trade_withdraw id) s = went s _ (withdraw-Steps id s)
execute-Steps players (Defs.trade_accept id) s = went s _ (accept-Steps id s)
execute-Steps players (Defs.trade_negotiate from to id) s = went s _ (negotiate-Steps from to id s)
execute-Steps players Defs.logout s = went s _ (logout-Steps s)
execute-Steps players (Defs.join_league id) s = went s _ (join_league-Steps id s)
execute-Steps players (Defs.create_league name) s = went s _ (create_league-Steps players name s)
execute-Steps players (Defs.draft id) s = draft-Steps id s
execute-Steps players (Defs.contact c) s = here s.game
execute-Steps players Defs.draft_out s = here s.game
execute-Steps players (Defs.choose name) s = here s.game

-- Over a game in which no name is registered twice or logged in twice, and every league has at
-- most three teams, of different owners, each request that returns leaves such a game.
pub execute-IsValid :
    (players : List (List ℕ)) (m : Message) (s s' : Server) (n : Next)
    → IsValid s.game
    → execute players m s ≡ Outcome.done (s', n)
    → IsValid s'.game
execute-IsValid players m s s' n v e =
    let r : Steps s.game s'.game = rw e at (execute-Steps players m s) in Steps-IsValid r v

-- The requests that only their answer can follow: not a draft, and not those that `execute` ignores.
abbrev pub answers_once : Message → Bool
answers_once (Defs.draft id) = false
answers_once (Defs.contact c) = false
answers_once Defs.draft_out = false
answers_once (Defs.choose name) = false
answers_once _ = true

-- What `execute` leaves of such a request.
abbrev pub AnsweredOnce : Server → Server × Next → Type 0
AnsweredOnce s (s', n) = Answered s.sent s'

served :
    (s : Server) (o : Outcome Server)
    → s.locked ≡ false
    → Ends (Serves s) o
    → Ends (AnsweredOnce s) (finish o)
served s o free r = Ends-bind (AnsweredOnce s) (Serves s) o _ r (λ b q. q.1 free)

read :
    (s : Server) (o : Outcome Server)
    → s.locked ≡ false
    → Ends (Reads s) o
    → Ends (AnsweredOnce s) (finish o)
read s o free r = Ends-bind (AnsweredOnce s) (Reads s) o _ r (λ b q. q.1 free)

-- A request that returns was answered once and left the mutex free, or was not answered and left
-- the mutex held.
pub execute-Answered :
    (players : List (List ℕ)) (m : Message) (s : Server)
    → answers_once m ≡ true
    → s.locked ≡ false
    → Ends (AnsweredOnce s) (execute players m s)
unfolding execute
execute-Answered players (Defs.register user pass) s o free =
    served s _ free (register-Steps user pass s)
execute-Answered players (Defs.login user pass) s o free = served s _ free (login-Steps user pass s)
execute-Answered players Defs.list_leagues s o free = read s _ free (list_leagues-Reads s)
execute-Answered players Defs.list_teams s o free = read s _ free (list_teams-Reads s)
execute-Answered players Defs.list_trades s o free = read s _ free (lists_trades-Reads s)
execute-Answered players (Defs.league_show id) s o free = read s _ free (league_show-Reads id s)
execute-Answered players (Defs.team_show id) s o free = read s _ free (team_show-Reads id s)
execute-Answered players (Defs.trade_show id) s o free = read s _ free (trade_show-Reads id s)
execute-Answered players (Defs.trade from to team_id) s o free =
    served s _ free (trade-Steps from to team_id s)
execute-Answered players (Defs.trade_withdraw id) s o free = served s _ free (withdraw-Steps id s)
execute-Answered players (Defs.trade_accept id) s o free = served s _ free (accept-Steps id s)
execute-Answered players (Defs.trade_negotiate from to id) s o free =
    served s _ free (negotiate-Steps from to id s)
execute-Answered players Defs.logout s o free = served s _ free (logout-Steps s)
execute-Answered players (Defs.join_league id) s o free = served s _ free (join_league-Steps id s)
execute-Answered players (Defs.create_league name) s o free =
    served s _ free (create_league-Steps players name s)
execute-Answered players (Defs.draft id) s o free = absurd cc
execute-Answered players (Defs.contact c) s o free = absurd cc
execute-Answered players Defs.draft_out s o free = absurd cc
execute-Answered players (Defs.choose name) s o free = absurd cc
