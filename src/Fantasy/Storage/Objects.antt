-- ===== src/Fantasy/Storage/Objects.antt =====
-- The objects of a game as files: loadUser, loadTrade, loadTeam, the file of loadLeague, loadMatch and
-- loadPlayers, and userToString, leagueToString, tradeToString and teamToString, of
-- TPE1/src/IO/io.c; with reverse and itoa of TPE1/src/server/execute.c.
use so_tpe.Prelude.{
  ℕ, zero, suc, ◌+◌, ◌-◌, ◌*◌, ◌/◌, ◌%◌, ◌^◌, false, Option, none, some, List, [], ◌∷◌, ◌++◌, ◌==◌,
  leb, ltb, length, if◌then◌else◌,
}
use so_tpe.Fantasy.Game.{Player, TradeState, Trade, User, Team, LeagueStatus, League, int_gt}
use so_tpe.Fantasy.Game.Answer.{decimal}
use so_tpe.Fantasy.Storage.{newline, Reads, ◌>>=◌, pure, read_text, read_int}

abbrev pub max_players : ℕ
max_players = 5

abbrev pub state_code : TradeState → ℕ
state_code TradeState.awaiting = 2
state_code TradeState.canceled = 3
state_code TradeState.accepted = 4

-- A number that is no state of a trade is refused here.
unfoldable pub state_of : ℕ → Reads TradeState
state_of n r =
    if n == 2
    then some (TradeState.awaiting, r)
    else if n == 3
    then some (TradeState.canceled, r)
    else if n == 4
    then some (TradeState.accepted, r)
    else none

abbrev pub status_code : LeagueStatus → ℕ
status_code LeagueStatus.inactive = 0
status_code LeagueStatus.drafting = 2
status_code LeagueStatus.active = 3

unfoldable pub status_of : ℕ → Reads LeagueStatus
status_of n r =
    if n == 0
    then some (LeagueStatus.inactive, r)
    else if n == 2
    then some (LeagueStatus.drafting, r)
    else if n == 3
    then some (LeagueStatus.active, r)
    else none

-- A counted loop, of an `int` that is negative none.
abbrev pub rounds : ℕ → ℕ
rounds n = if leb (2 ^ 31) n then 0 else n

unfoldable pub read_ids : ℕ → Reads (List ℕ)
read_ids zero = pure []
read_ids (suc n) = do id ← read_int; ids ← read_ids n; pure (id ∷ ids)

unfoldable pub load_user : Reads User
load_user = do
  user ← read_text
  pass ← read_text
  leagues ← read_int
  ids ← read_ids (rounds leagues)
  pure (record { user = user; pass = pass; leagues = leagues; leagues_ids = ids })

unfoldable pub load_trade : Reads Trade
load_trade = do
  id ← read_int
  code ← read_int
  state ← state_of code
  user_from ← read_text
  user_to ← read_text
  player_from ← read_text
  player_to ← read_text
  pure (record {
    id = id;
    state = state;
    user_from = user_from;
    user_to = user_to;
    player_from = player_from;
    player_to = player_to;
  })

-- The players of a team, a league or a match: a name and its points.
unfoldable pub read_players : ℕ → Reads (List Player)
read_players zero = pure []
read_players (suc n) = do
  name ← read_text
  points ← read_int
  players ← read_players n
  pure (record { name = name; points = points } ∷ players)

-- More players than `MAX_PLAYERS` end the process.
unfoldable pub load_team : Reads Team
load_team = do
  id ← read_int
  owner ← read_text
  points ← read_int
  cant ← read_int
  (if int_gt cant max_players then (λ r. none) else (do
    players ← read_players (rounds cant)
    pure (record {
      id = id;
      owner = owner;
      points = points;
      cant_players = cant;
      players = players;
    })))

-- The file of a league; its teams and trades come from the two folders beside it.
unfoldable pub load_league_file : Reads League
load_league_file = do
  id ← read_int
  name ← read_text
  code ← read_int
  status ← status_of code
  cant ← read_int
  players ← read_players (rounds cant)
  pure (record {
    id = id;
    name = name;
    status = status;
    cant_available_players = cant;
    available_players = players;
    teams = [];
    trades = [];
    cant_draft = 0;
    turn = [];
    answer = false;
  })

unfoldable pub load_match : Reads (List Player)
load_match = do cant ← read_int; read_players (rounds cant)

unfoldable pub read_texts : ℕ → Reads (List (List ℕ))
read_texts zero = pure []
read_texts (suc n) = do name ← read_text; names ← read_texts n; pure (name ∷ names)

unfoldable pub load_players : Reads (List (List ℕ))
load_players = do cant ← read_int; read_texts (rounds cant)

-- What `asprintf` makes of "%s\n…".
abbrev pub line : List ℕ → List ℕ → List ℕ
line text rest = text ++ newline ∷ rest

unfoldable pub trade_to_string : Trade → List ℕ
trade_to_string t = line (decimal t.id) (
    line (decimal (state_code t.state))
      (line t.user_from (line t.user_to (line t.player_from (line t.player_to [])))))

-- "\n%s\n%d" for each player.
unfoldable pub players_text : List Player → List ℕ
players_text [] = []
players_text (p ∷ ps) = newline ∷ line p.name (decimal p.points ++ players_text ps)

-- The players, and a newline if there are any.
unfoldable pub players_tail : List Player → List ℕ
players_tail ps = if length ps == 0 then [] else players_text ps ++ newline ∷ []

unfoldable pub team_to_string : Team → List ℕ
team_to_string t =
    line (decimal t.id)
      (line t.owner (line (decimal t.points) (decimal t.cant_players ++ players_tail t.players)))

unfoldable pub league_to_string : League → List ℕ
league_to_string l = line (decimal l.id) (
    line l.name (
      line (decimal (status_code l.status))
        (decimal l.cant_available_players ++ players_tail l.available_players)))

-- `reverse(s)`: the bytes from the last one to the first.
unfoldable pub reverse : List ℕ → List ℕ
reverse [] = []
reverse (c ∷ s) = reverse s ++ c ∷ []

-- The digits of `n`, the last one first; `fuel` bounds their number.
unfoldable pub digits_back : ℕ → ℕ → List ℕ
digits_back zero n = []
digits_back (suc fuel) n =
    let rest = digits_back fuel (n / 10) in (n % 10 + 48) ∷ (if ltb 0 (n / 10) then rest else [])

unfoldable pub itoa : ℕ → List ℕ
itoa n =
    let minus = leb (2 ^ 31) n in
    let size = if minus then 2 ^ 32 - n else n in
    reverse (digits_back 10 size ++ (if minus then 45 ∷ [] else []))

-- The league ids, a newline behind each but the last.
unfoldable pub ids_text : List ℕ → List ℕ
ids_text [] = []
ids_text (id ∷ []) = itoa id
ids_text (id ∷ id' ∷ ids) = line (itoa id) (ids_text (id' ∷ ids))

-- The bytes that writing the ids takes, a NUL or a newline behind each; ten for each league were
-- allocated.
unfoldable pub ids_size : List ℕ → ℕ
ids_size [] = 0
ids_size (id ∷ ids) = length (itoa id) + 1 + ids_size ids

-- Ids that do not fit into the allocation overflow it.
unfoldable pub user_to_string : User → Option (List ℕ)
user_to_string u =
    let text = line u.user (line u.pass (line (decimal u.leagues) (ids_text u.leagues_ids))) in
    if ltb (10 * u.leagues) (ids_size u.leagues_ids) then none else some text
