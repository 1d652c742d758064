-- ===== src/Fantasy/Game/Text.antt =====
-- The texts of TPE1/src/includes/toPrint.h and those written out in TPE1/src/server/execute.c.
use Prim.Native.Char.{code}
use Prim.Native.String.{String}
use so_tpe.Prelude.{ℕ, List, [], ◌∷◌}

-- The bytes of a text.
unfoldable pub codes : String → List ℕ
codes String.[] = []
codes (String.◌∷◌ c s) = code c ∷ codes s

abbrev pub user_exists : List ℕ
user_exists = codes "The user already exists."

abbrev pub successful_reg : List ℕ
successful_reg = codes "Successful registration."

abbrev pub logged : List ℕ
logged = codes "You are already logged."

abbrev pub welcome : List ℕ
welcome = codes "Welcome! You are logged in."

abbrev pub incorrect_pass : List ℕ
incorrect_pass = codes "Incorrect user or password."

abbrev pub already_logged : List ℕ
already_logged = codes "There is already someone logged."

abbrev pub no_league : List ℕ
no_league = codes "There is no league created."

abbrev pub no_teams : List ℕ
no_teams = codes "There are no teams created."

abbrev pub in_league : List ℕ
in_league = codes "In league:"

abbrev pub no_trades : List ℕ
no_trades = codes "You have not created trades yet."

abbrev pub no_logged : List ℕ
no_logged = codes "You have to be logged."

abbrev pub free_players : List ℕ
free_players = codes "Free Players:"

abbrev pub id_string : List ℕ
id_string = codes "ID:"

abbrev pub points_string : List ℕ
points_string = codes "Points:"

abbrev pub incorrect_id : List ℕ
incorrect_id = codes "Incorrect ID"

abbrev pub owner_string : List ℕ
owner_string = codes "Owner:"

abbrev pub players_string : List ℕ
players_string = codes "Players:"

abbrev pub user_f : List ℕ
user_f = codes "User from:"

abbrev pub user_t : List ℕ
user_t = codes "User to:"

abbrev pub player_f : List ℕ
player_f = codes "Player from:"

abbrev pub player_t : List ℕ
player_t = codes "Player to:"

abbrev pub inactive_league : List ℕ
inactive_league = codes "The league is inactive."

abbrev pub no_team_in_league : List ℕ
no_team_in_league = codes "You don't have a team in the same league."

abbrev pub no_player_to : List ℕ
no_player_to = codes "The other team doesn't have that player."

abbrev pub no_player_from : List ℕ
no_player_from = codes "Your team doesn't have that player."

abbrev pub successful_trade : List ℕ
successful_trade = codes "Trade created successfully."

abbrev pub already_drafted : List ℕ
already_drafted = codes "League already drafted."

abbrev pub not_enough_teams : List ℕ
not_enough_teams = codes "There is not enough teams to start the draft."

abbrev pub invalid_command : List ℕ
invalid_command = codes "This command is not supported."

abbrev pub draft_in_successful : List ℕ
draft_in_successful = codes "You entered draft mode successfully."

abbrev pub draft_out_successful : List ℕ
draft_out_successful = codes "Draft out successfully."

abbrev pub cannot_choose : List ℕ
cannot_choose = codes "Is not your turn to choose!."

abbrev pub can_choose : List ℕ
can_choose = codes "Is your turn. Choose a player."

abbrev pub player_choose_successful : List ℕ
player_choose_successful = codes "Your player was successfully chosen."

abbrev pub is_your_turn : List ℕ
is_your_turn = codes "Is your turn to choose!."

abbrev pub draft_starting : List ℕ
draft_starting = codes "Draft is starting."

abbrev pub draft_ended : List ℕ
draft_ended = codes "Draft has ended."

abbrev pub logged_out : List ℕ
logged_out = codes "Logged out."

abbrev pub is_not_your_trade : List ℕ
is_not_your_trade = codes "Is not your trade"

abbrev pub ended_trade : List ℕ
ended_trade = codes "You cannot cancel this trade, it has already been answered."

abbrev pub trade_canceled : List ℕ
trade_canceled = codes "Trade canceled."

abbrev pub trade_awaiting : List ℕ
trade_awaiting = codes "Trade awaiting response."

abbrev pub trade_accepted : List ℕ
trade_accepted = codes "Trade accepted."

abbrev pub status_string : List ℕ
status_string = codes "Status:"

abbrev pub unavailable_player_f : List ℕ
unavailable_player_f = codes "The other team doesn't have the player anymore."

abbrev pub unavailable_player_t : List ℕ
unavailable_player_t = codes "Your team doesn't have the player anymore."

abbrev pub already_active : List ℕ
already_active = codes "You can't join this league, is already active."

abbrev pub league_full : List ℕ
league_full = codes "The league is full."

abbrev pub already_belong_to_league : List ℕ
already_belong_to_league = codes "You already belong to that league."

abbrev pub successful_join : List ℕ
successful_join = codes "You have successfully joined the league."

abbrev pub successful_creation : List ℕ
successful_creation = codes "You have successfully created the league."

abbrev pub player_unavailable : List ℕ
player_unavailable = codes "The player you've chosen is unavailable."

abbrev pub locked_command : List ℕ
locked_command = codes "You can't perform that action right now!."
