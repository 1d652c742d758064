-- ===== src/Fantasy/Game/Drafts.antt =====
-- The draft, of TPE1/src/server/execute.c: executeDraft, makeDraft, coordinator_thread, changeTurn,
-- autoAsign and checkStatus.
--
-- A connection waits for messages inside executeDraft and makeDraft; each round of these loops is a
-- function of the message that it gets, `none` when there is none. Between two rounds the other
-- threads run, which is left to whoever composes the rounds.
pub mod Coordinator
pub mod Pool
pub mod Turn
use so_tpe.Prelude.{
  ℕ, ◌+◌, ◌-◌, ◌%◌, ◌^◌, Bool, true, false, Option, none, some, List, [], ◌∷◌, length, get_elem?,
  not, ◌&&◌, ◌||◌, ◌==◌, ltb, if◌then◌else◌,
}
use so_tpe.Fantasy.Reply.{Reply}
use so_tpe.Fantasy.Message.Defs
use so_tpe.Fantasy.Message.Defs.{Message, type_of}
use so_tpe.Fantasy.Game.{
  Player, User, Team, LeagueStatus, League, Game, cant_teams_max, Server, Outcome, done, blocked,
  fault, ◌>>=◌, lock, unlock, communicate, set_game, int_gt, same, find, remove_at, add_to_list,
  modify,
}
use so_tpe.Fantasy.Game.Text
use so_tpe.Fantasy.Game.Answer.{
  ok_status, error_status, create_msg, say, in_red, in_green, with_status, refusal, success,
}
use so_tpe.Fantasy.Game.Leagues.{is_active}
use so_tpe.Fantasy.Game.Trades.{is_some, is_inactive, find_player}
use so_tpe.Fantasy.Game.Account.{execute_logout}

abbrev pub draft_type : ℕ
draft_type = 16

abbrev pub draft_out_type : ℕ
draft_out_type = 17

abbrev pub choose_type : ℕ
choose_type = 18

abbrev pub draft_turn_type : ℕ
draft_turn_type = 19

abbrev pub draft_start_type : ℕ
draft_start_type = 20

abbrev pub draft_end_type : ℕ
draft_end_type = 21

abbrev pub is_drafting : LeagueStatus → Bool
is_drafting LeagueStatus.drafting = true
is_drafting _ = false

-- Where a handler of the draft goes next, for the league at a position: it returns, waits for the
-- other teams, or drafts; `coordinated` says that it made the coordinator's thread first.
pub data Next : Type 0 where
  returned : Next
  waiting : ℕ → Next
  drafted : (coordinated : Bool) → ℕ → Next

unfoldable pub set_league : ℕ → (League → League) → Server → Server
set_league j f s = set_game (record (s.game) { leagues = modify j f s.game.leagues }) s

abbrev pub plain : ℕ → ℕ → List ℕ → Server → Reply
plain type status text s = with_status status (say text (create_msg type s))

abbrev pub leave : List ℕ → Server → Outcome (Server × Next)
leave text s = done (communicate (refusal draft_type text s) (unlock s), returned)

-- One more team is ready. The last one starts the draft, with the first team's owner.
unfoldable pub enter_draft : ℕ → League → Server → Outcome (Server × Next)
enter_draft j l s =
    let s1 = set_league j (λ l. record l { cant_draft = (l.cant_draft + 1) % 2 ^ 32 }) s in
    let s2 = communicate (success draft_type Text.draft_in_successful s) s1 in
    let start = λ (t : Team). unlock (
      set_league j (λ l. record l { status = LeagueStatus.drafting; turn = t.owner })
        (communicate (plain draft_start_type ok_status Text.draft_starting s2) s2)) in
    if (l.cant_draft + 1) % 2 ^ 32 == cant_teams_max
    then elim l.teams [ [] ↦ fault | t ∷ _ ↦ done (start t, drafted true j) ]
    else done (s2, waiting j)

unfoldable pub draft_found : User → ℕ → League → Server → Outcome (Server × Next)
draft_found u j l s =
    if not (is_some (find (λ id. id == l.id) u.leagues_ids))
    then leave Text.no_team_in_league s
    else if is_active l.status
    then leave Text.already_drafted s
    else if ltb (length l.teams) cant_teams_max
    then leave Text.not_enough_teams s
    else if is_inactive l.status
    then enter_draft j l s
    else done (unlock s, drafted false j)

-- With no league of that number it returns in the locked section, without an answer.
unfoldable pub draft_locked : ℕ → Server → Outcome (Server × Next)
draft_locked input s = elim s.me [
  | none ↦ leave Text.no_logged s
  | some i ↦ elim (get_elem? s.game.users i) [
    | none ↦ fault
    | some u ↦
        if int_gt input (length s.game.leagues)
        then leave Text.incorrect_id s
        else elim (find (λ l. l.id == input) s.game.leagues) [
          | none ↦ done (s, returned)
          | some (j, l) ↦ draft_found u j l s
        ]
  ]
]

unfoldable pub execute_draft : ℕ → Server → Outcome (Server × Next)
execute_draft input s = lock s >>= draft_locked input

abbrev pub leaves_draft : Message → Bool
leaves_draft Defs.draft_out = true
leaves_draft Defs.logout = true
leaves_draft _ = false

-- `cantDraft--`, and the answer.
unfoldable pub step_out : ℕ → ℕ → Server → Outcome (Server × Next)
step_out type j s0 = do
  s ← lock s0
  let s1 =
      unlock (set_league j (λ l. record l { cant_draft = (l.cant_draft + 2 ^ 32 - 1) % 2 ^ 32 }) s)
  done (communicate (success type Text.draft_out_successful s1) s1, returned)

-- A round of the loop that waits for the other teams, inside the locked section, which the loop
-- takes again at the end of a round. After it, the draft starts with that section still locked.
unfoldable pub wait_round : Option Message → ℕ → Server → Outcome (Server × Next)
wait_round incoming j s = elim (get_elem? s.game.leagues j) [
  | none ↦ fault
  | some l ↦
      let again : Server → Outcome (Server × Next) =
        λ s'. lock s' >>= λ s''. done (s'', waiting j) in
      let s1 = unlock s in
      if ltb l.cant_draft cant_teams_max
      then elim incoming [
        | none ↦ again s1
        | some m ↦
            if leaves_draft m
            then step_out (type_of m) j s1
            else again (communicate (refusal (type_of m) Text.invalid_command s1) s1)
      ]
      else done
          (communicate (plain draft_start_type ok_status Text.draft_starting s) s, drafted false j)
]

-- `makeDraft` begins by locking.
unfoldable pub make_draft : Server → Outcome Server
make_draft s = lock s

-- The player at `p` goes from the available ones to the team at `k`.
unfoldable pub assign : ℕ → Player → ℕ → League → League
assign p player k l = record l {
  available_players = remove_at p l.available_players;
  cant_available_players = (l.cant_available_players + 2 ^ 32 - 1) % 2 ^ 32;
  teams =
      modify k
        (λ t. record t {
          players = add_to_list player t.players;
          cant_players = (t.cant_players + 1) % 2 ^ 32;
        })
        l.teams;
}

-- CHOOSE, inside the locked section, which it leaves locked. The Boolean is `turnFlag`.
unfoldable pub choose_player : List ℕ → Bool → User → ℕ → League → Server → Outcome (Server × Bool)
choose_player name turn_flag u j l s =
    if not (same l.turn u.user)
    then done (communicate (refusal choose_type Text.cannot_choose s) s, turn_flag)
    else elim (find_player name l.available_players) [
      | none ↦ done (communicate (refusal choose_type Text.player_unavailable s) s, turn_flag)
      | some (p, player) ↦ elim (find (λ t. same t.owner u.user) l.teams) [
        | none ↦ fault
        | some (k, _) ↦
            let s1 = set_league j (λ l. record (assign p player k l) { answer = true }) s in
            done
              (communicate (plain choose_type ok_status Text.player_choose_successful s) s1, false)
      ]
    ]

-- Another message: the first of the pair says whether `makeDraft` goes on. The status of the answer
-- to DRAFT_OUT is never written.
unfoldable pub draft_message : Message → Bool → User → ℕ → Server → Outcome (Bool × Server × Bool)
draft_message Defs.draft_out turn_flag u j s = done (
  false,
  communicate (in_green Text.draft_out_successful (create_msg draft_out_type s)) s,
  turn_flag,
)
draft_message Defs.logout turn_flag u j s = execute_logout s >>= λ s'. done (false, s', turn_flag)
draft_message (Defs.choose name) turn_flag u j s0 = do
  s ← lock s0
  elim (get_elem? s.game.leagues j) [
    | none ↦ fault
    | some l ↦ choose_player name turn_flag u j l s >>= λ (s', flag). done (true, s', flag)
  ]
draft_message _ turn_flag u j s =
    done (true, communicate (plain draft_type error_status Text.locked_command s) s, turn_flag)

-- A round of the loop of `makeDraft`: the test, the note that it is the user's turn, `unlock`, and
-- the message. The first of the pair says whether the loop goes on.
unfoldable pub draft_round :
    Option Message → Bool → User → ℕ → Server → Outcome (Bool × Server × Bool)
draft_round incoming turn_flag u j s = elim (get_elem? s.game.leagues j) [
  | none ↦ fault
  | some l ↦
      let noted = not turn_flag && same l.turn u.user in
      let s1 =
        if noted then communicate (plain draft_turn_type ok_status Text.is_your_turn s) s else s in
      let s2 = unlock s1 in
      let ended = communicate (plain draft_end_type ok_status Text.draft_ended s) s in
      if is_drafting l.status
      then elim incoming [
        | none ↦ done (true, s2, turn_flag || noted)
        | some m ↦ draft_message m (turn_flag || noted) u j s2
      ]
      else done (false, ended, turn_flag)
]
