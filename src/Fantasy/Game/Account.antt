-- ===== src/Fantasy/Game/Account.antt =====
-- executeRegister, executeLogin and executeLogout of TPE1/src/server/execute.c.
use so_tpe.Prelude.{ℕ, Bool, none, some, List, [], ◌&&◌, get_elem?}
use so_tpe.Fantasy.Reply.{Reply}
use so_tpe.Fantasy.Game.{
  User, Server, Outcome, done, fault, ◌>>=◌, lock, unlock, communicate, set_game, same, find,
  remove_at, add_to_list,
}
use so_tpe.Fantasy.Game.Text
use so_tpe.Fantasy.Game.Text.{codes}
use so_tpe.Fantasy.Game.Answer.{
  ok_status, create_msg, say, print_green_blink, print_cyan_color, release_print_color, in_red,
  with_status, refusal, success,
}

abbrev pub register_type : ℕ
register_type = 1

abbrev pub login_type : ℕ
login_type = 2

abbrev pub logout_type : ℕ
logout_type = 13

abbrev pub new_user : List ℕ → List ℕ → User
new_user user pass = record { user = user; pass = pass; leagues = 0; leagues_ids = [] }

unfoldable pub execute_register : List ℕ → List ℕ → Server → Outcome Server
execute_register user pass s0 = do
  s ← lock s0
  let g = s.game
  let registered : Server =
      set_game (record g { users = add_to_list (new_user user pass) g.users }) s
  elim (find (λ u. same u.user user) g.users) [
    | some _ ↦ done (communicate (refusal register_type Text.user_exists s) (unlock s))
    | none ↦ done (unlock (communicate (success register_type Text.successful_reg s) registered))
  ]

-- The banner of a login.
unfoldable pub welcome_banner : Reply → Reply
welcome_banner r = release_print_color (
    say (codes "\t\tWelcome, you are logged in!") (
      print_cyan_color (
        release_print_color (
          say
            (codes
              "\n ____  __   __ _  ____  __   ____  _  _      ____   __ \n(  __)/ _\\ (  ( \\(_  _)/ _\\ / ___)( \\/ )    / ___) /  \\ \n ) _)/    \\/    /  )( /    \\___ \\  )  /     \\___ \\(  O )\n(__) \\_/\\_/\\_)__) (__)\\_/\\_/(____/(__/      (____/ \\__/")
            (print_green_blink r)))))

abbrev pub matches : List ℕ → List ℕ → User → Bool
matches user pass u = same u.user user && same u.pass pass

-- `*me == NULL`: a name that is logged in already, a match, or neither.
unfoldable pub log_in : List ℕ → List ℕ → Server → Server
log_in user pass s =
    let g = s.game in
    elim (find (λ u. same u user) g.logged_users) [
      | some _ ↦ unlock (communicate (refusal login_type Text.logged s) s)
      | none ↦ elim (find (matches user pass) g.users) [
        | some (i, _) ↦
            let s1 : Server = record s {
              game = record g { logged_users = add_to_list user g.logged_users };
              me = some i;
            } in
            communicate (with_status ok_status (welcome_banner (create_msg login_type s)))
              (unlock s1)
        | none ↦ communicate (refusal login_type Text.incorrect_pass s) (unlock s)
      ]
    ]

-- With someone logged in the status is never written.
unfoldable pub execute_login : List ℕ → List ℕ → Server → Outcome Server
execute_login user pass s0 = do
  s ← lock s0
  done (elim s.me [
    | none ↦ log_in user pass s
    | some _ ↦ communicate (in_red Text.already_logged (create_msg login_type s)) (unlock s)
  ])

-- `Remove(NULL, …)` is a fault.
unfoldable pub log_out : ℕ → Server → Outcome Server
log_out i s = elim (get_elem? s.game.users i) [
  | none ↦ fault
  | some u ↦ elim (find (λ l. same l u.user) s.game.logged_users) [
    | none ↦ fault
    | some (j, _) ↦
        let s1 : Server = record s {
          game = record (s.game) { logged_users = remove_at j s.game.logged_users };
          me = none;
        } in
        done (unlock (communicate (success logout_type Text.logged_out s) s1))
  ]
]

unfoldable pub execute_logout : Server → Outcome Server
execute_logout s = elim s.me [
  | none ↦ done (communicate (refusal logout_type Text.no_logged s) s)
  | some i ↦ lock s >>= log_out i
]
