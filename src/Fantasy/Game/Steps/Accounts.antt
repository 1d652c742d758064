-- ===== src/Fantasy/Game/Steps/Accounts.antt =====
-- The handlers of accounts and leagues, as steps.
use so_tpe.Prelude.{
  ℕ, ◌+◌, ◌≡◌, refl, inl, inr, true, some, List, ◌==◌, Bool-cases, Option-cases, length, get_elem?,
}
use so_tpe.Fantasy.Game.{
  User, League, cant_teams_max, Server, unlock, communicate, same, find, int_gt,
}
use so_tpe.Fantasy.Game.Names.{find-get_elem?}
use so_tpe.Fantasy.Game.Account.{
  execute_register, execute_login, log_in, execute_logout, log_out, matches,
}
use so_tpe.Fantasy.Game.Leagues.{
  execute_join_league, join_locked, join_found, execute_create_league, is_active,
}
use so_tpe.Fantasy.Game.Steps.{Step, here}
use so_tpe.Fantasy.Game.Steps.Ends.{Ends, Goes, Serves, Serves-lock, one}

pub register-Steps :
    (user pass : List ℕ) (s : Server) → Ends (Serves s) (execute_register user pass s)
unfolding execute_register unlock communicate
register-Steps user pass s =
    Serves-lock s _ (elim (Option-cases (find (λ u. same u.user user) s.game.users)) [
      | inl e ↦ rw e (one (Step.register s.game user pass e), inl (_, refl, refl))
      | inr (_, e) ↦ rw e (here s.game, inl (_, refl, refl))
    ])

log_in-Steps : (user pass : List ℕ) (s : Server) → Goes s (log_in user pass s)
unfolding log_in unlock communicate
log_in-Steps user pass s = elim (Option-cases (find (λ u. same u user) s.game.logged_users)) [
  | inr (_, e) ↦ rw (e, log_in) (here s.game, inl (_, refl, refl))
  | inl e ↦
      rw (e, log_in)
        (elim (Option-cases (find (matches user pass) s.game.users)) [
          | inl f ↦ rw f (here s.game, inl (_, refl, refl))
          | inr (_, f) ↦ rw f (one (Step.log_in s.game user e), inl (_, refl, refl))
        ])
]

pub login-Steps : (user pass : List ℕ) (s : Server) → Ends (Serves s) (execute_login user pass s)
unfolding execute_login unlock communicate
login-Steps user pass s = Serves-lock s _ (elim (Option-cases s.me) [
  | inl e ↦ rw e (log_in-Steps user pass (record s { locked = true }))
  | inr (_, e) ↦ rw e (here s.game, inl (_, refl, refl))
])

log_out-Steps : (i : ℕ) (s : Server) → Ends (Goes s) (log_out i s)
unfolding log_out unlock communicate
log_out-Steps i s = elim (Option-cases (get_elem? s.game.users i)) [
  | inl e ↦ rw (e, log_out) tt
  | inr (u, e) ↦
      rw (e, log_out)
        (elim (Option-cases (find (λ l. same l u.user) s.game.logged_users)) [
          | inl f ↦ rw f tt
          | inr ((j, _), f) ↦ rw f (one (Step.log_out s.game j), inl (_, refl, refl))
        ])
]

pub logout-Steps : (s : Server) → Ends (Serves s) (execute_logout s)
unfolding execute_logout unlock communicate
logout-Steps s = elim (Option-cases s.me) [
  | inl e ↦ simp (e, execute_logout) (here s.game, λ free. inl (_, refl, free))
  | inr (i, e) ↦
      simp (e, execute_logout)
        (Serves-lock s (log_out i) (log_out-Steps i (record s { locked = true })))
]

join_found-Steps :
    (input i : ℕ) (u : User) (j : ℕ) (l : League) (s : Server)
    → get_elem? s.game.leagues j ≡ some l
    → Ends (Goes s) (join_found input i u j l s)
unfolding join_found unlock communicate
join_found-Steps input i u j l s is = elim (Bool-cases (is_active l.status)) [
  | inl a ↦ rw a (here s.game, inl (_, refl, refl))
  | inr a ↦ rw a (elim (Bool-cases (length l.teams == cant_teams_max)) [
    | inl full ↦ rw full (here s.game, inl (_, refl, refl))
    | inr room ↦ rw room (elim (Option-cases (find (λ t. same t.owner u.user) l.teams)) [
      | inr (_, e) ↦ rw e (here s.game, inl (_, refl, refl))
      | inl e ↦ rw e (one (Step.join_league s.game j i u input l is room e), inl (_, refl, refl))
    ])
  ])
]

join_locked-Steps :
    (input i : ℕ) (u : User) (s : Server)
    → s.locked ≡ true
    → Ends (Goes s) (join_locked input i u s)
unfolding join_locked unlock communicate
join_locked-Steps input i u s held = elim (Bool-cases (int_gt input (length s.game.leagues))) [
  | inl large ↦ rw large (here s.game, inl (_, refl, refl))
  | inr small ↦ rw small (elim (Option-cases (find (λ l. l.id == input) s.game.leagues)) [
    | inl e ↦ rw e (here s.game, inr (refl, held))
    | inr ((j, l), e) ↦
        rw e (
          join_found-Steps input i u j l s (find-get_elem? (λ l. l.id == input) s.game.leagues e).0)
  ])
]

pub join_league-Steps : (input : ℕ) (s : Server) → Ends (Serves s) (execute_join_league input s)
unfolding execute_join_league communicate
join_league-Steps input s = elim (Option-cases s.me) [
  | inl e ↦ simp (e, execute_join_league) (here s.game, λ free. inl (_, refl, free))
  | inr (i, e) ↦ elim (Option-cases (get_elem? s.game.users i)) [
    | inl f ↦ simp (e, f, execute_join_league) tt
    | inr (u, f) ↦
        simp (e, f, execute_join_league)
          (Serves-lock s (join_locked input i u)
            (join_locked-Steps input i u (record s { locked = true }) refl))
  ]
]

pub create_league-Steps :
    (players : List (List ℕ)) (name : List ℕ) (s : Server)
    → Ends (Serves s) (execute_create_league players name s)
unfolding execute_create_league unlock communicate
create_league-Steps players name s = elim (Option-cases s.me) [
  | inl e ↦ simp (e, execute_create_league) (here s.game, λ free. inl (_, refl, free))
  | inr (i, e) ↦
      simp (e, execute_create_league)
        (Serves-lock s _ (
          one (Step.create_league s.game (length s.game.leagues + 1) name players),
          inl (_, refl, refl),
        ))
]
