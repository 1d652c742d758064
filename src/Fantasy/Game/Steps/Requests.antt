-- ===== src/Fantasy/Game/Steps/Requests.antt =====
-- The handlers that negotiate and draft, and `execute`, as steps.
use so_tpe.Prelude.{
  ℕ, ◌+◌, ◌%◌, ◌^◌, ◌≡◌, refl, inl, inr, true, false, some, List, [], ◌∷◌, ◌==◌, ltb, length,
  Bool-cases, Option-cases, get_elem?,
}
use so_tpe.Fantasy.Game.{
  User, Team, League, LeagueStatus, Game, stop, Server, unlock, communicate, set_game, find, modify,
  int_gt, cant_teams_max,
}
use so_tpe.Fantasy.Game.Leagues.{is_active}
use so_tpe.Fantasy.Game.Trades.{is_inactive, is_some}
use so_tpe.Fantasy.Game.Trades.Negotiate.{
  Verdict, negotiate_leagues, negotiate_locked, execute_trade_negotiate,
}
use so_tpe.Fantasy.Game.Trades.Negotiate
use so_tpe.Fantasy.Game.Drafts.{
  Next, set_league, enter_draft, draft_found, draft_locked, execute_draft,
}
use so_tpe.Fantasy.Game.Steps.{Step, Steps, here, next}
use so_tpe.Fantasy.Game.Steps.Ends.{
  Ends, Ends-lock, Ends-map, Steps-trans, Goes, Serves, Serves-lock, one,
}
use so_tpe.Fantasy.Game.Steps.Offers.{trade-Steps}
use so_tpe.Fantasy.Game.Steps.Searches.{Search-cases, From-all}
use so_tpe.Fantasy.Game.Steps.Cancels.{come, negotiate_leagues-Comes}

negotiate_verdict-Steps :
    (from to : List ℕ) (input : ℕ) (u : User) (g : Game) (v : Verdict) (s : Server)
    → int_gt input s.game.cant_trades ≡ false
    → negotiate_leagues input u 0 s.game.leagues s.game ≡ stop (g, v)
    → Steps s.game g
    → Ends (Goes s) (negotiate_locked from to input u s)
unfolding negotiate_locked unlock communicate
negotiate_verdict-Steps from to input u g (Negotiate.refused text) s small e r =
    rw (small, e, negotiate_locked) (r, inl (_, refl, refl))
negotiate_verdict-Steps from to input u g (Negotiate.renewed team_id) s small e r =
    let s' : Server = unlock (set_game g s) in
    rw (small, e, negotiate_locked)
      (Ends-map (Serves s') (Goes s) _ (λ a (t, w). (Steps-trans r t, w refl))
        (trade-Steps from to team_id s'))

negotiate_locked-Steps :
    (from to : List ℕ) (input : ℕ) (u : User) (s : Server)
    → s.locked ≡ true
    → Ends (Goes s) (negotiate_locked from to input u s)
unfolding negotiate_locked unlock communicate
negotiate_locked-Steps from to input u s held =
    let all =
      negotiate_leagues-Comes s.game input u 0 s.game.leagues s.game (here s.game)
        (From-all s.game.leagues) in
    elim (Bool-cases (int_gt input s.game.cant_trades)) [
      | inl large ↦ rw large (here s.game, inl (_, refl, refl))
      | inr small ↦ elim (Search-cases (negotiate_leagues input u 0 s.game.leagues s.game)) [
        | inl (g, e) ↦
            rw (small, e, negotiate_locked) ((come s.game (λ h. Unit) e all).0, inr (refl, held))
        | inr ((g, v), e) ↦
            negotiate_verdict-Steps from to input u g v s small e (come s.game (λ h. Unit) e all)
      ]
    ]

pub negotiate-Steps :
    (from to : List ℕ) (input : ℕ) (s : Server)
    → Ends (Serves s) (execute_trade_negotiate from to input s)
unfolding execute_trade_negotiate communicate
negotiate-Steps from to input s = elim (Option-cases s.me) [
  | inl e ↦ simp (e, execute_trade_negotiate) (here s.game, λ free. inl (_, refl, free))
  | inr (i, e) ↦ elim (Option-cases (get_elem? s.game.users i)) [
    | inl f ↦ simp (e, f, execute_trade_negotiate) tt
    | inr (u, f) ↦
        simp (e, f, execute_trade_negotiate)
          (Serves-lock s (negotiate_locked from to input u)
            (negotiate_locked-Steps from to input u (record s { locked = true }) refl))
  ]
]

-- The same for a handler that may go on to a draft.
abbrev pub GoesOn : Game → Server × Next → Type 0
GoesOn g (s, n) = Steps g s.game

abbrev one_more : League → League
one_more l = record l { cant_draft = (l.cant_draft + 1) % 2 ^ 32 }

abbrev begin : List ℕ → League → League
begin owner l = record l { status = LeagueStatus.drafting; turn = owner }

abbrev change_league : ℕ → (League → League) → Game → Game
change_league j f g = record g { leagues = modify j f g.leagues }

one_more-Steps : (g : Game) (j : ℕ) → Steps g (change_league j one_more g)
one_more-Steps g j =
    one (Step.draft g j one_more (record { teams = λ l. refl; trades = λ l. refl }))

begin-Steps :
    (g : Game) (j : ℕ) (owner : List ℕ)
    → Steps g (change_league j (begin owner) (change_league j one_more g))
begin-Steps g j owner = next (one_more-Steps g j) (
    Step.draft (change_league j one_more g) j (begin owner)
      (record { teams = λ l. refl; trades = λ l. refl }))

enter_draft-Steps :
    (j : ℕ) (l : League) (teams : List Team) (s : Server)
    → l.teams ≡ teams
    → Ends (GoesOn s.game) (enter_draft j l s)
unfolding enter_draft set_league unlock communicate
enter_draft-Steps j l [] s e = elim (Bool-cases ((l.cant_draft + 1) % 2 ^ 32 == cant_teams_max)) [
  | inl f ↦ simp (f, e) tt
  | inr f ↦ simp f (one_more-Steps s.game j)
]
enter_draft-Steps j l (t ∷ ts) s e =
    elim (Bool-cases ((l.cant_draft + 1) % 2 ^ 32 == cant_teams_max)) [
      | inl f ↦ simp (f, e) (begin-Steps s.game j t.owner)
      | inr f ↦ simp f (one_more-Steps s.game j)
    ]

draft_found-Steps :
    (u : User) (j : ℕ) (l : League) (s : Server) → Ends (GoesOn s.game) (draft_found u j l s)
unfolding draft_found unlock communicate
draft_found-Steps u j l s = elim (Bool-cases (is_some (find (λ id. id == l.id) u.leagues_ids))) [
  | inr a ↦ rw a (here s.game)
  | inl a ↦ rw a (elim (Bool-cases (is_active l.status)) [
    | inl b ↦ rw b (here s.game)
    | inr b ↦ rw b (elim (Bool-cases (ltb (length l.teams) cant_teams_max)) [
      | inl c ↦ rw c (here s.game)
      | inr c ↦ rw c (elim (Bool-cases (is_inactive l.status)) [
        | inr d ↦ rw d (here s.game)
        | inl d ↦ rw d (enter_draft-Steps j l l.teams s refl)
      ])
    ])
  ])
]

draft_user-Steps :
    (input : ℕ) (s : Server) (u : User) (i : ℕ)
    → s.me ≡ some i
    → get_elem? s.game.users i ≡ some u
    → Ends (GoesOn s.game) (draft_locked input s)
unfolding draft_locked unlock communicate
draft_user-Steps input s u i e f = elim (Bool-cases (int_gt input (length s.game.leagues))) [
  | inl large ↦ simp (e, f, large, draft_locked) (here s.game)
  | inr small ↦ elim (Option-cases (find (λ l. l.id == input) s.game.leagues)) [
    | inl n ↦ simp (e, f, small, n, draft_locked) (here s.game)
    | inr ((j, l), n) ↦ simp (e, f, small, n, draft_locked) (draft_found-Steps u j l s)
  ]
]

draft_locked-Steps : (input : ℕ) (s : Server) → Ends (GoesOn s.game) (draft_locked input s)
unfolding draft_locked unlock communicate
draft_locked-Steps input s = elim (Option-cases s.me) [
  | inl e ↦ simp (e, draft_locked) (here s.game)
  | inr (i, e) ↦ elim (Option-cases (get_elem? s.game.users i)) [
    | inl f ↦ simp (e, f, draft_locked) tt
    | inr (u, f) ↦ draft_user-Steps input s u i e f
  ]
]

pub draft-Steps : (input : ℕ) (s : Server) → Ends (GoesOn s.game) (execute_draft input s)
unfolding execute_draft
draft-Steps input s =
    Ends-lock (GoesOn s.game) s (draft_locked input)
      (draft_locked-Steps input (record s { locked = true }))
