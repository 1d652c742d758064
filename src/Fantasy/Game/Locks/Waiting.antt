-- ===== src/Fantasy/Game/Locks/Waiting.antt =====
-- A client of TPE1/src/server/execute.c that waits in executeDraft for the other teams.
use so_tpe.Prelude.{
  ℕ, ◌+◌, ◌%◌, ◌^◌, ◌==◌, ◌≡◌, refl, inl, inr, Bool-cases, Option-cases, true, false, Option, some,
  List, [], ◌∷◌, get_elem?, ltb, length,
}
use so_tpe.Fantasy.Message.Defs.{Message}
use so_tpe.Fantasy.Game.{
  User, Team, League, Game, Server, Outcome, done, blocked, lock, unlock, communicate, set_game,
  find, int_gt, cant_teams_max,
}
use so_tpe.Fantasy.Game.Text
use so_tpe.Fantasy.Game.Answer.{ok_status}
use so_tpe.Fantasy.Game.Leagues.{is_active}
use so_tpe.Fantasy.Game.Trades.{is_inactive, is_some}
use so_tpe.Fantasy.Game.Drafts.{
  Next, returned, waiting, drafted, set_league, enter_draft, draft_found, draft_locked,
  execute_draft, draft_start_type, plain, leaves_draft, step_out, wait_round, make_draft,
}
use so_tpe.Fantasy.Game.Steps.Ends.{Ends, Ends-lock}

-- A client waits in the loop for the league at `j`: executeDraft went into it, or the loop went
-- round, and other threads may have left any game before that.
pub data Waits (j : ℕ) : Server → Type 0 where
  enters :
      (input : ℕ) (s : Server) {s' : Server}
      → execute_draft input s ≡ done (s', waiting j)
      → Waits j s'
  again :
      (incoming : Option Message) (g : Game) {s s' : Server}
      → Waits j s
      → wait_round incoming j (set_game g s) ≡ done (s', waiting j)
      → Waits j s'

-- A client that goes on waiting holds the mutex.
abbrev Holding : Server × Next → Type 0
Holding (s, waiting j) = s.locked ≡ true
Holding (s, returned) = Unit
Holding (s, drafted c j) = Unit

enter_draft-Holding :
    (j : ℕ) (l : League) (teams : List Team) (s : Server)
    → l.teams ≡ teams
    → s.locked ≡ true
    → Ends Holding (enter_draft j l s)
unfolding enter_draft set_league communicate
enter_draft-Holding j l [] s e h =
    elim (Bool-cases ((l.cant_draft + 1) % 2 ^ 32 == cant_teams_max)) [
      | inl f ↦ simp (f, e) tt
      | inr f ↦ simp f h
    ]
enter_draft-Holding j l (t ∷ ts) s e h =
    elim (Bool-cases ((l.cant_draft + 1) % 2 ^ 32 == cant_teams_max)) [
      | inl f ↦ simp (f, e) tt
      | inr f ↦ simp f h
    ]

draft_found-Holding :
    (u : User) (j : ℕ) (l : League) (s : Server)
    → s.locked ≡ true
    → Ends Holding (draft_found u j l s)
unfolding draft_found
draft_found-Holding u j l s h =
    elim (Bool-cases (is_some (find (λ id. id == l.id) u.leagues_ids))) [
      | inr a ↦ rw a tt
      | inl a ↦ rw a (elim (Bool-cases (is_active l.status)) [
        | inl b ↦ rw b tt
        | inr b ↦ rw b (elim (Bool-cases (ltb (length l.teams) cant_teams_max)) [
          | inl c ↦ rw c tt
          | inr c ↦ rw c (elim (Bool-cases (is_inactive l.status)) [
            | inl d ↦ rw d (enter_draft-Holding j l l.teams s refl h)
            | inr d ↦ rw d tt
          ])
        ])
      ])
    ]

draft_locked-Holding :
    (input : ℕ) (s : Server) → s.locked ≡ true → Ends Holding (draft_locked input s)
unfolding draft_locked
draft_locked-Holding input s h = elim (Option-cases s.me) [
  | inl e ↦ simp (e, draft_locked) tt
  | inr (i, e) ↦ elim (Option-cases (get_elem? s.game.users i)) [
    | inl f ↦ simp (e, f, draft_locked) tt
    | inr (u, f) ↦ elim (Bool-cases (int_gt input (length s.game.leagues))) [
      | inl large ↦ simp (e, f, large, draft_locked) tt
      | inr small ↦ elim (Option-cases (find (λ l. l.id == input) s.game.leagues)) [
        | inl n ↦ simp (e, f, small, n, draft_locked) tt
        | inr ((j, l), n) ↦ simp (e, f, small, n, draft_locked) (draft_found-Holding u j l s h)
      ]
    ]
  ]
]

execute_draft-Holding : (input : ℕ) (s : Server) → Ends Holding (execute_draft input s)
unfolding execute_draft
execute_draft-Holding input s =
    Ends-lock Holding s (draft_locked input)
      (draft_locked-Holding input (record s { locked = true }) refl)

wait_round-Holding :
    (incoming : Option Message) (j : ℕ) (s : Server) → Ends Holding (wait_round incoming j s)
unfolding wait_round lock unlock communicate step_out
wait_round-Holding incoming j s = elim (Option-cases (get_elem? s.game.leagues j)) [
  | inl e ↦ simp (e, wait_round) tt
  | inr (l, e) ↦ elim (Bool-cases (ltb l.cant_draft cant_teams_max)) [
    | inr f ↦ simp (e, f, wait_round) tt
    | inl f ↦ elim (Option-cases incoming) [
      | inl n ↦ simp (e, f, n, wait_round) refl
      | inr (m, n) ↦ elim (Bool-cases (leaves_draft m)) [
        | inl out ↦ simp (e, f, n, out, wait_round) tt
        | inr on ↦ simp (e, f, n, on, wait_round) refl
      ]
    ]
  ]
]

held_when :
    {o : Outcome (Server × Next)} {j : ℕ} {s : Server}
    → o ≡ done (s, waiting j)
    → Ends Holding o
    → s.locked ≡ true
held_when e h = rw e at h

Waits-locked : (j : ℕ) (s : Server) → Waits j s → s.locked ≡ true
Waits-locked j s (enters input s0 e) = held_when e (execute_draft-Holding input s0)
Waits-locked j s (again incoming g {s = s0} w e) =
    held_when e (wait_round-Holding incoming j (set_game g s0))

-- A client that waits in executeDraft for the other teams, whatever messages it got and whatever
-- game the other threads leave: when its loop finds all the teams ready it goes on to makeDraft,
-- which waits for ever for the mutex that the client holds itself.
pub wait_round-blocked :
    (incoming : Option Message) (j : ℕ) (g : Game) (l : League) (s : Server)
    → Waits j s
    → get_elem? g.leagues j ≡ some l
    → ltb l.cant_draft cant_teams_max ≡ false
    → (s' : Server) × (wait_round incoming j (set_game g s) ≡ done (s', drafted false j))
      × (make_draft s' ≡ blocked)
unfolding wait_round make_draft lock communicate
wait_round-blocked incoming j g l s w at full =
    let held : s.locked ≡ true = Waits-locked j s w in
    let here = set_game g s in
    let s' = communicate (plain draft_start_type ok_status Text.draft_starting here) here in
    (s', simp (at, full, wait_round) refl, rw held refl)
