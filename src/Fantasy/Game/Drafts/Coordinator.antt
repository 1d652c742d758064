-- ===== src/Fantasy/Game/Drafts/Coordinator.antt =====
-- The thread that passes the turn, coordinator_thread of TPE1/src/server/execute.c. `none` is the end
-- of the process, by `exit` or by a fault.
use so_tpe.Prelude.{
  ℕ, zero, suc, ◌%◌, Bool, true, false, Option, none, some, List, [], ◌∷◌, length, get_elem?, not,
  ◌&&◌, ◌==◌, ltb, ◌>>=◌, if◌then◌else◌,
}
use so_tpe.Fantasy.Game.{Team, LeagueStatus, League, cant_players_max, same, find}
use so_tpe.Fantasy.Game.Drafts.{assign}

abbrev pub time_out : ℕ
time_out = 1

-- The owner of the team behind the first one of `owner`, among those left; `first` after the last.
unfoldable pub next_owner : List ℕ → List ℕ → List Team → Option (List ℕ)
next_owner first owner [] = none
next_owner first owner (t ∷ []) = if same t.owner owner then some first else none
next_owner first owner (t ∷ u ∷ ts) =
    if same t.owner owner then some u.owner else next_owner first owner (u ∷ ts)

unfoldable pub change_turn : League → Option League
change_turn l = elim l.teams [
  | [] ↦ none
  | t ∷ ts ↦ do owner ← next_owner t.owner l.turn (t ∷ ts); some (record l { turn = owner })
]

-- `number` is what `rand` gives.
unfoldable pub auto_asign : ℕ → League → Option League
auto_asign number l =
    let n = number % length l.available_players in
    if length l.available_players == 0
    then none
    else elim (find (λ t. same l.turn t.owner) l.teams) [
      | none ↦ none
      | some (k, _) ↦ elim (get_elem? l.available_players n) [
        | none ↦ none
        | some p ↦ change_turn (assign n p k l)
      ]
    ]

-- Has every team its players?
unfoldable pub all_full : List Team → Bool
all_full [] = true
all_full (t ∷ ts) = not (ltb (length t.players) cant_players_max) && all_full ts

unfoldable pub check_status : League → League
check_status l = if all_full l.teams then record l { status = LeagueStatus.active } else l

-- The loop that waits for an answer, `n` seconds left; `others` is what the other threads do to the
-- league while it sleeps. The Boolean says that the time is over.
unfoldable pub wait_answer : (ℕ → League → League) → ℕ → League → Option (League × Bool)
wait_answer others zero l = some (l, true)
wait_answer others (suc n) l =
    let rest = wait_answer others n (others n l) in
    if l.answer then (change_turn l >>= λ l'. some (l', false)) else rest

-- A round of the coordinator.
unfoldable pub coordinator_round : (ℕ → League → League) → ℕ → League → Option League
coordinator_round others number l0 = do
  (l, over) ← wait_answer others time_out (record l0 { answer = false })
  l' ← if over && not l.answer then auto_asign number l else some l
  some (check_status l')
