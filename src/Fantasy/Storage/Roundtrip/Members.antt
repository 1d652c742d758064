-- ===== src/Fantasy/Storage/Roundtrip/Members.antt =====
-- Teams and leagues with their players: teamToString and loadTeam, leagueToString and the file of
-- loadLeague, of TPE1/src/IO/io.c.
use so_tpe.Prelude.{
  ℕ, suc, ◌^◌, ◌≤◌, ◌<◌, ◌≡◌, refl, ap, ◌∙◌, false, Option, some, List, [], ◌∷◌, ◌++◌, append_assoc,
  append-nil, ◌==◌, arith, All, length,
}
use so_tpe.Fantasy.Game.{Player, Team, LeagueStatus, League, int_gt}
use so_tpe.Fantasy.Game.Answer.{decimal}
use so_tpe.Fantasy.Storage.{newline, Reader, read_int}
use so_tpe.Fantasy.Storage.Objects.{
  max_players, status_code, status_of, rounds, read_players, load_team, load_league_file, line,
  players_text, players_tail, team_to_string, league_to_string,
}
use so_tpe.Fantasy.Storage.Lines.{Fits, reader, read_int-line, read_int-last}
use so_tpe.Fantasy.Storage.Roundtrip.{Loads, run, read_text_step, read_int_step, rounds-small}

-- A player whose name fits a line.
abbrev pub IsStorablePlayer : Player → Type 0
IsStorablePlayer p = Fits p.name × (p.points < 2 ^ 32)

-- A line for each name and for its points.
abbrev saved_lines : List Player → List ℕ
saved_lines [] = []
saved_lines (p ∷ ps) = line p.name (line (decimal p.points) (saved_lines ps))

players_text-lines : (ps : List Player) → players_text ps ++ newline ∷ [] ≡ newline ∷ saved_lines ps
unfolding players_text
players_text-lines [] = refl
players_text-lines (p ∷ ps) =
    ap (λ t. newline ∷ t)
      (append_assoc p.name (newline ∷ (decimal p.points ++ players_text ps)) (newline ∷ [])
        ∙ ap (line p.name) (
            append_assoc (decimal p.points) (players_text ps) (newline ∷ [])
            ∙ ap (λ t. decimal p.points ++ t) (players_text-lines ps)))

read_players-lines :
    (ps : List Player) (aux : Option (List ℕ))
    → All IsStorablePlayer ps
    → (r : Reader) × (read_players (length ps) (reader aux (saved_lines ps)) ≡ some (ps, r))
unfolding read_players
read_players-lines [] aux f = (reader aux [], refl)
read_players-lines (p ∷ ps) aux ((f, g), h) =
    let (r, e) = read_players-lines ps (some (decimal p.points ++ newline ∷ [])) h in
    (
      r,
      read_text_step _ _ p.name f
          (read_int_step _ _ p.points g (run (read_players (length ps)) _ e refl)),
    )

-- The number of players is read, and what is left are their lines.
count-lines :
    (n : ℕ) (ps : List Player) (aux : Option (List ℕ))
    → n ≡ length ps
    → n < 2 ^ 32
    → (aux' : Option (List ℕ)) × (read_int (reader aux (decimal n ++ players_tail ps))
        ≡ some (n, reader aux' (saved_lines ps)))
unfolding players_tail
count-lines n [] aux e h = (some (decimal n), rw (append-nil (decimal n)) (read_int-last aux n h))
count-lines n (p ∷ ps) aux e h =
    let z : (suc (length ps) == 0) ≡ false = ground arith in
    (
      some (decimal n ++ newline ∷ []),
      rw (z, players_text-lines (p ∷ ps)) (read_int-line aux n (saved_lines (p ∷ ps)) h),
    )

read_players-count :
    (n : ℕ) (ps : List Player) (aux : Option (List ℕ))
    → n ≡ length ps
    → n < 2 ^ 31
    → All IsStorablePlayer ps
    → (r : Reader) × (read_players (rounds n) (reader aux (saved_lines ps)) ≡ some (ps, r))
read_players-count n ps aux e h f = rw (rounds-small n h) (rw e (read_players-lines ps aux f))

-- A team whose owner and players fit a line, with its number of players and at most five of them.
pub record IsStorableTeam (t : Team) : Type 0 where
  pub id : t.id < 2 ^ 32
  pub owner : Fits t.owner
  pub points : t.points < 2 ^ 32
  pub players : All IsStorablePlayer t.players
  pub cant : t.cant_players ≡ length t.players
  pub few : t.cant_players ≤ max_players

-- A team is loaded as it was saved.
pub load_team-team_to_string : (t : Team) → IsStorableTeam t → Loads load_team (team_to_string t) t
unfolding load_team team_to_string int_gt
load_team-team_to_string t f =
    let (aux, e) =
      count-lines t.cant_players t.players (some (decimal t.points ++ newline ∷ [])) f.cant
        (omega arith) in
    let (r, d) = read_players-count t.cant_players t.players aux f.cant (omega arith) f.players in
    let few : int_gt t.cant_players max_players ≡ false = ground arith in
    (
      r,
      read_int_step _ _ t.id f.id (
          read_text_step _ _ t.owner f.owner (
            read_int_step _ _ t.points f.points
              (run read_int _ e (rw few (run (read_players (rounds t.cant_players)) _ d refl))))),
    )

-- A league whose name and players fit a line, with its number of players.
pub record IsStorableLeague (l : League) : Type 0 where
  pub id : l.id < 2 ^ 32
  pub name : Fits l.name
  pub players : All IsStorablePlayer l.available_players
  pub cant : l.cant_available_players ≡ length l.available_players
  pub few : l.cant_available_players < 2 ^ 31

status_of-status_code : (s : LeagueStatus) (r : Reader) → status_of (status_code s) r ≡ some (s, r)
unfolding status_of
status_of-status_code LeagueStatus.inactive r = refl
status_of-status_code LeagueStatus.drafting r = refl
status_of-status_code LeagueStatus.active r = refl

status_code-lt : (s : LeagueStatus) → status_code s < 2 ^ 32
status_code-lt LeagueStatus.inactive = omega arith
status_code-lt LeagueStatus.drafting = omega arith
status_code-lt LeagueStatus.active = omega arith

-- A league is loaded as it was saved, but for its teams, its trades and its draft.
pub load_league_file-league_to_string :
    (l : League)
    → IsStorableLeague l
    → Loads load_league_file
        (league_to_string l)
        (record l { teams = []; trades = []; cant_draft = 0; turn = []; answer = false })
unfolding load_league_file league_to_string
load_league_file-league_to_string l f =
    let (aux, e) =
      count-lines l.cant_available_players l.available_players
        (some (decimal (status_code l.status) ++ newline ∷ [])) f.cant (omega arith) in
    let (r, d) =
      read_players-count l.cant_available_players l.available_players aux f.cant f.few f.players in
    (
      r,
      read_int_step _ _ l.id f.id (
          read_text_step _ _ l.name f.name (
            read_int_step _ _ (status_code l.status) (status_code-lt l.status) (
              run (status_of (status_code l.status)) _ (status_of-status_code l.status _) (
                run read_int _ e
                  (run (read_players (rounds l.cant_available_players)) _ d refl))))),
    )
