-- ===== src/Fantasy/Storage/Folders/Restored.antt =====
-- A league that is loaded as it was saved: saveLeague and loadLeague of TPE1/src/IO/io.c.
use so_tpe.Prelude.{
  ℕ, ◌+◌, ◌<◌, ◌≤◌, ◌≡◌, refl, sym, ap, ◌∙◌, true, false, some, List, [], ◌∷◌, ◌++◌, append_assoc,
  map, arith, All, length, length-append,
}
use so_tpe.Fantasy.Game.{Trade, Team, League}
use so_tpe.Fantasy.Game.Answer.{decimal}
use so_tpe.Fantasy.Game.Names.{Distinct}
use so_tpe.Fantasy.Game.Text.{codes}
use so_tpe.Fantasy.Storage.{buffer_size}
use so_tpe.Fantasy.Storage.Objects.{
  reverse, load_trade, load_team, load_league_file, league_to_string,
}
use so_tpe.Fantasy.Storage.Numbers.{decimal_head}
use so_tpe.Fantasy.Storage.Lines.{length-decimal}
use so_tpe.Fantasy.Storage.Roundtrip.{IsStorableTrade, load_trade-trade_to_string}
use so_tpe.Fantasy.Storage.Roundtrip.Members.{
  IsStorableTeam, load_team-team_to_string, IsStorableLeague, load_league_file-league_to_string,
}
use so_tpe.Fantasy.Storage.Folders.{
  Entry, is_dismissed, is_ext, create_file_path, load_teams, load_trades, Found, load_league_entry,
}
use so_tpe.Fantasy.Storage.Folders.Listing.{shuffle}
use so_tpe.Fantasy.Storage.Folders.Saved.{save_files, save_team, save_trade}
use so_tpe.Fantasy.Storage.Folders.Files.{
  is_ext-append, create_file_path-fits, open_file-Loads, Restores, load_entries-save_files,
}

-- A name and a dot before the extension.
is_ext_dot : (name ext : List ℕ) → is_ext (name ++ 46 ∷ ext) ext ≡ some true
is_ext_dot name ext =
    ap (λ s. is_ext s ext) (sym (append_assoc name (46 ∷ []) ext))
    ∙ is_ext-append (name ++ 46 ∷ []) ext

decimal-shown : (n : ℕ) (s : List ℕ) → is_dismissed (decimal n ++ s) ≡ false
decimal-shown n s = let (c, t, e, h) = decimal_head n in rw e h

-- A team whose file has a name that is loaded, and that fits behind a path of `n` bytes.
pub record IsRestorableTeam (n : ℕ) (t : Team) : Type 0 where
  pub storable : IsStorableTeam t
  pub shown : is_dismissed (save_team t).name ≡ false
  pub short : n + 6 + length (save_team t).name < buffer_size

save_team-Restores :
    (n : ℕ) (t : Team)
    → IsRestorableTeam n t
    → Restores (codes "team") load_team (n + 6) (save_team t) t
unfolding save_team codes
save_team-Restores n t r = record {
  shown = r.shown;
  short = r.short;
  named = is_ext_dot t.owner (codes "team");
  loads = load_team-team_to_string t r.storable;
}

save_trade-Restores :
    (n : ℕ) (t : Trade)
    → n ≤ 40
    → IsStorableTrade t
    → Restores (codes "trade") load_trade (n + 7) (save_trade t) t
unfolding save_trade codes
save_trade-Restores n t h r =
    let d = length-decimal t.id in
    let e = length-append (decimal t.id) (codes ".trade") in
    record {
      shown = decimal-shown t.id (codes ".trade");
      short = omega arith;
      named = is_ext_dot (decimal t.id) (codes "trade");
      loads = load_trade-trade_to_string t r;
    }

-- A league whose own file, teams and trades are all loaded as they were saved: the names of the files
-- differ, and the path of its folder has at most 40 bytes.
pub record IsRestorable (n : ℕ) (l : League) : Type 0 where
  pub path : n ≤ 40
  pub storable : IsStorableLeague l
  pub teams : All (IsRestorableTeam n) l.teams
  pub trades : All IsStorableTrade l.trades
  pub team_names : Distinct (map (λ d. d.name) (map save_team l.teams))
  pub trade_names : Distinct (map (λ d. d.name) (map save_trade l.trades))

All-Restores {ℓ κ} :
    {A : Type 0} {P : A → Type ℓ} {Q : A → Type κ} (xs : List A)
    → ((x : A) → P x → Q x)
    → All P xs
    → All Q xs
All-Restores [] f h = tt
All-Restores (x ∷ xs) f (h, hs) = (f x h, All-Restores xs f hs)

module _ (n : ℕ) (l : League) (r : IsRestorable n l) where
  teams-loaded :
      (order : List ℕ)
      → load_teams (n + 6) (shuffle order (save_files (map save_team l.teams)))
        ≡ some (shuffle order l.teams)
  unfolding load_teams
  teams-loaded order =
      load_entries-save_files (codes "team") load_team (n + 6) save_team order l.teams r.team_names
        (All-Restores l.teams (save_team-Restores n) r.teams)

  trades-loaded :
      (order : List ℕ)
      → load_trades (n + 7) (shuffle order (save_files (map save_trade l.trades)))
        ≡ some (shuffle order l.trades)
  unfolding load_trades
  trades-loaded order =
      load_entries-save_files (codes "trade") load_trade (n + 7) save_trade order l.trades
        r.trade_names (All-Restores l.trades (λ t. save_trade-Restores n t r.path) r.trades)

  pub teams_entry :
      (order : List ℕ) (f : Found)
      → load_league_entry n f
          (Entry.folder (codes "teams") (shuffle order (save_files (map save_team l.teams))))
        ≡ some (record f { teams = some (shuffle order l.teams) })
  unfolding load_league_entry is_ext reverse codes
  teams_entry order f =
      let h = r.path in
      let e : create_file_path n (codes "teams") ≡ some (n + 5) =
        create_file_path-fits n (codes "teams") (omega arith) in
      let d : create_file_path (n + 5) (codes "/") ≡ some (n + 6) =
        create_file_path-fits (n + 5) (codes "/") (omega arith) ∙ ap some (omega arith) in
      rw (e, d, teams-loaded order) refl

  pub trades_entry :
      (order : List ℕ) (f : Found)
      → load_league_entry n f
          (Entry.folder (codes "trades") (shuffle order (save_files (map save_trade l.trades))))
        ≡ some (record f { trades = some (shuffle order l.trades) })
  unfolding load_league_entry is_ext reverse codes
  trades_entry order f =
      let h = r.path in
      let e : create_file_path n (codes "trades") ≡ some (n + 6) =
        create_file_path-fits n (codes "trades") (omega arith) in
      let d : create_file_path (n + 6) (codes "/") ≡ some (n + 7) =
        create_file_path-fits (n + 6) (codes "/") (omega arith) ∙ ap some (omega arith) in
      rw (e, d, trades-loaded order) refl

  -- What the file of the league holds of it.
  abbrev pub league_read : League
  league_read = record l { teams = []; trades = []; cant_draft = 0; turn = []; answer = false }

  pub file_entry :
      (f : Found)
      → load_league_entry n f (Entry.file (decimal l.id ++ codes ".league") (league_to_string l))
        ≡ some (record f { league = some league_read })
  unfolding load_league_entry codes
  file_entry f =
      let h = r.path in
      let d = length-decimal l.id in
      let a = length-append (decimal l.id) (codes ".league") in
      let name = decimal l.id ++ codes ".league" in
      rw
        (
          decimal-shown l.id (codes ".league"),
          create_file_path-fits n name (omega arith),
          is_ext_dot (decimal l.id) (codes "league"),
          open_file-Loads load_league_file (league_to_string l) league_read
              (load_league_file-league_to_string l r.storable),
        )
        refl
