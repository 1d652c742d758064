-- ===== src/Fantasy/Storage/Folders/Leagues.antt =====
-- The folder of a league, saved and loaded: saveLeague and loadLeague of TPE1/src/IO/io.c.
use so_tpe.Prelude.{ℕ, ◌≡◌, refl, false, none, some, List, [], ◌∷◌, ◌++◌, map}
use so_tpe.Fantasy.Game.{League}
use so_tpe.Fantasy.Game.Answer.{decimal}
use so_tpe.Fantasy.Game.Text.{codes}
use so_tpe.Fantasy.Storage.Objects.{league_to_string}
use so_tpe.Fantasy.Storage.Folders.{
  Entry, Files, Found, load_league_entry, load_league_entries, load_league,
}
use so_tpe.Fantasy.Storage.Folders.Listing.{shuffle, shuffle_three}
use so_tpe.Fantasy.Storage.Folders.Saved.{
  save_files, save_team, save_trade, save_league, list_league,
}
use so_tpe.Fantasy.Storage.Folders.Restored.{
  IsRestorable, teams_entry, trades_entry, file_entry, league_read,
}

-- The effect of an entry, whatever was found before.
abbrev Sets : ℕ → Entry Files → (Found → Found) → Type 0
Sets n e g = (f : Found) → load_league_entry n f e ≡ some (g f)

three_entries :
    (n : ℕ) (f : Found) (a b c : Entry Files) (ga gb gc : Found → Found)
    → Sets n a ga
    → Sets n b gb
    → Sets n c gc
    → load_league_entries n f (a ∷ b ∷ c ∷ []) ≡ some (gc (gb (ga f)))
unfolding load_league_entries
three_entries n f a b c ga gb gc ea eb ec = rw (ea f, eb (ga f), ec (gb (ga f))) refl

-- The folder of a league that is saved is loaded, whatever order readdir lists it and its folders in,
-- with all that the league is but the order of its teams and trades, which are in that of the listing,
-- and its draft, which has ended. This holds for a league whose texts fit a line and whose counts of
-- players are right, of at most five in a team, if the files of its teams, and those of its trades,
-- have different names, no name of a team's file begins with '.', and the paths fit the buffer.
pub load_league-save_league :
    (n : ℕ) (l : League) (order : List ℕ → List ℕ)
    → IsRestorable n l
    → load_league n (list_league order (save_league l))
      ≡ some (record l {
        teams = shuffle (order (codes "teams")) l.teams;
        trades = shuffle (order (codes "trades")) l.trades;
        cant_draft = 0;
        turn = [];
        answer = false;
      })
unfolding load_league list_league save_league
load_league-save_league n l order r =
    let ts = shuffle (order (codes "teams")) l.teams in
    let rs = shuffle (order (codes "trades")) l.trades in
    let a =
      Entry.folder (codes "teams")
        (shuffle (order (codes "teams")) (save_files (map save_team l.teams))) in
    let b =
      Entry.folder (codes "trades")
        (shuffle (order (codes "trades")) (save_files (map save_trade l.trades))) in
    let c = Entry.file (decimal l.id ++ codes ".league") (league_to_string l) in
    let ga : Found → Found = λ f. record f { teams = some ts } in
    let gb : Found → Found = λ f. record f { trades = some rs } in
    let gc : Found → Found = λ f. record f { league = some (league_read n l r) } in
    let ea : Sets n a ga = teams_entry n l r (order (codes "teams")) in
    let eb : Sets n b gb = trades_entry n l r (order (codes "trades")) in
    let ec : Sets n c gc = file_entry n l r in
    let start : Found = record { league = none; teams = none; trades = none } in
    let found : Found = record {
      league = some (league_read n l r);
      teams = some ts;
      trades = some rs;
    } in
    let e : load_league_entries n start (shuffle (order []) (a ∷ b ∷ c ∷ [])) ≡ some found =
      shuffle_three (λ es. load_league_entries n start es ≡ some found) a b c
        (three_entries n start a b c ga gb gc ea eb ec)
        (three_entries n start a c b ga gc gb ea ec eb)
        (three_entries n start b a c gb ga gc eb ea ec)
        (three_entries n start b c a gb gc ga eb ec ea)
        (three_entries n start c a b gc ga gb ec ea eb)
        (three_entries n start c b a gc gb ga ec eb ea) (order []) in
    rw e refl
