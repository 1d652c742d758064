-- ===== src/Fantasy/Game/Steps.antt =====
-- What the requests may do to the game: one step for each change, under the conditions that the
-- handlers check, and what every step keeps.
pub mod Ends
pub mod Accounts
pub mod Offers
pub mod Searches
pub mod Exchanges
pub mod Cancels
pub mod Requests
pub mod Reads
pub mod Executes
pub mod Final
use so_tpe.Prelude.{
  ℕ, ◌+◌, ◌-◌, ltb, if◌then◌else◌, ◌&&◌, ◌%◌, ◌^◌, ◌≤◌, ◌≡◌, refl, ◌∙◌, ap, sym, Bool, true, false,
  Option, none, some, List, [], ◌∷◌, ◌++◌, map, arith, ◌==◌, All, length, length-append, get_elem?,
}
use so_tpe.Fantasy.Game.{
  Player, TradeState, Trade, User, Team, LeagueStatus, League, Game, cant_teams_max, same, find,
  remove_at, add_to_list, modify,
}
use so_tpe.Fantasy.Game.Names.{
  has, Distinct, Distinct-append, Distinct-remove_at, find-has, find-has_self, length-modify,
  map-modify, map-add, All-modify, All-add,
}
use so_tpe.Fantasy.Game.Account.{new_user}
use so_tpe.Fantasy.Game.Leagues.{new_team, new_league, join}
use so_tpe.Fantasy.Game.Trades.{is_awaiting, offer, set_trade_state}
use so_tpe.Fantasy.Game.Trades.Accept.{exchange_players}

-- The trade at position `k` of the league at `j` waits for an answer.
pub record Awaits (g : Game) (j k : ℕ) : Type 0 where
  pub league : League
  pub trade : Trade
  pub at_league : get_elem? g.leagues j ≡ some league
  pub at_trade : get_elem? league.trades k ≡ some trade
  pub waiting : is_awaiting trade.state ≡ true

-- A change of a league that concerns its draft only.
pub record DraftOnly (f : League → League) : Type 0 where
  pub teams : (l : League) → (f l).teams ≡ l.teams
  pub trades : (l : League) → (f l).trades ≡ l.trades

pub data Step : Game → Game → Type 0 where
  register :
      (g : Game) (user pass : List ℕ)
      → find (λ u. same u.user user) g.users ≡ none
      → Step g (record g { users = add_to_list (new_user user pass) g.users })
  log_in :
      (g : Game) (user : List ℕ)
      → find (λ u. same u user) g.logged_users ≡ none
      → Step g (record g { logged_users = add_to_list user g.logged_users })
  log_out : (g : Game) (j : ℕ) → Step g (record g { logged_users = remove_at j g.logged_users })
  join_league :
      (g : Game) (j i : ℕ) (u : User) (input : ℕ) (l : League)
      → get_elem? g.leagues j ≡ some l
      → (length l.teams == cant_teams_max) ≡ false
      → find (λ t. same t.owner u.user) l.teams ≡ none
      → Step g (join j i u input g)
  create_league :
      (g : Game) (id : ℕ) (name : List ℕ) (players : List (List ℕ))
      → Step g (record g { leagues = add_to_list (new_league id name players) g.leagues })
  make_offer :
      (g : Game) (j : ℕ) (from to user_from user_to : List ℕ)
      → Step g (offer j from to user_from user_to g)
  cancel : (g : Game) (j k : ℕ) → Awaits g j k → Step g (set_trade_state j k TradeState.canceled g)
  accept : (g : Game) (j k : ℕ) → Awaits g j k → Step g (set_trade_state j k TradeState.accepted g)
  exchange :
      (g : Game) (n i : ℕ) (from : ℕ × Player) (j : ℕ) (to : ℕ × Player)
      → Step g (record g {
        leagues =
            modify n (λ l. record l { teams = exchange_players i from j to l.teams }) g.leagues;
      })
  draft :
      (g : Game) (j : ℕ) (f : League → League)
      → DraftOnly f
      → Step g (record g { leagues = modify j f g.leagues })

-- Any number of steps.
pub data Steps : Game → Game → Type 0 where
  here : (g : Game) → Steps g g
  next : {g h k : Game} → Steps g h → Step h k → Steps g k

-- A league has at most as many teams as it takes, of different owners.
pub record IsFair (l : League) : Type 0 where
  pub few : length l.teams ≤ cant_teams_max
  pub owners : Distinct (map (λ t. t.owner) l.teams)

-- No name is registered twice or logged in twice, and every league is fair.
pub record IsValid (g : Game) : Type 0 where
  pub users : Distinct (map (λ u. u.user) g.users)
  pub logged : Distinct g.logged_users
  pub leagues : All IsFair g.leagues

abbrev SameTeamsOf : (League → League) → Type 0
SameTeamsOf f =
    (l : League)
    → (length (f l).teams ≡ length l.teams)
      × (map (λ t. t.owner) (f l).teams ≡ map (λ t. t.owner) l.teams)

IsFair-same : (f : League → League) → SameTeamsOf f → (l : League) → IsFair l → IsFair (f l)
IsFair-same f keep l v = record { few = rw (keep l).0 v.few; owners = rw (keep l).1 v.owners }

-- A change of one league that keeps its owners.
modify-IsValid :
    (g : Game) (j : ℕ) (f : League → League)
    → SameTeamsOf f
    → IsValid g
    → IsValid (record g { leagues = modify j f g.leagues })
modify-IsValid g j f keep v = record {
  users = v.users;
  logged = v.logged;
  leagues = All-modify IsFair j f g.leagues v.leagues (λ l at. IsFair-same f keep l);
}

join-IsFair :
    (l : League) (t : Team)
    → IsFair l
    → (length l.teams == cant_teams_max) ≡ false
    → find (λ x. same x.owner t.owner) l.teams ≡ none
    → IsFair (record l { teams = add_to_list t l.teams })
join-IsFair l t v room new = record {
  few = ground (arith, length-append l.teams (t ∷ []), v.few);
  owners = rw (map-add (λ x. x.owner) t l.teams) (
      Distinct-append (map (λ x. x.owner) l.teams) t.owner v.owners
        (find-has (λ x. x.owner) t.owner l.teams new));
}

modify_owners :
    (i : ℕ) (f : Team → Team)
    → ((t : Team) → (f t).owner ≡ t.owner)
    → (teams : List Team)
    → (length (modify i f teams) ≡ length teams)
      × (map (λ t. t.owner) (modify i f teams) ≡ map (λ t. t.owner) teams)
modify_owners i f keep teams = (length-modify i f teams, map-modify (λ t. t.owner) i f teams keep)

exchange_owners :
    (i : ℕ) (from : ℕ × Player) (j : ℕ) (to : ℕ × Player) (teams : List Team)
    → (length (exchange_players i from j to teams) ≡ length teams)
      × (map (λ t. t.owner) (exchange_players i from j to teams) ≡ map (λ t. t.owner) teams)
unfolding exchange_players
exchange_owners i (p, x) j (q, y) teams =
    let q' = if (i == j) && ltb p q then q - 1 else q in
    let f1 = λ (t : Team). let t' : Team = record t { players = remove_at p t.players } in t' in
    let f2 = λ (t : Team). let t' : Team = record t { players = add_to_list x t.players } in t' in
    let f3 = λ (t : Team). let t' : Team = record t { players = remove_at q' t.players } in t' in
    let f4 = λ (t : Team). let t' : Team = record t { players = add_to_list y t.players } in t' in
    let a = modify_owners i f1 (λ t. refl) teams in
    let b = modify_owners j f2 (λ t. refl) (modify i f1 teams) in
    let c = modify_owners j f3 (λ t. refl) (modify j f2 (modify i f1 teams)) in
    let d = modify_owners i f4 (λ t. refl) (modify j f3 (modify j f2 (modify i f1 teams))) in
    (d.0 ∙ c.0 ∙ b.0 ∙ a.0, d.1 ∙ c.1 ∙ b.1 ∙ a.1)

-- A league of one more of a user's.
abbrev joined : ℕ → User → User
joined input u = record u {
  leagues_ids = add_to_list input u.leagues_ids;
  leagues = (u.leagues + 1) % 2 ^ 32;
}

at_one :
    (xs : List League) (j : ℕ) (x y : League)
    → get_elem? xs j ≡ some x
    → get_elem? xs j ≡ some y
    → x ≡ y
at_one xs j x y a b = cc

pub Step-IsValid : {g h : Game} → Step g h → IsValid g → IsValid h
unfolding join offer set_trade_state
Step-IsValid (register g user pass new) v = record {
  users =
      rw (map-add (λ u. u.user) (new_user user pass) g.users)
        (Distinct-append _ user v.users (find-has (λ u. u.user) user g.users new));
  logged = v.logged;
  leagues = v.leagues;
}
Step-IsValid (log_in g user new) v = record {
  users = v.users;
  logged = Distinct-append g.logged_users user v.logged (find-has_self user g.logged_users new);
  leagues = v.leagues;
}
Step-IsValid (log_out g j) v = record {
  users = v.users;
  logged = Distinct-remove_at j g.logged_users v.logged;
  leagues = v.leagues;
}
Step-IsValid (join_league g j i u input l is room new) v =
    let team = new_team ((g.cant_teams + 1) % 2 ^ 32) u.user in
    record {
      users = rw (map-modify (λ x. x.user) i (joined input) g.users (λ x. refl)) v.users;
      logged = v.logged;
      leagues =
          All-modify IsFair j (λ x. record x { teams = add_to_list team x.teams }) g.leagues
            v.leagues
            (λ x at w.
              let same_league : x ≡ l = at_one g.leagues j x l at is in
              join-IsFair x team w (rw same_league room) (rw same_league new));
    }
Step-IsValid (create_league g id name players) v = record {
  users = v.users;
  logged = v.logged;
  leagues =
      All-add IsFair (new_league id name players) g.leagues v.leagues
        (record { few = omega arith; owners = tt });
}
Step-IsValid (make_offer g j from to user_from user_to) v =
    modify-IsValid (record g { cant_trades = (g.cant_trades + 1) % 2 ^ 32 }) j _ (λ l. (refl, refl))
      (record { users = v.users; logged = v.logged; leagues = v.leagues })
Step-IsValid (cancel g j k w) v = modify-IsValid g j _ (λ l. (refl, refl)) v
Step-IsValid (accept g j k w) v = modify-IsValid g j _ (λ l. (refl, refl)) v
Step-IsValid (exchange g n i from j to) v =
    modify-IsValid g n _ (λ l. exchange_owners i from j to l.teams) v
Step-IsValid (draft g j f only) v =
    modify-IsValid g j f (λ l. (ap length (only.teams l), ap (map (λ t. t.owner)) (only.teams l))) v

pub Steps-IsValid : {g h : Game} → Steps g h → IsValid g → IsValid h
Steps-IsValid (here g) v = v
Steps-IsValid (next r s) v = Step-IsValid s (Steps-IsValid r v)
