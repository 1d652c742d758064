-- ===== src/Fantasy/Game/Steps/Ends.antt =====
-- How a handler that ends took steps of the game.
use so_tpe.Prelude.{◌≡◌, ◌⊎◌, inl, inr, true, false, List, [], ◌∷◌, ◌++◌, Bool-cases}
use so_tpe.Fantasy.Game.{Game, Server, Outcome, done, blocked, fault, ◌>>=◌, lock}
use so_tpe.Fantasy.Reply.{Reply}
use so_tpe.Fantasy.Game.Steps.{Step, Steps, here, next}

-- If the handler returns, its result is so.
abbrev pub Ends {ℓ κ} : {A : Type ℓ} → (A → Type κ) → Outcome A → Type κ
Ends P (done a) = P a
Ends P blocked = Unit
Ends P fault = Unit

module _ {ℓ κ} {A : Type ℓ} where
  pub Ends-lock :
      (P : A → Type κ) (s : Server) (k : Server → Outcome A)
      → Ends P (k (record s { locked = true }))
      → Ends P (lock s >>= k)
  unfolding lock
  Ends-lock P s k r = elim (Bool-cases s.locked) [ inl e ↦ rw e tt | inr e ↦ rw e r ]

  pub Ends-bind {μ} :
      {B : Type μ} (P : A → Type κ) (Q : B → Type κ) (o : Outcome B) (k : B → Outcome A)
      → Ends Q o
      → ((b : B) → Q b → Ends P (k b))
      → Ends P (o >>= k)
  Ends-bind P Q (done b) k q f = f b q
  Ends-bind P Q blocked k q f = tt
  Ends-bind P Q fault k q f = tt

pub Ends-map {ℓ κ μ} :
    {A : Type ℓ} (P : A → Type κ) (Q : A → Type μ) (o : Outcome A)
    → ((a : A) → P a → Q a)
    → Ends P o
    → Ends Q o
Ends-map P Q (done a) f p = f a p
Ends-map P Q blocked f p = tt
Ends-map P Q fault f p = tt

-- One answer was sent and the mutex is free, or none was and it is held.
abbrev pub Answered : List Reply → Server → Type 0
Answered sent s =
    ((r : Reply) × (s.sent ≡ sent ++ r ∷ []) × (s.locked ≡ false))
    ⊎ ((s.sent ≡ sent) × (s.locked ≡ true))

-- What a handler does from `s` on, inside the section that the mutex guards.
abbrev pub Goes : Server → Server → Type 0
Goes s s' = Steps s.game s'.game × Answered s.sent s'

-- The same of a whole handler.
abbrev pub Serves : Server → Server → Type 0
Serves s s' = Steps s.game s'.game × (s.locked ≡ false → Answered s.sent s')

pub Serves-lock :
    (s : Server) (k : Server → Outcome Server)
    → Ends (Goes s) (k (record s { locked = true }))
    → Ends (Serves s) (lock s >>= k)
Serves-lock s k r =
    Ends-lock (Serves s) s k
      (Ends-map (Goes s) (Serves s) (k (record s { locked = true })) (λ a (t, u). (t, λ f. u)) r)

pub one : {g h : Game} → Step g h → Steps g h
one {g} r = next (here g) r

pub Steps-trans : {g h k : Game} → Steps g h → Steps h k → Steps g k
Steps-trans r (here g) = r
Steps-trans r (next t s) = next (Steps-trans r t) s
