-- ===== src/Prelude/Results.antt =====
-- Rust's `Result<T, E>` and its question mark.
use mathlib.Core.Path.{◌≡◌, refl}

pub data Result {ℓ κ} (T : Type ℓ) (E : Type κ) : Type (ℓ ⊔ κ) where
  ok : T → Result T E
  err : E → Result T E

module _ {ℓ κ ι} {T : Type ℓ} {U : Type κ} {E : Type ι} where
  infixl 5 ◌>>=◌
  abbrev pub ◌>>=◌ : Result T E → (T → Result U E) → Result U E
  ◌>>=◌ r next = elim r [ err e ↦ err e | ok t ↦ next t ]

  -- A chain that succeeds has succeeded in its first step and in what follows.
  pub steps_of_ok :
      (r : Result T E) (next : T → Result U E) {u : U}
      → ◌>>=◌ r next ≡ ok u
      → (t : T) × (r ≡ ok t) × (next t ≡ ok u)
  steps_of_ok (err e) next h = cc
  steps_of_ok (ok t) next h = (t, refl, h)

pub ok-injective {ℓ κ} :
    {T : Type ℓ} {E : Type κ} {a b : T} → ◌≡◌ {A = Result T E} (ok a) (ok b) → a ≡ b
ok-injective h = cc

module _ {T U E : Type 0} where
  -- A step of a chain may be replaced by one that is the same wherever the chain comes to them.
  pub same_bind :
      (r : Result T E) (f g : T → Result U E)
      → ((t : T) → r ≡ ok t → f t ≡ g t)
      → (r >>= f) ≡ (r >>= g)
  same_bind (ok t) f g same = same t refl
  same_bind (err e) f g same = refl

module _ {W T U E : Type 0} where
  -- A question mark in code that works on a state: an error leaves the state as it is.
  abbrev pub then_do : W → Result T E → (T → Result U E × W) → Result U E × W
  then_do w (err e) next = (err e, w)
  then_do w (ok t) next = next t

  -- A question mark behind a call that changes the state.
  abbrev pub and_then : Result T E × W → (T → W → Result U E × W) → Result U E × W
  and_then (err e, w) next = (err e, w)
  and_then (ok t, w) next = next t w

  -- The same for the steps on a state.
  pub same_then :
      (w : W) (r : Result T E) (f g : T → Result U E × W)
      → ((t : T) → r ≡ ok t → f t ≡ g t)
      → then_do w r f ≡ then_do w r g
  same_then w (ok t) f g same = same t refl
  same_then w (err e) f g same = refl

-- A step of a chain in front of a step on a state, replaced together with what follows.
pub same_steps :
    {W T U V E : Type 0} (w : W) (r : Result T E) (f g : T → Result U E)
    (next next' : U → Result V E × W)
    → ((t : T) → r ≡ ok t → then_do w (f t) next ≡ then_do w (g t) next')
    → then_do w (r >>= f) next ≡ then_do w (r >>= g) next'
same_steps w (ok t) f g next next' same = same t refl
same_steps w (err e) f g next next' same = refl
