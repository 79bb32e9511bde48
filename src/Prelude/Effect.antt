-- ===== src/Prelude/Effect.antt =====
-- A method that mutates a state and may raise: the state comes back after a raise too.
use mathlib.Core.Bool.{Bool}
use trading_crew.Prelude.Tests.{if◌then◌else◌}
use trading_crew.Prelude.Raise.{Error, Result, ok, err}

abbrev pub Action : Type 0 → Type 0 → Type 0
Action S A = S → Result A × S

module _ {S A : Type 0} where
  abbrev pub pure : A → Action S A
  pure a s = (ok a, s)

  abbrev pub raise : Error → Action S A
  raise e s = (err e, s)

  abbrev pub gets : (S → A) → Action S A
  gets f s = (ok (f s), s)

  abbrev pub from_result : Result A → Action S A
  from_result r s = (r, s)

infixl 5 ◌>>=◌ ◌>>◌
abbrev pub ◌>>=◌ : {S A B : Type 0} → Action S A → (A → Action S B) → Action S B
◌>>=◌ m f s = let (r, s') = m s in elim r [ ok a ↦ f a s' | err e ↦ (err e, s') ]

abbrev pub ◌>>◌ : {S A B : Type 0} → Action S A → Action S B → Action S B
m >> k = m >>= λ _. k

abbrev pub modify : {S : Type 0} → (S → S) → Action S (Unit {0})
modify f s = (ok tt, f s)

-- `if c: m`
abbrev pub when : {S : Type 0} → Bool → Action S (Unit {0}) → Action S (Unit {0})
when c m = if c then m else pure tt

-- The outcome of a call under `try`.
abbrev pub attempt : {S A : Type 0} → Action S A → Action S (Result A)
attempt m s = let (r, s') = m s in (ok r, s')

-- A method on a part of the state.
abbrev pub zoom : {S T A : Type 0} → (S → T) → (T → S → S) → Action T A → Action S A
zoom get put m s = let (r, t) = m (get s) in (r, put t s)

-- What the state of a sequence keeps, if both parts keep it, whether they return or raise.
pub bind-keeps :
    {S A B : Type 0} (P : S → Type 0) (m : Action S A) (k : A → Action S B) (s : S)
    → P (m s).1
    → ((a : A) (t : S) → P t → P (k a t).1)
    → P ((m >>= k) s).1
bind-keeps {S = S} {A = A} {B = B} P m k s h step = after (m s) h
  where
    after :
        (o : Result A × S)
        → P o.1
        → P (elim o.0 as (λ x. Result B × S) [ ok a ↦ k a o.1 | err e ↦ (err e, o.1) ]).1
    after (ok a, t) q = step a t q
    after (err e, t) q = q
