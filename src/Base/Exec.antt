-- ===== src/Base/Exec.antt =====
-- Methods that may raise and that change a state. What was written before a raise stays written, so
-- the state comes back beside an error too.
use mathlib.Core.Path.{◌≡◌, refl}
use mathlib.Core.Bool.{Bool, true, false}
use mathlib.Core.Option.{Option, none, some}

pub data Result (E A : Type 0) : Type 0 where
  ok : A → Result E A
  err : E → Result E A

abbrev pub Exec : Type 0 → Type 0 → Type 0 → Type 0
Exec E S A = S → Result E A × S

module _ {E S A : Type 0} where
  abbrev pub pure : A → Exec E S A
  pure a s = (ok a, s)

  abbrev pub raise : E → Exec E S A
  raise e s = (err e, s)

  abbrev pub lift : Result E A → Exec E S A
  lift r s = (r, s)

  abbrev pub gets : (S → A) → Exec E S A
  gets f s = (ok (f s), s)

module _ {E A : Type 0} where
  abbrev pub or_err : Option A → E → Result E A
  or_err none e = err e
  or_err (some a) e = ok a

module _ {E S A B : Type 0} where
  abbrev pub continue : (A → Exec E S B) → Result E A × S → Result E B × S
  continue f (ok a, s) = f a s
  continue f (err e, s) = (err e, s)

  infixl 5 ◌>>=◌ ◌>>◌
  abbrev pub ◌>>=◌ : Exec E S A → (A → Exec E S B) → Exec E S B
  ◌>>=◌ m f s = continue f (m s)

  abbrev pub ◌>>◌ : Exec E S A → Exec E S B → Exec E S B
  m >> k = m >>= λ _. k

module _ {E S : Type 0} where
  abbrev pub raise_if : Bool → E → Exec E S (Unit {0})
  raise_if true e s = (err e, s)
  raise_if false e s = (ok tt, s)

  abbrev pub modify : (S → S) → Exec E S (Unit {0})
  modify f s = (ok tt, f s)

-- A postcondition: `P` if the call returned, `Q` if it raised.
module _ {E S A : Type 0} where
  abbrev pub Ensures : (A → S → Type 0) → (S → Type 0) → Result E A × S → Type 0
  Ensures P Q (ok a, s) = P a s
  Ensures P Q (err e, s) = Q s

  pub Ensures-state : (Q : S → Type 0) (r : Result E A × S) → Ensures (λ a s. Q s) Q r → Q r.1
  Ensures-state Q (ok a, s) h = h
  Ensures-state Q (err e, s) h = h

  pub Ensures-of_state : (Q : S → Type 0) (r : Result E A × S) → Q r.1 → Ensures (λ a s. Q s) Q r
  Ensures-of_state Q (ok a, s) h = h
  Ensures-of_state Q (err e, s) h = h

module _ {E S A B : Type 0} where
  pub Ensures-bind :
      (P : A → S → Type 0) (P' : B → S → Type 0) (Q : S → Type 0) (r : Result E A × S)
      (f : A → Exec E S B)
      → Ensures P Q r
      → ((a : A) (s : S) → P a s → Ensures P' Q (f a s))
      → Ensures P' Q (continue f r)
  Ensures-bind P P' Q (ok a, s) f h next = next a s h
  Ensures-bind P P' Q (err e, s) f h next = h

module _ {E S A : Type 0} where
  pub Ensures-lift :
      (P : A → S → Type 0) (Q : S → Type 0) (r : Result E A) (s : S)
      → Q s
      → ((a : A) → r ≡ ok a → P a s)
      → Ensures P Q (lift r s)
  Ensures-lift P Q (ok a) s q h = h a refl
  Ensures-lift P Q (err e) s q h = q
