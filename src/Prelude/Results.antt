-- ===== src/Prelude/Results.antt =====
-- What a function that may raise ends with, and the chain of such calls.
use mathlib.Core.Path.{◌≡◌, refl}

-- An exception of the kinds `X`, or the returned value.
pub data Result {ξ α} (X : Type ξ) (V : Type α) : Type (ξ ⊔ α) where
  err : X → Result X V
  ok : V → Result X V

module _ {ξ α β} {X : Type ξ} {V : Type α} {U : Type β} where
  infixl 5 ◌>>=◌
  abbrev pub ◌>>=◌ : Result X V → (V → Result X U) → Result X U
  err raised >>= next = err raised
  ok value >>= next = next value

  -- A chain that returns went through a first call that returned.
  pub >>=-eq-ok :
      (call : Result X V) (next : V → Result X U) {u : U}
      → (call >>= next) ≡ ok u
      → (v : V) × (call ≡ ok v) × (next v ≡ ok u)
  >>=-eq-ok (err raised) next chain = cc
  >>=-eq-ok (ok value) next chain = (value, refl, chain)
