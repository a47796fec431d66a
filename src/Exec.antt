-- ===== src/Exec.antt =====
-- Python functions and methods that may raise. What a method wrote before it raised stays written,
-- so the state comes back beside the error too.
pub mod Keeps
use anomaly_metric_creator.Base.{
  String, ◌≡◌, refl, Bool, true, false, List, [], ◌∷◌, if◌then◌else◌, Option, none, some,
}

-- The exception classes that the program tells apart.
pub data Error : Type 0 where
  value_error key_error : String → Error
  type_error index_error os_error overflow_error : Error

pub data Result {ℓ} (A : Type ℓ) : Type ℓ where
  ok : A → Result A
  err : Error → Result A

-- Pure functions that may raise.
unfoldable pub bind_result {ℓ κ} : {A : Type ℓ} {B : Type κ} → Result A → (A → Result B) → Result B
bind_result (ok a) f = f a
bind_result (err e) f = err e

abbrev pub Exec : Type 0 → Type 0 → Type 0
Exec S A = S → Result A × S

module _ {S A : Type 0} where
  pub pure : A → Exec S A
  pure a s = (ok a, s)

  pub lift : Result A → Exec S A
  lift r s = (r, s)

module _ {S : Type 0} where
  pub modify : (S → S) → Exec S (Unit {0})
  modify f s = (ok tt, f s)

  pub get_state : Exec S S
  get_state s = (ok s, s)

abbrev pub continue : {S A B : Type 0} → Result A → (A → Exec S B) → Exec S B
continue (ok a) f s = f a s
continue (err e) f s = (err e, s)

infixl 5 ◌>>=◌ ◌>>◌
-- To unfold this is to unfold `pure`, `lift`, `modify` and `get_state` too.
unfoldable pub ◌>>=◌ : {S A B : Type 0} → Exec S A → (A → Exec S B) → Exec S B
unfolding pure lift modify get_state
◌>>=◌ m f s = let (r, s') = m s in continue r f s'

abbrev pub ◌>>◌ : {S A B : Type 0} → Exec S A → Exec S B → Exec S B
m >> k = m >>= λ _. k
