-- ===== src/Exec/Keeps.antt =====
-- Invariants of methods, one rule for each way to build a method.
use anomaly_metric_creator.Base.{◌≡◌, ap, subst, Bool, true, false, if◌then◌else◌}
use anomaly_metric_creator.Exec.{
  Result, ok, err, Exec, pure, lift, modify, get_state, ◌>>=◌, continue,
}

-- `m` keeps `P`, whether it returns or raises.
pub record Keeps {S A : Type 0} (P : S → Type 0) (m : Exec S A) : Type 0 where
  pub at : (s : S) → P s → P (m s).1

-- Whatever stood before, a return of `m` leaves `P`.
pub record Establishes {S A : Type 0} (P : S → Type 0) (m : Exec S A) : Type 0 where
  pub at : (s t : S) {a : A} → m s ≡ (ok a, t) → P t

module _ {S : Type 0} {P : S → Type 0} where
  pub Keeps-pure : {A : Type 0} (a : A) → Keeps P (pure a)
  unfolding pure
  Keeps-pure a = record { at = λ s h. h }

  pub Keeps-lift : {A : Type 0} (r : Result A) → Keeps P (lift r)
  unfolding lift
  Keeps-lift r = record { at = λ s h. h }

  pub Keeps-get_state : Keeps P get_state
  unfolding get_state
  Keeps-get_state = record { at = λ s h. h }

  pub Keeps-modify : (f : S → S) → ((s : S) → P s → P (f s)) → Keeps P (modify f)
  unfolding modify
  Keeps-modify f k = record { at = k }

  pub Keeps-continue :
      {A B : Type 0} (f : A → Exec S B)
      → ((a : A) → Keeps P (f a))
      → (r : Result A) (s : S) → P s
      → P (continue r f s).1
  Keeps-continue f kf (ok a) s h = (kf a).at s h
  Keeps-continue f kf (err e) s h = h

  -- A step after a step, where each keeps it.
  pub Keeps-bind :
      {A B : Type 0} (first : Exec S A) (next : A → Exec S B)
      → Keeps P first
      → ((value : A) → Keeps P (next value))
      → Keeps P (first >>= next)
  unfolding ◌>>=◌
  Keeps-bind first next kept keeps = record {
    at = λ s h. Keeps-continue next keeps (first s).0 (first s).1 (kept.at s h);
  }

  Establishes-continue :
      {A B : Type 0} (f : A → Exec S B)
      → ((a : A) → Establishes P (f a))
      → (r : Result A) (s t : S) (b : B) → continue r f s ≡ (ok b, t)
      → P t
  Establishes-continue f ef (ok a) s t b e = (ef a).at s t e
  Establishes-continue f ef (err x) s t b e = cc

  pub established :
      {A : Type 0} {m : Exec S A} {a : A} → Establishes P m → (s : S) → (m s).0 ≡ ok a → P (m s).1
  established {m = m} em s e = em.at s (m s).1 (ap (λ r. (r, (m s).1)) e)

  -- Only the last step of a sequence decides what its return leaves.
  pub Establishes-bind :
      {A B : Type 0} (m : Exec S A) (f : A → Exec S B)
      → ((a : A) → Establishes P (f a))
      → Establishes P (m >>= f)
  unfolding ◌>>=◌
  Establishes-bind m f ef = record {
    at = λ s t {a = b} e. let (r, s') = m s in Establishes-continue f ef r s' t b e;
  }

  -- A pure step after it changes nothing.
  pub Establishes-bind_pure :
      {A B : Type 0} (m : Exec S A) (b : B) → Establishes P m → Establishes P (m >>= λ _. pure b)
  unfolding ◌>>=◌
  Establishes-bind_pure {A} {B} m b em = record {
    at = λ s t {a = c} e. go (m s) (λ u a. em.at s u) t c e;
  }
    where
      go :
          (x : Result A × S)
          → ((u : S) (a : A) → x ≡ (ok a, u) → P u)
          → (t : S) (c : B) → continue x.0 (λ _. pure b) x.1 ≡ (ok c, t)
          → P t
      go (ok a, u) h t c e = h t a (cc e)
      go (err _, u) h t c e = cc

pub ruleset keeps_rules = (Keeps-pure, Keeps-lift, Keeps-get_state, Keeps-bind)

-- Whatever stood before, a return of `m` has its value and its end in `Q`.
pub record Ensures {S A : Type 0} (Q : A → S → Type 0) (m : Exec S A) : Type 0 where
  pub at : (s t : S) (a : A) → m s ≡ (ok a, t) → Q a t

module _ {S B : Type 0} {Q : B → S → Type 0} where
  Ensures-continue :
      {A : Type 0} (f : A → Exec S B)
      → ((a : A) → Ensures Q (f a))
      → (r : Result A) (s t : S) (b : B) → continue r f s ≡ (ok b, t)
      → Q b t
  Ensures-continue f ef (ok a) s t b e = (ef a).at s t b e
  Ensures-continue f ef (err x) s t b e = cc

  pub Ensures-bind :
      {A : Type 0} (m : Exec S A) (f : A → Exec S B)
      → ((a : A) → Ensures Q (f a))
      → Ensures Q (m >>= f)
  unfolding ◌>>=◌
  Ensures-bind m f ef = record {
    at = λ s t b e. let (r, s') = m s in Ensures-continue f ef r s' t b e;
  }

  pub Ensures-pure : (b : B) → ((t : S) → Q b t) → Ensures Q (pure b)
  unfolding pure
  Ensures-pure b h = record {
    at = λ s t a e. subst (λ x. Q x t) (ok_injective b a (ap (λ x. x.0) e)) (h t);
  }
    where
      ok_injective : (x y : B) → ok x ≡ ok y → x ≡ y
      ok_injective x y e = cc

  pub Ensures-if :
      (c : Bool) (m k : Exec S B) → Ensures Q m → Ensures Q k → Ensures Q (if c then m else k)
  Ensures-if true m k em ek = em
  Ensures-if false m k em ek = ek
