-- ===== src/Base/Last.antt =====
-- The last items of a list are the first ones of its reverse.
use mathlib.Core.List.{reverse, reverse-cons, reverse-append}
use mathlib.Core.Path.{◌≡◌, refl, sym, ap, ◌∙◌}
use mathlib.Core.List.{List, [], ◌∷◌, ◌++◌}
use mathlib.Core.Logic.{inl, inr}
use native.Mathlib.Omega.{arith}
use anomaly_metric_creator.Base.Equality.{Bool-cases}
use anomaly_metric_creator.Base.Numbers.{leb}
use Prim.Native.Nat.{ℕ, zero, suc, ◌-◌, ◌≤◌}
use anomaly_metric_creator.Base.Lists.{length, drop, take, last, length-append, All, All-append}

module _ {ℓ} {A : Type ℓ} where
  pub length-reverse : (xs : List A) → length (reverse xs) ≡ length xs
  length-reverse [] = refl
  length-reverse (x ∷ xs) =
      ap length (reverse-cons x xs)
      ∙ length-append (reverse xs) (x ∷ [])
      ∙ omega (arith, length-reverse xs)

  pub take_all : (n : ℕ) (xs : List A) → length xs ≤ n → take n xs ≡ xs
  take_all zero [] h = refl
  take_all zero (x ∷ xs) h = absurd (omega arith)
  take_all (suc n) [] h = refl
  take_all (suc n) (x ∷ xs) h = ap (λ l. x ∷ l) (take_all n xs (omega arith))

  take-append_left : (n : ℕ) (xs ys : List A) → n ≤ length xs → take n (xs ++ ys) ≡ take n xs
  take-append_left zero xs ys h = refl
  take-append_left (suc n) [] ys h = absurd (omega arith)
  take-append_left (suc n) (x ∷ xs) ys h = ap (λ l. x ∷ l) (take-append_left n xs ys (omega arith))

  reverse-drop : (k : ℕ) (xs : List A) → reverse (drop k xs) ≡ take (length xs - k) (reverse xs)
  reverse-drop zero xs =
      sym (take_all (length xs - 0) (reverse xs) (omega (arith, length-reverse xs)))
  reverse-drop (suc k) [] = sym (take_all (0 - suc k) [] (omega arith))
  reverse-drop (suc k) (x ∷ xs) =
      let e : suc (length xs) - suc k ≡ length xs - k = omega arith in
      reverse-drop k xs
      ∙ sym (
          take-append_left (length xs - k) (reverse xs) (x ∷ []) (omega (arith, length-reverse xs)))
      ∙ ap (take (length xs - k)) (sym (reverse-cons x xs))
      ∙ ap (λ n. take n (reverse (x ∷ xs))) (sym e)

  pub reverse-last : (n : ℕ) (xs : List A) → reverse (last n xs) ≡ take n (reverse xs)
  reverse-last n xs = reverse-drop (length xs - n) xs ∙ elim (Bool-cases (leb n (length xs))) [
    | inl e ↦
        let whole : length xs - (length xs - n) ≡ n = ground arith in
        ap (λ k. take k (reverse xs)) whole
    | inr e ↦
        take_all (length xs - (length xs - n)) (reverse xs) (ground (arith, length-reverse xs))
        ∙ sym (take_all n (reverse xs) (ground (arith, length-reverse xs)))
  ]

  pub take-take : (n : ℕ) (xs : List A) → take n (take (suc n) xs) ≡ take n xs
  take-take zero xs = refl
  take-take (suc n) [] = refl
  take-take (suc n) (x ∷ xs) = ap (λ l. x ∷ l) (take-take n xs)

  -- One more at the front: of the rest the first n are enough.
  pub take-cons-take : (n : ℕ) (x : A) (xs : List A) → take n (x ∷ take n xs) ≡ take n (x ∷ xs)
  take-cons-take zero x xs = refl
  take-cons-take (suc n) x xs = ap (λ l. x ∷ l) (take-take n xs)

  pub reverse-concat : (xs : List A) (x : A) → reverse (xs ++ x ∷ []) ≡ x ∷ reverse xs
  reverse-concat xs x = reverse-append xs (x ∷ [])

module _ {ℓ κ} {A : Type ℓ} (P : A → Type κ) where
  pub All-reverse : (xs : List A) → All P xs → All P (reverse xs)
  All-reverse [] h = h
  All-reverse (x ∷ xs) h =
      rw (reverse-cons x xs) (All-append P (reverse xs) (x ∷ []) (All-reverse xs h.1) (h.0, tt))

  pub All-left : (xs ys : List A) → All P (xs ++ ys) → All P xs
  All-left [] ys h = tt
  All-left (x ∷ xs) ys h = (h.0, All-left xs ys h.1)

  pub All-right : (xs ys : List A) → All P (xs ++ ys) → All P ys
  All-right [] ys h = h
  All-right (x ∷ xs) ys h = All-right xs ys h.1
