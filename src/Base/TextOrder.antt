-- ===== src/Base/TextOrder.antt =====
-- The order of texts: of two texts at most one is before the other.
use Prim.Native.Nat.compare as compare_ℕ
use Prim.Native.Nat.{ℕ, zero, suc, Ordering, compare as compare_ℕ}
use Prim.Native.Char.{Char, code}
use native.Mathlib.Omega.{arith}
use text.Mathlib.TextEquality.{path_by_compare}
use Prim.Native.String.compare
use Prim.Native.String.{String, [], ◌∷◌, compare, then}
use mathlib.Core.Path.{◌≡◌, refl, sym, ◌∙◌, ap}
use mathlib.Core.Bool.{true, false, true≢false}
use text.Mathlib.Text.{is_lt}
use anomaly_metric_creator.Base.Dict.{text_lt}

abbrev flip : Ordering → Ordering
flip Ordering.lt = Ordering.gt
flip Ordering.eq = Ordering.eq
flip Ordering.gt = Ordering.lt

compare_ℕ-flip : (m n : ℕ) → compare_ℕ n m ≡ flip (compare_ℕ m n)
compare_ℕ-flip zero zero = refl
compare_ℕ-flip zero (suc n) = compare_ℕ.suc-zero n ∙ ap flip (sym (compare_ℕ.zero-suc n))
compare_ℕ-flip (suc m) zero = compare_ℕ.zero-suc m ∙ ap flip (sym (compare_ℕ.suc-zero m))
compare_ℕ-flip (suc m) (suc n) =
    compare_ℕ.suc-suc n m ∙ compare_ℕ-flip m n ∙ ap flip (sym (compare_ℕ.suc-suc m n))

flip-then : (o p : Ordering) → then (flip o) (flip p) ≡ flip (then o p)
flip-then Ordering.lt p = refl
flip-then Ordering.eq p = refl
flip-then Ordering.gt p = refl

compare-flip : (s t : String) → compare t s ≡ flip (compare s t)
compare-flip [] [] = refl
compare-flip [] (d ∷ t) = compare.cons-nil d t ∙ ap flip (sym (compare.nil-cons d t))
compare-flip (c ∷ s) [] = compare.nil-cons c s ∙ ap flip (sym (compare.cons-nil c s))
compare-flip (c ∷ s) (d ∷ t) =
    compare.cons-cons d c t s
    ∙ ap (λ o. then o (compare t s)) (compare_ℕ-flip (code c) (code d))
    ∙ ap (λ p. then (flip (compare_ℕ (code c) (code d))) p) (compare-flip s t)
    ∙ flip-then (compare_ℕ (code c) (code d)) (compare s t)
    ∙ ap flip (sym (compare.cons-cons c d s t))

is_lt-flip : (o : Ordering) → is_lt o ≡ true → is_lt (flip o) ≡ false
is_lt-flip Ordering.lt h = refl
is_lt-flip Ordering.eq h = refl
is_lt-flip Ordering.gt h = absurd (true≢false (sym h))

pub text_lt_asym : (a b : String) → text_lt a b ≡ true → text_lt b a ≡ false
unfolding text_lt
text_lt_asym a b h = ap is_lt (compare-flip a b) ∙ is_lt-flip (compare a b) h

text_lt_nil : (d : Char) (t : String) → text_lt [] (d ∷ t) ≡ true
unfolding text_lt
text_lt_nil d t = ap is_lt (compare.nil-cons d t)

text_lt-nil_right : (s : String) → text_lt s [] ≡ false
unfolding text_lt
text_lt-nil_right [] = refl
text_lt-nil_right (c ∷ s) = ap is_lt (compare.cons-nil c s)

text_lt-cons :
    (c d : Char) (s t : String)
    → text_lt (c ∷ s) (d ∷ t) ≡ elim (compare_ℕ (code c) (code d)) [
      | Ordering.lt ↦ true
      | Ordering.eq ↦ text_lt s t
      | Ordering.gt ↦ false
    ]
unfolding text_lt
text_lt-cons c d s t = ap is_lt (compare.cons-cons c d s t) ∙ by_order (compare_ℕ (code c) (code d))
  where
    by_order :
        (o : Ordering)
        → is_lt (then o (compare s t))
          ≡ elim o [ Ordering.lt ↦ true | Ordering.eq ↦ is_lt (compare s t) | Ordering.gt ↦ false ]
    by_order Ordering.lt = refl
    by_order Ordering.eq = refl
    by_order Ordering.gt = refl

pub text_lt_trans : (a b c : String) → text_lt a b ≡ true → text_lt b c ≡ true → text_lt a c ≡ true
text_lt_trans a [] c h k = absurd (true≢false (sym h ∙ text_lt-nil_right a))
text_lt_trans a (y ∷ b) [] h k = absurd (true≢false (sym k ∙ text_lt-nil_right (y ∷ b)))
text_lt_trans [] (y ∷ b) (z ∷ c) h k = text_lt_nil z c
text_lt_trans (x ∷ a) (y ∷ b) (z ∷ c) h k =
    ground
      (arith, text_lt-cons x y a b, text_lt-cons y z b c, text_lt-cons x z a c, text_lt_trans a b c)

pub text_lt_total : (a b : String) → text_lt a b ≡ false → text_lt b a ≡ false → a ≡ b
unfolding text_lt
text_lt_total a b h k =
    path_by_compare a b (equal (compare a b) h (ap is_lt (sym (compare-flip a b)) ∙ k))
  where
    equal : (o : Ordering) → is_lt o ≡ false → is_lt (flip o) ≡ false → o ≡ Ordering.eq
    equal Ordering.lt p q = absurd (true≢false p)
    equal Ordering.eq p q = refl
    equal Ordering.gt p q = absurd (true≢false q)
