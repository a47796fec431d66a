-- ===== src/Base/Text/Append.antt =====
-- Laws of the methods of Base/Text.antt, most on a text that more is appended to.
use Prim.Native.String.{String, [], ◌∷◌, ◌++◌}
use Prim.Native.Nat.{ℕ}
use Prim.Native.Char.{Char, code}
use mathlib.Core.Path.{◌≡◌, refl, ap}
use mathlib.Core.Logic.{inl, inr}
use mathlib.Core.Bool.{true, false}
use mathlib.Core.Option.{none, some}
use native.Mathlib.Omega.{arith}
use text.Mathlib.TextEquality.{Char-path}
use text.Mathlib.TextLemmas.{append_assoc, nil-append, cons-append}
use anomaly_metric_creator.Base.Equality.{◌==◌, nat_eq, Bool-cases, Option-cases}
use anomaly_metric_creator.Base.Text.{
  is_empty, or_else, starts_with, has_part, lower, lower_char, strip_dashes, split_once, before,
}

starts_with-append : (p s t : String) → starts_with p s ≡ true → starts_with p (s ++ t) ≡ true
unfolding starts_with
starts_with-append [] s t h = refl
starts_with-append (c ∷ p) [] t h = absurd (cc)
starts_with-append (c ∷ p) (d ∷ s) t h =
    rw (cons-append d s t) (ground (arith, h, starts_with-append p s t))

has_part_nil : (p s : String) → has_part p [] ≡ true → has_part p s ≡ true
unfolding has_part starts_with
has_part_nil [] [] h = refl
has_part_nil [] (c ∷ s) h = refl
has_part_nil (c ∷ p) s h = absurd (cc)

has_part-append : (p s t : String) → has_part p s ≡ true → has_part p (s ++ t) ≡ true
unfolding has_part
has_part-append p [] t h = has_part_nil p ([] ++ t) h
has_part-append p (d ∷ s) t h = rw (cons-append d s t) (
    ground (
      arith,
      h,
      has_part-append p s t,
      starts_with-append p (d ∷ s) t,
      ap (starts_with p) (cons-append d s t),
    ))

lower_char-append : (c : Char) (s t : String) → lower_char c s ++ t ≡ lower_char c (s ++ t)
unfolding lower_char
lower_char-append c s t = elim (Bool-cases (code c == 0x130)) [
  | inl e ↦ rw (e, lower_char) (append_assoc "i̇" s t)
  | inr e ↦ rw (e, lower_char) (cons-append _ s t)
]

pub lower-append : (s t : String) → lower (s ++ t) ≡ lower s ++ lower t
unfolding lower
lower-append [] t = rw (nil-append t, nil-append (lower t)) refl
lower-append (c ∷ s) t =
    rw (cons-append c s t, lower, lower-append s t, lower_char-append c (lower s) (lower t)) refl

-- A part that stands after the dashes stands there still when more follows.
pub has_part-strip_dashes-append :
    (p s t : String)
    → has_part p (strip_dashes s) ≡ true
    → has_part p (strip_dashes (s ++ t)) ≡ true
unfolding strip_dashes
has_part-strip_dashes-append p [] t h = has_part_nil p _ h
has_part-strip_dashes-append p (c ∷ s) t h = elim (Bool-cases (code c == b'-')) [
  | inl e ↦
      rw (cons-append c s t, strip_dashes, e)
        (has_part-strip_dashes-append p s t (ground (arith, e, h)))
  | inr e ↦
      rw (cons-append c s t, strip_dashes, e, ← cons-append c s t)
        (has_part-append p (c ∷ s) t (ground (arith, e, h)))
]

-- Where a text is split, its parts and the separator make it up.
pub split_once-join :
    (sep : Char) (s a b : String) → split_once (code sep) s ≡ some (a, b) → a ++ sep ∷ b ≡ s
unfolding split_once
split_once-join sep [] a b h = absurd (cc)
split_once-join sep (c ∷ s) a b h = elim (Bool-cases (code c == code sep)) [
  | inl e ↦
      let first : [] ≡ a = ground (arith, e, h) in
      let second : s ≡ b = ground (arith, e, h) in
      let same : c ≡ sep = Char-path c sep (ground (arith, e)) in
      rw (← first, ← second, same, nil-append) refl
  | inr e ↦ elim (Option-cases (split_once (code sep) s)) [
    | inl q ↦ absurd (ground (arith, e, q, h))
    | inr ((x, y), q) ↦
        let first : c ∷ x ≡ a = ground (arith, e, q, h) in
        let second : y ≡ b = ground (arith, e, q, h) in
        rw (← first, ← second, cons-append, split_once-join sep s x y q) refl
  ]
]

pub is_empty-or_else : (s t : String) → is_empty t ≡ false → is_empty (or_else s t) ≡ false
unfolding is_empty or_else
is_empty-or_else [] t h = h
is_empty-or_else (c ∷ s) t h = refl

split_once-first :
    (sep : ℕ) (s a b : String) → split_once sep s ≡ some (a, b) → split_once sep a ≡ none
unfolding split_once
split_once-first sep [] a b h = absurd (cc)
split_once-first sep (c ∷ s) a b h = elim (Bool-cases (code c == sep)) [
  | inl e ↦ let first : [] ≡ a = ground (arith, e, h) in rw (← first) refl
  | inr e ↦ elim (Option-cases (split_once sep s)) [
    | inl q ↦ absurd (ground (arith, e, q, h))
    | inr ((x, y), q) ↦
        let first : c ∷ x ≡ a = ground (arith, e, q, h) in
        rw (← first) (ground (arith, e, split_once-first sep s x y q))
  ]
]

-- What stands before the first separator has none.
pub split_once-before : (sep : ℕ) (s : String) → split_once sep (before sep s) ≡ none
unfolding before
split_once-before sep s = elim (Option-cases (split_once sep s)) [
  | inl q ↦ rw (q, before) q
  | inr ((a, b), q) ↦ rw (q, before) (split_once-first sep s a b q)
]
