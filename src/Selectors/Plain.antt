-- ===== src/Selectors/Plain.antt =====
-- Texts without the characters that a selector gives a meaning.
use Prim.Native.Char.{Char, code}
use Prim.Native.String.{String, [], ◌∷◌, ◌++◌}
use text.Mathlib.TextLemmas.{nil-append, cons-append}
use anomaly_metric_creator.Base.{
  ℕ, ◌≡◌, refl, Bool, true, false, not, ◌&&◌, some, ◌==◌, nat_eq, arith,
}
use anomaly_metric_creator.Base.Text.{
  is_blank, strip, strip_left, strip_right, starts_with, has_part,
}
use anomaly_metric_creator.Selectors.{cut_at, drop_prefix}

abbrev pub lacks : ℕ → String → Bool
lacks k [] = true
lacks k (c ∷ s) = not (code c == k) && lacks k s

abbrev pub blank_free : String → Bool
blank_free [] = true
blank_free (c ∷ s) = not (is_blank c) && blank_free s

strip_right-blank_free : (s : String) → blank_free s ≡ true → strip_right s ≡ s
unfolding strip_right
strip_right-blank_free [] h = refl
strip_right-blank_free (c ∷ s) h = ground (arith, h, strip_right-blank_free s)

pub strip-blank_free : (s : String) → blank_free s ≡ true → strip s ≡ s
unfolding strip strip_left
strip-blank_free [] h = refl
strip-blank_free (c ∷ s) h = rw (strip_right-blank_free (c ∷ s) h) (ground (arith, h))

pub has_part-lacks :
    (c : Char) (p s : String) → lacks (code c) s ≡ true → has_part (c ∷ p) s ≡ false
unfolding has_part starts_with
has_part-lacks c p [] h = refl
has_part-lacks c p (d ∷ s) h = ground (arith, h, has_part-lacks c p s)

-- `key=value`, and its parts again.
abbrev pub equation : String → String → String
equation key value = key ++ ("=" ∷ value)

pub has_part-twice :
    (k v : String)
    → lacks b'=' k ≡ true
    → lacks b'=' v ≡ true
    → has_part "==" (equation k v) ≡ false
unfolding has_part starts_with
has_part-twice [] [] h g = ground arith
has_part-twice [] (d ∷ v) h g =
    rw (nil-append ("=" ∷ d ∷ v)) (ground (arith, g, has_part-lacks "=" "=" v))
has_part-twice (c ∷ k) v h g =
    rw (cons-append c k ("=" ∷ v)) (ground (arith, h, has_part-twice k v (ground (arith, h)) g))

pub has_part-once : (k v : String) → has_part "=" (equation k v) ≡ true
unfolding has_part starts_with
has_part-once [] v = rw (nil-append ("=" ∷ v)) (ground arith)
has_part-once (c ∷ k) v = rw (cons-append c k ("=" ∷ v)) (ground (arith, has_part-once k v))

pub cut_at-equation : (k v : String) → lacks b'=' k ≡ true → cut_at "=" (equation k v) ≡ some (k, v)
unfolding cut_at starts_with drop_prefix
cut_at-equation [] v h = rw (nil-append ("=" ∷ v)) (ground arith)
cut_at-equation (c ∷ k) v h =
    rw (cons-append c k ("=" ∷ v)) (ground (arith, h, cut_at-equation k v (ground (arith, h))))

pub lacks-append : (n : ℕ) (s t : String) → lacks n (s ++ t) ≡ (lacks n s && lacks n t)
lacks-append n [] t = rw (nil-append t) refl
lacks-append n (c ∷ s) t = rw (cons-append c s t) (ground (arith, lacks-append n s t))

pub blank_free-append : (s t : String) → blank_free (s ++ t) ≡ (blank_free s && blank_free t)
blank_free-append [] t = rw (nil-append t) refl
blank_free-append (c ∷ s) t = rw (cons-append c s t) (ground (arith, blank_free-append s t))
