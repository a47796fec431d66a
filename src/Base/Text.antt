-- ===== src/Base/Text.antt =====
-- Python's methods on texts, by recursion on the characters. `lower` maps the ASCII capitals and
-- the two other characters whose lower form begins with an ASCII letter (U+212A and U+0130), which
-- is what decides a comparison with an ASCII text; digits and blanks are the ASCII ones.
pub mod Append
use Prim.Native.Nat.{ℕ, zero, suc, ◌+◌, ◌-◌, ◌*◌, ◌/◌, ◌%◌}
use Prim.Native.Char.{Char, code}
use Prim.Native.String.{String, [], ◌∷◌, ◌++◌, char_at}
use mathlib.Core.Path.{◌≡◌, refl, ap}
use mathlib.Core.Logic.{◌⊎◌, inl, inr}
use mathlib.Core.Bool.{Bool, true, false, ◌&&◌, ◌||◌}
use mathlib.Core.Option.{Option, none, some}
use mathlib.Core.List
use mathlib.Core.List.{List}
use native.Mathlib.Omega.{arith}
use anomaly_metric_creator.Base.Equality.{Eq, ◌==◌, nat_eq, string_eq, if◌then◌else◌}
use anomaly_metric_creator.Base.Numbers.{ltb, leb, ℤ, pos, negsuc}

-- `not s`, the falsy text.
unfoldable pub is_empty : String → Bool
is_empty [] = true
is_empty (_ ∷ _) = false

-- `s or t`.
unfoldable pub or_else : String → String → String
or_else [] t = t
or_else (c ∷ s) t = c ∷ s

-- `s.startswith(p)`, prefix first.
unfoldable pub starts_with : String → String → Bool
starts_with [] s = true
starts_with (p ∷ ps) [] = false
starts_with (p ∷ ps) (c ∷ s) = code p == code c && starts_with ps s

-- `p in s`.
unfoldable pub has_part : String → String → Bool
unfolding starts_with
has_part p [] = starts_with p []
has_part p (c ∷ s) = starts_with p (c ∷ s) || has_part p s

-- `s.split(sep, 1)` where the separator occurs, at its first place.
unfoldable pub split_once : ℕ → String → Option (String × String)
split_once sep [] = none
split_once sep (c ∷ s) =
    let rest : Option (String × String) = elim (split_once sep s) [
      | none ↦ none
      | some (a, b) ↦ some (c ∷ a, b)
    ] in
    if code c == sep then some ([], s) else rest

-- `s.rpartition(sep)` where the separator occurs, at its last place.
unfoldable pub split_last : ℕ → String → Option (String × String)
split_last sep [] = none
split_last sep (c ∷ s) = elim (split_last sep s) [
  | some (a, b) ↦ some (c ∷ a, b)
  | none ↦ if code c == sep then some ([], s) else none
]

-- `s.split(sep, 1)[0]`.
unfoldable pub before : ℕ → String → String
unfolding split_once
before sep s = elim (split_once sep s) [ none ↦ s | some (a, _) ↦ a ]

-- `s.split(sep)`: the parts between the separators, empty ones too.
unfoldable pub split_at : ℕ → String → List String
split_at sep [] = List.◌∷◌ [] List.[]
split_at sep (c ∷ s) =
    let rest = split_at sep s in
    let longer : List String = elim rest [
      | List.[] ↦ List.◌∷◌ (c ∷ []) List.[]
      | List.◌∷◌ p ps ↦ List.◌∷◌ (c ∷ p) ps
    ] in
    if code c == sep then List.◌∷◌ [] rest else longer

-- The character of `to` at the place where `from` has `c`, else `c`.
translate : String → String → Char → Char
translate (f ∷ from) (t ∷ to) c =
    let rest = translate from to c in if code f == code c then t else rest
translate _ _ c = c

lower_char : Char → String → String
unfolding translate
lower_char c s =
    if code c == 0x130
    then "i̇" ++ s
    else translate "ABCDEFGHIJKLMNOPQRSTUVWXYZK" "abcdefghijklmnopqrstuvwxyzk" c ∷ s

-- `s.lower()`.
unfoldable pub lower : String → String
unfolding lower_char
lower [] = []
lower (c ∷ s) = lower_char c (lower s)

-- `s.lstrip("-")`.
unfoldable pub strip_dashes : String → String
strip_dashes [] = []
strip_dashes (c ∷ s) = let rest = strip_dashes s in if code c == b'-' then rest else c ∷ s

unfoldable pub is_blank : Char → Bool
is_blank c = code c == b' ' || (leb 9 (code c) && leb (code c) 13)

unfoldable pub strip_left : String → String
unfolding is_blank
strip_left [] = []
strip_left (c ∷ s) = let rest = strip_left s in if is_blank c then rest else c ∷ s

-- `s.rstrip()`, by dropping a blank before an empty rest.
unfoldable pub strip_right : String → String
unfolding is_blank is_empty
strip_right [] = []
strip_right (c ∷ s) =
    let rest = strip_right s in if is_blank c && is_empty rest then [] else c ∷ rest

-- `s.strip()`.
unfoldable pub strip : String → String
unfolding strip_left strip_right
strip s = strip_left (strip_right s)

-- `s.rstrip(c)` for one character.
unfoldable pub strip_right_char : ℕ → String → String
unfolding is_empty
strip_right_char k [] = []
strip_right_char k (c ∷ s) =
    let rest = strip_right_char k s in if code c == k && is_empty rest then [] else c ∷ rest

-- `s.removesuffix(t)`: the whole of `t` at the end of `s`, once.
unfoldable pub remove_suffix : String → String → String
remove_suffix t [] = []
remove_suffix t (c ∷ s) = let rest = remove_suffix t s in if (c ∷ s) == t then [] else c ∷ rest

is_digit : Char → Bool
is_digit c = leb b'0' (code c) && leb (code c) b'9'

all_digits : String → Bool
unfolding is_digit
all_digits [] = true
all_digits (c ∷ s) = is_digit c && all_digits s

-- `s.isdigit()`: false on the empty text.
unfoldable pub is_digits : String → Bool
unfolding all_digits
is_digits [] = false
is_digits (c ∷ s) = all_digits (c ∷ s)

-- `sep.join(parts)`.
unfoldable pub join : String → List String → String
join sep List.[] = []
join sep (List.◌∷◌ p List.[]) = p
join sep (List.◌∷◌ p (List.◌∷◌ q ps)) = p ++ sep ++ join sep (List.◌∷◌ q ps)

-- The decimal digits of `n` before `acc`; the fuel is above `n`, one round drops a digit.
show_from : ℕ → ℕ → String → String
show_from zero n acc = acc
show_from (suc f) n acc =
    let digit = char_at "0123456789" (n % 10) ∷ acc in
    let rest = show_from f (n / 10) digit in if ltb n 10 then digit else rest

-- `str(n)`.
unfoldable pub show_ℕ : ℕ → String
unfolding show_from
show_ℕ n = show_from (suc n) n []

unfoldable pub show_ℤ : ℤ → String
unfolding show_ℕ
show_ℤ (pos n) = show_ℕ n
show_ℤ (negsuc n) = "-" ++ show_ℕ (suc n)

-- The digits of `int(s)`; one underscore may stand between two digits, which the flag tracks.
read_digits : String → Bool → ℕ → Option ℕ
unfolding is_digit
read_digits [] after n = if after then some n else none
read_digits (c ∷ s) after n =
    let digit = read_digits s true (n * 10 + (code c - b'0')) in
    let gap = read_digits s false n in
    if is_digit c then digit else if code c == b'_' && after then gap else none

positive : Option ℕ → Option ℤ
positive o = elim o [ none ↦ none | some n ↦ some (pos n) ]

negated : Option ℕ → Option ℤ
negated o = elim o [ none ↦ none | some n ↦ some (elim n [ zero ↦ pos 0 | suc m ↦ negsuc m ]) ]

signed : String → Option ℤ
unfolding read_digits positive negated
signed [] = none
signed (c ∷ s) =
    if code c == b'-'
    then negated (read_digits s false 0)
    else if code c == b'+'
    then positive (read_digits s false 0)
    else positive (read_digits (c ∷ s) false 0)

-- `int(s)`: blanks around, a sign, digits; `none` is a ValueError.
unfoldable pub int_of_text : String → Option ℤ
unfolding signed strip
int_of_text s = signed (strip s)

reads : int_of_text " -1_20 " ≡ some (negsuc 119)
unfolding int_of_text nat_eq
reads = refl

shows : show_ℕ 10_203 ≡ "10203"
unfolding show_ℕ
shows = refl

lowers : lower "ToKEn-X" ≡ "token-x"
unfolding lower nat_eq
lowers = refl

splits :
    (split_once b'=' "a=b=c" ≡ some ("a", "b=c")) × (split_last b'-' "a-b-3" ≡ some ("a-b", "3"))
unfolding split_once split_last nat_eq
splits = (refl, refl)

removes : remove_suffix "-recreated" "db-recreated" ≡ "db"
unfolding remove_suffix string_eq
removes = refl
