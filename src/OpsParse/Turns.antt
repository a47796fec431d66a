-- ===== src/OpsParse/Turns.antt =====
-- What one turn of the loop of `_split_flags` (server_ops_parse.py) does with a word.

use Prim.Native.String.{◌++◌ as ◌<>◌}
use text.Mathlib.TextLemmas.{cons-append}
use anomaly_metric_creator.Base.{
  String, ◌≡◌, ◌⊎◌, refl, subst, Bool, true, false, ◌&&◌, List, [], ◌∷◌, ◌++◌, Option, none, some,
  contains, not, ◌||◌, if-elim, ◌==◌, string_eq, nat_eq, arith, inl, inr,
}
use anomaly_metric_creator.Base.Text.{is_empty, starts_with, split_once}
use anomaly_metric_creator.Base.Text.Append.{is_empty-or_else}
use anomaly_metric_creator.OpsParse.{value_flags, bool_flags}
use anomaly_metric_creator.OpsParse.Redact.{is_sensitive_flag_name}
use anomaly_metric_creator.OpsParse.Split.{
  Split, Turn, one, two, stop, split_rest, split_turn, with_namespace, has_value_prefix,
  is_inline_json, is_value, keyed,
}

abbrev pub IsPlain : String → Type 0
IsPlain token = starts_with "-" token ≡ false

-- A flag that no value follows as a word of its own.
abbrev pub IsFlag : String → Type 0
IsFlag token =
    (starts_with "-" token ≡ true)
    × ((token == "--") ≡ false)
    × (contains token value_flags ≡ false)

-- Whether the word after the token is its value, also where there is none.
abbrev pub takes_next : String → List String → Bool
takes_next token rest =
    contains token value_flags
    || (token == "-p" && is_inline_json rest)
    || (starts_with "-" token && is_sensitive_flag_name token && is_value rest)

-- What a turn leaves of the positionals, and that the namespace is not empty.
abbrev pub IsOne : String → Split → Split → Type 0
IsOne token s t =
    (IsPlain token × (t.positionals ≡ s.positionals ++ token ∷ []))
    ⊎ (IsFlag token × (t.positionals ≡ s.positionals))

abbrev pub IsNamed : Split → Type 0
IsNamed s = is_empty s.namespace ≡ false

abbrev pub IsTurned : String → List String → Split → Turn → Type 0
IsTurned token rest s (one t) = IsOne token s t × IsNamed t
IsTurned token rest s (two t) =
    ((takes_next token rest ≡ true) × ((token == "--") ≡ false) × (t.positionals ≡ s.positionals))
    × IsNamed t
IsTurned token rest s (stop t) =
    ((token ≡ "--") × (t.positionals ≡ s.positionals ++ token ∷ rest)) × IsNamed t

-- Words of a list in which all, or none, begin in some way.
starting : String → List String → Bool
starting p [] = true
starting p (x ∷ xs) = starts_with p x && starting p xs

none_starting : String → List String → Bool
none_starting p [] = true
none_starting p (x ∷ xs) = not (starts_with p x) && none_starting p xs

starts_with-listed :
    (p token : String) (l : List String)
    → starting p l ≡ true
    → contains token l ≡ true
    → starts_with p token ≡ true
unfolding starting
starts_with-listed p token [] h e = absurd (cc)
starts_with-listed p token (x ∷ xs) h e = ground (arith, h, e, starts_with-listed p token xs)

unlisted :
    (p token : String) (l : List String)
    → none_starting p l ≡ true
    → starts_with p token ≡ true
    → contains token l ≡ false
unfolding none_starting
unlisted p token [] h e = refl
unlisted p token (x ∷ xs) h e = ground (arith, h, e, unlisted p token xs)

-- No word of the first list is in the second.
apart : List String → List String → Bool
apart [] l = true
apart (x ∷ xs) l = not (contains x l) && apart xs l

contains-apart :
    (xs l : List String) (token : String)
    → apart xs l ≡ true
    → contains token xs ≡ true
    → contains token l ≡ false
unfolding apart
contains-apart [] l token h e = absurd (cc)
contains-apart (x ∷ xs) l token h e = ground (arith, h, e, contains-apart xs l token)

dashed :
    (q token : String) → starts_with (String.◌∷◌ "-" q) token ≡ true → starts_with "-" token ≡ true
unfolding starts_with
dashed q String.[] h = absurd (cc)
dashed q (String.◌∷◌ c token) h = ground (arith, h)

prefix-dashed :
    (prefix token : String)
    → starts_with "--" prefix ≡ true
    → starts_with (prefix <> "=") token ≡ true
    → starts_with "-" token ≡ true
unfolding starts_with
prefix-dashed String.[] token h e = absurd (cc)
prefix-dashed (String.◌∷◌ c prefix) String.[] h e =
    subst (λ p. starts_with p "" ≡ true) (cons-append c prefix "=") e
prefix-dashed (String.◌∷◌ c prefix) (String.◌∷◌ d token) h e =
    let f = subst (λ p. starts_with p (String.◌∷◌ d token) ≡ true) (cons-append c prefix "=") e in
    ground (arith, h, f)

value_prefix-dashed :
    (flags : List String) (token : String)
    → has_value_prefix flags token ≡ true
    → starts_with "-" token ≡ true
value_prefix-dashed [] token h = absurd (cc)
value_prefix-dashed (prefix ∷ flags) token h =
    ground (arith, h, prefix-dashed prefix token, value_prefix-dashed flags token)

abbrev everywhere : List String
everywhere = "-A" ∷ "--all-namespaces" ∷ []

-- How the flags of the tables begin.
bool_flags_start : starting "-" bool_flags ≡ true
unfolding starting starts_with nat_eq
bool_flags_start = refl

everywhere_start : starting "-" everywhere ≡ true
unfolding starting starts_with nat_eq
everywhere_start = refl

apart-everywhere : apart everywhere value_flags ≡ true
unfolding apart string_eq
apart-everywhere = refl

value_flags_start :
    (none_starting "--namespace=" value_flags ≡ true)
    × (none_starting "--dry-run=" value_flags ≡ true)
    × (none_starting "-p=" value_flags ≡ true)
unfolding none_starting starts_with nat_eq
value_flags_start = (refl, refl, refl)

-- A token with such a beginning is a flag, and no value flag.
IsFlag-of_prefix :
    (p token : String)
    → starts_with p token ≡ true
    → none_starting p value_flags ≡ true
    → starts_with "-" token ≡ true
    → (token == "--") ≡ false
    → IsFlag token
IsFlag-of_prefix p token e n d m = (d, m, unlisted p token value_flags n e)

with_namespace-IsNamed : (value : String) (s : Split) → IsNamed s → IsNamed (with_namespace value s)
with_namespace-IsNamed value s h = is_empty-or_else value s.namespace h

split_rest-IsTurned :
    (token : String) (rest : List String) (s : Split)
    → (token == "--") ≡ false
    → contains token value_flags ≡ false
    → IsNamed s
    → IsTurned token rest s (split_rest token rest s)
unfolding split_rest
split_rest-IsTurned token rest s m v h =
    let P = IsTurned token rest s in
    if-elim P (starts_with "-" token && is_sensitive_flag_name token)
      (λ e.
        if-elim P (is_value rest) (λ g. ((ground (arith, e, g), m, refl), h))
          (λ _. (inr ((ground (arith, e), m, v), refl), h)))
      (λ _.
        if-elim P (contains token bool_flags)
          (λ e. (inr ((starts_with-listed "-" token bool_flags bool_flags_start e, m, v), refl), h))
          (λ _.
            if-elim P (starts_with "-" token) (λ e. (inr ((e, m, v), refl), h))
              (λ e. (inl (e, refl), h))))

keyed-IsTurned :
    (token : String) (rest : List String) (sensitive : Bool) (parts : Option (String × String))
    (s : Split) (other : Turn)
    → (sensitive ≡ true → IsFlag token)
    → IsNamed s
    → IsTurned token rest s other
    → IsTurned token rest s (keyed sensitive parts s other)
keyed-IsTurned token rest true (some (key, value)) s other f h k = (inr (f refl, refl), h)
keyed-IsTurned token rest true none s other f h k = k
keyed-IsTurned token rest false parts s other f h k = k

pub split_turn-IsTurned :
    (token : String) (rest : List String) (s : Split)
    → IsNamed s
    → IsTurned token rest s (split_turn token rest s)
unfolding split_turn
split_turn-IsTurned token rest s h =
    let P = IsTurned token rest s in
    if-elim P (token == "--") (λ e. ((ground (arith, e), refl), h))
      λ m.
        if-elim P (contains token ("-n" ∷ "--namespace" ∷ []))
          (λ e. ((ground (arith, e), m, refl), with_namespace-IsNamed _ s h))
          λ _.
            if-elim P (starts_with "--namespace=" token)
              (λ e. (
                inr (
                  IsFlag-of_prefix "--namespace=" token e (value_flags_start.0)
                      (dashed "-namespace=" token e) m,
                  refl,
                ),
                with_namespace-IsNamed _ s h,
              ))
              λ _.
                if-elim P (contains token ("-A" ∷ "--all-namespaces" ∷ []))
                  (λ e. (
                    inr (
                      (
                        starts_with-listed "-" token everywhere everywhere_start e,
                        m,
                        contains-apart everywhere value_flags token apart-everywhere e,
                      ),
                      refl,
                    ),
                    unfold is_empty in refl,
                  ))
                  λ _.
                    if-elim P (starts_with "--dry-run=" token)
                      (λ e. (
                        inr (
                          IsFlag-of_prefix "--dry-run=" token e (value_flags_start.1)
                              (dashed "-dry-run=" token e) m,
                          refl,
                        ),
                        h,
                      ))
                      λ _.
                        if-elim P (starts_with "-p=" token)
                          (λ e. (
                            inr (
                              IsFlag-of_prefix "-p=" token e (value_flags_start.2)
                                  (dashed "p=" token e) m,
                              refl,
                            ),
                            h,
                          ))
                          λ _.
                            if-elim P (token == "-p" && is_inline_json rest)
                              (λ e. ((ground (arith, e), m, refl), h))
                              λ _.
                                if-elim P (contains token value_flags)
                                  (λ e. ((ground (arith, e), m, refl), h))
                                  λ v.
                                    if-elim P (has_value_prefix value_flags token)
                                      (λ e. (
                                        inr ((value_prefix-dashed value_flags token e, m, v), refl),
                                        h,
                                      ))
                                      λ _.
                                        keyed-IsTurned token rest _ (split_once b'=' token) s
                                          (split_rest token rest s)
                                          (λ e. (dashed "-" token (ground (arith, e)), m, v)) h
                                          (split_rest-IsTurned token rest s m v h)
