-- ===== src/ArgvSafety/Origin.antt =====
-- Where the names come from that cli_argv_safety.py shows.
use anomaly_metric_creator.Base.{
  String, ◌≡◌, ◌⊎◌, refl, ap, sym, subst, ◌∙◌, Bool, true, false, not, ◌&&◌, List, [], ◌∷◌, ◌++◌,
  none, contains, if◌then◌else◌, ◌==◌, string_eq, arith, Bool-cases, inl, inr,
}
use anomaly_metric_creator.Base.Dict.{set_add, contains-set_add, contains-sorted_texts}
use anomaly_metric_creator.Base.Text.{split_once}
use anomaly_metric_creator.Base.Text.Append.{split_once-before}
use anomaly_metric_creator.ArgvSafety.{is_flag, is_named, takes_value, cut, names_from, flag_names}

-- Whether the last of the tokens may take a value, or, where there is none, what was so before.
abbrev pub last_takes_value : Bool → List String → Bool
last_takes_value may [] = may
last_takes_value may (token ∷ tokens) = last_takes_value (takes_value token) tokens

-- The name is a flag of the tokens cut at its `=`: the token has the form of a flag, it stands before
-- any `--`, and it does not stand behind a flag that may take it as its value.
pub record IsFlagOf (may : Bool) (tokens : List String) (name : String) : Type 0 where
  pub earlier : List String
  pub token : String
  pub later : List String
  pub tokens_are : tokens ≡ earlier ++ token ∷ later
  pub flag : is_flag token ≡ true
  pub name_is : name ≡ cut token
  pub no_value : split_once b'=' name ≡ none
  pub free : last_takes_value may earlier ≡ false
  pub not_separated : contains "--" earlier ≡ false

first_token :
    (may : Bool) (token : String) (tokens : List String)
    → is_flag token ≡ true
    → may ≡ false
    → IsFlagOf may (token ∷ tokens) (cut token)
first_token may token tokens flag free = record {
  earlier = [];
  token = token;
  later = tokens;
  tokens_are = refl;
  flag = flag;
  name_is = refl;
  no_value = split_once-before b'=' token;
  free = free;
  not_separated = refl;
}

later_token :
    (may : Bool) (token : String) (tokens : List String) (name : String)
    → (token == "--") ≡ false
    → IsFlagOf (takes_value token) tokens name
    → IsFlagOf may (token ∷ tokens) name
later_token may token tokens name other h = record {
  earlier = token ∷ h.earlier;
  token = h.token;
  later = h.later;
  tokens_are = ap (λ l. token ∷ l) h.tokens_are;
  flag = h.flag;
  name_is = h.name_is;
  no_value = h.no_value;
  free = h.free;
  not_separated = ground (arith, other, h.not_separated);
}

-- A name that the loop keeps was there before, or is a flag of the tokens.
added :
    (name token : String) (names : List String) (keep : Bool)
    → contains name (if keep then set_add (cut token) names else names) ≡ true
    → (contains name names ≡ true) ⊎ ((keep ≡ true) × (name ≡ cut token))
added name token names true h = ground (arith, h, contains-set_add (cut token) name names)
added name token names false h = inl h

is_kept :
    (flag may named : Bool) → (flag && not may && named) ≡ true → (flag ≡ true) × (may ≡ false)
is_kept true false named h = (refl, refl)
is_kept true true named h = absurd (cc)
is_kept false may named h = absurd (cc)

names_from-IsFlagOf :
    (name : String) (may : Bool) (tokens names : List String)
    → contains name (names_from may tokens names) ≡ true
    → (contains name names ≡ true) ⊎ IsFlagOf may tokens name
unfolding names_from
names_from-IsFlagOf name may [] names h = inl h
names_from-IsFlagOf name may (token ∷ tokens) names h = elim (Bool-cases (token == "--")) [
  | inl e ↦ inl (ground (arith, e, h))
  | inr e ↦
      let keep = is_flag token && not may && is_named (cut token) in
      let kept = if keep then set_add (cut token) names else names in
      let later : contains name (names_from (takes_value token) tokens kept) ≡ true =
        ground (arith, e, h) in
      elim (names_from-IsFlagOf name (takes_value token) tokens kept later) [
        | inr k ↦ inr (later_token may token tokens name e k)
        | inl k ↦ elim (added name token names keep k) [
          | inl old ↦ inl old
          | inr (yes_keep, same) ↦
              let (flag, free) = is_kept (is_flag token) may (is_named (cut token)) yes_keep in
              inr (
                subst (IsFlagOf may (token ∷ tokens)) (sym same)
                  (first_token may token tokens flag free))
        ]
      ]
]

-- Every name that a refusal shows is a flag that the tokens have, cut at its `=`; no token that may be
-- the value of a flag before it, nothing behind a `--`, and nothing after an `=` is ever shown.
pub flag_names-IsFlagOf :
    (tokens : List String) (name : String)
    → contains name (flag_names tokens) ≡ true
    → IsFlagOf false tokens name
unfolding flag_names
flag_names-IsFlagOf tokens name h =
    elim (names_from-IsFlagOf name false tokens []
      (sym (contains-sorted_texts name (names_from false tokens [])) ∙ h)) [
        | inl e ↦ absurd (cc)
        | inr k ↦ k
      ]
