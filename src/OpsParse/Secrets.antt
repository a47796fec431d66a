-- ===== src/OpsParse/Secrets.antt =====
-- What the shown flags of a command (server_ops_parse.py) may say of a secret.
use Prim.Native.String.{[], ◌∷◌, ◌++◌}
use text.Mathlib.TextLemmas.{nil-append, cons-append}
use anomaly_metric_creator.Base.{
  String, ◌≡◌, ◌⊎◌, inl, inr, refl, ap, sym, ◌∙◌, true, List, contains, nat_eq, string_eq, arith,
}
use anomaly_metric_creator.Base.Dict.{Dict}
use anomaly_metric_creator.Base.Text.{lower, strip_dashes, starts_with, has_part}
use anomaly_metric_creator.OpsParse.{FlagValue, sensitive_flag_tokens}
use anomaly_metric_creator.OpsParse.Redact.{has_any, is_sensitive_flag_name, redact_parsed_flags}

abbrev secret_words : List String
secret_words =
    List.◌∷◌ "token" (List.◌∷◌ "password" (List.◌∷◌ "secret" (List.◌∷◌ "client-key" List.[])))

-- In small letters and without its leading dashes the name has one of the words in it.
pub record NamesSecret (key : String) : Type 0 where
  pub start : String
  pub word : String
  pub rest : String
  pub listed : contains word secret_words ≡ true
  pub spelled : strip_dashes (lower key) ≡ start ++ word ++ rest

-- The same flags in the same order, whose values agree but for those that are secret.
abbrev pub AgreeInPublic : Dict FlagValue → Dict FlagValue → Type 0
AgreeInPublic List.[] List.[] = Unit
AgreeInPublic (List.◌∷◌ (k, v) flags) (List.◌∷◌ (j, w) others) =
    (k ≡ j) × (NamesSecret k ⊎ (v ≡ w)) × AgreeInPublic flags others
AgreeInPublic _ _ = ⊥

starts_with-append : (p s : String) → starts_with p (p ++ s) ≡ true
unfolding starts_with
starts_with-append [] s = refl
starts_with-append (c ∷ p) s = rw (cons-append c p s) (ground (arith, starts_with-append p s))

has_part-starts_with : (p s : String) → starts_with p s ≡ true → has_part p s ≡ true
unfolding has_part
has_part-starts_with p [] h = h
has_part-starts_with p (c ∷ s) h = ground (arith, h)

has_part-append : (p start s : String) → has_part p (start ++ p ++ s) ≡ true
unfolding has_part
has_part-append p [] s =
    rw (nil-append (p ++ s)) (has_part-starts_with p (p ++ s) (starts_with-append p s))
has_part-append p (c ∷ start) s =
    rw (cons-append c start (p ++ s)) (ground (arith, has_part-append p start s))

has_any-contains :
    (words : List String) (word s : String)
    → contains word words ≡ true
    → has_part word s ≡ true
    → has_any words s ≡ true
has_any-contains List.[] word s h e = absurd (cc)
has_any-contains (List.◌∷◌ w words) word s h e = ground (arith, h, e, has_any-contains words word s)

is_sensitive-NamesSecret : (key : String) → NamesSecret key → is_sensitive_flag_name key ≡ true
unfolding is_sensitive_flag_name
is_sensitive-NamesSecret key n =
    has_any-contains sensitive_flag_tokens n.word (strip_dashes (lower key)) n.listed
      (ap (has_part n.word) n.spelled ∙ has_part-append n.word n.start n.rest)

-- What is shown of the flags does not depend on the values of those whose name has `token`,
-- `password`, `secret` or `client-key` in it, in letters of any case and after any dashes.
pub redact_parsed_flags-AgreeInPublic :
    (flags others : Dict FlagValue)
    → AgreeInPublic flags others
    → redact_parsed_flags flags ≡ redact_parsed_flags others
unfolding redact_parsed_flags
redact_parsed_flags-AgreeInPublic List.[] List.[] h = refl
redact_parsed_flags-AgreeInPublic List.[] (List.◌∷◌ _ others) h = absurd h
redact_parsed_flags-AgreeInPublic (List.◌∷◌ (k, v) flags) List.[] h = absurd h
redact_parsed_flags-AgreeInPublic (List.◌∷◌ (k, v) flags) (List.◌∷◌ (j, w) others)
      (same, inl secret, later) =
    rw
      (
        sym same,
        is_sensitive-NamesSecret k secret,
        redact_parsed_flags-AgreeInPublic flags others later,
      )
      refl
redact_parsed_flags-AgreeInPublic (List.◌∷◌ (k, v) flags) (List.◌∷◌ (j, w) others)
      (same, inr e, later) =
    rw (sym same, sym e, redact_parsed_flags-AgreeInPublic flags others later) refl
