-- ===== src/OpsParse/Redacting.antt =====
-- What the redaction of server_ops_parse.py hides, and what it shows.
use Prim.Native.String.{[], ◌∷◌, ◌++◌}
use text.Mathlib.TextLemmas.{nil-append, cons-append}
use anomaly_metric_creator.Base.{
  String, ◌≡◌, refl, ap, ◌∙◌, Bool, true, false, List, some, nat_eq, string_eq, arith, Bool-cases,
  Option-cases, inl, inr,
}
use anomaly_metric_creator.Base.Text.{lower, strip_dashes, starts_with, split_once}
use anomaly_metric_creator.Base.Text.Append.{
  lower-append, has_part-strip_dashes-append, split_once-join,
}
use anomaly_metric_creator.OpsParse.{sensitive_flag_tokens}
use anomaly_metric_creator.OpsParse.Redact.{
  has_any, is_sensitive_flag_name, mask, redact_token, redact_argv,
}

has_any-append :
    (ps : List String) (s t : String)
    → has_any ps (strip_dashes s) ≡ true
    → has_any ps (strip_dashes (s ++ t)) ≡ true
has_any-append List.[] s t h = h
has_any-append (List.◌∷◌ p ps) s t h =
    ground (arith, h, has_any-append ps s t, has_part-strip_dashes-append p s t)

-- A name that is sensitive is sensitive with anything after it.
is_sensitive-append :
    (s t : String) → is_sensitive_flag_name s ≡ true → is_sensitive_flag_name (s ++ t) ≡ true
unfolding is_sensitive_flag_name
is_sensitive-append s t h =
    rw (lower-append s t) (has_any-append sensitive_flag_tokens (lower s) (lower t) h)

insensitive_key :
    (token key value : String)
    → split_once b'=' token ≡ some (key, value)
    → is_sensitive_flag_name token ≡ false
    → is_sensitive_flag_name key ≡ false
insensitive_key token key value q e = elim (Bool-cases (is_sensitive_flag_name key)) [
  | inl f ↦ absurd (
      cc (
        is_sensitive-append key ("=" ∷ value) f,
        ap is_sensitive_flag_name (split_once-join "=" token key value q),
        e,
      ))
  | inr f ↦ f
]

rejoined :
    (token key value : String)
    → split_once b'=' token ≡ some (key, value)
    → key ++ "=" ++ value ≡ token
rejoined token key value q =
    ap (λ t. key ++ t) (cons-append "=" [] value ∙ ap (λ t. "=" ∷ t) (nil-append value))
    ∙ split_once-join "=" token key value q

-- No word is shown otherwise than it is: a text of the form `key=value` is sensitive as a whole
-- where its key is, and that is asked first.
token_shown : (token : String) → redact_token token ≡ (token, is_sensitive_flag_name token)
unfolding redact_token
token_shown token = elim (Bool-cases (is_sensitive_flag_name token)) [
  | inl e ↦ rw (e, redact_token) refl
  | inr e ↦ elim (Bool-cases (starts_with "--" token)) [
    | inr f ↦ rw (e, f, redact_token) refl
    | inl f ↦ elim (Option-cases (split_once b'=' token)) [
      | inl q ↦ rw (e, f, q, redact_token) refl
      | inr ((key, value), q) ↦
          rw
            (e, f, q, insensitive_key token key value q e, rejoined token key value q, redact_token)
            refl
    ]
  ]
]

-- The mask for each word after a sensitive one that is shown, and every other word as it is.
pub mask_after : Bool → List String → List String
mask_after hidden List.[] = List.[]
mask_after true (List.◌∷◌ word words) = List.◌∷◌ mask (mask_after false words)
mask_after false (List.◌∷◌ word words) =
    List.◌∷◌ word (mask_after (is_sensitive_flag_name word) words)

-- The words of a command are shown as `mask_after` says: a word is hidden exactly where it follows a
-- sensitive word that is shown, and what stands after an `=` in a word is never hidden by itself.
pub redact_argv_lem :
    (next : Bool) (argv : List String) → redact_argv next argv ≡ mask_after next argv
unfolding redact_argv mask_after
redact_argv_lem next List.[] = refl
redact_argv_lem true (List.◌∷◌ word words) = rw (redact_argv_lem false words) refl
redact_argv_lem false (List.◌∷◌ word words) =
    rw (token_shown word, redact_argv_lem (is_sensitive_flag_name word) words) refl
