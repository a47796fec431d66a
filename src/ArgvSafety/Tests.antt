-- ===== src/ArgvSafety/Tests.antt =====
-- A mistyped flag with a secret after it.
use anomaly_metric_creator.Base.{
  String, ◌≡◌, refl, true, false, List, [], ◌∷◌, contains, string_eq, nat_eq,
}
use anomaly_metric_creator.Base.Dict.{sorted_texts, set_add, text_lt}
use anomaly_metric_creator.Base.Text.{has_part, starts_with, before, strip_dashes}
use anomaly_metric_creator.ArgvSafety.{flag_names, is_negative_number}
use anomaly_metric_creator.ArgvSafety.Origin.{IsFlagOf, flag_names-IsFlagOf}

abbrev tokens : List String
tokens = "--auth-tokn" ∷ "-s3cret" ∷ "--seed" ∷ "-1" ∷ "--key=s3cret" ∷ "--" ∷ "-x" ∷ []

names : flag_names tokens ≡ "--auth-tokn" ∷ "--key" ∷ []
unfolding flag_names string_eq nat_eq is_negative_number has_part starts_with before strip_dashes
    sorted_texts set_add text_lt
names = refl

shown : contains "--key" (flag_names tokens) ≡ true
unfolding string_eq
shown = rw names refl

flag_names-IsFlagOf_example : IsFlagOf false tokens "--key"
flag_names-IsFlagOf_example = flag_names-IsFlagOf tokens "--key" shown
