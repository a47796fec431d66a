-- ===== src/Redaction/Tests.antt =====
-- Headers of a response and a request with two different secrets.
use anomaly_metric_creator.Base.{String, ◌≡◌, refl, List, [], ◌∷◌, string_eq, nat_eq}
use anomaly_metric_creator.Base.Text.{lower, split_once}
use anomaly_metric_creator.Redaction.{redact_sensitive_headers, mask_sensitive_value}
use anomaly_metric_creator.Redaction.Secret.{
  Alike, is_safe, is_unlisted, redact_sensitive_headers-Alike,
}

abbrev response : String → List (String × String)
response secret = ("Date", "Mon") ∷ ("X-Vault-Token", secret) ∷ []

responses-Alike : Alike is_safe (response "one") (response "two")
unfolding lower string_eq nat_eq
responses-Alike = Alike.header _ _ _ refl (Alike.header _ _ _ tt Alike.none_left)

redact_sensitive_headers-Alike_example :
    redact_sensitive_headers (response "one") ≡ redact_sensitive_headers (response "two")
redact_sensitive_headers-Alike_example =
    redact_sensitive_headers-Alike (response "one") (response "two") responses-Alike

abbrev request : String → List (String × String)
request value = ("Content-Type", "json") ∷ ("Authorization", value) ∷ []

requests-Alike : Alike is_unlisted (request "Bearer one") (request "Bearer two")
unfolding lower string_eq nat_eq split_once
requests-Alike = Alike.header _ _ _ refl (Alike.header _ _ _ refl Alike.none_left)

keeps_scheme : mask_sensitive_value "Authorization" "Bearer s3cret" ≡ "Bearer ***"
unfolding mask_sensitive_value lower string_eq nat_eq split_once
keeps_scheme = refl
