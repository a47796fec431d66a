-- ===== src/Redaction/Secret.antt =====
-- That the redactions of redaction.py do not depend on what they hide.
use anomaly_metric_creator.Base.{
  String, ◌≡◌, refl, ap, ap₂, Bool, true, false, not, List, [], ◌∷◌, contains, if◌then◌else◌,
  string_eq,
}
use anomaly_metric_creator.Base.Dict.{Dict}
use anomaly_metric_creator.Base.Text.{lower}
use anomaly_metric_creator.Redaction.{
  sensitive_header_names, safe_response_header_names, schemed_sensitive_headers, scheme,
  masked_value, mask_sensitive_value, masked_headers, redact_sensitive_headers,
}

-- What the mask tells of a value: its scheme where the header has one.
abbrev pub AlikeMasked : Bool → String → String → Type 0
AlikeMasked true v w = scheme v ≡ scheme w
AlikeMasked false v w = Unit

-- Two values of a header that is shown are the same, and two of one that is masked need only agree
-- in their schemes.
abbrev pub AlikeValue : Bool → String → String → String → Type 0
AlikeValue true name v w = v ≡ w
AlikeValue false name v w = AlikeMasked (contains (lower name) schemed_sensitive_headers) v w

-- The same headers in the same order, with values that are alike.
pub data Alike (shown : String → Bool)
    : List (String × String) → List (String × String) → Type 0 where
  none_left : Alike shown [] []
  header :
      (name v w : String) {p q : List (String × String)}
      → AlikeValue (shown name) name v w
      → Alike shown p q
      → Alike shown ((name, v) ∷ p) ((name, w) ∷ q)

masked_alike :
    (schemed : Bool) (v w : String)
    → AlikeMasked schemed v w
    → masked_value schemed (scheme v) ≡ masked_value schemed (scheme w)
masked_alike true v w h = ap (masked_value true) h
masked_alike false v w h = refl

mask_alike :
    (name v w : String)
    → AlikeMasked (contains (lower name) schemed_sensitive_headers) v w
    → mask_sensitive_value name v ≡ mask_sensitive_value name w
unfolding mask_sensitive_value
mask_alike name v w h = masked_alike (contains (lower name) schemed_sensitive_headers) v w h

value_alike :
    (shown : Bool) (name v w : String)
    → AlikeValue shown name v w
    → (if shown then v else mask_sensitive_value name v)
      ≡ (if shown then w else mask_sensitive_value name w)
value_alike true name v w h = h
value_alike false name v w h = mask_alike name v w h

abbrev pub is_safe : String → Bool
is_safe name = contains (lower name) safe_response_header_names

abbrev pub is_unlisted : String → Bool
is_unlisted name = not (contains (lower name) sensitive_header_names)

-- What is logged of an untrusted response does not depend on the value of any header that is not on
-- the list of safe ones, but for the scheme of the two headers that have one.
pub redact_sensitive_headers-Alike :
    (p q : List (String × String))
    → Alike is_safe p q
    → redact_sensitive_headers p ≡ redact_sensitive_headers q
unfolding redact_sensitive_headers
redact_sensitive_headers-Alike p q none_left = refl
redact_sensitive_headers-Alike p q (header name v w {p = p'} {q = q'} h k) =
    ap₂ (λ a l. (name, a) ∷ l) (value_alike (is_safe name) name v w h)
      (redact_sensitive_headers-Alike p' q' k)

not_alike :
    (listed : Bool) (name v w : String)
    → AlikeValue (not listed) name v w
    → (if listed then mask_sensitive_value name v else v)
      ≡ (if listed then mask_sensitive_value name w else w)
not_alike true name v w h = mask_alike name v w h
not_alike false name v w h = h

-- What is logged of a request does not depend on the values of its sensitive headers, but for the
-- scheme of the two headers that have one.
pub masked_headers-Alike :
    (p q : Dict String) → Alike is_unlisted p q → masked_headers p ≡ masked_headers q
unfolding masked_headers
masked_headers-Alike p q none_left = refl
masked_headers-Alike p q (header name v w {p = p'} {q = q'} h k) =
    ap₂ (λ a l. (name, a) ∷ l) (not_alike (contains (lower name) sensitive_header_names) name v w h)
      (masked_headers-Alike p' q' k)
