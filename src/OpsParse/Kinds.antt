-- ===== src/OpsParse/Kinds.antt =====
-- Which targets of `kubectl explain` server_ops_parse.py takes apart.
use Prim.Native.String.{[], ◌∷◌}
use Prim.Native.Char.{Char, code}
use anomaly_metric_creator.Base.{
  String, ◌≡◌, refl, Bool, true, false, not, ◌&&◌, List, Option, none, some, ◌==◌, nat_eq,
  string_eq, arith, Bool-cases, inl, inr,
}
use anomaly_metric_creator.Base.Text.{is_empty, split_at, join}
use anomaly_metric_creator.Exec.{Result, ok, err, index_error}
use anomaly_metric_creator.OpsParse.Split.{non_empty}
use anomaly_metric_creator.OpsParse.Targets.{
  normalize_explain_resource, explain_prefix, explain_found, split_explain_target,
}

all_dots : String → Bool
all_dots [] = true
all_dots (c ∷ s) = code c == b'.' && all_dots s

-- A target that is not empty and has no part between its dots.
pub is_dots : String → Bool
unfolding is_empty all_dots
is_dots s = not (is_empty s) && all_dots s

no_parts : (s : String) → all_dots s ≡ true → non_empty (split_at b'.' s) ≡ List.[]
unfolding all_dots split_at non_empty is_empty
no_parts [] h = refl
no_parts (c ∷ s) h = ground (arith, h, no_parts s)

HasParts : List String → Type 0
HasParts l = (p : String) × (ps : List String) × (l ≡ List.◌∷◌ p ps)

-- A character that is no dot begins a part, whatever the parts after it are.
longer_part :
    (c : Char) (rest : List String)
    → HasParts (
        non_empty
          (elim rest [ List.[] ↦ List.◌∷◌ (c ∷ []) List.[] | List.◌∷◌ p ps ↦ List.◌∷◌ (c ∷ p) ps ]))
unfolding non_empty is_empty HasParts
longer_part c List.[] = (c ∷ [], List.[], refl)
longer_part c (List.◌∷◌ p ps) = (c ∷ p, non_empty ps, refl)

has_parts : (s : String) → all_dots s ≡ false → HasParts (non_empty (split_at b'.' s))
unfolding all_dots split_at non_empty
has_parts [] h = absurd (cc)
has_parts (c ∷ s) h = elim (Bool-cases (code c == b'.')) [
  | inl e ↦ rw (e, split_at) (has_parts s (ground (arith, e, h)))
  | inr e ↦ rw (e, split_at) (longer_part c (split_at b'.' s))
]

abbrev pub Explains : Result (String × String) → Type 0
Explains r = (kind : String) × (path : String) × (r ≡ ok (kind, path))

found-Explains :
    (o : Option (String × String)) (parts : List String)
    → HasParts parts
    → Explains (explain_found o parts)
unfolding explain_found HasParts
found-Explains (some (kind, path)) parts h = (kind, path, refl)
found-Explains none parts (p, ps, e) =
    rw (e, explain_found) (normalize_explain_resource p, join "." ps, refl)

-- `kubectl explain` takes every target apart but one of dots alone, which raises an IndexError.
pub split_explain_target-raises :
    (target : String)
    → (is_dots target ≡ true → split_explain_target target ≡ err index_error)
      × (is_dots target ≡ false → Explains (split_explain_target target))
unfolding split_explain_target is_dots explain_prefix explain_found
split_explain_target-raises [] = ((λ h. absurd (cc)), λ h. ("", "", refl))
split_explain_target-raises (c ∷ s) =
    (λ h. rw (no_parts (c ∷ s) h) refl, λ h. found-Explains _ _ (has_parts (c ∷ s) h))
