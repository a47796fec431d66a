-- ===== src/KubeApi/Paths.antt =====
-- The paths of the objects that a request of the Kubernetes API may change.
use Prim.Native.String.{String, [], ◌∷◌, ◌++◌}
use text.Mathlib.TextLemmas.{nil-append, cons-append, append-nil}
use mathlib.Core.List.{List}
use anomaly_metric_creator.Base.{
  ◌≡◌, refl, ap, sym, ◌∙◌, Bool, true, not, ◌&&◌, some, nat_eq, string_eq, arith,
}
use anomaly_metric_creator.Base.Text.{is_empty, split_at, strip_right_char, join}
use anomaly_metric_creator.OpsParse.Split.{non_empty}
use anomaly_metric_creator.Selectors.Plain.{lacks}
use anomaly_metric_creator.KubeApi.{
  strip_left_char, path_parts, MutationTarget, target_of_parts, mutation_target,
}

-- A part of a path: not empty, and without a slash.
abbrev pub is_segment : String → Bool
is_segment s = not (is_empty s) && lacks b'/' s

abbrev all_segments : List String → Bool
all_segments List.[] = true
all_segments (List.◌∷◌ p ps) = is_segment p && all_segments ps

abbrev pub url : List String → String
url List.[] = []
url (List.◌∷◌ p ps) = "/" ∷ (p ++ url ps)

strip_right_char-append :
    (p t : String)
    → lacks b'/' p ≡ true
    → strip_right_char b'/' t ≡ t
    → strip_right_char b'/' (p ++ t) ≡ p ++ t
unfolding strip_right_char
strip_right_char-append [] t h e = rw (nil-append t) e
strip_right_char-append (c ∷ p) t h e =
    rw (cons-append c p t) (ground (arith, h, strip_right_char-append p t (ground (arith, h)) e))

strip_right_char-url :
    (ps : List String) → all_segments ps ≡ true → strip_right_char b'/' (url ps) ≡ url ps
unfolding strip_right_char is_empty
strip_right_char-url List.[] h = refl
strip_right_char-url (List.◌∷◌ [] ps) h = absurd (cc)
strip_right_char-url (List.◌∷◌ (c ∷ p) ps) h =
    let rest =
      strip_right_char-append (c ∷ p) (url ps) (ground (arith, h))
        (strip_right_char-url ps (ground (arith, h))) in
    rw (rest, cons-append c p (url ps)) (ground arith)

strip_left_char-url :
    (p t : String) → is_segment p ≡ true → strip_left_char b'/' ("/" ∷ (p ++ t)) ≡ p ++ t
unfolding strip_left_char is_empty
strip_left_char-url [] t h = absurd (cc)
strip_left_char-url (c ∷ p) t h = rw (cons-append c p t) (ground (arith, h))

split_at-last : (p : String) → lacks b'/' p ≡ true → split_at b'/' p ≡ List.◌∷◌ p List.[]
unfolding split_at
split_at-last [] h = refl
split_at-last (c ∷ p) h = ground (arith, h, split_at-last p)

split_at-next :
    (p t : String)
    → lacks b'/' p ≡ true
    → split_at b'/' (p ++ ("/" ∷ t)) ≡ List.◌∷◌ p (split_at b'/' t)
unfolding split_at
split_at-next [] t h = rw (nil-append ("/" ∷ t)) (ground arith)
split_at-next (c ∷ p) t h = rw (cons-append c p ("/" ∷ t)) (ground (arith, h, split_at-next p t))

split_at-url :
    (p : String) (ps : List String)
    → lacks b'/' p ≡ true
    → all_segments ps ≡ true
    → split_at b'/' (p ++ url ps) ≡ List.◌∷◌ p ps
split_at-url p List.[] h g = rw (append-nil p) (split_at-last p h)
split_at-url p (List.◌∷◌ q ps) h g =
    split_at-next p (q ++ url ps) h
    ∙ ap (λ l. List.◌∷◌ p l) (split_at-url q ps (ground (arith, g)) (ground (arith, g)))

non_empty-segments : (ps : List String) → all_segments ps ≡ true → non_empty ps ≡ ps
unfolding non_empty
non_empty-segments List.[] h = refl
non_empty-segments (List.◌∷◌ p ps) h = ground (arith, h, non_empty-segments ps)

path_parts-empty : path_parts "" ≡ List.[]
unfolding path_parts strip_left_char strip_right_char split_at non_empty is_empty
path_parts-empty = refl

path_parts-url : (ps : List String) → all_segments ps ≡ true → path_parts (url ps) ≡ ps
unfolding path_parts
path_parts-url List.[] h = path_parts-empty
path_parts-url (List.◌∷◌ p ps) h =
    rw
      (
        strip_right_char-url (List.◌∷◌ p ps) h,
        strip_left_char-url p (url ps) (ground (arith, h)),
        split_at-url p ps (ground (arith, h)) (ground (arith, h)),
      )
      (non_empty-segments (List.◌∷◌ p ps) h)

-- The parts of the path of a target: without a name that of a collection.
abbrev tail_of : String → String → List String
tail_of [] subresource = List.[]
tail_of (c ∷ name) [] = List.◌∷◌ (c ∷ name) List.[]
tail_of (c ∷ name) (d ∷ subresource) = List.◌∷◌ (c ∷ name) (List.◌∷◌ (d ∷ subresource) List.[])

abbrev parts_under : String → String → List String → List String
parts_under [] version rest = List.◌∷◌ "api" (List.◌∷◌ version (List.◌∷◌ "namespaces" rest))
parts_under (c ∷ group) version rest =
    List.◌∷◌ "apis" (List.◌∷◌ (c ∷ group) (List.◌∷◌ version (List.◌∷◌ "namespaces" rest)))

abbrev pub parts_of : MutationTarget → List String
parts_of t =
    parts_under t.group t.version
      (List.◌∷◌ t.namespace (List.◌∷◌ t.resource (tail_of t.name t.subresource)))

-- A target that a path can name: the core group has the version v1 only, a subresource is that of a
-- named object, and nothing follows it.
pub record IsAddress (t : MutationTarget) : Type 0 where
  pub segments : all_segments (parts_of t) ≡ true
  pub core_version : t.group ≡ "" → t.version ≡ "v1"
  pub named : t.name ≡ "" → t.subresource ≡ ""
  pub ended : t.extra ≡ ""

target_at : String → String → String → String → String → String → MutationTarget
target_at group version namespace resource name subresource = record {
  group = group;
  version = version;
  namespace = namespace;
  resource = resource;
  name = name;
  subresource = subresource;
  extra = "";
}

target_of_parts-parts_of :
    (group version namespace resource name subresource : String)
    → (group ≡ "" → version ≡ "v1")
    → (name ≡ "" → subresource ≡ "")
    → target_of_parts (parts_of (target_at group version namespace resource name subresource))
      ≡ some (target_at group version namespace resource name subresource)
unfolding target_of_parts target_at join string_eq
target_of_parts-parts_of [] version namespace resource [] sub h g = rw (h refl, g refl) refl
target_of_parts-parts_of [] version namespace resource (c ∷ name) [] h g = rw (h refl) refl
target_of_parts-parts_of [] version namespace resource (c ∷ name) (d ∷ sub) h g = rw (h refl) refl
target_of_parts-parts_of (b ∷ group) version namespace resource [] sub h g = rw (g refl) refl
target_of_parts-parts_of (b ∷ group) version namespace resource (c ∷ name) [] h g = refl
target_of_parts-parts_of (b ∷ group) version namespace resource (c ∷ name) (d ∷ sub) h g = refl

-- The path of a target, whose segments are not empty and have no slash, is taken apart into the
-- target again.
pub mutation_target-url :
    (t : MutationTarget) → IsAddress t → mutation_target (url (parts_of t)) ≡ some t
unfolding mutation_target target_at
mutation_target-url t a =
    ap target_of_parts (path_parts-url (parts_of t) a.segments)
    ∙ target_of_parts-parts_of t.group t.version t.namespace t.resource t.name t.subresource
        a.core_version a.named
    ∙ ap (λ e. some (record t { extra = e })) (sym a.ended)
