-- ===== src/Base/Dict.antt =====
-- Python's dict with text keys, in insertion order, and set as a list without repetition.
-- Proofs elsewhere go by the laws; only tests unfold the operations.
use Prim.Native.String.{String, compare}
use mathlib.Core.Path.{◌≡◌, refl, ap}
use mathlib.Core.Bool.{Bool, false, ◌||◌}
use mathlib.Core.Option.{Option, none, some}
use mathlib.Core.List.{List, [], ◌∷◌, ◌++◌}
use native.Mathlib.Omega.{arith}
use text.Mathlib.Text.{is_lt}
use text.Mathlib.TextPositions.{compare_refl}
use anomaly_metric_creator.Base.Equality.{◌==◌, string_eq, if◌then◌else◌, contains}

abbrev pub Dict {ℓ} : Type ℓ → Type ℓ
Dict V = List (String × V)

-- `a < b` on texts: by code points, first difference first.
unfoldable pub text_lt : String → String → Bool
text_lt a b = is_lt (compare a b)

pub text_lt_irrefl : (a : String) → text_lt a a ≡ false
unfolding text_lt
text_lt_irrefl a = ap is_lt (compare_refl a)

module _ {ℓ} {V : Type ℓ} where
  unfoldable pub lookup : String → Dict V → Option V
  lookup k [] = none
  lookup k ((j, v) ∷ d) = if j == k then some v else lookup k d

  -- `d[k] = v`: in place, or at the end.
  unfoldable pub insert : String → V → Dict V → Dict V
  insert k v [] = (k, v) ∷ []
  insert k v ((j, w) ∷ d) = if j == k then (j, v) ∷ d else (j, w) ∷ insert k v d

  -- `d.pop(k, None)`. Every entry of the key goes; a real dict has at most one.
  unfoldable pub erase : String → Dict V → Dict V
  erase k [] = []
  erase k ((j, w) ∷ d) = let rest = erase k d in if j == k then rest else (j, w) ∷ rest

  -- `d.setdefault(k, v)`, as the value found and the dict.
  unfoldable pub get_or : String → V → Dict V → V
  get_or k v d = elim (lookup k d) [ none ↦ v | some w ↦ w ]

  -- `sorted(d.items())` where the keys differ.
  unfoldable pub insert_sorted : String × V → Dict V → Dict V
  insert_sorted (k, v) [] = (k, v) ∷ []
  insert_sorted (k, v) ((j, w) ∷ d) =
      let rest = (j, w) ∷ insert_sorted (k, v) d in
      if text_lt j k then rest else (k, v) ∷ (j, w) ∷ d

  unfoldable pub sorted_items : Dict V → Dict V
  unfolding insert_sorted
  sorted_items [] = []
  sorted_items (e ∷ d) = insert_sorted e (sorted_items d)

  pub lookup-nil : (k : String) → lookup k [] ≡ none
  unfolding lookup
  lookup-nil k = refl

  pub lookup-cons :
      (j k : String) (v : V) (d : Dict V)
      → lookup j ((k, v) ∷ d) ≡ (if k == j then some v else lookup j d)
  unfolding lookup
  lookup-cons j k v d = refl

  pub lookup-insert :
      (j k : String) (v : V) (d : Dict V)
      → lookup j (insert k v d) ≡ (if k == j then some v else lookup j d)
  unfolding insert lookup
  lookup-insert j k v [] = refl
  lookup-insert j k v (_ ∷ d) = ground (arith, lookup-insert j k v d)

  pub get_or-nil : (k : String) (v : V) → get_or k v [] ≡ v
  unfolding get_or lookup
  get_or-nil k v = refl

  pub get_or-insert :
      (j k : String) (n v : V) (d : Dict V)
      → get_or j n (insert k v d) ≡ (if k == j then v else get_or j n d)
  unfolding get_or
  get_or-insert j k n v d = ground (arith, lookup-insert j k v d)

  pub lookup-erase :
      (j k : String) (d : Dict V) → lookup j (erase k d) ≡ (if k == j then none else lookup j d)
  unfolding erase lookup
  lookup-erase j k [] = ground arith
  lookup-erase j k (_ ∷ d) = ground (arith, lookup-erase j k d)

  pub lookup-insert_sorted :
      (j k : String) (v : V) (d : Dict V)
      → lookup j (insert_sorted (k, v) d) ≡ (if k == j then some v else lookup j d)
  unfolding insert_sorted lookup
  lookup-insert_sorted j k v [] = refl
  lookup-insert_sorted j k v ((i, w) ∷ d) =
      ground (arith, lookup-insert_sorted j k v d, text_lt_irrefl k)

  -- Sorting leaves every lookup as it is.
  pub lookup-sorted_items : (j : String) (d : Dict V) → lookup j (sorted_items d) ≡ lookup j d
  unfolding sorted_items
  lookup-sorted_items j [] = refl
  lookup-sorted_items j ((k, v) ∷ d) =
      rw (lookup-insert_sorted, lookup-sorted_items j d, lookup-cons)

-- Sets of texts, as lists without repetition.
unfoldable pub set_add : String → List String → List String
set_add x xs = if contains x xs then xs else xs ++ x ∷ []

-- `s.discard(x)`.
unfoldable pub set_discard : String → List String → List String
set_discard x [] = []
set_discard x (y ∷ ys) = let rest = set_discard x ys in if y == x then rest else y ∷ rest

unfoldable pub insert_text : String → List String → List String
insert_text x [] = x ∷ []
insert_text x (y ∷ ys) = let rest = y ∷ insert_text x ys in if text_lt y x then rest else x ∷ y ∷ ys

-- `sorted(s)`.
unfoldable pub sorted_texts : List String → List String
unfolding insert_text
sorted_texts [] = []
sorted_texts (x ∷ xs) = insert_text x (sorted_texts xs)

contains-concat :
    (x y : String) (xs : List String) → contains y (xs ++ x ∷ []) ≡ (y == x || contains y xs)
contains-concat x y [] = refl
contains-concat x y (z ∷ zs) = ground (arith, contains-concat x y zs)

pub contains-set_add :
    (x y : String) (xs : List String) → contains y (set_add x xs) ≡ (y == x || contains y xs)
unfolding set_add
contains-set_add x y xs = ground (arith, contains-concat x y xs)

pub contains-set_discard :
    (x y : String) (xs : List String)
    → contains y (set_discard x xs) ≡ (if y == x then false else contains y xs)
unfolding set_discard
contains-set_discard x y [] = ground arith
contains-set_discard x y (z ∷ zs) = ground (arith, contains-set_discard x y zs)

contains-insert_text :
    (x y : String) (ys : List String) → contains y (insert_text x ys) ≡ (y == x || contains y ys)
unfolding insert_text
contains-insert_text x y [] = refl
contains-insert_text x y (z ∷ zs) = ground (arith, contains-insert_text x y zs)

pub contains-sorted_texts :
    (y : String) (xs : List String) → contains y (sorted_texts xs) ≡ contains y xs
unfolding sorted_texts
contains-sorted_texts y [] = refl
contains-sorted_texts y (x ∷ xs) = rw (contains-insert_text, contains-sorted_texts y xs)
