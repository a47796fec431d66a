-- ===== src/Topology/Sorting.antt =====
-- Sorting the names of components keeps which they are.
use anomaly_metric_creator.Base.{
  String, ℕ, suc, ◌≡◌, refl, ap, ◌∙◌, true, false, ◌||◌, List, [], ◌∷◌, some, contains, ltb, ◌==◌,
  string_eq, nat_eq, arith, Bool-cases, inl, inr,
}
use anomaly_metric_creator.Exec.{ok, bind_result}
use anomaly_metric_creator.Topology.{index_of, insert_by_index, sorted_pairs, names_of}
use anomaly_metric_creator.Topology.Rounds.{Distinct}

-- Each name is a component's.
abbrev pub Known : List String → List String → Type 0
Known components cs = (c : String) → contains c cs ≡ true → contains c components ≡ true

index_of-contains :
    (c : String) (xs : List String) → contains c xs ≡ true → (i : ℕ) × (index_of c xs ≡ some i)
unfolding index_of
index_of-contains c [] h = ground arith
index_of-contains c (x ∷ xs) h = elim (Bool-cases (x == c)) [
  | inl e ↦ (0, rw e refl)
  | inr e ↦ let (i, k) = index_of-contains c xs (ground (arith, e, h)) in (suc i, rw (e, k) refl)
]

contains-insert_by_index :
    (n : String) (i : ℕ) (c : String) (l : List (ℕ × String))
    → contains n (names_of (insert_by_index (i, c) l)) ≡ (n == c || contains n (names_of l))
unfolding insert_by_index
contains-insert_by_index n i c [] = refl
contains-insert_by_index n i c ((j, d) ∷ l) = ground (arith, contains-insert_by_index n i c l)

Distinct-insert_by_index :
    (i : ℕ) (c : String) (l : List (ℕ × String))
    → contains c (names_of l) ≡ false
    → Distinct (names_of l)
    → Distinct (names_of (insert_by_index (i, c) l))
unfolding insert_by_index
Distinct-insert_by_index i c [] h d = (refl, tt)
Distinct-insert_by_index i c ((j, n) ∷ l) h d = elim (Bool-cases (ltb j i)) [
  | inl e ↦ rw e (
    ground (arith, contains-insert_by_index n i c l),
    Distinct-insert_by_index i c l (ground arith) d.1,
  )
  | inr e ↦ rw e (h, d)
]

sorted_pairs-cons :
    (components : List String) (c : String) (cs : List String) (i : ℕ) (l : List (ℕ × String))
    → index_of c components ≡ some i
    → sorted_pairs components cs ≡ ok l
    → sorted_pairs components (c ∷ cs) ≡ ok (insert_by_index (i, c) l)
unfolding sorted_pairs bind_result
sorted_pairs-cons components c cs i l j e = ground arith

-- The names are sorted without a KeyError, and are the same.
pub sorted_pairs-Known :
    (components cs : List String)
    → Known components cs
    → Distinct cs
    → (l : List (ℕ × String)) × (sorted_pairs components cs ≡ ok l)
      × ((n : String) → contains n (names_of l) ≡ contains n cs)
      × Distinct (names_of l)
unfolding sorted_pairs bind_result
sorted_pairs-Known components [] k d = ([], refl, (λ n. refl), tt)
sorted_pairs-Known components (c ∷ cs) k d =
    let (l, e, same, distinct) =
      sorted_pairs-Known components cs (λ n h. k n (ground (arith, h))) d.1 in
    let (i, j) = index_of-contains c components (k c (ground arith)) in
    (
      insert_by_index (i, c) l,
      sorted_pairs-cons components c cs i l j e,
      (λ n. contains-insert_by_index n i c l ∙ ap (λ b. n == c || b) (same n)),
      Distinct-insert_by_index i c l (same c ∙ d.0) distinct,
    )
