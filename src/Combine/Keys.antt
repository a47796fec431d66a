-- ===== src/Combine/Keys.antt =====
-- A timestamp, and how many earlier rows of the file have it: the keys of combine_impl.py.
use anomaly_metric_creator.Base.{
  String, ℕ, ◌+◌, ◌≡◌, sym, ap, ◌∙◌, Bool, true, false, ◌&&◌, ◌||◌, Option, none, some, ltb, ◌==◌,
  string_eq, nat_eq, if◌then◌else◌, arith, Bool-cases, inl, inr,
}
use mathlib.Core.Bool.{true≢false}
use anomaly_metric_creator.Base.Dict.{text_lt, text_lt_irrefl}
use anomaly_metric_creator.Base.TextOrder.{text_lt_trans, text_lt_total}

abbrev pub Key : Type 0
Key = String × ℕ

-- Tuples by `<` and `==`.
abbrev pub key_lt : Key → Key → Bool
key_lt (t, m) (u, n) = text_lt t u || (t == u && ltb m n)

abbrev pub key_eq : Key → Key → Bool
key_eq (t, m) (u, n) = t == u && m == n

-- The occurrence of a row after one with the timestamp `previous`.
abbrev pub next_occurrence : Option String → ℕ → String → ℕ
next_occurrence none occurrence t = 0
next_occurrence (some previous) occurrence t = if t == previous then occurrence + 1 else 0

abbrev pub steps_back : Option Key → Key → Bool
steps_back none k = false
steps_back (some previous) k = key_lt k previous

pub key_eq_refl : (k : Key) → key_eq k k ≡ true
key_eq_refl (t, m) = ground arith

pub eq_of_key_eq : (j k : Key) → key_eq j k ≡ true → j ≡ k
eq_of_key_eq (t, m) (u, n) h = ground arith

pub key_lt_irrefl : (k : Key) → key_lt k k ≡ false
key_lt_irrefl (t, m) = ground (arith, text_lt_irrefl t)

pub key_lt_trans : (i j k : Key) → key_lt i j ≡ true → key_lt j k ≡ true → key_lt i k ≡ true
key_lt_trans (s, l) (t, m) (u, n) h k = ground (arith, text_lt_trans s t u)

pub key_lt_total : (j k : Key) → key_lt j k ≡ false → key_lt k j ≡ false → j ≡ k
key_lt_total (t, m) (u, n) h k = ground (arith, text_lt_total t u, text_lt_irrefl t)

pub key_lt_asym : (j k : Key) → key_lt j k ≡ true → key_lt k j ≡ false
key_lt_asym j k h = elim (Bool-cases (key_lt k j)) [
  | inl e ↦ absurd (true≢false (sym (key_lt_trans j k j h e) ∙ key_lt_irrefl j))
  | inr e ↦ e
]

pub key_lt-ne : (j k : Key) → key_lt j k ≡ true → key_eq j k ≡ false
key_lt-ne j k h = elim (Bool-cases (key_eq j k)) [
  | inl e ↦
      absurd (true≢false (sym h ∙ ap (λ i. key_lt i k) (eq_of_key_eq j k e) ∙ key_lt_irrefl k))
  | inr e ↦ e
]

pub key_eq_sym : (j k : Key) → key_eq j k ≡ key_eq k j
key_eq_sym (t, m) (u, n) = ground arith

-- `j` is not after `i`, and `k` is after `j`.
pub key_lt-of-not-lt : (i j k : Key) → key_lt j i ≡ false → key_lt j k ≡ true → key_lt i k ≡ true
key_lt-of-not-lt i j k h l = elim (Bool-cases (key_lt i j)) [
  | inl e ↦ key_lt_trans i j k e l
  | inr e ↦ rw (key_lt_total i j e h) l
]

pub not-lt_trans : (i j k : Key) → key_lt j i ≡ false → key_lt k j ≡ false → key_lt k i ≡ false
not-lt_trans i j k h l = elim (Bool-cases (key_lt k i)) [
  | inl e ↦ absurd (true≢false (sym (key_lt-of-not-lt j k i l e) ∙ h))
  | inr e ↦ e
]

-- `i` is before `j`, and `k` is not before `j`.
pub key_lt-not-before : (i j k : Key) → key_lt i j ≡ true → key_lt k j ≡ false → key_lt i k ≡ true
key_lt-not-before i j k h l = elim (Bool-cases (key_lt j k)) [
  | inl e ↦ key_lt_trans i j k h e
  | inr e ↦ rw (← key_lt_total j k e l) h
]

pub key_eq-other : (i j k : Key) → key_eq i j ≡ false → key_eq i k ≡ true → key_eq j k ≡ false
key_eq-other i j k h l = key_eq_sym j k ∙ ap (λ m. key_eq m j) (sym (eq_of_key_eq i k l)) ∙ h

-- Keys that are equal compare alike.
pub key_eq-same : (i j k : Key) → key_eq i j ≡ true → key_eq i k ≡ key_eq j k
key_eq-same i j k h = ap (λ m. key_eq m k) (eq_of_key_eq i j h)

pub key_lt-otherwise : (j k : Key) → key_lt k j ≡ false → key_eq k j ≡ false → key_lt j k ≡ true
key_lt-otherwise j k h l = elim (Bool-cases (key_lt j k)) [
  | inl e ↦ e
  | inr e ↦
      absurd (true≢false (sym (key_eq_refl k) ∙ ap (key_eq k) (sym (key_lt_total j k e h)) ∙ l))
]
