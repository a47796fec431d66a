-- ===== src/Traces/ById.antt =====
-- The rows of one id under each of the statements.
use anomaly_metric_creator.Base.{
  ◌≡◌, refl, sym, ap, ◌∙◌, true, false, List, [], ◌∷◌, ◌++◌, keep, ℤ, nat_eq, if◌then◌else◌, arith,
  Bool-cases, if-elim, inl, inr,
}
use anomaly_metric_creator.Traces.Trace.{CommandTrace, lt_ℤ, eq_ℤ}
use anomaly_metric_creator.Traces.Table.{upsert, from_id, without_id}
use anomaly_metric_creator.Traces.Order.{Above, Ascending}

-- The rows of one id.
abbrev pub at_id : ℤ → List CommandTrace → List CommandTrace
at_id i = keep (λ t. eq_ℤ t.id i)

pub at_id-append :
    (i : ℤ) (ts us : List CommandTrace) → at_id i (ts ++ us) ≡ at_id i ts ++ at_id i us
at_id-append i [] us = refl
at_id-append i (t ∷ ts) us = ground (arith, at_id-append i ts us)

eq_ℤ-same : (a b i : ℤ) → eq_ℤ a b ≡ true → eq_ℤ a i ≡ eq_ℤ b i
eq_ℤ-same a b i h = ground arith

pub eq_ℤ-other : (a b i : ℤ) → eq_ℤ a b ≡ false → eq_ℤ b i ≡ true → eq_ℤ a i ≡ false
eq_ℤ-other a b i h k = ground arith

at_id-cons :
    (i : ℤ) (t : CommandTrace) (ts us : List CommandTrace)
    → at_id i ts ≡ at_id i us
    → at_id i (t ∷ ts) ≡ at_id i (t ∷ us)
at_id-cons i t ts us h = ap (λ l. if eq_ℤ t.id i then t ∷ l else l) h

pub at_id-skip :
    (i : ℤ) (t : CommandTrace) (ts : List CommandTrace)
    → eq_ℤ t.id i ≡ false
    → at_id i (t ∷ ts) ≡ at_id i ts
at_id-skip i t ts h = rw h refl

pub without_id-same :
    (i j : ℤ) (ts : List CommandTrace) → eq_ℤ j i ≡ true → at_id i (without_id j ts) ≡ []
without_id-same i j [] h = refl
without_id-same i j (t ∷ ts) h = elim (Bool-cases (eq_ℤ t.id j)) [
  | inl e ↦ rw e (without_id-same i j ts h)
  | inr e ↦ rw e (at_id-skip i t _ (eq_ℤ-other t.id j i e h) ∙ without_id-same i j ts h)
]

pub without_id-other :
    (i j : ℤ) (ts : List CommandTrace) → eq_ℤ j i ≡ false → at_id i (without_id j ts) ≡ at_id i ts
without_id-other i j [] h = refl
without_id-other i j (t ∷ ts) h = elim (Bool-cases (eq_ℤ t.id j)) [
  | inl e ↦ rw e (without_id-other i j ts h ∙ sym (at_id-skip i t ts (eq_ℤ-same t.id j i e ∙ h)))
  | inr e ↦ rw e (at_id-cons i t (without_id j ts) ts (without_id-other i j ts h))
]

pub at_id-from_id :
    (i m : ℤ) (ts : List CommandTrace)
    → at_id i (from_id m ts) ≡ (if lt_ℤ i m then [] else at_id i ts)
at_id-from_id i m [] = ground arith
at_id-from_id i m (t ∷ ts) = ground (arith, at_id-from_id i m ts)

at_id-Above : (i j : ℤ) (ts : List CommandTrace) → lt_ℤ j i ≡ false → Above j ts → at_id i ts ≡ []
at_id-Above i j [] h k = refl
at_id-Above i j (t ∷ ts) h k = ground (arith, k.0, at_id-Above i j ts h k.1)

at_id-eq-Above :
    (i : ℤ) (r : CommandTrace) (rows : List CommandTrace)
    → eq_ℤ r.id i ≡ true
    → Above r.id rows
    → at_id i rows ≡ []
at_id-eq-Above i r rows h k = at_id-Above i r.id rows (ground arith) k

pub at_id-found :
    (i : ℤ) (t : CommandTrace) (ts : List CommandTrace)
    → eq_ℤ t.id i ≡ true
    → at_id i (t ∷ ts) ≡ t ∷ at_id i ts
at_id-found i t ts h = rw h refl

-- Below the first row there is none of an id that is smaller.
at_id-below :
    (i : ℤ) (t r : CommandTrace) (rows : List CommandTrace)
    → eq_ℤ t.id i ≡ true
    → lt_ℤ t.id r.id ≡ true
    → Above r.id rows
    → at_id i (r ∷ rows) ≡ []
at_id-below i t r rows h e k =
    at_id-skip i r rows (ground arith) ∙ at_id-Above i r.id rows (ground arith) k

pub upsert-same :
    (i : ℤ) (t : CommandTrace) (rows : List CommandTrace)
    → Ascending rows
    → eq_ℤ t.id i ≡ true
    → at_id i (upsert t rows) ≡ t ∷ []
unfolding upsert
upsert-same i t [] h e = rw e refl
upsert-same i t (r ∷ rows) h e =
    let P : List CommandTrace → Type 0 = λ l. at_id i l ≡ t ∷ [] in
    if-elim P (lt_ℤ t.id r.id)
      (λ k. at_id-found i t (r ∷ rows) e ∙ ap (λ l. t ∷ l) (at_id-below i t r rows e k h.0))
      λ k.
        if-elim P (eq_ℤ t.id r.id)
          (λ q.
            at_id-found i t rows e
            ∙ ap (λ l. t ∷ l) (at_id-eq-Above i r rows (sym (eq_ℤ-same t.id r.id i q) ∙ e) h.0))
          λ q. at_id-skip i r (upsert t rows) (ground arith) ∙ upsert-same i t rows h.1 e

pub upsert-other :
    (i : ℤ) (t : CommandTrace) (rows : List CommandTrace)
    → eq_ℤ t.id i ≡ false
    → at_id i (upsert t rows) ≡ at_id i rows
unfolding upsert
upsert-other i t [] e = rw e refl
upsert-other i t (r ∷ rows) e =
    let P : List CommandTrace → Type 0 = λ l. at_id i l ≡ at_id i (r ∷ rows) in
    if-elim P (lt_ℤ t.id r.id) (λ k. at_id-skip i t (r ∷ rows) e)
      λ k.
        if-elim P (eq_ℤ t.id r.id)
          (λ q.
            at_id-skip i t rows e ∙ sym (at_id-skip i r rows (sym (eq_ℤ-same t.id r.id i q) ∙ e)))
          λ q. at_id-cons i r (upsert t rows) rows (upsert-other i t rows e)
