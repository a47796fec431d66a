-- ===== src/Helm/History.antt =====
-- A history of a release as the list of what its revisions say: their versions count from one, and
-- only the last may be deployed.
use anomaly_metric_creator.Base.{
  String, ℕ, suc, ◌+◌, pos, ◌+ℤ◌, ◌≡◌, refl, sym, ap, ◌∙◌, Bool, true, false, not, List, [], ◌∷◌,
  ◌++◌, map, length, contains, ◌==◌, string_eq, nat_eq, if◌then◌else◌, arith, Bool-cases, inl, inr,
}
use anomaly_metric_creator.Base.Dict.{lookup, insert}
use anomaly_metric_creator.Exec.{ok, bind_result}
use anomaly_metric_creator.Json.{num, str, Row, int_of, is_text}
use anomaly_metric_creator.Helm.{
  SimulationState, Profile, profiles, revision, base_revisions, helm_current_description, item,
  version_of, mark, next_version, next_revisions,
}

-- The status and the description of a revision.
abbrev pub Line : Type 0
Line = String × String

abbrev pub rows_from : ℕ → List Line → List Row
rows_from n [] = []
rows_from n ((status, description) ∷ es) =
    revision (pos n) status description ∷ rows_from (suc n) es

abbrev pub descriptions : List Line → List String
descriptions [] = []
descriptions ((_, d) ∷ es) = d ∷ descriptions es

abbrev pub is_deployed : Line → Bool
is_deployed (status, _) = status == "deployed"

-- There is a last revision, deployed unless the release is uninstalled; no other one is.
abbrev pub Current : Bool → List Line → Type 0
Current uninstalled [] = ⊥
Current uninstalled (e ∷ []) = is_deployed e ≡ not uninstalled
Current uninstalled (e ∷ f ∷ es) = (is_deployed e ≡ false) × Current uninstalled (f ∷ es)

abbrev pub marked_line : String → Line → Line
marked_line status (own, d) = ((if own == "deployed" then status else own), d)

pub mark-rows_from :
    (status : String) (n : ℕ) (es : List Line)
    → mark status (rows_from n es) ≡ ok (rows_from n (map (marked_line status) es))
unfolding mark item lookup insert string_eq nat_eq is_text bind_result
mark-rows_from status n [] = refl
mark-rows_from status n ((own, d) ∷ es) = rw (mark-rows_from status (suc n) es) (
    ap (λ row. ok (row ∷ rows_from (suc n) (map (marked_line status) es)))
      (row (own == "deployed")))
  where
    row :
        (b : Bool)
        → (("version", num (pos n))
            ∷ ("status", (if b then str status else str own))
            ∷ ("description", str d)
            ∷ [])
          ≡ revision (pos n) (if b then status else own) d
    row true = refl
    row false = refl

next_number : (n : ℕ) → pos n +ℤ pos 1 ≡ pos (n + 1)
unfolding ◌+ℤ◌
next_number n = ground arith

next_version-rows_from :
    (n : ℕ) (e : Line) (es : List Line)
    → next_version (rows_from n (e ∷ es)) ≡ ok (pos (n + length (e ∷ es)))
unfolding next_version version_of item lookup string_eq nat_eq int_of bind_result ◌+ℤ◌
next_version-rows_from n (s, d) [] = ap ok (next_number n)
next_version-rows_from n e (f ∷ es) =
    next_version-rows_from (suc n) f es ∙ ap (λ m. ok (pos m)) (omega arith)

rows_from-append :
    (n : ℕ) (es fs : List Line)
    → rows_from n (es ++ fs) ≡ rows_from n es ++ rows_from (n + length es) fs
rows_from-append n [] fs = ap (λ m. rows_from m fs) (omega arith)
rows_from-append n ((s, d) ∷ es) fs =
    ap (λ rows. revision (pos n) s d ∷ rows)
      (rows_from-append (suc n) es fs
        ∙ ap (λ m. rows_from (suc n) es ++ rows_from m fs) (omega arith))

abbrev pub retired : List Line → List Line
retired es = map (marked_line "superseded") es

length-map : (f : Line → Line) (es : List Line) → length (map f es) ≡ length es
length-map f [] = refl
length-map f (e ∷ es) = ap suc (length-map f es)

-- The version of the new revision is the number of revisions with it.
pub next_revisions-rows_from :
    (description : String) (es : List Line)
    → next_revisions description (rows_from 1 es)
      ≡ ok (rows_from 1 (retired es ++ ("deployed", description) ∷ []))
unfolding next_revisions next_version bind_result mark
next_revisions-rows_from description [] = refl
next_revisions-rows_from description (e ∷ es) =
    rw
      (
        mark-rows_from "superseded" 1 (e ∷ es),
        next_version-rows_from 1 (marked_line "superseded" e) (retired es),
      )
      (ap ok (sym (rows_from-append 1 (retired (e ∷ es)) (("deployed", description) ∷ []))))

retired_line : (e : Line) → is_deployed (marked_line "superseded" e) ≡ false
unfolding string_eq
retired_line (s, d) = elim (Bool-cases (s == "deployed")) [ inl h ↦ rw h refl | inr h ↦ rw h h ]

pub Current-retired :
    (description : String) (es : List Line)
    → Current false (retired es ++ ("deployed", description) ∷ [])
unfolding string_eq
Current-retired description [] = refl
Current-retired description (e ∷ []) = (retired_line e, refl)
Current-retired description (e ∷ f ∷ es) = (retired_line e, Current-retired description (f ∷ es))

closed_line : (e : Line) → is_deployed (marked_line "uninstalled" e) ≡ false
unfolding string_eq
closed_line (s, d) = elim (Bool-cases (s == "deployed")) [ inl h ↦ rw h refl | inr h ↦ rw h h ]

pub Current-uninstalled :
    (uninstalled : Bool) (es : List Line)
    → Current uninstalled es
    → Current true (map (marked_line "uninstalled") es)
Current-uninstalled u [] h = elim h [ ]
Current-uninstalled u (e ∷ []) h = closed_line e
Current-uninstalled u (e ∷ f ∷ es) (h, k) = (closed_line e, Current-uninstalled u (f ∷ es) k)

pub descriptions-marked :
    (status : String) (es : List Line)
    → descriptions (map (marked_line status) es) ≡ descriptions es
descriptions-marked status [] = refl
descriptions-marked status ((s, d) ∷ es) = ap (λ ds. d ∷ ds) (descriptions-marked status es)

pub descriptions-append :
    (es fs : List Line) → descriptions (es ++ fs) ≡ descriptions es ++ descriptions fs
descriptions-append [] fs = refl
descriptions-append ((s, d) ∷ es) fs = ap (λ ds. d ∷ ds) (descriptions-append es fs)

abbrev lines_by : Bool → List Profile → String → List Line
lines_by true ps description =
    ("superseded", "Install complete")
    ∷ ("superseded", "Baseline config")
    ∷ ("failed", "Canary readiness failed")
    ∷ ("deployed", "Rollback to revision 2")
    ∷ []
lines_by false [] description =
    ("superseded", "Install complete") ∷ ("deployed", "Baseline config") ∷ []
lines_by false (_ ∷ _) description =
    ("superseded", "Install complete")
    ∷ ("superseded", "Baseline config")
    ∷ ("deployed", description)
    ∷ []

-- The lines of `base_revisions`.
unfoldable pub base_lines : SimulationState → List Line
base_lines s =
    lines_by (contains "deploy_bad_canary_rollback" s.active_scenarios) (profiles s)
      (helm_current_description s)

pub base_revisions-lines : (s : SimulationState) → base_revisions s ≡ rows_from 1 (base_lines s)
unfolding base_revisions base_lines
base_revisions-lines s = ground arith

pub Current-base : (s : SimulationState) → Current false (base_lines s)
unfolding base_lines string_eq
Current-base s =
    by_case (contains "deploy_bad_canary_rollback" s.active_scenarios) (profiles s)
      (helm_current_description s)
  where
    by_case : (b : Bool) (ps : List Profile) (d : String) → Current false (lines_by b ps d)
    by_case true ps d = (refl, (refl, (refl, refl)))
    by_case false [] d = (refl, refl)
    by_case false (_ ∷ _) d = (refl, (refl, refl))
