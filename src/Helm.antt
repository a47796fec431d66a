-- ===== src/Helm.antt =====
-- server_helm_impl.py: the Helm commands against the release in the overlay. Here are the history of
-- the release and what is read from it; Values.antt has the flags of a command and Commands.antt the
-- commands. A command reads the clock once. The Secret objects of the release are left out.
pub mod Values
pub mod Read
pub mod Commands
pub mod History
pub mod Effects
pub mod Kept
pub mod Follows
pub mod Told
pub mod Dry
pub mod Tests
use Prim.Native.String
use Prim.Native.String.{◌++◌ as ◌<>◌}
use anomaly_metric_creator.Base.{
  String, ℕ, zero, suc, ℤ, pos, ◌+ℤ◌, Bool, true, false, List, [], ◌∷◌, ◌++◌, map, Option, none,
  some, contains, ltb, ◌==◌, string_eq, if◌then◌else◌,
}
use anomaly_metric_creator.Base.Dict.{Dict, lookup, insert}
use anomaly_metric_creator.Base.Text.{join, strip_right}
use anomaly_metric_creator.Exec.{Result, ok, err, key_error, index_error, bind_result}
use anomaly_metric_creator.Json.{Json, num, str, Row, int_of, is_text, str_of}
use anomaly_metric_creator.Mutations.{Datetime, SimulationMutations, format_dt}
use anomaly_metric_creator.Mutations.Methods.{current_revisions}

abbrev pub default_release : String
default_release = "simulated-saas"

abbrev pub default_chart : String
default_chart = "simulated-saas-0.3.0"

-- The fields of an `OpsScenarioProfile` that Helm shows.
pub record Profile : Type 0 where
  pub summary : String
  pub helm_notes : String

-- The fields of a `SimulationState` that Helm reads, beside the overlay; `scenario_profiles` is the
-- table OPS_SCENARIO_PROFILES, and `now` the time of the clock.
pub record SimulationState : Type 0 where
  pub namespace : String
  pub components : List String
  pub active_scenarios : List String
  pub eval_mode : Bool
  pub scenario_profiles : Dict Profile
  pub now : Datetime

unfoldable pub profiles_of : Dict Profile → List String → List Profile
profiles_of known [] = []
profiles_of known (s ∷ ss) = elim (lookup s known) [
  | none ↦ profiles_of known ss
  | some p ↦ p ∷ profiles_of known ss
]

abbrev pub profiles : SimulationState → List Profile
profiles s = profiles_of s.scenario_profiles s.active_scenarios

abbrev pub exposed_active_scenarios : SimulationState → List String
exposed_active_scenarios s = if s.eval_mode then [] else s.active_scenarios

-- `len(s)`.
abbrev pub text_length : String → ℕ
text_length String.[] = 0
text_length (String.◌∷◌ c s) = suc (text_length s)

-- `s[:n]`.
abbrev pub text_take : ℕ → String → String
text_take zero s = ""
text_take (suc n) String.[] = ""
text_take (suc n) (String.◌∷◌ c s) = String.◌∷◌ c (text_take n s)

abbrev pub cut_text : String → String
cut_text s = if ltb 160 (text_length s) then strip_right (text_take 157 s) <> "..." else s

unfoldable pub helm_current_description : SimulationState → String
unfolding strip_right join profiles_of
helm_current_description s = elim (profiles s) [
  | [] ↦ "Baseline config"
  | p ∷ ps ↦ cut_text (join "; " (map Profile.summary (p ∷ ps)))
]

abbrev pub revision : ℤ → String → String → Row
revision version status description =
    ("version", num version) ∷ ("status", str status) ∷ ("description", str description) ∷ []

-- The list of a release that no command has changed.
unfoldable pub base_revisions : SimulationState → List Row
unfolding helm_current_description
base_revisions s =
    let with_canary =
      revision (pos 1) "superseded" "Install complete"
      ∷ revision (pos 2) "superseded" "Baseline config"
      ∷ revision (pos 3) "failed" "Canary readiness failed"
      ∷ revision (pos 4) "deployed" "Rollback to revision 2"
      ∷ [] in
    let influenced =
      revision (pos 1) "superseded" "Install complete"
      ∷ revision (pos 2) "superseded" "Baseline config"
      ∷ revision (pos 3) "deployed" (helm_current_description s)
      ∷ [] in
    let plain =
      revision (pos 1) "superseded" "Install complete"
      ∷ revision (pos 2) "deployed" "Baseline config"
      ∷ [] in
    if contains "deploy_bad_canary_rollback" s.active_scenarios
    then with_canary
    else elim (profiles s) [ [] ↦ plain | _ ∷ _ ↦ influenced ]

unfoldable pub helm_release_revisions : SimulationState → SimulationMutations → List Row
unfolding base_revisions current_revisions
helm_release_revisions s o = current_revisions (base_revisions s) o

-- `row[key]`.
unfoldable pub item : String → Row → Result Json
item key row = elim (lookup key row) [ none ↦ err (key_error key) | some j ↦ ok j ]

abbrev pub last_row : List Row → Option Row
last_row [] = none
last_row (r ∷ []) = some r
last_row (_ ∷ r ∷ rs) = last_row (r ∷ rs)

unfoldable pub version_of : Row → Result ℤ
unfolding item int_of
version_of row = bind_result (item "version" row) int_of

-- `{**revision, "status": status if it is deployed else its own}` for each revision.
abbrev pub marked : String → Row → Json → Row
marked status row own = insert "status" (if is_text own "deployed" then str status else own) row

unfoldable pub mark : String → List Row → Result (List Row)
unfolding item
mark status [] = ok []
mark status (row ∷ rows) =
    bind_result (item "status" row)
      (λ own. bind_result (mark status rows) (λ rest. ok (marked status row own ∷ rest)))

-- `int(revisions[-1]["version"]) + 1 if revisions else 1`.
unfoldable pub next_version : List Row → Result ℤ
unfolding version_of
next_version rows = elim (last_row rows) [
  | none ↦ ok (pos 1)
  | some row ↦ bind_result (version_of row) (λ n. ok (n +ℤ pos 1))
]

-- The history that an upgrade or a rollback writes.
unfoldable pub next_revisions : String → List Row → Result (List Row)
unfolding mark next_version
next_revisions description current = bind_result (mark "superseded" current) (λ rows.
    bind_result (next_version rows) (λ n. ok (rows ++ revision n "deployed" description ∷ [])))

pub record HelmRelease : Type 0 where
  pub name : String
  pub namespace : String
  pub revision : ℤ
  pub updated : String
  pub status : String
  pub chart : String
  pub app_version : String

-- An IndexError where there is no revision.
unfoldable pub current_release : SimulationState → Option Row → Result HelmRelease
unfolding version_of item
current_release s none = err index_error
current_release s (some current) = bind_result (version_of current) (λ n.
    bind_result (item "status" current) (λ status. ok (record {
      name = default_release;
      namespace = s.namespace;
      revision = n;
      updated = format_dt s.now;
      status = str_of status;
      chart = default_chart;
      app_version = "0.3.0";
    })))

unfoldable pub helm_release : SimulationState → SimulationMutations → Result HelmRelease
unfolding helm_release_revisions current_release
helm_release s o = current_release s (last_row (helm_release_revisions s o))
