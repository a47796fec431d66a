-- ===== src/Helm/Values.antt =====
-- The flags of a Helm command: the values that it sets, and the notes on what it did.
use Prim.Native.String.{◌++◌ as ◌<>◌}
use anomaly_metric_creator.Base.{
  String, Bool, true, false, not, ◌&&◌, List, [], ◌∷◌, ◌++◌, none, some, contains, string_eq,
  if◌then◌else◌,
}
use anomaly_metric_creator.Base.Dict.{Dict, lookup, get_or, insert}
use anomaly_metric_creator.Base.Text.{or_else, split_at, split_once, join, strip, lower, is_empty}
use anomaly_metric_creator.OpsParse.{flag, text, texts, ParsedCommand}
use anomaly_metric_creator.OpsParse.Split.{flag_values, next_or_empty}

-- `_is_dry_run` of server_command_render.py; the `str` of a list is none of those texts.
unfoldable pub is_dry_run : ParsedCommand → Bool
unfolding strip lower
is_dry_run p = elim (lookup "--dry-run" p.flags) [
  | none ↦ false
  | some flag ↦ true
  | some (text raw) ↦ not (contains (lower (strip raw)) ("" ∷ "false" ∷ "none" ∷ "0" ∷ []))
  | some (texts _) ↦ true
]

abbrev pub has_flag : String → ParsedCommand → Bool
has_flag name p = elim (lookup name p.flags) [ none ↦ false | some _ ↦ true ]

abbrev pub set_value : String → String → Dict String → Dict String
set_value key value values =
    if is_empty key then values else insert key (or_else value "true") values

-- `key, _, value = item.partition("=")`.
abbrev pub set_item : String → Dict String → Dict String
set_item it values = elim (split_once b'=' it) [
  | none ↦ set_value it "" values
  | some (key, value) ↦ set_value key value values
]

unfoldable pub set_items : List String → Dict String → Dict String
unfolding split_once is_empty or_else
set_items [] values = values
set_items (it ∷ its) values = set_items its (set_item it values)

unfoldable pub set_raws : List String → Dict String → Dict String
unfolding set_items split_at
set_raws [] values = values
set_raws (raw ∷ raws) values = set_raws raws (set_items (split_at b',' raw) values)

abbrev pub last_text : List String → String
last_text [] = ""
last_text (t ∷ []) = t
last_text (_ ∷ t ∷ ts) = last_text (t ∷ ts)

abbrev pub with_files : List String → Dict String → Dict String
with_files [] values = values
with_files (f ∷ fs) values =
    insert "values_files" (join "," (f ∷ fs)) (insert "values_file" (last_text (f ∷ fs)) values)

unfoldable pub helm_value_overrides : ParsedCommand → Dict String
unfolding set_raws flag_values join
helm_value_overrides p = with_files (flag_values p.flags ("--values" ∷ "-f" ∷ [])) (
    set_raws (flag_values p.flags ("--set-string" ∷ []))
      (set_raws (flag_values p.flags ("--set" ∷ [])) []))

-- A note where its condition holds.
abbrev pub note_if : Bool → String → List String
note_if holds note = if holds then note ∷ [] else []

unfoldable pub helm_operation_note : ParsedCommand → Bool → Dict String → Bool → String
unfolding flag_values is_empty or_else join
helm_operation_note p dry_run values reset =
    let files = get_or "values_files" "" values in
    let timeout = next_or_empty (flag_values p.flags ("--timeout" ∷ [])) in
    join "\n" (
      (if dry_run
          then "NOTE: simulator release state not changed during dry run."
          else "NOTE: simulator release state updated.")
        ∷ note_if (has_flag "--reuse-values" p && not reset)
            "NOTE: simulator reused existing release values before applying overrides."
      ++ note_if reset (
          "NOTE: simulator "
          <> (if dry_run then "would reset" else "reset")
          <> " release values before applying overrides.")
      ++ note_if (not (is_empty files)) ("NOTE: simulator recorded values files: " <> files <> ".")
      ++ note_if (has_flag "--wait" p)
          ("NOTE: simulator wait completed before " <> or_else timeout "default timeout" <> ".")
      ++ note_if (has_flag "--atomic" p) "NOTE: simulator atomic rollback was not needed.")
    <> "\n"
