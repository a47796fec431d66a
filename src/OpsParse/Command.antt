-- ===== src/OpsParse/Command.antt =====
-- `parse_command`, `command_fingerprint` and `_redact_command_for_trace` of server_ops_parse.py.
use Prim.Native.String.{◌++◌ as ◌<>◌}
use anomaly_metric_creator.Base.{
  String, false, List, [], ◌∷◌, map, Option, none, some, contains, if◌then◌else◌, ◌==◌, string_eq,
}
use anomaly_metric_creator.Base.Dict.{Dict, sorted_texts}
use anomaly_metric_creator.Base.Text.{or_else, split_at, strip, join, is_empty}
use anomaly_metric_creator.Exec.{Result, ok, err, value_error}
use anomaly_metric_creator.Json.{Json, null, str, arr, elements, str_of}
use anomaly_metric_creator.OpsParse.{FlagValue, ParsedCommand}
use anomaly_metric_creator.OpsParse.Split.{split_flags}
use anomaly_metric_creator.OpsParse.Families.{Words, parsed, parse_kubectl, parse_helm}
use anomaly_metric_creator.OpsParse.Redact.{redact_argv}
use anomaly_metric_creator.OpsParse.Shlex.{shlex_split, shlex_join}

-- `Path(path).name`: the last part, where empty parts and single dots are none.
last_part : List String → String → String
unfolding is_empty
last_part [] name = name
last_part (p ∷ ps) name =
    let skip = last_part ps name in
    let keep = last_part ps p in if is_empty p then skip else if p == "." then skip else keep

unfoldable pub path_name : String → String
unfolding last_part split_at
path_name path = last_part (split_at b'/' path) ""

-- No command was found in the input.
abbrev pub unknown : String → List String → String → String → ParsedCommand
unknown raw argv namespace error = record {
  raw_input = raw;
  argv = argv;
  family = "unknown";
  verb = "";
  resource_kind = "";
  resource_name = "";
  namespace = namespace;
  flags = [];
  positionals = [];
  parse_error = error;
}

unfoldable pub family_of : String → String
unfolding path_name
family_of program =
    let token = path_name program in
    if contains token ("kubectl" ∷ "k" ∷ []) then "kubectl" else token

unfoldable pub parse_words : String → List String → String → Result ParsedCommand
unfolding family_of split_flags parse_kubectl parse_helm
parse_words raw [] namespace = ok (unknown raw [] namespace "")
parse_words raw (program ∷ tokens) default_namespace =
    let family = family_of program in
    let s = split_flags tokens default_namespace in
    let w : Words = record {
      raw = raw;
      argv = program ∷ tokens;
      namespace = s.namespace;
      flags = s.flags;
      positionals = s.positionals;
    } in
    if family == "kubectl"
    then parse_kubectl w
    else if family == "helm"
    then ok (parse_helm w)
    else ok (parsed w family "" "" "")

-- The text of a ValueError of `shlex.split`.
unfoldable pub parse_split : String → Result (List String) → String → Result ParsedCommand
unfolding parse_words
parse_split raw (ok argv) namespace = parse_words raw argv namespace
parse_split raw (err (value_error text)) namespace = ok (unknown raw [] namespace text)
parse_split raw (err e) namespace = err e

-- `command` and `argv` are what a client's JSON has for them; `none` and `null` are Python's `None`.
unfoldable pub parse_argv : Option String → Json → String → Result ParsedCommand
unfolding parse_split shlex_split shlex_join
parse_argv command null namespace =
    let raw : String = elim command [ none ↦ "" | some c ↦ c ] in
    parse_split raw (shlex_split raw) namespace
parse_argv command (arr js) namespace =
    let argv = map str_of (elements js) in
    parse_words (elim command [ none ↦ shlex_join argv | some c ↦ c ]) argv namespace
parse_argv command _ namespace = err (value_error "'argv' must be a list of strings")

unfoldable pub parse_command : Json → Json → String → Result ParsedCommand
unfolding parse_argv
parse_command null argv namespace = parse_argv none argv namespace
parse_command (str command) argv namespace = parse_argv (some command) argv namespace
parse_command _ argv namespace = err (value_error "'command' must be a string")

abbrev unfingerprinted_flags : List String
unfingerprinted_flags =
    "namespace" ∷ "-o" ∷ "--output" ∷ "-l" ∷ "--selector" ∷ "-A" ∷ "--all-namespaces" ∷ []

unfoldable pub unknown_flags : Dict FlagValue → List String
unknown_flags [] = []
unknown_flags ((key, _) ∷ flags) =
    let rest = unknown_flags flags in
    if contains key unfingerprinted_flags then rest else key ∷ rest

flag_bits : List String → List String
flag_bits [] = []
flag_bits (f ∷ flags) = ("flags=" <> join "," (sorted_texts (f ∷ flags))) ∷ []

unfoldable pub command_fingerprint : ParsedCommand → String → String
unfolding flag_bits unknown_flags or_else strip join
command_fingerprint p support_status =
    if support_status == "supported"
    then strip (p.family <> " " <> p.verb <> " " <> p.resource_kind)
    else join " " (
        or_else p.family "unknown"
        ∷ or_else p.verb "<missing-verb>"
        ∷ or_else p.resource_kind "<missing-kind>"
        ∷ flag_bits (unknown_flags p.flags))

unfoldable pub redact_command_for_trace : ParsedCommand → String
unfolding redact_argv shlex_join
redact_command_for_trace p = elim p.argv [
  | [] ↦ p.raw_input
  | program ∷ words ↦ shlex_join (redact_argv false (program ∷ words))
]
