-- ===== src/OpsParse/Kept.antt =====
-- What `parse_command` of server_ops_parse.py keeps of a client's words, and when it raises.
use anomaly_metric_creator.Base.{
  String, ◌≡◌, ◌≢◌, refl, subst, Bool, true, false, ◌&&◌, Option-cases, List, [], ◌∷◌, Option, none,
  some, contains, if◌then◌else◌, if-elim, ◌==◌, string_eq, arith, inl, inr, Bool-cases,
}
use anomaly_metric_creator.Base.Dict.{lookup, insert, lookup-insert}
use anomaly_metric_creator.Exec.{Result, ok, err, index_error, bind_result}
use anomaly_metric_creator.OpsParse.{FlagValue, ParsedCommand}
use anomaly_metric_creator.OpsParse.Split.{split_flags}
use anomaly_metric_creator.OpsParse.Families.{
  Words, kubectl, parsed, nth, word, parse_logs, parse_kubectl, parse_helm,
}
use anomaly_metric_creator.OpsParse.Targets.{split_explain_target}
use anomaly_metric_creator.OpsParse.Kinds.{is_dots, split_explain_target-raises}
use anomaly_metric_creator.OpsParse.Command.{family_of, parse_words}

-- The command is the words of its family; only `--follow` may differ among the flags.
pub record IsOf (w : Words) (family : String) (p : ParsedCommand) : Type 0 where
  pub raw : p.raw_input ≡ w.raw
  pub argv : p.argv ≡ w.argv
  pub family_is : p.family ≡ family
  pub namespace : p.namespace ≡ w.namespace
  pub positionals : p.positionals ≡ w.positionals
  pub flags : (key : String) → "--follow" ≢ key → lookup key p.flags ≡ lookup key w.flags
  pub no_error : p.parse_error ≡ ""

abbrev pub Keeps : Words → String → Result ParsedCommand → Type 0
Keeps w family r = (p : ParsedCommand) × (r ≡ ok p) × IsOf w family p

kept : (w : Words) (family verb kind name : String) → IsOf w family (parsed w family verb kind name)
kept w family verb kind name = record {
  raw = refl;
  argv = refl;
  family_is = refl;
  namespace = refl;
  positionals = refl;
  flags = λ key ne. refl;
  no_error = refl;
}

kubectl-Keeps :
    (w : Words) (verb : String) (target : String × String)
    → Keeps w "kubectl" (kubectl w verb target)
kubectl-Keeps w verb (kind, name) =
    (parsed w "kubectl" verb kind name, refl, kept w "kubectl" verb kind name)

followed-Keeps :
    (w : Words) (verb : String) (target : String × String)
    → Keeps w "kubectl"
        (kubectl (record w { flags = insert "--follow" FlagValue.flag w.flags }) verb target)
followed-Keeps w verb (kind, name) =
    let v : Words = record w { flags = insert "--follow" FlagValue.flag w.flags } in
    (
      parsed v "kubectl" verb kind name,
      refl,
      record {
        raw = refl;
        argv = refl;
        family_is = refl;
        namespace = refl;
        positionals = refl;
        flags = λ key ne. ground (arith, ne, lookup-insert key "--follow" FlagValue.flag w.flags);
        no_error = refl;
      },
    )

parse_logs-Keeps : (w : Words) → Keeps w "kubectl" (parse_logs w)
unfolding parse_logs
parse_logs-Keeps w = elim (Option-cases (lookup "-f" w.flags)) [
  | inl e ↦ rw (e, parse_logs) (kubectl-Keeps w "logs" _)
  | inr (value, e) ↦ rw (e, parse_logs) (followed-Keeps w "logs" _)
]

-- The only words that `_parse_kubectl` raises on.
abbrev pub is_bad_explain : List String → Bool
is_bad_explain positionals = word 0 positionals == "explain" && is_dots (word 1 positionals)

-- The words of a family are kept, or raise as `explain` does.
abbrev pub Parses : Words → String → Bool → Result ParsedCommand → Type 0
Parses w family true r = r ≡ err index_error
Parses w family false r = Keeps w family r

explain-Parses :
    (w : Words)
    → Parses w "kubectl" (is_dots (word 1 w.positionals)) (
        bind_result
          (split_explain_target (word 1 w.positionals))
          (kubectl w (word 0 w.positionals)))
unfolding bind_result
explain-Parses w =
    let (raises, explains) = split_explain_target-raises (word 1 w.positionals) in
    elim (Bool-cases (is_dots (word 1 w.positionals))) [
      | inl e ↦ rw (e, raises e) refl
      | inr e ↦
          let (kind, path, r) = explains e in
          rw (e, r) (kubectl-Keeps w (word 0 w.positionals) (kind, path))
    ]

target-Keeps :
    (w : Words) (verb : String) (f : String → String × String) (o : Option String)
    → Keeps w "kubectl"
        (elim o [ none ↦ kubectl w verb ("", "") | some target ↦ kubectl w verb (f target) ])
target-Keeps w verb f none = kubectl-Keeps w verb ("", "")
target-Keeps w verb f (some target) = kubectl-Keeps w verb (f target)

other_verbs-Keeps :
    (w : Words) → (word 0 w.positionals == "explain") ≡ false → Keeps w "kubectl" (parse_kubectl w)
unfolding parse_kubectl
other_verbs-Keeps w no_explain =
    let P = Keeps w "kubectl" in
    let verb = word 0 w.positionals in
    let k = λ (verb : String). kubectl-Keeps w verb in
    if-elim P (contains verb ("api-resources" ∷ "api-versions" ∷ "cluster-info" ∷ "version" ∷ []))
      (λ _. k _ _)
      λ _.
        if-elim P (verb == "explain") (λ e. absurd (cc))
          λ _.
            if-elim P (verb == "events") (λ _. k _ _)
              λ _.
                if-elim P (verb == "logs") (λ _. parse_logs-Keeps w)
                  λ _.
                    if-elim P (verb == "auth") (λ _. k _ _)
                      λ _.
                        if-elim P (verb == "config") (λ _. k _ _)
                          λ _.
                            if-elim P (verb == "rollout") (λ _. k _ _)
                              λ _.
                                if-elim P (contains verb ("delete" ∷ "patch" ∷ "scale" ∷ []))
                                  (λ _. k _ _)
                                  λ _.
                                    if-elim P (verb == "create") (λ _. k _ _)
                                      λ _.
                                        if-elim P (contains verb ("apply" ∷ "diff" ∷ []))
                                          (λ _. k _ _)
                                          λ _.
                                            if-elim P (verb == "wait") (λ _. k _ _)
                                              λ _.
                                                if-elim P
                                                  (contains verb ("exec" ∷ "port-forward" ∷ []))
                                                  (λ _. k _ _)
                                                  λ _. target-Keeps w verb _ (nth 1 w.positionals)

abbrev argless_verbs : List String
argless_verbs = "api-resources" ∷ "api-versions" ∷ "cluster-info" ∷ "version" ∷ []

explain_not_argless : contains "explain" argless_verbs ≡ false
unfolding string_eq
explain_not_argless = refl

not_argless : (verb : String) → "explain" ≡ verb → contains verb argless_verbs ≡ false
not_argless verb e = subst (λ v. contains v argless_verbs ≡ false) e explain_not_argless

explain_verb-Parses :
    (w : Words)
    → (word 0 w.positionals == "explain") ≡ true
    → Parses w "kubectl" (is_dots (word 1 w.positionals)) (parse_kubectl w)
unfolding parse_kubectl
explain_verb-Parses w e =
    let P = Parses w "kubectl" (is_dots (word 1 w.positionals)) in
    let verb = word 0 w.positionals in
    if-elim P (contains verb ("api-resources" ∷ "api-versions" ∷ "cluster-info" ∷ "version" ∷ []))
      (λ f. absurd (cc (f, not_argless verb (ground (arith, e)))))
      λ _. if-elim P (verb == "explain") (λ _. explain-Parses w) (λ f. absurd (cc))

parse_kubectl-Parses :
    (w : Words) → Parses w "kubectl" (is_bad_explain w.positionals) (parse_kubectl w)
parse_kubectl-Parses w = elim (Bool-cases (word 0 w.positionals == "explain")) [
  | inl e ↦ rw e (explain_verb-Parses w e)
  | inr e ↦ rw e (other_verbs-Keeps w e)
]

abbrev pub words_of : String → String → List String → String → Words
words_of raw program tokens default_namespace =
    let s = split_flags tokens default_namespace in
    record {
      raw = raw;
      argv = program ∷ tokens;
      namespace = s.namespace;
      flags = s.flags;
      positionals = s.positionals;
    }

abbrev pub is_bad_command : String → Words → Bool
is_bad_command family w = family == "kubectl" && is_bad_explain w.positionals

helm-IsOf : (w : Words) → IsOf w "helm" (parse_helm w)
unfolding parse_helm
helm-IsOf w =
    let P = IsOf w "helm" in
    let verb = word 0 w.positionals in
    let k = λ (verb kind name : String). kept w "helm" verb kind name in
    if-elim P (contains verb ("version" ∷ "env" ∷ "template" ∷ [])) (λ _. k _ _ _)
      λ _.
        if-elim P (verb == "get") (λ _. k _ _ _)
          λ _.
            if-elim P
              (contains verb ("test" ∷ "upgrade" ∷ "rollback" ∷ "uninstall" ∷ "install" ∷ []))
              (λ _. k _ _ _) λ _. k _ _ _

family-Parses :
    (w : Words) (family : String)
    → Parses w family (is_bad_command family w) (
        if family == "kubectl"
        then parse_kubectl w
        else if family == "helm"
        then ok (parse_helm w)
        else ok (parsed w family "" "" ""))
family-Parses w family = elim (Bool-cases (family == "kubectl")) [
  | inl e ↦
      let same : "kubectl" ≡ family = ground (arith, e) in
      rw e (
        subst (λ f. Parses w f (is_bad_explain w.positionals) (parse_kubectl w)) same
          (parse_kubectl-Parses w))
  | inr e ↦ rw e (
      if-elim (Keeps w family) (family == "helm")
        (λ f.
          let same : "helm" ≡ family = ground (arith, f) in
          (parse_helm w, refl, subst (λ f. IsOf w f (parse_helm w)) same (helm-IsOf w)))
        (λ _. (parsed w family "" "" "", refl, kept w family "" "" "")))
]

-- A command of any words raises an IndexError where it asks kubectl to explain dots alone, and else
-- is parsed: its words, its namespace and its flags but for `--follow` are those that the loop over
-- the words found, and its family is the name of the program.
pub parse_words-Parses :
    (raw program : String) (tokens : List String) (default_namespace : String)
    → let w = words_of raw program tokens default_namespace in
      Parses w
        (family_of program)
        (is_bad_command (family_of program) w)
        (parse_words raw (program ∷ tokens) default_namespace)
unfolding parse_words
parse_words-Parses raw program tokens default_namespace =
    family-Parses (words_of raw program tokens default_namespace) (family_of program)
