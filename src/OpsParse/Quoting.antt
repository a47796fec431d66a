-- ===== src/OpsParse/Quoting.antt =====
-- A command that `shlex.join` quotes is split into its words again.
use Prim.Native.String.{[], ◌∷◌, ◌++◌}
use Prim.Native.Char.{Char, code}
use anomaly_metric_creator.Base.{
  String, ◌≡◌, refl, ap, ◌∙◌, Bool, true, false, ◌&&◌, not, List, if◌then◌else◌, ◌==◌, nat_eq,
  arith, Bool-cases, inl, inr, map,
}
use text.Mathlib.TextLemmas.{append_assoc, append-nil, nil-append, cons-append}
use text.Mathlib.TextEquality.{Char-path}
use anomaly_metric_creator.Base.Text.{is_empty, join}
use anomaly_metric_creator.Exec.{ok, bind_result}
use anomaly_metric_creator.Json.{null, str, arr, items, elements, str_of, str_of-str}
use anomaly_metric_creator.OpsParse.Shlex.{
  lex, LexState, shlex_split, shlex_join, shlex_quote, quote_all, all_safe, escape_quotes, is_safe,
  is_space, give,
}
use anomaly_metric_creator.OpsParse.Command.{parse_command, parse_argv, parse_split}

snoc : (word : String) (c : Char) (s : String) → (word ++ c ∷ []) ++ s ≡ word ++ c ∷ s
snoc word c s =
    append_assoc word (c ∷ []) s
    ∙ ap (λ t. word ++ t) (cons-append c [] s ∙ ap (λ t. c ∷ t) (nil-append s))

abbrev is_plain : Char → Bool
is_plain c = not (is_space c) && not (code c == 39) && not (code c == b'"') && not (code c == b'\\')

safe-plain : (c : Char) → is_safe c ≡ true → is_plain c ≡ true
safe-plain c h = ground (arith, h)

-- Characters that need no quotes are taken as they are.
lex_plain :
    (c : Char) (s word : String) (quoted : Bool)
    → is_plain c ≡ true
    → lex (c ∷ s) LexState.inside word quoted ≡ lex s LexState.inside (word ++ c ∷ []) quoted
unfolding lex
lex_plain c s word quoted h = ground (arith, h)

lex_first :
    (c : Char) (s : String)
    → is_plain c ≡ true
    → lex (c ∷ s) LexState.between [] false ≡ lex s LexState.inside (c ∷ []) false
unfolding lex
lex_first c s h = ground (arith, h)

both : (a b : Bool) → (a && b) ≡ true → (a ≡ true) × (b ≡ true)
both true true h = (refl, refl)
both true false h = absurd (cc)
both false b h = absurd (cc)

lex_safe :
    (s rest word : String) (quoted : Bool)
    → all_safe s ≡ true
    → lex (s ++ rest) LexState.inside word quoted ≡ lex rest LexState.inside (word ++ s) quoted
unfolding all_safe
lex_safe [] rest word quoted h = rw (append-nil word, nil-append rest) refl
lex_safe (c ∷ s) rest word quoted h =
    let (first, later) = both (is_safe c) (all_safe s) h in
    rw
      (
        cons-append c s rest,
        lex_plain c (s ++ rest) word quoted (safe-plain c first),
        lex_safe s rest (word ++ c ∷ []) quoted later,
        snoc word c s,
      )
      refl

-- Between quotes all is kept, and a quote is written so that it is kept.
lex_close :
    (s word : String) → lex ("'" ++ s) LexState.single word true ≡ lex s LexState.inside word true
unfolding lex nat_eq
lex_close s word = rw (cons-append "'" [] s, nil-append s) refl

reopen : (s : String) → "'\"'\"'" ++ s ≡ "'" ∷ "\"" ∷ "'" ∷ "\"" ∷ "'" ∷ s
reopen s =
    cons-append "'" "\"'\"'" s
    ∙ ap (λ t. "'" ∷ t)
        (cons-append "\"" "'\"'" s
          ∙ ap (λ t. "\"" ∷ t)
              (cons-append "'" "\"'" s
                ∙ ap (λ t. "'" ∷ t)
                    (cons-append "\"" "'" s
                      ∙ ap (λ t. "\"" ∷ t)
                          (cons-append "'" [] s ∙ ap (λ t. "'" ∷ t) (nil-append s)))))

lex_reopen :
    (s word : String)
    → lex ("'\"'\"'" ++ s) LexState.single word true ≡ lex s LexState.single (word ++ "'" ∷ []) true
unfolding lex nat_eq
lex_reopen s word = rw (reopen s) refl

lex_kept :
    (c : Char) (s word : String)
    → (code c == 39) ≡ false
    → lex (c ∷ s) LexState.single word true ≡ lex s LexState.single (word ++ c ∷ []) true
unfolding lex
lex_kept c s word h = rw h refl

is_quote : (c : Char) → (code c == 39) ≡ true → c ≡ "'"
is_quote c h = Char-path c "'" (ground (arith, h))

lex_quoted :
    (s rest word : String)
    → lex (escape_quotes s ++ "'" ++ rest) LexState.single word true
      ≡ lex rest LexState.inside (word ++ s) true
unfolding escape_quotes
lex_quoted [] rest word = rw (append-nil word, nil-append) (lex_close rest word)
lex_quoted (c ∷ s) rest word = elim (Bool-cases (code c == 39)) [
  | inl quote ↦
      let same = is_quote c quote in
      rw
        (
          quote,
          escape_quotes,
          append_assoc "'\"'\"'" (escape_quotes s) ("'" ++ rest),
          lex_reopen (escape_quotes s ++ "'" ++ rest) word,
          lex_quoted s rest (word ++ "'" ∷ []),
          snoc word "'" s,
          same,
        )
        refl
  | inr other ↦
      rw
        (
          other,
          escape_quotes,
          cons-append c (escape_quotes s) ("'" ++ rest),
          lex_kept c (escape_quotes s ++ "'" ++ rest) word other,
          lex_quoted s rest (word ++ c ∷ []),
          snoc word c s,
        )
        refl
]

lex_open : (s : String) → lex ("'" ++ s) LexState.between [] false ≡ lex s LexState.single [] true
unfolding lex nat_eq
lex_open s = rw (cons-append "'" [] s, nil-append s) refl

-- A quoted word is read whole, and is given even where it is empty.
abbrev Gives : String → String → String → Type 0
Gives word text rest =
    (quoted : Bool) × (lex (text ++ rest) LexState.between [] false
      ≡ lex rest LexState.inside word quoted)
    × ((words : List String) → give word quoted words ≡ List.◌∷◌ word words)

plain-Gives : (c : Char) (s rest : String) → all_safe (c ∷ s) ≡ true → Gives (c ∷ s) (c ∷ s) rest
unfolding all_safe is_empty
plain-Gives c s rest h =
    let (first, later) = both (is_safe c) (all_safe s) h in
    (
      false,
      rw
          (
            cons-append c s rest,
            lex_first c (s ++ rest) (safe-plain c first),
            lex_safe s rest (c ∷ []) false later,
            cons-append c [] s,
            nil-append s,
          )
          refl,
      λ words. refl,
    )

quoted-Gives : (s rest : String) → Gives s ("'" ++ escape_quotes s ++ "'") rest
quoted-Gives s rest = (
  true,
  rw
      (
        append_assoc "'" (escape_quotes s ++ "'") rest,
        append_assoc (escape_quotes s) "'" rest,
        lex_open (escape_quotes s ++ "'" ++ rest),
        lex_quoted s rest [],
        nil-append s,
      )
      refl,
  λ words. refl,
)

Gives-if :
    (word t u rest : String) (b : Bool)
    → (b ≡ true → Gives word t rest)
    → Gives word u rest
    → Gives word (if b then t else u) rest
Gives-if word t u rest true h k = h refl
Gives-if word t u rest false h k = k

quote-Gives : (s rest : String) → Gives s (shlex_quote s) rest
unfolding shlex_quote is_empty escape_quotes
quote-Gives [] rest = quoted-Gives [] rest
quote-Gives (c ∷ s) rest =
    Gives-if (c ∷ s) (c ∷ s) ("'" ++ escape_quotes (c ∷ s) ++ "'") rest (all_safe (c ∷ s))
      (plain-Gives c s rest) (quoted-Gives (c ∷ s) rest)

lex_space :
    (s word : String) (quoted : Bool)
    → lex (" " ++ s) LexState.inside word quoted
      ≡ bind_result (lex s LexState.between [] false) (λ words. ok (give word quoted words))
unfolding lex nat_eq
lex_space s word quoted = rw (cons-append " " [] s, nil-append s) refl

-- `shlex.split` takes back what `shlex.join` makes, whatever the words are.
pub shlex_split-shlex_join : (argv : List String) → shlex_split (shlex_join argv) ≡ ok argv
unfolding shlex_split shlex_join join quote_all lex bind_result
shlex_split-shlex_join List.[] = refl
shlex_split-shlex_join (List.◌∷◌ a List.[]) =
    let (quoted, read, given) = quote-Gives a [] in
    rw (← append-nil (shlex_quote a), read) (ap ok (given List.[]))
shlex_split-shlex_join (List.◌∷◌ a (List.◌∷◌ b l)) =
    let rest = shlex_join (List.◌∷◌ b l) in
    let (quoted, read, given) = quote-Gives a (" " ++ rest) in
    rw (read, lex_space rest a quoted, shlex_split-shlex_join (List.◌∷◌ b l))
      (ap ok (given (List.◌∷◌ b l)))

map-str_of : (argv : List String) → map str_of (elements (items (map str argv))) ≡ argv
map-str_of List.[] = refl
map-str_of (List.◌∷◌ a argv) = rw (str_of-str a) (ap (λ l. List.◌∷◌ a l) (map-str_of argv))

-- A command sent as one text, quoted by `shlex.join`, is parsed as the same words sent as `argv` are,
-- whatever the words and the default namespace.
pub parse_command-shlex_join :
    (argv : List String) (namespace : String)
    → parse_command (str (shlex_join argv)) null namespace
      ≡ parse_command null (arr (items (map str argv))) namespace
unfolding parse_command parse_argv parse_split
parse_command-shlex_join argv namespace = rw (shlex_split-shlex_join argv, map-str_of argv) refl
