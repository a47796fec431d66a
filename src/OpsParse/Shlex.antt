-- ===== src/OpsParse/Shlex.antt =====
-- `shlex.split`, `shlex.join` and `shlex.quote` of Python, in the modes that server_ops_parse.py uses
-- them: POSIX rules, split at whitespace, no comments.
use Prim.Native.String.{[], ◌∷◌, ◌++◌}
use Prim.Native.Char.{Char, code}
use anomaly_metric_creator.Base.{
  String, Bool, true, false, ◌&&◌, ◌||◌, not, List, if◌then◌else◌, ◌==◌, nat_eq, leb,
}
use anomaly_metric_creator.Base.Text.{is_empty, join}
use anomaly_metric_creator.Exec.{Result, ok, err, value_error, bind_result}

-- The lexer's states: between words, in a word, in quotes, and after a backslash.
pub data LexState : Type 0 where
  between inside single double escaped escaped_double : LexState

abbrev pub is_space : Char → Bool
is_space c = code c == b' ' || code c == 9 || code c == 10 || code c == 13

-- A word that is not empty, or was quoted, is given.
abbrev pub give : String → Bool → List String → List String
give word quoted words = if quoted || not (is_empty word) then List.◌∷◌ word words else words

-- `word` and `quoted` are what has been read of the word that is open.
unfoldable pub lex : String → LexState → String → Bool → Result (List String)
unfolding is_empty
lex [] between word quoted = ok (give word quoted List.[])
lex [] inside word quoted = ok (give word quoted List.[])
lex [] single word quoted = err (value_error "No closing quotation")
lex [] double word quoted = err (value_error "No closing quotation")
lex [] escaped word quoted = err (value_error "No escaped character")
lex [] escaped_double word quoted = err (value_error "No escaped character")
lex (c ∷ s) between word quoted =
    let space = lex s between [] false in
    let single_quote = lex s single [] true in
    let double_quote = lex s double [] true in
    let backslash = lex s escaped [] false in
    let other = lex s inside (c ∷ []) false in
    if is_space c
    then space
    else if code c == b'\\'
    then backslash
    else if code c == 39
    then single_quote
    else if code c == b'"'
    then double_quote
    else other
lex (c ∷ s) inside word quoted =
    let space = bind_result (lex s between [] false) (λ words. ok (give word quoted words)) in
    let single_quote = lex s single word true in
    let double_quote = lex s double word true in
    let backslash = lex s escaped word quoted in
    let other = lex s inside (word ++ c ∷ []) quoted in
    if is_space c
    then space
    else if code c == 39
    then single_quote
    else if code c == b'"'
    then double_quote
    else if code c == b'\\'
    then backslash
    else other
lex (c ∷ s) single word quoted =
    let close = lex s inside word true in
    let other = lex s single (word ++ c ∷ []) true in if code c == 39 then close else other
lex (c ∷ s) double word quoted =
    let close = lex s inside word true in
    let backslash = lex s escaped_double word true in
    let other = lex s double (word ++ c ∷ []) true in
    if code c == b'"' then close else if code c == b'\\' then backslash else other
lex (c ∷ s) escaped word quoted = lex s inside (word ++ c ∷ []) quoted
lex (c ∷ s) escaped_double word quoted =
    let kept = lex s double (word ++ "\\" ++ c ∷ []) quoted in
    let plain = lex s double (word ++ c ∷ []) quoted in
    if code c == b'\\' || code c == b'"' then plain else kept

unfoldable pub shlex_split : String → Result (List String)
unfolding lex
shlex_split s = lex s between [] false

-- What need not be quoted: ASCII letters and digits, and `_@%+=:,./-`.
abbrev pub is_safe : Char → Bool
is_safe c =
    (leb b'a' (code c) && leb (code c) b'z')
    || (leb b'A' (code c) && leb (code c) b'Z')
    || (leb b'+' (code c) && leb (code c) b':')
    || code c == b'_'
    || code c == b'@'
    || code c == b'%'
    || code c == b'='

unfoldable pub all_safe : String → Bool
all_safe [] = true
all_safe (c ∷ s) = is_safe c && all_safe s

-- `s.replace("'", "'\"'\"'")`.
unfoldable pub escape_quotes : String → String
escape_quotes [] = []
escape_quotes (c ∷ s) =
    let rest = escape_quotes s in if code c == 39 then "'\"'\"'" ++ rest else c ∷ rest

unfoldable pub shlex_quote : String → String
unfolding is_empty
shlex_quote s = if is_empty s then "''" else if all_safe s then s else "'" ++ escape_quotes s ++ "'"

unfoldable pub quote_all : List String → List String
quote_all List.[] = List.[]
quote_all (List.◌∷◌ s l) = List.◌∷◌ (shlex_quote s) (quote_all l)

unfoldable pub shlex_join : List String → String
shlex_join argv = join " " (quote_all argv)
