-- ===== src/OpsParse/Positionals.antt =====
-- What `_split_flags` of server_ops_parse.py takes for a positional, and the namespace it finds.

use anomaly_metric_creator.Base.{
  String, ◌≡◌, true, false, List, [], ◌∷◌, ◌++◌, drop, ◌==◌, string_eq, nat_eq,
}
use anomaly_metric_creator.Base.Text.{is_empty}
use anomaly_metric_creator.OpsParse.Split.{Split}
use anomaly_metric_creator.OpsParse.Turns.{IsPlain, IsFlag, takes_next, IsNamed}

-- How words are read from the left, and the positionals that they leave: up to the first `--` that
-- is no value the plain words, and from it on all.
pub data IsRead : List String → List String → Type 0 where
  ended : IsRead [] []
  separator : (rest : List String) → IsRead ("--" ∷ rest) ("--" ∷ rest)
  word :
      (token : String) (tokens positionals : List String)
      → IsPlain token
      → IsRead tokens positionals
      → IsRead (token ∷ tokens) (token ∷ positionals)
  flag_only :
      (token : String) (tokens positionals : List String)
      → IsFlag token
      → IsRead tokens positionals
      → IsRead (token ∷ tokens) positionals
  valued :
      (token : String) (rest positionals : List String)
      → takes_next token rest ≡ true
      → (token == "--") ≡ false
      → IsRead (drop 1 rest) positionals
      → IsRead (token ∷ rest) positionals

pub record IsSplit (tokens : List String) (s : Split) : Type 0 where
  pub is_read : IsRead tokens s.positionals
  pub named : is_empty s.namespace ≡ false

-- The words from a turn on are read, and stand after the positionals so far.
record Reads (tokens : List String) (s t : Split) : Type 0 where
  pub positionals : List String
  pub after : t.positionals ≡ s.positionals ++ positionals
  pub is_read : IsRead tokens positionals
  pub named : IsNamed t
