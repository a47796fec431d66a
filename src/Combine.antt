-- ===== src/Combine.antt =====
-- The wide layout of combine_impl.py: the CSV files of the components joined into one, by a merge of
-- the streams where every file is in the order of time, else by buckets that are sorted. A file is its
-- header and its rows as `csv.DictReader` gives them; a metric that a short row lacks reads as empty, as
-- it is written, and every row has its timestamp. Taken up where the files are there and without
-- dimensions; the long layout, the messages and the sizes that are printed are left out.
pub mod Keys
pub mod Buckets
pub mod Views
pub mod Sorted
pub mod Fill
pub mod Merge
pub mod Occurrences
pub mod Streams
pub mod Agree
pub mod Tests
use Prim.Native.String.{◌++◌ as ◌<>◌}
use anomaly_metric_creator.Base.{
  String, ℕ, zero, suc, ◌+◌, Bool, true, false, not, ◌&&◌, ◌||◌, List, [], ◌∷◌, ◌++◌, map, length,
  keep, Option, none, some, contains, ltb, ◌==◌, string_eq, nat_eq, if◌then◌else◌,
}
use anomaly_metric_creator.Base.Dict.{Dict, text_lt, get_or, insert}
use anomaly_metric_creator.Combine.Keys.{Key, key_lt, key_eq, next_occurrence, steps_back}

pub record Csv : Type 0 where
  pub component : String
  pub fieldnames : List String
  pub rows : List (Dict String)

pub data Exit : Type 0 where
  no_header no_timestamp : String → Exit

pub data Outcome (A : Type 0) : Type 0 where
  done : A → Outcome A
  exit : Exit → Outcome A

abbrev pub timestamp_of : Dict String → String
timestamp_of row = get_or "timestamp" "" row

-- `[f for f in fieldnames if f != "timestamp"]`.
abbrev pub metric_names : Csv → List String
metric_names f = keep (λ n. not (n == "timestamp")) f.fieldnames

-- `{metric: row[metric] for metric in metrics}`.
abbrev pub picked : List String → Dict String → Dict String
picked metrics row = map (λ m. (m, get_or m "" row)) metrics

-- What a stream yields: the key, the component and its cells.
pub record Entry : Type 0 where
  pub key : Key
  pub component : String
  pub cells : Dict String

-- `_iter_component_rows`, after a row with the timestamp `previous` that occurred for the
-- `occurrence`th time.
unfoldable pub iter_rows : Csv → Option String → ℕ → List (Dict String) → List Entry
iter_rows f previous occurrence [] = []
iter_rows f previous occurrence (row ∷ rows) =
    let t = timestamp_of row in
    let n = next_occurrence previous occurrence t in
    record { key = (t, n); component = f.component; cells = picked (metric_names f) row }
    ∷ iter_rows f (some t) n rows

abbrev pub component_rows : Csv → List Entry
component_rows f = iter_rows f none 0 f.rows

-- The tuples of the streams by `<`. Two of one key and one component come from one file, and are
-- never compared where the components differ.
abbrev pub entry_lt : Entry → Entry → Bool
entry_lt a b = key_lt a.key b.key || (key_eq a.key b.key && text_lt a.component b.component)

unfoldable pub merge_two : List Entry → List Entry → List Entry
merge_two [] r = r
merge_two (x ∷ l) [] = x ∷ l
merge_two (x ∷ l) (y ∷ r) =
    let right = y ∷ merge_two (x ∷ l) r in
    let left = x ∷ merge_two l (y ∷ r) in if entry_lt y x then right else left

-- `heapq.merge`: the least of the heads, of equal ones the one of the first stream.
unfoldable pub merge_all : List (List Entry) → List Entry
unfolding merge_two
merge_all [] = []
merge_all (s ∷ ss) = merge_two s (merge_all ss)

-- The cells of the components at one key.
abbrev pub Bucket : Type 0
Bucket = Key × Dict (Dict String)

-- The loop over the merged rows with the bucket that is being filled.
unfoldable pub fill_buckets : Option Bucket → List Entry → List Bucket
fill_buckets none [] = []
fill_buckets (some b) [] = b ∷ []
fill_buckets none (e ∷ es) = fill_buckets (some (e.key, insert e.component e.cells [])) es
fill_buckets (some (k, cells)) (e ∷ es) =
    let same = fill_buckets (some (k, insert e.component e.cells cells)) es in
    let other = (k, cells) ∷ fill_buckets (some (e.key, insert e.component e.cells [])) es in
    if key_eq e.key k then same else other

-- `row[f"{component}_{metric}"] = component_row.get(metric, "")` for each metric of a component.
unfoldable pub put_metrics : String → Dict String → List String → Dict String → Dict String
put_metrics component cells [] row = row
put_metrics component cells (m ∷ metrics) row =
    put_metrics component cells metrics (insert (component <> ("_" <> m)) (get_or m "" cells) row)

unfoldable pub put_components : Dict (Dict String) → List Csv → Dict String → Dict String
unfolding put_metrics
put_components cells [] row = row
put_components cells (f ∷ files) row =
    put_components cells files
      (put_metrics f.component (get_or f.component [] cells) (metric_names f) row)

abbrev pub output_row : List Csv → Bucket → Dict String
output_row files (k, cells) = put_components cells files (("timestamp", k.0) ∷ [])

-- The streaming path.
unfoldable pub write_streamed : List Csv → List (Dict String)
unfolding merge_all fill_buckets iter_rows
write_streamed files =
    map (output_row files) (fill_buckets none (merge_all (map component_rows files)))

-- `seen_in_component`, and the rows of one file with the number of earlier ones of their timestamp.
unfoldable pub count_rows : Csv → Dict ℕ → List (Dict String) → List Entry
count_rows f seen [] = []
count_rows f seen (row ∷ rows) =
    let t = timestamp_of row in
    let n = get_or t 0 seen in
    record { key = (t, n); component = f.component; cells = picked (metric_names f) row }
    ∷ count_rows f (insert t (n + 1) seen) rows

-- `data_by_timestamp.setdefault(key, {})[component] = cells`.
unfoldable pub put_entry : Entry → List Bucket → List Bucket
put_entry e [] = (e.key, insert e.component e.cells []) ∷ []
put_entry e ((k, cells) ∷ bs) =
    let later = (k, cells) ∷ put_entry e bs in
    if key_eq k e.key then (k, insert e.component e.cells cells) ∷ bs else later

unfoldable pub collect : List Entry → List Bucket → List Bucket
unfolding put_entry
collect [] bs = bs
collect (e ∷ es) bs = collect es (put_entry e bs)

unfoldable pub collect_files : List Csv → List Bucket → List Bucket
unfolding collect count_rows
collect_files [] bs = bs
collect_files (f ∷ files) bs = collect_files files (collect (count_rows f [] f.rows) bs)

-- `sorted(data_by_timestamp.keys())`, each with its bucket.
unfoldable pub insert_bucket : Bucket → List Bucket → List Bucket
insert_bucket b [] = b ∷ []
insert_bucket b (c ∷ cs) =
    let later = c ∷ insert_bucket b cs in if key_lt c.0 b.0 then later else b ∷ c ∷ cs

unfoldable pub sorted_buckets : List Bucket → List Bucket
unfolding insert_bucket
sorted_buckets [] = []
sorted_buckets (b ∷ bs) = insert_bucket b (sorted_buckets bs)

-- `_write_combined_wide_materialized`.
unfoldable pub write_materialized : List Csv → List (Dict String)
unfolding collect_files sorted_buckets
write_materialized files = map (output_row files) (sorted_buckets (collect_files files []))

-- `_wide_component_rows_are_monotonic`, after a row.
unfoldable pub scan_rows : Option Key → Option String → ℕ → List (Dict String) → Bool
scan_rows previous_key previous occurrence [] = true
scan_rows previous_key previous occurrence (row ∷ rows) =
    let t = timestamp_of row in
    let n = next_occurrence previous occurrence t in
    let rest = scan_rows (some (t, n)) (some t) n rows in
    if steps_back previous_key (t, n) then false else rest

abbrev pub rows_are_monotonic : Csv → Bool
rows_are_monotonic f = scan_rows none none 0 f.rows

-- Whether a file is scanned: always where no components are trusted.
abbrev pub is_trusted : Option (List String) → Csv → Bool
is_trusted none f = false
is_trusted (some trusted) f = contains f.component trusted

-- `nonmonotonic_components`.
abbrev pub nonmonotonic : Option (List String) → List Csv → List Csv
nonmonotonic trusted = keep (λ f. not (is_trusted trusted f) && not (rows_are_monotonic f))

-- The checks of the headers, file by file.
unfoldable pub check_headers : List Csv → Option Exit
check_headers [] = none
check_headers (f ∷ files) = elim f.fieldnames [
  | [] ↦ some (no_header f.component)
  | n ∷ ns ↦
      if not (contains "timestamp" (n ∷ ns))
      then some (no_timestamp f.component)
      else check_headers files
]

abbrev pub write_wide : Option (List String) → List Csv → List (Dict String)
write_wide trusted files = elim (nonmonotonic trusted files) [
  | [] ↦ write_streamed files
  | _ ∷ _ ↦ write_materialized files
]

-- The wide branch of `combine_logs_unified`: the rows of the combined file.
unfoldable pub combine_wide : Option (List String) → List Csv → Outcome (List (Dict String))
unfolding check_headers
combine_wide trusted files = elim (check_headers files) [
  | some e ↦ exit e
  | none ↦ done (write_wide trusted files)
]
