-- ===== src/Combine/Agree.antt =====
-- The two paths of the wide layout write the same rows.
use mathlib.Core.List.{cons≢nil}
use anomaly_metric_creator.Base.{
  String, ◌≡◌, refl, sym, ap, subst, ◌∙◌, Bool, true, false, not, ◌&&◌, ◌||◌, List, [], ◌∷◌, All,
  Option, none, some, if◌then◌else◌, arith,
}
use anomaly_metric_creator.Base.Dict.{Dict}
use anomaly_metric_creator.Combine.{
  Csv, Outcome, Exit, done, exit, fill_buckets, collect_files, sorted_buckets, write_streamed,
  write_materialized, write_wide, combine_wide, check_headers, nonmonotonic, rows_are_monotonic,
  is_trusted,
}
use anomaly_metric_creator.Combine.Buckets.{SameView, has, cells_at, output_row-SameView}
use anomaly_metric_creator.Combine.Views.{
  last_cells, has-collect, cells_at-collect, collect-KeysOnce, KeysOnce, any_at,
}
use anomaly_metric_creator.Combine.Sorted.{
  has-sorted_buckets, cells_at-sorted_buckets, Ascending-sorted_buckets,
}
use anomaly_metric_creator.Combine.Fill.{
  has-fill_buckets, Ascending-fill_buckets, cells_at-fill_buckets,
}
use anomaly_metric_creator.Combine.Streams.{
  DistinctNames, IsMonotonic, merged, in_turn, InOrder-merged, any_at-merged, of_component-merged,
  last_cells-of_component, collect_files-in_turn,
}

or_false : (x : Bool) → (x || false) ≡ x
or_false x = ground arith

views-agree :
    (fs : List Csv)
    → DistinctNames fs
    → All IsMonotonic fs
    → SameView (fill_buckets none (merged fs)) (sorted_buckets (collect_files fs []))
views-agree fs d m =
    let e = collect_files-in_turn fs [] m in
    record {
      keys = λ k.
          has-fill_buckets k (merged fs)
          ∙ any_at-merged k fs
          ∙ sym (or_false (any_at k (in_turn fs)))
          ∙ sym (has-collect k (in_turn fs) [])
          ∙ sym (ap (has k) e)
          ∙ sym (has-sorted_buckets k (collect_files fs []));
      cells = λ k c.
          cells_at-fill_buckets k c (merged fs) (InOrder-merged fs m)
          ∙ last_cells-of_component k c (merged fs) none
          ∙ ap (λ es. last_cells k c es none) (of_component-merged c fs d)
          ∙ sym (last_cells-of_component k c (in_turn fs) none)
          ∙ sym (cells_at-collect k c (in_turn fs) [])
          ∙ sym (ap (cells_at k c) e)
          ∙ sym (cells_at-sorted_buckets k c (collect_files fs []));
    }

-- Where no component is listed twice and every file passes the scan, the stream that is written is the
-- one that the buckets sorted in memory give.
pub write_streamed-write_materialized :
    (fs : List Csv)
    → DistinctNames fs
    → All IsMonotonic fs
    → write_streamed fs ≡ write_materialized fs
unfolding write_streamed write_materialized
write_streamed-write_materialized fs d m =
    let e = collect_files-in_turn fs [] m in
    output_row-SameView fs (fill_buckets none (merged fs)) (sorted_buckets (collect_files fs []))
      (Ascending-fill_buckets (merged fs) (InOrder-merged fs m))
      (Ascending-sorted_buckets (collect_files fs [])
        (subst KeysOnce (sym e) (collect-KeysOnce (in_turn fs) [] tt)))
      (views-agree fs d m)

-- The trust in a component is well placed.
abbrev pub IsTrustedWell : Option (List String) → Csv → Type 0
IsTrustedWell trusted f = is_trusted trusted f ≡ true → rows_are_monotonic f ≡ true

IsMonotonic-nonmonotonic :
    (trusted : Option (List String)) (fs : List Csv)
    → All (IsTrustedWell trusted) fs
    → nonmonotonic trusted fs ≡ []
    → All IsMonotonic fs
IsMonotonic-nonmonotonic trusted [] w h = tt
IsMonotonic-nonmonotonic trusted (f ∷ fs) w h =
    let r = turn (is_trusted trusted f) (rows_are_monotonic f) w.0 h in
    (r.0, IsMonotonic-nonmonotonic trusted fs w.1 r.1)
  where
    turn :
        (t m : Bool)
        → (t ≡ true → m ≡ true)
        → (if not t && not m then f ∷ nonmonotonic trusted fs else nonmonotonic trusted fs) ≡ []
        → (m ≡ true) × (nonmonotonic trusted fs ≡ [])
    turn true m i g = (i refl, g)
    turn false true i g = (refl, g)
    turn false false i g = absurd (cons≢nil g)

-- The rows, unless a check of a header failed.
abbrev pub headed : Option Exit → List (Dict String) → Outcome (List (Dict String))
headed none rows = done rows
headed (some e) rows = exit e

-- The wide layout of the combined file: an exit where a header is missing or lacks the timestamp, else
-- the rows that the buckets sorted in memory give, whichever path is taken. It is so where no component
-- is listed twice and every trusted file would pass the scan.
pub combine_wide-write_materialized :
    (trusted : Option (List String)) (fs : List Csv)
    → DistinctNames fs
    → All (IsTrustedWell trusted) fs
    → combine_wide trusted fs ≡ headed (check_headers fs) (write_materialized fs)
unfolding combine_wide
combine_wide-write_materialized trusted fs d w =
    exit_first (check_headers fs)
    ∙ ap (headed (check_headers fs)) (path (nonmonotonic trusted fs) refl)
  where
    exit_first :
        (o : Option Exit)
        → elim o [ some e ↦ exit e | none ↦ done (write_wide trusted fs) ]
          ≡ headed o (write_wide trusted fs)
    exit_first none = refl
    exit_first (some e) = refl

    path :
        (slow : List Csv)
        → nonmonotonic trusted fs ≡ slow
        → elim slow [ [] ↦ write_streamed fs | _ ∷ _ ↦ write_materialized fs ]
          ≡ write_materialized fs
    path [] e = write_streamed-write_materialized fs d (IsMonotonic-nonmonotonic trusted fs w e)
    path (_ ∷ _) e = refl
