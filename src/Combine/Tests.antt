-- ===== src/Combine/Tests.antt =====
-- Two components, one with a timestamp that occurs twice, and one whose rows go back in time.
use anomaly_metric_creator.Base.{String, ◌≡◌, refl, [], ◌∷◌, some, string_eq, nat_eq}
use anomaly_metric_creator.Base.Dict.{Dict, text_lt, insert, lookup, get_or}
use anomaly_metric_creator.Combine.{
  Csv, iter_rows, merge_two, merge_all, fill_buckets, put_metrics, put_components, write_streamed,
  count_rows, put_entry, collect, collect_files, insert_bucket, sorted_buckets, write_materialized,
  scan_rows, check_headers, combine_wide,
}
use anomaly_metric_creator.Combine.Streams.{DistinctNames}
use anomaly_metric_creator.Combine.Agree.{headed, combine_wide-write_materialized}

abbrev row : String → String → Dict String
row t v = ("timestamp", t) ∷ ("cpu", v) ∷ []

abbrev api : Csv
api = record {
  component = "api";
  fieldnames = "timestamp" ∷ "cpu" ∷ [];
  rows = row "01:00" "1" ∷ row "01:00" "2" ∷ row "03:00" "3" ∷ [];
}

abbrev db : Csv
db = record {
  component = "db";
  fieldnames = "timestamp" ∷ "cpu" ∷ [];
  rows = row "01:00" "4" ∷ row "02:00" "5" ∷ [];
}

-- The hour that the clocks repeat is written twice.
abbrev back : Csv
back = record {
  component = "back";
  fieldnames = "timestamp" ∷ "cpu" ∷ [];
  rows = row "02:00" "6" ∷ row "01:00" "7" ∷ row "02:00" "8" ∷ [];
}

abbrev out : String → String → String → Dict String
out t a d = ("timestamp", t) ∷ ("api_cpu", a) ∷ ("db_cpu", d) ∷ []

streamed :
    write_streamed (api ∷ db ∷ [])
    ≡ (out "01:00" "1" "4" ∷ out "01:00" "2" "" ∷ out "02:00" "" "5" ∷ out "03:00" "3" "" ∷ [])
unfolding write_streamed merge_all merge_two fill_buckets iter_rows put_components put_metrics
    insert get_or lookup string_eq nat_eq text_lt
streamed = refl

sorted_hours : write_materialized (back ∷ []) ≡ (
    (("timestamp", "01:00") ∷ ("back_cpu", "7") ∷ [])
    ∷ (("timestamp", "02:00") ∷ ("back_cpu", "6") ∷ [])
    ∷ (("timestamp", "02:00") ∷ ("back_cpu", "8") ∷ [])
    ∷ [])
unfolding write_materialized collect_files collect count_rows put_entry sorted_buckets insert_bucket
    put_components put_metrics insert get_or lookup string_eq nat_eq text_lt
sorted_hours = refl

names : DistinctNames (api ∷ db ∷ [])
unfolding string_eq
names = ((refl, tt), (tt, tt))

combine_wide-write_materialized_example :
    combine_wide (some ("api" ∷ [])) (api ∷ db ∷ [])
    ≡ headed (check_headers (api ∷ db ∷ [])) (write_materialized (api ∷ db ∷ []))
unfolding scan_rows string_eq nat_eq text_lt get_or lookup
combine_wide-write_materialized_example =
    combine_wide-write_materialized (some ("api" ∷ [])) (api ∷ db ∷ []) names
      ((λ _. refl), ((λ _. refl), tt))
