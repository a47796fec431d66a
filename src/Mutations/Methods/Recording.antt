-- ===== src/Mutations/Methods/Recording.antt =====
-- `record_event` of server_mutations.py: an event that is already kept is counted, another is added.
use anomaly_metric_creator.Base.{
  String, ℕ, ◌-◌, Bool, false, ◌&&◌, List, [], ◌∷◌, ◌++◌, Option, none, some, ℤ, pos, ◌+ℤ◌,
  pos_part, length, drop, if◌then◌else◌, string_eq, nat_eq,
}
use anomaly_metric_creator.Base.Dict.{lookup, get_or, insert}
use anomaly_metric_creator.Base.Text.{or_else}
use anomaly_metric_creator.Exec.{Result, ok, err}
use anomaly_metric_creator.Json.{num, str, Row, int_of, is_text}
use anomaly_metric_creator.Mutations.{
  World, Method, default_namespace, Datetime, format_dt, commit, update,
}

-- `event.get(key) == value`.
abbrev pub has_text : Row → String → String → Bool
has_text event key value = elim (lookup key event) [ none ↦ false | some j ↦ is_text j value ]

-- What makes two events one: the type, the reason, the namespace, the object and the message.
pub record EventKey : Type 0 where
  pub event_type : String
  pub reason : String
  pub namespace : String
  pub object : String
  pub message : String

unfoldable pub same_event : EventKey → Row → Bool
same_event k event =
    has_text event "type" k.event_type
    && has_text event "reason" k.reason
    && is_text (get_or "namespace" (str default_namespace) event) k.namespace
    && has_text event "object" k.object
    && has_text event "message" k.message

unfoldable pub count_event : Result ℤ → Row → Result (Unit {0}) × Row
count_event (ok n) event = (ok tt, insert "count" (num (n +ℤ pos 1)) event)
count_event (err e) event = (err e, event)

-- `last_seen` is written before `int` of the count may raise.
unfoldable pub touch_event : String → Row → Result (Unit {0}) × Row
unfolding count_event
touch_event timestamp event =
    let seen = insert "last_seen" (str timestamp) event in
    count_event (int_of (get_or "count" (num (pos 1)) seen)) seen

-- The loop over the events: the first that is the same is touched; nothing where none is.
unfoldable pub touch_first : EventKey → String → List Row → Option (Result (Unit {0}) × List Row)
touch_first k timestamp [] = none
touch_first k timestamp (event ∷ events) =
    let (r, touched) = touch_event timestamp event in
    let rest : Option (Result (Unit {0}) × List Row) = elim (touch_first k timestamp events) [
      | none ↦ none
      | some (s, later) ↦ some (s, event ∷ later)
    ] in
    if same_event k event then some (r, touched ∷ events) else rest

unfoldable pub new_event : EventKey → String → Row
new_event k timestamp =
    ("first_seen", str timestamp)
    ∷ ("last_seen", str timestamp)
    ∷ ("type", str k.event_type)
    ∷ ("reason", str k.reason)
    ∷ ("namespace", str k.namespace)
    ∷ ("object", str k.object)
    ∷ ("message", str k.message)
    ∷ ("count", num (pos 1))
    ∷ []

-- `max(limit, 0)`, and the newest so many events.
abbrev pub event_cap : ℤ → ℕ
event_cap limit = pos_part limit

unfoldable pub trim_events : ℤ → List Row → List Row
trim_events limit events = drop (length events - event_cap limit) events

abbrev pub with_events : List Row → World → World
with_events events = update (λ m. record m { extra_events = events })

-- Whether an event was touched decides what is written, and whether the commit is reached.
unfoldable pub finish_event :
    EventKey → String → Option (Result (Unit {0}) × List Row) → Method (Unit {0})
finish_event k timestamp none w = commit (
    with_events
      (trim_events w.overlay.extra_event_limit
        (w.overlay.extra_events ++ new_event k timestamp ∷ []))
      w)
finish_event k timestamp (some (ok _, touched)) w = commit (with_events touched w)
finish_event k timestamp (some (err e, touched)) w = (err e, with_events touched w)

abbrev pub in_namespace : EventKey → EventKey
in_namespace k = record k { namespace = or_else k.namespace default_namespace }

unfoldable pub record_event : EventKey → Datetime → Method (Unit {0})
unfolding finish_event
record_event key now w =
    let k = in_namespace key in
    finish_event k (format_dt now) (touch_first k (format_dt now) w.overlay.extra_events) w
