-- ===== src/Mutations/Events.antt =====
-- The ring of events: its bound, and that repeated events are counted and not listed again.
use anomaly_metric_creator.Base.{
  String, ℕ, ◌-◌, ◌≤◌, ◌≡◌, refl, ap, sym, subst, Bool, true, false, ◌&&◌, Bool-cases, zero, suc,
  List, [], ◌∷◌, ◌++◌, none, some, arith, length, length-drop, drop, All, All-append, contains,
  Option-cases, inl, inr, ℤ, ◌∙◌, ◌==◌, string_eq,
}
use anomaly_metric_creator.Base.Dict.{lookup, insert, get_or, lookup-insert}
use anomaly_metric_creator.Exec.{Result, ok, err}
use anomaly_metric_creator.Json.{Json, Row, is_text}
use anomaly_metric_creator.Mutations.{World, SimulationMutations, Datetime}
use anomaly_metric_creator.Mutations.Methods.{
  EventKey, same_event, count_event, touch_event, touch_first, new_event, trim_events, event_cap,
  with_events, put_pod, put_created, put_deleted,
}
use anomaly_metric_creator.Mutations.Commit.{Keeps-commit}
use anomaly_metric_creator.Mutations.Requests.{Request, serve}
use anomaly_metric_creator.Mutations.Closed.{Closed, serve-Keeps}

-- The first event that is the same was touched, and no other.
data Touched (k : EventKey) (timestamp : String) : List Row → List Row → Type 0 where
  here :
      (e : Row) (es : List Row)
      → same_event k e ≡ true
      → Touched k timestamp (e ∷ es) ((touch_event timestamp e).1 ∷ es)
  there :
      (e : Row) {es es' : List Row}
      → same_event k e ≡ false
      → Touched k timestamp es es'
      → Touched k timestamp (e ∷ es) (e ∷ es')

touch_first-Touched :
    (k : EventKey) (timestamp : String) (events : List Row) (x : Result (Unit {0}) × List Row)
    → touch_first k timestamp events ≡ some x
    → Touched k timestamp events x.1
unfolding touch_first
touch_first-Touched k timestamp [] x h = absurd (cc)
touch_first-Touched k timestamp (e ∷ es) x h = elim (Bool-cases (same_event k e)) [
  | inl same ↦
      let p : (touch_event timestamp e).1 ∷ es ≡ x.1 = ground (arith, same) in
      subst (Touched k timestamp (e ∷ es)) p (here e es same)
  | inr other ↦ elim (Option-cases (touch_first k timestamp es)) [
    | inl q ↦ absurd (ground (arith, other, q))
    | inr (y, q) ↦
        let p : e ∷ y.1 ≡ x.1 = ground (arith, other, q) in
        subst (Touched k timestamp (e ∷ es)) p
          (there e other (touch_first-Touched k timestamp es y q))
  ]
]

length-Touched :
    {k : EventKey} {timestamp : String} {events events' : List Row}
    → Touched k timestamp events events'
    → length events' ≡ length events
length-Touched (here e es h) = refl
length-Touched (there e h t) = ap suc (length-Touched t)

lookup-insert_ne :
    (j key : String) (v : Json) (event : Row)
    → (j == key) ≡ false
    → lookup key (insert j v event) ≡ lookup key event
lookup-insert_ne j key v event h = rw (lookup-insert, h)

same_event-insert :
    (k : EventKey) (j : String) (v : Json) (event : Row)
    → contains j ("type" ∷ "reason" ∷ "namespace" ∷ "object" ∷ "message" ∷ []) ≡ false
    → same_event k (insert j v event) ≡ same_event k event
unfolding same_event get_or
same_event-insert k j v event h = ground (
  arith,
  lookup-insert_ne j "type" v event (ground arith),
  lookup-insert_ne j "reason" v event (ground arith),
  lookup-insert_ne j "namespace" v event (ground arith),
  lookup-insert_ne j "object" v event (ground arith),
  lookup-insert_ne j "message" v event (ground arith),
)

same_event-count_event :
    (k : EventKey) (n : Result ℤ) (event : Row)
    → same_event k (count_event n event).1 ≡ same_event k event
unfolding count_event
same_event-count_event k (ok n) event =
    same_event-insert k "count" _ event (unfold string_eq in refl)
same_event-count_event k (err e) event = refl

same_event-touch_event :
    (k : EventKey) (timestamp : String) (event : Row)
    → same_event k (touch_event timestamp event).1 ≡ same_event k event
unfolding touch_event
same_event-touch_event k timestamp event =
    same_event-count_event k _ _
    ∙ same_event-insert k "last_seen" _ event (unfold string_eq in refl)

-- Each event is about something else.
abbrev Differs : Row → Row → Type 0
Differs e f = (k : EventKey) → same_event k e ≡ true → same_event k f ≡ false

abbrev pub AllDiffer : List Row → Type 0
AllDiffer [] = Unit
AllDiffer (e ∷ es) = All (Differs e) es × AllDiffer es

-- Where nothing is touched nothing is the same.
touch_first-none :
    (k : EventKey) (timestamp : String) (events : List Row)
    → touch_first k timestamp events ≡ none
    → All (λ e. same_event k e ≡ false) events
unfolding touch_first
touch_first-none k timestamp [] h = tt
touch_first-none k timestamp (event ∷ events) h =
    elim (Option-cases (touch_first k timestamp events)) [
      | inl e ↦ (ground (arith, e), touch_first-none k timestamp events e)
      | inr (y, e) ↦ absurd (ground (arith, e))
    ]

abbrev same_key : EventKey → EventKey → Bool
same_key k k' =
    k.event_type == k'.event_type
    && k.reason == k'.reason
    && k.namespace == k'.namespace
    && k.object == k'.object
    && k.message == k'.message

same_event-new_event :
    (k k' : EventKey) (timestamp : String) → same_event k' (new_event k timestamp) ≡ same_key k k'
unfolding same_event new_event get_or lookup string_eq is_text
same_event-new_event k k' timestamp = refl

same_key-eq : (k k' : EventKey) → same_key k k' ≡ true → k ≡ k'
same_key-eq k k' h = ground arith

-- A new event differs from all events that are not the same for its key.
Differs-new_event :
    (k : EventKey) (timestamp : String) (e : Row)
    → same_event k e ≡ false
    → Differs e (new_event k timestamp)
Differs-new_event k timestamp e h k' h' = elim (Bool-cases (same_key k k')) [
  | inl same ↦ absurd (cc (same_key-eq k k' same))
  | inr other ↦ same_event-new_event k k' timestamp ∙ other
]

AllDiffer-append :
    (k : EventKey) (timestamp : String) (events : List Row)
    → All (λ e. same_event k e ≡ false) events
    → AllDiffer events
    → AllDiffer (events ++ new_event k timestamp ∷ [])
AllDiffer-append k timestamp [] h d = (tt, tt)
AllDiffer-append k timestamp (e ∷ es) (h, hs) (d, ds) = (
  All-append _ es _ d (Differs-new_event k timestamp e h, tt),
  AllDiffer-append k timestamp es hs ds,
)

AllDiffer-drop : (n : ℕ) (events : List Row) → AllDiffer events → AllDiffer (drop n events)
AllDiffer-drop zero events d = d
AllDiffer-drop (suc n) [] d = d
AllDiffer-drop (suc n) (e ∷ es) (_, ds) = AllDiffer-drop n es ds

Differs-touch_event :
    (e f : Row) (timestamp : String) → Differs e f → Differs e (touch_event timestamp f).1
Differs-touch_event e f timestamp d k h = same_event-touch_event k timestamp f ∙ d k h

touch_event-Differs :
    (e f : Row) (timestamp : String) → Differs e f → Differs (touch_event timestamp e).1 f
touch_event-Differs e f timestamp d k h = d k (sym (same_event-touch_event k timestamp e) ∙ h)

All-touch_event-Differs :
    (e : Row) (timestamp : String) (fs : List Row)
    → All (Differs e) fs
    → All (Differs (touch_event timestamp e).1) fs
All-touch_event-Differs e timestamp [] d = tt
All-touch_event-Differs e timestamp (f ∷ fs) (d, ds) =
    (touch_event-Differs e f timestamp d, All-touch_event-Differs e timestamp fs ds)

All-Differs-Touched :
    {k : EventKey} {timestamp : String} {events events' : List Row} (e : Row)
    → Touched k timestamp events events'
    → All (Differs e) events
    → All (Differs e) events'
All-Differs-Touched {timestamp} e (here f fs h) (d, ds) = (Differs-touch_event e f timestamp d, ds)
All-Differs-Touched e (there f h t) (d, ds) = (d, All-Differs-Touched e t ds)

AllDiffer-Touched :
    {k : EventKey} {timestamp : String} {events events' : List Row}
    → Touched k timestamp events events'
    → AllDiffer events
    → AllDiffer events'
AllDiffer-Touched {timestamp} (here e es h) (d, ds) = (All-touch_event-Differs e timestamp es d, ds)
AllDiffer-Touched (there e h t) (d, ds) = (All-Differs-Touched e t d, AllDiffer-Touched t ds)

-- No more events than the cap, and none listed twice.
pub record IsRing (o : SimulationMutations) : Type 0 where
  pub bounded : length o.extra_events ≤ event_cap o.extra_event_limit
  pub differ : AllDiffer o.extra_events

abbrev HasRing : World → Type 0
HasRing w = IsRing w.overlay

IsRing-new_event :
    (k : EventKey) (timestamp : String) (w : World)
    → HasRing w
    → touch_first k timestamp w.overlay.extra_events ≡ none
    → HasRing (
        with_events
          (trim_events w.overlay.extra_event_limit
            (w.overlay.extra_events ++ new_event k timestamp ∷ []))
          w)
unfolding trim_events
IsRing-new_event k timestamp w h e =
    let events = w.overlay.extra_events ++ new_event k timestamp ∷ [] in
    let n = length events - event_cap w.overlay.extra_event_limit in
    record {
      bounded = omega (arith, length-drop n events);
      differ =
          AllDiffer-drop n events
            (AllDiffer-append k timestamp _ (touch_first-none k timestamp _ e) h.differ);
    }

IsRing-touched :
    (k : EventKey) (timestamp : String) (r : Result (Unit {0})) (touched : List Row) (w : World)
    → HasRing w
    → touch_first k timestamp w.overlay.extra_events ≡ some (r, touched)
    → HasRing (with_events touched w)
IsRing-touched k timestamp r touched w h e =
    let t = touch_first-Touched k timestamp w.overlay.extra_events (r, touched) e in
    record { bounded = rw (length-Touched t) h.bounded; differ = AllDiffer-Touched t h.differ }

HasRing-Closed : Closed HasRing
HasRing-Closed = record {
  at_commit = Keeps-commit IsRing (λ o h. record { bounded = h.bounded; differ = h.differ });
  at_new_event = IsRing-new_event;
  at_touched = IsRing-touched;
  at_workload = λ component c now w h. record { bounded = h.bounded; differ = h.differ };
  at_pod = λ pod w h. unfold put_pod in record { bounded = h.bounded; differ = h.differ };
  at_put =
      λ kind key row w h. unfold put_created in record { bounded = h.bounded; differ = h.differ };
  at_delete =
      λ kind key w h. unfold put_deleted in record { bounded = h.bounded; differ = h.differ };
  at_reset = λ w h. record { bounded = omega arith; differ = tt };
  at_release = λ f w h. record { bounded = h.bounded; differ = h.differ };
}

-- Where there are at first no more events than the cap and no two agree in type, reason, namespace,
-- object and message, so it is whatever is asked of the overlay, and whatever is refused or fails to
-- be written. That no two events of a file agree is not checked when it is read.
pub serve-IsRing :
    (requests : List (Request × Datetime)) (w : World)
    → IsRing w.overlay
    → IsRing (serve requests w).overlay
serve-IsRing = serve-Keeps HasRing-Closed
