-- ===== src/OtelStream/Posts.antt =====
-- What `stream_otel_signals` sends: the start of what it would send without a limit.
use anomaly_metric_creator.Base.{
  joined, String, ℕ, zero, suc, ◌+◌, ◌-◌, ◌≡◌, refl, ap, sym, ◌∙◌, append_assoc, append-nil, Bool,
  true, false, not, ◌&&◌, length, length-append, List, [], ◌∷◌, ◌++◌, map, take, Option, none, some,
  contains, if◌then◌else◌, if-elim, arith, string_eq,
}
use anomaly_metric_creator.Base.Dict.{Dict}
use anomaly_metric_creator.Base.Text.{is_empty}
use anomaly_metric_creator.OtelStream.{is_capped, Net}
use anomaly_metric_creator.OtelStream.Signals.{
  Anomaly, Signals, known_signals, sorted_rows, attempted, send_signal, send_anomaly,
  send_anomalies, new_signals, stream_otel_signals,
}
use anomaly_metric_creator.OtelStream.Attempts.{active_signals, posts_of}

-- As many of the requests as the limit leaves, where some are made.
abbrev pub allowed {ℓ} : {A : Type ℓ} → Option ℕ → ℕ → List A → List A
allowed none made l = l
allowed (some max_events) made l = take (max_events - made) l

take-append {ℓ} :
    {A : Type ℓ} (k : ℕ) (xs ys : List A)
    → take k (xs ++ ys) ≡ take k xs ++ take (k - length (take k xs)) ys
take-append zero xs ys = refl
take-append (suc k) [] ys = let e : suc k ≡ suc k - 0 = omega arith in ap (λ n. take n ys) e
take-append (suc k) (x ∷ xs) ys =
    let e : k - length (take k xs) ≡ suc k - length (x ∷ take k xs) = omega arith in
    ap (λ l. x ∷ l) (take-append k xs ys ∙ ap (λ n. take k xs ++ take n ys) e)

allowed-append {ℓ} :
    {A : Type ℓ} (max_events : Option ℕ) (made : ℕ) (xs ys : List A)
    → allowed max_events made (xs ++ ys)
      ≡ allowed max_events made xs
        ++ allowed max_events (made + length (allowed max_events made xs)) ys
allowed-append none made xs ys = refl
allowed-append (some m) made xs ys =
    let l = take (m - made) xs in
    let e : m - made - length l ≡ m - (made + length l) = omega arith in
    take-append (m - made) xs ys ∙ ap (λ n. l ++ take n ys) e

allowed-nil {ℓ} :
    (A : Type ℓ) (max_events : Option ℕ) (made : ℕ) → allowed {A = A} max_events made [] ≡ []
allowed-nil A none made = refl
allowed-nil A (some m) made = none_of (m - made)
  where
    none_of : (k : ℕ) → take {A = A} k [] ≡ []
    none_of zero = refl
    none_of (suc k) = refl

allowed-capped {ℓ} :
    {A : Type ℓ} (max_events : Option ℕ) (made : ℕ) (l : List A)
    → is_capped max_events made ≡ true
    → allowed max_events made l ≡ []
allowed-capped none made l h = absurd (cc)
allowed-capped (some m) made l h = let e : m - made ≡ 0 = ground (arith, h) in ap (λ n. take n l) e

allowed-next {ℓ} :
    {A : Type ℓ} (max_events : Option ℕ) (made : ℕ) (x : A)
    → is_capped max_events made ≡ false
    → allowed max_events made (x ∷ []) ≡ x ∷ []
allowed-next none made x h = refl
allowed-next (some m) made x h =
    let e : m - made ≡ suc (m - suc made) = ground (arith, h) in
    ap (λ n. take n (x ∷ [])) e ∙ last (m - suc made)
  where
    last : (n : ℕ) → take (suc n) (x ∷ []) ≡ x ∷ []
    last zero = refl
    last (suc n) = refl

module _ {R : Type 0} (max_events : Option ℕ) where
  abbrev cut_to : Signals R → List (String × Anomaly R) → List (String × Anomaly R)
  cut_to s l = allowed max_events s.requests_attempted l

  -- Of the requests `l` those that the limit leaves are made, all of them where nothing aborts.
  record Sent (l : List (String × Anomaly R)) (s : Signals R) (x : Bool × Signals R) : Type 0 where
    pub stops : x.0 ≡ true → is_capped max_events x.1.requests_attempted ≡ true
    pub made : x.1.requests_attempted ≡ s.requests_attempted + length (cut_to s l)
    pub sends : x.1.posts ≡ s.posts ++ cut_to s l

  Sent-none : (s : Signals R) → Sent [] s (false, s)
  Sent-none s = record {
    stops = λ h. absurd (cc);
    made =
        omega (arith, ap length (allowed-nil (String × Anomaly R) max_events s.requests_attempted));
    sends =
        sym (append-nil s.posts)
        ∙ ap (λ l. s.posts ++ l)
            (sym (allowed-nil (String × Anomaly R) max_events s.requests_attempted));
  }

  Sent-capped :
      (l : List (String × Anomaly R)) (s : Signals R)
      → is_capped max_events s.requests_attempted ≡ true
      → Sent l s (true, s)
  Sent-capped l s h =
      let e = allowed-capped max_events s.requests_attempted l h in
      record {
        stops = λ _. h;
        made = omega (arith, ap length e);
        sends = sym (append-nil s.posts) ∙ ap (λ k. s.posts ++ k) (sym e);
      }

  -- Two parts of the stream one after the other.
  posts-append :
      (l k : List (String × Anomaly R)) (s : Signals R) (x : Bool × Signals R) (u : Signals R)
      → Sent l s x
      → u.posts ≡ x.1.posts ++ cut_to x.1 k
      → u.posts ≡ s.posts ++ cut_to s (l ++ k)
  posts-append l k s x u h g =
      let m = ap (λ i. allowed max_events i k) h.made in
      g
      ∙ ap (λ p. p ++ cut_to x.1 k) h.sends
      ∙ append_assoc s.posts (cut_to s l) (cut_to x.1 k)
      ∙ ap (λ p. s.posts ++ p)
          (ap (λ q. cut_to s l ++ q) m ∙ sym (allowed-append max_events s.requests_attempted l k))

  Sent-append :
      (l k : List (String × Anomaly R)) (s : Signals R) (x y : Bool × Signals R)
      → Sent l s x
      → Sent k x.1 y
      → Sent (l ++ k) s y
  Sent-append l k s x y h g =
      let n = s.requests_attempted + length (cut_to s l) in
      let e = allowed-append max_events s.requests_attempted l k in
      let m : cut_to x.1 k ≡ allowed max_events n k = ap (λ i. allowed max_events i k) h.made in
      record {
        stops = g.stops;
        made = omega (
          arith,
          g.made,
          h.made,
          ap length e,
          ap length m,
          length-append (cut_to s l) (allowed max_events n k),
        );
        sends = posts-append l k s x y.1 h g.sends;
      }

  attempted-Sent :
      (max_retries : ℕ) (a : Anomaly R) (signal : String) (s : Signals R)
      → is_capped max_events s.requests_attempted ≡ false
      → Sent ((signal, a) ∷ []) s (false, attempted max_retries a signal s)
  attempted-Sent max_retries a signal s h =
      let e : cut_to s ((signal, a) ∷ []) ≡ (signal, a) ∷ [] =
        allowed-next max_events s.requests_attempted (signal, a) h in
      record {
        stops = λ h. absurd (cc);
        made = omega (arith, ap length e);
        sends = ap (λ l. s.posts ++ l) (sym e);
      }

  send_signal-Sent :
      (max_retries : ℕ) (a : Anomaly R) (signal endpoint : String) (s : Signals R)
      → Sent
          (posts_of ((signal, endpoint) ∷ []) a)
          s
          (send_signal max_events max_retries a signal endpoint s)
  unfolding send_signal
  send_signal-Sent max_retries a signal endpoint s =
      by_guards (is_empty endpoint) (is_capped max_events s.requests_attempted)
        (contains signal known_signals) refl
    where
      by_guards :
          (empty capped known : Bool)
          → is_capped max_events s.requests_attempted ≡ capped
          → Sent (map (λ g. (g, a)) (if not empty && known then signal ∷ [] else [])) s (
              if empty
              then (false, s)
              else if capped
              then (true, s)
              else if known
              then (false, attempted max_retries a signal s)
              else (false, s))
      by_guards true capped known h = Sent-none s
      by_guards false true known h = Sent-capped _ s h
      by_guards false false true h = attempted-Sent max_retries a signal s h
      by_guards false false false h = Sent-none s

  posts_of-cons :
      (a : Anomaly R) (signal endpoint : String) (endpoints : Dict String)
      → posts_of ((signal, endpoint) ∷ endpoints) a
        ≡ posts_of ((signal, endpoint) ∷ []) a ++ posts_of endpoints a
  posts_of-cons a signal endpoint endpoints =
      either (not (is_empty endpoint) && contains signal known_signals)
    where
      either :
          (b : Bool)
          → map
              (λ g. (g, a))
              (if b then signal ∷ active_signals endpoints else active_signals endpoints)
            ≡ map (λ g. (g, a)) (if b then signal ∷ [] else []) ++ posts_of endpoints a
      either true = refl
      either false = refl

  send_anomaly-Sent :
      (max_retries : ℕ) (a : Anomaly R) (endpoints : Dict String) (s : Signals R)
      → Sent (posts_of endpoints a) s (send_anomaly max_events max_retries a endpoints s)
  unfolding send_anomaly
  send_anomaly-Sent max_retries a [] s = Sent-none s
  send_anomaly-Sent max_retries a ((signal, endpoint) ∷ endpoints) s =
      let x = send_signal max_events max_retries a signal endpoint s in
      let h = send_signal-Sent max_retries a signal endpoint s in
      let later = posts_of endpoints a in
      rw (posts_of-cons a signal endpoint endpoints) (
        Sent-append (posts_of ((signal, endpoint) ∷ []) a) later s x _ h (
          if-elim (Sent later x.1) x.0 (λ e. Sent-capped later x.1 (h.stops e))
            (λ _. send_anomaly-Sent max_retries a endpoints x.1)))

  send_anomalies-posts :
      (max_retries : ℕ) (endpoints : Dict String) (rows : List (Anomaly R)) (s : Signals R)
      → (send_anomalies max_events max_retries endpoints rows s).posts
        ≡ s.posts ++ cut_to s (joined (map (posts_of endpoints) rows))
  unfolding send_anomalies
  send_anomalies-posts max_retries endpoints [] s = (Sent-none s).sends
  send_anomalies-posts max_retries endpoints (a ∷ rows) s =
      let x = send_anomaly max_events max_retries a endpoints s in
      let h = send_anomaly-Sent max_retries a endpoints s in
      let now = posts_of endpoints a in
      let later = joined (map (posts_of endpoints) rows) in
      let P : Signals R → Type 0 = λ u. u.posts ≡ s.posts ++ cut_to s (now ++ later) in
      if-elim P (is_capped max_events s.requests_attempted)
        (λ e. (Sent-capped (now ++ later) s e).sends)
        (λ _.
          if-elim P x.0
            (λ e. posts-append now later s x x.1 h (Sent-capped later x.1 (h.stops e)).sends)
            (λ _.
              posts-append now later s x (send_anomalies max_events max_retries endpoints rows x.1)
                h (send_anomalies-posts max_retries endpoints rows x.1)))

-- The requests of the stream are the first `max_events`, or all where there is no limit, of these:
-- one for each anomaly, in the order that `sorted_rows` puts them in, and each of the signals logs,
-- metrics and traces that has an endpoint, in the order of the endpoints. The replies change nothing.
pub stream_otel_signals-posts :
    {R : Type 0} (endpoints : Dict String) (anomaly_rows : List (Anomaly R)) (max_events : Option ℕ)
    (max_retries : ℕ) (net : Net)
    → (stream_otel_signals endpoints anomaly_rows max_events max_retries net).posts
      ≡ allowed max_events 0 (joined (map (posts_of endpoints) (sorted_rows anomaly_rows)))
unfolding stream_otel_signals
stream_otel_signals-posts endpoints anomaly_rows max_events max_retries net =
    send_anomalies-posts max_events max_retries endpoints (sorted_rows anomaly_rows)
      (new_signals net)
