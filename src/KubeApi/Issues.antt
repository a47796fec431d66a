-- ===== src/KubeApi/Issues.antt =====
-- Handlers of the Kubernetes API as sequences of requests to the overlay: rules for their steps.
use anomaly_metric_creator.Base.{
  String, ◌≡◌, refl, ap, sym, ◌∙◌, subst, append-nil, Bool, true, false, List, [], ◌∷◌, ◌++◌,
  if◌then◌else◌, string_eq,
}
use anomaly_metric_creator.Exec.{Result, ok, err, continue, pure, lift, get_state, ◌>>=◌}
use anomaly_metric_creator.Mutations.{World, Method, Datetime}
use anomaly_metric_creator.Mutations.Methods
use anomaly_metric_creator.Mutations.Methods.{EventKey, WorkloadChange}
use anomaly_metric_creator.Mutations.Requests.{Request, apply, serve}

abbrev pub Requests : Type 0
Requests = List (Request × Datetime)

-- From `w` a return of `m` ends where the requests lead.
pub record Issues {A : Type 0} (w : World) (requests : Requests) (m : Method A) : Type 0 where
  pub at : (w' : World) (a : A) → m w ≡ (ok a, w') → w' ≡ serve requests w

pub Issues-pure : {A : Type 0} (w : World) (a : A) → Issues w [] (pure a)
unfolding ◌>>=◌ serve
Issues-pure w a = record { at = λ w' b e. sym (ap (λ x. x.1) e) }

pub Issues-lift_only : {A : Type 0} (w : World) (r : Result A) → Issues w [] (lift r)
unfolding ◌>>=◌ serve
Issues-lift_only w r = record { at = λ w' b e. sym (ap (λ x. x.1) e) }

pub Issues-read :
    {A : Type 0} (w : World) (requests : Requests) (f : World → Method A)
    → Issues w requests (f w)
    → Issues w requests (get_state >>= f)
unfolding ◌>>=◌
Issues-read w requests f i = record { at = i.at }

pub Issues-lift :
    {A B : Type 0} (w : World) (requests : Requests) (r : Result A) (f : A → Method B)
    → ((a : A) → r ≡ ok a → Issues w requests (f a))
    → Issues w requests (lift r >>= f)
unfolding ◌>>=◌
Issues-lift w requests (ok a) f i = record { at = (i a refl).at }
Issues-lift w requests (err x) f i = record { at = λ w' b e. absurd (cc) }

serve-append : (rs qs : Requests) (w : World) → serve (rs ++ qs) w ≡ serve qs (serve rs w)
unfolding serve
serve-append [] qs w = refl
serve-append ((r, now) ∷ rs) qs w = serve-append rs qs (apply r now w).1

pub Issues-bind :
    {A B : Type 0} (w : World) (rs qs : Requests) (m : Method A) (f : A → Method B)
    → Issues w rs m
    → ((a : A) → (m w).0 ≡ ok a → Issues (serve rs w) qs (f a))
    → Issues w (rs ++ qs) (m >>= f)
unfolding ◌>>=◌
Issues-bind {A} {B} w rs qs m f i j = record { at = λ w' b e. go (m w) refl w' b e }
  where
    go :
        (x : Result A × World)
        → m w ≡ x
        → (w' : World) (b : B) → continue x.0 f x.1 ≡ (ok b, w')
        → w' ≡ serve (rs ++ qs) w
    go (ok a, u) p w' b e =
        (j a (ap (λ x. x.0) p)).at w' b (subst (λ x. f a x ≡ (ok b, w')) (i.at u a p) e)
        ∙ sym (serve-append rs qs w)
    go (err x, u) p w' b e = absurd (cc)

-- A mutator, as a request.
pub Issues-request :
    {A : Type 0} (w : World) (r : Request) (now : Datetime) (m : Method A)
    → (m w).1 ≡ (apply r now w).1
    → Issues w ((r, now) ∷ []) m
unfolding serve
Issues-request w r now m p = record { at = λ w' a e. sym (ap (λ x. x.1) e) ∙ p }

-- What follows changes nothing.
pub Issues-end :
    {A B : Type 0} (w : World) (rs : Requests) (m : Method A) (f : A → Method B)
    → Issues w rs m
    → ((a : A) (u : World) → Issues u [] (f a))
    → Issues w rs (m >>= f)
Issues-end w rs m f i j =
    subst (λ l. Issues w l (m >>= f)) (append-nil rs)
      (Issues-bind w rs [] m f i (λ a p. j a (serve rs w)))

pub Issues-if :
    {A : Type 0} (w : World) (b : Bool) (rs qs : Requests) (m k : Method A)
    → Issues w rs m
    → Issues w qs k
    → Issues w (if b then rs else qs) (if b then m else k)
Issues-if w true rs qs m k i j = i
Issues-if w false rs qs m k i j = j

state-continue : {S A : Type 0} (r : Result A) (s : S) → s ≡ (continue r (λ _. pure (tt {0})) s).1
unfolding ◌>>=◌
state-continue (ok a) s = refl
state-continue (err e) s = refl

pub Issues-event :
    (w : World) (k : EventKey) (now : Datetime)
    → Issues w ((Request.record_event k, now) ∷ []) (Methods.record_event k now)
unfolding apply
Issues-event w k now = Issues-request w (Request.record_event k) now _ refl

pub Issues-workload :
    (w : World) (component : String) (c : WorkloadChange) (now : Datetime)
    → Issues w ((Request.set_workload component c, now) ∷ []) (Methods.set_workload component c now)
unfolding apply ◌>>=◌
Issues-workload w component c now =
    let (r, s) = Methods.set_workload component c now w in
    Issues-request w (Request.set_workload component c) now _ (state-continue r s)

-- A change of a workload and its event.
pub Issues-two :
    {B : Type 0} (w : World) (component : String) (c : WorkloadChange) (k : EventKey)
    (now : Datetime) (last : Method (Unit {0}) → Method B)
    → ((u : World)
        → Issues u ((Request.record_event k, now) ∷ []) (last (Methods.record_event k now)))
    → Issues w
        ((Request.set_workload component c, now) ∷ (Request.record_event k, now) ∷ [])
        (Methods.set_workload component c now >>= λ _. last (Methods.record_event k now))
Issues-two w component c k now last i =
    Issues-bind w _ _ _ _ (Issues-workload w component c now) (λ a p. i _)
