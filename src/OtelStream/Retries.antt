-- ===== src/OtelStream/Retries.antt =====
-- How often `_post_with_retries` posts, what it logs and how long it sleeps.
use anomaly_metric_creator.Base.{
  ℕ, zero, suc, ◌+◌, ◌≡◌, refl, ap, ap₂, sym, ◌∙◌, append_assoc, append-nil, Bool, true, false,
  List, [], ◌∷◌, ◌++◌, Option, some, ltb, if◌then◌else◌, arith, Bool-cases, inl, inr,
}
use anomaly_metric_creator.OtelStream.{
  Activity, send, retry, ok, fail, Net, next_reply, later_replies, write_activity, backoff,
  post_loop, post_with_retries,
}

-- What is logged of failures that were tried again, from the attempt after `attempts` on.
abbrev pub failures : ℕ → ℕ → ℕ → List Activity
failures max_retries attempts zero = []
failures max_retries attempts (suc k) =
    send (attempts + 1) (max_retries + 1)
    ∷ retry (attempts + 1) max_retries
    ∷ failures max_retries (attempts + 1) k

abbrev pub waits : ℕ → ℕ → List ℕ
waits attempts zero = []
waits attempts (suc k) = backoff (attempts + 1) ∷ waits (attempts + 1) k

-- How many replies refuse before the first that does not, at most so many.
abbrev pub refusals : ℕ → List Bool → ℕ
refusals zero replies = 0
refusals (suc k) replies =
    let more = suc (refusals k (later_replies replies)) in if next_reply replies then 0 else more

abbrev pub nth_reply : ℕ → List Bool → Bool
nth_reply zero replies = next_reply replies
nth_reply (suc k) replies = nth_reply k (later_replies replies)

abbrev pub skip_replies : ℕ → List Bool → List Bool
skip_replies zero replies = replies
skip_replies (suc k) replies = skip_replies k (later_replies replies)

abbrev pub last_record : Bool → Activity
last_record true = ok
last_record false = fail

-- What stands after the loop, from the number of refusals that were tried again.
abbrev pub outcome : ℕ → ℕ → ℕ → Net → Bool × Net
outcome max_retries attempts k n = (
  nth_reply k n.replies,
  record {
    replies = skip_replies (suc k) n.replies;
    log =
        n.log
        ++ (failures max_retries attempts k
            ++ send (attempts + k + 1) (max_retries + 1)
              ∷ last_record (nth_reply k n.replies)
              ∷ []);
    sleeps = n.sleeps ++ waits attempts k;
  },
)

abbrev taken : ℕ → ℕ → Net → Net
taken max_retries attempts n = record (write_activity (send (attempts + 1) (max_retries + 1)) n) {
  replies = later_replies n.replies;
}

abbrev slept : ℕ → ℕ → Net → Net
slept max_retries attempts n =
    record (write_activity (retry (attempts + 1) max_retries) (taken max_retries attempts n)) {
      sleeps = n.sleeps ++ backoff (attempts + 1) ∷ [];
    }

abbrev finished : ℕ → ℕ → Net → Option (Bool × Net)
finished max_retries attempts n = some (
  next_reply n.replies,
  write_activity (last_record (next_reply n.replies)) (taken max_retries attempts n),
)

finished_lem :
    (max_retries attempts : ℕ) (n : Net)
    → finished max_retries attempts n ≡ some (outcome max_retries attempts 0 n)
finished_lem max_retries attempts n =
    let last = last_record (next_reply n.replies) in
    let number : attempts + 1 ≡ attempts + 0 + 1 = omega arith in
    ap₂
      (λ l s.
        some
          (next_reply n.replies, record { replies = later_replies n.replies; log = l; sleeps = s }))
      (append_assoc n.log (send (attempts + 1) (max_retries + 1) ∷ []) (last ∷ [])
        ∙ ap (λ k. n.log ++ send k (max_retries + 1) ∷ last ∷ []) number)
      (sym (append-nil n.sleeps))

ok_turn :
    (left max_retries attempts : ℕ) (n : Net)
    → next_reply n.replies ≡ true
    → post_loop (suc left) max_retries attempts n ≡ finished max_retries attempts n
unfolding post_loop
ok_turn left max_retries attempts n h = rw (h, post_loop) refl

fail_turn :
    (max_retries attempts : ℕ) (n : Net)
    → next_reply n.replies ≡ false
    → attempts + 0 ≡ max_retries
    → post_loop 1 max_retries attempts n ≡ finished max_retries attempts n
unfolding post_loop
fail_turn max_retries attempts n h e =
    let over : ltb max_retries (attempts + 1) ≡ true = ground (arith, e) in
    rw (h, over, post_loop) refl

retry_turn :
    (left max_retries attempts : ℕ) (n : Net)
    → next_reply n.replies ≡ false
    → attempts + suc left ≡ max_retries
    → post_loop (suc (suc left)) max_retries attempts n
      ≡ post_loop (suc left) max_retries (attempts + 1) (slept max_retries attempts n)
unfolding post_loop
retry_turn left max_retries attempts n h e =
    let within : ltb max_retries (attempts + 1) ≡ false = ground (arith, e) in
    rw (h, within, post_loop) refl

outcome-slept :
    (max_retries attempts k : ℕ) (n : Net)
    → outcome max_retries (attempts + 1) k (slept max_retries attempts n)
      ≡ outcome max_retries attempts (suc k) n
outcome-slept max_retries attempts k n =
    let number : attempts + 1 + k + 1 ≡ attempts + suc k + 1 = omega arith in
    rw
      (
        number,
        append_assoc n.sleeps (backoff (attempts + 1) ∷ []) (waits (attempts + 1) k),
        append_assoc (n.log ++ send (attempts + 1) (max_retries + 1) ∷ [])
            (retry (attempts + 1) max_retries ∷ []),
        append_assoc n.log (send (attempts + 1) (max_retries + 1) ∷ []),
      )
      refl

post_loop_lem :
    (left max_retries attempts : ℕ) (n : Net)
    → attempts + left ≡ max_retries
    → post_loop (suc left) max_retries attempts n
      ≡ some (outcome max_retries attempts (refusals left n.replies) n)
post_loop_lem zero max_retries attempts n e = elim (Bool-cases (next_reply n.replies)) [
  | inl h ↦ ok_turn zero max_retries attempts n h ∙ finished_lem max_retries attempts n
  | inr h ↦ fail_turn max_retries attempts n h e ∙ finished_lem max_retries attempts n
]
post_loop_lem (suc left) max_retries attempts n e = elim (Bool-cases (next_reply n.replies)) [
  | inl h ↦
      let none_refused : refusals (suc left) n.replies ≡ 0 = rw h refl in
      rw none_refused
        (ok_turn (suc left) max_retries attempts n h ∙ finished_lem max_retries attempts n)
  | inr h ↦
      let rest = refusals left (later_replies n.replies) in
      let one_refused : refusals (suc left) n.replies ≡ suc rest = rw h refl in
      rw one_refused (
        retry_turn left max_retries attempts n h e
        ∙ post_loop_lem left max_retries (attempts + 1) (slept max_retries attempts n)
            (omega (arith, e))
        ∙ ap some (outcome-slept max_retries attempts rest n))
]

-- A post ends after as many refusals as come one after the other, at most `max_retries` of them tried
-- again: the log has a SEND and a RETRY for each, then the last SEND and its OK or FAIL, the sleeps
-- are the back-offs in between, and it returns whether the last attempt was accepted.
pub post_with_retries_lem :
    (max_retries : ℕ) (n : Net)
    → post_with_retries max_retries n
      ≡ some (outcome max_retries 0 (refusals max_retries n.replies) n)
unfolding post_with_retries
post_with_retries_lem max_retries n = post_loop_lem max_retries max_retries 0 n (omega arith)
