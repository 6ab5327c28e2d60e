-- ===== src/Events/Store/Log.antt =====
-- The log of an event store: versions count the events, redelivery changes nothing, and a cursor misses none.
use mathlib.Core.Path.{subst}
use hermes_plugin_dynamic_wo.Prelude.{
  ℕ, suc, ◌+◌, ◌≤◌, String, ◌≡◌, refl, sym, ap, ◌∙◌, if◌then◌else◌, true, false, none, some, List,
  [], ◌∷◌, ◌++◌, ◌==◌, leb, length, take, arith, Option-cases, inl, inr, length-append, zero, All,
  Bool-cases, eq_iff,
}
use hermes_plugin_dynamic_wo.Prelude.Dict.{Dict, get, put_new, get-put, get-put_self}
use hermes_plugin_dynamic_wo.Python.Int.{pos}
use hermes_plugin_dynamic_wo.Python.Value.{Value, end}
use hermes_plugin_dynamic_wo.Python.Text.{Unicode}
use hermes_plugin_dynamic_wo.Grants.Credentials.{redacted, looks_like_credential}
use hermes_plugin_dynamic_wo.Events.Records.{
  WorkflowEvent, WorkflowEventPredicate, EventArgs, ok, make,
}
use hermes_plugin_dynamic_wo.Events.Records.Made.{with_version-make}
use hermes_plugin_dynamic_wo.Events.Store.{
  EventStore, matching, match_event, payload_matches, find_events, store_event, append_event,
}

-- xs[n:]
abbrev pub drop : {A : Type 0} → ℕ → List A → List A
drop zero xs = xs
drop (suc n) [] = []
drop (suc n) (x ∷ xs) = drop n xs

-- The events behind n others have the versions n + 1, n + 2, ...
abbrev pub Numbered : ℕ → List WorkflowEvent → Type 0
Numbered n [] = Unit
Numbered n (e ∷ es) = (e.version ≡ suc n) × Numbered (suc n) es

abbrev pub index : List WorkflowEvent → Dict WorkflowEvent
index [] = []
index (e ∷ es) = (e.event_id, e) ∷ index es

-- The state that `append_event` keeps: the index is of the events, and the version counts them.
pub record IsLog (s : EventStore) : Type 0 where
  pub indexed : s.by_id ≡ index s.events
  pub counted : s.version ≡ length s.events
  pub numbered : Numbered 0 s.events

index-append : (xs ys : List WorkflowEvent) → index (xs ++ ys) ≡ index xs ++ index ys
index-append [] ys = refl
index-append (x ∷ xs) ys = rw (index-append xs ys)

Numbered-snoc :
    (n : ℕ) (xs : List WorkflowEvent) (e : WorkflowEvent)
    → Numbered n xs
    → e.version ≡ suc (n + length xs)
    → Numbered n (xs ++ e ∷ [])
Numbered-snoc n [] e h k = (omega (arith, k), tt)
Numbered-snoc n (x ∷ xs) e h k = (h.0, Numbered-snoc (suc n) xs e h.1 (omega (arith, k)))

-- A cursor: any event behind a version.
abbrev pub since : ℕ → WorkflowEventPredicate
since n = record {
  source = none;
  event_type = none;
  subject = none;
  payload_match = end;
  after_version = n;
}

match-since :
    (e : WorkflowEvent) (n : ℕ)
    → match_event e (since n) ≡ (if leb e.version n then false else true)
unfolding match_event payload_matches
match-since e n = refl

-- A cursor passes by every version up to its own, and takes every later one.
matching-later :
    (c n : ℕ) (es : List WorkflowEvent) → c ≤ n → Numbered n es → matching (since c) es ≡ es
unfolding matching
matching-later c n [] k h = refl
matching-later c n (e ∷ es) k h =
    let rest = matching-later c (suc n) es (omega (arith, k)) h.1 in
    ground (arith, match-since e c, h.0)

matching-since :
    (c n k : ℕ) (es : List WorkflowEvent)
    → c ≡ n + k
    → Numbered n es
    → matching (since c) es ≡ drop k es
unfolding matching
matching-since c n zero es e h = matching-later c n es (omega (arith, e)) h
matching-since c n (suc k) [] e h = refl
matching-since c n (suc k) (x ∷ es) e h =
    let rest = matching-since c (suc n) k es (omega (arith, e)) h.1 in
    ground (arith, match-since x c, h.0)

-- A reader whose cursor stands at a version of a log finds exactly the events behind that many, in
-- their order, up to the limit: none is missed and none is repeated.
pub find_events-since :
    (s : EventStore) (c limit : ℕ)
    → IsLog s
    → find_events s (since c) (pos limit) ≡ take limit (drop c s.events)
unfolding find_events
find_events-since s c limit l =
    ap (take limit) (matching-since c 0 c s.events (omega arith) l.numbered)

module _ (u : Unicode) (text : Value → String) (now : String) where
  -- What `append_event` does with an event that the constructor made.
  append_made :
      (s : EventStore) (a : EventArgs) (e : WorkflowEvent)
      → looks_like_credential u redacted ≡ false
      → make u text now a ≡ ok e
      → (e.occurred_at == "") ≡ false
      → get e.event_id s.by_id ≡ none
      → append_event u text now s e
        ≡ store_event u text now (ok (record e { version = suc s.version })) s
  unfolding append_event
  append_made s a e safe h t new =
      rw (new, with_version-make u text now a e (suc s.version) safe h t) refl

  append_known :
      (s : EventStore) (e old : WorkflowEvent)
      → get e.event_id s.by_id ≡ some old
      → append_event u text now s e ≡ (ok old, s)
  unfolding append_event
  append_known s e old k = rw k refl

  -- Where the placeholder of the redaction does not look like a credential, an event that the
  -- constructor made, with a time, keeps a log a log, whether it is new or delivered again: the index
  -- is of the events, the version counts them, and they have the versions 1, 2, ... in their order.
  pub append_event-IsLog :
      (s : EventStore) (a : EventArgs) (e : WorkflowEvent)
      → looks_like_credential u redacted ≡ false
      → make u text now a ≡ ok e
      → (e.occurred_at == "") ≡ false
      → IsLog s
      → IsLog (append_event u text now s e).1
  append_event-IsLog s a e safe h t l = elim (Option-cases (get e.event_id s.by_id)) [
    | inl new ↦ rw (append_made s a e safe h t new) (record {
      indexed =
          put_new e.event_id (record e { version = suc s.version }) s.by_id new
          ∙ ap (λ d. d ++ (e.event_id, record e { version = suc s.version }) ∷ []) l.indexed
          ∙ sym (index-append s.events (record e { version = suc s.version } ∷ []));
      counted =
          omega
            (arith, l.counted, length-append s.events (record e { version = suc s.version } ∷ []));
      numbered =
          Numbered-snoc 0 s.events (record e { version = suc s.version }) l.numbered
            (omega (arith, l.counted));
    })
    | inr (old, k) ↦ subst (λ r. IsLog r.1) (sym (append_known s e old k)) l
  ]

  -- An event that the constructor made, with a time.
  abbrev pub IsMade : WorkflowEvent → Type 0
  IsMade e = (a : EventArgs) × (make u text now a ≡ ok e) × ((e.occurred_at == "") ≡ false)

  -- The store after some deliveries, in their order.
  pub deliver : EventStore → List WorkflowEvent → EventStore
  deliver s [] = s
  deliver s (e ∷ es) = deliver (append_event u text now s e).1 es

  -- After a delivery the id of the event is known, and its event is the answer.
  first_delivery :
      (s : EventStore) (e : WorkflowEvent)
      → looks_like_credential u redacted ≡ false
      → IsMade e
      → (old : WorkflowEvent) × ((append_event u text now s e).0 ≡ ok old)
        × (get e.event_id (append_event u text now s e).1.by_id ≡ some old)
  first_delivery s e safe (a, h, t) = elim (Option-cases (get e.event_id s.by_id)) [
    | inl new ↦
        let st = record e { version = suc s.version } in
        rw (append_made s a e safe h t new) (st, refl, get-put_self e.event_id st s.by_id)
    | inr (old, k) ↦ rw (append_known s e old k) (old, refl, k)
  ]

  -- An id that is known stays known, with its event.
  known_stays :
      (s : EventStore) (e old : WorkflowEvent) (k : String)
      → looks_like_credential u redacted ≡ false
      → IsMade e
      → get k s.by_id ≡ some old
      → get k (append_event u text now s e).1.by_id ≡ some old
  known_stays s e old k safe (a, h, t) known = elim (Option-cases (get e.event_id s.by_id)) [
    | inl new ↦ rw (append_made s a e safe h t new) (elim (Bool-cases (e.event_id == k)) [
      | inl same ↦ let eq : e.event_id ≡ k = (eq_iff e.event_id k).0 same in cc
      | inr other ↦
          rw (get-put e.event_id k (record e { version = suc s.version }) s.by_id, other) known
    ])
    | inr (old', l) ↦ rw (append_known s e old' l) known
  ]

  deliver_stays :
      (es : List WorkflowEvent) (s : EventStore) (old : WorkflowEvent) (k : String)
      → looks_like_credential u redacted ≡ false
      → All IsMade es
      → get k s.by_id ≡ some old
      → get k (deliver s es).by_id ≡ some old
  unfolding deliver
  deliver_stays [] s old k safe made known = known
  deliver_stays (e ∷ es) s old k safe made known =
      deliver_stays es (append_event u text now s e).1 old k safe made.1
        (known_stays s e old k safe made.0 known)

  -- Where the placeholder of the redaction does not look like a credential: an event that the
  -- constructor made, with a time, is delivered to any store, then any such events are delivered, and
  -- then the first is delivered again. The last delivery is answered by the event that answered the
  -- first, and it changes nothing in the store.
  pub append_event_again :
      (s : EventStore) (e : WorkflowEvent) (es : List WorkflowEvent)
      → looks_like_credential u redacted ≡ false
      → IsMade e
      → All IsMade es
      → let first = append_event u text now s e in
        append_event u text now (deliver first.1 es) e ≡ (first.0, deliver first.1 es)
  append_event_again s e es safe made others =
      let (old, answer, known) = first_delivery s e safe made in
      let first = append_event u text now s e in
      append_known (deliver first.1 es) e old
        (deliver_stays es first.1 old e.event_id safe others known)
      ∙ ap (λ o. (o, deliver first.1 es)) (sym answer)
