-- ===== src/Runs/Events.antt =====
-- The timeline of a run.
use socio_seo_agent.Prelude.{
  ℕ, ◌+◌, ◌≤◌, ◌<◌, String, ◌≡◌, refl, ap, ◌∙◌, true, false, Option, none, some, List, [], ◌∷◌,
  ◌++◌, length, append_assoc, append-nil, arith, ◌==◌, if◌then◌else◌, Bool-cases, Option-cases, inl,
  inr,
}
use mathlib.Core.Path.{subst}
use socio_seo_agent.Json.{Fields}
use socio_seo_agent.Runs.{
  Event, EventStatus, Events, Store, events_at, push, next_seq, record_event, event_of, after,
  list_events,
}

-- The events are numbered from a number on.
unfoldable pub NumberedFrom : ℕ → List Event → Type 0
NumberedFrom n [] = Unit
NumberedFrom n (e ∷ es) = (e.seq ≡ n) × NumberedFrom (n + 1) es

snoc-NumberedFrom :
    (n : ℕ) (es : List Event) (e : Event)
    → NumberedFrom n es
    → e.seq ≡ n + length es
    → NumberedFrom n (es ++ e ∷ [])
unfolding NumberedFrom
snoc-NumberedFrom n [] e h s = (omega arith, tt)
snoc-NumberedFrom n (x ∷ es) e h s = (h.0, snoc-NumberedFrom (n + 1) es e h.1 (omega arith))

-- Every run's events are numbered from 1.
unfoldable pub IsNumbered : Store → Type 0
IsNumbered s =
    (run_id : ℕ) (es : List Event) → events_at run_id s.events ≡ some es → NumberedFrom 1 es

events_at-push :
    (j run_id : ℕ) (e : Event) (events : Events)
    → events_at j (push run_id e events) ≡ (
        if run_id == j
        then elim (events_at j events) [ none ↦ none | some es ↦ some (es ++ e ∷ []) ]
        else events_at j events)
unfolding events_at push
events_at-push j run_id e [] = ground arith
events_at-push j run_id e (entry ∷ rest) = ground (arith, events_at-push j run_id e rest)

after_numbered : (n k : ℕ) (es : List Event) → NumberedFrom n es → k < n → after k es ≡ es
unfolding NumberedFrom after
after_numbered n k [] h l = refl
after_numbered n k (e ∷ es) h l = ground (arith, after_numbered (n + 1) k es h.1)

after-append : (k : ℕ) (xs ys : List Event) → after k (xs ++ ys) ≡ after k xs ++ after k ys
unfolding after
after-append k [] ys = refl
after-append k (x ∷ xs) ys = ground (arith, after-append k xs ys)

-- The events up to a number are none behind it.
after_all :
    (n k : ℕ) (es : List Event) → NumberedFrom n es → n + length es ≤ k + 1 → after k es ≡ []
unfolding NumberedFrom after
after_all n k [] h l = refl
after_all n k (e ∷ es) h l = ground (arith, after_all (n + 1) k es h.1)

pushed-IsNumbered :
    (s : Store) (run_id : ℕ) (e : Event) (es : List Event)
    → IsNumbered s
    → events_at run_id s.events ≡ some es
    → e.seq ≡ length es + 1
    → IsNumbered (record s { events = push run_id e s.events })
unfolding IsNumbered
pushed-IsNumbered s run_id e es n h q j fs g = elim (Bool-cases (run_id == j)) [
  | inl same ↦
      subst (NumberedFrom 1) (pushed same)
        (snoc-NumberedFrom 1 es e (n run_id es h) (omega (arith, q)))
  | inr other ↦ n j fs (ground (arith, events_at-push j run_id e s.events))
]
  where
    events_eq : {xs ys : List Event} → some xs ≡ some ys → xs ≡ ys
    events_eq x = cc

    pushed : run_id == j ≡ true → es ++ e ∷ [] ≡ fs
    pushed same = events_eq (
        ground (
          arith,
          events_at-push j run_id e s.events,
          ap (λ k. events_at k s.events) (same_id same),
        ))
      where
        same_id : run_id == j ≡ true → run_id ≡ j
        same_id x = ground arith

-- One event keeps the numbers, and lengthens its run's events and no other's.
pub record IsLonger (s t : Store) : Type 0 where
  pub numbered : IsNumbered s → IsNumbered t
  pub kept :
      (j : ℕ) (old : List Event)
      → events_at j s.events ≡ some old
      → (more : List Event) × (events_at j t.events ≡ some (old ++ more))

pushed-IsLonger :
    (s : Store) (run_id : ℕ) (e : Event) (es : List Event)
    → events_at run_id s.events ≡ some es
    → e.seq ≡ length es + 1
    → IsLonger s (record s { events = push run_id e s.events })
pushed-IsLonger s run_id e es h q = record {
  numbered = λ n. pushed-IsNumbered s run_id e es n h q;
  kept = λ j old g. elim (Bool-cases (run_id == j)) [
    | inl same ↦ (e ∷ [], ground (arith, events_at-push j run_id e s.events))
    | inr other ↦ ([], ground (arith, events_at-push j run_id e s.events, append-nil old))
  ];
}

recorded-IsLonger :
    (s t : Store) (run_id : ℕ) (node : String) (status : EventStatus) (payload : Fields) (e : Event)
    → record_event run_id node status payload s ≡ some (e, t)
    → IsLonger s t
unfolding record_event next_seq event_of
recorded-IsLonger s t run_id node status payload e h =
    elim (Option-cases (events_at run_id s.events)) [
      | inl unknown ↦ absurd (never (ground arith))
      | inr known ↦
          let seq = length known.0 + 1 in
          subst (IsLonger s)
            (store_eq {x = event_of run_id seq node status payload} {y = e}
              (ground (arith, known.1)))
            (pushed-IsLonger s run_id (event_of run_id seq node status payload) known.0 known.1
              refl)
    ]
  where
    never : false ≡ true → ⊥
    never x = cc

    store_eq :
        {x y : Event} {u v : Store}
        → ◌≡◌ {A = Option (Event × Store)} (some (x, u)) (some (y, v))
        → u ≡ v
    store_eq x = cc

-- A call of record_event.
pub record Entry : Type 0 where
  pub run_id : ℕ
  pub node : String
  pub status : EventStatus
  pub payload : Fields

store_behind : Store → Option (Event × Store) → Store
store_behind s none = s
store_behind s (some r) = r.1

-- The calls that a store takes; one of an unknown run raises, and changes nothing.
unfoldable pub record_all : List Entry → Store → Store
unfolding record_event store_behind
record_all [] s = s
record_all (c ∷ cs) s =
    record_all cs (store_behind s (record_event c.run_id c.node c.status c.payload s))

same-IsLonger : (s : Store) → IsLonger s s
same-IsLonger s = record { numbered = λ n. n; kept = λ j old g. ([], rw append-nil g) }

behind-IsLonger :
    (s : Store) (c : Entry) (r : Option (Event × Store))
    → record_event c.run_id c.node c.status c.payload s ≡ r
    → IsLonger s (store_behind s r)
unfolding store_behind
behind-IsLonger s c none e = same-IsLonger s
behind-IsLonger s c (some r) e = recorded-IsLonger s r.1 c.run_id c.node c.status c.payload r.0 e

record_all-IsLonger : (entries : List Entry) (s : Store) → IsLonger s (record_all entries s)
unfolding record_all
record_all-IsLonger [] s = same-IsLonger s
record_all-IsLonger (c ∷ cs) s =
    let one = behind-IsLonger s c _ refl in
    let rest =
      record_all-IsLonger cs (store_behind s (record_event c.run_id c.node c.status c.payload s)) in
    record {
      numbered = λ n. rest.numbered (one.numbered n);
      kept = λ j old g.
          let first = one.kept j old g in
          let second = rest.kept j (old ++ first.0) first.1 in
          (first.0 ++ second.0, second.1 ∙ ap some (append_assoc old first.0 second.0));
    }

NumberedFrom-append :
    (n : ℕ) (xs ys : List Event) → NumberedFrom n (xs ++ ys) → NumberedFrom (n + length xs) ys
unfolding NumberedFrom
NumberedFrom-append n [] ys h = subst (λ k. NumberedFrom k ys) (omega arith) h
NumberedFrom-append n (x ∷ xs) ys h =
    subst (λ k. NumberedFrom k ys) (omega arith) (NumberedFrom-append (n + 1) xs ys h.1)

-- A poll misses no event and repeats none: where the events of every run are numbered from 1, so they
-- are behind any calls of record_event, on any runs, and a client that has seen the events of a run so
-- far and asks for those after their number gets exactly the ones that came in between, in their order.
pub poll_complete :
    (s : Store) (run_id : ℕ) (old : List Event) (entries : List Entry)
    → IsNumbered s
    → events_at run_id s.events ≡ some old
    → IsNumbered (record_all entries s)
      × ((new : List Event) × (events_at run_id (record_all entries s).events ≡ some (old ++ new))
          × (list_events run_id (length old) (record_all entries s) ≡ new))
unfolding list_events IsNumbered
poll_complete s run_id old entries n h =
    let longer = record_all-IsLonger entries s in
    let m = longer.numbered n in
    let more = longer.kept run_id old h in
    (
      m,
      (more.0, more.1, rw (more.1, list_events) (polled more.0 (m run_id (old ++ more.0) more.1))),
    )
  where
    polled :
        (new : List Event) → NumberedFrom 1 (old ++ new) → after (length old) (old ++ new) ≡ new
    polled new h1 =
        after-append (length old) old new
        ∙ ap (λ l. l ++ after (length old) new)
            (after_all 1 (length old) old (n run_id old h) (omega arith))
        ∙ after_numbered (1 + length old) (length old) new (NumberedFrom-append 1 old new h1)
            (omega arith)
