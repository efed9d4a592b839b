-- ===== src/Runs/Service/Rows.antt =====
-- What an operation on one row leaves of the rows.
use socio_seo_agent.Prelude.{
  ℕ, ◌≡◌, refl, ap, sym, ◌∙◌, true, Option, none, some, List, [], ◌∷◌, ◌==◌, if◌then◌else◌, arith,
  inl, inr, Bool-cases, Option-cases,
}
use mathlib.Core.Path.{subst}
use mathlib.Core.Option.{some-injective}
use socio_seo_agent.Runs.{Run, Store, update_run}
use socio_seo_agent.Runs.Service.{find_run, put_run, change}

pub find_run-id :
    (run_id : ℕ) (runs : List Run) (run : Run) → find_run run_id runs ≡ some run → run.id ≡ run_id
unfolding find_run
find_run-id run_id [] run h = cc
find_run-id run_id (x ∷ runs) run h = ground (arith, find_run-id run_id runs run)

-- A change of a row that keeps its identifier.
pub record KeepsId (f : Run → Run) : Type 0 where
  pub id : (run : Run) → (f run).id ≡ run.id

find_run-update_run :
    (run_id : ℕ) (f : Run → Run) (runs changed : List Run) (j : ℕ)
    → KeepsId f
    → update_run run_id f runs ≡ some changed
    → find_run j changed ≡ (
        if run_id == j
        then elim (find_run j runs) [ none ↦ none | some run ↦ some (f run) ]
        else find_run j runs)
unfolding find_run update_run
find_run-update_run run_id f [] changed j k h = cc
find_run-update_run run_id f (run ∷ runs) changed j k h =
    elim (Option-cases (update_run run_id f runs)) [
      | inl e ↦ ground (arith, k.id run)
      | inr (others, e) ↦ ground (arith, k.id run, find_run-update_run run_id f runs others j k)
    ]

update_run_known :
    (run_id : ℕ) (f : Run → Run) (runs : List Run) (run : Run)
    → find_run run_id runs ≡ some run
    → (changed : List Run) × (update_run run_id f runs ≡ some changed)
unfolding find_run update_run
update_run_known run_id f [] run h = cc
update_run_known run_id f (x ∷ runs) run h = elim (Bool-cases (x.id == run_id)) [
  | inl e ↦ (f x ∷ runs, rw (e, update_run) refl)
  | inr e ↦
      let (others, q) = update_run_known run_id f runs run (ground arith) in
      (x ∷ others, rw (e, q, update_run) refl)
]

pub find_run-put_run :
    (run : Run) (runs : List Run) (j : ℕ)
    → find_run j (put_run run runs) ≡ (if run.id == j then some run else find_run j runs)
unfolding find_run put_run
find_run-put_run run [] j = ground arith
find_run-put_run run (other ∷ others) j = ground (arith, find_run-put_run run others j)

pub find_run-change :
    (run_id : ℕ) (f : Run → Run) (s t : Store) (j : ℕ)
    → KeepsId f
    → change run_id f s ≡ some t
    → find_run j t.runs ≡ (
        if run_id == j
        then elim (find_run j s.runs) [ none ↦ none | some run ↦ some (f run) ]
        else find_run j s.runs)
unfolding change
find_run-change run_id f s t j k h = elim (Option-cases (update_run run_id f s.runs)) [
  | inl e ↦ ground arith
  | inr (runs, e) ↦
      ap (λ (u : Store). find_run j u.runs) (stored runs e)
      ∙ find_run-update_run run_id f s.runs runs j k e
]
  where
    stored :
        (runs : List Run) → update_run run_id f s.runs ≡ some runs → t ≡ record s { runs = runs }
    stored runs e = ground arith

-- A row that is known can be changed.
pub change_known :
    (run_id : ℕ) (f : Run → Run) (s : Store) (run : Run)
    → find_run run_id s.runs ≡ some run
    → (t : Store) × (change run_id f s ≡ some t)
unfolding change
change_known run_id f s run h =
    let (runs, e) = update_run_known run_id f s.runs run h in
    (record s { runs = runs }, rw (e, change) refl)

-- What holds of every row.
abbrev pub Rows {κ} : (ℕ → Run → Type κ) → Store → Type κ
Rows P s = (run_id : ℕ) (run : Run) → find_run run_id s.runs ≡ some run → P run_id run

pub change-Rows {κ} :
    (P : ℕ → Run → Type κ) (run_id : ℕ) (f : Run → Run) (s t : Store)
    → KeepsId f
    → ((run : Run) → find_run run_id s.runs ≡ some run → P run_id run → P run_id (f run))
    → change run_id f s ≡ some t
    → Rows P s
    → Rows P t
change-Rows P run_id f s t k keep h rows j run e = elim (Bool-cases (run_id == j)) [
  | inl same ↦ elim (Option-cases (find_run j s.runs)) [
    | inl unknown ↦ absurd (none_some (sym (changed same none unknown) ∙ e))
    | inr (old, known) ↦
        let i : run_id ≡ j = ground arith in
        let known_run = ap (λ n. find_run n s.runs) i ∙ known in
        subst (λ n. P n run) i
          (subst (P run_id) (some-injective _ _ (sym (changed same (some old) known) ∙ e))
            (keep old known_run (rows run_id old known_run)))
  ]
  | inr other ↦ rows j run (ground (arith, find_run-change run_id f s t j k h))
]
  where
    changed :
        run_id == j ≡ true
        → (found : Option Run) → find_run j s.runs ≡ found
        → find_run j t.runs ≡ elim found [ none ↦ none | some run ↦ some (f run) ]
    changed same found e = find_run-change run_id f s t j k h ∙ rw (same, e) refl

    none_some : none ≡ some run → ⊥
    none_some e = cc
