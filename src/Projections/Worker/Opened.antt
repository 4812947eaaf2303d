-- ===== src/Projections/Worker/Opened.antt =====
-- Where `run` of projections/worker.py of packages/advanced/src/cqrs_ddd_advanced_core begins to
-- project, and one run of it.
use cqrs_ddd.Common.{
  ℕ, refl, Bool, List, ◌≡◌, Option, ◌&&◌, not, take, is_some, some, subst, Bool-cases, false, inl,
  inr, ◌∷◌, arith, ◌++◌, true, ap, sym, ◌∙◌, filter-append, if◌then◌else◌, filter, Option-cases,
  length, ◌-◌,
}
use cqrs_ddd.EventStore.{
  Spec, satisfies, positions, maximum, StoredEvent, get_latest_position, get_events_from_position,
}
use cqrs_ddd.Projections.Worker.{
  project_from, start_at, Worker, Projected, run, project_one, project_all, or_zero, Broken, go_on,
  Attempt,
}
use cqrs_ddd.Projections.Worker.Once.{replay, left, project_all_lem}
use cqrs_ddd.Common.Outcome.{ok, Outcome, raise, is_ok}
use cqrs_ddd.EventStore.Streaming.{IsPlaced, chosen}
use cqrs_ddd.EventStore.Cursor.{get_events_from_position-eq}
use mathlib.Core.Option.{none}
use mathlib.Core.List.{[]}

the_same {ℓ κ} : {E : Type ℓ} {A : Type κ} {a b : A} → ◌≡◌ {A = Outcome E A} (ok a) (ok b) → a ≡ b
the_same h = cc

not_none :
    (ps : List ℕ) (n : ℕ) (g : ℕ → List ℕ → ℕ)
    → elim ps as (λ _. Option ℕ) [ [] ↦ some n | p ∷ qs ↦ some (g p qs) ] ≡ none
    → ⊥
not_none [] n g h = cc
not_none (p ∷ ps) n g h = cc

none_chosen :
    (p : Option ℕ) (spec : Spec) (es : List StoredEvent)
    → filter (satisfies spec) es ≡ []
    → filter (chosen p spec) es ≡ []
none_chosen p spec [] h = refl
none_chosen p spec (e ∷ es) h = elim (Bool-cases (satisfies spec e)) [
  | inl y ↦ let c = rw y at h in cc
  | inr n ↦
      (let rest = none_chosen p spec es (rw n at h) in
        let left_out : chosen p spec e ≡ false = ground (arith, n) in rw left_out rest)
]

none_found :
    (spec : Spec) (es fs : List StoredEvent)
    → filter (satisfies spec) es ≡ fs
    → get_latest_position spec es ≡ none
    → fs ≡ []
unfolding get_latest_position
none_found spec es [] e h = refl
none_found spec es (f ∷ fs) e h =
    let latest : List StoredEvent → Option ℕ = λ xs. elim xs as (λ _. Option ℕ) [
      | [] ↦ none
      | g ∷ gs ↦ elim (positions (g ∷ gs)) as (λ _. Option ℕ) [
        | [] ↦ some (length es - 1)
        | p ∷ ps ↦ some (maximum p ps)
      ]
    ] in
    absurd
      (not_none (positions (f ∷ fs)) (length es - 1) maximum (subst (λ xs. latest xs ≡ none) e h))

module _ {ℓ} {V : Type ℓ} (w : Worker V) where
  -- The run starts behind the saved position, or at 0.
  abbrev pub Resumes : Projected V → Type 0
  Resumes s = (w.catch_up && not (is_some s.position)) ≡ false

  -- What the events that are left of a store lead to.
  abbrev pub outlook : List StoredEvent → Projected V → V
  outlook store s = replay w (left w store s) s.view

  project_one-Resumes :
      (raises : StoredEvent → Bool) (p : Option ℕ) (e : StoredEvent) (s t : Projected V)
      → Resumes s
      → project_one w raises p e s ≡ ok t
      → Resumes t
  project_one-Resumes raises none e s t h came = subst Resumes (the_same came) h
  project_one-Resumes raises (some p) e s t h came = elim (Bool-cases (raises e)) [
    | inl r ↦ let c = rw r at came in cc
    | inr r ↦ subst Resumes (the_same (rw r at came)) (ground arith)
  ]

  go_on-Resumes :
      (rest : Projected V → Outcome Broken (Unit {0}) × Projected V) (s : Projected V)
      (r : Outcome Broken (Projected V))
      → Resumes s
      → ((t : Projected V) → r ≡ ok t → Resumes (rest t).1)
      → Resumes (go_on w rest s r).1
  go_on-Resumes rest s (ok t) h next = next t refl
  go_on-Resumes rest s (raise e) h next = h

  pub project_all-Resumes :
      (raises : StoredEvent → Bool) (events : List StoredEvent) (s : Projected V)
      → Resumes s
      → Resumes (project_all w raises events s).1
  project_all-Resumes raises [] s h = h
  project_all-Resumes raises (e ∷ es) s h =
      go_on-Resumes (project_all w raises es) s (project_one w raises e.position e s) h (λ t came.
        project_all-Resumes raises es t (project_one-Resumes raises e.position e s t h came))

  -- Where a run goes on: a worker that catches up and has no position takes the latest one of the
  -- events that are there, if there are any.
  abbrev pub moved_to : Option ℕ → Projected V → Projected V
  moved_to none s = s
  moved_to (some l) s = record s { position = some l }

  abbrev pub opened : (now : List StoredEvent) → Projected V → Projected V
  opened now s =
      if w.catch_up && not (is_some s.position)
      then moved_to (get_latest_position w.specification now) s
      else s

  -- Where several runs on a growing store and a last one on the whole store begin to project.
  abbrev pub opened_by : List Attempt → (store : List StoredEvent) → Projected V → Projected V
  opened_by [] store s = opened store s
  opened_by (a ∷ later) store s = opened_by later store (opened (take a.stored store) s)

  opened-Resumes : (now : List StoredEvent) (s : Projected V) → Resumes s → opened now s ≡ s
  opened-Resumes now s h = rw h refl

  pub opened_by-Resumes :
      (runs : List Attempt) (store : List StoredEvent) (s : Projected V)
      → Resumes s
      → opened_by runs store s ≡ s
  opened_by-Resumes [] store s h = opened-Resumes store s h
  opened_by-Resumes (a ∷ later) store s h =
      ap (opened_by later store) (opened-Resumes (take a.stored store) s h)
      ∙ opened_by-Resumes later store s h

  start_at_lem :
      (b : Bool) (latest : Option ℕ) (s : Projected V)
      → (b ≡ true → s.position ≡ none)
      → let x = if b then moved_to latest s else s in
        start_at w b latest s ≡ (or_zero x.position, x)
  start_at_lem true none s h = ap (λ p. (or_zero p, s)) (sym (h refl))
  start_at_lem true (some l) s h = refl
  start_at_lem false latest s h = refl

  unplaced : (s : Projected V) → (w.catch_up && not (is_some s.position)) ≡ true → s.position ≡ none
  unplaced s h = elim (Option-cases s.position) [
    | inl n ↦ n
    | inr (p, k) ↦ let c = rw k at h in absurd (ground (arith, c))
  ]

  pub run_lem :
      (raises : StoredEvent → Bool) (now : List StoredEvent) (s : Projected V)
      → IsPlaced 0 now
      → run w raises now s ≡ some (project_all w raises (left w now (opened now s)) (opened now s))
  unfolding run
  run_lem raises now s placed =
      let t = opened now s in
      ap
        (λ (p : ℕ × Projected V).
          project_from w raises (get_events_from_position (some p.0) none w.specification now) p.1)
        (start_at_lem (w.catch_up && not (is_some s.position))
          (get_latest_position w.specification now) s (unplaced s))
      ∙ ap (λ es. project_from w raises es t)
          (get_events_from_position-eq (some (or_zero t.position)) 0 w.specification now placed).1

  -- One run, when the events `now` are there and `more` come later: what is left of the store after it
  -- leads to what was to come before it.
  pub project-outlook :
      (raises : StoredEvent → Bool) (store now more : List StoredEvent) (s : Projected V)
      → IsPlaced 0 store
      → now ++ more ≡ store
      → let p = project_all w raises (left w now s) s in
        (outlook store p.1 ≡ outlook store s)
        × (is_ok p.0 ≡ true → left w store p.1 ≡ left w more s)
  project-outlook raises store now more s placed whole =
      let parts : left w store s ≡ left w now s ++ left w more s =
        ap (λ es. left w es s) (sym whole)
        ∙ filter-append (chosen (some (or_zero s.position)) w.specification) now more in
      let (same, all) =
        project_all_lem w raises store (left w now s) (left w more s) s placed parts in
      (same ∙ ap (λ es. replay w es s.view) (sym parts), all)

  no_match :
      (p : Option ℕ) (es : List StoredEvent)
      → get_latest_position w.specification es ≡ none
      → filter (chosen p w.specification) es ≡ []
  no_match p es h = none_chosen p w.specification es (none_found w.specification es _ refl h)

  -- Nothing is projected before there is a position to take.
  pub unopened :
      (now : List StoredEvent) (s : Projected V)
      → (w.catch_up && not (is_some (opened now s).position)) ≡ true
      → left w now (opened now s) ≡ []
  unopened now s h = elim (Bool-cases (w.catch_up && not (is_some s.position))) [
    | inl b ↦ elim (Option-cases (get_latest_position w.specification now)) [
      | inl n ↦ rw (b, n) (no_match (some (or_zero s.position)) now n)
      | inr (l, k) ↦ let c = rw (b, k) at h in absurd (ground (arith, c))
    ]
    | inr b ↦ let c = rw b at h in cc
  ]
