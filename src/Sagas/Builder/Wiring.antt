-- ===== src/Sagas/Builder/Wiring.antt =====
-- The handlers that a built saga is given, one after the other: `_create_init_function` of
-- sagas/builder.py of packages/advanced/src/cqrs_ddd_advanced_core.
use cqrs_ddd.Common.{
  ℕ, refl, false, List, Option, [], map, ◌++◌, contains, some, ◌∷◌, ◌≡◌, All, ◌==◌, ◌∙◌, arith,
}
use cqrs_ddd.Sagas.Builder.{
  mapped, begins, tried, confirmed, failed, cancelled, SagaBuilder, Wired, wire_begin, wire_mapped,
  wire_steps,
}
use cqrs_ddd.Common.Dict.{Dict, insert, lookup, lookup-insert_self, lookup-insert}
use cqrs_ddd.Common.Distinct.{IsDistinct}
use mathlib.Core.Option.{none}

abbrev pub mapped_part : List (ℕ × ℕ) → List (ℕ × Wired)
mapped_part es = map (λ x. (x.0, mapped x.1)) es

abbrev pub begin_part : Option ℕ → List (ℕ × Wired)
begin_part none = []
begin_part (some e) = (e, begins) ∷ []

abbrev pub step_part : (ℕ → Wired) → List (ℕ × ℕ) → List (ℕ × Wired)
step_part transition es = map (λ x. (x.1, transition x.0)) es

-- Everything that was declared, in the order of the calls of `on`.
abbrev pub declared : SagaBuilder → List (ℕ × Wired)
declared b =
    mapped_part b.on_registrations
    ++ (begin_part b.tcc_begin_event
        ++ (step_part tried b.tcc_tried
            ++ (step_part confirmed b.tcc_confirmed
                ++ (step_part failed b.tcc_failed ++ step_part cancelled b.tcc_cancelled))))

abbrev pub events_of : List (ℕ × Wired) → List ℕ
events_of ws = map (λ x. x.0) ws

abbrev pub wire_all : List (ℕ × Wired) → Dict Wired → Dict Wired
wire_all [] d = d
wire_all ((e, w) ∷ ws) d = wire_all ws (insert e w d)

pub wire_all-append :
    (xs ys : List (ℕ × Wired)) (d : Dict Wired)
    → wire_all (xs ++ ys) d ≡ wire_all ys (wire_all xs d)
wire_all-append [] ys d = refl
wire_all-append ((e, w) ∷ xs) ys d = wire_all-append xs ys (insert e w d)

pub wire_mapped_lem :
    (es : List (ℕ × ℕ)) (d : Dict Wired) → wire_mapped es d ≡ wire_all (mapped_part es) d
wire_mapped_lem [] d = refl
wire_mapped_lem ((e, c) ∷ es) d = wire_mapped_lem es (insert e (mapped c) d)

pub wire_begin_lem : (o : Option ℕ) (d : Dict Wired) → wire_begin o d ≡ wire_all (begin_part o) d
wire_begin_lem none d = refl
wire_begin_lem (some e) d = refl

pub wire_steps_lem :
    (t : ℕ → Wired) (es : List (ℕ × ℕ)) (d : Dict Wired)
    → wire_steps t es d ≡ wire_all (step_part t es) d
wire_steps_lem t [] d = refl
wire_steps_lem t ((s, e) ∷ es) d = wire_steps_lem t es (insert e (t s) d)

pub wire_other :
    (ws : List (ℕ × Wired)) (d : Dict Wired) (j : ℕ)
    → contains (map (λ x. x.0) ws) j ≡ false
    → lookup j (wire_all ws d) ≡ lookup j d
wire_other [] d j h = refl
wire_other ((e, w) ∷ ws) d j h =
    let other : (e == j) ≡ false = ground arith in
    wire_other ws (insert e w d) j (ground arith) ∙ lookup-insert e j w d ∙ rw other refl

pub wire_all_lem :
    (ws : List (ℕ × Wired)) (d : Dict Wired)
    → IsDistinct (map (λ x. x.0) ws)
    → All (λ x. lookup x.0 (wire_all ws d) ≡ some x.1) ws
wire_all_lem [] d u = tt
wire_all_lem ((e, w) ∷ ws) d u = (
  wire_other ws (insert e w d) e u.0 ∙ lookup-insert_self e w d,
  wire_all_lem ws (insert e w d) u.1,
)
