-- ===== src/Messaging/Validation.antt =====
-- `ValidationResult` of validation/result.py, `CompositeValidator` of validation/composite.py and
-- `ValidatorMiddleware` of middleware/validation.py, in packages/core/src/cqrs_ddd_core.
use cqrs_ddd.Common.{
  ℕ, refl, true, false, Bool, List, [], is_empty, ◌∷◌, All, if◌then◌else◌, ◌++◌, ◌≡◌, all, arith,
  not, sym, ◌&&◌, ◌==◌, Bool-cases, append-nil, inl, ◌∙◌, ==_iff, ap, append_assoc, some, subst,
  none, inr,
}
use cqrs_ddd.Common.Dict.{Dict, IsUnique, insert, lookup, lookup-insert}
use cqrs_ddd.Common.Outcome.{Outcome, raise}
use cqrs_ddd.Messaging.Registry.{list_or_empty}

-- The errors of each field.
abbrev pub ValidationResult : Type 0
ValidationResult = Dict (List ℕ)

abbrev pub success : ValidationResult
success = []

abbrev pub is_valid : ValidationResult → Bool
is_valid errors = is_empty errors

-- `errors.get(field_name, [])`
abbrev pub messages : (field_name : ℕ) → ValidationResult → List ℕ
messages f errors = list_or_empty (lookup f errors)

-- The loop of `merge`.
abbrev pub merge_errors : (other merged : ValidationResult) → ValidationResult
merge_errors [] merged = merged
merge_errors ((f, ms) ∷ other) merged =
    merge_errors other (insert f (messages f merged ++ ms) merged)

abbrev pub merge : ValidationResult → ValidationResult → ValidationResult
merge errors other = merge_errors other errors

abbrev pub add_error : (field_name message : ℕ) → ValidationResult → ValidationResult
add_error f m errors = insert f (messages f errors ++ m ∷ []) errors

abbrev pub Validator : Type 0 → Type 0
Validator C = C → ValidationResult

module _ {C : Type 0} where
  -- The loop of `CompositeValidator.validate`.
  abbrev pub validate_each : List (Validator C) → C → ValidationResult → ValidationResult
  validate_each [] c combined = combined
  validate_each (v ∷ vs) c combined = validate_each vs c (merge combined (v c))

  abbrev pub validate : List (Validator C) → Validator C
  validate vs c = validate_each vs c success

  -- The middleware, in front of what stands inside of it.
  abbrev pub validated :
      {R : Type 0} → Validator C → (C → Outcome ValidationResult R) → C → Outcome ValidationResult R
  validated v next c = if not (is_valid (v c)) then raise (v c) else next c

messages-insert :
    (f g : ℕ) (ms : List ℕ) (d : ValidationResult)
    → messages g (insert f ms d) ≡ (if f == g then ms else messages g d)
messages-insert f g ms d = elim (Bool-cases (f == g)) [
  | inl e ↦ rw e (ap list_or_empty {y = some ms} (lookup-insert f g ms d ∙ rw e refl))
  | inr e ↦ rw e (ap list_or_empty {y = lookup g d} (lookup-insert f g ms d ∙ rw e refl))
]

messages-merge_errors :
    (other merged : ValidationResult) (g : ℕ)
    → IsUnique other
    → messages g (merge_errors other merged) ≡ messages g merged ++ messages g other
messages-merge_errors [] merged g u = sym (append-nil (messages g merged))
messages-merge_errors ((f, ms) ∷ other) merged g u =
    let rest = messages-merge_errors other (insert f (messages f merged ++ ms) merged) g u.1 in
    let here = messages-insert f g (messages f merged ++ ms) merged in
    elim (Bool-cases (f == g)) [
      | inl e ↦
          let q : f ≡ g = (==_iff f g).0 e in
          let none_left : messages g other ≡ [] =
            ap list_or_empty (subst (λ n. lookup n other ≡ none) q u.0) in
          let head : messages g (insert f (messages f merged ++ ms) merged)
              ≡ messages g merged ++ ms =
            here ∙ rw e (ap (λ n. messages n merged ++ ms) q) in
          rw e (rest ∙ rw (none_left, head) (append-nil (messages g merged ++ ms)))
      | inr e ↦
          rw e (rest ∙ ap (λ xs. xs ++ messages g other) {y = messages g merged} (here ∙ rw e refl))
    ]

insert-is_empty : (f : ℕ) (ms : List ℕ) (d : ValidationResult) → is_empty (insert f ms d) ≡ false
insert-is_empty f ms [] = refl
insert-is_empty f ms ((g, ns) ∷ d) = ground arith

merge_errors-is_empty :
    (other merged : ValidationResult)
    → is_empty (merge_errors other merged) ≡ (is_empty merged && is_empty other)
merge_errors-is_empty [] merged = ground arith
merge_errors-is_empty ((f, ms) ∷ other) merged = ground (
  arith,
  merge_errors-is_empty other (insert f (messages f merged ++ ms) merged),
  insert-is_empty f (messages f merged ++ ms) merged,
)

abbrev pub all_messages : {C : Type 0} → ℕ → List (Validator C) → C → List ℕ
all_messages g [] c = []
all_messages g (v ∷ vs) c = messages g (v c) ++ all_messages g vs c

messages-validate_each :
    {C : Type 0} (vs : List (Validator C)) (c : C) (d : ValidationResult) (g : ℕ)
    → All (λ v. IsUnique (v c)) vs
    → messages g (validate_each vs c d) ≡ messages g d ++ all_messages g vs c
messages-validate_each [] c d g u = sym (append-nil (messages g d))
messages-validate_each (v ∷ vs) c d g u =
    messages-validate_each vs c (merge d (v c)) g u.1
    ∙ ap (λ ms. ms ++ all_messages g vs c) (messages-merge_errors (v c) d g u.0)
    ∙ append_assoc (messages g d) (messages g (v c)) (all_messages g vs c)

validate_each-is_valid :
    {C : Type 0} (vs : List (Validator C)) (c : C) (d : ValidationResult)
    → is_valid (validate_each vs c d) ≡ (is_valid d && all (λ v. is_valid (v c)) vs)
validate_each-is_valid [] c d = ground arith
validate_each-is_valid (v ∷ vs) c d =
    ground (arith, validate_each-is_valid vs c (merge d (v c)), merge_errors-is_empty (v c) d)

guard_lem :
    {A : Type 0} (b c : Bool) (x y : A) → b ≡ c → (if not b then y else x) ≡ (if c then x else y)
guard_lem true c x y h = rw (sym h) refl
guard_lem false c x y h = rw (sym h) refl

-- A composite validator reports for each field the messages of all validators, in their order, and
-- finds a command valid exactly when each of them does; behind it the middleware goes on to the
-- handler for exactly these commands, and raises all errors for the others.
pub validate_lem :
    {C R : Type 0} (vs : List (Validator C)) (next : C → Outcome ValidationResult R) (c : C)
    → All (λ v. IsUnique (v c)) vs
    → ((g : ℕ) → messages g (validate vs c) ≡ all_messages g vs c)
      × (is_valid (validate vs c) ≡ all (λ v. is_valid (v c)) vs)
      × (validated (validate vs) next c
          ≡ (if all (λ v. is_valid (v c)) vs then next c else raise (validate vs c)))
validate_lem vs next c u =
    let valid = validate_each-is_valid vs c success in
    (
      (λ g. messages-validate_each vs c success g u),
      valid,
      guard_lem (is_valid (validate vs c)) (all (λ v. is_valid (v c)) vs) (next c)
          (raise (validate vs c)) valid,
    )
