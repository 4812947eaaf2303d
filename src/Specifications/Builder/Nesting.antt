-- ===== src/Specifications/Builder/Nesting.antt =====
-- The specification that a properly nested chain of builder calls returns.
use cqrs_ddd.Common.{
  ℕ, Bool, true, false, not, ◌&&◌, ◌||◌, List, ◌≡◌, [], ◌++◌, ◌∷◌, ap, refl, append-nil,
  append_assoc, sym, ◌∙◌,
}
use cqrs_ddd.Common.Outcome.{Outcome, ok, ◌>>=◌}
use cqrs_ddd.Specifications.{
  Operator, Spec, attribute, not_spec, and_spec, nil, or_spec, is_satisfied_by, all_satisfied,
  any_satisfied,
}
use cqrs_ddd.Specifications.Builder.{
  Group, and_of, or_of, not_of, BuilderError, Builder, condition, open_group, end_group,
  append_current, combine, add, to_specs, build, new_builder,
}

-- What the caller means: conditions in nested groups.
mutual
  pub data Tree : Type 0 where
    leaf : (attr : ℕ) → Operator → (val : ℕ) → Tree
    group : Group → Trees → Tree

  pub data Trees : Type 0 where
    stop : Trees
    also : Tree → Trees → Trees

-- The chain of calls for it: a group is opened, filled and closed.
mutual
  pub call : Tree → Builder → Outcome BuilderError Builder
  call (leaf attr op val) b = ok (condition attr op val b)
  call (group g ts) b = call_each ts (open_group g b) >>= end_group

  pub call_each : Trees → Builder → Outcome BuilderError Builder
  call_each stop b = ok b
  call_each (also t ts) b = call t b >>= call_each ts

-- No group is empty, and a NOT has one member.
abbrev mutual
  pub IsGrouped : Tree → Type 0
  IsGrouped (leaf attr op val) = Unit {0}
  IsGrouped (group g stop) = ⊥
  IsGrouped (group not_of (also t stop)) = IsGrouped t
  IsGrouped (group not_of (also t (also u us))) = ⊥
  IsGrouped (group and_of (also t ts)) = IsGrouped t × AllGrouped ts
  IsGrouped (group or_of (also t ts)) = IsGrouped t × AllGrouped ts

  pub AllGrouped : Trees → Type 0
  AllGrouped stop = Unit {0}
  AllGrouped (also t ts) = IsGrouped t × AllGrouped ts

-- What it says of a candidate.
module _ (holds : ℕ → Operator → ℕ → Bool) where
  abbrev mutual
    pub meaning : Tree → Bool
    meaning (leaf attr op val) = holds attr op val
    meaning (group and_of ts) = all_mean ts
    meaning (group or_of ts) = any_means ts
    meaning (group not_of ts) = not (all_mean ts)

    pub all_mean : Trees → Bool
    all_mean stop = true
    all_mean (also t ts) = meaning t && all_mean ts

    pub any_means : Trees → Bool
    any_means stop = false
    any_means (also t ts) = meaning t || any_means ts

-- The specification of a group, where it has the members that it needs.
composite : Group → List Spec → Spec
composite and_of (s ∷ []) = s
composite or_of (s ∷ []) = s
composite not_of (s ∷ []) = not_spec s
composite not_of ss = and_spec nil
composite and_of ss = and_spec (to_specs ss)
composite or_of ss = or_spec (to_specs ss)

mutual
  spec_of : Tree → Spec
  spec_of (leaf attr op val) = attribute attr op val
  spec_of (group g ts) = composite g (specs_of ts)

  specs_of : Trees → List Spec
  specs_of stop = []
  specs_of (also t ts) = spec_of t ∷ specs_of ts

combine-specs_of :
    (g : Group) (ts : Trees)
    → IsGrouped (group g ts)
    → combine g (specs_of ts) ≡ ok (composite g (specs_of ts))
unfolding combine composite specs_of
combine-specs_of g stop h = absurd h
combine-specs_of and_of (also t stop) h = refl
combine-specs_of or_of (also t stop) h = refl
combine-specs_of not_of (also t stop) h = refl
combine-specs_of and_of (also t (also u us)) h = refl
combine-specs_of or_of (also t (also u us)) h = refl
combine-specs_of not_of (also t (also u us)) h = absurd h

members_grouped : (g : Group) (ts : Trees) → IsGrouped (group g ts) → AllGrouped ts
members_grouped g stop h = tt
members_grouped and_of (also t ts) h = h
members_grouped or_of (also t ts) h = h
members_grouped not_of (also t stop) h = (h, tt)
members_grouped not_of (also t (also u us)) h = absurd h

-- All of a list in the current group.
append_all : List Spec → List Spec → List (Group × List Spec) → Builder
append_all ss specs [] = record { specs = specs ++ ss; stack = [] }
append_all ss specs ((g, ts) ∷ rest) = record { specs = specs; stack = (g, ts ++ ss) ∷ rest }

add_all : List Spec → Builder → Builder
unfolding append_all
add_all ss b = append_all ss b.specs b.stack

append_all_one :
    (ss specs : List Spec) (s : Spec) (stack : List (Group × List Spec))
    → add_all ss (append_current s specs stack) ≡ append_all (s ∷ ss) specs stack
unfolding add_all append_all append_current
append_all_one ss specs s [] =
    ap (λ l. record { specs = l; stack = [] }) (append_assoc specs (s ∷ []) ss)
append_all_one ss specs s ((g, ts) ∷ rest) =
    ap (λ l. record { specs = specs; stack = (g, l) ∷ rest }) (append_assoc ts (s ∷ []) ss)

append_all_none :
    (specs : List Spec) (stack : List (Group × List Spec))
    → append_all [] specs stack ≡ record { specs = specs; stack = stack }
unfolding append_all
append_all_none specs [] = ap (λ l. record { specs = l; stack = [] }) (append-nil specs)
append_all_none specs ((g, ts) ∷ rest) =
    ap (λ l. record { specs = specs; stack = (g, l) ∷ rest }) (append-nil ts)

-- A group that is opened, filled and closed is one more condition.
end_group-add_all :
    (g : Group) (ts : Trees) (b : Builder)
    → IsGrouped (group g ts)
    → end_group (add_all (specs_of ts) (open_group g b)) ≡ ok (add (composite g (specs_of ts)) b)
unfolding end_group add_all append_all open_group
end_group-add_all g ts b h = rw (combine-specs_of g ts h)

mutual
  unfolding call call_each spec_of specs_of add condition add_all

  call_lem : (t : Tree) (b : Builder) → IsGrouped t → call t b ≡ ok (add (spec_of t) b)
  call_lem (leaf attr op val) b h = refl
  call_lem (group g ts) b h =
      rw (call_each_lem ts (open_group g b) (members_grouped g ts h)) (end_group-add_all g ts b h)

  call_each_lem :
      (ts : Trees) (b : Builder) → AllGrouped ts → call_each ts b ≡ ok (add_all (specs_of ts) b)
  call_each_lem stop b h = ap ok (sym (append_all_none b.specs b.stack))
  call_each_lem (also t ts) b h = rw (call_lem t b h.0) (
      call_each_lem ts (add (spec_of t) b) h.1
      ∙ ap ok (append_all_one (specs_of ts) b.specs (spec_of t) b.stack))

module _ (holds : ℕ → Operator → ℕ → Bool) where
  and_one : (a : Bool) → (a && true) ≡ a
  and_one true = refl
  and_one false = refl

  or_one : (a : Bool) → (a || false) ≡ a
  or_one true = refl
  or_one false = refl

  mutual
    unfolding spec_of specs_of is_satisfied_by composite

    tree_means : (t : Tree) → IsGrouped t → is_satisfied_by holds (spec_of t) ≡ meaning holds t
    tree_means (leaf attr op val) h = refl
    tree_means (group g stop) h = absurd h
    tree_means (group and_of (also t stop)) h = tree_means t h.0 ∙ sym (and_one (meaning holds t))
    tree_means (group or_of (also t stop)) h = tree_means t h.0 ∙ sym (or_one (meaning holds t))
    tree_means (group not_of (also t stop)) h =
        ap not (tree_means t h ∙ sym (and_one (meaning holds t)))
    tree_means (group and_of (also t (also u us))) h =
        rw (tree_means t h.0) (ap (λ b. meaning holds t && b) (all_means (also u us) h.1))
    tree_means (group or_of (also t (also u us))) h =
        rw (tree_means t h.0) (ap (λ b. meaning holds t || b) (any_mean (also u us) h.1))
    tree_means (group not_of (also t (also u us))) h = absurd h

    all_means :
        (ts : Trees)
        → AllGrouped ts
        → all_satisfied holds (to_specs (specs_of ts)) ≡ all_mean holds ts
    all_means stop h = refl
    all_means (also t ts) h =
        rw (tree_means t h.0) (ap (λ b. meaning holds t && b) (all_means ts h.1))

    any_mean :
        (ts : Trees)
        → AllGrouped ts
        → any_satisfied holds (to_specs (specs_of ts)) ≡ any_means holds ts
    any_mean stop h = refl
    any_mean (also t ts) h =
        rw (tree_means t h.0) (ap (λ b. meaning holds t || b) (any_mean ts h.1))

-- Conditions that are added in properly nested groups, each group with a member and each NOT with
-- just one, build a specification that a candidate satisfies exactly when all the conditions at the
-- top level hold, a group meaning the conjunction, the disjunction or the negation of its members.
pub build_means :
    (t : Tree) (ts : Trees)
    → IsGrouped t
    → AllGrouped ts
    → (s : Spec) × ((call_each (also t ts) new_builder >>= build) ≡ ok s)
      × ((holds : ℕ → Operator → ℕ → Bool) → is_satisfied_by holds s ≡ all_mean holds (also t ts))
unfolding build specs_of composite add_all append_all
build_means t ts h hs = (
  spec_of (group and_of (also t ts)),
  rw (call_each_lem (also t ts) new_builder (h, hs)) (combine-specs_of and_of (also t ts) (h, hs)),
  λ holds. tree_means holds (group and_of (also t ts)) (h, hs),
)
