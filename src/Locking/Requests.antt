-- ===== src/Locking/Requests.antt =====
-- What a critical section locks for the resources that were requested.
use cqrs_ddd.Common.{
  List, ◌≡◌, any, arith, map, true, ◌∷◌, false, filter, if◌then◌else◌, Bool-cases, refl, ◌&&◌, inl,
  inr, ◌||◌, ◌∙◌, ap, Bool, sym,
}
use cqrs_ddd.Locking.{
  ResourceIdentifier, same_key, put, Mode, write, read, consolidate_each, consolidate_one, is_write,
  section_resources, in_order,
}
use mathlib.Core.List.{[], Perm}
use cqrs_ddd.Common.Sort.{IsSorted, sort_by-IsSorted, sort_by-perm}

-- The modes in which a list has the key of a resource.
abbrev pub modes : ResourceIdentifier → List ResourceIdentifier → List Mode
modes x ys = map (λ y. y.lock_mode) (filter (same_key x) ys)

-- The mode that one more request for the key makes of what is there.
abbrev pub merged : Mode → List Mode → List Mode
merged m [] = m ∷ []
merged write (n ∷ ns) = write ∷ ns
merged read (n ∷ ns) = n ∷ ns

-- A key that a write request replaces.
modes-put :
    (x z : ResourceIdentifier) (ys : List ResourceIdentifier)
    → z.lock_mode ≡ write
    → modes x (put z ys) ≡ (if same_key x z then merged write (modes x ys) else modes x ys)
modes-put x z [] w = ground arith
modes-put x z (y ∷ ys) w = ground (arith, modes-put x z ys w)

-- A key that is not there.
modes-put_new :
    (x z : ResourceIdentifier) (ys : List ResourceIdentifier)
    → any (same_key z) ys ≡ false
    → modes x (put z ys) ≡ (if same_key x z then z.lock_mode ∷ [] else modes x ys)
modes-put_new x z [] w = ground arith
modes-put_new x z (y ∷ ys) w = ground (arith, modes-put_new x z ys (ground arith))

-- A key that is not there has no mode, and one that is there has a mode that a read request keeps.
modes-absent :
    (x z : ResourceIdentifier) (ys : List ResourceIdentifier)
    → any (same_key z) ys ≡ false
    → same_key x z ≡ true
    → modes x ys ≡ []
modes-absent x z [] n h = refl
modes-absent x z (y ∷ ys) n h = ground (arith, modes-absent x z ys (ground arith) h)

modes-present :
    (x z : ResourceIdentifier) (ys : List ResourceIdentifier)
    → any (same_key z) ys ≡ true
    → same_key x z ≡ true
    → merged read (modes x ys) ≡ modes x ys
modes-present x z [] n h = cc
modes-present x z (y ∷ ys) n h = elim (Bool-cases (same_key x y)) [
  | inl c ↦ rw c refl
  | inr c ↦ rw c (modes-present x z ys (ground arith) h)
]

write_mode : (m : Mode) → is_write m ≡ true → m ≡ write
write_mode write h = refl
write_mode read h = cc

read_mode : (m : Mode) → is_write m ≡ false → m ≡ read
read_mode read h = refl
read_mode write h = cc

modes-consolidate_one :
    (x z : ResourceIdentifier) (ys : List ResourceIdentifier)
    → modes x (consolidate_one z ys)
      ≡ (if same_key x z then merged z.lock_mode (modes x ys) else modes x ys)
modes-consolidate_one x z ys = elim (Bool-cases (any (same_key z) ys)) [
  | inr n ↦ rw n (
      modes-put_new x z ys n ∙ elim (Bool-cases (same_key x z)) [
        | inl c ↦ rw c (ap (merged z.lock_mode) (sym (modes-absent x z ys n c)))
        | inr c ↦ rw c refl
      ])
  | inl n ↦ elim (Bool-cases (is_write z.lock_mode)) [
    | inl w ↦
        rw (n, w)
          (modes-put x z ys (write_mode z.lock_mode w)
            ∙ ap (λ m. if same_key x z then merged m (modes x ys) else modes x ys)
                (sym (write_mode z.lock_mode w)))
    | inr w ↦
        rw (n, w)
          elim (Bool-cases (same_key x z)) [
            | inl c ↦ rw c (
                sym (modes-present x z ys n c)
                ∙ ap (λ m. merged m (modes x ys)) (sym (read_mode z.lock_mode w)))
            | inr c ↦ rw c refl
          ]
  ]
]

-- The mode of a key that the requests ask for: none, write if one of them is a write, else read.
abbrev pub strongest : ResourceIdentifier → List ResourceIdentifier → List Mode
strongest x xs =
    if any (same_key x) xs
    then (if any (λ z. same_key x z && is_write z.lock_mode) xs then write else read) ∷ []
    else []

abbrev merge_each : ResourceIdentifier → List ResourceIdentifier → List Mode → List Mode
merge_each x [] ms = ms
merge_each x (z ∷ zs) ms = merge_each x zs (if same_key x z then merged z.lock_mode ms else ms)

modes-consolidate_each :
    (x : ResourceIdentifier) (xs ys : List ResourceIdentifier)
    → modes x (consolidate_each xs ys) ≡ merge_each x xs (modes x ys)
modes-consolidate_each x [] ys = refl
modes-consolidate_each x (z ∷ zs) ys =
    modes-consolidate_each x zs (consolidate_one z ys)
    ∙ ap (merge_each x zs) (modes-consolidate_one x z ys)

merged-one :
    (n m : Mode) → merged n (m ∷ []) ≡ (if is_write m || is_write n then write else read) ∷ []
merged-one read read = refl
merged-one read write = refl
merged-one write read = refl
merged-one write write = refl

stronger :
    (m n : Mode) (b : Bool)
    → (if is_write (if is_write m || is_write n then write else read) || b then write else read)
        ∷ []
      ≡ (if is_write m || (is_write n || b) then write else read) ∷ []
stronger read read b = refl
stronger read write b = refl
stronger write n b = refl

merge_each-one :
    (x : ResourceIdentifier) (xs : List ResourceIdentifier) (m : Mode)
    → merge_each x xs (m ∷ [])
      ≡ (if is_write m || any (λ z. same_key x z && is_write z.lock_mode) xs then write else read)
        ∷ []
merge_each-one x [] read = refl
merge_each-one x [] write = refl
merge_each-one x (z ∷ zs) m = elim (Bool-cases (same_key x z)) [
  | inl c ↦ rw c (
      ap (merge_each x zs) (merged-one z.lock_mode m)
      ∙ merge_each-one x zs (if is_write m || is_write z.lock_mode then write else read)
      ∙ stronger m z.lock_mode (any (λ y. same_key x y && is_write y.lock_mode) zs))
  | inr c ↦ rw c (merge_each-one x zs m)
]

merge_each-strongest :
    (x : ResourceIdentifier) (xs : List ResourceIdentifier) → merge_each x xs [] ≡ strongest x xs
merge_each-strongest x [] = refl
merge_each-strongest x (z ∷ zs) = elim (Bool-cases (same_key x z)) [
  | inl c ↦ rw c (merge_each-one x zs z.lock_mode)
  | inr c ↦ rw c (merge_each-strongest x zs)
]

-- The resources of a section are in the order of their keys, which is the same for every section,
-- and are a rearrangement of the consolidated requests. These have each key that was requested
-- once, with the strongest mode that was requested for it, and no other key.
pub section_resources_lem :
    (requested : List ResourceIdentifier) (x : ResourceIdentifier)
    → IsSorted in_order (section_resources requested)
      × Perm (section_resources requested) (consolidate_each requested [])
      × (modes x (consolidate_each requested []) ≡ strongest x requested)
unfolding section_resources
section_resources_lem requested x = (
  sort_by-IsSorted in_order (λ a b h. ground arith) (λ a b c h k. ground arith)
      (consolidate_each requested []),
  sort_by-perm in_order (consolidate_each requested []),
  modes-consolidate_each x requested [] ∙ merge_each-strongest x requested,
)
