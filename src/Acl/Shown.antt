-- ===== src/Acl/Shown.antt =====
-- The page of an access control list that is shown to the user.
use native.Mathlib.Nat.{mod-lt, le-div_iff_mul-le, div-lt_iff_lt-mul}
use container_service_extens.Common.{
  inl, inr, ℕ, zero, suc, ◌+◌, ◌-◌, ◌*◌, ◌/◌, ◌%◌, ◌≤◌, ◌<◌, ◌≡◌, refl, ◌∙◌, String, ◌&&◌,
  Bool-cases, List, [], ◌∷◌, length, drop, arith, nat_eq, ltb, leb, if◌then◌else◌,
}
use container_service_extens.Common.Dict.{Dict, lookup}
use container_service_extens.Acl.{AclEntry, is_user, named, page_of_users}
use container_service_extens.Acl.Pages.{take, slice, drop-empty, zero_add, suc_mul}

-- The page that a user of this number stands on is the one asked for.
on_page :
    (p size total : ℕ)
    → 0 < size
    → (nat_eq (total / size + 1) (suc p) && ltb (total % size) size)
      ≡ (leb (p * size) total && ltb total (p * size + size))
on_page p size total h = ground (
  arith,
  mod-lt total h,
  le-div_iff_mul-le {x = p} {y = total} h,
  div-lt_iff_lt-mul {x = total} {y = suc p} h,
  suc_mul p size,
)

abbrev pub users : List AclEntry → List AclEntry
users [] = []
users (e ∷ es) = if is_user e then e ∷ users es else users es

abbrev pub shown : Dict String → List AclEntry → List AclEntry
shown names [] = []
shown names (e ∷ es) = named (lookup e.member_id names) e ∷ shown names es

add_zero : (a : ℕ) → a + 0 ≡ a
add_zero a = omega arith

take-empty : (n : ℕ) → take n [] ≡ []
take-empty zero = refl
take-empty (suc n) = refl

add_suc : (a b : ℕ) → suc a + b ≡ a + suc b
add_suc a b = omega arith

-- Of the entries from number `total` on, those from `low` on, `size` of them.
window : ℕ → ℕ → ℕ → List AclEntry → List AclEntry
window low size total xs = take (size - (total - low)) (drop (low - total) xs)

window-inside :
    (low size total : ℕ) (x : AclEntry) (xs : List AclEntry)
    → low ≤ total
    → total < low + size
    → window low size total (x ∷ xs) ≡ x ∷ window low size (suc total) xs
unfolding window
window-inside low size total x xs h k = rw (here, count, next) refl
  where
    here : low - total ≡ 0
    here = omega arith

    count : size - (total - low) ≡ suc (size - (suc total - low))
    count = omega arith

    next : low - suc total ≡ 0
    next = omega arith

window-before :
    (low size total : ℕ) (x : AclEntry) (xs : List AclEntry)
    → total < low
    → window low size total (x ∷ xs) ≡ window low size (suc total) xs
unfolding window
window-before low size total x xs h = rw (here, count, next) refl
  where
    here : low - total ≡ suc (low - suc total)
    here = omega arith

    count : total - low ≡ 0
    count = omega arith

    next : suc total - low ≡ 0
    next = omega arith

window-after :
    (low size total : ℕ) (x : AclEntry) (xs : List AclEntry)
    → low + size ≤ total
    → window low size total (x ∷ xs) ≡ window low size (suc total) xs
unfolding window
window-after low size total x xs h = rw (count, next) refl
  where
    count : size - (total - low) ≡ 0
    count = omega arith

    next : size - (suc total - low) ≡ 0
    next = omega arith

window-cons :
    (low size total : ℕ) (x : AclEntry) (xs : List AclEntry)
    → window low size total (x ∷ xs) ≡ (
        if leb low total && ltb total (low + size)
        then x ∷ window low size (suc total) xs
        else window low size (suc total) xs)
window-cons low size total x xs = elim (Bool-cases (leb low total && ltb total (low + size))) [
  | inl r ↦ rw r (window-inside low size total x xs (ground arith) (ground arith))
  | inr r ↦ rw r elim (Bool-cases (leb low total)) [
    | inl l ↦ window-after low size total x xs (ground arith)
    | inr l ↦ window-before low size total x xs (ground arith)
  ]
]

module _ (names : Dict String) (p size : ℕ) (positive : 0 < size) where
  page_of_users-window :
      (total : ℕ) (es : List AclEntry)
      → page_of_users names (suc p) size total es
        ≡ (total + length (users es), shown names (window (p * size) size total (users es)))
  unfolding page_of_users window
  page_of_users-window total [] =
      rw (drop-empty (p * size - total), take-empty (size - (total - p * size)), add_zero total)
        refl
  page_of_users-window total (e ∷ es) = elim (Bool-cases (is_user e)) [
    | inl q ↦
        rw
          (
            q,
            page_of_users-window (suc total) es,
            window-cons (p * size) size total e (users es),
            on_page p size total positive,
            add_suc total (length (users es)),
          )
          elim (Bool-cases (leb (p * size) total && ltb total (p * size + size))) [
            | inl r ↦ rw r refl
            | inr r ↦ rw r refl
          ]
    | inr q ↦ rw (q, page_of_users-window total es) refl
  ]

  -- A user asks for a page, the first one being page 1, of a positive size: the total is the number
  -- of entries for users, and the values are the slice of these entries that stands on the page,
  -- each with its name.
  pub page_of_users-slice :
      (es : List AclEntry)
      → page_of_users names (suc p) size 0 es
        ≡ (length (users es), shown names (slice p size (users es)))
  unfolding window
  page_of_users-slice es =
      page_of_users-window 0 es ∙ rw (zero_add (length (users es)), low_first, all_wanted) refl
    where
      low_first : p * size - 0 ≡ p * size
      low_first = omega arith

      all_wanted : size - (0 - p * size) ≡ size
      all_wanted = omega arith
