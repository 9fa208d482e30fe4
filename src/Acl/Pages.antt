-- ===== src/Acl/Pages.antt =====
-- The pages of an access control list, read from vCloud Director and shown to the user.
use container_service_extens.Common.{
  ℕ, zero, suc, ◌+◌, ◌*◌, ◌≤◌, ◌<◌, ◌≡◌, refl, sym, subst, ap, ◌∙◌, Option, some, List, [], ◌∷◌,
  ◌++◌, length, drop, arith,
}
use container_service_extens.Acl.{AclEntry, list_def_entity_acl_entries, and_more}

abbrev pub take : ℕ → List AclEntry → List AclEntry
take zero xs = []
take (suc n) [] = []
take (suc n) (x ∷ xs) = x ∷ take n xs

-- The `n`-th page of `size` entries, from 0.
abbrev pub slice : ℕ → ℕ → List AclEntry → List AclEntry
slice n size xs = take size (drop (n * size) xs)

take-drop : (n : ℕ) (xs : List AclEntry) → (take n xs ++ drop n xs) ≡ xs
take-drop zero xs = refl
take-drop (suc n) [] = refl
take-drop (suc n) (x ∷ xs) = ap (λ ys. x ∷ ys) (take-drop n xs)

pub zero_add : (n : ℕ) → 0 + n ≡ n
zero_add n = omega arith

suc_add : (m n : ℕ) → suc m + n ≡ suc (m + n)
suc_add m n = omega arith

zero_mul : (k : ℕ) → 0 * k ≡ 0
zero_mul k = ground arith

pub suc_mul : (n k : ℕ) → n * k + k ≡ suc n * k
suc_mul n k = ground arith

pub drop-empty : (n : ℕ) → drop {A = AclEntry} n [] ≡ []
drop-empty zero = refl
drop-empty (suc n) = refl

drop-drop : (m n : ℕ) (xs : List AclEntry) → drop n (drop m xs) ≡ drop (m + n) xs
drop-drop zero n xs = rw (zero_add n) refl
drop-drop (suc m) n [] = drop-empty n ∙ sym (drop-empty (suc m + n))
drop-drop (suc m) n (x ∷ xs) = rw (suc_add m n) (drop-drop m n xs)

length-drop : (n : ℕ) (xs : List AclEntry) → length (drop n xs) ≤ length xs
length-drop zero xs = omega arith
length-drop (suc n) [] = omega arith
length-drop (suc n) (x ∷ xs) = ground (arith, length-drop n xs)

-- A page is empty only at the end, and what follows it stands after it.
and_more-take :
    (size : ℕ) (xs : List AclEntry) (rest : Option (List AclEntry))
    → 0 < size
    → (length (drop size xs) < length xs → rest ≡ some (drop size xs))
    → and_more (take size xs) rest ≡ some xs
unfolding and_more
and_more-take zero xs rest h more = absurd (omega arith)
and_more-take (suc size) [] rest h more = refl
and_more-take (suc size) (x ∷ xs) rest h more =
    rw (more shorter) (ap (λ ys. some (x ∷ ys)) (take-drop size xs))
  where
    shorter : length (drop size xs) < suc (length xs)
    shorter = ground (arith, length-drop size xs)

module _ (response : ℕ → List AclEntry) (size : ℕ) (acl : List AclEntry) (positive : 0 < size)
    (paged : (n : ℕ) → response (suc n) ≡ slice n size acl) where
  list_from :
      (fuel n : ℕ)
      → length (drop (n * size) acl) < fuel
      → list_def_entity_acl_entries response fuel (suc n) ≡ some (drop (n * size) acl)
  unfolding list_def_entity_acl_entries
  list_from zero n h = absurd (omega arith)
  list_from (suc fuel) n h = rw (paged n) (
      and_more-take size (drop (n * size) acl) _ positive
        λ shorter. list_from fuel (suc n) (fewer shorter) ∙ ap some (sym after))
    where
      after : drop size (drop (n * size) acl) ≡ drop (suc n * size) acl
      after = drop-drop (n * size) size acl ∙ ap (λ k. drop k acl) (suc_mul n size)

      fewer :
          length (drop size (drop (n * size) acl)) < length (drop (n * size) acl)
          → length (drop (suc n * size) acl) < fuel
      fewer shorter = subst (λ xs. length xs < fuel) after (omega arith)

  -- vCloud Director returns an access control list in pages of one size: all of its entries are
  -- read, in their order, if the fuel is more than their number.
  pub list_def_entity_acl_entries-all :
      (fuel : ℕ) → length acl < fuel → list_def_entity_acl_entries response fuel 1 ≡ some acl
  list_def_entity_acl_entries-all fuel h =
      subst
        (λ k.
          length (drop k acl) < fuel
          → list_def_entity_acl_entries response fuel 1 ≡ some (drop k acl))
        (zero_mul size) (list_from fuel 0) h
