-- ===== src/Cluster/Counts/Lists.antt =====
-- Lemmas on lists of names, and on the number of nodes that a resize adds or deletes.
use container_service_extens.Common.{
  inl, inr, ◌⊎◌, leb, nat_eq, ℕ, zero, suc, ◌+◌, ◌-◌, ◌≤◌, ◌≡◌, refl, ap, Bool, true, false, not,
  ◌&&◌, ◌||◌, Bool-cases, List, [], ◌∷◌, ◌++◌, length, drop, elem, String, arith, eq_refl,
}
use container_service_extens.Common.Int.{pos, minus, is_positive, is_negative}
use container_service_extens.Cluster.Nodes.{filter, range_length}

unfoldable pub no_repeats : List String → Bool
no_repeats [] = true
no_repeats (x ∷ xs) = not (elem x xs) && no_repeats xs

pub length-append : (xs ys : List String) → length (xs ++ ys) ≡ length xs + length ys
length-append [] ys = ground arith
length-append (x ∷ xs) ys = ground (arith, length-append xs ys)

elem-drop : (x : String) (n : ℕ) (xs : List String) → elem x xs ≡ false → elem x (drop n xs) ≡ false
elem-drop x zero xs h = h
elem-drop x (suc n) [] h = refl
elem-drop x (suc n) (y ∷ xs) h = elem-drop x n xs (ground arith)

-- Every element of `xs` stands in `ys`.
abbrev within : List String → List String → Bool
within [] ys = true
within (x ∷ xs) ys = elem x ys && within xs ys

within-cons : (y : String) (xs ys : List String) → within xs ys ≡ true → within xs (y ∷ ys) ≡ true
within-cons y [] ys h = refl
within-cons y (x ∷ xs) ys h = ground (arith, within-cons y xs ys)

within_self : (xs : List String) → within xs xs ≡ true
within_self [] = refl
within_self (x ∷ xs) = ground (arith, eq_refl x, within-cons x xs xs, within_self xs)

filter-within : (xs ys : List String) → within xs ys ≡ true → filter (λ v. not (elem v ys)) xs ≡ []
unfolding filter
filter-within [] ys h = refl
filter-within (x ∷ xs) ys h = ground (arith, filter-within xs ys)

-- Without the elements past the first `n`, `n` are left.
pub length-filter :
    (n : ℕ) (xs : List String)
    → no_repeats xs ≡ true
    → n ≤ length xs
    → length (filter (λ v. not (elem v (drop n xs))) xs) ≡ n
unfolding filter no_repeats
length-filter zero xs h le = ap length (filter-within xs xs (within_self xs))
length-filter (suc n) [] h le = absurd (omega arith)
length-filter (suc n) (x ∷ xs) h le = ground (arith, elem-drop x n xs, length-filter n xs)

-- Nodes are to be added, or deleted, or there are as many as are wanted.
pub minus-cases :
    (n m : ℕ)
    → ((is_positive (minus (pos n) m) ≡ true)
        × (is_negative (minus (pos n) m) ≡ false)
        × (m + range_length (minus (pos n) m) ≡ n))
      ⊎ ((is_positive (minus (pos n) m) ≡ false) × (is_negative (minus (pos n) m) ≡ true) × (n ≤ m))
      ⊎ ((is_positive (minus (pos n) m) ≡ false)
          × (is_negative (minus (pos n) m) ≡ false)
          × (m ≡ n))
minus-cases n m = elim (Bool-cases (leb m n)) [
  | inl p ↦ rw p elim (Bool-cases (nat_eq (n - m) 0)) [
    | inl q ↦ rw q (inr (inr (refl, refl, ground arith)))
    | inr q ↦ rw q (inl (refl, refl, ground arith))
  ]
  | inr p ↦ rw p (inr (inl (refl, refl, ground arith)))
]

pub neither_left : (a b : Bool) → (a || b) ≡ false → a ≡ false
neither_left a b h = ground arith

pub neither_right : (a b : Bool) → (a || b) ≡ false → b ≡ false
neither_right a b h = ground arith
