-- ===== src/EntityService/Frame.antt =====
-- A change of an object leaves the attributes alone that are not on its path.
use container_service_extens.Common.{
  String, ◌≡◌, refl, sym, ap, subst, ◌∙◌, Bool, true, false, not, ◌||◌, ◌==◌, eq_iff, eq_refl,
  Bool-cases, inl, inr, Option, none, some, List, [], ◌∷◌, All, if◌then◌else◌, ok, ends_well,
  ok-injective, arith,
}
use container_service_extens.Common.Text.{split}
use container_service_extens.EntityService.Objects.{
  Object, leaf, node, Attributes, bare, attribute, find_attribute, store_attribute, getattr,
  setattr, set_path, get_path, below, Changes, apply_changes, or_missing,
}

-- The two paths part at some attribute.
abbrev pub apart : List String → List String → Bool
apart [] q = false
apart (a ∷ p) [] = false
apart (a ∷ p) (b ∷ q) = not (a == b) || apart p q

find-store :
    (j k : String) (o : Object) (xs : Attributes)
    → find_attribute j (store_attribute k o xs) ≡ (if k == j then some o else find_attribute j xs)
unfolding find_attribute store_attribute
find-store j k o bare = refl
find-store j k o (attribute i x xs) =
    ground (arith, eq_iff k j, eq_iff i k, eq_iff i j, find-store j k o xs)

-- What `setattr` did.
setattr-ok :
    (o : Object) (a : String) (v d : Object)
    → setattr o a v ≡ ok d
    → (xs : Attributes) × (o ≡ node xs) × (d ≡ node (store_attribute a v xs))
unfolding setattr
setattr-ok (leaf u) a v d h = absurd cc
setattr-ok (node xs) a v d h = (xs, refl, sym (ok-injective h))

getattr-ok :
    (xs : Attributes) (a : String) (c : Object)
    → getattr (node xs) a ≡ ok c
    → find_attribute a xs ≡ some c
unfolding getattr
getattr-ok xs a c h = found (find_attribute a xs) h
  where
    found : (x : Option Object) → or_missing x ≡ ok c → x ≡ some c
    found none h = absurd cc
    found (some o) h = ap some (ok-injective h)

stored_other :
    (xs : Attributes) (a b : String) (v : Object)
    → a == b ≡ false
    → find_attribute b (store_attribute a v xs) ≡ find_attribute b xs
stored_other xs a b v n =
    find-store b a v xs ∙ ap (λ t. if t then some v else find_attribute b xs) n

stored_same :
    (xs : Attributes) (a b : String) (v : Object)
    → a == b ≡ true
    → find_attribute b (store_attribute a v xs) ≡ some v
stored_same xs a b v n = find-store b a v xs ∙ ap (λ t. if t then some v else find_attribute b xs) n

get_path-stored :
    (xs : Attributes) (a b : String) (v : Object) (q : List String)
    → a == b ≡ false
    → get_path (node (store_attribute a v xs)) (b ∷ q) ≡ get_path (node xs) (b ∷ q)
unfolding get_path
get_path-stored xs a b v q n = ap (λ x. below x λ o. get_path o q) (stored_other xs a b v n)

get_path-below :
    (xs : Attributes) (a b : String) (c d : Object) (q : List String)
    → a == b ≡ true
    → find_attribute a xs ≡ some c
    → get_path d q ≡ get_path c q
    → get_path (node (store_attribute a d xs)) (b ∷ q) ≡ get_path (node xs) (b ∷ q)
unfolding get_path
get_path-below xs a b c d q e f h =
    ap (λ x. below x λ o. get_path o q) (stored_same xs a b d e)
    ∙ (h
        ∙ ap (λ x. below x λ o. get_path o q)
            (sym (subst (λ k. find_attribute k xs ≡ some c) ((eq_iff a b).0 e) f)))

-- A change below an attribute, with what is known of the change of its value.
node-frame :
    (xs : Attributes) (a b : String) (c d e : Object) (p q : List String)
    → getattr (node xs) a ≡ ok c
    → setattr (node xs) a d ≡ ok e
    → apart (a ∷ p) (b ∷ q) ≡ true
    → (apart p q ≡ true → get_path d q ≡ get_path c q)
    → get_path e (b ∷ q) ≡ get_path (node xs) (b ∷ q)
unfolding setattr
node-frame xs a b c d e p q g s n ih =
    subst (λ o. get_path o (b ∷ q) ≡ get_path (node xs) (b ∷ q)) (ok-injective s)
      (elim (Bool-cases (a == b)) [
        | inl t ↦ get_path-below xs a b c d q t (getattr-ok xs a c g) (ih (ground arith))
        | inr f ↦ get_path-stored xs a b d q f
      ])

set_path-frame :
    (o : Object) (p : List String) (v d : Object) (q : List String)
    → set_path o p v ≡ ok d
    → apart p q ≡ true
    → get_path d q ≡ get_path o q
unfolding set_path
set_path-frame o [] v d q h n = absurd cc
set_path-frame o (a ∷ []) v d [] h n = absurd cc
set_path-frame o (a ∷ []) v d (b ∷ q) h n =
    let (xs, e, f) = setattr-ok o a v d h in
    ap (λ x. get_path x (b ∷ q)) f
    ∙ (get_path-stored xs a b v q (ground arith) ∙ ap (λ x. get_path x (b ∷ q)) (sym e))
set_path-frame o (a ∷ a' ∷ p) v d [] h n = absurd cc
set_path-frame (leaf u) (a ∷ a' ∷ p) v d (b ∷ q) h n = absurd cc
set_path-frame (node xs) (a ∷ a' ∷ p) v d (b ∷ q) h n =
    let (c, h1, g) = ends_well (getattr (node xs) a) _ h in
    let (c', s, i) = ends_well (set_path c (a' ∷ p) v) _ h1 in
    node-frame xs a b c c' d (a' ∷ p) q g s n (set_path-frame c (a' ∷ p) v c' q i)

set_path-value :
    (o : Object) (p : List String) (v d : Object) → set_path o p v ≡ ok d → get_path d p ≡ some v
unfolding set_path get_path
set_path-value o [] v d h = absurd cc
set_path-value o (a ∷ []) v d h =
    let (xs, e, f) = setattr-ok o a v d h in
    ap (λ x. get_path x (a ∷ [])) f
    ∙ ap (λ x. below x λ o. some o) (stored_same xs a a v (eq_refl a))
set_path-value (leaf u) (a ∷ a' ∷ p) v d h = absurd cc
set_path-value (node xs) (a ∷ a' ∷ p) v d h =
    let (c, h1, g) = ends_well (getattr (node xs) a) _ h in
    let (c', s, i) = ends_well (set_path c (a' ∷ p) v) _ h1 in
    let (ys, e, f) = setattr-ok (node xs) a c' d s in
    ap (λ x. get_path x (a ∷ a' ∷ p)) f
    ∙ (ap (λ x. below x λ o. get_path o (a' ∷ p)) (stored_same ys a a c' (eq_refl a))
        ∙ set_path-value c (a' ∷ p) v c' i)

-- No change is on the path, nor on a part of it, nor below it.
abbrev pub Untouched : Changes → List String → Type 0
Untouched cs q = All (λ c. apart (split b'.' c.0) q ≡ true) cs

pub apply_changes-frame :
    (o : Object) (cs : Changes) (d : Object) (q : List String)
    → apply_changes o cs ≡ ok d
    → Untouched cs q
    → get_path d q ≡ get_path o q
unfolding apply_changes
apply_changes-frame o [] d q h u = ap (λ x. get_path x q) (sym (ok-injective h))
apply_changes-frame o ((p, v) ∷ cs) d q h (n, u) =
    let (c, g, i) = ends_well (set_path o (split b'.' p) v) _ h in
    apply_changes-frame c cs d q g u ∙ set_path-frame o (split b'.' p) v c q i n

-- Each change has taken effect that no later one touches.
abbrev pub Written : Changes → Object → Type 0
Written [] d = Unit
Written ((p, v) ∷ cs) d =
    (Untouched cs (split b'.' p) → get_path d (split b'.' p) ≡ some v) × Written cs d

pub apply_changes-Written :
    (o : Object) (cs : Changes) (d : Object) → apply_changes o cs ≡ ok d → Written cs d
unfolding apply_changes
apply_changes-Written o [] d h = tt
apply_changes-Written o ((p, v) ∷ cs) d h =
    let (c, g, i) = ends_well (set_path o (split b'.' p) v) _ h in
    (
      λ u. apply_changes-frame c cs d (split b'.' p) g u ∙ set_path-value o (split b'.' p) v c i,
      apply_changes-Written c cs d g,
    )
