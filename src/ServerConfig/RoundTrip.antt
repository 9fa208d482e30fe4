-- ===== src/ServerConfig/RoundTrip.antt =====
-- Reading back what was written to the configuration.
use container_service_extens.Common.{
  inl, inr, ℕ, zero, suc, String, Option, Option-cases, none, some, List, [], ◌∷◌, Result,
  Result-cases, ok, err, ok-injective, ◌>>=◌, ◌≡◌, refl, subst, eq_refl, arith,
}
use container_service_extens.Common.Int.{ℤ, pos, negsuc}
use container_service_extens.ServerConfig.{
  Node, basic, seq, table, Nodes, end, item, Fields, empty, field, ConfigError, key_error, nth,
  replace_nth, find, store, is_index, from_found, element_at, get_element, navigate, get_value_at,
  write_nth, write_index, write_field, write_at, write_element, put_nth, put_index, put_element,
  write_below, parent_tokens, split_key, set_value_at, Written,
}

nth-replace_nth :
    (n : ℕ) (x y : Node) (xs : Nodes) → nth n xs ≡ some x → nth n (replace_nth n y xs) ≡ some y
unfolding nth replace_nth
nth-replace_nth n x y end h = absurd cc
nth-replace_nth zero x y (item z xs) h = refl
nth-replace_nth (suc n) x y (item z xs) h = nth-replace_nth n x y xs h

find-store : (k : String) (y : Node) (fs : Fields) → find k (store k y fs) ≡ some y
unfolding find store
find-store k y empty = rw (eq_refl k) refl
find-store k y (field j x fs) = ground (arith, find-store k y fs)

-- A list in which the index has the value.
data HasItem (int : String → Option ℤ) (i : Option ℤ) (value : Node) : Node → Type 0 where
  has_item : (ys : Nodes) → element_at int ys i ≡ ok value → HasItem int i value (seq ys)

module _ (int : String → Option ℤ) where
  write_nth-HasItem :
      (n : ℕ) (value : Node) (xs : Nodes) (o : Option Node)
      → nth n xs ≡ o
      → (parent : Node) (old : Option Node) → write_nth int n value xs o ≡ ok (parent, old)
      → HasItem int (some (pos n)) value parent
  unfolding write_nth element_at from_found
  write_nth-HasItem n value xs none p parent old h = absurd cc
  write_nth-HasItem n value xs (some x) p parent old h =
      subst (λ r. HasItem int (some (pos n)) value r.0) (ok-injective h)
        (has_item (replace_nth n value xs) (rw (nth-replace_nth n x value xs p) refl))

  write_index-HasItem :
      (xs : Nodes) (i : ℤ) (value parent : Node) (old : Option Node)
      → write_index int (seq xs) i value ≡ ok (parent, old)
      → HasItem int (some i) value parent
  unfolding write_index
  write_index-HasItem xs (negsuc n) value parent old h = absurd cc
  write_index-HasItem xs (pos n) value parent old h =
      write_nth-HasItem n value xs (nth n xs) refl parent old h

  get_element-HasItem :
      (key : String) (i : Option ℤ) (value parent : Node)
      → is_index int key ≡ ok i
      → HasItem int i value parent
      → get_element int parent key ≡ ok value
  unfolding get_element
  get_element-HasItem key i value _ p (has_item ys h) = rw p h

  get_element-written :
      (parent : Node) (key : String) (value : Node) (i : Option ℤ)
      → is_index int key ≡ ok i
      → (r : Node × Option Node) → write_at int parent key i value ≡ ok r
      → get_element int r.0 key ≡ ok value
  unfolding write_at write_index write_field get_element from_found
  get_element-written (basic s) key value none p r h = absurd cc
  get_element-written (seq xs) key value none p r h = absurd cc
  get_element-written (table fs) key value none p r h =
      subst (λ q. get_element int q.0 key ≡ ok value) (ok-injective h)
        (rw (find-store key value fs) refl)
  get_element-written (basic s) key value (some i) p r h = absurd cc
  get_element-written (table fs) key value (some i) p r h = absurd cc
  get_element-written (seq xs) key value (some i) p r h =
      get_element-HasItem key (some i) value r.0 p (write_index-HasItem xs i value r.0 r.1 h)

  write_element-get_element :
      (parent : Node) (key : String) (value : Node) (r : Node × Option Node)
      → write_element int parent key value ≡ ok r
      → get_element int r.0 key ≡ ok value
  unfolding write_element
  write_element-get_element parent key value r h = elim (Result-cases (is_index int key)) [
    | inl (i, p) ↦ get_element-written parent key value i p r (rw p at h)
    | inr (e, p) ↦ absurd (ok_not_err e r (rw p at h))
  ]
    where
      ok_not_err :
          (e : ConfigError) (r : Node × Option Node) → Path (Written int) (err e) (ok r) → ⊥
      ok_not_err e r h = cc

  -- A child that is put in the place of another one stands there.
  put_nth-get :
      (xs : Nodes) (key : String) (i : Option ℤ) (c d : Node)
      → is_index int key ≡ ok i
      → element_at int xs i ≡ ok c
      → get_element int (put_nth int xs i d) key ≡ ok d
  unfolding put_nth get_element element_at from_found
  put_nth-get xs key none c d p h = absurd cc
  put_nth-get xs key (some (negsuc n)) c d p h = absurd cc
  put_nth-get xs key (some (pos n)) c d p h = elim (Option-cases (nth n xs)) [
    | inl q ↦ absurd (none_is_err c (rw q at h))
    | inr (x, q) ↦ rw (p, nth-replace_nth n x d xs q) refl
  ]
    where
      none_is_err : (c : Node) → Path (Result ConfigError Node) (err key_error) (ok c) → ⊥
      none_is_err c h = cc

  from_found-some : (d : Node) → from_found (some d) ≡ ok d
  unfolding from_found
  from_found-some d = refl

  put_element-get_element :
      (root : Node) (key : String) (c d : Node)
      → get_element int root key ≡ ok c
      → get_element int (put_element int root key d) key ≡ ok d
  unfolding get_element put_element put_index
  put_element-get_element (basic s) key c d h = absurd cc
  put_element-get_element (table fs) key c d h = rw (find-store key d fs) (from_found-some d)
  put_element-get_element (seq xs) key c d h = elim (Result-cases (is_index int key)) [
    | inl (i, p) ↦ rw p (put_nth-get xs key i c d p (rw p at h))
    | inr (e, p) ↦ absurd (err_ok e c (rw p at h))
  ]
    where
      err_ok : (e : ConfigError) (c : Node) → Path (Result ConfigError Node) (err e) (ok c) → ⊥
      err_ok e c h = cc

  write_below-navigate :
      (ts : List String) (root : Node) (key : String) (value : Node) (r : Node × Option Node)
      → write_below int root ts key value ≡ ok r
      → (navigate int r.0 ts >>= λ parent. get_element int parent key) ≡ ok value
  unfolding write_below navigate
  write_below-navigate [] root key value r h = write_element-get_element root key value r h
  write_below-navigate (t ∷ ts) root key value r h = elim (Result-cases (get_element int root t)) [
    | inl (c, p) ↦ elim (Result-cases (write_below int c ts key value)) [
      | inl (q, s) ↦
          subst
            (λ x. (navigate int x.0 (t ∷ ts) >>= λ parent. get_element int parent key) ≡ ok value)
            (ok-injective (rw (p, s) at h))
            (rw (put_element-get_element root t c q.0 p) (write_below-navigate ts c key value q s))
      | inr (e, s) ↦ absurd (failed e r (rw (p, s) at h))
    ]
    | inr (e, p) ↦ absurd (failed e r (rw p at h))
  ]
    where
      failed : (e : ConfigError) (r : Node × Option Node) → Path (Written int) (err e) (ok r) → ⊥
      failed e r h = cc

  -- A value that was written at a key is read back at that key.
  pub set_value_at-get_value_at :
      (root : Node) (key : String) (value : Node) (r : Node × Option Node)
      → set_value_at int root key value ≡ ok r
      → get_value_at int r.0 key ≡ ok value
  unfolding set_value_at get_value_at
  set_value_at-get_value_at root key value r h =
      write_below-navigate (parent_tokens key) root (split_key key).1 value r h
