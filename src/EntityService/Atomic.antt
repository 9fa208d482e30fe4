-- ===== src/EntityService/Atomic.antt =====
-- An update is atomic where etags are used.
use container_service_extens.Common.{
  ℕ, zero, suc, String, ◌≡◌, refl, sym, ap, subst, ◌∙◌, Bool, true, Option, none, some, List, ◌∷◌,
  Result, ok, err, ends_well, ok-injective,
}
use container_service_extens.EntityService.{
  Answer, accepted, precondition_failed, refused, payload_for, prepare, answered, sent, attempts,
  update_entity, UpdateError, max_rde_update_attempts,
}
use container_service_extens.EntityService.Objects.{
  Object, AccessError, Changes, apply_changes, get_path,
}
use container_service_extens.EntityService.Frame.{
  Untouched, Written, apply_changes-frame, apply_changes-Written,
}

not_ok :
    {S : Type 0} {e : UpdateError} {o : Object} {s t : S}
    → Path (Result UpdateError Object × S) (err e, s) (ok o, t)
    → ⊥
not_ok h = cc (ap (λ r. r.0) h)

module _ {S : Type 0} (get : S → Result AccessError (Object × String))
    (put : Option String → Object → S → Answer × S) where
  -- An etag is of one version of the entity, and a PUT with an etag is accepted only while the entity has
  -- that version.
  pub record HasEtags : Type 0 where
    pub one_version :
        (s s' : S) (x y : Object) (t : String) → get s ≡ ok (x, t) → get s' ≡ ok (y, t) → x ≡ y
    pub only_current :
        (s s' : S) (t : String) (p o : Object)
        → put (some t) p s ≡ (accepted o, s')
        → (x : Object) × (get s ≡ ok (x, t))

  -- The PUT that succeeded wrote the changes into the entity as it was at that moment.
  pub record Atomic (to_dict : Object → Object) (is_sys_admin : Bool) (changes : Changes)
      (answer : Object) (after : S) : Type 0 where
    pub before : S
    pub entity : Object
    pub changed : Object
    pub payload : Object
    pub etag : String
    pub current : get before ≡ ok (entity, etag)
    pub applied : Written changes changed
    pub kept : (q : List String) → Untouched changes q → get_path changed q ≡ get_path entity q
    pub sent_payload : payload_for is_sys_admin (to_dict changed) ≡ ok payload
    pub stored : put (some etag) payload before ≡ (accepted answer, after)

  module _ (others : ℕ → S → S) (to_dict : Object → Object) (is_sys_admin : Bool)
      (entity : Option Object) (c : String × Object) (cs : Changes) where
    -- What was prepared is a change of what was read.
    pub prepared :
        (s : S) (payload : Object) (etag : String)
        → prepare get put others to_dict is_sys_admin entity (c ∷ cs) s ≡ ok (payload, etag)
        → (x : Object) × (y : Object) × (get s ≡ ok (x, etag))
          × (apply_changes x (c ∷ cs) ≡ ok y)
          × (payload_for is_sys_admin (to_dict y) ≡ ok payload)
    unfolding prepare
    prepared s payload etag h =
        let ((x, t), h1, g) = ends_well (get s) _ h in
        let (y, h2, a) = ends_well (apply_changes x (c ∷ cs)) _ h1 in
        let (p, h3, b) = ends_well (payload_for is_sys_admin (to_dict y)) _ h2 in
        (
          x,
          y,
          subst (λ e. get s ≡ ok (x, e)) (ap (λ r. r.1) (ok-injective h3)) g,
          a,
          subst (λ e. payload_for is_sys_admin (to_dict y) ≡ ok e) (ap (λ r. r.0) (ok-injective h3))
              b,
        )

    pub with_changes :
        (o : Option Object) (changes : Changes) (s : S)
        → update_entity get put others to_dict is_sys_admin true o (some changes) s
          ≡ attempts get put others to_dict is_sys_admin true o changes max_rde_update_attempts 0 s
    unfolding update_entity
    with_changes none changes s = refl
    with_changes (some e) changes s = refl

    module _ (tags : HasEtags) where
      accepted-Atomic :
          (s s0 after : S) (payload o : Object) (etag : String)
          → prepare get put others to_dict is_sys_admin entity (c ∷ cs) s ≡ ok (payload, etag)
          → put (some etag) payload s0 ≡ (accepted o, after)
          → Atomic to_dict is_sys_admin (c ∷ cs) o after
      accepted-Atomic s s0 after payload o etag h w =
          let (x, y, g, a, b) = prepared s payload etag h in
          let (z, now) = tags.only_current s0 after etag payload o w in
          let same : x ≡ z = tags.one_version s s0 x z etag g now in
          record {
            before = s0;
            entity = z;
            changed = y;
            payload = payload;
            etag = etag;
            current = now;
            applied = apply_changes-Written x (c ∷ cs) y a;
            kept = λ q u. apply_changes-frame x (c ∷ cs) y q a u ∙ ap (λ v. get_path v q) same;
            sent_payload = b;
            stored = w;
          }

      answered-Atomic :
          (retry : S → Result UpdateError Object × S)
          → ((s' after : S) (o : Object)
              → retry s' ≡ (ok o, after)
              → Atomic to_dict is_sys_admin (c ∷ cs) o after)
          → (s s0 after : S) (payload o : Object) (etag : String) (a : Answer × S)
          → prepare get put others to_dict is_sys_admin entity (c ∷ cs) s ≡ ok (payload, etag)
          → put (some etag) payload s0 ≡ a
          → answered get put others to_dict is_sys_admin retry a ≡ (ok o, after)
          → Atomic to_dict is_sys_admin (c ∷ cs) o after
      answered-Atomic retry ih s s0 after payload o etag (accepted o', s') h w e =
          accepted-Atomic s s0 after payload o etag h (
            subst (λ z. put (some etag) payload s0 ≡ (accepted z, after))
              (ok-injective (ap (λ r. r.0) e))
              (subst (λ u. put (some etag) payload s0 ≡ (accepted o', u)) (ap (λ r. r.1) e) w))
      answered-Atomic retry ih s s0 after payload o etag (precondition_failed, s') h w e =
          ih s' after o e
      answered-Atomic retry ih s s0 after payload o etag (refused m, s') h w e = absurd (not_ok e)

      sent-Atomic :
          (retry : S → Result UpdateError Object × S)
          → ((s' after : S) (o : Object)
              → retry s' ≡ (ok o, after)
              → Atomic to_dict is_sys_admin (c ∷ cs) o after)
          → (n : ℕ) (s after : S) (o : Object) (r : Result AccessError (Object × String))
          → prepare get put others to_dict is_sys_admin entity (c ∷ cs) s ≡ r
          → sent get put others to_dict is_sys_admin true n retry s r ≡ (ok o, after)
          → Atomic to_dict is_sys_admin (c ∷ cs) o after
      sent-Atomic retry ih n s after o (err e) h g = absurd (not_ok g)
      sent-Atomic retry ih n s after o (ok (payload, etag)) h g =
          answered-Atomic retry ih s (others n s) after payload o etag _ h refl g

      attempts-Atomic :
          (k n : ℕ) (s after : S) (o : Object)
          → attempts get put others to_dict is_sys_admin true entity (c ∷ cs) k n s ≡ (ok o, after)
          → Atomic to_dict is_sys_admin (c ∷ cs) o after
      unfolding attempts
      attempts-Atomic zero n s after o h = absurd (not_ok h)
      attempts-Atomic (suc k) n s after o h =
          sent-Atomic _ (attempts-Atomic k (suc n)) n s after o _ refl h

      -- From version 36 of the API on, an update with changes that succeeds is atomic, whatever other
      -- clients do between a read and the write after it: the PUT wrote the changes into the entity as
      -- it was at that moment, each change that no later one touches has its value, and everything that
      -- no change touches is as it was.
      pub update_entity-Atomic :
          (s after : S) (o : Object)
          → update_entity get put others to_dict is_sys_admin true entity (some (c ∷ cs)) s
            ≡ (ok o, after)
          → Atomic to_dict is_sys_admin (c ∷ cs) o after
      update_entity-Atomic s after o h =
          attempts-Atomic max_rde_update_attempts 0 s after o
            (sym (with_changes entity (c ∷ cs) s) ∙ h)
