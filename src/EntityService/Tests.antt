-- ===== src/EntityService/Tests.antt =====
-- Runs of an update against a service whose entity has a name alone, with the name as its etag; another
-- client changes it once.
use container_service_extens.Common.{
  ℕ, zero, suc, String, ◌≡◌, ◌≢◌, refl, sym, ap, ◌∙◌, Bool, true, false, ◌==◌, eq_iff, Option, none,
  some, [], ◌∷◌, if◌then◌else◌, Result, ok, err, ok-injective, arith,
}
use container_service_extens.Common.Text.{split}
use container_service_extens.ClusterSpec.Tree.{text}
use container_service_extens.EntityService.{
  Answer, accepted, precondition_failed, too_many_attempts, update_entity,
}
use container_service_extens.EntityService.Objects.{
  Object, leaf, node, bare, attribute, AccessError,
}
use container_service_extens.EntityService.Atomic.{HasEtags, Atomic, update_entity-Atomic}
use container_service_extens.EntityService.Retries.{update_entity-retries}

abbrev named : String → Object
named s = node (attribute "name" (leaf (text s)) bare)

abbrev name_of : Object → String
name_of (node (attribute k (leaf (text s)) xs)) = s
name_of _ = ""

abbrev read : String → Result AccessError (Object × String)
read s = ok (named s, s)

abbrev write : Option String → Object → String → Answer × String
write none o s = (accepted o, name_of o)
write (some t) o s = if t == s then (accepted o, name_of o) else (precondition_failed, s)

abbrev another : ℕ → String → String
another zero s = "theirs"
another (suc n) s = s

abbrev rename : String × Object
rename = ("name", leaf (text "ours"))

written :
    update_entity read write another (λ o. o) true true none (some (rename ∷ [])) "old"
    ≡ (ok (named "ours"), "ours")
unfolding update_entity split
written = refl

write-tag :
    (b : Bool) (o p : Object) (s s' : String)
    → Path
        (Answer × String)
        (if b then (accepted p, name_of p) else (precondition_failed, s))
        (accepted o, s')
    → b ≡ true
write-tag true o p s s' h = refl
write-tag false o p s s' h = absurd (cc (ap (λ r. r.0) h))

read-HasEtags : HasEtags read write
read-HasEtags = record {
  one_version = λ s s' x y t h k.
      ap (λ r. r.0) (sym (ok-injective h))
      ∙ (ap named (ap (λ r. r.1) (ok-injective h) ∙ sym (ap (λ r. r.1) (ok-injective k)))
          ∙ ap (λ r. r.0) (ok-injective k));
  only_current = λ s s' t p o h.
      (named s, ap (λ u. ok (named s, u)) (sym ((eq_iff t s).0 (write-tag (t == s) o p s s' h))));
}

update_entity-Atomic_example : Atomic read write (λ o. o) true (rename ∷ []) (named "ours") "ours"
update_entity-Atomic_example =
    update_entity-Atomic read write another (λ o. o) true none rename [] read-HasEtags "old" "ours"
      (named "ours") written

write_passes :
    (s : String) (x p : Object) (t : String)
    → read s ≡ ok (x, t)
    → (write (some t) p s).0 ≢ precondition_failed
write_passes s x p t h e =
    absurd (passes (t == s) ((eq_iff t s).1 (ap (λ r. r.1) (sym (ok-injective h)))) e)
  where
    passes :
        (b : Bool)
        → b ≡ true
        → Path Answer
            (let r : Answer × String =
                if b then (accepted p, name_of p) else (precondition_failed, s) in
              r.0)
            precondition_failed
        → ⊥
    passes true h e = cc e
    passes false h e = cc h

update_entity-retries_example :
    (update_entity read write another (λ o. o) true true none (some (rename ∷ [])) "old").0
    ≢ err too_many_attempts
update_entity-retries_example =
    update_entity-retries read write another (λ o. o) true none rename [] write_passes 1 (λ s. refl)
      (omega arith) "old"
