-- ===== src/Behavior/Validation.antt =====
-- What it means that the version of a payload and the validator let an entity pass.
use container_service_extens.Common.{
  String, ◌≡◌, refl, sym, subst, ap, ◌∙◌, Bool, true, false, ◌⊎◌, inl, inr, Option, none, some,
  Result, ok, err, ends_well, ok-injective, if◌then◌else◌,
}
use container_service_extens.Common.Dict.{lookup}
use container_service_extens.ClusterSpec.Tree.{
  Value, null, text, num, flag, arr, obj, Members, done, member, member_at,
}
use container_service_extens.ClusterSpec.Update
use container_service_extens.ClusterSpec.Update.{
  BehaviorOperation, create_cluster, get_kube_config, update_cluster, delete_cluster,
  delete_nfs_node, ValidationError, check_sizing,
}
use container_service_extens.Behavior.Json.{Raised, get, is_truthy}
use container_service_extens.Behavior.Environment.{validator_2_1_0, Server}
use container_service_extens.Behavior.Handlers.{
  rde_version_of, map_input_payload_version_to_rde_version, get_validator, raised_as, unless_empty,
  supported, check_payload_version, validate_with,
}

-- The payload version of an entity stands for a version that is not newer than the one in use.
pub record IsSupported (server : Server) (entity : Value) : Type 0 where
  pub members : Members
  pub payload_version : String
  pub version : String
  pub is_object : entity ≡ obj members
  pub has_version : member_at "apiVersion" members ≡ text payload_version
  pub stands_for : lookup payload_version map_input_payload_version_to_rde_version ≡ some version
  pub not_newer : server.is_newer version server.rde_version_in_use ≡ false

raised_as-ok :
    {A : Type 0} (e : Raised) (r : Result ValidationError A) {a : A}
    → raised_as e r ≡ ok a
    → r ≡ ok a
unfolding raised_as
raised_as-ok e (ok x) h = cc
raised_as-ok e (err x) h = absurd cc

is_either :
    (first second : Bool) {v : String}
    → (if first then some "2.0.0" else if second then some "2.1.0" else none) ≡ some v
    → (v ≡ "2.0.0") ⊎ (v ≡ "2.1.0")
is_either true second h = inl cc
is_either false true h = inr cc
is_either false false h = absurd cc

get_validator_of_version :
    (s v : String)
    → lookup s map_input_payload_version_to_rde_version ≡ some v
    → get_validator v ≡ some validator_2_1_0
unfolding get_validator lookup
get_validator_of_version s v h = elim (is_either _ _ h) [ inl e ↦ rw e refl | inr e ↦ rw e refl ]

get_object :
    (k : String) (v : Value) {w : Value}
    → get k v ≡ ok w
    → (ms : Members) × (v ≡ obj ms) × (member_at k ms ≡ w)
unfolding get
get_object k (obj ms) h = (ms, refl, ok-injective h)
get_object k null h = absurd cc
get_object k (text s) h = absurd cc
get_object k (num n) h = absurd cc
get_object k (flag b) h = absurd cc
get_object k (arr vs) h = absurd cc

rde_version_of_text :
    (v : Value) {version : String}
    → rde_version_of v ≡ ok (some version)
    → (s : String) × (v ≡ text s)
      × (lookup s map_input_payload_version_to_rde_version ≡ some version)
unfolding rde_version_of
rde_version_of_text (text s) h = (s, refl, ok-injective h)
rde_version_of_text (arr vs) h = absurd cc
rde_version_of_text (obj ms) h = absurd cc
rde_version_of_text null h = absurd cc
rde_version_of_text (num n) h = absurd cc
rde_version_of_text (flag b) h = absurd cc

nonempty_object :
    (ms : Members) (k s : String) → member_at k ms ≡ text s → unless_empty (obj ms) ≡ some (obj ms)
unfolding member_at is_truthy
nonempty_object done k s h = absurd cc
nonempty_object (member j v ms) k s h = refl

unless-ok :
    {A : Type 0} (b : Bool) (e : Raised) {x y : A}
    → (if b then err e else ok x) ≡ ok y
    → (x ≡ y) × (b ≡ false)
unless-ok true e h = absurd cc
unless-ok false e h = (ok-injective h, refl)

module _ (server : Server) where
  supported-ok :
      (o : Option String) {version : String}
      → supported server o ≡ ok version
      → (o ≡ some version) × (server.is_newer version server.rde_version_in_use ≡ false)
  unfolding supported
  supported-ok none h = absurd cc
  supported-ok (some v) h =
      let (same, older) = unless-ok (server.is_newer v server.rde_version_in_use) _ h in
      (ap some same, subst (λ u. server.is_newer u server.rde_version_in_use ≡ false) same older)

  check_payload_version-IsSupported :
      (entity payload_version : Value) {version : String}
      → get "apiVersion" entity ≡ ok payload_version
      → check_payload_version server payload_version ≡ ok version
      → (s : IsSupported server entity) × (version ≡ s.version)
  unfolding check_payload_version
  check_payload_version-IsSupported entity payload_version {version} g h =
      let (o, h1, is_version) = ends_well (rde_version_of payload_version) _ h in
      let (is_some, not_newer) = supported-ok o h1 in
      let (s, is_text, found) = rde_version_of_text payload_version (is_version ∙ ap ok is_some) in
      let (ms, is_object, has_version) = get_object "apiVersion" entity g in
      (
        record {
          members = ms;
          payload_version = s;
          version = version;
          is_object = is_object;
          has_version = has_version ∙ is_text;
          stands_for = found;
          not_newer = not_newer;
        },
        refl,
      )

  validated :
      (op : BehaviorOperation) (kind : Bool) (id entity : Value) (s : IsSupported server entity)
      {b : Bool}
      → validate_with server (get_validator s.version) op kind id entity ≡ ok b
      → Update.validate server.to_dict server.from_dict
          (server.status_of id)
          (server.default_policy id)
          op
          kind
          (is_truthy id)
          (some entity)
        ≡ ok b
  unfolding validate_with
  validated op kind id entity s {b} h =
      subst
        (λ o.
          Update.validate server.to_dict server.from_dict (server.status_of id)
            (server.default_policy id) op kind (is_truthy id) o
          ≡ ok b)
        (subst (λ v. unless_empty v ≡ some v) (sym s.is_object)
          (nonempty_object s.members "apiVersion" s.payload_version s.has_version))
        (raised_as-ok server.raised_by_vcd _ (
          subst (λ v. validate_with server v op kind id entity ≡ ok b)
            (get_validator_of_version s.payload_version s.version s.stands_for) h))

  pub accepted :
      (op : BehaviorOperation) (kind : Bool) (id entity payload_version : Value) (version : String)
      {b : Bool}
      → get "apiVersion" entity ≡ ok payload_version
      → check_payload_version server payload_version ≡ ok version
      → validate_with server (get_validator version) op kind id entity ≡ ok b
      → IsSupported server entity
        × (Update.validate server.to_dict server.from_dict
              (server.status_of id)
              (server.default_policy id)
              op
              kind
              (is_truthy id)
              (some entity)
            ≡ ok b)
  accepted op kind id entity payload_version version {b} has_version checked valid =
      let (s, same) =
        check_payload_version-IsSupported entity payload_version has_version checked in
      (
        s,
        validated op kind id entity s (
            subst (λ v. validate_with server (get_validator v) op kind id entity ≡ ok b) same
              valid),
      )
