-- ===== src/ClusterSpec/Compared.antt =====
-- What a request for an update was compared to when the validator accepts it.
use container_service_extens.Common.{
  String, ◌≡◌, subst, Bool, true, false, Option, none, some, Result, ok, err, ends_well,
}
use container_service_extens.ClusterSpec.Model.{ClusterSpec, Status}
use container_service_extens.ClusterSpec.Construct.{
  SpecError, construct_cluster_spec_from_entity_status,
}
use container_service_extens.ClusterSpec.Tree.{Value, Members, flatten_dictionary}
use container_service_extens.ClusterSpec.Update.{
  BehaviorOperation, update_cluster, ValidationError, check_sizing, as_spec_error, exclude_fields,
  default_sizing, validate_update, parsed, validate_parsed, validate,
}
use container_service_extens.ClusterSpec.Changes.{
  Differs, Verdict, validate_cluster_update_request-Verdict,
}

as_spec_error-ok : {A : Type 0} (r : Result SpecError A) {a : A} → as_spec_error r ≡ ok a → r ≡ ok a
as_spec_error-ok (ok x) h = cc
as_spec_error-ok (err e) h = absurd cc

module _ (to_dict : ClusterSpec → Members) (from_dict : Value → Option ClusterSpec)
    (get_entity : Result ValidationError (Option Status))
    (default_policy : Result ValidationError (Option String)) (is_tkgm : Bool) where
  -- The specification of a request differs from the one that is built from the status of the cluster in
  -- fields that may be changed, of the template or of the nodes and the exposure.
  pub record Compared (entity : Value) (is_upgrade : Bool) : Type 0 where
    pub input : ClusterSpec
    pub status : Option Status
    pub sizing : Bool × Bool
    pub reference : ClusterSpec
    pub is_input : from_dict entity ≡ some input
    pub sized : check_sizing input ≡ ok tt
    pub is_status : get_entity ≡ ok status
    pub is_reference :
        construct_cluster_spec_from_entity_status sizing.0 sizing.1 status ≡ ok reference
    pub verdict :
        Verdict
          (Differs
            (exclude_fields is_tkgm input reference)
            (flatten_dictionary (to_dict reference))
            (flatten_dictionary (to_dict input)))
          (ok is_upgrade)

  from_parsed :
      (o : Option ClusterSpec) (s : ClusterSpec)
      → parsed to_dict from_dict get_entity default_policy o ≡ ok s
      → o ≡ some s
  unfolding parsed
  from_parsed none s h = absurd cc
  from_parsed (some t) s h = cc

  -- Whatever the operation, a request that is accepted is parsed, and its sizing is checked.
  pub validate-sized :
      (op : BehaviorOperation) (has_id : Bool) (entity : Value) {b : Bool}
      → validate to_dict from_dict get_entity default_policy op is_tkgm has_id (some entity) ≡ ok b
      → (s : ClusterSpec) × (from_dict entity ≡ some s) × (check_sizing s ≡ ok tt)
  unfolding validate
  validate-sized op has_id entity h =
      let (s, h1, is_s) =
        ends_well (parsed to_dict from_dict get_entity default_policy (from_dict entity)) _ h in
      let (unit, h2, sized) = ends_well (check_sizing s) _ h1 in
      (s, from_parsed (from_dict entity) s is_s, sized)

  validate_parsed-update :
      (has_id : Bool) (s : ClusterSpec) {b : Bool}
      → validate_parsed to_dict from_dict get_entity default_policy update_cluster is_tkgm has_id
          (some s)
        ≡ ok b
      → validate_update to_dict from_dict get_entity default_policy is_tkgm s ≡ ok b
  unfolding validate_parsed
  validate_parsed-update true s h = h
  validate_parsed-update false s h = absurd cc

  pub validate-Compared :
      (has_id : Bool) (entity : Value) {b : Bool}
      → validate to_dict from_dict get_entity default_policy update_cluster is_tkgm has_id
          (some entity)
        ≡ ok b
      → Compared entity b
  unfolding validate validate_update
  validate-Compared has_id entity h =
      let (s, h1, is_s) =
        ends_well (parsed to_dict from_dict get_entity default_policy (from_dict entity)) _ h in
      let (unit, h2, sized) = ends_well (check_sizing s) _ h1 in
      let (status, h3, is_status) = ends_well get_entity _ (validate_parsed-update has_id s h2) in
      let (sizing, h4, is_sizing) =
        ends_well (default_sizing to_dict from_dict get_entity default_policy is_tkgm status) _
          h3 in
      let (reference, h5, is_reference) =
        ends_well
          (as_spec_error (construct_cluster_spec_from_entity_status sizing.0 sizing.1 status)) _
          h4 in
      record {
        input = s;
        status = status;
        sizing = sizing;
        reference = reference;
        is_input = from_parsed (from_dict entity) s is_s;
        sized = sized;
        is_status = is_status;
        is_reference = as_spec_error-ok _ is_reference;
        verdict =
            subst (Verdict _) h5
              (validate_cluster_update_request-Verdict to_dict s reference is_tkgm);
      }
