-- ===== src/Behavior/Guard.antt =====
-- When a handler of a behavior calls the cluster service.
use container_service_extens.Common.{
  ◌≡◌, subst, ap, ◌∙◌, Bool, false, some, [], ◌∷◌, Result, ok, after, ok-injective,
}
use container_service_extens.ClusterSpec.Model.{ClusterSpec}
use container_service_extens.ClusterSpec.Tree.{Value, null}
use container_service_extens.ClusterSpec.Update.{
  BehaviorOperation, create_cluster, get_kube_config, update_cluster, delete_cluster,
  delete_nfs_node, check_sizing,
}
use container_service_extens.ClusterSpec.Compared.{Compared, validate-sized, validate-Compared}
use container_service_extens.Behavior.Json.{Raised, item, get, is_truthy}
use container_service_extens.Behavior.Environment.{
  Context, Service, Request, create, update, delete, config, delete_nodes, Server,
}
use container_service_extens.Behavior.Handlers.{
  get_validator, is_tkgm, check_payload_version, validate_with, get_cluster_service, prepare_create,
  prepare_update, prepare,
}
use container_service_extens.Behavior.Validation.{IsSupported, accepted}

module _ (server : Server) where
  -- A call of the cluster service that an operation allows.
  pub data Allowed (ctx : Context) : BehaviorOperation → Request → Type 0 where
    creates :
        (input : ClusterSpec) (converted : Value)
        → IsSupported server ctx.entity
        → server.from_dict ctx.entity ≡ some input
        → check_sizing input ≡ ok tt
        → server.convert ctx.entity ≡ ok converted
        → Allowed ctx create_cluster (create ctx.entity_id converted)
    updates :
        (kind converted : Value) (is_upgrade : Bool)
        → IsSupported server ctx.entity
        → item "kind" ctx.entity ≡ ok kind
        → Compared server.to_dict server.from_dict
            (server.status_of ctx.entity_id)
            (server.default_policy ctx.entity_id)
            (is_tkgm kind)
            ctx.entity
            is_upgrade
        → server.convert ctx.entity ≡ ok converted
        → Allowed ctx update_cluster (update ctx.entity_id converted)
    deletes : Allowed ctx delete_cluster (delete ctx.entity_id)
    configures : Allowed ctx get_kube_config (config ctx.entity_id)
    deletes_node :
        (node : Value)
        → get "node_name" ctx.arguments ≡ ok node
        → Allowed ctx delete_nfs_node (delete_nodes ctx.entity_id (node ∷ []))

  -- What is prepared is allowed, and by the service that serves the entity.
  abbrev pub Prepared : Context → BehaviorOperation → Service × Request → Type 0
  Prepared ctx op (service, request) =
      (get_cluster_service server ctx.entity ≡ ok service) × Allowed ctx op request

  module _ (ctx : Context) where
    with_pair :
        {A B : Type 0} {a c : A} {b d : B}
        → Path (Result Raised (A × B)) (ok (a, b)) (ok (c, d))
        → (a ≡ c) × (b ≡ d)
    with_pair h = (ap (λ p. p.0) (ok-injective h), ap (λ p. p.1) (ok-injective h))

    prepare_create-Prepared :
        (c : Service × Request) → prepare_create server ctx ≡ ok c → Prepared ctx create_cluster c
    unfolding prepare_create
    prepare_create-Prepared (service, request) h =
        after (server.client ctx.auth_token) _ h λ u _ h1.
          after (get "apiVersion" ctx.entity) _ h1 λ payload_version has_version h2.
            after (check_payload_version server payload_version) _ h2 λ version checked h3.
              after server.sysadmin_client _ h3 λ u _ h4.
                after
                  (validate_with server (get_validator version) create_cluster false null
                    ctx.entity)
                  _ h4
                  λ b valid h5. after (server.convert ctx.entity) _ h5 λ converted is_converted h6.
                    after (get_cluster_service server ctx.entity) _ h6 λ found is_service h7.
                      let (s, ok_s) =
                        accepted server create_cluster false null ctx.entity payload_version version
                          has_version checked valid in
                      let (input, is_input, sized) =
                        validate-sized server.to_dict server.from_dict (server.status_of null)
                          (server.default_policy null) false create_cluster false ctx.entity ok_s in
                      (
                        is_service ∙ ap ok (with_pair h7).0,
                        subst (Allowed ctx create_cluster) (with_pair h7).1
                            (creates input converted s is_input sized is_converted),
                      )

    prepare_update-Prepared :
        (c : Service × Request) → prepare_update server ctx ≡ ok c → Prepared ctx update_cluster c
    unfolding prepare_update
    prepare_update-Prepared (service, request) h =
        after (server.client ctx.auth_token) _ h λ u _ h1.
          after (get "apiVersion" ctx.entity) _ h1 λ payload_version has_version h2.
            after (check_payload_version server payload_version) _ h2 λ version checked h3.
              after (item "kind" ctx.entity) _ h3 λ kind has_kind h4.
                after server.sysadmin_client _ h4 λ u _ h5.
                  after
                    (validate_with server (get_validator version) update_cluster (is_tkgm kind)
                      ctx.entity_id ctx.entity)
                    _ h5
                    λ b valid h6.
                      after (server.convert ctx.entity) _ h6 λ converted is_converted h7.
                        after (get_cluster_service server ctx.entity) _ h7 λ found is_service h8.
                          let (s, ok_s) =
                            accepted server update_cluster (is_tkgm kind) ctx.entity_id ctx.entity
                              payload_version version has_version checked valid in
                          (
                            is_service ∙ ap ok (with_pair h8).0,
                            subst (Allowed ctx update_cluster) (with_pair h8).1 (
                                updates kind converted b s has_kind
                                  (validate-Compared server.to_dict server.from_dict
                                    (server.status_of ctx.entity_id)
                                    (server.default_policy ctx.entity_id) (is_tkgm kind)
                                    (is_truthy ctx.entity_id) ctx.entity ok_s)
                                  is_converted),
                          )

    -- A handler calls the cluster service only for what its operation allows, by the service that serves the
    -- entity: a creation or an update in a supported version that the validator accepts, the update
    -- by its comparison to the status of the cluster, with the entity converted.
    pub prepare-Prepared :
        (op : BehaviorOperation) (c : Service × Request)
        → prepare server op ctx ≡ ok c
        → Prepared ctx op c
    unfolding prepare
    prepare-Prepared create_cluster c h = prepare_create-Prepared c h
    prepare-Prepared update_cluster c h = prepare_update-Prepared c h
    prepare-Prepared delete_cluster (service, request) h =
        after (get_cluster_service server ctx.entity) _ h λ found is_service h1. (
          is_service ∙ ap ok (with_pair h1).0,
          subst (Allowed ctx delete_cluster) (with_pair h1).1 deletes,
        )
    prepare-Prepared get_kube_config (service, request) h =
        after (get_cluster_service server ctx.entity) _ h λ found is_service h1. (
          is_service ∙ ap ok (with_pair h1).0,
          subst (Allowed ctx get_kube_config) (with_pair h1).1 configures,
        )
    prepare-Prepared delete_nfs_node (service, request) h =
        after (get "node_name" ctx.arguments) _ h λ node has_node h1.
          after (get_cluster_service server ctx.entity) _ h1 λ found is_service h2. (
            is_service ∙ ap ok (with_pair h2).0,
            subst (Allowed ctx delete_nfs_node) (with_pair h2).1 (deletes_node node has_node),
          )
