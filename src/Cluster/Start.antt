-- ===== src/Cluster/Start.antt =====
-- The requests of cluster_service_2_x.py, up to the start of the thread that does the work.
use Prim.Native.Char.{code}
use container_service_extens.Common.{
  ℕ, suc, String, Bool, true, false, not, ◌&&◌, ◌||◌, Option, none, some, List, [], ◌∷◌, ◌==◌,
  nat_eq, leb, elem, length, if◌then◌else◌,
}
use container_service_extens.Common.Int.{ℤ, minus, is_negative, is_zero}
use container_service_extens.Cluster.Phase.{
  DefEntityOperation, create, delete, update, upgrade, DefEntityPhase, in_progress, from_phase,
  is_entity_busy,
}
use container_service_extens.Cluster.World.{
  Raised, server_error, other_error, invalid_name, negative_workers, nfs_scale_down, already_has,
  not_in_valid_state, not_an_upgrade_target, update_not_supported, Call, get_entity, exists_check,
  get_template, mark_started, resolve_and_delete, running, error, Template, Entity, M, pure, raise,
  ◌>>=◌, ◌>>◌, catch, attempt, check, from_option, modify, update_task, set_async, set_phase, call,
  read_entity, update_cluster_entity, fail_operation,
}

-- What the operations read of the entity that the user sends.
pub record Spec : Type 0 where
  pub name : String
  pub workers_count : ℤ
  pub nfs_count : ℤ
  pub expose : Bool
  pub distribution : Template
  pub rollback_on_failure : Bool

-- A template of the server's configuration.
pub record BrokerTemplate : Type 0 where
  pub name : String
  pub revision : ℕ
  pub upgrade_from : List String

is_letter : ℕ → Bool
is_letter c = (leb b'a' c && leb c b'z') || (leb b'A' c && leb c b'Z')

is_name_char : ℕ → Bool
unfolding is_letter
is_name_char c = is_letter c || (leb b'0' c && leb c b'9') || nat_eq c b'-'

abbrev text_length : String → ℕ
text_length String.[] = 0
text_length (String.◌∷◌ c s) = suc (text_length s)

is_empty_text : String → Bool
is_empty_text String.[] = true
is_empty_text (String.◌∷◌ c s) = false

-- `[A-Za-z0-9-]*$`; in Python `$` also matches before a newline that ends the text.
matches_rest : String → Bool
unfolding is_name_char is_empty_text
matches_rest String.[] = true
matches_rest (String.◌∷◌ c s) =
    if is_name_char (code c) then matches_rest s else nat_eq (code c) 10 && is_empty_text s

matches_name : String → Bool
unfolding is_letter matches_rest
matches_name String.[] = false
matches_name (String.◌∷◌ c s) = is_letter (code c) && matches_rest s

-- `_is_valid_cluster_name`
unfoldable pub is_valid_cluster_name : String → Bool
unfolding matches_name
is_valid_cluster_name name = leb (text_length name) 25 && matches_name name

-- `_get_cluster_upgrade_target_templates`
unfoldable pub get_cluster_upgrade_target_templates :
    List BrokerTemplate → Template → List BrokerTemplate
get_cluster_upgrade_target_templates [] source = []
get_cluster_upgrade_target_templates (t ∷ ts) source =
    let rest = get_cluster_upgrade_target_templates ts source in
    if elem source.name t.upgrade_from
      && not (t.name == source.name && leb t.revision source.revision)
    then t ∷ rest
    else rest

-- The loop of `upgrade_cluster` over the valid templates.
unfoldable pub find_template : List BrokerTemplate → Template → Option BrokerTemplate
find_template [] wanted = none
find_template (t ∷ ts) wanted =
    if t.name == wanted.name && nat_eq t.revision wanted.revision
    then some t
    else find_template ts wanted

unfoldable pub workers_to_add : Entity → Spec → ℤ
workers_to_add e spec = minus spec.workers_count (length e.workers)

unfoldable pub nfs_to_add : Entity → Spec → ℤ
nfs_to_add e spec = minus spec.nfs_count (length e.nfs)

-- The cluster is to be unexposed, or it has not the nodes that are asked for.
unfoldable pub needs_resize : Entity → Spec → Bool
unfolding workers_to_add nfs_to_add
needs_resize e spec =
    (e.exposed && not spec.expose)
    || not (is_zero (workers_to_add e spec) && is_zero (nfs_to_add e spec))

-- "cluster is in a valid state"
unfoldable pub is_ready : Entity → DefEntityPhase → Bool
is_ready e phase = e.is_resolved && not (is_entity_busy phase)

unfoldable pub same_size : Entity → Spec → Bool
same_size e spec = is_zero (workers_to_add e spec) && is_zero (nfs_to_add e spec)

unfoldable pub same_flag : Bool → Bool → Bool
same_flag true b = b
same_flag false b = not b

unfoldable pub same_template : Template → Template → Bool
same_template a b = a.name == b.name && nat_eq a.revision b.revision

module _ (fails : Call → Option Raised) where
  -- The update that marks the entity, and the end of the task if it fails.
  unfoldable pub mark_or_fail : DefEntityOperation → M (Unit {0})
  unfolding update_cluster_entity
  mark_or_fail o =
      catch (update_cluster_entity fails mark_started (set_phase o in_progress))
        λ e. do update_task error; raise e

  unfoldable pub resize_cluster : Spec → M (Unit {0})
  unfolding mark_or_fail is_ready needs_resize nfs_to_add
  resize_cluster spec = do
    e ← read_entity fails get_entity
    phase ← from_option (from_phase e.phase) other_error
    check (not (is_negative spec.workers_count)) (server_error negative_workers)
    check (not (is_negative (nfs_to_add e spec))) (server_error nfs_scale_down)
    check (needs_resize e spec) (server_error already_has)
    check (is_ready e phase) (server_error not_in_valid_state)
    update_task running
    mark_or_fail update
    set_async

  unfoldable pub delete_cluster : M (Unit {0})
  unfolding update_cluster_entity
  delete_cluster = do
    e ← read_entity fails get_entity
    phase ← from_option (from_phase e.phase) other_error
    check (not (is_entity_busy phase)) (server_error not_in_valid_state)
    update_task running
    update_cluster_entity fails mark_started (set_phase delete in_progress)
    set_async

  unfoldable pub start_upgrade : Option BrokerTemplate → M (Unit {0})
  unfolding mark_or_fail fail_operation
  start_upgrade none = do
    attempt (fail_operation fails upgrade)
    raise (server_error not_an_upgrade_target)
  start_upgrade (some t) = do update_task running; mark_or_fail upgrade; set_async

  unfoldable pub upgrade_cluster : List BrokerTemplate → Spec → M (Unit {0})
  unfolding start_upgrade is_ready
  upgrade_cluster templates spec = do
    e ← read_entity fails get_entity
    phase ← from_option (from_phase e.phase) other_error
    check (is_ready e phase) (server_error not_in_valid_state)
    start_upgrade (
        find_template (get_cluster_upgrade_target_templates templates e.distribution)
          spec.distribution)

  unfoldable pub dispatch_update : Bool → Bool → List BrokerTemplate → Spec → M (Unit {0})
  dispatch_update false _ templates spec = resize_cluster spec
  dispatch_update true false templates spec = upgrade_cluster templates spec
  dispatch_update true true templates spec = raise (server_error update_not_supported)

  unfoldable pub update_cluster : List BrokerTemplate → Spec → M (Unit {0})
  unfolding dispatch_update same_size same_flag same_template
  update_cluster templates spec = do
    e ← read_entity fails get_entity
    dispatch_update (same_size e spec && same_flag e.exposed spec.expose)
        (same_template e.distribution spec.distribution) templates spec

  unfoldable pub start_delete_nodes : List String → M (Unit {0})
  unfolding mark_or_fail
  start_delete_nodes [] = do e ← read_entity fails get_entity; pure tt
  start_delete_nodes (n ∷ ns) = do
    e ← read_entity fails get_entity
    update_task running
    mark_or_fail update
    set_async

  -- The `try` of `create_cluster`; `exists` is the answer to the search for a cluster of that name.
  unfoldable pub begin_create : Bool → Spec → M (Unit {0})
  unfolding update_cluster_entity
  begin_create exists spec = do
    check (is_valid_cluster_name spec.name) (server_error invalid_name)
    call fails exists_check
    check (not exists) other_error
    call fails get_template
    update_task running
    update_cluster_entity fails mark_started (set_phase create in_progress)
    set_async

  -- Its `except`.
  undo_create : Bool → M (Unit {0})
  unfolding fail_operation
  undo_create true =
      attempt (do call fails resolve_and_delete; modify (λ w. record w { entity = none }))
  undo_create false = attempt (fail_operation fails create)

  unfoldable pub create_cluster : Bool → Spec → M (Unit {0})
  unfolding undo_create
  create_cluster exists spec =
      catch (begin_create exists spec)
        λ e. do undo_create spec.rollback_on_failure; update_task error; raise e
