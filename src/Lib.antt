-- ===== src/Lib.antt =====
-- The server of the Container Service Extension for VMware Cloud Director, of which these files model
-- the parts that take a request from the message bus to its handler, the operations of a cluster
-- with its access control, the validation of a request, the entities that clusters are stored in, the
-- runtimes of a virtual data center (VDC), the configuration, and two tables that handlers and the
-- installer rely on.
-- Paths are below container_service_extension/.
--
-- A message comes to a consumer thread, which gives it to a pool of workers (Consumer, of
-- mqi/consumer/mqtt_consumer.py and consumer_thread_pool_executor.py, and amqp_consumer.py). A worker calls
-- `process_request` (Dispatcher, of server/request_dispatcher.py, exception/exception_handler.py and
-- the constants in common/constants/), which reads the accept header, searches the table of urls,
-- asks the server whether it runs, and calls a handler. The server's state (Service, of
-- server/service.py) is changed by an administrator's requests, and its wait loop ends when the
-- consumer has no request in progress. PksCache (server/pks/pks_cache.py) is built once from the
-- configuration and read by handlers; TemplateRule (installer/templates/template_rule.py) overrides
-- attributes of templates when these are loaded. A message that invokes a behavior of an entity has
-- handlers of its own (Behavior, of server/behavior_dispatcher.py and server/behavior_handler.py). The
-- handlers of clusters call the cluster service
-- (Cluster, of rde/backend/cluster_service_2_x.py): a request checks the entity and marks it as busy,
-- and a thread then does the work and ends the task. Before, a validator (ClusterSpec, of
-- rde/validators/validator_rde_2_x.py) compares the request to the specification that is built from the status
-- of the cluster (rde/utils.py). The cluster service stores a cluster by `update_entity` (EntityService,
-- of rde/common/entity_service.py). OvdcService (rde/ovdc_service.py) changes the runtimes that a VDC
-- offers. Acl (rde/acl_service.py) changes who may use a cluster. ServerConfig (config/server_config.py) is the configuration that all of them read.
--
-- Common: dictionaries as lists of items, texts as native strings with Python's `split`, `lower` and
--   `upper` on ASCII, results with errors, methods that change a state and may raise, Boolean tests.
-- Service: `update_status`, the wait loop of `run` over a list of moments, and the closing. The texts
--   that are returned are constructors.
-- Consumer: one record for the executor and the consumer, and `step`, the atomic steps of the receiving
--   thread, the workers and the thread that stops the consumer. `Reachable` is any interleaving.
-- Consumer.Amqp: `on_message` of mqi/consumer/amqp_consumer.py with its cache of requests, one message
--   at a time.
-- Dispatcher.Operations, Entries, Table: `CseOperation` and the table as data, entry by entry.
-- Dispatcher.Header, Routing, Process: `_parse_accept_header`, the loop over the table and the checks
--   in it, and `process_request` with `handle_exception`. An exception is an error value. What a
--   handler does is a function from its call to its result.
-- PksCache: the constructor's tables as folds over the configuration, and the lookups, with
--   `get_pvdc_id_from_pvdc_name` of common/utils/pyvcloud_utils.py, whose query of vCloud Director is a parameter
--   that may raise.
-- TemplateRule: `_validate` and `apply`; a template is updated at its place in the list, to which the
--   table by name and revision refers.
--
-- Cluster: Phase is the phase of an entity (common/constants/server_constants.py), World what an operation
--   acts on, the entity, the machines, the task, with a monad of this state and of exceptions. Every
--   call of vCloud Director is a constructor of `Call`, and a parameter says which of them raise; a
--   call that is repeated in one operation has the same outcome each time, unless it has constructors
--   of its own. Start has the requests, Nodes, Resize, Create, Delete and Upgrade the threads, one
--   function per thread; a thread that is waited for stands where it is waited for, and an exception that ends
--   a thread is lost. Requests is the abstract request; Ends, Failures and Counts are about a
--   resize, Rollback, Kept and Orphans about a creation, Targets, Order, Wanted
--   and Upgraded about an upgrade. Between a request and its
--   thread no other operation acts; messages, and the sending of them, are left out.
-- Acl: `update_native_def_entity_acl` as the requests it sends, `update_cluster_acl`, and in Pages the
--   entries read page by page and the page that is shown.
-- ClusterSpec: the data classes of RDE 2.1 (rde/models/rde_2_1_0.py), the specification that is built from a
--   status, `flatten_dictionary` and `find_diff_fields` (common/utils/core_utils.py and rde/utils.py), which
--   yield their fields in the order of the request, and `validate` for native entities of RDE 2.1.
--   `to_dict` and `from_dict`, which a library writes, are parameters. Attributes of a status that no
--   specification is built from are left out.
-- EntityService: `update_entity` as attempts to read, change and write. The client is a function on a state;
--   what other clients do between a read and the write after it is a parameter.
-- Behavior: `process_behavior_message` with `process_behavior_request` (server/behavior_dispatcher.py) and the
--   handlers (server/behavior_handler.py), which call the validator of ClusterSpec. The cluster services, the
--   conversion of entities, the clients, and the reading and writing of JSON, in which numbers are integers, are
--   parameters. Of a service this is what its method publishes for the task before it ends, and what it returns or
--   raises; what its threads publish later is left out.
-- OvdcService: `update_ovdc` and its thread, with `remove_compute_policy_from_vdc_sync` of
--   server/compute_policy_manager.py. A parameter says which calls raise; a set is a list. The client of
--   the system administrator is taken as had, so the thread ends the context in any case.
-- ServerConfig: the tree, `get_value_at` and `set_value_at`, which gives the changed tree; the lock is
--   left out.
--
-- The loop over the pages of an access control list, which ends at the first empty page, has fuel; fuel
-- for more pages than there are entries is enough. The attempts of `update_entity` are recursion on the
-- number of those that are left, ten at first, as in the source. All other loops are recursion on a
-- list or a tree, and the steps of the consumer end by a measure.
--
-- Not modelled are logging and telemetry, the connection to the message bus, the parsing of JSON and of query strings, the requests to VMware Cloud Director
-- and the scripts on the machines, the handlers of requests over HTTP but for what Cluster and Acl say of them, the
-- forced deletion of a cluster, the cluster services and validators of other RDE versions and the conversion
-- between these; the listing of VDCs, sizing policies and the schema service; the command line; the
-- installer but for its template rules.
pub mod Common
pub mod Service
pub mod Dispatcher
pub mod Consumer
pub mod PksCache
pub mod TemplateRule
pub mod Cluster
pub mod Acl
pub mod ServerConfig
pub mod ClusterSpec
pub mod EntityService
pub mod OvdcService
pub mod Behavior
