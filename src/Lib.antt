-- ===== src/Lib.antt =====
-- ShiftWise moves virtual machines from hypervisors to OpenShift Virtualization. This library
-- models the core of its backend: the analysis of a VM, the life of a migration and its journal,
-- the conversion of disks, sign-in, the rights of users, and the clusters that tenants use.
--
-- Which file models what, with paths from the repository's root:
--   Prelude, Text, Rows: shared names; Python's str as a list of code points; a table as the list
--     of its rows, read and written by primary key.
--   Compat: backend/app/services/compatibility_rules.py (Compat.Rules, Compat.Aggregate),
--     strategy.py and analyzer.py beside it, `can_migrate` of backend/app/models/virtual_machine.py
--     (Compat.Analyzer). A rule is a function from the facts of a VM to its result; `aggregate`
--     folds the results; `analyze_vm` works on the table of VMs. The ML model is a parameter that
--     may raise (`none`) or answer any label.
--   Audit: backend/app/crud/migration_event.py. The journal is the table of events in insertion
--     order; `record_event` appends to it. SHA-256 is the parameter `Hash`, whose digests are
--     assumed to be equal only for equal inputs and never to be the empty genesis.
--   Migration: backend/app/crud/migration.py with backend/app/services/audit_log.py
--     (Migration.Crud), start and cancel of backend/app/api/v1/migrations.py and `_fail` of
--     backend/app/tasks/migration.py (Migration.Endpoints). A session is the two tables of
--     migrations and events; Migration.History runs sequences of requests, in the order in which
--     their transactions commit.
--   Conversion: backend/app/services/converter/plan.py and errors.py,
--     backend/app/crud/conversion.py (Conversion.Crud), the run of a job (Conversion.Moves,
--     Conversion.Running), its failure and retry, and cancel and retry of
--     backend/app/api/v1/conversions.py (Conversion.Worker).
--   Auth: backend/app/core/login_throttle.py and refresh_token_store.py, over the interface
--     Auth.Redis of the commands that they send, with the effects that Redis documents. The
--     server's time is an argument of each command. Auth.Login is the routes `login`, `refresh` and
--     `logout` of backend/app/api/v1/auth.py, which join them to the table of users, and
--     Auth.Revocation its `_revoke_all_refresh_families`.
--   Access: `has_permission` and `get_all_permissions` of backend/app/models/role.py and user.py
--     (Access.Roles), backend/app/crud/user.py (Access.Users) and the routes that change accounts of
--     backend/app/api/v1/users.py (Access.Endpoints). The tables of users and roles are lists; a
--     user holds the ids of its roles, as the association table does. Access.RoleRoutes is
--     backend/app/crud/role.py with the routes of backend/app/api/v1/roles.py.
--   Cluster: backend/app/services/credentials/vault.py (Cluster.Vault), backend/app/crud/
--     cluster_config.py (Cluster.Config), backend/app/services/cluster/resolver.py
--     (Cluster.Resolver) and validation.py (Cluster.Kubeconfig), and the handlers of
--     backend/app/api/v1/infrastructure.py (Cluster.Endpoints). A process is the two tables and its
--     own cache of clients; Cluster.Refinement runs the requests of one process among those of
--     others. Fernet, YAML, the loaders of the Kubernetes library and the cluster are parameters.
--   Worker: `run_migration` of backend/app/tasks/migration.py with the `run` of
--     backend/app/services/adapter/service.py and migrator/service.py beside it (Worker.Pipeline),
--     as the list of the writes and of the calls that can raise, run in order up to the first
--     exception or the soft time limit of the task, which may pass before any of them
--     (Worker.Steps), and the wait for conversions (Worker.Waiting). Worker.Success says which calls
--     a run needs.
--   Guest: the name, the address and the manifest of
--     backend/app/services/migrator/vm_manifest.py, the claims of backend/app/services/migrator/pvc.py.
--   Examples: the theorems at concrete inputs, with a hash and a Redis server that are programs.
--
-- Numbers are natural; the clock is a number of seconds. Every loop is structural recursion on a
-- list, but for the wait for conversions: it has fuel for its time-out divided by the five seconds
-- of a turn, and two turns more, which is shown to be enough. Percentages are fractions where the
-- code has floats.
--
-- Not modelled: the frontend and the deployment files; I/O with hypervisors and clusters, which are
-- parameters; the creation of claims and of the namespace by the migrator; the rest of the
-- change of a password; the conversion on the source, an option that is off by default; the lookup of
-- a group by its tenant before cancel and retry of conversions; a soft time limit that a handler
-- inside a service swallows; reports and the training of the model; columns of the tables that no
-- modelled function reads.
mod Prelude
mod Rows
pub mod Text
pub mod Compat
pub mod Migration
pub mod Audit
pub mod Conversion
mod Auth
mod Examples
pub mod Cluster
pub mod Access
pub mod Guest
pub mod Worker
