-- ===== src/Lib.antt =====
-- Rustify deploys applications, databases and services to servers over SSH. A request to the HTTP API
-- (crates/rustify-server) writes rows (crates/rustify-db) and enqueues jobs (crates/rustify-jobs);
-- workers claim the jobs and run the deploy engine (crates/rustify-deploy), which sends scripts to the
-- servers (crates/rustify-ssh) and moves each deployment through its states (crates/rustify-core).
--
-- Which file models which part:
--   Core/Status      crates/rustify-core/src/deployment.rs: the states and `can_transition_to`
--   Core/Role        crates/rustify-core/src/role.rs: the roles of a team and their order
--   Core/Retention   crates/rustify-core/src/retention.rs: `select_for_deletion`
--   Core/Webhook     crates/rustify-core/src/webhook.rs: actions, tokens, skip markers, forks, names;
--                    Repository: URLs and HMAC signatures
--   Core/DbEngine    crates/rustify-core/src/db_engine.rs and backup_cmd.rs: engines, dump commands
--   Core/Redact, Core/Cron  crates/rustify-core/src/redact.rs and cron.rs
--   Db/Deployments   crates/rustify-db/src/repos/deployments.rs: the queue's statements on a `Table`
--   Db/Teams         crates/rustify-db/src/repos/teams.rs: teams, members (Ownership), Invitations
--   Db/Previews      crates/rustify-db/src/repos/previews.rs
--   Db/ScheduledTasks  crates/rustify-db/src/repos/scheduled_tasks.rs: tasks and executions
--   Db/Backups       crates/rustify-db/src/repos/backups.rs: Storages, Schedules, Executions
--   Jobs/Queue       crates/rustify-jobs/src/queue.rs: the jobs table and the worker loop
--   Server/Teams     crates/rustify-server/src/routes/teams.rs: the handlers that change teams
--   Server/Invitations  the same file: creation of teams, invitations, switching
--   Server/Webhooks  crates/rustify-server/src/routes/webhooks.rs: the events of a payload; Enqueue the
--                    statements, Dispatch what an event does for an application, Handlers the routes
--   Deploy/Engine    crates/rustify-deploy/src/engine.rs (claim, set_status, the UPDATEs of
--                    persist_commit and clone_repo, run_deployment) and admission.rs (queue_next)
--   Deploy/Rolling   crates/rustify-deploy/src/rolling.rs, with the engine's steps that it calls
--   Deploy/Envfile   crates/rustify-deploy/src/envfile.rs: build and runtime environments
--   Deploy/Host      the database, the executor and the clock as the periodic jobs see them
--   Deploy/ScheduledTask  crates/rustify-deploy/src/scheduled_task.rs: the container and the command;
--                    Tables what a run reads, Run an execution, Dispatch the sweep
--   Deploy/Backup    crates/rustify-deploy/src/backup.rs: Run an execution, Upload, Retention, Dispatch
--                    the sweep, Cron its expressions
--   Deploy/BuildServer    crates/rustify-deploy/src/build_server.rs: where an image is built
--   Deploy/Preview   crates/rustify-deploy/src/preview.rs: names and addresses of previews
--   Deploy/StatusSync     crates/rustify-deploy/src/status_sync.rs: the sweep over containers
--   Docker           crates/rustify-docker/src/inspect.rs: the output of `docker ps`
--   Ssh/Retry        crates/rustify-ssh/src/retry.rs: `run_with_retry`
--   Ssh/Command      crates/rustify-ssh/src/command.rs: the ssh and scp command lines
--   Prelude          shared tests, lists, texts, characters, rows under keys (Keyed), sorting, and
--                    the specification of how a POSIX shell reads words (Shell)
--
-- Conventions. A function or a field has the name of its source in Rust. A table is a list of rows
-- with the next key; a SQL statement is one function on it, a transaction that commits as a whole; a
-- failed one leaves the store. A row's `id` is the key of Keyed, and an UPDATE is `update_where`.
-- `FOR UPDATE SKIP LOCKED` is a test on keys, the rows that another transaction holds. Text is its list
-- of characters (code points). Times are numbers of the unit that each file names, and the clock is an
-- argument. Natural numbers stand for the i64 keys and counts, which are not negative; where a signed
-- value matters it is ℤ, and where a machine integer wraps or panics that is written out.
-- A handler of the API is `Handler`: each statement commits by itself, so an error keeps what was done
-- before. A script for a host is the command that it runs, and the state of a rolling update is the
-- trace of the commands sent; the executor's replies and what the cancellation checks find are arguments,
-- functions of the number of the script and of the check. In Deploy/Host and Server/Webhooks each
-- statement may fail to reach the database: a function of its number says so. In Jobs/Queue a flag of
-- the `Round` says it, and in Deploy/Engine a `Reached`, and a handler of a job may panic.
--
-- Interleaving. Jobs.Queue.Lock and Jobs.Queue.Attempts state what holds whatever the workers do in any
-- order, lost runs included, by a step relation on the table; Db.Deployments.History does so for the deployments, and
-- Deploy.Engine.Changes adds the commits that an engine writes, for what happens during a run.
--
-- Fuel. `run_with_retry` of Ssh/Retry runs on fuel; four calls are enough, as the list below says. The
-- health check counts its attempts down and a task its tries, and each other loop is over a list.
--
-- Arguments that stand for code outside of the repository: the JSON of a job's payload (serde_json),
-- a line of `docker ps` as a record (serde_json), random identifiers (rand). The full Unicode lower
-- case of Rust's `str::to_lowercase` is an argument too, and so are HMAC-SHA256 (hmac, sha2), the
-- decryption of a column (crypto.rs over aes-gcm), the JSON values of a request (serde_json), the
-- reading of an instant as a calendar date (chrono) and the matching of a schedule (croner).
--
-- Not modelled: messages of errors and log lines, JSON and YAML encodings, sleeps (but for
-- those between the tries of a task), the web interface, clients of outside services, cryptography,
-- and the parts that the components of the manifest leave out with their reasons: the steps of a build, services, databases, proxies, and the routes of the
-- other resources. Where a step that cannot be undone fails, its error is a value without its text.
-- The texts of the entries that a webhook answers are left out.
pub mod Prelude
pub mod Core
pub mod Db
pub mod Jobs
pub mod Server
pub mod Deploy
pub mod Docker
pub mod Ssh
