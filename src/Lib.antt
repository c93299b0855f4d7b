-- ===== src/Lib.antt =====
-- Verification of ConfigServer, the server that hands pipeline configs, instance configs and onetime
-- commands to agents. An agent's heartbeat reports what the agent has; the server stores the agent,
-- resolves its configs from the groups that it matches, overlays canary releases, and answers with
-- the difference. Administrators change groups, configs, canaries, users and roles over HTTP.
--
-- Parts, in the order in which they use one another:
--   Prelude (and below): lists, Go strings as lists of bytes, int64 values, maps and tables as
--     association lists (Prelude/Dict).
--   Strings: the functions of Go's strings and strconv that the program calls.
--   Model: the records of internal/model/model.go.
--   Version: internal/model/semver.go (MatchVersionConstraint, compareVersions and their helpers,
--     by the same names in snake case). Version/Order, Version/Syntax.
--   IpSelector: internal/model/ip_selector.go. IpSelector/Normalize, IpSelector/Matching.
--   Canary: internal/model/canary.go. Canary/Rollout.
--   Registry: the agents and statuses in memory of internal/cache/manager.go (UpsertAgent, GetAgent,
--     evictOldestAgentLocked, evictStaleAgents, UpsertAgentConfigStatus, GetAgentConfigStatuses).
--     Registry/Consistent, Registry/Stale, Registry/Statuses.
--   Agent: internal/server/agent/handler.go. Agent/Diff, Agent/Inline and Agent/Onetime are the
--     parts of Heartbeat; Agent/Heartbeat puts them together with ReportStatus and FetchConfig.
--     Agent/Converge, Agent/Delivery, Agent/Commands, Agent/Restart, Agent/FullState and
--     Agent/Response prove.
--   Store: internal/store/gormdb/gormdb.go, GetConfigsForAgent; the writes are in Store/Rows.
--     Store/Groups and Store/Configs are about the resolution.
--   Auth: internal/server/admin/auth.go and otp.go: the middleware in Auth, the handlers in
--     Auth/Handlers. Auth/Tokens, Auth/Middleware, Auth/Login.
--   Cache: internal/cache/manager.go, the local cache, Redis and the store that a config is read
--     through (GetPipelineConfig and its kin, backfill, invalidate, subscribeInvalidations). The
--     reconciliation is in Cache/Reconcile. Cache/Coherent compares the tiers with the store alone,
--     Cache/Stale is about reads that a write overtakes.
--   Resolve: GetConfigsForAgent of internal/cache/manager.go with its key and its epoch.
--     Resolve/Hydrate compares it with the resolution of the store, Resolve/Epoch is about
--     invalidation, Resolve/Calls about sequences of calls, Resolve/Key about the key.
--   Account: the handlers of auth.go, otp.go, reset.go and handler.go that write users and roles:
--     the first account, passwords and the second factor in Account, the reset of a password and
--     the e-mail addresses in Account/Reset, the admin's handlers in Account/Users. Account/Rows and
--     Account/Ranks are lemmas, Account/Requests is about sequences of requests, Account/Login about
--     the handlers together with those of Auth.
--   CanaryAdmin: the canary handlers of internal/server/admin/handler.go, with the two that carry a
--     body in CanaryAdmin/Requests. CanaryAdmin/Lifecycle, CanaryAdmin/Release.
--   ConfigAdmin: the handlers of internal/server/admin/handler.go for configs (ConfigAdmin/Configs),
--     onetime commands (ConfigAdmin/Onetime) and groups (ConfigAdmin/Groups), on the tables of Store
--     with the history, and RollbackConfig (ConfigAdmin/Rollback). ConfigAdmin/History and
--     ConfigAdmin/GroupRows have lemmas;
--     ConfigAdmin/Restore, ConfigAdmin/Undo and
--     ConfigAdmin/Regroup are about rollbacks.
-- The Tests modules have examples of the theorems.
--
-- How the code is modelled: a handler is a function from the state it reads to its reply and the
-- state it leaves. A Go error is `none` or a constructor. Where the program calls other code, that
-- is a parameter: net/netip (IpSelector.Netip), encoding/json (IpSelector.Json and
-- Agent.Onetime.JsonObjects, with the records IsSelectorCodec and IsCodec for what is relied on),
-- bcrypt and the TOTP library (Auth.Handlers.Verifier, Account.Generator), the local cache and Redis
-- (Cache.KeyValue, with IsKeyValue for what is relied on), the encoding of what they hold
-- (Cache.RowCodec, Resolve.ResolveCodec, ConfigAdmin.Snapshots), YAML, the clock and the random
-- tokens. The manager is a record of operations for the heartbeat (Agent.Heartbeat.Manager) and for
-- the middleware (Auth.Accounts), a record of answers for the canary handlers (CanaryAdmin.Calls),
-- and for the other admin handlers the tables of the store, with a record that says which calls
-- succeed (Account.Calls, ConfigAdmin.Calls). An operation of the registry or the token stores, which the code runs under
-- a mutex, is one step. Hashes are computed modulo 2 ^ 32 and 2 ^ 64; int64 values are only
-- compared, times are natural numbers, and the limits of the registry (maxAgents, maxStatuses) are
-- arguments. No definition runs on fuel: all loops are over lists. Go's maps have no order; where a
-- reply lists a map's entries the model takes the order of insertion.
--
-- Not modelled: the agents, sessions and tokens in Redis, the exchange between replicas beyond the
-- messages that one receives, the handlers that only list or show rows, the canary statistics, the
-- texts of messages but that of ForgotPassword, the sending of e-mail, configuration, metrics, HTTP and protobuf, and the
-- commands under cmd, which are input and output or are still to be done.
pub mod Prelude
pub mod Strings
pub mod Version
pub mod Model
pub mod IpSelector
pub mod Canary
pub mod Registry
pub mod Agent
pub mod Store
pub mod Cache
pub mod Resolve
pub mod Account
pub mod Auth
pub mod CanaryAdmin
pub mod ConfigAdmin
