-- ===== src/Lib.antt =====
-- fi-mcp-kit is an orchestration kit for servers of the Model Context Protocol: a registry of
-- servers, a router between local processes and a hub, pools of connections, a websocket gateway,
-- tool profiles, secret stores and generators of client configurations.
--
-- Pool (pkg/pool/pool.go) is the connection pool, with its data and New in PoolState: `get` and
-- `wake` are the sections of Pool.Get before and after a wait, `put`, `clear_server`, `close` and
-- `reap` the other operations. Pool/System adds the callers and a step relation; Pool/Invariant,
-- Pool/Ownership, Pool/Behaviour, Pool/Progress and Pool/Shutdown hold the proofs.
--
-- Registry (pkg/registry) is the registry of servers. Registry/Types has its data, Registry/Spec
-- is GetServer, GetServerSpec with mergeSpec, and IsToolAlwaysAllowed, Registry/Query and
-- Registry/Env the other questions, Registry/Metadata the file metadata.go. GetServerSpec writes
-- into the registry, so these are state-passing actions that may panic (Base/Run).
-- Registry/SpecLaws and Registry/Leak hold the proofs.
--
-- Router (pkg/router/router.go) decides where a request goes. Router/Health is the circuit breaker
-- of one server, Router/Index the tool index, Router/Types the router with New, SetRegistry and
-- the recording of outcomes, Router/Proxy the transport that records them, Router/Route the method
-- Route, Router/Resolve the method ResolveServer, which calls the registry's GetServerSpec for
-- every server. Router/Breaker, Router/IndexLaws, Router/IndexCount, Router/RouteLaws,
-- Router/RuleLaws, Router/History and Router/ResolveLaws hold the proofs.
--
-- Profiles (pkg/profiles) filters tools by a profile. Profiles/Types has the profiles,
-- Profiles/Sort the bubble sort, Profiles/Filter the filter, where mcp.Tool is a parameter with
-- its name. Profiles/SortLaws, Profiles/LimitLaws, Profiles/FilterLaws and Profiles/NameLaws hold
-- the proofs; the names it reads are those that Registry/Query writes.
--
-- Gateway (pkg/gateway) is the gateway. Gateway/Backend is backendURL, Gateway/Wire is CallTool
-- over a connection (its reads end with a list, so that every loop is structural),
-- Gateway/ToolCall the REST handler ToolCallHandler, which asks the registry's allowlist.
-- Gateway/WireLaws, Gateway/SameLaws, Gateway/ToolCallLaws and Gateway/SafetyLaws hold the proofs.
-- Gateway/Normalize is toolresult_normalize.go, which the handler takes as a parameter, and
-- Gateway/NormalizeLaws its proofs. Gateway/Hosts is the table of hosts of the Hub with its gauge,
-- Gateway/Auth the authenticators and the chain of hooks; Gateway/HostLaws and Gateway/AuthLaws
-- hold their proofs.
--
-- Process (pkg/process/manager.go) is the table of local processes. Process/Manager has Start,
-- Dial, Stop, StopAll, ReapIdle and MarkActivity, with GetServerSpec of the registry;
-- Process/Shutdown is stopProcess and its bound; Process/ManagerLaws holds the proofs.
--
-- Secrets (pkg/secrets) looks secrets up. Secrets/Store is the manager over backends, which are an
-- interface on one world; Secrets/EnvBackend is the backend on environment variables;
-- Secrets/StoreLaws holds the proofs.
--
-- Proxy (pkg/proxy/proxy.go) is the proxy in front of all servers. Proxy/Refs resolves references
-- to secrets, Proxy/Receive reads responses, Proxy/Calls is withBackend, which asks the router and
-- then a pool, Proxy/Session the requests of a backend; Proxy/RefLaws, Proxy/SessionLaws and
-- Proxy/CallLaws hold the proofs. Secrets/FileBackend is the encrypted file of pkg/secrets/file.go
-- over a file system, a cipher and JSON that are parameters, Secrets/MasterKey its key;
-- Secrets/FileView is the map that it stands for, and Secrets/FileLaws, Secrets/FileRefine,
-- Secrets/FileReads and Secrets/MasterKeyLaws hold the proofs, one of which gives the law that
-- Secrets/StoreLaws asks of a writable backend.
--
-- Validator (pkg/validator) checks the configuration files. Validator/Result has the issues,
-- Validator/Json and Validator/Formats the structural checks of schema.go, Validator/Pattern the
-- regular expressions of secrets, Validator/Runtime and Validator/Specs the checks of runtime.go,
-- Validator/Dispatch is validator.go. Validator/Adds says what a step adds to the errors;
-- Validator/Accepts, Validator/RuntimeAccepts and Validator/SpecAccepts describe what passes, and
-- Validator/ContentLaws, Validator/DispatchLaws and Validator/StripLaws hold the proofs about the
-- whole.
--
-- Generator (pkg/generator) writes configurations and Kubernetes manifests. Generator/Tokens is
-- common.go, Generator/Targets, Generator/Configs and Generator/Files are configs.go,
-- Generator/SecretToken, Generator/Deployment, Generator/Workload, Generator/Gateway,
-- Generator/GatewayFiles and Generator/Manifests are manifests.go; Generator/TargetLaws,
-- Generator/ConfigLaws, Generator/FileLaws, Generator/TokenLaws, Generator/ActionLaws and
-- Generator/ManifestLaws hold the proofs, two of them against the checks of the validator.
--
-- Conventions. Times are nanoseconds in natural numbers and enter as arguments. Go's maps with
-- string keys are association lists (Base/Dict); a counter that Go steps up and down is a signed
-- integer without a bound (Base/Int), since it never passes the number of calls made. A pointer
-- that may be nil is an Option; a nil dereference is a result of the model where the code can
-- reach it. Sections under a mutex are single steps.
--
-- Not modelled: input and output (processes, sockets, files, HTTP), YAML, JSON and TOML decoding,
-- the compilation of schemas, the keychain and 1Password backends, the client of the hub, SSH
-- processes, the dials and the registration of tools of the proxy, redaction, OIDC, metrics and
-- tracing of the gateway, and the commands: they are input and output for the most part, or their
-- libraries' code. The libraries that the sources call are parameters.
pub mod Base
pub mod PoolState
pub mod Pool
pub mod Registry
pub mod Router
pub mod Profiles
pub mod Gateway
pub mod Process
pub mod Secrets
pub mod Proxy
pub mod Validator
pub mod Generator
