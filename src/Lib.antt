-- ===== src/Lib.antt =====
-- A model of the Go library aigo, which routes workflow graphs to media engines, with proofs.
--
-- The program. A `workflow.Graph` (workflow/types.go) is a map of nodes with a class type and inputs.
-- An `engine.Engine` (engine/engine.go) executes a graph against a backend and returns a text with a
-- kind. The `Client` (client.go) keeps a registry of engines, runs a graph on one of them behind
-- middleware, falls back from one engine to the next, and stores tasks that end later in a
-- `TaskStore` (taskstore.go). Engines read prompts and options from graphs (workflow/resolve), wait for
-- remote tasks (engine/poll), classify errors (engine/aigoerr) and may be cached (engine/cache.go).
--
-- The files.
--   Base: shared helpers. Base/Assoc models Go maps, Base/Int and Base/Number Go's `int`, finite
--     `float64` and `strconv.Atoi`, Base/Text, Base/Codes and Base/Cut what is used of `strings`, Base/Scan
--     the regular expressions of digits, Base/Sort `sort.Strings`.
--   Errors: engine/aigoerr/aigoerr.go; an error is its chain of wrapped errors.
--   Workflow: workflow/types.go. Resolve: workflow/resolve/resolve.go and duration.go.
--   Ratio, Size: workflow/resolve/size.go; Size/Extract reads the sizes of graphs, Size/Snap chooses the
--     nearest supported size.
--   Config: engine/factory.go and engine/auth.go. Uri: engine/uri.go; Uri/Parse is `ParseURI` and what
--     is built on it, Uri/Print is `ToURI`.
--   Client/Apply: config.go. Http: engine/httpx/retry.go and ratelimit.go. Catalog: engine/registry.go
--     and models.go. Material: material/material.go; Material/Multi: multi.go and pagination.go;
--     Material/Uri: parse.go and factory.go; Material/Retry: ratelimit.go. Tools: tooldef/tooldef.go,
--     with the schemas in Tools/Images, Tools/Sounds and Tools/Videos.
--   Task, BuildGraph: `AgentTask` and `BuildGraph` of client.go; BuildGraph/Sections lists the nodes that
--     a task asks for. Selector: selector.go.
--   Engine: engine/engine.go. Poll and Poll/Status: engine/poll. Cache: engine/cache.go.
--   TaskStore: taskstore.go, with the file and the temporary file that is renamed over it;
--     TaskStore/Interface is the interface with the laws the client uses.
--   Client, Client/Registration: the registry of client.go; Client/Execute: `Execute`; Client/Fallback:
--     `ExecuteWithFallback`; Client/Auto: the calls with a selector; Client/Tasks: `Submit`, `Resume`,
--     `RecoverPending`; Client/Pipeline: pipeline.go; Client/Retry: the retrying part of middleware.go.
--   Tests: concrete runs.
-- Functions keep the names of the source in lower case with underscores: `execute_with_fallback` is
-- `ExecuteWithFallback`. Modules below a component hold its proofs.
--
-- How Go is modelled. A call that reads the clock, the context or a backend takes a world of an
-- arbitrary type and returns the world after it. A block under a mutex is one step. A Go map is an
-- association list; code that walks a map in Go's random order is stated for every order where it
-- matters. Results and errors are `Outcome`. Durations are nanoseconds; a `float64` is a finite
-- dyadic number and its products are exact. What Go leaves open, the conversion of a float that no
-- `int64` holds, is a parameter.
--
-- Fuel. `resolve_node` follows links on fuel; one more than the number of nodes is enough, since a
-- path repeats no node. `poll_v2` runs on fuel; `MaxAttempts` is enough. With `MaxAttempts` 0 the
-- source polls without end. `itoa` writes digits on fuel `n + 1`. `gcd` needs no fuel: it recurses on
-- the proof that its second argument is accessible.
--
-- Parameters. The hash of a graph, `strconv.ParseFloat`, `strings.EqualFold`, `strings.ToLower` and
-- `ToUpper` on any text, `math.Atan2`, random numbers, base64 over JSON, `url.ParseQuery`,
-- `Values.Encode`, durations as texts, HTTP dates, the environment, the operating system's answers to
-- locks and writes, and the engines themselves are arguments.
--
-- Not modelled: the clients of vendor services below engine, uploads, hooks and capture of HTTP calls,
-- embeddings, the backends of the material search and the tables of names. They are calls of services
-- outside the repository, or data.
pub mod Base
pub mod Errors
pub mod Workflow
pub mod Resolve
pub mod Task
pub mod BuildGraph
pub mod Selector
pub mod Engine
pub mod Poll
pub mod Cache
pub mod TaskStore
pub mod Client
pub mod Catalog
pub mod Config
pub mod Http
pub mod Material
pub mod Ratio
pub mod Size
pub mod Tests
pub mod Tools
pub mod Uri
