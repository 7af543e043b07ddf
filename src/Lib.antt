-- ===== src/Lib.antt =====
-- Makedown builds documents: a build document declares targets, each with a recipe (inputs, a step, a
-- model, a cache policy), and a build makes the artifacts that are missing from a content-addressed
-- store. This library models the build engine, the providers it asks for completions, and parts of
-- the server.
--
-- Base: helpers with no counterpart in the code. A string is the list of its code units (Base/Texts), a
-- JavaScript `Map` the list of its entries in insertion order (Base/Map), fallible code a `Result`.
-- Types (packages/shared/src/types.ts): the data that all parts share.
-- Refs (packages/format/src/parse.ts, bareRef): references with a suffix.
-- Format (packages/format/src/parse.ts, and packages/shared/src/schemas.ts in Format/Policy): parseBuildDoc.
-- Format/Lines has the regular expressions, each written out as a function. The nested loops over the
-- lines are one function of the line and the place, `extract_raws`; the YAML reader is an argument. A count of samples is
-- read as the nearest double, for runs of digits below 2 ^ 1024.
-- Graph (packages/engine/src/graph.ts): `build_graph` is buildGraph, `topo_sort` is topoSort. Its
-- recursion is on fuel, one unit more than there are nodes, which is enough as no name is entered twice.
-- Engine/Cas (packages/engine/src/cas.ts): LocalCas, each kind of file a map by id.
-- Engine/World: what a build changes, and the operations on it. An operation takes the state and gives
-- its result or error beside the state that it leaves, so what was written before a throw stays written;
-- the calls on providers, agents and approvers are logged there.
-- Engine/Context: BuildContext of packages/engine/src/build.ts, with the collaborators of the build as
-- fields. A collaborator that answers from outside is a function of the whole state.
-- Engine/Plan (planBuild, isStale, resolveInputs, auxHashesFor), Engine/Artifact (what the steps share),
-- Engine/Execute (executeTarget and one child for each step: Model, Fanout, Agent, Script) and Engine/Run
-- (runBuild) follow packages/engine/src/build.ts; Execute/Agent also packages/engine/src/sandbox.ts. The
-- loops over samples and items are structural. Engine/Stable carries an invariant through the steps and
-- the loop; Engine/Objects, Engine/Approval, Engine/Sandboxes, Engine/Plan/Ordering, Engine/Run/Settling
-- and Engine/Outcome are about what a step or a build leaves.
-- Engine/Paths (packages/engine/src/paths.ts): an absolute path is the list of its segments.
-- Engine/Hash (packages/engine/src/hash.ts): canonical JSON and the identity of a target.
-- Engine/Template (packages/engine/src/template.ts): prompts, whose references are those that Format finds.
-- Engine/Cost (packages/engine/src/cost.ts): an estimate over the plan and the prompts, without a call of a model.
-- Import (packages/import/src/cache.ts, importer.ts) and Engine/Imports (packages/engine/src/imports.ts):
-- the cache of conversions, and the resolver that the engine reads importable sources through.
-- Providers (packages/providers/src): Errors, ModelRef, Pricing, Retry, Chain (buildChain), Fallback
-- (runWithFallback) and Router (createProviderRouter). The engine's provider is such a router. Prices are
-- in micro-dollars, and a random number is a fraction.
-- Tenancy (apps/server/src/tenancy): Rbac (rbac.ts), RateLimit (rate-limit.ts), Users and Store
-- (memory-store.ts, which Users begins with its users), Service (TenancyService of service.ts) and
-- Analytics (analytics.ts and the aggregation of memory-store.ts), whose costs are whole numbers of 10 ^ -12
-- dollars, rounded as the code rounds them. Tenancy/Service/Reached has the stores that calls lead to.
-- Server/Builds (apps/server/src/builds.ts): BuildManager, whose jobs are builds of the engine. A call by
-- the engine, by a timer or by a route is a step, and the theorems hold after any sequence of steps.
-- Sharing (apps/server/src/sharing): the store of share links and, in Sharing/Service, the service.
--
-- Engine/Context has identities, templates, imports and the guard on paths as fields.
-- Parameters: SHA-256, the platform's JSON, text encoding and `realpath`, random tokens, clocks, the
-- vendors' services, YAML and its schemas, the printing of numbers, git, whether a sandbox can be removed, the
-- runs of agents and scripts, and what an agent leaves of the workspace's files. Not modelled: the text of
-- messages, the file system beneath the store, the printing of documents, sync, the command line, the web
-- client, and the server's routes and databases, which are glue.
pub mod Base
pub mod Types
pub mod Refs
pub mod Format
pub mod Graph
pub mod Providers
pub mod Tenancy
pub mod Server
pub mod Sharing
pub mod Engine
pub mod Import
