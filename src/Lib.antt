-- ===== src/Lib.antt =====
-- mcp-authz: authorization for servers of the Model Context Protocol. A caller comes with a bearer token;
-- a policy makes a principal of the identity behind it; each request is read for the capability that it
-- names, priced by a permission, stepped up by scopes, and only then run or forwarded. The model follows
-- the TypeScript package, packages/mcp-authz/src.
--
-- The parts, by file:
--   Json            the values of the language that the code reads: an object is its own entries under
--                   distinct keys in enumeration order, a number the text that `String` gives it.
--   Policy          policy.ts: Validate is `definePolicy` on JSON, Matching the conditions of a rule, Decide
--                   `evaluate`, `explain` and the policy itself, Reconcile the check at boot.
--   Scopes          scopes.ts: the scopes of a capability and the `Mcp-Name` header, with Base64 and UTF-8.
--   Routing         routing.ts: `classifyScopedRequest` and `routeFromBody`.
--   StrictJson      strict-json.ts: `hasDuplicateKey` and `holdsInexactNumber`.
--   Upstream        upstream.ts: the capped read and the headers that cross a hop.
--   Ladder          ladder.ts: labels, prices and `preflightScopedRequest`; Gate is `runScopedGate` with the
--                   events of decision.ts.
--   Catalogue       catalogue.ts: what a caller sees of a listing.
--   Record          upstream-record.ts: the upstream's catalogue held to the approved definitions.
--   Proxy           proxy.ts: `reach` and `authorizeMessage`; Serve is the chain of steps of `mcpProxy` up to
--                   the forwarded request; Setup is the checks at boot and `buildResourceIndex`, Answers
--                   `filterMessage`, `holdInstructions` and the record's `instructions`.
--   Definitions     definitions.ts: what a capability says to the model, and which fields of it differ.
--   Screen          screen.ts: `checkArguments` and `screenResult`, with `suspicious` of definitions.ts.
--   Wrap            wrap.ts: Lines is `onLines`, Client and Server are the handlers of a line from either side,
--                   Session their runs in any order.
--   OpenApi         openapi.ts: the operations of a document, their prices, the checks at boot and the document that
--                   a caller is served; Serve is `openApiFetch`, a request's way to the API behind.
--   Built           tools.ts: `buildServer`, the factory of servers that it makes, and `routesFor`.
--   Handler         handler.ts: `mcpFetch` up to the SDK's handler; Setup is the checks of `createMcpFetch`, Legacy
--                   `explainLegacyRefusal`.
--   Verifier        verifier.ts: `verifyAccessToken`, `identityFromAuth` and `verifierFor`.
--   WrapConfig      wrap-config.ts: `readWrapConfig` and the choice that `writeWrapConfig` makes; Jsonc is
--                   `parseJsonc`.
--   Guard           tools.ts: `guarding`, the acts of one call of a tool, a prompt or a resource.
--   Gated           gate.ts: the registrations of a server that somebody else builds.
--   Base            the names that they share: results, lists searched by tests, sets and maps of texts.
--
-- Proxy.Serve composes the rest as `createMcpProxy` does: Policy decides, Ladder.Gate reads (Routing,
-- StrictJson, Upstream) and steps up (Scopes), Proxy prices, Record holds to what was approved.
--
-- Conventions: a name keeps the source's words in snake case. What throws or refuses returns a `Result`; a
-- refusal of the ladder carries the decision events reported before it. An error code n stands for -n. A
-- text of a message is written out as the code writes it. Loops are structural, but for `decimal`, whose
-- fuel is the number and one more, so that every digit is reached. The time, where the code reads a clock,
-- is an argument, in milliseconds or as text.
--
-- Parameters, for code that is not the repository's: `lower` for `toLowerCase`, `to_text` for `String`,
-- `classify` for the SDK's `classifyInboundRequest`, the fields of `Reader` for the media type, the
-- decoding of bytes and `JSON.parse`, `verify` for the SDK's bearer check, `validate` for its checker of
-- schemas, `jwt_verify` for `jwtVerify` of jose, `href` for the address of a URL. Two interfaces inside the
-- repository are arguments of Record and Proxy, `changed_fields` and `check_arguments`; Definitions and
-- Screen have the code for them.
--
-- Restructured: `hasDuplicateKey` looks ahead from the end of a string for a colon; here one pass keeps the
-- string until what follows shows whether it was a key. `method.toUpperCase()` is over ASCII letters. A
-- Content-Length is the number that `Number` reads.
--
-- Not modelled: sending requests, streams as they arrive (a body is its chunks), a decision sink that throws,
-- one listing shared by concurrent calls, console warnings, the text of the files that wrap-config.ts
-- writes, cli.ts and the Python package: wiring of the SDK and I/O.
pub mod Base
pub mod Json
pub mod Policy
pub mod Scopes
pub mod Routing
pub mod StrictJson
pub mod Upstream
pub mod Ladder
pub mod Catalogue
pub mod Record
pub mod Proxy
pub mod Guard
pub mod Gated
pub mod Definitions
pub mod Screen
pub mod Wrap
pub mod OpenApi
pub mod Built
pub mod Handler
pub mod Verifier
pub mod WrapConfig
