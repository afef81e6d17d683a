-- ===== src/Lib.antt =====
-- gonest, a dependency-injection and HTTP framework for Go in the manner of NestJS: a model of its
-- core, with the theorems that make it correct.
--
-- An application is a root module. Modules, providers and controllers are built by user functions
-- that call builder methods; NewApp assembles the tree of modules, resolves providers, runs the
-- lifecycle hooks of start-up, composes each route with its middleware, guards, interceptors and
-- filters, and registers it with an HTTP adapter. Before all that, a program may load .env files into
-- its environment. At the end, Close or a signal runs the teardown.
--
-- The parts, and the code that they model:
--
-- Di: internal/module, internal/resolver and internal/inject.
--   Token, Builder     the builder methods of Module, and Lazy (module.go, lazy.go); the calls that a
--                      module's function makes are a list of calls, a panic ends it
--   Assemble           assemble and validateExports (assemble.go): the breadth-first walk of imports
--   Exports            EffectiveExports and effectiveExports (module.go)
--   Resolve            Find, findOwn, findExported, hasOwnUnexported (resolver.go)
--   Direct             candidateProviders, FindDirect, FindDirectAll (direct.go)
--   Cycle, Graph       DetectCycle and cycleError (cycle.go); BuildGraph (graph.go)
--   Inject             SafeInjectByType, InjectByType, InjectAllByType, mustLazyByType, LazyInjectFn,
--                      findAllRefs and the bookkeeping that they share (internal/inject/inject.go)
--   Construct          allProviders, scopedGraph, overrideFor, edgesFor, and the goroutines of resolveGraph
--                      with their channels and errgroup as steps in any order (stage3.go)
--   Request            WithRequestID and the cache of the instances of a request (request.go)
-- Modules, providers and types are pointers in the code and numbers here; a heap gives the fields of
-- each module. Assemble fills the heap that Exports, Resolve and Direct read. Inject records the edges from
-- which Graph builds the graph that Cycle checks and Construct works through. A user constructor is a
-- parameter in Inject; in Construct it is two steps, of which the second succeeds or fails.
--
-- Dotenv: internal/dotenv.
--   Bytes, Scan        the functions of package strings that the parser calls, and stripBareComment,
--                      stripQuotedTrailingComment, extractDelimited, applyEscapes (parse.go)
--   Interpolate        resolveInterpolation, resolveBraceExpr, splitBraceOperator, lookupVar (parse.go)
--   Parse              parseValue, extractBacktickBlock, parseFile (parse.go)
--   Load               SafeLoad (dotenv.go); the file system is a parameter, the process environment is
--                      a function that os.Setenv changes
-- Strings are lists of bytes.
--
-- Http: internal/exception, internal/filter, internal/route/method.go and the part of internal/app/app.go
-- that composes and registers routes.
--   Exception          HttpException, newBuiltin, EffectiveName, the built-in exceptions
--   Chain              composeHandler, gatedHandler, interceptedHandler
--   Filter             Catch, HandlerFor, findCatch, filteredHandler
--   Method, Routes     HttpMethod, the keys of routes, registerRoutes; the adapter is a parameter
-- A handler is a function on the state that it can reach; it returns or panics with a value. User
-- middleware and interceptors are arbitrary functions of the rest of the chain.
--
-- Lifecycle: internal/provider/lifecycle.go, internal/app/lifecycle.go and the hooks in New of app.go.
--   Hook               the registration of hooks, runHook, runSignalHook, invokeHook
--   Phase              the five phases
--   App                the two phases of start-up, Close, shutdown, runShutdownSequence; concurrent calls
--                      of shutdown are a list of events in the order in which sync.Once admits them
--
-- Graphql: internal/graphql/reservation.go and ws_protocol.go.
--   Reservation        ReservationRegistry; a mutex makes each method one step, channels that are closed
--                      are kept in a list
--   Socket             WSProtocolHandler and handleSubscribe; frames that are read, time-outs, and what
--                      the goroutines of subscriptions do are events in any order
--
-- Schema: internal/schema.
--   Value              the Go values of type any that are validated
--   Property, Kinds    PropertyBuilder, its setters, and the branch methods of builders and arrays
--   Store              New, NewValue, Property, OwnProperties, Refine, Array, Object and the registry; what
--                      the program has allocated is a store, a pointer is an index in it
--
-- Validate: internal/validate.
--   Violation, Primitive, Walk
--                      validateValue with its branches, for each kind; validateStruct
--   Conforms           what the walk is proved against: an inductive relation on values and builders
--   Populate           setField and populate; a destination is the list of fields that are written
--   Parse              parseDecoded, populateValue, JSON bodies, GraphQL arguments
--   Source, Form       the environment, path parameters, query and headers; multipart forms
-- Validate reads the store that Schema fills. Regular expressions, time.ParseDuration, strconv.ParseFloat
-- and the round trip through encoding/json are parameters. A number is a double: an integer over a power
-- of two, an infinity or NaN; conversions to integers outside their range are those of amd64.
--
-- Prelude has what the parts share: tests on numbers, results, membership, reachability, byte strings.
--
-- Loops that the code runs on mutable maps are recursion on fuel: assemble on the number of modules
-- that can be reached, with their imports, effectiveExports and DetectCycle on the number of nodes,
-- resolveInterpolation on the length of the text. The walk of a value follows references to schemas, and
-- a Sanitize function may return any value, so it runs on fuel too: more than the depth of the value is
-- enough when no Sanitize makes a value deeper. A theorem for each says how much is enough; all
-- other loops recurse on a list.
--
-- Not modelled: the copying by reflection of an instance into the placeholders that were handed out
-- (internal/resolver/stage3.go); OpenAPI
-- (internal/openapi); the other parts of GraphQL
-- (internal/graphql), whose engine is a third-party library; events and schedules
-- (internal/emitter, internal/scheduler); the Fiber adapter and the logger, which are input and
-- output; the texts of error messages beyond what identifies the error.
pub mod Di
pub mod Dotenv
pub mod Graphql
pub mod Http
pub mod Lifecycle
pub mod Prelude
pub mod Schema
pub mod Validate
