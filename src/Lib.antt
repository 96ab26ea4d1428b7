-- ===== src/Lib.antt =====
-- pdbcore, the engine that the products pdbq and pdbr share: it introspects a PostgreSQL schema
-- into a catalog, shapes the catalog by plugins and comments, tells who a request comes from, and
-- runs the request's statements in a transaction under that identity. This library models its
-- packages as pure functions and proves what they promise.
--
-- How the parts interact. confx validates the configuration and makes auth's Config of it
-- (confx/validate.go AuthConfig); auth turns a request into claims and a role (auth/auth.go
-- Authenticate); pgexec runs a callback in a transaction that first assumes that role and those
-- claims (pgexec/tx.go RunTx) and classifies what the database answers (pgexec/classify.go).
-- introspect builds the catalog from the rows of its queries, in which tables tagged @enum become
-- enums, and tells two catalogs apart; cache keeps a catalog in a file; smarttags reads the tags in
-- comments, and smartcomments indexes them and applies them to the catalog; the plugin registry
-- transforms the catalog and composes the namers, whose string helpers are inflect's; postgis makes
-- SQL of spatial values; jwtmint signs the results of functions as tokens that auth accepts; watch
-- reports a changed catalog; httpx decides the headers of a response.
--
-- Files and code.
--   Prelude               lists, texts, maps, integers and Go's string functions that the parts
--                         share. A text is a list of code points, a Go map a list of bindings in
--                         the order of the walk; a map that is nil is an Option where that counts.
--   Pgexec                pgexec/: Ident (QuoteIdent, ValidRole, ValidClaimKey), Errors (the error
--                         values and their wrapping), Classify (Classify, SanitizeMessage), Pool
--                         (Connect), Tx (RunTx, runOnce, ApplyIdentity). A session is the trace of
--                         the events sent to the database and a world that decides each reply.
--   Auth                  auth/: Auth (Authenticate, fromJWT, fromHeaders, resolve), Jwks (the key
--                         cache of jwks.go), Headers and Peer (what is used of net/http, netip).
--   Introspect            introspect/: Catalog and Hash (catalog.go), Diff (diff.go), EnumTables
--                         (enumtables.go), Readers and its child Build (introspect.go). Tables and
--                         columns are values: in a catalog that was read or decoded no two slots
--                         share one.
--   Cache                 cache/cache.go: Save, Load and Check on a state of the files
--   Smarttags             smarttags/smarttags.go
--   Smartcomments         smartcomments/catalog/: the index (index.go), and Reference and Hook
--                         (hook.go), the hook as a function of the catalog to the new index and
--                         the catalog it leaves; Registered makes it a plugin of the registry
--   Plugin                plugin/plugin.go, with Input and Next of inflect/inflect.go
--   Inflect               inflect/inflect.go: the cases (Inflect), Singularize and Pluralize (Nouns)
--   Postgis               postgis/: Parse and what it calls (Values, Wkt, GeoJson), the operators
--                         and accessors of ops.go (Ops, Derived)
--   Confx                 confx/sections.go and validate.go (Confx, and Sections with the tags);
--                         load.go: the mappers of environment variables (Env), slicePaths (Fields),
--                         Load and Discover (Load); example.go (Example)
--   Jwtmint               jwtmint/mint.go
--   Testutil              testutil/catalog.go, the catalog of the fixture
--   Watch                 watch/watch.go: the tests of Run, poll, Run and installTrigger with what
--                         they send (Run), and listen as a machine beside a database that changes
--                         (Listen)
--   Httpx                 httpx/cors.go, httpx/gzip.go, and serve.go (Serve)
-- A module below one of these, such as Pgexec/Tx/Retry, holds what is proved of its parent; the
-- modules named Samples, ReaderSamples and the like hold runs and the instances of the theorems.
--
-- Loops and bounds. Loops over slices are structural recursion. The retry loop of RunTx, which Go
-- writes without a bound, runs on fuel: MaxRetries + 1 attempts, or one where MaxRetries is
-- negative. That is enough, since the attempt whose number reaches MaxRetries always is the last.
-- Times are nanoseconds as natural numbers, and the clock does not run backwards below the last
-- fetch: time.Since is a difference that stops at 0. Negative configuration values are kept, as
-- integers. unwrapGeoJSON runs on the levels that its own bound leaves, maxUnwrapDepth + 1 at the
-- start, so no fuel is added to the code's. The number of a reference system wraps at 2 ^ 64, as
-- Go's int does, and the read timeout of the server and the exponent of a JWKS key likewise. No
-- other arithmetic of the modelled code can overflow.
--
-- Parameters. The database, the caller's callback, golang-jwt, the HTTP client, the parsers of
-- net/netip, encoding/json, compress/gzip, crypto/sha256, koanf, pgxpool, sort.Slice, the tables
-- of package unicode, the file system, strconv.ParseFloat, strconv.IsPrint and the hooks of
-- plugins are arguments. Of sort.Slice the theorems use that it rearranges and that its result
-- ascends, not that it keeps ties in order. A context is what RunTx asks whether it is cancelled.
-- Mutexes make the methods that hold them one step each.
--
-- Not modelled: the command of testutil, which prints the SQL of the fixture; the SQL of the
-- catalog queries; what is logged, and the clipping of untrusted text in postgis's messages. In
-- quoted parts of error messages code points from 128 on are taken to be printable; the reference
-- configuration asks IsPrint.
mod Prelude
pub mod Pgexec
pub mod Plugin
pub mod Auth
pub mod Cache
pub mod Inflect
pub mod Introspect
pub mod Jwtmint
pub mod Postgis
pub mod Smartcomments
pub mod Httpx
pub mod Watch
pub mod Confx
pub mod Smarttags
pub mod Testutil
