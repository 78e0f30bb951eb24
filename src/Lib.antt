-- ===== src/Lib.antt =====
-- A verification library for tdns, a filtering DNS server in Go.
--
-- A listener (internal/dnsserver) admits a request by the address of its client and by rate
-- limits, and asks the server (server/server.go) for a response. The server runs the request
-- through middlewares (middleware/): those of the pre-routing may resolve it, from the blacklist
-- or the cache; otherwise it takes one of the upstream slots, and a resolving middleware or the
-- default upstream resolves it; those of the post-routing see the response, and the cache stores
-- it. The HTTP API (internal/httpapi) limits password attempts and code exchanges by the same
-- kind of table of limiters as the listener.
--
-- The files and the code they model:
--   Base: Boolean tests, lists, maps, texts and sorting, with their lemmas.
--   Message: middleware/common.go, and CtxValue of config/config.go. `Message` is the object
--     that the middlewares share; its methods are `add_value`, `add_labels`, `get_value`,
--     `labels`, ...
--   Selectors: middleware/labels.go and the domain patterns of middleware/blacklist.go
--     (`parse_selectors`, `normalize_selector_values`, `matches_suffix`); Selectors/Requests has
--     the selectors of requests.
--   Cache: middleware/cache.go. `run_get` and `run_set` are `Run` of CacheGet and CacheSet;
--     Cache/Ttl has `capSectionTTLs` and `adjustSectionTTLs`.
--   Blacklist: middleware/blacklist.go. `run` is `Run`; Blacklist/Hole is `buildHole`, and
--     Blacklist/Refresh is `refresh`, with the client of Blocklist as its ingester.
--   Tagger: middleware/tagger.go. `refresh_matchers`, `lookup_labels` and `run_tagger`.
--   Resolver: `ResolveContext` of resolver/client.go. Stub: `Run` of middleware/stub.go.
--   Pipeline: the blacklist and the cache together.
--   Server: server/server.go. `process` and `handler`; Server/Order is `getIndexes`, and
--     Server/Trace says who is asked for a request.
--   Limits: the tables of limiters. Limits/Table is `clientLimiters` of
--     internal/dnsserver/policy.go; Limits/Exchange and Limits/Password are
--     internal/httpapi/exchange_limiter.go and internal/httpapi/password_limiter.go.
--   DnsServer: internal/dnsserver. DnsServer/Policy is policy.go, DnsServer/Handler is
--     handler.go.
--   Static: middleware/static.go. `run_static` is `Run`; Static/Hosts reads, copies and merges
--     hosts.
--   Zen: middleware/zen.go. `run_zen` is `Run`; Zen/Timer is `Start` with its goroutine, as a
--     step relation `Step` on a clock, the object and the places of any number of calls.
--   Sessions: internal/browserauth. Sessions/Tables has the tables, Sessions/Store and
--     Sessions/Csrf are store.go (`redeem_code`, `get_session`, `issue_csrf`, `purge_expired`,
--     ...), and Sessions/Password is password.go; Sessions/Ops runs the operations one after the
--     other.
--   Overrides: internal/overrides. Overrides/Store is store.go, Overrides/Spec what it promises,
--     and Overrides/Apply is apply.go.
--   Blocklist: internal/blocklist. Blocklist/Client is `Refresh` of client.go, Blocklist/Redirect its
--     policy for redirections, Blocklist/Source is source.go and Blocklist/Revision state.go.
--   Tokens: manager.go and browser_code.go of internal/auth. Tokens/Manager has what is issued and
--     what is accepted (`issue_bearer`, `validate_browser_code`, ...).
--
-- Conventions. A text is the list of its bytes, and case and space are those of ASCII. A time or
-- a duration is a number of nanoseconds; an int that is negative behaves like 0 where the code
-- tests it, and is 0 here; a duration is less than 2 ^ 63, and a row of the overrides has a kind
-- that the program declares. `uint32` keeps its wrap-around. A pointer that may be nil is an
-- option, and what the code does with a nil pointer is a crash as an outcome. Go's map of
-- limiters is the list of its keys, beside the list of entries that it points into, which stands
-- back to front. The message object is modelled by its contents after each call; log lines and
-- metrics are left out. Locks are left out: each operation is one step, but for the timer of the
-- zen mode, where each access to the shared object is a step. An SQL statement is the operation
-- on a list of rows that it describes, with the constraints of the table; a database that fails
-- is left out. Every loop is structural recursion but that of `decimal`, which has one round of
-- fuel more than the number, so more than its digits.
--
-- What is not under the repository is a parameter: the store and codecs of the cache
-- (`Backend`), the radix tree with the syntax of addresses and names (`Tree`), the addresses of
-- Go's `net` and `net/netip` (`Net`, `NetIp`, `HostNet`), the exchange with an upstream
-- (`Network`), regular expressions, the lines of a file, random secrets and hashes, bcrypt
-- (`Bcrypt`), the remote side, the disk and the scanner of a refresh (`Remote`, `Disk`,
-- `Scanning`), URLs and paths (`Syntax`), the token buckets of golang.org/x/time/rate (`Limiter`), records and replies of
-- github.com/miekg/dns (`NewRr`, `Replies`), JSON web tokens (`Jwt`), and SHA-256. Their
-- documented behaviour is a hypothesis where a theorem needs it: `IsFaithful`, `IsTree`, `IsJwt`.
--
-- Not modelled: the storage of tags, the query log, the loading of signing keys, and the parts
-- that are glue or I/O: the commands, migrations, HTTP handlers and generated code.
pub mod Base
pub mod Blacklist
pub mod Blocklist
pub mod Cache
pub mod DnsServer
pub mod Limits
pub mod Message
pub mod Overrides
pub mod Pipeline
pub mod Resolver
pub mod Selectors
pub mod Server
pub mod Sessions
pub mod Static
pub mod Stub
pub mod Tagger
pub mod Tokens
pub mod Zen
