-- ===== src/Lib.antt =====
-- Verification library of scopecache, an in-memory cache of scopes, each a list of items that are
-- addressed by id, sequence number or uuid.
--
-- A scope is a scopeBuffer (buffer.go): a slice of items that ascend by sequence number, three maps
-- from id, sequence number and uuid to the same items, and counters. The scopes of a store (store.go)
-- share its byte and item totals and its byte cap. A write takes a scope's lock, looks its target up
-- in a map, reserves bytes with the store, and changes slice, maps and counters together; a read
-- copies items out. The store finds or makes the scope of a request in its map, rolls a fresh scope
-- back where the write fails, describes each change as an event in the reserved scope `_events`, and
-- wakes the subscriber of a reserved scope. Requests pass the validators (validation.go) first. Bulk
-- writes (bulk.go) plan a replacement for each scope, reserve the bytes of all, and then commit.
--
-- Files:
--   Word       int64 and uint64 as bit patterns below 2 ^ 64, with wrapping sums and signed order
--   Map        Go maps as association lists; Map/Index and Map/Keeps: maps that index a list;
--              Map/Keyed: operations on a list by key; Map/Entries: a map from names to pointers
--              and sums over it
--   Search     sort.Search of the standard library, with enough fuel for its loop
--   Decimal    strconv's AppendInt and ParseInt at base 10; Decimal/RoundTrip, Decimal/Bounds
--   Text       strings.TrimSpace and utf8.Valid of the standard library
--   Uuid       the text and JSON forms of UUIDv7 (uuid.go); Uuid/RoundTrip, Uuid/Minted
--   Item       Item, counterCell, approxItemSize and the errors (types.go), the UUID type (uuid.go),
--              precomputeRenderBytes and payloadAndRenderBytes (buffer_locked.go),
--              materialiseCounter (buffer_read.go); Item/Sizes: the cost of an item that changes
--   Ledger     the counters and caps of the store, reserveBytes, bumpLastWriteTS (store.go)
--   Buffer     scopeBuffer and its construction (buffer.go)
--     Locked   buffer_locked.go and insertNewItemLocked       Write    buffer_write.go
--     Delete   buffer_delete.go                               Counter  buffer_counter.go
--     Read     buffer_read.go, buffer_stats.go, buffer_heat.go
--     Replace  buffer_replace.go; Replace/Batch, Replace/Keeps and Replace/Commit: what its checks
--              make sure of, the scope that takes a replacement over, and the commits
--     Order, Invariant, Insert, Remove, Kept: the representation invariant, what moves it and what
--              keeps it, with the totals of the store; Write/Keeps, Write/Updates, Delete/Keeps and
--              Counter/Keeps take it through the operations; Counter/Range: the range of counters
--     Contents, Effects: the list of items as the abstract view of a scope, and what the operations
--              do to it; Read/Window: what the reads hand out of it
--     History  sequences of requests on one scope; ScopeCount, Served: what every request keeps of
--              the store
--   Bulk       the buffer that rebuildAll fills (bulk.go), newscopeBuffer of the store (store.go)
--   Validation the shape rules and query parameters (validation.go)
--     Requests the validators of whole requests, groupItemsByScope; Accepted, Sizes, Grouped: what
--              they let through, and what the groups hold
--   Store      the scope map with creation and rollback (store.go)
--     Boot     Config (types.go) and newStore      Scopes  the reserved scopes, deleteScope, wipe
--     Subscribe  subscribe.go; Subscribe/Safe, Subscribe/Wakeups: sequences of its calls
--     Events   events.go
--     Writes   appendOne and its event; Writes/Depth, Writes/Ends, Writes/Rollback
--     Calls    the other write paths               Reads   the read paths, statistics and lists
--     Warm     replaceScopes (bulk.go); Warm/Steps, Warm/Balance, Warm/Commit: what its commits keep
--     Rebuild  rebuildAll (bulk.go)
--     Accounts the account that the store keeps of its scopes; Steps, Emptied: what moves it
--     Moves, History  sequences of steps on a store, and the account through them
--     Batch    the commit of a batch beside other writers, as Moves has it; Batch/Served: their
--              requests
--   Tests      concrete states
--
-- State and operations: an operation of the source is a function of the same name from the state
-- before it (the store's counters and the buffer) to its result and the state after it. Errors are
-- values of Error. The items are on a heap of the buffer, since the slice and the maps alias them. A
-- nil store pointer is has_store = false. The time and the uuid that a call would draw are arguments,
-- drawn whether or not they are used. A cell of a counter is reached only through its item, and
-- stands in it by value.
--
-- The shards of the scope map are one map: a call holds the locks of the shards that it uses, so that
-- each locked section is a step, save the commit of a batch: its shard locks do not keep out the
-- writers that have a buffer already, so the relation Batch lets their requests come between its
-- snapshots, its reservation and its commits (commit_batch is the run without them). A goroutine that has a pointer to a buffer may use it at any later
-- step, when the scope is gone or made again. The range over a Go map is over a list, in an order that
-- the caller of the model chooses. A send on a closed channel, or its second close, sets `panicked`.
--
-- Parameters: Json is what the code takes from its JSON library, and marshal in Env is the JSON text of
-- an event; grow is the runtime's choice of a capacity when a slice grows; clock and mint are the times
-- and the uuids that the calls draw.
--
-- Bounds: lengths are not bounded by themselves; where they meet int64 arithmetic they are taken
-- modulo 2 ^ 64, and a theorem that needs fewer than 2 ^ 63 items says so. The loop of sort.Search
-- has as much fuel as its interval is long, which is enough since the interval shrinks each time;
-- the digits of a number have 20 rounds, enough for 64 bits. An append through the store has two
-- levels of fuel, one for itself and one for its event, which emits none.
--
-- Not modelled: the texts of errors; the choice of a shard and the locks themselves, since every locked
-- section is one step or, for a batch, the steps of Batch, and the compare-and-swap loops on the counters run to their end in it; the JSON
-- encoding of items and responses, the gateway, the handlers and the other wire formats; external
-- commands, the server, the Caddy module and the addons, which are I/O and glue.
pub mod Prelude
pub mod Word
pub mod Map
pub mod Search
pub mod Decimal
pub mod Item
pub mod Ledger
pub mod Uuid
pub mod Buffer
pub mod Bulk
pub mod Store
pub mod Text
pub mod Validation
pub mod Tests
