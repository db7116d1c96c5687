-- ===== src/Store/Accounts.antt =====
-- The account that the store keeps of its scopes. The scope map holds live buffers, each under one name,
-- every other buffer is detached, and the three counters of the store are sums over the map.
use scopecache.Prelude.{ℕ, ◌+◌, ◌%◌, ◌<◌, ◌≡◌, true, false, List, none, some, All, length}
use scopecache.Word.{word}
use scopecache.Map.Entries.{Unique, name_of, total}
use scopecache.Item.{Bytes, Bytes-discrete}
use scopecache.Ledger.{Ledger, scope_buffer_overhead}
use scopecache.Buffer.{ScopeBuffer}
use scopecache.Buffer.Invariant.{IsCoherent}
use scopecache.Store.{Store, BufPtr}

pub record IsLive (b : ScopeBuffer) : Type 0 where
  pub coherent : IsCoherent b
  pub attached : b.has_store ≡ true
  pub alive : b.detached ≡ false

pub record IsOrphan (b : ScopeBuffer) : Type 0 where
  pub cut_off : b.has_store ≡ false
  pub dead : b.detached ≡ true

-- What a scope is charged, and what it holds.
abbrev pub charge : (BufPtr → ScopeBuffer) → BufPtr → ℕ
charge bufs p = (bufs p).bytes + scope_buffer_overhead

abbrev pub held : (BufPtr → ScopeBuffer) → BufPtr → ℕ
held bufs p = length (bufs p).items

-- A map of scopes over a heap of buffers.
pub record IsScopeMap (bufs : BufPtr → ScopeBuffer) (next : BufPtr) (m : List (Bytes × BufPtr))
    : Type 0 where
  pub unique : Unique Bytes-discrete m
  pub allocated : All (λ e. e.1 < next) m
  pub live : (p : BufPtr) (name : Bytes) → name_of Bytes-discrete p m ≡ some name → IsLive (bufs p)
  pub orphaned : (p : BufPtr) → p < next → name_of Bytes-discrete p m ≡ none → IsOrphan (bufs p)

pub record IsCounted (bufs : BufPtr → ScopeBuffer) (m : List (Bytes × BufPtr)) (l : Ledger)
    : Type 0 where
  pub bytes_total : l.total_bytes % word ≡ total Bytes-discrete (charge bufs) m % word
  pub items_total : l.total_items % word ≡ total Bytes-discrete (held bufs) m % word
  pub scopes_total : l.scope_count % word ≡ length m % word

pub record Accounts (s : Store) : Type 0 where
  pub map : IsScopeMap s.bufs s.next_buf s.scopes
  pub counted : IsCounted s.bufs s.scopes s.ledger
