-- ===== src/Store/Reads.antt =====
-- The read paths of the store (store.go): the windows and single items of a scope, the store's statistics
-- and the list of scopes. Only the read counters of a scope change, and only on a hit.
use scopecache.Prelude.{
  ℕ, Bool, true, false, not, ltb, ◌==◌, ◌&&◌, if◌then◌else◌, List, [], ◌∷◌, Option, none, some,
  length, take, map,
}
use scopecache.Word.{slt, sle}
use scopecache.Item.{Bytes, Item, is_empty}
use scopecache.Uuid.{parse_uuid_v7}
use scopecache.Buffer.{ScopeBuffer}
use scopecache.Buffer.Read.{
  since_seq, tail_offset, get_by_id, get_by_seq, get_by_uuid, record_read, ScopeStats, stats,
}
use scopecache.Store.{Store, BufPtr, put_buf, get_scope}
use scopecache.Store.Scopes.{reserved_scope_names}

-- `buf.recordRead(now)`
unfoldable pub read_at : BufPtr → ℕ → Store → Store
unfolding put_buf record_read
read_at p now s = record s { bufs = put_buf p (record_read now (s.bufs p)) s.bufs }

abbrev pub has_items : List Item → Bool
has_items [] = false
has_items (x ∷ xs) = true

-- The items, whether there are more, and whether the scope was there.
pub record Page : Type 0 where
  pub items : List Item
  pub truncated : Bool
  pub scope_found : Bool

-- A window of a scope: a read that finds nothing is not counted.
abbrev pub window : BufPtr → ℕ → List Item × Bool → Store → Page × Store
window p now (items, truncated) s = (
  record { items = items; truncated = truncated; scope_found = true },
  if has_items items then read_at p now s else s,
)

abbrev pub no_page : Page
no_page = record { items = []; truncated = false; scope_found = false }

unfoldable pub head : Bytes → ℕ → ℕ → ℕ → Store → Page × Store
unfolding get_scope since_seq read_at
head scope after_seq limit now s = elim (get_scope scope s) [
  | none ↦ (no_page, s)
  | some p ↦ window p now (since_seq after_seq limit (s.bufs p)) s
]

unfoldable pub tail : Bytes → ℕ → ℕ → ℕ → Store → Page × Store
unfolding get_scope tail_offset read_at
tail scope limit offset now s = elim (get_scope scope s) [
  | none ↦ (no_page, s)
  | some p ↦ window p now (tail_offset limit offset (s.bufs p)) s
]

-- The lookup that get and render share: id before uuid before sequence number. A malformed uuid is
-- a miss.
unfoldable pub find_item : Bytes → ℕ → Bytes → ScopeBuffer → Option Item
unfolding get_by_id get_by_seq get_by_uuid
find_item id seq uuid b =
    if not (is_empty id)
    then get_by_id id b
    else if not (is_empty uuid)
    then elim (parse_uuid_v7 uuid) [ none ↦ none | some u ↦ get_by_uuid u b ]
    else get_by_seq seq b

unfoldable pub get : Bytes → Bytes → ℕ → Bytes → ℕ → Store → Option Item × Store
unfolding get_scope find_item read_at
get scope id seq uuid now s = elim (get_scope scope s) [
  | none ↦ (none, s)
  | some p ↦ elim (find_item id seq uuid (s.bufs p)) [
    | none ↦ (none, s)
    | some item ↦ (some item, read_at p now s)
  ]
]

-- What `/render` writes: the rendered bytes of a JSON string, else the payload.
abbrev pub rendered : Item → Bytes
rendered item = elim item.render_bytes [ none ↦ item.payload | some bs ↦ bs ]

abbrev pub map_first : {A B : Type 0} → (A → B) → Option A × Store → Option B × Store
map_first f (none, s) = (none, s)
map_first f (some a, s) = (some (f a), s)

unfoldable pub render : Bytes → Bytes → ℕ → Bytes → ℕ → Store → Option Bytes × Store
unfolding get
render scope id seq uuid now s = map_first rendered (get scope id seq uuid now s)

pub record ReservedScopeEntry : Type 0 where
  pub scope : Bytes
  pub entry_stats : ScopeStats

unfoldable pub reserved_scope_stats : List Bytes → Store → List ReservedScopeEntry
unfolding get_scope stats
reserved_scope_stats [] s = []
reserved_scope_stats (name ∷ names) s =
    let rest = reserved_scope_stats names s in
    elim (get_scope name s) [
      | none ↦ rest
      | some p ↦ record { scope = name; entry_stats = stats (s.bufs p) } ∷ rest
    ]

pub record StoreStats : Type 0 where
  pub scopes : ℕ
  pub items : ℕ
  pub approx_store_bytes : ℕ
  pub last_write_ts : ℕ
  pub events_drops_total : ℕ
  pub reserved_scopes : List ReservedScopeEntry

unfoldable pub store_stats : Store → StoreStats
unfolding reserved_scope_stats
store_stats s = record {
  scopes = s.ledger.scope_count;
  items = s.ledger.total_items;
  approx_store_bytes = s.ledger.total_bytes;
  last_write_ts = s.ledger.last_write_ts;
  events_drops_total = s.ledger.events_drops_total;
  reserved_scopes = reserved_scope_stats reserved_scope_names s;
}

-- The order of Go strings.
unfoldable pub name_before : Bytes → Bytes → Bool
name_before xs [] = false
name_before [] (y ∷ ys) = true
name_before (x ∷ xs) (y ∷ ys) = let rest = name_before xs ys in if x == y then rest else ltb x y

unfoldable pub has_prefix : Bytes → Bytes → Bool
has_prefix [] name = true
has_prefix (c ∷ cs) [] = false
has_prefix (c ∷ cs) (d ∷ ds) = let rest = has_prefix cs ds in c == d && rest

unfoldable pub matching : Bytes → Bytes → List (Bytes × BufPtr) → List (Bytes × BufPtr)
unfolding has_prefix name_before
matching prefix after [] = []
matching prefix after ((name, p) ∷ m) =
    let rest = matching prefix after m in
    if not (is_empty prefix) && not (has_prefix prefix name)
    then rest
    else if not (is_empty after) && not (name_before after name)
    then rest
    else (name, p) ∷ rest

insert_by_name : Bytes × BufPtr → List (Bytes × BufPtr) → List (Bytes × BufPtr)
unfolding name_before
insert_by_name e [] = e ∷ []
insert_by_name e (d ∷ m) =
    let rest = insert_by_name e m in if name_before e.0 d.0 then e ∷ d ∷ m else d ∷ rest

-- `sort.Slice` by name; names are distinct, so that the order of equals does not matter.
unfoldable pub sort_by_name : List (Bytes × BufPtr) → List (Bytes × BufPtr)
unfolding insert_by_name
sort_by_name [] = []
sort_by_name (e ∷ m) = insert_by_name e (sort_by_name m)

-- `scopeList`: the rows of a page, and whether more scopes match.
unfoldable pub scope_list : Bytes → Bytes → ℕ → Store → List (Bytes × ScopeStats) × Bool
unfolding matching sort_by_name stats
scope_list prefix after limit s =
    let refs = sort_by_name (matching prefix after s.scopes) in
    if sle limit 0
    then ([], false)
    else (map (λ e. (e.0, stats (s.bufs e.1))) (take limit refs), slt limit (length refs))
