-- ===== src/Buffer/History.antt =====
-- Sequences of requests on one scope. Each runs under the scope's lock, from its start to its end, so
-- that whatever the goroutines do, the scope sees some sequence of them.
use scopecache.Prelude.{ℕ, ◌+◌, ◌<◌, ◌≡◌, ◌∙◌, false, Option, none, arith}
use scopecache.Word.{word}
use scopecache.Map.{lookup}
use scopecache.Item.{Bytes, Bytes-discrete, Uuid, Item, Json, is_empty}
use scopecache.Buffer.{State}
use scopecache.Buffer.Locked.{adopted_uuid}
use scopecache.Buffer.Write.{append_item, upsert_by_id, update_by_id, update_by_seq, update_by_uuid}
use scopecache.Buffer.Write.Keeps.{append_item-Kept}
use scopecache.Buffer.Write.Updates.{
  upsert_by_id-Kept, update_by_id-Kept, update_by_seq-Kept, update_by_uuid-Kept,
}
use scopecache.Buffer.Delete.{
  delete_by_id, delete_by_seq, delete_by_uuid, delete_up_to_seq, delete_up_to_uuid,
}
use scopecache.Buffer.Delete.Keeps.{
  delete_by_id-Kept, delete_by_seq-Kept, delete_by_uuid-Kept, delete_up_to_seq-Kept,
  delete_up_to_uuid-Kept,
}
use scopecache.Buffer.Counter.{counter_add}
use scopecache.Buffer.Counter.Keeps.{counter_add-Kept}
use scopecache.Buffer.Invariant.{IsCoherent}
use scopecache.Buffer.Kept.{InStep, InStep-refl, Kept}

-- A request with the time and, where it may add an item, the uuid that is minted for it.
pub data Request : Type 0 where
  append : Item → ℕ → Uuid → Request
  upsert : Item → ℕ → Uuid → Request
  add_to_counter : Bytes → Bytes → ℕ → ℕ → Uuid → Request
  update_id : Bytes → Bytes → Option Bytes → ℕ → Request
  update_seq : ℕ → Bytes → Option Bytes → ℕ → Request
  update_uuid : Uuid → Bytes → Option Bytes → ℕ → Request
  delete_id : Bytes → ℕ → Request
  delete_seq_number : ℕ → ℕ → Request
  delete_uuid : Uuid → ℕ → Request
  drain_seq : ℕ → ℕ → Request
  drain_uuid : Uuid → ℕ → Request

module _ (json : Json) (grow : ℕ → ℕ → ℕ) where
  -- The state behind a request, its result or its error forgotten.
  unfoldable pub serve : Request → State → State
  unfolding append_item upsert_by_id counter_add update_by_id update_by_seq update_by_uuid
      delete_by_id delete_by_seq delete_by_uuid delete_up_to_seq delete_up_to_uuid
  serve (append item now minted) s = (append_item json grow item now minted s).1
  serve (upsert item now minted) s = (upsert_by_id json grow item now minted s).1
  serve (add_to_counter scope id by now minted) s =
      (counter_add json grow scope id by now minted s).1
  serve (update_id id payload pre now) s = (update_by_id json id payload pre now s).1
  serve (update_seq seq payload pre now) s = (update_by_seq json seq payload pre now s).1
  serve (update_uuid u payload pre now) s = (update_by_uuid json u payload pre now s).1
  serve (delete_id id now) s = (delete_by_id id now s).1
  serve (delete_seq_number seq now) s = (delete_by_seq seq now s).1
  serve (delete_uuid u now) s = (delete_by_uuid u now s).1
  serve (drain_seq seq now) s = (delete_up_to_seq seq now s).1
  serve (drain_uuid u now) s = (delete_up_to_uuid u now s).1

  -- Where an item may be added, a sequence number is left and its uuid is not in the scope. A
  -- counter has an id.
  abbrev CanAdd : Uuid → State → Type 0
  CanAdd u s = (s.buf.last_seq + 1 < word) × (lookup Bytes-discrete u s.buf.by_uuid ≡ none)

  abbrev pub Admissible : Request → State → Type 0
  Admissible (append item now minted) s = CanAdd (adopted_uuid item minted s.buf) s
  Admissible (upsert item now minted) s = CanAdd (adopted_uuid item minted s.buf) s
  Admissible (add_to_counter scope id by now minted) s = (is_empty id ≡ false) × CanAdd minted s
  Admissible (update_id id payload pre now) s = Unit
  Admissible (update_seq seq payload pre now) s = Unit
  Admissible (update_uuid u payload pre now) s = Unit
  Admissible (delete_id id now) s = Unit
  Admissible (delete_seq_number seq now) s = Unit
  Admissible (delete_uuid u now) s = Unit
  Admissible (drain_seq seq now) s = Unit
  Admissible (drain_uuid u now) s = Unit

  -- `Reaches s t`: some sequence of admissible requests leads from the one state to the other.
  pub data Reaches : State → State → Type 0 where
    stay : {s : State} → Reaches s s
    step : {s t : State} (r : Request) → Admissible r s → Reaches (serve r s) t → Reaches s t

  pub record Sound (s t : State) : Type 0 where
    pub coherent : IsCoherent t.buf
    pub in_step : InStep s t

  Kept-Sound : {A : Type 0} {s : State} (r : A × State) → Kept s r → Sound s r.1
  Kept-Sound r k = record { coherent = k.coherent; in_step = k.in_step }

  pub serve-Sound :
      (r : Request) (s : State) → IsCoherent s.buf → Admissible r s → Sound s (serve r s)
  unfolding serve
  serve-Sound (append item now minted) s c h =
      Kept-Sound _ (append_item-Kept json grow item now minted s c h.0 h.1)
  serve-Sound (upsert item now minted) s c h =
      Kept-Sound _ (upsert_by_id-Kept json grow item now minted s c h.0 h.1)
  serve-Sound (add_to_counter scope id by now minted) s c h =
      Kept-Sound _ (counter_add-Kept s c by now json grow scope id minted h.0 h.1.0 h.1.1)
  serve-Sound (update_id id payload pre now) s c h =
      Kept-Sound _ (update_by_id-Kept json payload pre now s c id)
  serve-Sound (update_seq seq payload pre now) s c h =
      Kept-Sound _ (update_by_seq-Kept json payload pre now s c seq)
  serve-Sound (update_uuid u payload pre now) s c h =
      Kept-Sound _ (update_by_uuid-Kept json payload pre now s c u)
  serve-Sound (delete_id id now) s c h = Kept-Sound _ (delete_by_id-Kept now s c id)
  serve-Sound (delete_seq_number seq now) s c h = Kept-Sound _ (delete_by_seq-Kept now s c seq)
  serve-Sound (delete_uuid u now) s c h = Kept-Sound _ (delete_by_uuid-Kept now s c u)
  serve-Sound (drain_seq seq now) s c h = Kept-Sound _ (delete_up_to_seq-Kept now s c seq)
  serve-Sound (drain_uuid u now) s c h = Kept-Sound _ (delete_up_to_uuid-Kept now s c u)

  InStep-trans : (s t u : State) → InStep s t → InStep t u → InStep s u
  InStep-trans s t u p q = record {
    wired = q.wired ∙ p.wired;
    alive = q.alive ∙ p.alive;
    bytes_in_step = λ h. omega (arith, p.bytes_in_step h, q.bytes_in_step (p.wired ∙ h));
    items_in_step = λ h. omega (arith, p.items_in_step h, q.items_in_step (p.wired ∙ h));
  }

  -- From a scope that satisfies its invariant, any sequence of requests leads to a scope that
  -- satisfies it too: appends, upserts and counter increments (each with a sequence number left, a
  -- uuid that is not yet in the scope and, for a counter, an id that is not empty), updates,
  -- deletes and drains, the refused ones included. A scope that belongs to a store has then moved
  -- the store's byte total and item total by as much, modulo 2 ^ 64, as its own.
  pub Reaches-Sound : (s t : State) → IsCoherent s.buf → Reaches s t → Sound s t
  Reaches-Sound s t c stay = record { coherent = c; in_step = InStep-refl s }
  Reaches-Sound s t c (step r h rest) =
      let one = serve-Sound r s c h in
      let others = Reaches-Sound (serve r s) t one.coherent rest in
      record {
        coherent = others.coherent;
        in_step = InStep-trans s (serve r s) t one.in_step others.in_step;
      }
