-- ===== src/Buffer/Served.antt =====
-- What every request keeps: the store's number of scopes, and, in a detached scope, the whole state.
use scopecache.Prelude.{ℕ, ◌≡◌, refl, true, ℕ_discrete, if_intro, option_intro}
use scopecache.Item.{Json, Bytes-discrete}
use scopecache.Buffer.{State}
use scopecache.Buffer.History.{
  Request, append, upsert, add_to_counter, update_id, update_seq, update_uuid, delete_id,
  delete_seq_number, delete_uuid, drain_seq, drain_uuid, serve,
}
use scopecache.Map.{lookup}
use scopecache.Buffer.Delete.{
  delete_by_id, delete_by_seq, delete_by_uuid, delete_up_to_seq, delete_up_to_uuid,
}
use scopecache.Buffer.Counter.{counter_add, counter_add_fast, counter_add_slow}
use scopecache.Buffer.Write.{append_item, upsert_by_id, update_by_id, update_by_seq, update_by_uuid}
use scopecache.Buffer.ScopeCount.{
  delete_seq-Counted, append-Counted, upsert-Counted, counter_add-Counted, update_id-Counted,
  update_seq-Counted, update_uuid-Counted, drain-Counted, Counted,
}

module _ (json : Json) (grow : ℕ → ℕ → ℕ) where
  pub serve-scope_count :
      (r : Request) (s : State) → (serve json grow r s).ledger.scope_count ≡ s.ledger.scope_count
  unfolding serve delete_by_id delete_by_seq delete_by_uuid delete_up_to_seq delete_up_to_uuid
      Counted
  serve-scope_count (append item now minted) s = append-Counted json grow s item now minted
  serve-scope_count (upsert item now minted) s = upsert-Counted json grow s item now minted
  serve-scope_count (add_to_counter scope id by now minted) s =
      counter_add-Counted json grow s scope id by now minted
  serve-scope_count (update_id id payload pre now) s =
      update_id-Counted json grow s id payload pre now
  serve-scope_count (update_seq seq payload pre now) s =
      update_seq-Counted json grow s seq payload pre now
  serve-scope_count (update_uuid u payload pre now) s =
      update_uuid-Counted json grow s u payload pre now
  serve-scope_count (delete_id id now) s =
      if_intro (Counted s) s.buf.detached (λ _. refl)
        (λ _.
          option_intro (Counted s) (lookup Bytes-discrete id s.buf.by_id) (λ _. refl)
            (λ p _. delete_seq-Counted (s.buf.heap p).seq now s))
  serve-scope_count (delete_seq_number seq now) s =
      if_intro (Counted s) s.buf.detached (λ _. refl)
        (λ _.
          option_intro (Counted s) (lookup ℕ_discrete seq s.buf.by_seq) (λ _. refl)
            (λ p _. delete_seq-Counted seq now s))
  serve-scope_count (delete_uuid u now) s =
      if_intro (Counted s) s.buf.detached (λ _. refl)
        (λ _.
          option_intro (Counted s) (lookup Bytes-discrete u s.buf.by_uuid) (λ _. refl)
            (λ p _. delete_seq-Counted (s.buf.heap p).seq now s))
  serve-scope_count (drain_seq seq now) s =
      if_intro (Counted s) s.buf.detached (λ _. refl) (λ _. drain-Counted s now seq)
  serve-scope_count (drain_uuid u now) s =
      if_intro (Counted s) s.buf.detached (λ _. refl)
        (λ _.
          option_intro (Counted s) (lookup Bytes-discrete u s.buf.by_uuid) (λ _. refl)
            (λ p _. drain-Counted s now (s.buf.heap p).seq))

  -- A detached scope refuses every request, and nothing changes.
  pub serve_detached : (r : Request) (s : State) → s.buf.detached ≡ true → serve json grow r s ≡ s
  unfolding serve append_item upsert_by_id counter_add counter_add_fast counter_add_slow
      update_by_id update_by_seq update_by_uuid delete_by_id delete_by_seq delete_by_uuid
      delete_up_to_seq delete_up_to_uuid
  serve_detached (append item now minted) s h = rw (h)
  serve_detached (upsert item now minted) s h = rw (h)
  serve_detached (add_to_counter scope id by now minted) s h = rw (h)
  serve_detached (update_id id payload pre now) s h = rw (h)
  serve_detached (update_seq seq payload pre now) s h = rw (h)
  serve_detached (update_uuid u payload pre now) s h = rw (h)
  serve_detached (delete_id id now) s h = rw (h)
  serve_detached (delete_seq_number seq now) s h = rw (h)
  serve_detached (delete_uuid u now) s h = rw (h)
  serve_detached (drain_seq seq now) s h = rw (h)
  serve_detached (drain_uuid u now) s h = rw (h)
