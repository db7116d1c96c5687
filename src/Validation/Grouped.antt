-- ===== src/Validation/Grouped.antt =====
-- The groups of a bulk input.
use scopecache.Prelude.{◌≡◌, sym, ◌∙◌, ap, List, [], ◌∷◌, ◌++◌, ite, arith}
use scopecache.Map.{lookup, lookup-insert}
use scopecache.Item.{Bytes, Bytes-discrete, Item}
use scopecache.Validation.Requests.{group_of, add_to_group, group_from, group_items_by_scope}
use mathlib.Core.List.{append_assoc, append-nil}

-- The items of a scope, in their order.
unfoldable pub in_scope : Bytes → List Item → List Item
in_scope scope [] = []
in_scope scope (item ∷ items) =
    let rest = in_scope scope items in ite (Bytes-discrete scope item.scope) (item ∷ rest) rest

in_scope-step :
    (scope : Bytes) (item : Item) (items : List Item)
    → in_scope scope (item ∷ []) ++ in_scope scope items ≡ in_scope scope (item ∷ items)
unfolding in_scope
in_scope-step scope item items = ground arith

group_of-add :
    (scope : Bytes) (item : Item) (grouped : List (Bytes × List Item))
    → group_of scope (add_to_group item grouped)
      ≡ group_of scope grouped ++ in_scope scope (item ∷ [])
unfolding add_to_group in_scope
group_of-add scope item grouped =
    let put =
      lookup-insert Bytes-discrete scope item.scope (group_of item.scope grouped ++ (item ∷ []))
        grouped in
    elim (Bytes-discrete scope item.scope) [
      | yes e ↦ ground (arith, put, ap (λ k. group_of k grouped) e)
      | no n ↦ ground (arith, put, append-nil (group_of scope grouped))
    ]

group_of-group_from :
    (scope : Bytes) (items : List Item) (grouped : List (Bytes × List Item))
    → group_of scope (group_from items grouped) ≡ group_of scope grouped ++ in_scope scope items
unfolding group_from in_scope
group_of-group_from scope [] grouped = sym (append-nil (group_of scope grouped))
group_of-group_from scope (item ∷ items) grouped =
    group_of-group_from scope items (add_to_group item grouped)
    ∙ ap (λ xs. xs ++ in_scope scope items) (group_of-add scope item grouped)
    ∙ append_assoc (group_of scope grouped) (in_scope scope (item ∷ [])) (in_scope scope items)
    ∙ ap (λ xs. group_of scope grouped ++ xs) (in_scope-step scope item items)

-- The group of a scope in what groupItemsByScope returns is the items of the input with that scope,
-- in their order.
pub group_items_by_scope_lem :
    (scope : Bytes) (items : List Item)
    → group_of scope (group_items_by_scope items) ≡ in_scope scope items
unfolding group_items_by_scope lookup
group_items_by_scope_lem scope items = group_of-group_from scope items []
