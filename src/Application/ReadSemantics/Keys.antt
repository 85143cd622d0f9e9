-- ===== src/Application/ReadSemantics/Keys.antt =====
-- The order of keys is the order in which `order_items` puts the items, and the continuation behind a
-- boundary picks out what follows it.
use bif.Base.{◌≡◌, arith}
use bif.Domain.Item.{Item}
use bif.Application.Listing.{cmp_id, ItemListOrdering, newest_first, next, cmp_items}
use bif.Application.Listing.Order.{cmp_text-IsOrder}
use bif.Application.ReadSemantics.{key_of, compare_keys}

-- The keys of two items compare as the items do in an item list.
pub compare_keys-cmp_items :
    (ordering : ItemListOrdering) (a b : Item)
    → compare_keys ordering (key_of a) (key_of b) ≡ cmp_items ordering a b
unfolding compare_keys cmp_items cmp_id
compare_keys-cmp_items newest_first a b =
    ground (arith, cmp_text-IsOrder.reversed a.captured_at b.captured_at)
compare_keys-cmp_items next a b = ground arith
