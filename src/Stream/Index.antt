-- ===== src/Stream/Index.antt =====
-- crates/relay/src/stream.rs: the tables from a device, or a controller, to the set of its
-- streams. A set that becomes empty is dropped with its key.
use g_rpc_relay.Base.{
  ◌+◌, ◌≤◌, ◌≡◌, false, ◌&&◌, ◌||◌, none, some, [], arith, if◌then◌else◌, ◌==◌, ==_iff, length,
  is_empty, list_eq, ℕ_eq,
}
use g_rpc_relay.Collections.HashMap
use g_rpc_relay.Collections.HashMap.{HashMap, get-insert, get-remove, get-insert_self}
use g_rpc_relay.Collections.HashSet
use g_rpc_relay.Collections.HashSet.{
  HashSet, contains, contains-insert, contains-remove, length-insert, length-remove,
  length-insert_new, contains-is_empty,
}
use g_rpc_relay.Text.{Str}

-- The `Entry` matches of `create_mapping` that add a stream to its owner.
unfoldable pub track : Str → Str → HashMap Str (HashSet Str) → HashMap Str (HashSet Str)
track owner id index = elim (HashMap.get owner index) [
  | none ↦ HashMap.insert owner (HashSet.insert id []) index
  | some streams ↦ HashMap.insert owner (HashSet.insert id streams) index
]

-- The `Entry` matches of `remove_mapping` and of the rollback.
unfoldable pub untrack : Str → Str → HashMap Str (HashSet Str) → HashMap Str (HashSet Str)
untrack owner id index = elim (HashMap.get owner index) [
  | none ↦ index
  | some streams ↦
      let left = HashSet.remove id streams in
      if is_empty left then HashMap.remove owner index else HashMap.insert owner left index
]

-- The streams of an owner.
unfoldable pub members : Str → HashMap Str (HashSet Str) → HashSet Str
members owner index = elim (HashMap.get owner index) [ none ↦ [] | some streams ↦ streams ]

module _ (owner id : Str) (index : HashMap Str (HashSet Str)) where
  pub contains-track :
      (o s : Str)
      → contains s (members o (track owner id index))
        ≡ (owner == o && id == s || contains s (members o index))
  unfolding track members contains
  contains-track o s = ground (
    arith,
    get-insert owner o (HashSet.insert id []) index,
    get-insert owner o (HashSet.insert id (members owner index)) index,
    ==_iff owner o,
    contains-insert id s [],
    contains-insert id s (members owner index),
  )

  pub contains-untrack :
      (o s : Str)
      → contains s (members o (untrack owner id index))
        ≡ (if owner == o && id == s then false else contains s (members o index))
  unfolding untrack members contains
  contains-untrack o s = ground (
    arith,
    get-insert owner o (HashSet.remove id (members owner index)) index,
    get-remove owner o index,
    ==_iff owner o,
    contains-remove id s (members owner index),
    contains-is_empty s (HashSet.remove id (members owner index)),
  )

  pub length-track :
      (o : Str)
      → length (members o (track owner id index))
        ≤ length (members o index) + (if owner == o then 1 else 0)
  unfolding track members
  length-track o = ground (
    arith,
    get-insert owner o (HashSet.insert id []) index,
    get-insert owner o (HashSet.insert id (members owner index)) index,
    ==_iff owner o,
    length-insert id [],
    length-insert id (members owner index),
  )

  pub length-untrack :
      (o : Str) → length (members o (untrack owner id index)) ≤ length (members o index)
  unfolding untrack members
  length-untrack o = ground (
    arith,
    get-insert owner o (HashSet.remove id (members owner index)) index,
    get-remove owner o index,
    ==_iff owner o,
    length-remove id (members owner index),
  )

  pub length-track_new :
      contains id (members owner index) ≡ false
      → length (members owner (track owner id index)) ≡ length (members owner index) + 1
  unfolding track members
  length-track_new h = ground (
    arith,
    get-insert_self owner (HashSet.insert id []) index,
    get-insert_self owner (HashSet.insert id (members owner index)) index,
    length-insert_new id [],
    length-insert_new id (members owner index),
  )
