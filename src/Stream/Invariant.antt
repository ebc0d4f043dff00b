-- ===== src/Stream/Invariant.antt =====
-- crates/relay/src/stream.rs: what it is for the three tables of the router to agree, and the
-- operations that add or remove a stream.
use g_rpc_relay.Base.{
  ℕ, ◌≤◌, max, ◌≡◌, refl, Bool, true, false, Option, none, some, arith, ◌==◌, ==_iff, length, inl,
  inr, Option-cases, append-cancel, list_eq, ℕ_eq,
}
use g_rpc_relay.Collections.HashMap
use g_rpc_relay.Collections.HashMap.{HashMap, get-insert, get-remove}
use g_rpc_relay.Collections.HashMap.Entries.{Distinct, remove-Distinct}
use g_rpc_relay.Collections.HashSet.{HashSet, contains}
use g_rpc_relay.Text.{Str, str}
use g_rpc_relay.Text.Decimal.{to_string-injective}
use g_rpc_relay.Stream.Index.{
  members, track, untrack, contains-track, contains-untrack, length-track, length-untrack,
}
use g_rpc_relay.Stream.{
  StreamConfig, StreamMapping, StreamRouter, new, stream_id, has_room, remove_mapping,
}

-- Whether a stream that is looked up belongs to an owner.
abbrev pub owned : (StreamMapping → Str) → Str → Option StreamMapping → Bool
owned key o none = false
owned key o (some m) = key m == o

-- A set holds a stream exactly when the stream's mapping names the set's owner.
abbrev pub Indexes :
    (StreamMapping → Str) → HashMap Str StreamMapping → HashMap Str (HashSet Str) → Type 0
Indexes key mappings index =
    (o s : Str) → contains s (members o index) ≡ owned key o (HashMap.get s mappings)

-- No owner has more streams than its limit. The exception is a limit of zero, which the
-- configuration allows: the code does not look at the limit for an owner's first stream, so that
-- one passes, against the `debug_assert!` at the end of `create_mapping`.
abbrev pub Bounded : ℕ → HashMap Str (HashSet Str) → Type 0
Bounded limit index = (o : Str) → length (members o index) ≤ max 1 limit

pub record IsIndexed (r : StreamRouter) : Type 0 where
  pub distinct : Distinct r.mappings
  pub named : (s : Str) (m : StreamMapping) → HashMap.get s r.mappings ≡ some m → m.stream_id ≡ s
  pub by_device : Indexes (λ m. m.device_id) r.mappings r.device_to_streams
  pub by_controller : Indexes (λ m. m.controller_id) r.mappings r.controller_to_streams
  pub fresh : (n : ℕ) → r.counter ≤ n → HashMap.get (stream_id n) r.mappings ≡ none
  pub device_limit : Bounded r.max_active_streams r.device_to_streams
  pub controller_limit : Bounded r.max_concurrent_streams_per_controller r.controller_to_streams

pub new-IsIndexed : (config : StreamConfig) → IsIndexed (new config)
unfolding new HashMap.get members contains
new-IsIndexed config = record {
  distinct = tt;
  named = λ s m h. absurd (ground arith);
  by_device = λ o s. refl;
  by_controller = λ o s. refl;
  fresh = λ n h. refl;
  device_limit = λ o. omega arith;
  controller_limit = λ o. omega arith;
}

pub stream_id-injective : (m n : ℕ) → stream_id m ≡ stream_id n → m ≡ n
unfolding stream_id
stream_id-injective m n h = to_string-injective m n (append-cancel (str "strm-") h)

-- Adding a new stream to its owner and to the mappings.
module _ (key : StreamMapping → Str) (mappings : HashMap Str StreamMapping)
    (index : HashMap Str (HashSet Str)) where
  pub Indexes-track :
      (m : StreamMapping)
      → Indexes key mappings index
      → HashMap.get m.stream_id mappings ≡ none
      → Indexes key (HashMap.insert m.stream_id m mappings) (track (key m) m.stream_id index)
  Indexes-track m v absent o s = ground (
    arith,
    contains-track (key m) m.stream_id index o s,
    get-insert m.stream_id s m mappings,
    ==_iff m.stream_id s,
    ==_iff (key m) o,
    v o s,
  )

  pub Indexes-untrack :
      (id : Str) (m : StreamMapping)
      → Indexes key mappings index
      → HashMap.get id mappings ≡ some m
      → Indexes key (HashMap.remove id mappings) (untrack (key m) id index)
  Indexes-untrack id m v found o s = ground (
    arith,
    contains-untrack (key m) id index o s,
    get-remove id s mappings,
    ==_iff id s,
    ==_iff (key m) o,
    v o s,
  )

pub Bounded-track :
    (limit : ℕ) (o id : Str) (index : HashMap Str (HashSet Str))
    → Bounded limit index
    → has_room limit o index ≡ true
    → Bounded limit (track o id index)
unfolding has_room members
Bounded-track limit o id index v room k = ground (arith, length-track o id index k, v k, ==_iff o k)

pub Bounded-untrack :
    (limit : ℕ) (o id : Str) (index : HashMap Str (HashSet Str))
    → Bounded limit index
    → Bounded limit (untrack o id index)
Bounded-untrack limit o id index v k = omega (arith, length-untrack o id index k, v k)

module _ (r : StreamRouter) (id : Str) where
  -- Removing a stream keeps the three tables in agreement and the limits respected.
  pub remove_mapping-IsIndexed : IsIndexed r → IsIndexed (remove_mapping r id).1
  unfolding remove_mapping
  remove_mapping-IsIndexed v = elim (Option-cases (HashMap.get id r.mappings)) [
    | inl e ↦ rw (e, remove_mapping) v
    | inr (m, e) ↦
        rw (e, remove_mapping)
          (record {
            distinct = remove-Distinct id r.mappings v.distinct;
            named = λ s x h. v.named s x (ground (arith, get-remove id s r.mappings));
            by_device = Indexes-untrack (λ m. m.device_id) r.mappings _ id m v.by_device e;
            by_controller =
                Indexes-untrack (λ m. m.controller_id) r.mappings _ id m v.by_controller e;
            fresh = λ n h. ground (arith, get-remove id (stream_id n) r.mappings, v.fresh n h);
            device_limit = Bounded-untrack _ m.device_id id _ v.device_limit;
            controller_limit = Bounded-untrack _ m.controller_id id _ v.controller_limit;
          })
  ]
