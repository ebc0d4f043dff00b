-- ===== src/Stream/Create.antt =====
-- crates/relay/src/stream.rs, `create_mapping`: admission, refusal and rollback.
use g_rpc_relay.Base.{
  ℕ, ◌+◌, ◌%◌, ◌≤◌, ◌<◌, ◌≡◌, refl, sym, ap, ◌∙◌, true, false, ◌&&◌, none, some, arith, ==_iff,
  length, inl, inr, Bool-cases, eqb, if◌then◌else◌, ok, err, list_eq, ℕ_eq,
}
use g_rpc_relay.Collections.HashMap
use g_rpc_relay.Collections.HashMap.{HashMap, get-insert, get-insert_self}
use g_rpc_relay.Collections.HashMap.Entries.{insert-Distinct}
use g_rpc_relay.Collections.HashSet.{contains}
use g_rpc_relay.Text.{Str}
use g_rpc_relay.Stream.Index.{
  members, track, untrack, contains-track, contains-untrack, length-track_new,
}
use g_rpc_relay.Stream.{
  StreamMapping, StreamRouter, StreamRouterError, stream_id, has_room, create_mapping, usize_mod,
  limit_error, device_stream_count, max_streams_exceeded,
}
use g_rpc_relay.Stream.Invariant.{
  owned, Indexes, IsIndexed, stream_id-injective, Indexes-track, Bounded-track, Bounded-untrack,
}

module _ (r : StreamRouter) (d c method : Str) (tx now : ℕ) (v : IsIndexed r)
    (small : r.counter + 1 < usize_mod) where
  -- The mapping that the call would store.
  abbrev pub new_mapping : StreamMapping
  new_mapping = record {
    stream_id = stream_id r.counter;
    device_id = d;
    controller_id = c;
    method_name = method;
    created_at = now;
    last_activity = now;
    active_requests = 0;
    controller_tx = tx;
  }

  absent : HashMap.get (stream_id r.counter) r.mappings ≡ none
  absent = v.fresh r.counter (omega arith)

  still_fresh :
      (n : ℕ) → (r.counter + 1) % usize_mod ≤ n → HashMap.get (stream_id n) r.mappings ≡ none
  still_fresh n h = v.fresh n (omega (arith, small))

  -- Undoing what `track` did on a new stream leaves the sets with the members they had.
  Indexes-rollback :
      Indexes
        (λ m. m.device_id)
        r.mappings
        (untrack d (stream_id r.counter) (track d (stream_id r.counter) r.device_to_streams))
  Indexes-rollback o s = ground (
    arith,
    contains-untrack d (stream_id r.counter) (track d (stream_id r.counter) r.device_to_streams) o
        s,
    contains-track d (stream_id r.counter) r.device_to_streams o s,
    ==_iff (stream_id r.counter) s,
    ==_iff d o,
    v.by_device o s,
    absent,
  )

  -- From tables that agree and a counter that does not wrap, `create_mapping` leads to tables that
  -- agree, also when it is refused at the controller's limit after the device's set was changed. An
  -- owner has no more streams than its limit, or one stream where the limit is zero.
  pub create_mapping-IsIndexed : IsIndexed (create_mapping r d c method tx now).1
  unfolding create_mapping
  create_mapping-IsIndexed =
      elim (Bool-cases (has_room r.max_active_streams d r.device_to_streams)) [
        | inr full ↦
            rw (full, create_mapping)
              (record {
                distinct = v.distinct;
                named = v.named;
                by_device = v.by_device;
                by_controller = v.by_controller;
                fresh = still_fresh;
                device_limit = v.device_limit;
                controller_limit = v.controller_limit;
              })
        | inl room ↦
            elim (Bool-cases
              (has_room r.max_concurrent_streams_per_controller c r.controller_to_streams)) [
                | inr full ↦
                    rw (room, full, create_mapping)
                      (record {
                        distinct = v.distinct;
                        named = v.named;
                        by_device = Indexes-rollback;
                        by_controller = v.by_controller;
                        fresh = still_fresh;
                        device_limit =
                            Bounded-untrack _ d (stream_id r.counter) _
                              (Bounded-track _ d (stream_id r.counter) _ v.device_limit room);
                        controller_limit = v.controller_limit;
                      })
                | inl room' ↦
                    rw (room, room', create_mapping)
                      (record {
                        distinct =
                            insert-Distinct (stream_id r.counter) new_mapping r.mappings v.distinct;
                        named = λ s x h. ground (
                          arith,
                          get-insert (stream_id r.counter) s new_mapping r.mappings,
                          ==_iff (stream_id r.counter) s,
                          v.named s x,
                        );
                        by_device =
                            Indexes-track (λ m. m.device_id) r.mappings _ new_mapping v.by_device
                              absent;
                        by_controller =
                            Indexes-track (λ m. m.controller_id) r.mappings _ new_mapping
                              v.by_controller absent;
                        fresh = λ n h. ground (
                          arith,
                          get-insert (stream_id r.counter) (stream_id n) new_mapping r.mappings,
                          ==_iff (stream_id r.counter) (stream_id n),
                          stream_id-injective r.counter n,
                          still_fresh n h,
                        );
                        device_limit =
                            Bounded-track _ d (stream_id r.counter) _ v.device_limit room;
                        controller_limit =
                            Bounded-track _ c (stream_id r.counter) _ v.controller_limit room';
                      })
              ]
      ]

  -- From tables that agree and a counter that does not wrap, `create_mapping` leads to tables that
  -- agree, also when it is refused at the controller's limit after the device's set was changed. A
  -- device or a controller then has no more streams than its limit, if that limit is not zero;
  -- under a limit of zero it has at most one stream.
  pub create_mapping_bounds :
      let q = (create_mapping r d c method tx now).1 in
      IsIndexed q
      × ((o : Str)
          → length (members o q.device_to_streams)
            ≤ (if eqb q.max_active_streams 0 then 1 else q.max_active_streams))
      × ((o : Str)
          → length (members o q.controller_to_streams) ≤ (
              if eqb q.max_concurrent_streams_per_controller 0
              then 1
              else q.max_concurrent_streams_per_controller))
  create_mapping_bounds = (
    create_mapping-IsIndexed,
    λ o. let few = create_mapping-IsIndexed.device_limit o in ground (arith, few),
    λ o. let few = create_mapping-IsIndexed.controller_limit o in ground (arith, few),
  )

  -- When the tables agree, the counter does not wrap, and the device and the controller have room,
  -- a stream is admitted: it gets the next identifier, its mapping is stored, and its device and
  -- its controller have one stream more.
  pub create_mapping_admitted :
      has_room r.max_active_streams d r.device_to_streams ≡ true
      → has_room r.max_concurrent_streams_per_controller c r.controller_to_streams ≡ true
      → let (result, q) = create_mapping r d c method tx now in
        (result ≡ ok (stream_id r.counter))
        × (HashMap.get (stream_id r.counter) q.mappings ≡ some new_mapping)
        × (device_stream_count q d ≡ device_stream_count r d + 1)
        × (length (members c q.controller_to_streams)
            ≡ length (members c r.controller_to_streams) + 1)
  unfolding create_mapping device_stream_count
  create_mapping_admitted room room' =
      rw (room, room', create_mapping)
        (
          refl,
          get-insert_self (stream_id r.counter) new_mapping r.mappings,
          length-track_new d (stream_id r.counter) r.device_to_streams
              (v.by_device d (stream_id r.counter) ∙ ap (owned (λ m. m.device_id) d) absent),
          length-track_new c (stream_id r.counter) r.controller_to_streams (
              v.by_controller c (stream_id r.counter) ∙ ap (owned (λ m. m.controller_id) c) absent),
        )

  -- When the tables agree, the counter does not wrap, and the device or the controller has no
  -- room, the error is `max_streams_exceeded`, the mappings and the controllers' sets are as
  -- before, and the sets of the devices have the members that they had.
  pub create_mapping_refused :
      (has_room r.max_active_streams d r.device_to_streams
          && has_room r.max_concurrent_streams_per_controller c r.controller_to_streams)
        ≡ false
      → let (result, q) = create_mapping r d c method tx now in
        ((e : StreamRouterError) × (result ≡ err e) × (e.kind ≡ max_streams_exceeded))
        × (q.mappings ≡ r.mappings)
        × (q.controller_to_streams ≡ r.controller_to_streams)
        × ((o s : Str)
            → contains s (members o q.device_to_streams)
              ≡ contains s (members o r.device_to_streams))
  unfolding create_mapping limit_error
  create_mapping_refused no_room =
      elim (Bool-cases (has_room r.max_active_streams d r.device_to_streams)) [
        | inr full ↦ rw (full, create_mapping) ((_, refl, refl), refl, refl, λ o s. refl)
        | inl room ↦
            let full : has_room r.max_concurrent_streams_per_controller c r.controller_to_streams
                ≡ false =
              ground arith in
            rw (room, full, create_mapping)
              ((_, refl, refl), refl, refl, λ o s. Indexes-rollback o s ∙ sym (v.by_device o s))
      ]
