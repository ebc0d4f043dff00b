-- ===== src/Stream/Removal.antt =====
-- crates/relay/src/stream.rs: a disconnect and the clean-up of idle streams.
use g_rpc_relay.Base.{
  ℕ, not, ◌≤◌, ◌≡◌, refl, sym, ◌∙◌, Bool, true, Option, none, some, List, [], ◌∷◌, arith,
  if◌then◌else◌, ◌==◌, ==_iff, inl, inr, Option-cases, list_eq, ℕ_eq,
}
use g_rpc_relay.Collections.HashMap
use g_rpc_relay.Collections.HashMap.{HashMap, get-remove}
use g_rpc_relay.Collections.HashMap.Entries.{Distinct, remove-Distinct, remove_absent}
use g_rpc_relay.Collections.HashSet.{contains}
use g_rpc_relay.Text.{Str}
use g_rpc_relay.Stream.Index.{members}
use g_rpc_relay.Stream.{
  StreamMapping, StreamRouter, stream_id, drop_stream, remove_streams, remove_all_for_device,
}
use g_rpc_relay.Stream.Invariant.{
  owned, Indexes, Bounded, IsIndexed, Indexes-untrack, Bounded-untrack,
}

-- The first mapping of a list that has an identifier.
unfoldable pub find_stream : Str → List StreamMapping → Option StreamMapping
find_stream s [] = none
find_stream s (m ∷ ms) = if m.stream_id == s then some m else find_stream s ms

abbrev pub only_if : (StreamMapping → Bool) → Option StreamMapping → Option StreamMapping
only_if p none = none
only_if p (some m) = if p m then some m else none

abbrev Named : HashMap Str StreamMapping → Type 0
Named ms = (s : Str) (m : StreamMapping) → HashMap.get s ms ≡ some m → m.stream_id ≡ s

remove-Named : (id : Str) (ms : HashMap Str StreamMapping) → Named ms → Named (HashMap.remove id ms)
remove-Named id ms h s m e = h s m (ground (arith, get-remove id s ms))

get-remove_streams :
    (ids : List Str) (r : StreamRouter) (s : Str)
    → HashMap.get s (remove_streams ids r).1.mappings
      ≡ (if contains s ids then none else HashMap.get s r.mappings)
unfolding remove_streams drop_stream contains
get-remove_streams [] r s = refl
get-remove_streams (id ∷ ids) r s =
    ground
      (arith, get-remove_streams ids (drop_stream id r) s, get-remove id s r.mappings, ==_iff id s)

find-remove_streams :
    (ids : List Str) (r : StreamRouter) (s : Str)
    → Named r.mappings
    → find_stream s (remove_streams ids r).0
      ≡ (if contains s ids then HashMap.get s r.mappings else none)
unfolding remove_streams drop_stream contains find_stream
find-remove_streams [] r s named = refl
find-remove_streams (id ∷ ids) r s named =
    let later = find-remove_streams ids (drop_stream id r) s (remove-Named id r.mappings named) in
    elim (Option-cases (HashMap.get id r.mappings)) [
      | inl e ↦ ground (arith, later, e, get-remove id s r.mappings, ==_iff id s)
      | inr (m, e) ↦ ground (arith, later, e, named id m e, get-remove id s r.mappings, ==_iff id s)
    ]

-- What the loop of `remove_all_for_device` keeps while the device's own set is already gone.
record IsHalfIndexed (r : StreamRouter) : Type 0 where
  distinct : Distinct r.mappings
  named : Named r.mappings
  by_controller : Indexes (λ m. m.controller_id) r.mappings r.controller_to_streams
  fresh : (n : ℕ) → r.counter ≤ n → HashMap.get (stream_id n) r.mappings ≡ none
  controller_limit : Bounded r.max_concurrent_streams_per_controller r.controller_to_streams

drop_stream-IsHalfIndexed :
    (id : Str) (r : StreamRouter) → IsHalfIndexed r → IsHalfIndexed (drop_stream id r)
unfolding drop_stream
drop_stream-IsHalfIndexed id r v = elim (Option-cases (HashMap.get id r.mappings)) [
  | inl e ↦
      rw (e, drop_stream, remove_absent id r.mappings e)
        (record {
          distinct = v.distinct;
          named = v.named;
          by_controller = v.by_controller;
          fresh = v.fresh;
          controller_limit = v.controller_limit;
        })
  | inr (m, e) ↦
      rw (e, drop_stream)
        (record {
          distinct = remove-Distinct id r.mappings v.distinct;
          named = remove-Named id r.mappings v.named;
          by_controller =
              Indexes-untrack (λ m. m.controller_id) r.mappings _ id m v.by_controller e;
          fresh = λ n h. ground (arith, get-remove id (stream_id n) r.mappings, v.fresh n h);
          controller_limit = Bounded-untrack _ m.controller_id id _ v.controller_limit;
        })
]

remove_streams-IsHalfIndexed :
    (ids : List Str) (r : StreamRouter)
    → IsHalfIndexed r
    → IsHalfIndexed (remove_streams ids r).1
      × ((remove_streams ids r).1.device_to_streams ≡ r.device_to_streams)
      × ((remove_streams ids r).1.max_active_streams ≡ r.max_active_streams)
unfolding remove_streams
remove_streams-IsHalfIndexed [] r v = (v, refl, refl)
remove_streams-IsHalfIndexed (id ∷ ids) r v =
    let (half, devices, limit) =
      remove_streams-IsHalfIndexed ids (drop_stream id r) (drop_stream-IsHalfIndexed id r v) in
    (half, devices ∙ kept.0, limit ∙ kept.1)
  where
    kept :
        ((drop_stream id r).device_to_streams ≡ r.device_to_streams)
        × ((drop_stream id r).max_active_streams ≡ r.max_active_streams)
    kept = unfold drop_stream in (refl, refl)

-- No stream belongs to two devices.
owned_twice :
    (d o : Str) (m : Option StreamMapping)
    → owned (λ m. m.device_id) d m ≡ true
    → owned (λ m. m.device_id) o m ≡ true
    → d ≡ o
owned_twice d o none h k = cc
owned_twice d o (some m) h k = sym ((==_iff m.device_id d).0 h) ∙ (==_iff m.device_id o).0 k

module _ (r : StreamRouter) (d : Str) (v : IsIndexed r) where
  -- When the tables agree, `remove_all_for_device` removes every stream of the device and no
  -- other, and the first stream under an identifier in what it returns is the one that it removed.
  pub remove_all_for_device_lem :
      (s : Str)
      → let (removed, q) = remove_all_for_device r d in
        (HashMap.get s q.mappings
          ≡ only_if (λ m. not (m.device_id == d)) (HashMap.get s r.mappings))
        × (find_stream s removed ≡ only_if (λ m. m.device_id == d) (HashMap.get s r.mappings))
  unfolding remove_all_for_device members find_stream contains
  remove_all_for_device_lem s = elim (Option-cases (HashMap.get d r.device_to_streams)) [
    | inl e ↦ ground (arith, v.by_device d s)
    | inr (ids, e) ↦
        let q = record r { device_to_streams = HashMap.remove d r.device_to_streams } in
        ground
          (arith, v.by_device d s, get-remove_streams ids q s, find-remove_streams ids q s v.named)
  ]

  -- The tables agree again afterwards, and the limits hold.
  pub remove_all_for_device-IsIndexed : IsIndexed (remove_all_for_device r d).1
  unfolding remove_all_for_device members contains
  remove_all_for_device-IsIndexed = elim (Option-cases (HashMap.get d r.device_to_streams)) [
    | inl e ↦ rw (e, remove_all_for_device) v
    | inr (ids, e) ↦
        let q = record r { device_to_streams = HashMap.remove d r.device_to_streams } in
        let (half, devices, limit) = remove_streams-IsHalfIndexed ids q (record {
          distinct = v.distinct;
          named = v.named;
          by_controller = v.by_controller;
          fresh = v.fresh;
          controller_limit = v.controller_limit;
        }) in
        rw (e, remove_all_for_device)
          (record {
            distinct = half.distinct;
            named = half.named;
            by_device = λ o s. ground (
              arith,
              devices,
              v.by_device o s,
              v.by_device d s,
              get-remove d o r.device_to_streams,
              get-remove_streams ids q s,
              ==_iff d o,
              owned_twice d o (HashMap.get s r.mappings),
            );
            by_controller = half.by_controller;
            fresh = half.fresh;
            device_limit = λ o.
                ground
                  (arith, devices, limit, get-remove d o r.device_to_streams, v.device_limit o);
            controller_limit = half.controller_limit;
          })
  ]
