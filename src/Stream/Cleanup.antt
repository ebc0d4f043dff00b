-- ===== src/Stream/Cleanup.antt =====
-- crates/relay/src/stream.rs: the counts of requests in progress, and the clean-up of idle streams.
use g_rpc_relay.Base.{
  ℕ, not, ◌+◌, ◌<◌, ◌≡◌, refl, ap, ◌∙◌, Bool, false, none, some, List, [], ◌∷◌, arith,
  if◌then◌else◌, ◌==◌, ==_iff, ==_refl, inl, inr, Option-cases, list_eq, ℕ_eq,
}
use g_rpc_relay.Collections.HashMap
use g_rpc_relay.Collections.HashMap.{HashMap, get-remove, get-modify, get-modify_self}
use g_rpc_relay.Collections.HashMap.Entries.{Distinct, modify-Distinct}
use g_rpc_relay.Collections.HashSet.{contains}
use g_rpc_relay.Text.{Str}
use g_rpc_relay.Stream.{
  StreamMapping, StreamRouter, stream_id, remove_mapping, usize_mod, is_stale, stale_ids,
  remove_each, cleanup_stale, touch_stream, begin_request, finish_request, begun, finished,
}
use g_rpc_relay.Stream.Invariant.{IsIndexed, remove_mapping-IsIndexed}
use g_rpc_relay.Stream.Removal.{find_stream, only_if}

get-remove_mapping :
    (r : StreamRouter) (id s : Str)
    → HashMap.get s (remove_mapping r id).1.mappings
      ≡ (if id == s then none else HashMap.get s r.mappings)
unfolding remove_mapping
get-remove_mapping r id s = ground (arith, get-remove id s r.mappings, ==_iff id s)

remove_each_lem :
    (ids : List Str) (r : StreamRouter) (s : Str)
    → IsIndexed r
    → (HashMap.get s (remove_each ids r).1.mappings
        ≡ (if contains s ids then none else HashMap.get s r.mappings))
      × (find_stream s (remove_each ids r).0
          ≡ (if contains s ids then HashMap.get s r.mappings else none))
unfolding remove_each contains find_stream remove_mapping
remove_each_lem [] r s v = (refl, refl)
remove_each_lem (id ∷ ids) r s v =
    let later = remove_each_lem ids (remove_mapping r id).1 s (remove_mapping-IsIndexed r id v) in
    elim (Option-cases (HashMap.get id r.mappings)) [
      | inl e ↦ ground (arith, later, e, get-remove_mapping r id s, ==_iff id s)
      | inr (m, e) ↦
          ground (arith, later, e, v.named id m e, get-remove_mapping r id s, ==_iff id s)
    ]

remove_each-IsIndexed :
    (ids : List Str) (r : StreamRouter) → IsIndexed r → IsIndexed (remove_each ids r).1
unfolding remove_each
remove_each-IsIndexed [] r v = v
remove_each-IsIndexed (id ∷ ids) r v =
    remove_each-IsIndexed ids (remove_mapping r id).1 (remove_mapping-IsIndexed r id v)

contains-stale_ids :
    (timeout now : ℕ) (ms : HashMap Str StreamMapping) (s : Str)
    → Distinct ms
    → ((s : Str) (m : StreamMapping) → HashMap.get s ms ≡ some m → m.stream_id ≡ s)
    → contains s (stale_ids timeout now ms)
      ≡ elim (HashMap.get s ms) as (λ _. Bool) [ none ↦ false | some m ↦ is_stale timeout now m ]
unfolding stale_ids contains HashMap.get
contains-stale_ids timeout now [] s d named = refl
contains-stale_ids timeout now ((k, m) ∷ ms) s d named = ground (
  arith,
  contains-stale_ids timeout now ms s d.1 (λ j x e. named j x (ground (arith, ==_iff k j))),
  named k m (rw (==_refl k)),
  ==_iff k s,
  ==_iff m.stream_id s,
)

module _ (r : StreamRouter) (now : ℕ) (v : IsIndexed r) where
  -- When the tables agree, the clean-up removes the streams that have no request in progress and
  -- were idle for the timeout, keeps all others, and the first stream under an identifier in what
  -- it returns is the one that it removed.
  pub cleanup_stale_lem :
      (s : Str)
      → let (removed, q) = cleanup_stale r now in
        (HashMap.get s q.mappings
          ≡ only_if (λ m. not (is_stale r.idle_timeout now m)) (HashMap.get s r.mappings))
        × (find_stream s removed
            ≡ only_if (λ m. is_stale r.idle_timeout now m) (HashMap.get s r.mappings))
  unfolding cleanup_stale
  cleanup_stale_lem s = ground (
    arith,
    remove_each_lem (stale_ids r.idle_timeout now r.mappings) r s v,
    contains-stale_ids r.idle_timeout now r.mappings s v.distinct v.named,
  )

  pub cleanup_stale-IsIndexed : IsIndexed (cleanup_stale r now).1
  unfolding cleanup_stale
  cleanup_stale-IsIndexed = remove_each-IsIndexed (stale_ids r.idle_timeout now r.mappings) r v

-- A change to a mapping that keeps who it belongs to.
module _ (r : StreamRouter) (id : Str) (f : StreamMapping → StreamMapping) where
  modify-IsIndexed :
      ((m : StreamMapping)
        → ((f m).stream_id ≡ m.stream_id)
          × ((f m).device_id ≡ m.device_id)
          × ((f m).controller_id ≡ m.controller_id))
      → IsIndexed r
      → IsIndexed (record r { mappings = HashMap.modify id f r.mappings })
  modify-IsIndexed same v = record {
    distinct = modify-Distinct id f r.mappings v.distinct;
    named = λ s m h. elim (Option-cases (HashMap.get s r.mappings)) [
      | inl e ↦ absurd (ground (arith, get-modify id s f r.mappings, e))
      | inr (x, e) ↦ ground (arith, get-modify id s f r.mappings, e, same x, v.named s x e)
    ];
    by_device = λ o s. elim (Option-cases (HashMap.get s r.mappings)) [
      | inl e ↦ ground (arith, get-modify id s f r.mappings, e, v.by_device o s)
      | inr (x, e) ↦ ground (arith, get-modify id s f r.mappings, e, same x, v.by_device o s)
    ];
    by_controller = λ o s. elim (Option-cases (HashMap.get s r.mappings)) [
      | inl e ↦ ground (arith, get-modify id s f r.mappings, e, v.by_controller o s)
      | inr (x, e) ↦ ground (arith, get-modify id s f r.mappings, e, same x, v.by_controller o s)
    ];
    fresh = λ n h. ground (arith, get-modify id (stream_id n) f r.mappings, v.fresh n h);
    device_limit = v.device_limit;
    controller_limit = v.controller_limit;
  }

module _ (r : StreamRouter) (id : Str) (now : ℕ) (v : IsIndexed r) where
  pub begin_request-IsIndexed : IsIndexed (begin_request r id now)
  unfolding begin_request
  begin_request-IsIndexed = modify-IsIndexed r id _ (λ m. (refl, refl, refl)) v

  pub finish_request-IsIndexed : IsIndexed (finish_request r id now)
  unfolding finish_request
  finish_request-IsIndexed = modify-IsIndexed r id _ (λ m. (refl, refl, refl)) v

  pub touch_stream-IsIndexed : IsIndexed (touch_stream r id now)
  unfolding touch_stream
  touch_stream-IsIndexed = modify-IsIndexed r id _ (λ m. (refl, refl, refl)) v

  -- When the tables agree and the count of a stream's requests can grow by one, the stream
  -- survives any clean-up after `begin_request`, however late, with its mapping unchanged;
  -- `finish_request` gives the mapping back as it was but for the time of its last activity.
  pub begin_request_protects :
      (m : StreamMapping) (later : ℕ)
      → HashMap.get id r.mappings ≡ some m
      → m.active_requests + 1 < usize_mod
      → let busy = begin_request r id now in
        (HashMap.get id (cleanup_stale busy later).1.mappings ≡ HashMap.get id busy.mappings)
        × (HashMap.get id (finish_request busy id later).mappings
            ≡ some (record m { last_activity = later }))
  unfolding begin_request finish_request is_stale
  begin_request_protects m later found small =
      let busy = get-modify_self id (begun now) m r.mappings found in
      let idle =
        get-modify_self id (finished later) (begun now m) (begin_request r id now).mappings busy in
      (
        (cleanup_stale_lem (begin_request r id now) later begin_request-IsIndexed id).0
            ∙ ground (arith, busy, small),
        idle ∙ ap some (restored m later small),
      )
    where
      restored :
          (m : StreamMapping) (later : ℕ)
          → m.active_requests + 1 < usize_mod
          → finished later (begun now m) ≡ record m { last_activity = later }
      restored m later small = ground arith
