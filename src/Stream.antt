-- ===== src/Stream.antt =====
-- crates/relay/src/stream.rs: the router of controller streams. A method returns the new router;
-- the time of `Instant::now()` is an argument, in nanoseconds; a sender is its number.
pub mod Index
pub mod Invariant
pub mod Create
pub mod Removal
pub mod Cleanup
use g_rpc_relay.Base.{
  ℕ, ◌+◌, ◌-◌, ◌*◌, ◌%◌, ◌^◌, max, Bool, true, ◌&&◌, Option, none, some, List, [], ◌∷◌, ◌++◌,
  Result, ok, err, if◌then◌else◌, ltb, leb, eqb, length, list_beq, list_eq, ℕ_eq,
}
use g_rpc_relay.Collections.HashMap
use g_rpc_relay.Collections.HashMap.{HashMap}
use g_rpc_relay.Collections.HashSet
use g_rpc_relay.Collections.HashSet.{HashSet}
use g_rpc_relay.Text.{Str, str}
use g_rpc_relay.Text.Decimal.{to_string}
use Index.{track, untrack, members}

abbrev pub usize_mod : ℕ
usize_mod = 2 ^ 64

abbrev pub second : ℕ
second = 1_000_000_000

pub record StreamConfig : Type 0 where
  pub idle_timeout_seconds : ℕ
  pub max_active_streams : ℕ
  pub max_concurrent_streams_per_controller : ℕ

pub record StreamMapping : Type 0 where
  pub stream_id : Str
  pub device_id : Str
  pub controller_id : Str
  pub method_name : Str
  pub created_at : ℕ
  pub last_activity : ℕ
  pub active_requests : ℕ
  pub controller_tx : ℕ

pub data StreamRouterErrorKind : Type 0 where
  max_streams_exceeded device_offline internal : StreamRouterErrorKind

pub record StreamRouterError : Type 0 where
  pub kind : StreamRouterErrorKind
  pub message : Str

pub record StreamRouter : Type 0 where
  pub counter : ℕ
  pub mappings : HashMap Str StreamMapping
  pub device_to_streams : HashMap Str (HashSet Str)
  pub controller_to_streams : HashMap Str (HashSet Str)
  pub max_active_streams : ℕ
  pub max_concurrent_streams_per_controller : ℕ
  pub idle_timeout : ℕ

unfoldable pub new : StreamConfig → StreamRouter
new config = record {
  counter = 1;
  mappings = [];
  device_to_streams = [];
  controller_to_streams = [];
  max_active_streams = config.max_active_streams;
  max_concurrent_streams_per_controller = config.max_concurrent_streams_per_controller;
  idle_timeout = config.idle_timeout_seconds * second;
}

unfoldable pub cleanup_interval : StreamRouter → ℕ
cleanup_interval r = max r.idle_timeout second

-- `format!("strm-{id}")`
unfoldable pub stream_id : ℕ → Str
stream_id id = str "strm-" ++ to_string id

unfoldable pub generate_stream_id : StreamRouter → Str × StreamRouter
generate_stream_id r = (stream_id r.counter, record r { counter = (r.counter + 1) % usize_mod })

-- The check that both tables make: an owner with no set of streams has room.
unfoldable pub has_room : ℕ → Str → HashMap Str (HashSet Str) → Bool
has_room limit owner index = elim (HashMap.get owner index) [
  | none ↦ true
  | some streams ↦ ltb (length streams) limit
]

unfoldable pub limit_error : Str → Str → ℕ → ℕ → StreamRouterError
limit_error what owner current limit = record {
  kind = max_streams_exceeded;
  message =
      what
      ++ (owner
          ++ (str " has "
              ++ (to_string current
                  ++ (str " active streams (max: " ++ (to_string limit ++ str ")")))));
}

-- The second half of `create_mapping`, after the stream was added to its device: the rollback on
-- a full controller, or the rest of the bookkeeping.
unfoldable pub admit_controller :
    StreamRouter → StreamMapping → Result Str StreamRouterError × StreamRouter
admit_controller r mapping =
    if has_room r.max_concurrent_streams_per_controller owner r.controller_to_streams
    then (
      ok mapping.stream_id,
      record r {
        mappings = HashMap.insert mapping.stream_id mapping r.mappings;
        controller_to_streams = track owner mapping.stream_id r.controller_to_streams;
      },
    )
    else (
      err (
          limit_error (str "controller ") owner (length (members owner r.controller_to_streams))
            r.max_concurrent_streams_per_controller),
      record r {
        device_to_streams = untrack mapping.device_id mapping.stream_id r.device_to_streams;
      },
    )
  where
    owner : Str
    owner = mapping.controller_id

unfoldable pub create_mapping :
    StreamRouter → Str → Str → Str → ℕ → ℕ → Result Str StreamRouterError × StreamRouter
unfolding generate_stream_id admit_controller
create_mapping r device_id controller_id method_name controller_tx now =
    let (id, r1) = generate_stream_id r in
    if has_room r1.max_active_streams device_id r1.device_to_streams
    then admit_controller
        (record r1 { device_to_streams = track device_id id r1.device_to_streams }) (mapping id)
    else (
      err (
          limit_error (str "device ") device_id (length (members device_id r1.device_to_streams))
            r1.max_active_streams),
      r1,
    )
  where
    mapping : Str → StreamMapping
    mapping id = record {
      stream_id = id;
      device_id = device_id;
      controller_id = controller_id;
      method_name = method_name;
      created_at = now;
      last_activity = now;
      active_requests = 0;
      controller_tx = controller_tx;
    }

unfoldable pub remove_mapping : StreamRouter → Str → Option StreamMapping × StreamRouter
remove_mapping r id = elim (HashMap.get id r.mappings) [
  | none ↦ (none, r)
  | some mapping ↦ (
    some mapping,
    record r {
      mappings = HashMap.remove id r.mappings;
      device_to_streams = untrack mapping.device_id id r.device_to_streams;
      controller_to_streams = untrack mapping.controller_id id r.controller_to_streams;
    },
  )
]

-- One round of the loop of `remove_all_for_device`.
unfoldable pub drop_stream : Str → StreamRouter → StreamRouter
drop_stream id r = record r {
  mappings = HashMap.remove id r.mappings;
  controller_to_streams = elim (HashMap.get id r.mappings) [
    | none ↦ r.controller_to_streams
    | some mapping ↦ untrack mapping.controller_id id r.controller_to_streams
  ];
}

unfoldable pub remove_streams : List Str → StreamRouter → List StreamMapping × StreamRouter
remove_streams [] r = ([], r)
remove_streams (id ∷ ids) r =
    let (rest, r1) = remove_streams ids (drop_stream id r) in
    (elim (HashMap.get id r.mappings) [ none ↦ rest | some mapping ↦ mapping ∷ rest ], r1)

unfoldable pub remove_all_for_device : StreamRouter → Str → List StreamMapping × StreamRouter
remove_all_for_device r device_id = elim (HashMap.get device_id r.device_to_streams) [
  | none ↦ ([], r)
  | some ids ↦
      remove_streams ids
        (record r { device_to_streams = HashMap.remove device_id r.device_to_streams })
]

-- `filter_map` of `mappings.get` over the streams of the device.
unfoldable pub lookup_streams : List Str → StreamRouter → List StreamMapping
lookup_streams [] r = []
lookup_streams (id ∷ ids) r =
    let rest = lookup_streams ids r in
    elim (HashMap.get id r.mappings) [ none ↦ rest | some mapping ↦ mapping ∷ rest ]

unfoldable pub get_mappings_for_device : StreamRouter → Str → List StreamMapping
get_mappings_for_device r device_id = lookup_streams (members device_id r.device_to_streams) r

unfoldable pub device_stream_count : StreamRouter → Str → ℕ
device_stream_count r device_id = length (members device_id r.device_to_streams)

unfoldable pub total_active_streams : StreamRouter → ℕ
total_active_streams r = length r.mappings

unfoldable pub has_active_streams : StreamRouter → Str → Bool
has_active_streams r device_id = ltb 0 (device_stream_count r device_id)

unfoldable pub touch_stream : StreamRouter → Str → ℕ → StreamRouter
touch_stream r id now = record r {
  mappings = HashMap.modify id (λ m. record m { last_activity = now }) r.mappings;
}

-- The changes that the two methods below make to a mapping.
abbrev pub begun : ℕ → StreamMapping → StreamMapping
begun now m = record m {
  last_activity = now;
  active_requests = (m.active_requests + 1) % usize_mod;
}

abbrev pub finished : ℕ → StreamMapping → StreamMapping
finished now m = record m { last_activity = now; active_requests = m.active_requests - 1 }

unfoldable pub begin_request : StreamRouter → Str → ℕ → StreamRouter
begin_request r id now = record r { mappings = HashMap.modify id (begun now) r.mappings }

unfoldable pub finish_request : StreamRouter → Str → ℕ → StreamRouter
finish_request r id now = record r { mappings = HashMap.modify id (finished now) r.mappings }

-- `saturating_duration_since` is `-` on the natural numbers.
unfoldable pub is_stale : ℕ → ℕ → StreamMapping → Bool
is_stale idle_timeout now m = eqb m.active_requests 0 && leb idle_timeout (now - m.last_activity)

unfoldable pub stale_ids : ℕ → ℕ → HashMap Str StreamMapping → List Str
stale_ids idle_timeout now [] = []
stale_ids idle_timeout now ((_, m) ∷ ms) =
    let rest = stale_ids idle_timeout now ms in
    if is_stale idle_timeout now m then m.stream_id ∷ rest else rest

unfoldable pub remove_each : List Str → StreamRouter → List StreamMapping × StreamRouter
remove_each [] r = ([], r)
remove_each (id ∷ ids) r =
    let (found, r1) = remove_mapping r id in
    let (rest, r2) = remove_each ids r1 in
    (elim found [ none ↦ rest | some mapping ↦ mapping ∷ rest ], r2)

unfoldable pub cleanup_stale : StreamRouter → ℕ → List StreamMapping × StreamRouter
cleanup_stale r now = remove_each (stale_ids r.idle_timeout now r.mappings) r

-- Opens the whole router, for tests.
unfoldable pub stream_program : Unit {0}
unfolding track untrack members new cleanup_interval stream_id generate_stream_id has_room
    limit_error admit_controller create_mapping remove_mapping drop_stream remove_streams
    remove_all_for_device lookup_streams get_mappings_for_device device_stream_count
    total_active_streams has_active_streams touch_stream begin_request finish_request is_stale
    stale_ids remove_each cleanup_stale to_string HashMap.get HashMap.insert HashMap.remove
    HashMap.modify HashSet.contains HashSet.insert HashSet.remove list_beq
stream_program = tt
