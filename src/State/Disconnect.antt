-- ===== src/State/Disconnect.antt =====
-- crates/relay/src/state.rs, `take_inflight_for_device`: what a disconnect takes from the in-flight
-- table.
use g_rpc_relay.Base.{
  ℕ, ◌+◌, ◌≡◌, refl, ◌&&◌, ℤ, none, List, [], ◌∷◌, arith, if◌then◌else◌, ◌==◌, ==_iff, list_eq,
  ℕ_eq, ℤ_eq, pair_eq,
}
use g_rpc_relay.Collections.HashMap
use g_rpc_relay.Collections.HashMap.{HashMap, get-remove}
use g_rpc_relay.Collections.HashSet.{contains}
use g_rpc_relay.Text.{Str}
use g_rpc_relay.State.Inflight.{InFlight}
use g_rpc_relay.State.{
  RelayState, DeviceSession, take_inflight, inflight_keys, take_keys, take_inflight_for_device,
}
use g_rpc_relay.State.Waiters.{
  count, pending, IsTable, WellKeyed, take_inflight-IsTable, take_inflight-pending,
}

-- The channels that wait in entries that were taken.
unfoldable pub waiting : ℕ → List (ℤ × InFlight) → ℕ
waiting k [] = 0
waiting k ((seq, f) ∷ fs) = count k f.waiters + waiting k fs

pub take_keys-IsTable :
    (keys : List (Str × ℤ)) (s : RelayState) → IsTable s → IsTable (take_keys keys s).1
unfolding take_keys
take_keys-IsTable [] s v = v
take_keys-IsTable ((d, seq) ∷ keys) s v =
    take_keys-IsTable keys (take_inflight s d seq).1 (take_inflight-IsTable s seq d v)

pub take_keys-pending :
    (k : ℕ) (keys : List (Str × ℤ)) (s : RelayState)
    → IsTable s
    → pending k (take_keys keys s).1 + waiting k (take_keys keys s).0 ≡ pending k s
unfolding take_keys waiting
take_keys-pending k [] s v = omega arith
take_keys-pending k ((d, seq) ∷ keys) s v = ground (
  arith,
  take_inflight-pending s seq d k v,
  take_keys-pending k keys (take_inflight s d seq).1 (take_inflight-IsTable s seq d v),
)

contains-inflight_keys :
    (d : Str) (k : Str × ℤ) (m : HashMap (Str × ℤ) InFlight)
    → WellKeyed m
    → contains k (inflight_keys d m) ≡ (k.0 == d && HashMap.contains_key k m)
unfolding inflight_keys contains HashMap.get
contains-inflight_keys d k [] w = ground arith
contains-inflight_keys d k ((j, f) ∷ m) w =
    ground (arith, contains-inflight_keys d k m w.1, ==_iff j k, ==_iff f.device_id d, ==_iff k.0 d)

get-take_keys :
    (k : Str × ℤ) (keys : List (Str × ℤ)) (s : RelayState)
    → HashMap.get k (take_keys keys s).1.inflight_by_sequence
      ≡ (if contains k keys then none else HashMap.get k s.inflight_by_sequence)
unfolding take_keys contains
get-take_keys k [] s = refl
get-take_keys k ((d, seq) ∷ keys) s = ground (
  arith,
  get-take_keys k keys (take_inflight s d seq).1,
  get-remove (d, seq) k s.inflight_by_sequence,
  ==_iff (d, seq) k,
)

module _ (s : RelayState) (d : Str) (v : IsTable s) where
  -- In a table that is keyed by device, a disconnect takes every entry of its device and leaves
  -- every other one.
  pub get-take_inflight_for_device :
      (k : Str × ℤ)
      → HashMap.get k (take_inflight_for_device s d).1.inflight_by_sequence
        ≡ (if k.0 == d then none else HashMap.get k s.inflight_by_sequence)
  unfolding take_inflight_for_device
  get-take_inflight_for_device k = ground (
    arith,
    get-take_keys k (inflight_keys d s.inflight_by_sequence) s,
    contains-inflight_keys d k s.inflight_by_sequence v.keyed,
  )

  pub take_inflight_for_device-pending :
      (k : ℕ)
      → pending k (take_inflight_for_device s d).1 + waiting k (take_inflight_for_device s d).0
        ≡ pending k s
  unfolding take_inflight_for_device
  take_inflight_for_device-pending k =
      take_keys-pending k (inflight_keys d s.inflight_by_sequence) s v

  pub take_inflight_for_device-IsTable : IsTable (take_inflight_for_device s d).1
  unfolding take_inflight_for_device
  take_inflight_for_device-IsTable = take_keys-IsTable (inflight_keys d s.inflight_by_sequence) s v

-- Taking entries leaves the rest of the state alone.
abbrev pub rest_of : RelayState → record {
  sessions : HashMap Str DeviceSession;
  connections : HashMap Str Str;
  seen : HashMap Str ℕ;
  counter : ℕ;
  controllers : ℕ;
}
rest_of s = record {
  sessions = s.sessions_by_device_id;
  connections = s.connection_to_device_id;
  seen = s.device_last_seen;
  counter = s.connection_id_counter;
  controllers = s.controller_connection_count;
}

rest_of-take_keys :
    (keys : List (Str × ℤ)) (s : RelayState) → rest_of (take_keys keys s).1 ≡ rest_of s
unfolding take_keys take_inflight
rest_of-take_keys [] s = refl
rest_of-take_keys ((d, seq) ∷ keys) s = rest_of-take_keys keys (take_inflight s d seq).1

pub rest_of-take_inflight_for_device :
    (s : RelayState) (d : Str) → rest_of (take_inflight_for_device s d).1 ≡ rest_of s
unfolding take_inflight_for_device
rest_of-take_inflight_for_device s d = rest_of-take_keys (inflight_keys d s.inflight_by_sequence) s
