-- ===== src/Tests/Streams.antt =====
-- The stream router.
use g_rpc_relay.Base.{◌≡◌, ◌≤◌, refl, some, arith, length, eqb, if◌then◌else◌, list_eq, ℕ_eq}
use g_rpc_relay.Collections.HashMap
use g_rpc_relay.Text.{Str, str}
use g_rpc_relay.Stream.{
  StreamMapping, StreamRouter, stream_id, create_mapping, cleanup_stale, begin_request,
  finish_request, stream_program,
}
use g_rpc_relay.Stream.Index.{members}
use g_rpc_relay.Stream.Invariant.{IsIndexed}
use g_rpc_relay.Stream.Create.{create_mapping_bounds}
use g_rpc_relay.Stream.Cleanup.{begin_request_protects}
use g_rpc_relay.Tests.Data.{dev, ctl, router, router-IsIndexed}

abbrev other : Str
other = str "ctl-2"

abbrev first : StreamMapping
first = record {
  stream_id = stream_id 1;
  device_id = dev;
  controller_id = ctl;
  method_name = str "ping";
  created_at = 0;
  last_activity = 0;
  active_requests = 0;
  controller_tx = 7;
}

abbrev created : StreamRouter
created = (create_mapping router dev other (str "ping") 8 5).1

create_mapping_bounds_example :
    IsIndexed created
    × ((o : Str)
        → length (members o created.device_to_streams)
          ≤ (if eqb created.max_active_streams 0 then 1 else created.max_active_streams))
    × ((o : Str)
        → length (members o created.controller_to_streams) ≤ (
            if eqb created.max_concurrent_streams_per_controller 0
            then 1
            else created.max_concurrent_streams_per_controller))
unfolding stream_program
create_mapping_bounds_example =
    create_mapping_bounds router dev other (str "ping") 8 5 router-IsIndexed (omega arith)

begin_request_protects_example :
    (HashMap.get
        (stream_id 1)
        (cleanup_stale (begin_request router (stream_id 1) 3) 999_000_000_000).1.mappings
      ≡ HashMap.get (stream_id 1) (begin_request router (stream_id 1) 3).mappings)
    × (HashMap.get
          (stream_id 1)
          (finish_request
            (begin_request router (stream_id 1) 3)
            (stream_id 1)
            999_000_000_000).mappings
        ≡ some (record first { last_activity = 999_000_000_000 }))
unfolding stream_program
begin_request_protects_example =
    begin_request_protects router (stream_id 1) 3 router-IsIndexed first 999_000_000_000 refl
      (omega arith)
