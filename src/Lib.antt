-- ===== src/Lib.antt =====
-- gRPC-Relay: crates/relay, a relay between devices, which keep a stream open to it, and
-- controllers, which open a stream per device and send requests that the relay forwards; and the
-- libraries for devices and for controllers, crates/device-sdk and crates/controller-sdk.
--
-- How the parts interact. A device stream (crates/relay/src/grpc_service.rs,
-- `run_device_connect_stream`) authenticates the device, installs its session in the shared state
-- and hands each response of the device to the controllers that wait for it; when it ends, it
-- completes the requests in flight and removes the streams of the device. A controller stream
-- (`run_connect_to_device_stream`) checks its first message, opens a stream in the router, and has
-- each request wait in the in-flight table. Both kinds of streams meet in the shared state and in
-- the stream router.
--
--   Base, Collections, Text   what the modules share: Boolean tests, lists, options, results, maps
--                             as association lists, texts as lists of code points
--   Proto                     crates/relay-proto/proto/relay/v1/relay.proto: the messages
--   State                     crates/relay/src/state.rs: `RelayState` with its maps as fields; a
--                             method returns the new state. State/Sessions is about the session
--                             maps, State/Waiters and State/Disconnect are about the in-flight table
--   Stream                    crates/relay/src/stream.rs: `StreamRouter`, a method per function
--   RateLimiter               crates/relay/src/rate_limiter.rs: its three limiters
--   Auth, Rbac, Validator     crates/relay/src/auth.rs, rbac.rs and validator.rs
--   Service                   crates/relay/src/grpc_service.rs, `RelayGrpcService`: the shared parts
--                             and the log of what handlers send out; Service/Metrics is
--                             crates/relay/src/security_metrics.rs
--   DeviceStream              crates/relay/src/grpc_service.rs, `run_device_connect_stream`: a round
--                             of the loop for each thing it can receive, and what follows the loop
--   Session                   crates/relay/src/session.rs: a view of the shared state
--   ControllerStream          crates/relay/src/grpc_service.rs, `run_connect_to_device_stream`: a
--                             message leads to `continue` or to the wait for the device, and the
--                             end of the wait is a function of its own, since other streams run
--                             during it
--   Handlers                  crates/relay/src/grpc_service.rs, `list_online_devices` and
--                             `revoke_token`
--   Interleaving              the rounds of all streams, the timeouts and the clean-up task as steps
--                             on one relay, and what is reachable; Interleaving/AtMostOnce counts
--                             the responses that a channel gets
--   Mqtt                      crates/relay/src/mqtt.rs: the publisher's bounded channel, a turn of
--                             `run_mqtt_session`, the worker's loop and the broker's address
--   Audit                     crates/relay/src/audit.rs: Audit/Files is the file writer, Audit/Logger
--                             the logger with its methods
--   Alerting                  crates/relay/src/alerting.rs: the rules at a tick
--   Health                    crates/relay/src/observability.rs: the health report and its gauges
--   ControllerSdk             crates/controller-sdk/src: the pending requests of a session and
--                             `send_request`, and the configuration
--   DeviceSdk                 crates/device-sdk/src: `connect_once`, the loop of `run`, the back-off
--                             and the configuration
--   Text/Split, Text/Decimal  the methods of `str` that split a text, and numbers in decimal
--   EndToEnd                  a request's way through the device's library, the relay's device stream
--                             and the controller's library
--   Tests                     the theorems at concrete inputs
--
-- Conventions. Time is an argument, in nanoseconds, wherever the code reads a clock; the device's
-- library counts milliseconds. A channel is a number. Maps keep an order that the code does not
-- promise; what is stated is about look-ups, counts and memberships. A 64-bit counter wraps around
-- where the code's does. The token buckets count shares of a token that are fine enough for the
-- numbers of the code's f64; what its rounding makes of a refill is a parameter. A lock is taken
-- as never poisoned. A handler runs a round at a time: the interleaving of the rounds of several
-- streams is a sequence of rounds on the shared state. A publisher of the MQTT queue and its
-- worker interleave between try_send and the update of the gauge.
--
-- No recursion needs fuel but that on the digits of a number (Text/Decimal), where the fuel is the
-- number's successor: each digit taken divides it by ten.
--
-- Parameters. The JWT library is the function `decode` of Auth. The health of the machine, the
-- answer of the idempotency cache (a third-party LRU cache) and whether a channel takes a message
-- are arguments of a round. So are what the MQTT client, a gRPC channel and the device's handler
-- answer. Of floating-point numbers, a refill of a token bucket is the function `refill` of
-- RateLimiter/Requests, the product of a delay and its jitter is the function `jittered`
-- of DeviceSdk/Backoff, what the alerts compare is the record `Floats` of Alerting, and the gauges'
-- values are a type of Health.
--
-- Not modelled: the wrapper `connect_to_device`, which only spawns the loop; idempotency.rs, which
-- wraps a third-party cache; the configuration file, logging, the resource monitor and TLS; the
-- telemetry of the MQTT worker; I/O errors of the audit files other than a failed rename; the HTTP
-- server and the export of metrics. Of the two client libraries, the set-up of a gRPC channel, `load`
-- of the device's, and the unary calls of the controller's.
pub mod Base
pub mod Collections
pub mod Text
pub mod Proto
pub mod State
pub mod Stream
pub mod RateLimiter
pub mod Auth
pub mod Rbac
pub mod Validator
pub mod Service
pub mod Session
pub mod DeviceStream
pub mod ControllerStream
pub mod Handlers
pub mod Interleaving
pub mod Audit
pub mod Alerting
pub mod Health
pub mod Mqtt
pub mod ControllerSdk
pub mod DeviceSdk
pub mod EndToEnd
pub mod Tests
