-- ===== src/DeviceStream/Frames.antt =====
-- crates/relay/src/grpc_service.rs: what the helpers of the device loop leave alone.
use g_rpc_relay.Base.{◌≡◌, refl, ◌∙◌, List, [], ◌∷◌, arith, list_eq, ℕ_eq}
use g_rpc_relay.Text.{Str}
use g_rpc_relay.Stream.{StreamMapping}
use g_rpc_relay.State.{RelayState}
use g_rpc_relay.State.Inflight.{Delivery}
use g_rpc_relay.Stream.{StreamRouter}
use g_rpc_relay.Service.{Relay, Event, AuditEvent, emit, audited, published, deliver_all}
use g_rpc_relay.DeviceStream.{reject, accept, notify_idle}

-- The state and the router: what the other streams see.
abbrev pub shared : Relay → RelayState × StreamRouter
shared r = (r.state, r.router)

pub shared-audited : (e : AuditEvent) (r : Relay) → shared (audited e r) ≡ shared r
unfolding audited
shared-audited e r = ground arith

pub shared-published : (e : Event) (r : Relay) → shared (published e r) ≡ shared r
unfolding published
shared-published e r = ground arith

pub shared-emit : (e : Event) (r : Relay) → shared (emit e r) ≡ shared r
unfolding emit
shared-emit e r = refl

pub shared-reject : (r : Relay) (d t reason : Str) → shared (reject r d t reason) ≡ shared r
unfolding reject
shared-reject r d t reason = shared-audited _ _

pub shared-accept : (r : Relay) (d : Str) → shared (accept r d) ≡ shared r
unfolding accept
shared-accept r d = shared-audited _ _

pub shared-notify_idle :
    (d : Str) (ms : List StreamMapping) (r : Relay) → shared (notify_idle d ms r) ≡ shared r
unfolding notify_idle emit
shared-notify_idle d [] r = refl
shared-notify_idle d (m ∷ ms) r = shared-notify_idle d ms _ ∙ ground arith

pub shared-deliver_all : (ds : List Delivery) (r : Relay) → shared (deliver_all ds r) ≡ shared r
unfolding deliver_all
shared-deliver_all ds r = refl
