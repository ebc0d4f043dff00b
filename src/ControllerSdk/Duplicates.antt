-- ===== src/ControllerSdk/Duplicates.antt =====
-- crates/controller-sdk/src/connect.rs: two calls at once with one sequence number.
use g_rpc_relay.Base.{
  ℕ, ◌≡◌, refl, ap, ◌∙◌, ◌≢◌, Bool, true, false, ◌&&◌, Option, none, some, List, ℤ, err, arith,
  if◌then◌else◌, ltb, length, list_eq, ℕ_eq, ℤ_eq,
}
use g_rpc_relay.Collections.HashMap
use g_rpc_relay.Collections.HashMap.{
  HashMap, get-insert_self, get-insert_ne, get-remove_self, get-modify, get-modify_self,
}
use g_rpc_relay.Text.{Str}
use g_rpc_relay.Proto.{DeviceResponse}
use g_rpc_relay.ControllerSdk.{ControllerSdkError, stream_closed}
use g_rpc_relay.ControllerSdk.Matching.{get-drop_sender}
use g_rpc_relay.ControllerSdk.Session.{
  SequenceResult, Channel, waiting, dropped, close, ControllerConnectSession, drop_sender, insert,
  remove, complete, map_device_response_to_sequence_result, on_response, start_request, settle,
  poll_request,
}

-- The payload is within the limit, and the stream is open.
abbrev pub Accepts : ControllerConnectSession → List ℕ → Type 0
Accepts s payload =
    ((ltb 0 s.max_payload_bytes && ltb s.max_payload_bytes (length payload)) ≡ false)
    × (s.is_open ≡ true)

-- What a session keeps of the calls: the map and the channels.
abbrev calls : ControllerConnectSession → HashMap ℤ ℕ × HashMap ℕ Channel
calls s = (s.inner, s.channels)

branch :
    {A B : Type 0} (f : A → B) (b c : Bool) (x y z : A)
    → b ≡ false
    → c ≡ true
    → f (if b then x else if c then y else z) ≡ f y
branch f false true x y z h k = refl
branch f true c x y z h k = cc
branch f false false x y z h k = cc

module _ (seq : ℤ) (method_name : Str) (payload : List ℕ) (tx : ℕ) (s : ControllerConnectSession)
    (v : Accepts s payload) where
  start_request-calls :
      calls (start_request method_name seq payload tx s).1 ≡ calls (insert seq tx s)
  unfolding start_request insert
  start_request-calls =
      branch (λ (p : Option ControllerSdkError × ControllerConnectSession). calls p.1) _ s.is_open _
        _ _ v.0 v.1

  start_request-Accepts :
      (other : List ℕ)
      → Accepts s other
      → Accepts (start_request method_name seq payload tx s).1 other
  unfolding start_request insert
  start_request-Accepts other w = (
    ap (λ (m : ℕ). ltb 0 m && ltb m (length other))
          (branch
            (λ (p : Option ControllerSdkError × ControllerConnectSession). p.1.max_payload_bytes) _
            s.is_open _ _ _ v.0 v.1)
        ∙ w.0,
    branch (λ (p : Option ControllerSdkError × ControllerConnectSession). p.1.is_open) _ s.is_open _
          _ _ v.0 v.1
        ∙ w.1,
  )

module _ (seq : ℤ) (s : ControllerConnectSession) where
  inserted :
      (tx : ℕ)
      → HashMap.get seq s.inner ≢ some tx
      → (HashMap.get seq (insert seq tx s).inner ≡ some tx)
        × (HashMap.get tx (insert seq tx s).channels ≡ some waiting)
  unfolding insert
  inserted tx fresh = (
    get-insert_self seq tx s.inner,
    get-drop_sender seq tx (HashMap.get seq s.inner) _ fresh
        ∙ get-insert_self tx waiting s.channels,
  )

  replaced :
      (a b : ℕ)
      → b ≢ a
      → HashMap.get seq s.inner ≡ some a
      → HashMap.get a s.channels ≡ some waiting
      → HashMap.get a (insert seq b s).channels ≡ some dropped
  unfolding insert drop_sender
  replaced a b apart registered unanswered =
      rw (registered, insert)
        (get-modify_self a close waiting _
          (get-insert_ne b a waiting s.channels apart ∙ unanswered))

  removed :
      (tx : ℕ)
      → HashMap.get seq s.inner ≡ some tx
      → HashMap.get tx s.channels ≡ some waiting
      → (HashMap.get seq (remove seq s).inner ≡ none)
        × (HashMap.get tx (remove seq s).channels ≡ some dropped)
  unfolding remove drop_sender
  removed tx registered unanswered = (
    get-remove_self seq s.inner,
    rw (registered, remove) (get-modify_self tx close waiting s.channels unanswered),
  )

  completed_absent :
      (j : ℤ) (result : SequenceResult)
      → j ≡ seq
      → HashMap.get seq s.inner ≡ none
      → (complete j result s).channels ≡ s.channels
  unfolding complete
  completed_absent j result same absent = rw (same, absent, complete) refl

polled_dropped :
    (seq : ℤ) (rx : ℕ) (s : ControllerConnectSession)
    → HashMap.get rx s.channels ≡ some dropped
    → poll_request seq rx false s ≡ (some (err stream_closed), remove seq s)
unfolding poll_request settle
polled_dropped seq rx s e = rw (e, settle) refl

-- Two calls with one sequence number and new channels, the second made while the first waits: the
-- first returns that the stream is closed, and by its clean-up takes the second one's place in the
-- map away. The response then reaches neither, and the second returns that the stream is closed as
-- well, although the relay answered.
pub duplicate_requests_fail :
    (seq : ℤ) (a b : ℕ) (first second : Str) (p q : List ℕ) (resp : DeviceResponse)
    → (s : ControllerConnectSession) → b ≢ a
    → Accepts s p
    → Accepts s q
    → HashMap.get seq s.inner ≢ some a
    → resp.sequence_number ≡ seq
    → ((poll_request seq a false
          (start_request second seq q b (start_request first seq p a s).1).1).0
        ≡ some (err stream_closed))
      × ((poll_request seq b false (
            on_response resp
              (poll_request seq a false
                (start_request second seq q b (start_request first seq p a s).1).1).1)).0
          ≡ some (err stream_closed))
unfolding on_response
duplicate_requests_fail seq a b first second p q resp s apart fits_p fits_q fresh same =
    let s1 = (start_request first seq p a s).1 in
    let s2 = (start_request second seq q b s1).1 in
    let one = start_request-calls seq first p a s fits_p in
    let two =
      start_request-calls seq second q b s1
        (start_request-Accepts seq first p a s fits_p q fits_q) in
    let start_a = inserted seq s a fresh in
    let registered_a : HashMap.get seq s1.inner ≡ some a =
      ap (λ (c : HashMap ℤ ℕ × HashMap ℕ Channel). HashMap.get seq c.0) one ∙ start_a.0 in
    let waiting_a : HashMap.get a s1.channels ≡ some waiting =
      ap (λ (c : HashMap ℤ ℕ × HashMap ℕ Channel). HashMap.get a c.1) one ∙ start_a.1 in
    let start_b = inserted seq s1 b (λ h. apart (ground (arith, registered_a, h))) in
    let registered_b : HashMap.get seq s2.inner ≡ some b =
      ap (λ (c : HashMap ℤ ℕ × HashMap ℕ Channel). HashMap.get seq c.0) two ∙ start_b.0 in
    let waiting_b : HashMap.get b s2.channels ≡ some waiting =
      ap (λ (c : HashMap ℤ ℕ × HashMap ℕ Channel). HashMap.get b c.1) two ∙ start_b.1 in
    let dropped_a : HashMap.get a s2.channels ≡ some dropped =
      ap (λ (c : HashMap ℤ ℕ × HashMap ℕ Channel). HashMap.get a c.1) two
      ∙ replaced seq s1 a b apart registered_a waiting_a in
    let poll_a = polled_dropped seq a s2 dropped_a in
    let gone = removed seq s2 b registered_b waiting_b in
    let late =
      completed_absent seq (remove seq s2) resp.sequence_number
        (map_device_response_to_sequence_result resp) same gone.0 in
    (
      ap (λ (r : Option SequenceResult × ControllerConnectSession). r.0) poll_a,
      rw poll_a (
          ap (λ (r : Option SequenceResult × ControllerConnectSession). r.0)
            (polled_dropped seq b _ (ap (HashMap.get b) late ∙ gone.1))),
    )
