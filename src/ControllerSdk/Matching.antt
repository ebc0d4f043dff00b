-- ===== src/ControllerSdk/Matching.antt =====
-- crates/controller-sdk/src/connect.rs: which call a response reaches.
use g_rpc_relay.Base.{
  ℕ, ◌≡◌, refl, sym, ap, ◌∙◌, ◌≢◌, inl, inr, Bool, true, false, ◌&&◌, Option, none, some, List, [],
  ◌∷◌, ℤ, arith, All, if◌then◌else◌, ltb, length, ◌==◌, ==_iff, ==_ne, Bool-cases, Option-cases,
  list_eq, ℕ_eq, ℤ_eq,
}
use g_rpc_relay.Collections.HashMap
use g_rpc_relay.Collections.HashMap.{
  HashMap, get-insert, get-insert_self, get-insert_ne, get-remove_self, get-remove_ne, get-modify,
  get-remove, get-modify_self,
}
use g_rpc_relay.Text.{Str}
use g_rpc_relay.Proto.{DeviceResponse}
use g_rpc_relay.ControllerSdk.Session.{
  SequenceResult, Channel, waiting, answered, dropped, close, ControllerConnectSession, drop_sender,
  insert, remove, complete, map_device_response_to_sequence_result, on_response, start_request,
  settle, poll_request,
}

-- What can happen to a session.
pub data Event : Type 0 where
  starts : (method_name : Str) → ℤ → (payload : List ℕ) → (tx : ℕ) → Event
  responds : DeviceResponse → Event
  polls : ℤ → (rx : ℕ) → (is_late : Bool) → Event

pub happens : Event → ControllerConnectSession → ControllerConnectSession
happens (starts method_name seq payload tx) s = (start_request method_name seq payload tx s).1
happens (responds resp) s = on_response resp s
happens (polls seq rx is_late) s = (poll_request seq rx is_late s).1

pub happen : List Event → ControllerConnectSession → ControllerConnectSession
happen [] s = s
happen (e ∷ es) s = happen es (happens e s)

-- An event of another call, with another sequence number and another channel.
abbrev pub IsOther : ℤ → ℕ → Event → Type 0
IsOther seq rx (starts method_name seq' payload tx) = (seq' ≢ seq) × (tx ≢ rx)
IsOther seq rx (responds resp) = resp.sequence_number ≢ seq
IsOther seq rx (polls seq' rx' is_late) = seq' ≢ seq

module _ (seq : ℤ) (rx : ℕ) where
  -- The channel is registered under the sequence number and no other, and has no answer yet.
  record Waits (s : ControllerConnectSession) : Type 0 where
    registered : HashMap.get seq s.inner ≡ some rx
    unanswered : HashMap.get rx s.channels ≡ some waiting
    only : (j : ℤ) → HashMap.get j s.inner ≡ some rx → j ≡ seq

  pub get-drop_sender :
      (previous : Option ℕ) (m : HashMap ℕ Channel)
      → previous ≢ some rx
      → HashMap.get rx (drop_sender previous m) ≡ HashMap.get rx m
  unfolding drop_sender
  get-drop_sender none m apart = refl
  get-drop_sender (some tx) m apart =
      get-modify tx rx close m ∙ rw (==_ne tx rx (λ p. apart (ap some p))) refl

  get-insert_only :
      (i j : ℤ) (tx : ℕ) (m : HashMap ℤ ℕ)
      → tx ≢ rx
      → HashMap.get i (HashMap.insert j tx m) ≡ some rx
      → HashMap.get i m ≡ some rx
  get-insert_only i j tx m other h =
      let found = get-insert j i tx m in
      elim (Bool-cases (j == i)) [
        | inl same ↦ absurd (other (ground (arith, same, found)))
        | inr apart ↦ ground (arith, apart, found)
      ]

  get-remove_only :
      (i j : ℤ) (m : HashMap ℤ ℕ)
      → HashMap.get i (HashMap.remove j m) ≡ some rx
      → HashMap.get i m ≡ some rx
  get-remove_only i j m h = ground (arith, get-remove j i m)

  insert-Waits :
      (j : ℤ) (tx : ℕ) (s : ControllerConnectSession)
      → j ≢ seq
      → tx ≢ rx
      → Waits s
      → Waits (insert j tx s)
  unfolding insert
  insert-Waits j tx s apart other v = record {
    registered = get-insert_ne j seq tx s.inner apart ∙ v.registered;
    unanswered =
        get-drop_sender (HashMap.get j s.inner) _ (λ p. apart (v.only j p))
        ∙ get-insert_ne tx rx waiting s.channels other
        ∙ v.unanswered;
    only = λ i h. v.only i (get-insert_only i j tx s.inner other h);
  }

  remove-Waits : (j : ℤ) (s : ControllerConnectSession) → j ≢ seq → Waits s → Waits (remove j s)
  unfolding remove
  remove-Waits j s apart v = record {
    registered = get-remove_ne j seq s.inner apart ∙ v.registered;
    unanswered = get-drop_sender (HashMap.get j s.inner) _ (λ p. apart (v.only j p)) ∙ v.unanswered;
    only = λ i h. v.only i (get-remove_only i j s.inner h);
  }

  complete-Waits :
      (j : ℤ) (result : SequenceResult) (s : ControllerConnectSession)
      → j ≢ seq
      → Waits s
      → Waits (complete j result s)
  unfolding complete
  complete-Waits j result s apart v = record {
    registered = get-remove_ne j seq s.inner apart ∙ v.registered;
    unanswered = elim (Option-cases (HashMap.get j s.inner)) [
      | inl none_left ↦ rw (none_left, complete) v.unanswered
      | inr (tx, found) ↦
          rw (found, complete)
            (get-insert_ne tx rx (answered result) s.channels
                (λ p. apart (v.only j (found ∙ ap some p)))
              ∙ v.unanswered)
    ];
    only = λ i h. v.only i (get-remove_only i j s.inner h);
  }

  either_Waits :
      {A : Type 0} (b : Bool) (p q : A × ControllerConnectSession)
      → Waits p.1
      → Waits q.1
      → Waits (if b then p else q).1
  either_Waits true p q v w = v
  either_Waits false p q v w = w

  start_request-Waits :
      (method_name : Str) (j : ℤ) (payload : List ℕ) (tx : ℕ) (s : ControllerConnectSession)
      → j ≢ seq
      → tx ≢ rx
      → Waits s
      → Waits (start_request method_name j payload tx s).1
  unfolding start_request
  start_request-Waits method_name j payload tx s apart other v =
      let inserted = insert-Waits j tx s apart other v in
      either_Waits (ltb 0 s.max_payload_bytes && ltb s.max_payload_bytes (length payload)) _ _ v (
        either_Waits s.is_open _ _
          (record {
            registered = inserted.registered;
            unanswered = inserted.unanswered;
            only = inserted.only;
          })
          (remove-Waits j _ apart inserted))

  settle-Waits :
      (j : ℤ) (is_late : Bool) (found : Option Channel) (s : ControllerConnectSession)
      → j ≢ seq
      → Waits s
      → Waits (settle j is_late found s).1
  unfolding settle
  settle-Waits j is_late (some (answered result)) s apart v = v
  settle-Waits j is_late (some dropped) s apart v = remove-Waits j s apart v
  settle-Waits j is_late (some waiting) s apart v =
      either_Waits is_late _ _ (remove-Waits j s apart v) v
  settle-Waits j is_late none s apart v = v

  happen-Waits :
      (es : List Event) (s : ControllerConnectSession)
      → All (IsOther seq rx) es
      → Waits s
      → Waits (happen es s)
  unfolding happen happens on_response poll_request
  happen-Waits [] s other v = v
  happen-Waits (starts method_name j payload tx ∷ es) s other v =
      happen-Waits es _ other.1
        (start_request-Waits method_name j payload tx s other.0.0 other.0.1 v)
  happen-Waits (responds resp ∷ es) s other v = happen-Waits es _ other.1 (
      complete-Waits resp.sequence_number (map_device_response_to_sequence_result resp) s other.0 v)
  happen-Waits (polls j tx is_late ∷ es) s other v =
      happen-Waits es _ other.1 (settle-Waits j is_late (HashMap.get tx s.channels) s other.0 v)

  passed_Waits :
      {A : Type 0} (b : Bool) (p q : A × ControllerConnectSession)
      → b ≡ true
      → Waits p.1
      → Waits (if b then p else q).1
  passed_Waits true p q e v = v
  passed_Waits false p q e v = cc

  refused_Waits :
      {A : Type 0} (b : Bool) (p q : A × ControllerConnectSession)
      → b ≡ false
      → Waits q.1
      → Waits (if b then p else q).1
  refused_Waits true p q e v = cc
  refused_Waits false p q e v = v

  new_only :
      (j : ℤ) (m : HashMap ℤ ℕ)
      → ((i : ℤ) → HashMap.get i m ≢ some rx)
      → HashMap.get j (HashMap.insert seq rx m) ≡ some rx
      → j ≡ seq
  new_only j m fresh h =
      let found = get-insert seq j rx m in
      elim (Bool-cases (seq == j)) [
        | inl same ↦ sym ((==_iff seq j).0 same)
        | inr apart ↦ absurd (fresh j (ground (arith, apart, found)))
      ]

  start-Waits :
      (method_name : Str) (payload : List ℕ) (s : ControllerConnectSession)
      → (ltb 0 s.max_payload_bytes && ltb s.max_payload_bytes (length payload)) ≡ false
      → s.is_open ≡ true
      → ((j : ℤ) → HashMap.get j s.inner ≢ some rx)
      → Waits (start_request method_name seq payload rx s).1
  unfolding start_request insert
  start-Waits method_name payload s small live fresh =
      refused_Waits (ltb 0 s.max_payload_bytes && ltb s.max_payload_bytes (length payload)) _ _
        small
        (passed_Waits s.is_open _ _ live (record {
          registered = get-insert_self seq rx s.inner;
          unanswered =
              get-drop_sender (HashMap.get seq s.inner) _ (fresh seq)
              ∙ get-insert_self rx waiting s.channels;
          only = λ j h. new_only j s.inner fresh h;
        }))

  complete-answers :
      (j : ℤ) (result : SequenceResult) (s : ControllerConnectSession)
      → j ≡ seq
      → Waits s
      → HashMap.get rx (complete j result s).channels ≡ some (answered result)
  unfolding complete
  complete-answers j result s same v =
      rw (same, v.registered, complete) (get-insert_self rx (answered result) s.channels)

-- A call whose payload is within the limit, on an open stream and with a new channel, waits through
-- whatever other calls do and whatever responses come for other sequence numbers; the response with
-- its sequence number then reaches it, and it returns what the response says.
pub response_reaches_call :
    (seq : ℤ) (rx : ℕ) (method_name : Str) (payload : List ℕ) (s : ControllerConnectSession)
    → (es : List Event) (resp : DeviceResponse) (is_late : Bool)
    → (ltb 0 s.max_payload_bytes && ltb s.max_payload_bytes (length payload)) ≡ false
    → s.is_open ≡ true
    → ((j : ℤ) → HashMap.get j s.inner ≢ some rx)
    → All (IsOther seq rx) es
    → resp.sequence_number ≡ seq
    → (poll_request seq rx is_late
        (on_response resp (happen es (start_request method_name seq payload rx s).1))).0
      ≡ some (map_device_response_to_sequence_result resp)
unfolding poll_request on_response complete settle
response_reaches_call seq rx method_name payload s es resp is_late small live fresh others same =
    let v =
      happen-Waits seq rx es _ others (start-Waits seq rx method_name payload s small live fresh) in
    let e =
      complete-answers seq rx resp.sequence_number (map_device_response_to_sequence_result resp) _
        same v in
    rw (e, settle) refl
