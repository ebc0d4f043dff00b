-- ===== src/State/Waiters.antt =====
-- crates/relay/src/state.rs: who waits for a response. `pending` counts how often a one-shot
-- channel stands in the in-flight table.
use g_rpc_relay.Base.{
  ℕ, ◌+◌, ◌≡◌, refl, inl, inr, not, ℤ, none, some, List, [], ◌∷◌, ◌++◌, map, arith, if◌then◌else◌,
  eqb, ==_iff, Option-cases, is_some, list_eq, ℕ_eq, ℤ_eq, pair_eq,
}
use g_rpc_relay.Collections.HashMap
use g_rpc_relay.Collections.HashMap.{HashMap}
use g_rpc_relay.Collections.HashMap.Entries.{
  Distinct, insert-Distinct, remove-Distinct, remove_absent, total, total-insert_new,
  total-insert_old, total-remove,
}
use g_rpc_relay.Text.{Str}
use g_rpc_relay.Proto.{DeviceResponse}
use g_rpc_relay.State.Inflight.{InFlight, Delivery, complete}
use g_rpc_relay.State.Inflight
use g_rpc_relay.State.{RelayState, new, ensure_inflight_waiter, take_inflight}

-- How often a channel stands in a list.
unfoldable pub count : ℕ → List ℕ → ℕ
count tx [] = 0
count tx (x ∷ xs) = (if eqb x tx then 1 else 0) + count tx xs

pub count-append : (tx : ℕ) (xs ys : List ℕ) → count tx (xs ++ ys) ≡ count tx xs + count tx ys
unfolding count
count-append tx [] ys = omega arith
count-append tx (x ∷ xs) ys = omega (arith, count-append tx xs ys)

unfoldable pub pending : ℕ → RelayState → ℕ
pending tx s = total (λ f. count tx f.waiters) s.inflight_by_sequence

-- How often a channel was sent a response.
unfoldable pub delivered : ℕ → List Delivery → ℕ
delivered tx [] = 0
delivered tx ((x, resp) ∷ ds) = (if eqb x tx then 1 else 0) + delivered tx ds

pub delivered-append :
    (tx : ℕ) (xs ys : List Delivery) → delivered tx (xs ++ ys) ≡ delivered tx xs + delivered tx ys
unfolding delivered
delivered-append tx [] ys = omega arith
delivered-append tx (x ∷ xs) ys = omega (arith, delivered-append tx xs ys)

-- A completed entry sends its response to each waiter once.
pub delivered-complete :
    (tx : ℕ) (f : InFlight) (resp : DeviceResponse)
    → delivered tx (complete f resp).1 ≡ count tx f.waiters
unfolding complete delivered count
delivered-complete tx f resp = go f.waiters
  where
    go : (xs : List ℕ) → delivered tx (map (λ waiter. (waiter, resp)) xs) ≡ count tx xs
    go [] = refl
    go (x ∷ xs) = omega (arith, go xs)

-- Each entry is stored under the device that it belongs to, and no key twice.
abbrev pub WellKeyed : HashMap (Str × ℤ) InFlight → Type 0
WellKeyed [] = Unit {0}
WellKeyed ((k, f) ∷ m) = (f.device_id ≡ k.0) × WellKeyed m

pub record IsTable (s : RelayState) : Type 0 where
  pub distinct : Distinct s.inflight_by_sequence
  pub keyed : WellKeyed s.inflight_by_sequence

insert-WellKeyed :
    (k : Str × ℤ) (f : InFlight) (m : HashMap (Str × ℤ) InFlight)
    → f.device_id ≡ k.0
    → WellKeyed m
    → WellKeyed (HashMap.insert k f m)
unfolding HashMap.insert
insert-WellKeyed k f [] h w = (h, tt)
insert-WellKeyed k f ((j, g) ∷ m) h w = ground (arith, insert-WellKeyed k f m h w.1)

remove-WellKeyed :
    (k : Str × ℤ) (m : HashMap (Str × ℤ) InFlight) → WellKeyed m → WellKeyed (HashMap.remove k m)
unfolding HashMap.remove
remove-WellKeyed k [] w = tt
remove-WellKeyed k ((j, g) ∷ m) w = ground (arith, remove-WellKeyed k m w.1)

pub get-WellKeyed :
    (k : Str × ℤ) (f : InFlight) (m : HashMap (Str × ℤ) InFlight)
    → WellKeyed m
    → HashMap.get k m ≡ some f
    → f.device_id ≡ k.0
unfolding HashMap.get
get-WellKeyed k f [] w h = cc
get-WellKeyed k f ((j, g) ∷ m) w h = ground (arith, get-WellKeyed k f m w.1, ==_iff j k)

pub new-IsTable : IsTable new
unfolding new
new-IsTable = record { distinct = tt; keyed = tt }

module _ (s : RelayState) (seq : ℤ) (d : Str) where
  pub ensure_inflight_waiter-IsTable :
      (tx : ℕ) → IsTable s → IsTable (ensure_inflight_waiter s seq d tx).0
  unfolding ensure_inflight_waiter
  ensure_inflight_waiter-IsTable tx v =
      elim (Option-cases (HashMap.get (d, seq) s.inflight_by_sequence)) [
        | inl e ↦
            rw (e, ensure_inflight_waiter)
              (record {
                distinct = insert-Distinct (d, seq) _ _ v.distinct;
                keyed = insert-WellKeyed (d, seq) _ _ refl v.keyed;
              })
        | inr (f, e) ↦
            rw (e, ensure_inflight_waiter)
              (record {
                distinct = insert-Distinct (d, seq) _ _ v.distinct;
                keyed =
                    insert-WellKeyed (d, seq) _ _ (get-WellKeyed (d, seq) f _ v.keyed e) v.keyed;
              })
      ]

  -- A call puts its channel into the in-flight table once and leaves the places of every other
  -- channel; it makes the caller the forwarder exactly when there was no entry for this device and
  -- sequence number.
  pub ensure_inflight_waiter-pending :
      (tx k : ℕ)
      → (pending k (ensure_inflight_waiter s seq d tx).0
          ≡ pending k s + (if eqb tx k then 1 else 0))
        × ((ensure_inflight_waiter s seq d tx).1
            ≡ not (is_some (HashMap.get (d, seq) s.inflight_by_sequence)))
  unfolding ensure_inflight_waiter pending count
  ensure_inflight_waiter-pending tx k =
      let weight : InFlight → ℕ = λ f. count k f.waiters in
      let m = s.inflight_by_sequence in
      elim (Option-cases (HashMap.get (d, seq) m)) [
        | inl e ↦
            rw (e, ensure_inflight_waiter)
              (omega (arith, total-insert_new weight (d, seq) (joined [] tx) m e), refl)
        | inr (f, e) ↦
            rw (e, ensure_inflight_waiter)
              (
                omega (
                  arith,
                  total-insert_old weight (d, seq) (Inflight.push_waiter f tx) f m e,
                  count-append k f.waiters (tx ∷ []),
                ),
                refl,
              )
      ]
    where
      joined : List ℕ → ℕ → InFlight
      joined xs tx = record { device_id = d; waiters = xs ++ tx ∷ [] }

  pub take_inflight-IsTable : IsTable s → IsTable (take_inflight s d seq).1
  unfolding take_inflight
  take_inflight-IsTable v = record {
    distinct = remove-Distinct (d, seq) _ v.distinct;
    keyed = remove-WellKeyed (d, seq) _ v.keyed;
  }

  -- In a table with no key twice, the places of a channel in the entry that is taken and those
  -- left in the table add up to those before.
  pub take_inflight-pending :
      (k : ℕ)
      → IsTable s
      → pending k (take_inflight s d seq).1
          + (elim (take_inflight s d seq).0 [ none ↦ 0 | some f ↦ count k f.waiters ])
        ≡ pending k s
  unfolding take_inflight pending
  take_inflight-pending k v =
      let m = s.inflight_by_sequence in
      elim (Option-cases (HashMap.get (d, seq) m)) [
        | inl e ↦ rw (e, remove_absent (d, seq) m e) (omega arith)
        | inr (f, e) ↦ rw e (total-remove (λ f. count k f.waiters) (d, seq) f m v.distinct e)
      ]
