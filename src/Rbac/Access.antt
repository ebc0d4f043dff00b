-- ===== src/Rbac/Access.antt =====
-- crates/relay/src/rbac.rs: the rules that a permission rests on.
use g_rpc_relay.Base.{
  ◌≡◌, ◌↔◌, ap, ◌⊎◌, inl, inr, true, List, [], ◌∷◌, ◌++◌, arith, ok, any, ◌==◌, ==_iff, ==_refl,
  Bool-cases, list_eq, ℕ_eq,
}
use g_rpc_relay.Text.{Str}
use g_rpc_relay.Auth.{ControllerPrincipal, DevicePrincipal, admin}
use g_rpc_relay.Rbac.{RbacPolicyEngine, is_method_allowed, authorize_controller_to_device}

-- A text stands in a list.
abbrev pub Listed : Str → List Str → Type 0
Listed x xs = (before after : List Str) × (xs ≡ before ++ x ∷ after)

any-Listed : (x : Str) (xs : List Str) → any (λ y. y == x) xs ≡ true → Listed x xs
any-Listed x [] h = cc
any-Listed x (y ∷ xs) h = elim (Bool-cases (y == x)) [
  | inl hit ↦ ([], xs, ap (λ (z : Str). z ∷ xs) ((==_iff y x).0 hit))
  | inr miss ↦
      let (before, after, e) = any-Listed x xs (ground (arith, miss)) in
      (y ∷ before, after, ap (◌∷◌ y) e)
]

Listed-any : (x : Str) (before after : List Str) → any (λ y. y == x) (before ++ x ∷ after) ≡ true
Listed-any x [] after = rw (==_refl x)
Listed-any x (y ∷ before) after = ground (arith, Listed-any x before after)

pub any_iff : (x : Str) (xs : List Str) → (any (λ y. y == x) xs ≡ true) ↔ Listed x xs
any_iff x xs = (any-Listed x xs, λ (before, after, e). rw e (Listed-any x before after))

-- What permits a call while access control is on.
abbrev pub MayUse : RbacPolicyEngine → Str → Type 0
MayUse e method = (e.method_whitelist ≡ []) ⊎ Listed method e.method_whitelist

abbrev pub MayReach : ControllerPrincipal → DevicePrincipal → Type 0
MayReach controller device =
    (controller.role ≡ admin) ⊎ Listed device.project_id controller.allowed_project_ids

module _ (e : RbacPolicyEngine) (method : Str) (on : e.enabled ≡ true) where
  is_method_allowed-MayUse : is_method_allowed e method ≡ true → MayUse e method
  unfolding is_method_allowed
  is_method_allowed-MayUse h = elim (Bool-cases (any (λ m. m == method) e.method_whitelist)) [
    | inl hit ↦ inr ((any_iff method e.method_whitelist).0 hit)
    | inr miss ↦ inl (ground (arith, miss))
  ]

  MayUse-is_method_allowed : MayUse e method → is_method_allowed e method ≡ true
  unfolding is_method_allowed
  MayUse-is_method_allowed (inl free) = ground arith
  MayUse-is_method_allowed (inr listed) =
      ground (arith, (any_iff method e.method_whitelist).1 listed)

module _ (e : RbacPolicyEngine) (controller : ControllerPrincipal) (device : DevicePrincipal)
    (method : Str) (on : e.enabled ≡ true) where
  permitted :
      authorize_controller_to_device e controller device method ≡ ok tt
      → MayUse e method × MayReach controller device
  unfolding authorize_controller_to_device
  permitted h = (
    is_method_allowed-MayUse e method on (ground arith),
    elim (Bool-cases (controller.role == admin)) [
      | inl is_admin ↦ inl ((==_iff controller.role admin).0 is_admin)
      | inr other ↦
          inr ((any_iff device.project_id controller.allowed_project_ids).0 (ground (arith, other)))
    ],
  )

  reaches :
      MayReach controller device
      → is_method_allowed e method ≡ true
      → authorize_controller_to_device e controller device method ≡ ok tt
  unfolding authorize_controller_to_device
  reaches (inl is_admin) h = ground (arith, ==_iff controller.role admin)
  reaches (inr listed) h =
      ground (arith, (any_iff device.project_id controller.allowed_project_ids).1 listed)

  -- While access control is on, a call is permitted exactly when its method is on the list, or the
  -- list is empty, and the controller is an administrator or has the device's project.
  pub authorize_controller_to_device_iff :
      (authorize_controller_to_device e controller device method ≡ ok tt)
      ↔ (MayUse e method × MayReach controller device)
  authorize_controller_to_device_iff =
      (permitted, λ (use_it, reach). reaches reach (MayUse-is_method_allowed e method on use_it))
