-- ===== src/RequestGuard/Policy.antt =====
-- Allow of internal/inverter/guard/guard.go against a closed list of permitted actions.
use ieee_2030_5_client_go.Shared.{
  ◌≡◌, subst, ◌⊎◌, inl, inr, Bool-cases, ◌↔◌, true, false, none, some, String, eq_iff, arith,
}
use ieee_2030_5_client_go.RequestGuard.{
  Action, Casing, Guard, allow, allows_other, is_self, self_allowed, manager_kinds, manages,
  kind_method, is_create,
}
use ieee_2030_5_client_go.RequestGuard.Permitted.{
  Verb, Permitted, own, manage, remove, propose, self_allowed-OwnKind, OwnKind-self_allowed,
  manager_kinds-ManagerKind, ManagerKind-manager_kinds, Verb-of_own, Verb-of_manager,
  Verb-of_delete, Verb-of_create, Verb-kind_method, is_delete_of, is_create_of, is_aggregator_of,
  manages_of,
}

module _ (c : Casing) where
  -- A request of another device that passes is one of M1 to M8.
  other-Permitted :
      (g : Guard) (a : Action)
      → is_self c g a ≡ false
      → allows_other g a ≡ true
      → Verb a.kind (kind_method a.kind) × Permitted c g a
  unfolding allows_other
  other-Permitted g a other h = elim (Bool-cases (is_create a.kind)) [
    | inl created ↦
        let k = is_create_of a.kind created in
        (
          Verb-of_create a.kind k,
          propose other (is_aggregator_of g.role (ground arith)) k (ground arith),
        )
    | inr old ↦
        let role = is_aggregator_of g.role (ground arith) in
        let managed = manages_of g.managed a.target_lfdi (ground arith) in
        elim (Bool-cases (manager_kinds a.kind)) [
          | inl kind ↦
              let k = manager_kinds-ManagerKind a.kind kind in
              (Verb-of_manager k, manage other role managed k)
          | inr rest ↦
              let k = is_delete_of a.kind (ground arith) in
              (Verb-of_delete a.kind k, remove other role managed k (ground arith))
        ]
  ]

  allow_parts :
      (g : Guard) (m : String) (a : Action)
      → allow c (some g) m a ≡ none
      → (kind_method a.kind ≡ m)
        × (((is_self c g a ≡ true) × (self_allowed g.role a.kind ≡ true))
            ⊎ ((is_self c g a ≡ false) × (allows_other g a ≡ true)))
  unfolding allow
  allow_parts g m a h = ground (arith, eq_iff (kind_method a.kind) m)

  allow-Permitted :
      (g : Guard) (m : String) (a : Action)
      → allow c (some g) m a ≡ none
      → Verb a.kind m × Permitted c g a
  allow-Permitted g m a h =
      let (e, way) = allow_parts g m a h in
      let (v, permitted) : Verb a.kind (kind_method a.kind) × Permitted c g a = elim way [
        | inl (s, k) ↦
            let kind = self_allowed-OwnKind g.role a.kind k in (Verb-of_own kind, own s kind)
        | inr (s, k) ↦ other-Permitted g a s k
      ] in
      (subst (Verb a.kind) e v, permitted)

  Permitted-allow :
      (g : Guard) (m : String) (a : Action)
      → Verb a.kind m
      → Permitted c g a
      → allow c (some g) m a ≡ none
  unfolding allow allows_other manages manager_kinds
  Permitted-allow g m a v (own s k) =
      ground (arith, eq_iff (kind_method a.kind) m, Verb-kind_method v, OwnKind-self_allowed k)
  Permitted-allow g m a v (manage s r (managed, e, t) k) =
      ground (arith, eq_iff (kind_method a.kind) m, Verb-kind_method v, ManagerKind-manager_kinds k)
  Permitted-allow g m a v (remove s r (managed, e, t) k o) =
      ground (arith, eq_iff (kind_method a.kind) m, Verb-kind_method v)
  Permitted-allow g m a v (propose s r k o) =
      ground (arith, eq_iff (kind_method a.kind) m, Verb-kind_method v)

  -- A guard permits a request exactly when the method is the verb of its kind and the action is in the
  -- closed list: one of the role's own for itself, or, for another device, an aggregator's M1 to M6
  -- on a managed device, M7 on a managed device where it is opened, or M8 where it is opened.
  pub allow_iff :
      (g : Guard) (m : String) (a : Action)
      → (allow c (some g) m a ≡ none) ↔ (Verb a.kind m × Permitted c g a)
  allow_iff g m a = (allow-Permitted g m a, λ h. Permitted-allow g m a h.0 h.1)
