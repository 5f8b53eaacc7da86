-- ===== src/Controller/Roles/Desired.antt =====
-- When a pass gives roles, and which.
use velkir.Prelude.{
  ℕ, ◌≤◌, ◌≡◌, ◌≢◌, ◌⊎◌, refl, inr, sym, ◌∙◌, Bool, true, false, List, [], ◌∷◌, Option, none, some,
  String, arith, str_eq, if◌then◌else◌, Bool-cases, inl,
}
use mathlib.Core.Path.{subst}
use velkir.Controller.Latch.{failover_latch_active}
use velkir.Controller.Trackers.{observe_primary_stability}
use velkir.Prelude.HostPort.{split_host_port}
use velkir.Controller.Roles.{
  RolePod, Assignment, Roles, suppressed, kept, assigned, RolePass, RoleTrackers, has_ip,
  pod_ip_matches_any, observed_roles, bootstrap_roles, reconcile_role_labels, moves, damped,
  at_host, agreed_roles, desired_roles_for_cr, new_primary_stable_min_polls,
}
use velkir.Controller.Roles.Patches.{
  labelled_primary, reconcile-primary, Assigns, wants_primary, pods_of,
}

abbrev pub polls_of : RolePass → RoleTrackers → ℕ
polls_of d tr =
    (observe_primary_stability tr.stability d.snapshot.primary.addr
      d.snapshot.primary.last_polled_at).0.0

-- The roles that the snapshot names: a pod has the address of the primary, it alone is to be the primary,
-- and a label that moves to it has been confirmed by two polls.
abbrev pub Observed : RolePass → List RolePod → RoleTrackers → Assignment → Type 0
Observed d pods tr roles =
    (host : String) × (split_host_port d.snapshot.primary.addr ≡ some host)
    × (pod_ip_matches_any host pods ≡ true)
    × (roles ≡ observed_roles host pods)
    × (moves host pods ≡ true → new_primary_stable_min_polls ≤ polls_of d tr)

-- The address cannot be read, and the roles are those of the bootstrap.
abbrev pub Unreadable : RolePass → List RolePod → Assignment → Type 0
Unreadable d pods roles =
    (split_host_port d.snapshot.primary.addr ≡ none) × (roles ≡ bootstrap_roles d.zero_name pods)

assigned-injective : (a b : Assignment) → Path Roles (assigned a) (assigned b) → a ≡ b
assigned-injective a b h = cc

at_host-Observed :
    (d : RolePass) (pods : List RolePod) (host : Option String) (tr : RoleTrackers)
    (roles : Assignment)
    → split_host_port d.snapshot.primary.addr ≡ host
    → (at_host d pods host tr).0 ≡ assigned roles
    → Observed d pods tr roles ⊎ Unreadable d pods roles
unfolding at_host damped
at_host-Observed d pods none tr roles e h = inr (e, sym (assigned-injective _ _ h))
at_host-Observed d pods (some host) tr roles e h =
    inl (host, e, ground (arith, h), ground (arith, h), λ m. ground (arith, h, m))

agreed-Observed :
    (d : RolePass) (pods : List RolePod) (tr : RoleTrackers) (roles : Assignment)
    → (agreed_roles d pods tr).0 ≡ assigned roles
    → ((failover_latch_active tr.latch d.now (d.snapshot.primary.addr, d.snapshot.primary.epoch)).0
        ≡ false)
      × (Observed d pods tr roles ⊎ Unreadable d pods roles)
unfolding agreed_roles
agreed-Observed d pods tr roles h =
    let asked =
      failover_latch_active tr.latch d.now (d.snapshot.primary.addr, d.snapshot.primary.epoch) in
    elim (Bool-cases asked.0) [
      | inl e ↦ absurd (ground (arith, e, h))
      | inr e ↦ (
        e,
        at_host-Observed d pods (split_host_port d.snapshot.primary.addr)
            (record tr { latch = asked.1 }) roles refl (ground (arith, e, h)),
      )
    ]

-- Where an observer has published a snapshot, roles are given only if the quorum agrees and no failover is
-- latched. They are then those that the snapshot names: a pod has the address of the primary and only such a
-- pod is to be the primary, and a label that moves from one pod to another has been confirmed by two polls;
-- or they are those of the bootstrap, if the address cannot be read.
pub desired-Observed :
    (d : RolePass) (pods : List RolePod) (tr : RoleTrackers) (roles : Assignment)
    → d.sentinel_observed ≡ true
    → d.snapshot.present ≡ true
    → (desired_roles_for_cr d pods tr).0 ≡ assigned roles
    → (d.snapshot.primary.quorum_ok ≡ true)
      × ((failover_latch_active tr.latch d.now
            (d.snapshot.primary.addr, d.snapshot.primary.epoch)).0
          ≡ false)
      × (Observed d pods tr roles ⊎ Unreadable d pods roles)
unfolding desired_roles_for_cr
desired-Observed d pods tr roles sentinel present h =
    elim (Bool-cases d.snapshot.primary.quorum_ok) [
      | inr e ↦ absurd (ground (arith, e, h, sentinel, present))
      | inl e ↦
          let out = agreed-Observed d pods tr roles (ground (arith, e, h, sentinel, present)) in
          (e, out.0, out.1)
    ]

wanted_iff : (b : Bool) → str_eq (if b then "primary" else "replica") "primary" ≡ b
wanted_iff true = refl
wanted_iff false = refl

observed-Assigns :
    (host : String) (pods : List RolePod)
    → (pods_of (observed_roles host pods) ≡ pods)
      × (wants_primary (observed_roles host pods) ≡ pod_ip_matches_any host pods)
unfolding observed_roles pod_ip_matches_any
observed-Assigns host [] = (refl, refl)
observed-Assigns host (p ∷ ps) =
    let rest = observed-Assigns host ps in
    (ground (arith, rest.0), rw (wanted_iff (has_ip host p), rest.1) refl)

abbrev Published : RolePass → Type 0
Published d =
    (d.sentinel_observed ≡ true)
    × (d.snapshot.present ≡ true)
    × (split_host_port d.snapshot.primary.addr ≢ none)

roles-Assigns :
    (d : RolePass) (pods : List RolePod) (tr : RoleTrackers) (roles : Roles)
    → Published d
    → (desired_roles_for_cr d pods tr).0 ≡ roles
    → Assigns pods roles
roles-Assigns d pods tr suppressed published e = tt
roles-Assigns d pods tr kept published e = tt
roles-Assigns d pods tr (assigned roles) (sentinel, present, readable) e =
    elim (desired-Observed d pods tr roles sentinel present e).2 [
      | inr (unread, _) ↦ absurd (readable unread)
      | inl (host, _, found, same, _) ↦
          let both = observed-Assigns host pods in
          subst (λ r. Assigns pods (assigned r)) (sym same) (both.0, both.1 ∙ found)
    ]

-- Under an observer that has published a readable address, a whole pass never takes the primary's label from
-- the last pod that carries it, whatever the snapshot says and wherever the patches stop.
pub pass-primary :
    (accepts : RolePod → Bool) (d : RolePass) (pods : List RolePod) (tr : RoleTrackers)
    → d.sentinel_observed ≡ true
    → d.snapshot.present ≡ true
    → split_host_port d.snapshot.primary.addr ≢ none
    → labelled_primary pods ≡ true
    → labelled_primary (reconcile_role_labels accepts pods (desired_roles_for_cr d pods tr).0).pods
      ≡ true
pass-primary accepts d pods tr sentinel present readable h =
    reconcile-primary accepts pods (desired_roles_for_cr d pods tr).0
      (roles-Assigns d pods tr (desired_roles_for_cr d pods tr).0 (sentinel, present, readable)
        refl)
      h
