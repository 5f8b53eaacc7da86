-- ===== src/Controller/Roles/Patches.antt =====
-- The labels while the patches are made, on every branch of failing ones.
use velkir.Prelude.{
  ◌≡◌, refl, ◌∙◌, Bool, true, false, ◌&&◌, ◌||◌, List, [], ◌∷◌, map, String, arith, str_eq, eq_iff,
  if_intro,
}
use velkir.Controller.Roles.{
  RolePod, Assignment, Roles, suppressed, kept, assigned, label_primaries, label_replicas,
  label_pods, reconcile_role_labels,
}

-- Some pod carries the label of the primary.
abbrev pub labelled_primary : List RolePod → Bool
labelled_primary [] = false
labelled_primary (p ∷ ps) = str_eq p.role "primary" || labelled_primary ps

abbrev pub pods_of : Assignment → List RolePod
pods_of = map (λ x. x.0)

-- Some pod should carry the label of the primary.
abbrev pub wants_primary : Assignment → Bool
wants_primary [] = false
wants_primary ((p, want) ∷ rest) = str_eq want "primary" || wants_primary rest

-- A pod that should carry it does.
abbrev settled : Assignment → Bool
settled [] = false
settled ((p, want) ∷ rest) = (str_eq want "primary" && str_eq p.role "primary") || settled rest

label_primaries-keeps :
    (accepts : RolePod → Bool) (roles : Assignment)
    → labelled_primary (pods_of roles) ≡ true
    → labelled_primary (pods_of (label_primaries accepts roles).0) ≡ true
unfolding label_primaries
label_primaries-keeps accepts [] h = cc
label_primaries-keeps accepts ((p, want) ∷ rest) h = ground (
  arith,
  label_primaries-keeps accepts rest,
  h,
  eq_iff want "primary",
  eq_iff p.role want,
  eq_iff p.role "primary",
)

label_primaries-settles :
    (accepts : RolePod → Bool) (roles : Assignment)
    → wants_primary roles ≡ true
    → (label_primaries accepts roles).1 ≡ true
    → settled (label_primaries accepts roles).0 ≡ true
unfolding label_primaries
label_primaries-settles accepts [] h ok = cc
label_primaries-settles accepts ((p, want) ∷ rest) h ok = ground (
  arith,
  label_primaries-settles accepts rest,
  h,
  ok,
  eq_iff want "primary",
  eq_iff p.role want,
  eq_iff p.role "primary",
)

label_replicas-settled :
    (accepts : RolePod → Bool) (roles : Assignment)
    → settled roles ≡ true
    → settled (label_replicas accepts roles).0 ≡ true
unfolding label_replicas
label_replicas-settled accepts [] h = cc
label_replicas-settled accepts ((p, want) ∷ rest) h = ground (
  arith,
  label_replicas-settled accepts rest,
  h,
  eq_iff want "primary",
  eq_iff p.role want,
  eq_iff p.role "primary",
)

settled-labelled :
    (roles : Assignment) → settled roles ≡ true → labelled_primary (pods_of roles) ≡ true
settled-labelled [] h = cc
settled-labelled ((p, want) ∷ rest) h = ground (arith, settled-labelled rest, h)

label_pods-primary :
    (accepts : RolePod → Bool) (roles : Assignment)
    → wants_primary roles ≡ true
    → labelled_primary (pods_of roles) ≡ true
    → labelled_primary (pods_of (label_pods accepts roles).0) ≡ true
unfolding label_pods
label_pods-primary accepts roles wanted labelled =
    let first = label_primaries accepts roles in
    if_intro {A = Assignment × Bool} (λ x. labelled_primary (pods_of x.0) ≡ true) first.1
      (label_replicas accepts first.0) (first.0, false)
      (λ ok.
        settled-labelled (label_replicas accepts first.0).0 (
          label_replicas-settled accepts first.0 (label_primaries-settles accepts roles wanted ok)))
      (λ _. label_primaries-keeps accepts roles labelled)

-- The assignment is one of these pods.
abbrev pub Assigns : List RolePod → Roles → Type 0
Assigns pods (assigned roles) = (pods_of roles ≡ pods) × (wants_primary roles ≡ true)
Assigns pods _ = Unit

-- The label of the primary is never lost: if a pod carries it and the assignment gives it to some pod, a pod
-- carries it after the patches too, wherever they stop.
pub reconcile-primary :
    (accepts : RolePod → Bool) (pods : List RolePod) (roles : Roles)
    → Assigns pods roles
    → labelled_primary pods ≡ true
    → labelled_primary (reconcile_role_labels accepts pods roles).pods ≡ true
unfolding reconcile_role_labels
reconcile-primary accepts pods suppressed a h = h
reconcile-primary accepts pods kept a h = h
reconcile-primary accepts pods (assigned roles) (same, wanted) h =
    label_pods-primary accepts roles wanted (rw same h)

-- Every pod carries the role that it should.
abbrev pub AsWanted : Assignment → Type 0
AsWanted [] = Unit
AsWanted ((p, want) ∷ rest) = (p.role ≡ want) × AsWanted rest

-- Every pod that should be the primary carries the label.
abbrev PrimariesAsWanted : Assignment → Type 0
PrimariesAsWanted [] = Unit
PrimariesAsWanted ((p, want) ∷ rest) = (want ≡ "primary" → p.role ≡ want) × PrimariesAsWanted rest

label_primaries-AsWanted :
    (accepts : RolePod → Bool) (roles : Assignment)
    → (label_primaries accepts roles).1 ≡ true
    → PrimariesAsWanted (label_primaries accepts roles).0
unfolding label_primaries
label_primaries-AsWanted accepts [] ok = tt
label_primaries-AsWanted accepts ((p, want) ∷ rest) ok =
    ground
      (arith, label_primaries-AsWanted accepts rest, ok, eq_iff want "primary", eq_iff p.role want)

label_replicas-AsWanted :
    (accepts : RolePod → Bool) (roles : Assignment)
    → PrimariesAsWanted roles
    → (label_replicas accepts roles).1 ≡ true
    → AsWanted (label_replicas accepts roles).0
unfolding label_replicas
label_replicas-AsWanted accepts [] h ok = tt
label_replicas-AsWanted accepts ((p, want) ∷ rest) (h, hs) ok = ground (
  arith,
  label_replicas-AsWanted accepts rest hs,
  h,
  ok,
  eq_iff want "primary",
  eq_iff p.role want,
)

abbrev pub wants_of : Assignment → List String
wants_of = map (λ x. x.1)

abbrev pub roles_of : List RolePod → List String
roles_of = map (λ p. p.role)

wants-label_primaries :
    (accepts : RolePod → Bool) (roles : Assignment)
    → wants_of (label_primaries accepts roles).0 ≡ wants_of roles
unfolding label_primaries
wants-label_primaries accepts [] = refl
wants-label_primaries accepts ((p, want) ∷ rest) =
    ground (arith, wants-label_primaries accepts rest)

wants-label_replicas :
    (accepts : RolePod → Bool) (roles : Assignment)
    → wants_of (label_replicas accepts roles).0 ≡ wants_of roles
unfolding label_replicas
wants-label_replicas accepts [] = refl
wants-label_replicas accepts ((p, want) ∷ rest) = ground (arith, wants-label_replicas accepts rest)

AsWanted-roles : (roles : Assignment) → AsWanted roles → roles_of (pods_of roles) ≡ wants_of roles
AsWanted-roles [] h = refl
AsWanted-roles ((p, want) ∷ rest) (h, hs) = ground (arith, h, AsWanted-roles rest hs)

label_pods-roles :
    (accepts : RolePod → Bool) (roles : Assignment)
    → (label_pods accepts roles).1 ≡ true
    → roles_of (pods_of (label_pods accepts roles).0) ≡ wants_of roles
unfolding label_pods
label_pods-roles accepts roles ok =
    let first = label_primaries accepts roles in
    let second = label_replicas accepts first.0 in
    let done : first.1 ≡ true = ground (arith, ok) in
    rw done (
      AsWanted-roles second.0 (
        label_replicas-AsWanted accepts first.0 (label_primaries-AsWanted accepts roles done)
          (ground (arith, ok)))
      ∙ (wants-label_replicas accepts first.0 ∙ wants-label_primaries accepts roles))

-- A pass that reports no error has given every pod the role that it should have.
pub reconcile-roles :
    (accepts : RolePod → Bool) (pods : List RolePod) (roles : Assignment)
    → (reconcile_role_labels accepts pods (assigned roles)).is_error ≡ false
    → roles_of (reconcile_role_labels accepts pods (assigned roles)).pods ≡ wants_of roles
unfolding reconcile_role_labels
reconcile-roles accepts pods roles h = label_pods-roles accepts roles (ground (arith, h))
