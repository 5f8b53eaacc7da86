-- ===== src/Sentinel/Stranded/Warrant/Removed.antt =====
-- The sentinels that a pass removes.
use mathlib.Core.Path.{subst}
use velkir.Prelude.{
  if_intro, ◌≡◌, ◌⊎◌, refl, inl, inr, sym, true, false, not, List, [], ◌∷◌, ◌++◌, Option, none,
  some, String, arith, All,
}
use velkir.Sentinel.Types.{Endpoint}
use velkir.Sentinel.Stranded.{
  keep, is_among, classify_stranded_sentinels, RepointClassification, is_empty,
  live_sentinel_ip_set,
}
use velkir.Sentinel.Stranded.Epochs.{Behind}
use velkir.Sentinel.Stranded.Keep.{All-mono, keep-both, All-append, All-both}
use velkir.Sentinel.Stranded.Ghosts.{Seen, select_ghost_reap_target}
use velkir.Sentinel.Stranded.Debounce.{ReapPass, seen_after, LongAbsent, HolderOf, reap-LongAbsent}
use velkir.Sentinel.Stranded.Recover.{
  RecoveryInput, RecoveryResult, Selection, names, electing_names, select, ghost_step, unless_wiped,
  to_reset, reset_of, wiped_of, reported, none_left, kept_targets, with_ghost, surgery,
  recover_stranded_sentinels, to_monitor,
}
use velkir.Sentinel.Stranded.Warrant.{
  KnowsNobody, MonitorsCorpse, classify-KnowsNobody, select-Repoints, Repoints,
}
use velkir.Sentinel.Stranded.Warrant.Guards.{StillQuiet, keeps-StillQuiet}
use velkir.Sentinel.Stranded.Warrant.Surgery.{recover-cases}

-- The pass as the ghosts see it.
abbrev pub reap_pass_of : RecoveryInput → ReapPass
reap_pass_of i =
    let live = live_sentinel_ip_set i.endpoints in
    record {
      now = i.now;
      holders = (classify_stranded_sentinels true i.peers_of live i.endpoints).ghost_holders;
      live = live;
    }

-- It gossips with a ghost that every pass has found for long enough, and reaping is allowed.
abbrev pub HoldsOldGhost : RecoveryInput → List ReapPass → Endpoint → Type 0
HoldsOldGhost i ps ep =
    (i.allow_ghost_reap ≡ true)
    × HolderOf (λ h. LongAbsent (reap_pass_of i) ps h.ghost_ips) ep (reap_pass_of i).holders

ghost_step-HoldsOldGhost :
    (i : RecoveryInput) (ps : List ReapPass) (ep : Endpoint)
    → (ghost_step i (reap_pass_of i).holders (reap_pass_of i).live (seen_after ps)).0 ≡ some ep
    → HoldsOldGhost i ps ep
unfolding ghost_step
ghost_step-HoldsOldGhost i ps ep =
    let p = reap_pass_of i in
    let P = Option Endpoint × Seen in
    let rest : P = (none, seen_after ps) in
    let chosen : P =
      select_ghost_reap_target p.now p.holders p.live i.allow_ghost_reap (seen_after ps) in
    if_intro (λ (r : P). r.0 ≡ some ep → HoldsOldGhost i ps ep) (is_empty p.live) rest chosen
      (λ _ e. absurd cc) (λ _ e. reap-LongAbsent p ps i.allow_ghost_reap ep e)

unless_wiped-some :
    (wiped : List String) (chosen : Option Endpoint) (ep : Endpoint)
    → unless_wiped wiped chosen ≡ some ep
    → chosen ≡ some ep
unless_wiped-some wiped none ep = λ e. e
unless_wiped-some wiped (some g) ep =
    if_intro (λ r. r ≡ some ep → some g ≡ some ep) (is_among wiped g.name) none (some g)
      (λ _ e. absurd cc) (λ _ e. e)

-- It knows nobody, monitors a corpse, or is behind.
abbrev pub Unsound : RecoveryInput → RepointClassification → Endpoint → Type 0
Unsound i c ep =
    KnowsNobody i.peers_of ep
    ⊎ MonitorsCorpse i ep
    ⊎ (Behind i.master_ip i.live_valkey_ips i.probe_of i.endpoints ep × StillQuiet i c ep)

-- Why a sentinel may be removed.
abbrev pub Warranted : RecoveryInput → List ReapPass → RepointClassification → Endpoint → Type 0
Warranted i ps c ep = Unsound i c ep ⊎ HoldsOldGhost i ps ep

All-with_ghost :
    (P : Endpoint → Type 0) (eps : List Endpoint) (ghost : Option Endpoint)
    → All P eps
    → ((g : Endpoint) → ghost ≡ some g → P g)
    → All P (with_ghost eps ghost)
All-with_ghost P eps none h f = h
All-with_ghost P eps (some g) h f = All-append P eps (g ∷ []) h (f g refl, tt)

reset-Unsound :
    (i : RecoveryInput) (s : Selection)
    → All (KnowsNobody i.peers_of) s.classified.targets
    → Repoints
        (MonitorsCorpse i)
        (Behind i.master_ip i.live_valkey_ips i.probe_of i.endpoints)
        s.repoint
    → All
        (λ ep. is_among (electing_names i s.repoint) ep.name ≡ false → Unsound i s.repoint ep)
        (reset_of i s)
unfolding to_reset
reset-Unsound i s nobody (corpses, stale) =
    let drop = electing_names i s.repoint in
    let B = Behind i.master_ip i.live_valkey_ips i.probe_of i.endpoints in
    let Kept : Endpoint → Type 0 = λ ep. is_among drop ep.name ≡ false → Unsound i s.repoint ep in
    let skipping = λ (ep : Endpoint). not (is_among i.skip_addrs ep.addr) in
    All-append Kept (keep skipping s.classified.targets)
      (s.repoint.dead_master ++ s.repoint.stale.stale_epoch)
      (All-mono (λ ep. KnowsNobody i.peers_of ep × (skipping ep ≡ true)) Kept
        (keep skipping s.classified.targets) (λ ep h _. inl h.0)
        (keep-both (KnowsNobody i.peers_of) skipping s.classified.targets nobody))
      (All-append Kept s.repoint.dead_master s.repoint.stale.stale_epoch
        (All-mono (MonitorsCorpse i) Kept s.repoint.dead_master (λ ep h _. inr (inl h)) corpses)
        (All-mono (λ ep. B ep × (is_among drop ep.name ≡ false → StillQuiet i s.repoint ep)) Kept
          s.repoint.stale.stale_epoch (λ ep h kept. inr (inr (h.0, h.1 kept)))
          (All-both B (λ ep. is_among drop ep.name ≡ false → StillQuiet i s.repoint ep)
            s.repoint.stale.stale_epoch stale (keeps-StillQuiet i s.repoint))))

kept-Unsound :
    (i : RecoveryInput) (s : Selection)
    → All (KnowsNobody i.peers_of) s.classified.targets
    → Repoints
        (MonitorsCorpse i)
        (Behind i.master_ip i.live_valkey_ips i.probe_of i.endpoints)
        s.repoint
    → All (Unsound i s.repoint) (kept_targets i s)
unfolding kept_targets
kept-Unsound i s nobody repoints =
    let drop = electing_names i s.repoint in
    let U = Unsound i s.repoint in
    let staying = λ (ep : Endpoint). not (is_among drop ep.name) in
    All-mono (λ ep. (is_among drop ep.name ≡ false → U ep) × (staying ep ≡ true)) U
      (keep staying (reset_of i s)) (λ ep h. h.0 (ground (arith, h.1)))
      (keep-both (λ ep. is_among drop ep.name ≡ false → U ep) staying (reset_of i s)
        (reset-Unsound i s nobody repoints))

-- Of what is selected, the targets that stay.
pub select-Unsound :
    (i : RecoveryInput) (seen : Seen)
    → All (Unsound i (select i seen).0.repoint) (kept_targets i (select i seen).0)
unfolding select
select-Unsound i seen =
    let s = (select i seen).0 in
    kept-Unsound i s (classify-KnowsNobody true (reap_pass_of i).live i.peers_of i.endpoints)
      (select-Repoints i (names s.classified.targets))

-- The surgery removes nothing, or the targets that stay and the ghost target.
pub surgery-cases :
    (i : RecoveryInput) (s : Selection) (P : List Endpoint → Type 0)
    → P []
    → P (with_ghost (kept_targets i s) s.ghost)
    → P (surgery i s).removed
unfolding surgery
surgery-cases i s P idle act =
    let drop = electing_names i s.repoint in
    let targets = with_ghost (kept_targets i s) s.ghost in
    let out : RecoveryResult = record (reported i s) {
      stale_epoch_repointed = keep (λ n. not (is_among drop n)) (names s.repoint.stale.stale_epoch);
    } in
    let done : RecoveryResult = record out {
      stranded = out.stranded ++ names (with_ghost [] s.ghost);
      removed = targets;
      monitored = to_monitor i.remove_succeeds targets;
    } in
    if_intro (λ r. P r.removed) (none_left (kept_targets i s) s.ghost) out done (λ _. idle)
      (λ _. act)

-- The first part of what is selected, with the ghost of it.
select-ghost :
    (i : RecoveryInput) (ps : List ReapPass) (g : Endpoint)
    → (select i (seen_after ps)).0.ghost ≡ some g
    → HoldsOldGhost i ps g
unfolding select
select-ghost i ps g e = ghost_step-HoldsOldGhost i ps g (
    unless_wiped-some (wiped_of i (select i (seen_after ps)).0)
      (ghost_step i (reap_pass_of i).holders (reap_pass_of i).live (seen_after ps)).0 g e)

-- Each sentinel that a pass removes knows nobody, or monitors a pod that is gone with no replica left that
-- it could promote, or is behind the sentinels that monitor the resolved master and shows no election when
-- it is read again, or holds a ghost that all passes of the last 30 seconds have found.
pub recover-Warranted :
    (i : RecoveryInput) (ps : List ReapPass)
    → All
        (Warranted i ps (select i (seen_after ps)).0.repoint)
        (recover_stranded_sentinels i (seen_after ps)).0.removed
recover-Warranted i ps =
    let s = (select i (seen_after ps)).0 in
    let U = Unsound i s.repoint in
    let W = Warranted i ps s.repoint in
    recover-cases i (seen_after ps) (λ r. All W r.removed) (λ r e. subst (All W) (sym e) tt)
      (λ _. surgery-cases i s (All W) tt (
        All-with_ghost W (kept_targets i s) s.ghost
          (All-mono U W (kept_targets i s) (λ ep h. inl h) (select-Unsound i (seen_after ps)))
          (λ g e. inr (select-ghost i ps g e))))
