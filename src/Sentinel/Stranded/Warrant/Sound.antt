-- ===== src/Sentinel/Stranded/Warrant/Sound.antt =====
-- The sentinels that a pass removes although they gossip and monitor the resolved master.
use velkir.Prelude.{
  ◌≤◌, ◌≡◌, ◌≢◌, refl, inl, inr, sym, ap, Bool, false, ◌&&◌, List, [], ◌∷◌, Option, none, some,
  String, arith, str_eq, eq_iff, All, count_if,
}
use mathlib.Core.Path.{subst}
use velkir.Sentinel.Types.{Endpoint}
use velkir.Sentinel.Stranded.{RepointClassification, monitored}
use velkir.Sentinel.Stranded.Keep.{All-mono}
use velkir.Sentinel.Stranded.Ghosts.{Seen}
use velkir.Sentinel.Stranded.Recover.{
  RecoveryInput, gossips, kept_targets, with_ghost, select, recover_stranded_sentinels,
}
use velkir.Sentinel.Stranded.Warrant.Surgery.{recover-cases}
use velkir.Sentinel.Stranded.Warrant.Removed.{Unsound, select-Unsound, surgery-cases}

abbrev pub follows_host : String → Option String → Bool
follows_host master none = false
follows_host master (some h) = str_eq h master

-- A sentinel that gossips and monitors the resolved master.
abbrev pub is_sound : RecoveryInput → Endpoint → Bool
is_sound i ep = gossips (i.peers_of ep) && follows_host i.master_ip (monitored (i.probe_of ep))

follows-other :
    (master h : String) (host : Option String)
    → host ≡ some h
    → h ≢ master
    → follows_host master host ≡ false
follows-other master h none e other = refl
follows-other master h (some h') e other = ground (arith, eq_iff h' master, other, e)

pub Unsound-is_sound :
    (i : RecoveryInput) (c : RepointClassification) (ep : Endpoint)
    → Unsound i c ep
    → is_sound i ep ≡ false
unfolding gossips
Unsound-is_sound i c ep (inl (inl e)) = ground (arith, ap gossips e)
Unsound-is_sound i c ep (inl (inr e)) = ground (arith, ap gossips e)
Unsound-is_sound i c ep (inr (inl (h, ips, monitors, other, dead, table, all_dead))) =
    ground (arith, follows-other i.master_ip h (monitored (i.probe_of ep)) monitors other)
Unsound-is_sound i c ep
      (inr (inr ((e, g, (reads, (h, monitors, other, live), quiet), less, within, leads), still))) =
    ground (arith, follows-other i.master_ip h (monitored (i.probe_of ep)) monitors other)

count-none :
    (p : Endpoint → Bool) (eps : List Endpoint) (ghost : Option Endpoint)
    → All (λ ep. p ep ≡ false) eps
    → count_if p (with_ghost eps ghost) ≤ 1
count-none p [] none h = omega arith
count-none p [] (some g) h = ground arith
count-none p (ep ∷ eps) none (h, hs) = ground (arith, h, count-none p eps none hs)
count-none p (ep ∷ eps) (some g) (h, hs) = ground (arith, h, count-none p eps (some g) hs)

-- A pass removes at most one sentinel that gossips and monitors the resolved master.
pub recover-one_sound :
    (i : RecoveryInput) (seen : Seen)
    → count_if (is_sound i) (recover_stranded_sentinels i seen).0.removed ≤ 1
recover-one_sound i seen =
    let s = (select i seen).0 in
    recover-cases i seen (λ r. count_if (is_sound i) r.removed ≤ 1)
      (λ r e. subst (λ eps. count_if (is_sound i) eps ≤ 1) (sym e) (omega arith))
      (λ _.
        surgery-cases i s (λ eps. count_if (is_sound i) eps ≤ 1) (omega arith)
          (count-none (is_sound i) (kept_targets i s) s.ghost (
            All-mono (Unsound i s.repoint) (λ ep. is_sound i ep ≡ false) (kept_targets i s)
              (λ ep h. Unsound-is_sound i s.repoint ep h) (select-Unsound i seen))))
