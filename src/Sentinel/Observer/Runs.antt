-- ===== src/Sentinel/Observer/Runs.antt =====
-- Runs of the observer.
use velkir.Prelude.{◌≡◌, refl, ◌∙◌, List, [], ◌∷◌, none, some, String, arith}
use velkir.Prelude.Int.{◌≤ℤ◌}
use velkir.Prelude.Time.{Time, before}
use velkir.Sentinel.Types.{Source, ObservedPrimary}
use velkir.Sentinel.Observer.{
  Observer, Frame, switch_master, odown, odown_clear, failover_end, other_kind, Polled, Order,
  publish_locked, publish_poll, poll_once, dispatch, carry, on_switch_master, on_odown,
  on_odown_clear, is_reachable,
}

-- What an observer meets: a frame from an endpoint, or the answers to a poll.
pub data Happening : Type 0 where
  frame : Time → String → Frame → Happening
  poll : Order → Time → List Polled → Happening

unfoldable pub after_one : String → Happening → Observer → Observer
after_one master (frame now ep f) o = dispatch master now ep f o
after_one master (poll order now polls) o = poll_once order now polls o

-- After these, the latest first.
unfoldable pub observe : String → List Happening → Observer → Observer
observe master [] o = o
observe master (h ∷ hs) o = after_one master h (observe master hs o)

-- The flag says what the status says, and the epoch has not fallen.
abbrev pub Follows : ObservedPrimary → ObservedPrimary → Type 0
Follows before p = (p.quorum_ok ≡ is_reachable p.quorum) × (before.epoch ≤ℤ p.epoch)

abbrev Consistent : Observer → Type 0
Consistent o = o.published.quorum_ok ≡ is_reachable o.published.quorum

carry-Follows :
    (now : Time) (addr : String) (src : Source) (o : Observer)
    → Follows o.published (carry now addr src o).published
unfolding carry publish_locked
carry-Follows now addr src o = (refl, omega arith)

dispatch-Follows :
    (master : String) (now : Time) (ep : String) (f : Frame) (o : Observer)
    → Consistent o
    → Follows o.published (dispatch master now ep f o).published
unfolding dispatch on_switch_master on_odown on_odown_clear carry publish_locked
dispatch-Follows master now ep other_kind o h = (h, omega arith)
dispatch-Follows master now ep (switch_master none) o h = (h, omega arith)
dispatch-Follows master now ep (switch_master (some ev)) o h = ground (arith, h)
dispatch-Follows master now ep (odown none) o h = (h, omega arith)
dispatch-Follows master now ep (odown (some ev)) o h = ground (arith, h)
dispatch-Follows master now ep (odown_clear none) o h = (h, omega arith)
dispatch-Follows master now ep (odown_clear (some ev)) o h = ground (arith, h)
dispatch-Follows master now ep (failover_end none) o h = (h, omega arith)
dispatch-Follows master now ep (failover_end (some ev)) o h = ground (arith, h)

poll-Follows :
    (order : Order) (now : Time) (polls : List Polled) (o : Observer)
    → Follows o.published (poll_once order now polls o).published
unfolding poll_once publish_poll publish_locked
poll-Follows order now polls o = ground arith

one-Follows :
    (master : String) (h : Happening) (o : Observer)
    → Consistent o
    → Follows o.published (after_one master h o).published
unfolding after_one
one-Follows master (frame now ep f) o c = dispatch-Follows master now ep f o c
one-Follows master (poll order now polls) o c = poll-Follows order now polls o

-- From an observer whose flag says what its quorum status says, however frames and polls come, the flag
-- still does, and the epoch of the published primary has not fallen.
pub observe-Follows :
    (master : String) (hs : List Happening) (o : Observer)
    → o.published.quorum_ok ≡ is_reachable o.published.quorum
    → Follows o.published (observe master hs o).published
unfolding observe
observe-Follows master [] o c = (c, omega arith)
observe-Follows master (h ∷ hs) o c =
    let before = observe-Follows master hs o c in
    let step = one-Follows master h (observe master hs o) before.0 in
    (step.0, omega (arith, before.1, step.1))

-- When the latest poll was, if there was one.
abbrev pub last_poll : Time → List Happening → Time
last_poll start [] = start
last_poll start (frame now ep f ∷ hs) = last_poll start hs
last_poll start (poll order now polls ∷ hs) = now

dispatch-last_polled :
    (master : String) (now : Time) (ep : String) (f : Frame) (o : Observer)
    → (dispatch master now ep f o).published.last_polled_at ≡ o.published.last_polled_at
unfolding dispatch on_switch_master on_odown on_odown_clear carry publish_locked
dispatch-last_polled master now ep other_kind o = refl
dispatch-last_polled master now ep (switch_master none) o = refl
dispatch-last_polled master now ep (switch_master (some ev)) o = ground arith
dispatch-last_polled master now ep (odown none) o = refl
dispatch-last_polled master now ep (odown (some ev)) o = ground arith
dispatch-last_polled master now ep (odown_clear none) o = refl
dispatch-last_polled master now ep (odown_clear (some ev)) o = ground arith
dispatch-last_polled master now ep (failover_end none) o = refl
dispatch-last_polled master now ep (failover_end (some ev)) o = ground arith

-- The stamp that the freshness gates read is the time of the latest poll: no frame moves it.
pub observe-last_poll :
    (master : String) (hs : List Happening) (o : Observer)
    → (observe master hs o).published.last_polled_at ≡ last_poll o.published.last_polled_at hs
unfolding observe after_one poll_once publish_poll publish_locked
observe-last_poll master [] o = refl
observe-last_poll master (frame now ep f ∷ hs) o =
    dispatch-last_polled master now ep f (observe master hs o) ∙ observe-last_poll master hs o
observe-last_poll master (poll order now polls ∷ hs) o = ground arith
