-- ===== src/ValkeyConf/Mandatory.antt =====
-- internal/valkeyconf/render.go: the mandatory lines are lines, and set something.
use velkir.ValkeyConf.{
  Inputs, directive, directive_of, first_field, has_directive, is_space, lower,
  mandatory_directives, newline, numbered, pod_ip_placeholder, print_int, trim_left, trim_right,
  trim_space,
}
use velkir.ValkeyConf.Kept.{All-append}
use velkir.ValkeyConf.Lines.{Without-any, Without-append}
use velkir.Sentinel.SurgeryGuard.{codes}
use velkir.Decimal.{Text, Without, Without-itoa}
use velkir.Prelude.{
  ℕ, suc, ◌≡◌, refl, inl, Bool, true, false, ◌++◌, Option, none, some, arith, if◌then◌else◌, All,
}
use velkir.Prelude.Int.{ℤ, pos, negsuc}

pub Without-print_int : (n : ℤ) → Without newline (print_int n)
unfolding print_int
Without-print_int (pos n) = Without-itoa newline n (inl (omega arith))
Without-print_int (negsuc n) =
    (λ e. omega (arith, e), Without-itoa newline (suc n) (inl (omega arith)))

pub Without-numbered :
    (name : Text) (n : Option ℤ) → Without newline name → All (Without newline) (numbered name n)
Without-numbered name none h = tt
Without-numbered name (some n) h =
    (Without-append newline name (print_int n) h (Without-print_int n), tt)

unfoldable pub dir_line : Bool → Text
dir_line p = codes "dir " ++ (if p then codes "/data" else codes "/tmp")

pub Without-dir_line : (p : Bool) → Without newline (dir_line p)
unfolding dir_line
Without-dir_line true = Without-any newline (dir_line true) refl
Without-dir_line false = Without-any newline (dir_line false) refl

pub Without-mandatory : (i : Inputs) → All (Without newline) (mandatory_directives i)
unfolding mandatory_directives dir_line
Without-mandatory i = (
  Without-dir_line i.persistent,
  (
    Without-any newline (codes "port 6379") refl,
    (
      Without-any newline (codes "protected-mode no") refl,
      (
        Without-any newline (codes "replica-announce-ip " ++ pod_ip_placeholder) refl,
        (
          Without-any newline (codes "replica-announce-port 6379") refl,
          All-append (Without newline)
              (numbered (codes "min-replicas-to-write ") i.min_replicas_to_write)
              (numbered (codes "min-replicas-max-lag ") i.min_replicas_max_lag)
              (Without-numbered (codes "min-replicas-to-write ") i.min_replicas_to_write
                (Without-any newline (codes "min-replicas-to-write ") refl))
              (Without-numbered (codes "min-replicas-max-lag ") i.min_replicas_max_lag
                (Without-any newline (codes "min-replicas-max-lag ") refl)),
        ),
      ),
    ),
  ),
)

module _ (lower_wide : ℕ → ℕ) where
  pub live_dir : (p : Bool) → has_directive lower_wide (dir_line p) ≡ true
  unfolding dir_line lower directive trim_space trim_left trim_right directive_of first_field
      is_space
  live_dir true = refl
  live_dir false = refl

  pub live_ip : has_directive lower_wide (codes "replica-announce-ip " ++ pod_ip_placeholder) ≡ true
  unfolding lower directive trim_space trim_left trim_right directive_of first_field is_space
  live_ip = refl

  pub live_words :
      (has_directive lower_wide (codes "port 6379") ≡ true)
      × (has_directive lower_wide (codes "protected-mode no") ≡ true)
      × (has_directive lower_wide (codes "replica-announce-port 6379") ≡ true)
  unfolding lower directive trim_space trim_left trim_right directive_of first_field is_space
  live_words = (refl, refl, refl)

  pub live_numbers :
      (t : Text)
      → (has_directive lower_wide (codes "min-replicas-to-write " ++ t) ≡ true)
        × (has_directive lower_wide (codes "min-replicas-max-lag " ++ t) ≡ true)
  unfolding lower directive trim_space trim_left trim_right directive_of first_field is_space
  live_numbers t = (refl, refl)

  pub live_numbered :
      (name : Text) (n : Option ℤ)
      → ((t : Text) → has_directive lower_wide (name ++ t) ≡ true)
      → All (λ l. has_directive lower_wide l ≡ true) (numbered name n)
  live_numbered name none h = tt
  live_numbered name (some n) h = (h (print_int n), tt)

  pub live_mandatory :
      (i : Inputs) → All (λ l. has_directive lower_wide l ≡ true) (mandatory_directives i)
  unfolding mandatory_directives dir_line
  live_mandatory i = (
    live_dir i.persistent,
    (
      live_words.0,
      (
        live_words.1,
        (
          live_ip,
          (
            live_words.2,
            All-append (λ l. has_directive lower_wide l ≡ true)
                (numbered (codes "min-replicas-to-write ") i.min_replicas_to_write)
                (numbered (codes "min-replicas-max-lag ") i.min_replicas_max_lag)
                (live_numbered (codes "min-replicas-to-write ") i.min_replicas_to_write
                  (λ t. (live_numbers t).0))
                (live_numbered (codes "min-replicas-max-lag ") i.min_replicas_max_lag
                  (λ t. (live_numbers t).1)),
          ),
        ),
      ),
    ),
  )
