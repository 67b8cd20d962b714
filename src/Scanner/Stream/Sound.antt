-- ===== src/Scanner/Stream/Sound.antt =====
-- A streaming run and the consistency of what it records (src/ichnos/scanner.py).
use ichnos.Base.{ℕ, Str, str_eq, Bool, List, none, refl}
use ichnos.Scanner.{Platform, Job, Run, closed, observe, tick}
use ichnos.Scanner.Consistent.{IsConsistent}
use ichnos.Scanner.Consistent.Kept.{record-IsConsistent, IsConsistent-silent}
use ichnos.Scanner.Stream.{Event, set_targets, fail, stream_discover_and_grab}
use ichnos.Scanner.Stream.Keeps.{Keeps, keeps-stream}

module _ (P : Platform) (job : Job) where
  IsConsistent-fail : (w : Run P) → IsConsistent P job w → IsConsistent P job (fail P job w)
  unfolding fail
  IsConsistent-fail w c = record {
    responsive = c.responsive;
    labelled = c.labelled;
    backed = c.backed;
    distinct = c.distinct;
  }

  IsConsistent-targets :
      (n : ℕ) (w : Run P) → IsConsistent P job w → IsConsistent P job (set_targets P job n w)
  unfolding set_targets
  IsConsistent-targets n w c = record {
    responsive = c.responsive;
    labelled = c.labelled;
    backed = c.backed;
    distinct = c.distinct;
  }

  IsConsistent-closed :
      (ip : Str) (w : Run P)
      → IsConsistent P job w
      → IsConsistent P job (observe job (P.clock w.ticks) ip closed none (tick w))
  unfolding str_eq
  IsConsistent-closed ip w c =
      IsConsistent-silent P job (P.clock w.ticks) ip closed none w refl refl c

  pub IsConsistent-Keeps : Keeps P job (IsConsistent P job)
  IsConsistent-Keeps = record { grab = record-IsConsistent P job; rst = IsConsistent-closed }

  -- From a consistent outcome, for any lines of ZMap and ZGrab2 in any order and either exit code, a
  -- discovery run ends consistent: `hosts_responsive` counts the observations of hosts that spoke the
  -- protocol, an observation has a fingerprint exactly if its status is "success" and names this run,
  -- the new versions have distinct fingerprints, and each is recorded in the index and served by an
  -- observed host.
  pub stream-IsConsistent :
      (max_targets : ℕ) (events : List Event) (exited_cleanly : Bool) (w : Run P)
      → IsConsistent P job w
      → IsConsistent P job (stream_discover_and_grab P job max_targets events exited_cleanly w)
  stream-IsConsistent n es b w c =
      keeps-stream P job IsConsistent-Keeps n es b w IsConsistent-fail (IsConsistent-targets n w c)
