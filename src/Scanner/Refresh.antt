-- ===== src/Scanner/Refresh.antt =====
-- src/ichnos/scanner.py: `run_refresh_scan`.
-- The caller hands out the known hosts one by one while the reader thread records results, so a run
-- is a list of turns: a round of the caller's loop, with what `monotonic()` returns at its head, or a
-- result line. `rate_limiter.wait()` takes time and is counted in `waits`.
pub mod Covered
use ichnos.Base.{
  ℕ, zero, suc, ◌+◌, Str, codes, nonempty, leb, Bool, true, false, List, [], ◌∷◌, Option, none,
  some, if◌then◌else◌, Raises, ok, raised, Error,
}
use ichnos.Blocklist.{is_blocked, read_blocklist_file}
use ichnos.Scanner.{Platform, Job, World, Run}
use ichnos.Scanner.Scan.{Surroundings, begin_run, attempt_one, end_run}
use ichnos.Scanner.Stream.{zgrab2_line, Grabber, Grabbing, submit, step, close, new_grabber}

pub data Turn : Type 0 where
  round : ℕ → Turn
  result_line : Str → Turn

module _ (P : Platform) (job : Job) (out : Surroundings) where
  -- The grabber with the hosts not yet handed out. `over` says that the loop has ended early: the
  -- budget ran out, or the block list could not be read as networks, which raises.
  pub record Loop : Type 0 where
    pub grabber : Grabbing P job
    pub left : List Str
    pub waits : ℕ
    pub handed : List Str
    pub over : Option (Raises (Unit {0}))

  attempt : Loop → Loop
  attempt l = record l {
    grabber = record l.grabber { world = attempt_one P job out l.grabber.world };
  }

  hand_out : Str → Loop → Loop
  hand_out ip l = record l {
    grabber = submit ip l.grabber;
    waits = l.waits + 1;
    handed = ip ∷ l.handed;
  }

  -- The host's own round, from `targets_attempted += 1` on.
  checked : Str → Raises Bool → Loop → Loop
  unfolding hand_out
  checked ip (ok true) l = l
  checked ip (ok false) l = hand_out ip l
  checked ip (raised e) l = record l { over = some (raised e) }

  past : Option ℕ → ℕ → Bool
  past none now = false
  past (some deadline) now = leb deadline now

  next_host : List Str → Option ℕ → ℕ → List Str → Loop → Loop
  unfolding attempt checked past
  next_host cidrs deadline now [] l = l
  next_host cidrs deadline now (ip ∷ ips) l =
      if past deadline now
      then record l { over = some (ok tt) }
      else checked ip (is_blocked out.parse_v6 ip cidrs) (attempt (record l { left = ips }))

  turn : List Str → Option ℕ → Turn → Loop → Loop
  unfolding next_host
  turn cidrs deadline (round now) l = elim l.over [
    | none ↦ next_host cidrs deadline now l.left l
    | some _ ↦ l
  ]
  turn cidrs deadline (result_line line) l = record l {
    grabber = step P job (zgrab2_line line) l.grabber;
  }

  unfoldable pub run_turns : List Str → Option ℕ → List Turn → Loop → Loop
  unfolding turn
  run_turns cidrs deadline [] l = l
  run_turns cidrs deadline (t ∷ ts) l = run_turns cidrs deadline ts (turn cidrs deadline t l)

  abbrev pub begin_loop : List Str → Run P → Loop
  begin_loop hosts w = record {
    grabber = new_grabber P job w;
    left = hosts;
    waits = 0;
    handed = [];
    over = none;
  }

  -- What is left after the `finally`, which closes the grabber on every path.
  finished : Option (Raises (Unit {0})) → Run P → Raises (Unit {0}) × Run P
  unfolding end_run
  finished (some (raised e)) w = (raised e, w)
  finished _ w = (ok tt, end_run P job out (codes "completed") w)

  -- A budget that is `None` or 0 sets no deadline.
  deadline_of : ℕ → Option ℕ → Option ℕ
  deadline_of start none = none
  deadline_of start (some zero) = none
  deadline_of start (some (suc budget)) = some (start + suc budget)

  -- `run_refresh_scan`; `start` is what `monotonic()` returns when the deadline is set.
  unfoldable pub run_refresh_scan :
      List Str → ℕ → Option ℕ → List Turn → P.index.State → ℕ → Raises (Unit {0}) × Run P
  unfolding finished deadline_of begin_run
  run_refresh_scan known_hosts start budget turns s t =
      let w = begin_run P job out none s t in
      let l =
        run_turns (read_blocklist_file out.blocklist) (deadline_of start budget) turns
          (begin_loop known_hosts w) in
      finished l.over (close P job l.grabber).world
