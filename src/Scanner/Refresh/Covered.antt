-- ===== src/Scanner/Refresh/Covered.antt =====
-- Which hosts a refresh run covers (`run_refresh_scan` of src/ichnos/scanner.py).
use native.Mathlib.Numerals.{add-one}
use ichnos.Base.{
  ℕ, zero, suc, ◌≤◌, ◌<◌, Str, Bool, true, false, List, [], ◌∷◌, Option, none, some, if◌then◌else◌,
  Raises, ok, raised, ◌≡◌, refl, sym, ◌∙◌, ap, arith, All, length, drop,
}
use ichnos.Json.{Fields}
use ichnos.Blocklist.{is_blocked}
use ichnos.Scanner.{Platform, Job, World, Run, observe, tick, record_grab_result}
use ichnos.Scanner.Consistent.{IsConsistent, count_answered}
use ichnos.Scanner.Record.{metadata-record}
use ichnos.Scanner.Scan.{Surroundings, begin_run, attempt_one}
use ichnos.Scanner.Stream.{zgrab2_line, submit, step, new_grabber}
use ichnos.Scanner.Stream.Keeps.{Keeps, keeps-step}
use ichnos.Scanner.Stream.Sound.{IsConsistent-Keeps}
use ichnos.Scanner.Refresh.{
  Turn, round, result_line, Loop, attempt, hand_out, checked, past, next_host, turn, run_turns,
  begin_loop,
}

drop-suc {ℓ} :
    {A : Type ℓ} (n : ℕ) (xs : List A) {x : A} {ys : List A}
    → drop n xs ≡ x ∷ ys
    → drop (suc n) xs ≡ ys
drop-suc zero [] h = cc
drop-suc zero (x ∷ xs) h = cc
drop-suc (suc n) [] h = cc
drop-suc (suc n) (x ∷ xs) h = drop-suc n xs h

drop-lt {ℓ} :
    {A : Type ℓ} (n : ℕ) (xs : List A) {x : A} {ys : List A} → drop n xs ≡ x ∷ ys → n < length xs
drop-lt zero [] h = cc
drop-lt zero (x ∷ xs) h = omega arith
drop-lt (suc n) [] h = cc
drop-lt (suc n) (x ∷ xs) h = omega (arith, drop-lt n xs h)

abbrev targets : {S : Type 0} → World S → ℕ
targets w = w.outcome.metadata.targets_attempted

module _ (P : Platform) (job : Job) where
  abbrev Attempted : ℕ → Run P → Type 0
  Attempted n w = targets w ≡ n

  Attempted-record :
      (n : ℕ) (m : Option Fields) (ip : Str) (w : Run P)
      → Attempted n w
      → Attempted n (record_grab_result P job m ip w).1
  Attempted-record n m ip w h =
      let (_, e) = metadata-record P job m ip w in ap (λ d. d.targets_attempted) e ∙ h

  Attempted-Keeps : (n : ℕ) → Keeps P job (Attempted n)
  Attempted-Keeps n = record { grab = Attempted-record n; rst = λ ip w h. unfold observe tick in h }

module _ (P : Platform) (job : Job) (out : Surroundings) (cidrs known : List Str) where
  abbrev world : Loop P job out → Run P
  world l = l.grabber.world

  -- The hosts still to come are what the attempted prefix leaves, and no blocked host was handed out.
  pub record IsCovering (l : Loop P job out) : Type 0 where
    pub prefix : l.left ≡ drop (world l).outcome.metadata.targets_attempted known
    pub within_known : (world l).outcome.metadata.targets_attempted ≤ length known
    pub allowed : All (λ ip. is_blocked out.parse_v6 ip cidrs ≡ ok false) l.handed
    pub consistent : IsConsistent P job (world l)

  IsCovering-checked :
      (ip : Str) (r : Raises Bool) (l : Loop P job out)
      → is_blocked out.parse_v6 ip cidrs ≡ r
      → IsCovering l
      → IsCovering (checked P job out ip r l)
  unfolding checked hand_out submit
  IsCovering-checked ip (ok true) l e c = c
  IsCovering-checked ip (ok false) l e c = record {
    prefix = c.prefix;
    within_known = c.within_known;
    allowed = (e, c.allowed);
    consistent = c.consistent;
  }
  IsCovering-checked ip (raised x) l e c = record {
    prefix = c.prefix;
    within_known = c.within_known;
    allowed = c.allowed;
    consistent = c.consistent;
  }

  IsCovering-attempt :
      (ip : Str) (ips : List Str) (l : Loop P job out)
      → l.left ≡ ip ∷ ips
      → IsCovering l
      → IsCovering (attempt P job out (record l { left = ips }))
  unfolding attempt attempt_one
  IsCovering-attempt ip ips l e c = record {
    prefix = rw add-one (sym (drop-suc (targets (world l)) known (sym c.prefix ∙ e)));
    within_known = omega (arith, drop-lt (targets (world l)) known (sym c.prefix ∙ e));
    allowed = c.allowed;
    consistent = record {
      responsive = c.consistent.responsive;
      labelled = c.consistent.labelled;
      backed = c.consistent.backed;
      distinct = c.consistent.distinct;
    };
  }

  IsCovering-over :
      (r : Raises (Unit {0})) (l : Loop P job out)
      → IsCovering l
      → IsCovering (record l { over = some r })
  IsCovering-over r l c = record {
    prefix = c.prefix;
    within_known = c.within_known;
    allowed = c.allowed;
    consistent = c.consistent;
  }

  IsCovering-host :
      (late : Bool) (ip : Str) (ips : List Str) (l : Loop P job out)
      → l.left ≡ ip ∷ ips
      → IsCovering l
      → IsCovering (
          if late
          then record l { over = some (ok tt) }
          else checked P job out ip
              (is_blocked out.parse_v6 ip cidrs)
              (attempt P job out (record l { left = ips })))
  IsCovering-host true ip ips l e c = IsCovering-over (ok tt) l c
  IsCovering-host false ip ips l e c =
      IsCovering-checked ip _ _ refl (IsCovering-attempt ip ips l e c)

  IsCovering-next :
      (deadline : Option ℕ) (now : ℕ) (hosts : List Str) (l : Loop P job out)
      → l.left ≡ hosts
      → IsCovering l
      → IsCovering (next_host P job out cidrs deadline now hosts l)
  unfolding next_host
  IsCovering-next deadline now [] l e c = c
  IsCovering-next deadline now (ip ∷ ips) l e c =
      IsCovering-host (past P job out deadline now) ip ips l e c

  IsCovering-result :
      (line : Str) (l : Loop P job out)
      → IsCovering l
      → IsCovering (record l { grabber = step P job (zgrab2_line line) l.grabber })
  IsCovering-result line l c =
      let same =
        keeps-step P job (Attempted-Keeps P job (targets (world l))) (zgrab2_line line) l.grabber
          refl in
      record {
        prefix = rw same c.prefix;
        within_known = rw same c.within_known;
        allowed = c.allowed;
        consistent =
            keeps-step P job (IsConsistent-Keeps P job) (zgrab2_line line) l.grabber c.consistent;
      }

  IsCovering-round :
      (deadline : Option ℕ) (now : ℕ) (o : Option (Raises (Unit {0}))) (l : Loop P job out)
      → IsCovering l
      → IsCovering (elim o [ none ↦ next_host P job out cidrs deadline now l.left l | some _ ↦ l ])
  IsCovering-round deadline now none l c = IsCovering-next deadline now l.left l refl c
  IsCovering-round deadline now (some r) l c = c

  IsCovering-turns :
      (deadline : Option ℕ) (ts : List Turn) (l : Loop P job out)
      → IsCovering l
      → IsCovering (run_turns P job out cidrs deadline ts l)
  unfolding run_turns turn
  IsCovering-turns deadline [] l c = c
  IsCovering-turns deadline (round now ∷ ts) l c =
      IsCovering-turns deadline ts _ (IsCovering-round deadline now l.over l c)
  IsCovering-turns deadline (result_line line ∷ ts) l c =
      IsCovering-turns deadline ts _ (IsCovering-result line l c)

  -- For any turns of the two threads, any deadline, and also where the loop was cut short by the
  -- deadline or by an unreadable block list: the hosts attempted are a prefix of the known hosts, as
  -- long as `targets_attempted` says; no blocked host was handed to ZGrab2; and what has been recorded
  -- is consistent.
  pub turns-IsCovering :
      (deadline : Option ℕ) (ts : List Turn) (s : P.index.State) (t : ℕ)
      → IsCovering (
          run_turns P job out cidrs deadline ts
            (begin_loop P job out known (begin_run P job out none s t)))
  unfolding begin_run new_grabber count_answered
  turns-IsCovering deadline ts s t = IsCovering-turns deadline ts _ (record {
    prefix = refl;
    within_known = omega arith;
    allowed = tt;
    consistent = record { responsive = refl; labelled = tt; backed = tt; distinct = tt };
  })
