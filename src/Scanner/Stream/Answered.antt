-- ===== src/Scanner/Stream/Answered.antt =====
-- Submitted hosts and their results (`_StreamingGrabber` of src/ichnos/scanner.py).
use ichnos.Base.{
  Str, codes, ◌==◌, contains, contains-append, str_le, strip, split, nonempty, Bool, true, false,
  ◌||◌, List, [], ◌∷◌, ◌++◌, Option, none, some, if◌then◌else◌, Raises, ok, raised, ◌≡◌, refl, sym,
  arith, eq_iff, Bool-cases, inl, inr,
}
use ichnos.Base.Sort.{sorted, contains-sorted}
use ichnos.Json.{Json, text, obj, Fields, get, truthy}
use ichnos.Scanner.{Platform, Job, successful_module_result, tick, observe}
use ichnos.Scanner.Record.{observed, observed-append, observed-record}
use ichnos.Scanner.Stream.{
  Event, zmap_line, zgrab2_line, insert, discard, Grabbing, submit, record_result, end_reader,
  read_result, answer, answer_unknown, hashable, drain_unknown, drain_host, drain_value, drain,
  record_closed, on_classified, discover, step, run, record_unanswered, close,
}

contains-insert : (x y : Str) (s : List Str) → contains y (insert x s) ≡ ((x == y) || contains y s)
unfolding contains insert
contains-insert x y s = ground (arith, eq_iff x y, eq_iff y x)

contains-discard :
    (x y : Str) (s : List Str) → (y == x) ≡ false → contains y (discard x s) ≡ contains y s
unfolding contains discard
contains-discard x y [] h = refl
contains-discard x y (z ∷ s) h =
    ground (arith, contains-discard x y s, eq_iff z x, eq_iff y z, eq_iff y x)

pub contains-discard_self : (x : Str) (s : List Str) → contains x (discard x s) ≡ false
unfolding contains discard
contains-discard_self x [] = refl
contains-discard_self x (z ∷ s) = ground (arith, contains-discard_self x s, eq_iff z x, eq_iff x z)

-- The host that a line of ZMap submits, as its fields say.
synack_host : Option (Str × Str) → List Str
synack_host none = []
synack_host (some (ip, class)) = if strip class == codes "synack" then strip ip ∷ [] else []

submitted_by : Event → List Str
unfolding synack_host
submitted_by (zmap_line line) = synack_host (split 44 (strip line))
submitted_by (zgrab2_line line) = []

-- The hosts that a run hands to ZGrab2: the addresses that ZMap reports with `synack`.
unfoldable pub submitted_hosts : List Event → List Str
unfolding submitted_by
submitted_hosts [] = []
submitted_hosts (e ∷ es) = submitted_by e ++ submitted_hosts es

module _ (P : Platform) (job : Job) where
  -- The host awaits its result or has one.
  pub tracked : Str → Grabbing P job → Bool
  tracked ip g = contains ip g.pending || observed ip g.world.outcome.observations

  tracked-read :
      (ip j : Str) (r : Raises (Option Fields)) (g : Grabbing P job)
      → (read_result P job j r (answer P job j g)).reading ≡ true
      → tracked ip g ≡ true
      → tracked ip (read_result P job j r (answer P job j g)) ≡ true
  unfolding tracked read_result answer
  tracked-read ip j (ok m) g alive h = ground (
    arith,
    observed-record P job m j ip g.world,
    contains-discard j ip g.pending,
    eq_iff ip j,
    eq_iff j ip,
  )
  tracked-read ip j (raised e) g alive h = cc

  tracked-recorded :
      (ip j : Str) (r : Raises (Option Fields)) (g : Grabbing P job)
      → (read_result P job j r (answer_unknown P job g)).reading ≡ true
      → tracked ip g ≡ true
      → tracked ip (read_result P job j r (answer_unknown P job g)) ≡ true
  unfolding tracked read_result answer_unknown
  tracked-recorded ip j (ok m) g alive h = ground (arith, observed-record P job m j ip g.world)
  tracked-recorded ip j (raised e) g alive h = cc

  tracked-skip :
      (ip : Str) (b : Bool) (g : Grabbing P job)
      → tracked ip (if b then end_reader P job g else g) ≡ tracked ip g
  unfolding tracked end_reader
  tracked-skip ip true g = refl
  tracked-skip ip false g = refl

  tracked-unknown :
      (ip : Str) (b : Bool) (o : Option Str) (r : Fields) (g : Grabbing P job)
      → (if b then drain_unknown P job o r g else g).reading ≡ true
      → tracked ip g ≡ true
      → tracked ip (if b then drain_unknown P job o r g else g) ≡ true
  unfolding drain_unknown end_reader
  tracked-unknown ip false o r g alive h = h
  tracked-unknown ip true none r g alive h = cc
  tracked-unknown ip true (some j) r g alive h =
      tracked-recorded ip j (successful_module_result r job.zgrab2_module) g alive h

  tracked-host :
      (ip : Str) (v : Option Json) (r : Fields) (g : Grabbing P job)
      → (drain_host P job v r g).reading ≡ true
      → tracked ip g ≡ true
      → tracked ip (drain_host P job v r g) ≡ true
  unfolding drain_host
  tracked-host ip (some (text j)) r g alive h = elim (Bool-cases (nonempty j)) [
    | inl e ↦
        rw e (tracked-read ip j (successful_module_result r job.zgrab2_module) g (rw e at alive) h)
    | inr e ↦ rw e h
  ]
  tracked-host ip none r g alive h = h
  tracked-host ip (some v) r g alive h =
      tracked-unknown ip (truthy v) (hashable P job v) r g alive h

  tracked-value :
      (ip : Str) (v : Option Json) (g : Grabbing P job)
      → (drain_value P job v g).reading ≡ true
      → tracked ip g ≡ true
      → tracked ip (drain_value P job v g) ≡ true
  unfolding drain_value
  tracked-value ip (some (obj r)) g alive h = tracked-host ip (get (codes "ip") r) r g alive h
  tracked-value ip none g alive h = h
  tracked-value ip (some v) g alive h = rw (tracked-skip ip true g) h

  tracked-drain :
      (ip line : Str) (g : Grabbing P job)
      → (drain P job line g).reading ≡ true
      → tracked ip g ≡ true
      → tracked ip (drain P job line g) ≡ true
  unfolding drain
  tracked-drain ip line g alive h = elim (Bool-cases (nonempty (strip line))) [
    | inl e ↦ rw e (tracked-value ip (P.loads (strip line)) g (rw e at alive) h)
    | inr e ↦ rw e h
  ]

  tracked-submit :
      (ip j : Str) (g : Grabbing P job) → tracked ip (submit j g) ≡ ((j == ip) || tracked ip g)
  unfolding tracked submit
  tracked-submit ip j g = ground (arith, contains-insert j ip g.pending)

  tracked-closed :
      (ip j : Str) (g : Grabbing P job)
      → tracked ip g ≡ true
      → tracked ip (record_closed P job j g) ≡ true
  unfolding tracked record_closed observe tick
  tracked-closed ip j g h = rw observed-append (ground arith)

  tracked-classified :
      (ip : Str) (c : Option (Str × Str)) (g : Grabbing P job)
      → tracked ip g ≡ true
      → tracked ip (on_classified P job c g) ≡ true
  unfolding on_classified
  tracked-classified ip none g h = h
  tracked-classified ip (some (j, c)) g h =
      ground (arith, tracked-submit ip (strip j) g, tracked-closed ip (strip j) g)

  tracked-reader :
      (ip line : Str) (b : Bool) (g : Grabbing P job)
      → (if b then drain P job line g else g).reading ≡ true
      → tracked ip g ≡ true
      → tracked ip (if b then drain P job line g else g) ≡ true
  tracked-reader ip line true g alive h = tracked-drain ip line g alive h
  tracked-reader ip line false g alive h = h

  tracked-step :
      (ip : Str) (e : Event) (g : Grabbing P job)
      → (step P job e g).reading ≡ true
      → tracked ip g ≡ true
      → tracked ip (step P job e g) ≡ true
  unfolding step discover
  tracked-step ip (zmap_line line) g alive h = tracked-classified ip (split 44 (strip line)) g h
  tracked-step ip (zgrab2_line line) g alive h = tracked-reader ip line g.reading g alive h

  pub reading-classified :
      (c : Option (Str × Str)) (g : Grabbing P job) → (on_classified P job c g).reading ≡ g.reading
  unfolding on_classified record_closed submit
  reading-classified none g = refl
  reading-classified (some (j, c)) g = ground arith

  reading-reader :
      (line : Str) (b : Bool) (g : Grabbing P job)
      → b ≡ g.reading
      → (if b then drain P job line g else g).reading ≡ true
      → g.reading ≡ true
  reading-reader line true g e alive = sym e
  reading-reader line false g e alive = alive

  reading-step :
      (e : Event) (g : Grabbing P job) → (step P job e g).reading ≡ true → g.reading ≡ true
  unfolding step discover
  reading-step (zmap_line line) g alive = rw (← reading-classified (split 44 (strip line)) g) alive
  reading-step (zgrab2_line line) g alive = reading-reader line g.reading g refl alive

  pub reading-run :
      (es : List Event) (g : Grabbing P job) → (run P job es g).reading ≡ true → g.reading ≡ true
  unfolding run
  reading-run [] g alive = alive
  reading-run (e ∷ es) g alive = reading-step e g (reading-run es (step P job e g) alive)

  tracked-run :
      (ip : Str) (es : List Event) (g : Grabbing P job)
      → (run P job es g).reading ≡ true
      → tracked ip g ≡ true
      → tracked ip (run P job es g) ≡ true
  unfolding run
  tracked-run ip [] g alive h = h
  tracked-run ip (e ∷ es) g alive h =
      tracked-run ip es (step P job e g) alive
        (tracked-step ip e g (reading-run es (step P job e g) alive) h)

  -- A line that submits a host tracks it.
  submits-tracked :
      (ip : Str) (c : Option (Str × Str)) (g : Grabbing P job)
      → contains ip (synack_host c) ≡ true
      → tracked ip (on_classified P job c g) ≡ true
  unfolding on_classified synack_host contains
  submits-tracked ip none g h = cc
  submits-tracked ip (some (j, c)) g h = ground (
    arith,
    tracked-submit ip (strip j) g,
    eq_iff ip (strip j),
    eq_iff (strip j) ip,
    eq_iff (strip c) (codes "rst"),
    eq_iff (strip c) (codes "synack"),
  )

  submitted-step :
      (ip : Str) (e : Event) (g : Grabbing P job)
      → contains ip (submitted_by e) ≡ true
      → tracked ip (step P job e g) ≡ true
  unfolding submitted_by step discover contains
  submitted-step ip (zmap_line line) g h = submits-tracked ip (split 44 (strip line)) g h
  submitted-step ip (zgrab2_line line) g h = cc

  pub submitted-run :
      (ip : Str) (es : List Event) (g : Grabbing P job)
      → (run P job es g).reading ≡ true
      → contains ip (submitted_hosts es) ≡ true
      → tracked ip (run P job es g) ≡ true
  unfolding run submitted_hosts contains
  submitted-run ip [] g alive h = cc
  submitted-run ip (e ∷ es) g alive h = elim (Bool-cases (contains ip (submitted_by e))) [
    | inl now ↦ tracked-run ip es (step P job e g) alive (submitted-step ip e g now)
    | inr later ↦
        submitted-run ip es (step P job e g) alive
          (ground (arith, contains-append ip (submitted_by e) (submitted_hosts es)))
  ]

  observed-unanswered :
      (ip : Str) (ips : List Str) (g : Grabbing P job)
      → observed ip (record_unanswered P job ips g).world.outcome.observations
        ≡ (observed ip g.world.outcome.observations || contains ip ips)
  unfolding record_unanswered record_result contains
  observed-unanswered ip [] g = ground arith
  observed-unanswered ip (j ∷ ips) g = ground (
    arith,
    observed-unanswered ip ips (record_result P job j none g),
    observed-record P job none j ip g.world,
    eq_iff ip j,
    eq_iff j ip,
  )

  -- `close` leaves an observation for each host that was tracked.
  pub observed-close :
      (ip : Str) (g : Grabbing P job)
      → observed ip (close P job g).world.outcome.observations ≡ tracked ip g
  unfolding close tracked
  observed-close ip g = ground (
    arith,
    observed-unanswered ip (sorted str_le g.pending) (record g { pending = [] }),
    contains-sorted str_le ip g.pending,
  )
