-- ===== src/Scanner/Stream.antt =====
-- src/ichnos/scanner.py: `_StreamingGrabber` and `_stream_discover_and_grab`.
-- Two threads share the state: the caller reads ZMap's lines and submits hosts, the reader thread
-- records ZGrab2's result lines. Each holds a lock while it changes the state, so a run is a list of
-- events, one for each line that either thread handles, in the order in which they handle them.
pub mod Answered
pub mod Reader
pub mod Keeps
pub mod Sound
pub mod Once
use ichnos.Base.{
  ℕ, zero, suc, ◌+◌, Str, codes, ◌==◌, contains, str_le, strip, split, nonempty, Bool, true, false,
  not, List, [], ◌∷◌, ◌++◌, Option, none, some, if◌then◌else◌, keep_if, Raises, ok, raised,
}
use ichnos.Base.Sort.{sorted}
use ichnos.Json.{Json, bool, num, obj, text, Fields, get, truthy}
use ichnos.Models.{ScanMetadataRecord}
use ichnos.Scanner.{
  Platform, Job, World, Run, ScanRunOutcome, observe, closed, tick, record_grab_result,
  successful_module_result,
}

pub data Event : Type 0 where
  -- a line of ZMap's standard output, read by the caller
  zmap_line : Str → Event
  -- a line of ZGrab2's standard output, read by the reader thread
  zgrab2_line : Str → Event

-- A set of texts.
unfoldable pub insert : Str → List Str → List Str
insert x s = if contains x s then s else x ∷ s

unfoldable pub discard : Str → List Str → List Str
discard x s = keep_if (λ y. not (y == x)) s

-- `_StreamingGrabber`, with the objects that it records into. `reading` says whether the reader thread
-- lives: an exception outside its `try` ends it.
pub record Grabber (State : Type 0) : Type 0 where
  pub world : World State
  pub pending : List Str
  pub submitted : ℕ
  pub results : ℕ
  pub reading : Bool

-- `submit`: a broken pipe is logged and changes nothing more.
unfoldable pub submit : {S : Type 0} → Str → Grabber S → Grabber S
unfolding insert
submit ip g = record g { pending = insert ip g.pending; submitted = g.submitted + 1 }

module _ (P : Platform) (job : Job) where
  abbrev pub Grabbing : Type 0
  Grabbing = Grabber P.index.State

  -- `self._record(ip, module_result)` under `except Exception`: what was written before a raise stays.
  unfoldable pub record_result : Str → Option Fields → Grabbing → Grabbing
  record_result ip result g = record g { world = (record_grab_result P job result ip g.world).1 }

  end_reader : Grabbing → Grabbing
  end_reader g = record g { reading = false }

  read_result : Str → Raises (Option Fields) → Grabbing → Grabbing
  unfolding record_result end_reader
  read_result ip (ok result) g = record_result ip result g
  read_result ip (raised e) g = end_reader g

  -- `_pending.discard(ip)` and `_results += 1`
  answer : Str → Grabbing → Grabbing
  unfolding discard
  answer ip g = record g { pending = discard ip g.pending; results = g.results + 1 }

  -- An answer of no host that was handed out.
  answer_unknown : Grabbing → Grabbing
  answer_unknown g = record g { results = g.results + 1 }

  -- A number or `true` is in no set of texts, and its observation carries it: here, its text. A list or an
  -- object is unhashable and raises in `discard`.
  hashable : Json → Option Str
  hashable (num n) = some n
  hashable (bool b) = some (codes "True")
  hashable _ = none

  drain_unknown : Option Str → Fields → Grabbing → Grabbing
  unfolding answer_unknown read_result end_reader
  drain_unknown none r g = end_reader g
  drain_unknown (some ip) r g =
      read_result ip (successful_module_result r job.zgrab2_module) (answer_unknown g)

  -- An `ip` that is false is skipped.
  drain_host : Option Json → Fields → Grabbing → Grabbing
  unfolding answer read_result hashable drain_unknown
  drain_host none r g = g
  drain_host (some (text ip)) r g =
      if nonempty ip
      then read_result ip (successful_module_result r job.zgrab2_module) (answer ip g)
      else g
  drain_host (some value) r g = if truthy value then drain_unknown (hashable value) r g else g

  drain_value : Option Json → Grabbing → Grabbing
  unfolding drain_host
  drain_value none g = g
  drain_value (some (obj r)) g = drain_host (get (codes "ip") r) r g
  drain_value (some value) g = end_reader g

  -- One round of `_drain`.
  unfoldable pub drain : Str → Grabbing → Grabbing
  unfolding drain_value
  drain line g = if nonempty (strip line) then drain_value (P.loads (strip line)) g else g

  record_closed : Str → Grabbing → Grabbing
  unfolding observe tick
  record_closed ip g = record g {
    world = observe job (P.clock g.world.ticks) ip closed none (tick g.world);
  }

  unfoldable pub on_classified : Option (Str × Str) → Grabbing → Grabbing
  unfolding submit record_closed
  on_classified none g = g
  on_classified (some (ip, class)) g =
      if strip class == codes "rst"
      then record_closed (strip ip) g
      else if strip class == codes "synack"
      then submit (strip ip) g
      else g

  -- One round of the loop over ZMap's output: a line with no comma is skipped.
  unfoldable pub discover : Str → Grabbing → Grabbing
  unfolding on_classified
  discover line g = on_classified (split 44 (strip line)) g

  unfoldable pub step : Event → Grabbing → Grabbing
  unfolding discover drain
  step (zmap_line line) g = discover line g
  step (zgrab2_line line) g = if g.reading then drain line g else g

  unfoldable pub run : List Event → Grabbing → Grabbing
  run [] g = g
  run (e ∷ es) g = run es (step e g)

  -- Record each host of a list as unanswered.
  unfoldable pub record_unanswered : List Str → Grabbing → Grabbing
  record_unanswered [] g = g
  record_unanswered (ip ∷ ips) g = record_unanswered ips (record_result ip none g)

  -- `close`, from where both processes are gone.
  unfoldable pub close : Grabbing → Grabbing
  close g = record_unanswered (sorted str_le g.pending) (record g { pending = [] })

  -- A grabber that has just been made.
  unfoldable pub new_grabber : Run P → Grabbing
  new_grabber w = record { world = w; pending = []; submitted = 0; results = 0; reading = true }

  unfoldable pub set_targets : ℕ → Run P → Run P
  set_targets n w = record w {
    outcome = record w.outcome { metadata = record w.outcome.metadata { targets_attempted = n } };
  }

  unfoldable pub fail : Run P → Run P
  fail w = record w {
    outcome = record w.outcome { metadata = record w.outcome.metadata { status = codes "failed" } };
  }

  -- `_stream_discover_and_grab`: the lines that the two processes print, and whether ZMap's exit code
  -- was 0, come from outside.
  unfoldable pub stream_discover_and_grab : ℕ → List Event → Bool → Run P → Run P
  unfolding new_grabber set_targets fail
  stream_discover_and_grab max_targets events exited_cleanly w =
      let w' = (close (run events (new_grabber (set_targets max_targets w)))).world in
      if exited_cleanly then w' else fail w'
