-- ===== src/Scanner/Stream/Keeps.antt =====
-- The rule for invariants of a streaming run (src/ichnos/scanner.py).
use ichnos.Base.{
  ◌==◌, ℕ, Str, codes, str_le, strip, split, nonempty, Bool, true, false, List, [], ◌∷◌, Option,
  none, some, if◌then◌else◌, Raises, ok, raised,
}
use ichnos.Base.Sort.{sorted}
use ichnos.Json.{Json, text, obj, Fields, get, truthy}
use ichnos.Scanner.{
  Platform, Job, Run, closed, observe, tick, record_grab_result, successful_module_result,
}
use ichnos.Scanner.Stream.{
  Event, zmap_line, zgrab2_line, Grabbing, step, run, record_unanswered, close, read_result,
  record_result, answer, end_reader, hashable, answer_unknown, drain_unknown, drain_host,
  drain_value, drain, record_closed, on_classified, discover, submit, new_grabber, set_targets,
  fail, stream_discover_and_grab,
}

module _ (P : Platform) (job : Job) where
  -- `I` survives each way in which a run records something.
  pub record Keeps (I : Run P → Type 0) : Type 0 where
    pub grab :
        (m : Option Fields) (ip : Str) (w : Run P) → I w → I (record_grab_result P job m ip w).1
    pub rst :
        (ip : Str) (w : Run P) → I w → I (observe job (P.clock w.ticks) ip closed none (tick w))

module _ (P : Platform) (job : Job) {I : Run P → Type 0} (k : Keeps P job I) where
  keeps-read :
      (ip : Str) (r : Raises (Option Fields)) (g : Grabbing P job)
      → I g.world
      → I (read_result P job ip r g).world
  unfolding read_result record_result end_reader
  keeps-read ip (ok m) g h = k.grab m ip g.world h
  keeps-read ip (raised e) g h = h

  keeps-skip :
      (b : Bool) (g : Grabbing P job) → I g.world → I (if b then end_reader P job g else g).world
  unfolding end_reader
  keeps-skip true g h = h
  keeps-skip false g h = h

  keeps-named :
      (b : Bool) (ip : Str) (r : Raises (Option Fields)) (g : Grabbing P job)
      → I g.world
      → I (if b then read_result P job ip r (answer P job ip g) else g).world
  unfolding answer
  keeps-named true ip r g h = keeps-read ip r (answer P job ip g) h
  keeps-named false ip r g h = h

  keeps-unknown :
      (b : Bool) (o : Option Str) (r : Fields) (g : Grabbing P job)
      → I g.world
      → I (if b then drain_unknown P job o r g else g).world
  unfolding drain_unknown answer_unknown end_reader
  keeps-unknown true none r g h = h
  keeps-unknown true (some ip) r g h =
      keeps-read ip (successful_module_result r job.zgrab2_module) (answer_unknown P job g) h
  keeps-unknown false o r g h = h

  keeps-host :
      (v : Option Json) (r : Fields) (g : Grabbing P job)
      → I g.world
      → I (drain_host P job v r g).world
  unfolding drain_host
  keeps-host (some (text ip)) r g h =
      keeps-named (nonempty ip) ip (successful_module_result r job.zgrab2_module) g h
  keeps-host none r g h = h
  keeps-host (some v) r g h = keeps-unknown (truthy v) (hashable P job v) r g h

  keeps-value : (v : Option Json) (g : Grabbing P job) → I g.world → I (drain_value P job v g).world
  unfolding drain_value
  keeps-value (some (obj r)) g h = keeps-host (get (codes "ip") r) r g h
  keeps-value none g h = h
  keeps-value (some v) g h = keeps-skip true g h

  keeps-drain :
      (b c : Bool) (v : Option Json) (g : Grabbing P job)
      → I g.world
      → I (if b then (if c then drain_value P job v g else g) else g).world
  keeps-drain true true v g h = keeps-value v g h
  keeps-drain true false v g h = h
  keeps-drain false c v g h = h

  keeps-cases :
      (reset open_ : Bool) (ip : Str) (g : Grabbing P job)
      → I g.world
      → I (if reset then record_closed P job ip g else if open_ then submit ip g else g).world
  unfolding record_closed submit
  keeps-cases true b ip g h = k.rst ip g.world h
  keeps-cases false true ip g h = h
  keeps-cases false false ip g h = h

  keeps-classified :
      (c : Option (Str × Str)) (g : Grabbing P job) → I g.world → I (on_classified P job c g).world
  unfolding on_classified
  keeps-classified none g h = h
  keeps-classified (some (ip, c)) g h =
      keeps-cases (strip c == codes "rst") (strip c == codes "synack") (strip ip) g h

  pub keeps-step : (e : Event) (g : Grabbing P job) → I g.world → I (step P job e g).world
  unfolding step discover drain
  keeps-step (zmap_line line) g h = keeps-classified (split 44 (strip line)) g h
  keeps-step (zgrab2_line line) g h =
      keeps-drain g.reading (nonempty (strip line)) (P.loads (strip line)) g h

  pub keeps-run : (es : List Event) (g : Grabbing P job) → I g.world → I (run P job es g).world
  unfolding run
  keeps-run [] g h = h
  keeps-run (e ∷ es) g h = keeps-run es (step P job e g) (keeps-step e g h)

  keeps-unanswered :
      (ips : List Str) (g : Grabbing P job) → I g.world → I (record_unanswered P job ips g).world
  unfolding record_unanswered record_result
  keeps-unanswered [] g h = h
  keeps-unanswered (ip ∷ ips) g h =
      keeps-unanswered ips (record_result P job ip none g) (k.grab none ip g.world h)

  pub keeps-close : (g : Grabbing P job) → I g.world → I (close P job g).world
  unfolding close
  keeps-close g h = keeps-unanswered (sorted str_le g.pending) (record g { pending = [] }) h

  -- The state after `close`, before ZMap's exit code is looked at.
  pub keeps-grabbing :
      (n : ℕ) (es : List Event) (w : Run P)
      → I (set_targets P job n w)
      → I (close P job (run P job es (new_grabber P job (set_targets P job n w)))).world
  unfolding new_grabber
  keeps-grabbing n es w h =
      let g = new_grabber P job (set_targets P job n w) in
      keeps-close (run P job es g) (keeps-run es g h)

  pub keeps-stream :
      (n : ℕ) (es : List Event) (b : Bool) (w : Run P)
      → ((w : Run P) → I w → I (fail P job w))
      → I (set_targets P job n w)
      → I (stream_discover_and_grab P job n es b w)
  unfolding stream_discover_and_grab
  keeps-stream n es true w f h = keeps-grabbing n es w h
  keeps-stream n es false w f h = f _ (keeps-grabbing n es w h)
