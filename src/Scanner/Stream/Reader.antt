-- ===== src/Scanner/Stream/Reader.antt =====
-- The reader thread of `_StreamingGrabber`: which of ZGrab2's lines keep it alive.
use ichnos.Base.{
  Str, codes, contains, strip, split, nonempty, Bool, true, false, List, [], ◌∷◌, Option, none,
  some, if◌then◌else◌, raised, attribute_error, ◌≡◌, refl, arith, All, ℕ, ◌∙◌,
}
use ichnos.Json.{Json, null, text, obj, Fields, get, truthy}
use ichnos.Scanner.{Platform, Job, Run, successful_module_result, module_result}
use ichnos.Scanner.Record.{observed}
use ichnos.Scanner.Stream.{
  Event, zmap_line, zgrab2_line, Grabbing, step, run, read_result, record_result, answer,
  drain_host, drain_value, drain, end_reader, new_grabber, stream_discover_and_grab, set_targets,
  fail, discover,
}
use ichnos.Scanner.Stream.Answered.{
  submitted_hosts, submitted-run, observed-close, reading-classified, contains-discard_self,
}

abbrev pub is_object : Json → Bool
is_object (obj fs) = true
is_object v = false

abbrev pub HostIsText : Option Json → Type 0
HostIsText none = Unit
HostIsText (some (text ip)) = Unit
HostIsText (some v) = truthy v ≡ false

abbrev pub DataIsObject : Option Json → Type 0
DataIsObject none = Unit
DataIsObject (some (obj modules)) = Unit
DataIsObject (some v) = ⊥

-- What ZGrab2 documents of a line: if it is JSON at all, it is an object, its `ip` is a text and its
-- `data` an object.
abbrev pub IsResult : Option Json → Type 0
IsResult none = Unit
IsResult (some (obj r)) = HostIsText (get (codes "ip") r) × DataIsObject (get (codes "data") r)
IsResult (some v) = ⊥

module _ (P : Platform) (job : Job) where
  abbrev pub EventIsResult : Event → Type 0
  EventIsResult (zmap_line line) = Unit
  EventIsResult (zgrab2_line line) = IsResult (P.loads (strip line))

  reading-module_result :
      (d : Option Json) (ip : Str) (g : Grabbing P job)
      → DataIsObject d
      → (read_result P job ip (module_result job.zgrab2_module d) (answer P job ip g)).reading
        ≡ g.reading
  unfolding module_result read_result record_result answer
  reading-module_result none ip g h = refl
  reading-module_result (some (obj modules)) ip g h = ground arith
  reading-module_result (some null) ip g h = absurd h
  reading-module_result (some v) ip g h = absurd h

  reading-host :
      (v : Option Json) (r : Fields) (g : Grabbing P job)
      → HostIsText v
      → DataIsObject (get (codes "data") r)
      → (drain_host P job v r g).reading ≡ g.reading
  unfolding drain_host successful_module_result
  reading-host none r g h k = refl
  reading-host (some (text ip)) r g h k =
      ground (arith, reading-module_result (get (codes "data") r) ip g k)
  reading-host (some v) r g h k = ground arith

  reading-value :
      (v : Option Json) (g : Grabbing P job)
      → IsResult v
      → (drain_value P job v g).reading ≡ g.reading
  unfolding drain_value
  reading-value none g h = refl
  reading-value (some (obj r)) g h = reading-host (get (codes "ip") r) r g h.0 h.1
  reading-value (some v) g h = absurd h

  reading-event :
      (e : Event) (g : Grabbing P job) → EventIsResult e → (step P job e g).reading ≡ g.reading
  unfolding step drain discover
  reading-event (zmap_line line) g h = reading-classified P job (split 44 (strip line)) g
  reading-event (zgrab2_line line) g h = ground (arith, reading-value (P.loads (strip line)) g h)

  pub alive-run :
      (es : List Event) (g : Grabbing P job)
      → All EventIsResult es
      → (run P job es g).reading ≡ g.reading
  unfolding run
  alive-run [] g h = refl
  alive-run (e ∷ es) g h = alive-run es (step P job e g) h.1 ∙ reading-event e g h.0

  observations-if_failed :
      (b : Bool) (w : Run P)
      → (if b then w else fail P job w).outcome.observations ≡ w.outcome.observations
  unfolding fail
  observations-if_failed true w = refl
  observations-if_failed false w = refl

  -- Whatever order the lines of ZMap and ZGrab2 are handled in, however many hosts ZGrab2 never
  -- answers, and whether normalization, claims or ZMap itself fail: as long as ZGrab2's lines have the
  -- documented shape, each host that ZMap reports with `synack` has an observation at the end of a run.
  pub observed-stream :
      (max_targets : ℕ) (events : List Event) (exited_cleanly : Bool) (w : Run P) (ip : Str)
      → All EventIsResult events
      → contains ip (submitted_hosts events) ≡ true
      → observed ip
          (stream_discover_and_grab P job max_targets events exited_cleanly w).outcome.observations
        ≡ true
  unfolding stream_discover_and_grab
  observed-stream n es b w ip shaped h =
      let g = new_grabber P job (set_targets P job n w) in
      rw (observations-if_failed b, observed-close P job ip (run P job es g))
        (submitted-run P job ip es g (alive-run es g shaped) h)

  raises-data :
      (m : Str) (v : Json) → is_object v ≡ false → module_result m (some v) ≡ raised attribute_error
  unfolding module_result
  raises-data m (obj fs) h = cc
  raises-data m null h = refl
  raises-data m v h = refl

  drain-malformed :
      (line ip : Str) (r : Fields) (v : Json) (g : Grabbing P job)
      → P.loads (strip line) ≡ some (obj r)
      → nonempty (strip line) ≡ true
      → get (codes "ip") r ≡ some (text ip)
      → nonempty ip ≡ true
      → get (codes "data") r ≡ some v
      → is_object v ≡ false
      → drain P job line g ≡ end_reader P job (answer P job ip g)
  unfolding drain drain_value drain_host successful_module_result read_result
  drain-malformed line ip r v g loaded full host filled found odd =
      rw (full, loaded, host, filled, found, raises-data job.zgrab2_module v odd)

  -- A line whose `data` is no object ends the reader thread after its host has left the pending set:
  -- the line leaves no observation of the host, which `close` will not find pending either, and every
  -- later result line is ignored.
  pub malformed-data_loses_host :
      (line ip : Str) (r : Fields) (v : Json) (g : Grabbing P job) (later : Str)
      → P.loads (strip line) ≡ some (obj r)
      → nonempty (strip line) ≡ true
      → get (codes "ip") r ≡ some (text ip)
      → nonempty ip ≡ true
      → get (codes "data") r ≡ some v
      → is_object v ≡ false
      → g.reading ≡ true
      → (contains ip (step P job (zgrab2_line line) g).pending ≡ false)
        × ((step P job (zgrab2_line line) g).world ≡ g.world)
        × (step P job (zgrab2_line later) (step P job (zgrab2_line line) g)
            ≡ step P job (zgrab2_line line) g)
  unfolding step
  malformed-data_loses_host line ip r v g later loaded full host filled found odd alive =
      let d = drain-malformed line ip r v g loaded full host filled found odd in
      simp (alive, d) (unfold end_reader answer in (contains-discard_self ip g.pending, refl, refl))
