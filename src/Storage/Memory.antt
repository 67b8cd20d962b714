-- ===== src/Storage/Memory.antt =====
-- src/ichnos/storage/memory.py: the in-memory stores. A dictionary is an association list in insertion
-- order, a set is a list.
use ichnos.Base.{
  Str, contains, Bool, true, false, List, ◌∷◌, Option, Raises, ok, if◌then◌else◌, keep_if, ◌≡◌,
  arith, eq_iff,
}
use ichnos.Base.Dict.{lookup, store, values}
use ichnos.Models.{Exclusion, ScheduleEntry}
use ichnos.Storage.{VersionIndex}

-- `_MemoryExclusionStore`
abbrev pub Exclusions : Type 0
Exclusions = List (Str × Exclusion)

abbrev pub add : Exclusion → Exclusions → Exclusions
add e rows = store e.ip_or_cidr e rows

abbrev pub list_all : Exclusions → List Exclusion
list_all rows = values rows

-- `_MemoryScheduleStore`
abbrev Schedule : Type 0
Schedule = List (Str × ScheduleEntry)

abbrev put : ScheduleEntry → Schedule → Schedule
put e rows = store e.protocol e rows

abbrev get_entry : Str → Schedule → Option ScheduleEntry
get_entry protocol rows = lookup protocol rows

abbrev list_enabled : Schedule → List ScheduleEntry
list_enabled rows = keep_if (λ e. e.enabled) (values rows)

-- `_MemoryVersionIndexStore.claim`
unfoldable pub claim_memory : Str → List Str → Raises Bool × List Str
claim_memory f seen = if contains f seen then (ok false, seen) else (ok true, f ∷ seen)

pub claim_memory-new :
    (f : Str) (s : List Str) → (claim_memory f s).0 ≡ ok true → contains f s ≡ false
unfolding claim_memory
claim_memory-new f s h = ground arith

pub claim_memory-seen :
    (f : Str) (s : List Str)
    → (claim_memory f s).0 ≡ ok true
    → contains f (claim_memory f s).1 ≡ true
unfolding claim_memory contains
claim_memory-seen f s h = ground (arith, eq_iff f f)

pub claim_memory-false :
    (f : Str) (s : List Str) → (claim_memory f s).0 ≡ ok false → contains f s ≡ true
unfolding claim_memory
claim_memory-false f s h = ground arith

pub claim_memory-keeps :
    (f g : Str) (s : List Str) → contains g s ≡ true → contains g (claim_memory f s).1 ≡ true
unfolding claim_memory contains
claim_memory-keeps f g s h = ground arith

-- The in-memory store keeps the documented contract of `VersionIndexStore`.
abbrev pub memory_index : VersionIndex
memory_index = record {
  State = List Str;
  claim = claim_memory;
  seen = contains;
  claim_true_new = claim_memory-new;
  claim_true_seen = claim_memory-seen;
  claim_false_seen = claim_memory-false;
  claim_keeps = claim_memory-keeps;
}
