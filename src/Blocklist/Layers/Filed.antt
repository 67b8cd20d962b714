-- ===== src/Blocklist/Layers/Filed.antt =====
-- The list that `build_blocklist` returns, written to its file and read back.
use ichnos.Base.{
  ℕ, ◌≤◌, Str, is_space, IsLine, true, false, ◌≡◌, refl, ap, arith, List, [], ◌∷◌, ◌++◌, map, any,
  All, All-map, length, Raises, ok,
}
use ichnos.Base.Sort.{sorted, All-sorted}
use ichnos.Blocklist.{Network}
use ichnos.Blocklist.File.{IsEntry}
use ichnos.Blocklist.Collapse.{Block, block_le, collapse_addresses}
use ichnos.Blocklist.Collapse.Cover.{IsBlock}
use ichnos.Blocklist.Collapse.Whole.{IsBlock-collapse_addresses}
use ichnos.Blocklist.Layers.{address_text, network_text, collapsed}
use ichnos.Blocklist.Layers.Printed.{is_printed, network_text-printed, network_text-long}
use ichnos.Blocklist.Layers.Parsed.{IsNetwork}
use ichnos.Blocklist.Layers.Listed.{is_v6, all_v4-Blocks}

IsText : Str → Type 0
IsText s = All (λ c. is_printed c ≡ true) s

-- A text that is not empty has a last character.
record Ended (s : Str) : Type 0 where
  middle : Str
  last : ℕ
  whole : s ≡ middle ++ (last ∷ [])
  printed : is_printed last ≡ true

ended : (c : ℕ) (s : Str) → IsText (c ∷ s) → Ended (c ∷ s)
unfolding IsText
ended c [] h = record { middle = []; last = c; whole = refl; printed = h.0 }
ended c (d ∷ s) h =
    let e = ended d s h.1 in
    record {
      middle = c ∷ e.middle;
      last = e.last;
      whole = ap (λ t. c ∷ t) e.whole;
      printed = e.printed;
    }

visible : (c : ℕ) → is_printed c ≡ true → is_space c ≡ false
unfolding is_space
visible c h = ground (arith, h)

on_line : (s : Str) → IsText s → IsLine s
unfolding IsText
on_line s h = All-map _ _ s (λ c e. (ground (arith, e), ground (arith, e))) h

IsEntry-text : (s : Str) → IsText s → 2 ≤ length s → IsEntry s
unfolding IsText
IsEntry-text [] h k = ground (arith, k)
IsEntry-text (c ∷ []) h k = ground (arith, k)
IsEntry-text (c ∷ d ∷ s) h k =
    let e = ended d s h.1 in
    record {
      first = c;
      middle = e.middle;
      last = e.last;
      whole = ap (λ t. c ∷ t) e.whole;
      first_plain = visible c h.0;
      last_plain = visible e.last e.printed;
      line = on_line (c ∷ d ∷ s) h;
    }

IsEntry-texts :
    (bs : List Block) → All (IsBlock 32) bs → All IsEntry (map (network_text address_text) bs)
unfolding IsText
IsEntry-texts [] v = tt
IsEntry-texts (b ∷ bs) v = (
  IsEntry-text (network_text address_text b) (network_text-printed b v.0) (network_text-long b),
  IsEntry-texts bs v.1,
)

-- The list is returned, and each line of it survives the file.
pub record IsBuilt (r : Raises (List Str)) : Type 0 where
  pub cidrs : List Str
  pub done : r ≡ ok cidrs
  pub entries : All IsEntry cidrs

pub collapsed-IsBuilt :
    (print_v6 : ℕ → Str) (ns : List Network)
    → All IsNetwork ns
    → any is_v6 ns ≡ false
    → IsBuilt (collapsed print_v6 ns)
unfolding collapsed
collapsed-IsBuilt print_v6 ns v h =
    let r = all_v4-Blocks ns v h in
    let kept = sorted block_le (collapse_addresses 32 r.blocks) in
    record {
      cidrs = map (network_text address_text) kept;
      done = rw (collapsed, r.found) refl;
      entries = IsEntry-texts kept (
          All-sorted block_le (IsBlock 32) (collapse_addresses 32 r.blocks)
            (IsBlock-collapse_addresses 32 r.blocks r.inside));
    }
