-- ===== src/Storage/Claims/Tests.antt =====
-- A table as the list of its keys, and three claims of one fingerprint among others.
use ichnos.Base.{
  not, ◌&&◌, ℕ, ◌≤◌, Str, codes, contains, eq_iff, true, false, List, [], ◌∷◌, if◌then◌else◌, ◌≡◌,
  arith,
}
use ichnos.Storage.Dynamo.{Put, written, condition_failed, Table, claim_dynamo, dynamo_index}
use ichnos.Storage.Claims.{winners, answered, one_winner}

put_key : Str → Str → List Str → Put × List Str
put_key f now keys = if contains f keys then (condition_failed, keys) else (written, f ∷ keys)

put_key-new : (f now : Str) (s : List Str) → (put_key f now s).0 ≡ written → contains f s ≡ false
unfolding put_key
put_key-new f now s h = ground (arith, h)

put_key-there :
    (f now : Str) (s : List Str)
    → (put_key f now s).0 ≡ written
    → contains f (put_key f now s).1 ≡ true
unfolding put_key contains
put_key-there f now s h = ground (arith, h, eq_iff f f)

put_key-refused :
    (f now : Str) (s : List Str) → (put_key f now s).0 ≡ condition_failed → contains f s ≡ true
unfolding put_key
put_key-refused f now s h = ground (arith, h)

put_key-keeps :
    (f now g : Str) (s : List Str) → contains g s ≡ true → contains g (put_key f now s).1 ≡ true
unfolding put_key contains
put_key-keeps f now g s h = ground (arith, h)

abbrev keys : Table
keys = record {
  State = List Str;
  put_new = put_key;
  exists_item = contains;
  written_new = put_key-new;
  written_exists = put_key-there;
  condition_exists = put_key-refused;
  keeps_items = put_key-keeps;
}

abbrev stamp : ℕ → Str
stamp t = codes "2026"

one_winner_example :
    (winners
        (dynamo_index keys stamp)
        (codes "fp")
        (codes "other" ∷ codes "fp" ∷ codes "fp" ∷ [])
        ([], 0)
      ≤ (if contains (codes "fp") [] then 0 else 1))
    × ((if not (contains (codes "fp") [])
            && answered (claim_dynamo keys stamp (codes "fp") ([], 0)).0
          then 1
          else 0)
        ≤ winners
            (dynamo_index keys stamp)
            (codes "fp")
            (codes "fp" ∷ codes "other" ∷ codes "fp" ∷ codes "fp" ∷ [])
            ([], 0))
one_winner_example =
    one_winner keys stamp (codes "fp") (codes "other" ∷ codes "fp" ∷ codes "fp" ∷ []) ([], 0)
