-- ===== src/Storage/Dynamo.antt =====
-- src/ichnos/storage/dynamodb.py: `DynamoDBVersionIndexStore`. The table is a parameter, with what the
-- service documents of a conditional `put_item`.
use ichnos.Base.{ℕ, ◌+◌, Str, Bool, true, false, Raises, ok, raised, Error, ◌≡◌, refl}
use ichnos.Storage.{VersionIndex}

-- How `put_item` ends: written, refused by its condition, or another error.
pub data Put : Type 0 where
  written : Put
  condition_failed : Put
  failed : Error → Put

-- The table of fingerprints: `put_new f now` is `put_item` of `f` with the time, on the condition
-- `attribute_not_exists(fingerprint_id)`. The condition is evaluated within the write. An error such as a
-- timeout may have written or not.
pub record Table : Type 1 where
  pub State : Type 0
  pub put_new : Str → Str → State → Put × State
  pub exists_item : Str → State → Bool
  pub written_new :
      (f now : Str) (s : State) → (put_new f now s).0 ≡ written → exists_item f s ≡ false
  pub written_exists :
      (f now : Str) (s : State)
      → (put_new f now s).0 ≡ written
      → exists_item f (put_new f now s).1 ≡ true
  pub condition_exists :
      (f now : Str) (s : State) → (put_new f now s).0 ≡ condition_failed → exists_item f s ≡ true
  pub keeps_items :
      (f now g : Str) (s : State)
      → exists_item g s ≡ true
      → exists_item g (put_new f now s).1 ≡ true

-- What `claim` makes of it: only the refused condition is caught.
unfoldable pub claimed : Put → Raises Bool
claimed written = ok true
claimed condition_failed = ok false
claimed (failed e) = raised e

claimed_true : (p : Put) → claimed p ≡ ok true → p ≡ written
unfolding claimed
claimed_true written h = refl
claimed_true condition_failed h = cc
claimed_true (failed e) h = cc

claimed_false : (p : Put) → claimed p ≡ ok false → p ≡ condition_failed
unfolding claimed
claimed_false written h = cc
claimed_false condition_failed h = refl
claimed_false (failed e) h = cc

-- `stamp` is `_now_iso()` at the successive claims.
module _ (table : Table) (stamp : ℕ → Str) where
  -- `DynamoDBVersionIndexStore.claim`, with the readings of the clock counted.
  unfoldable pub claim_dynamo : Str → table.State × ℕ → Raises Bool × (table.State × ℕ)
  unfolding claimed
  claim_dynamo f (s, t) =
      (claimed (table.put_new f (stamp t) s).0, ((table.put_new f (stamp t) s).1, t + 1))

  pub true_new :
      (f : Str) (s : table.State × ℕ)
      → (claim_dynamo f s).0 ≡ ok true
      → table.exists_item f s.0 ≡ false
  unfolding claim_dynamo
  true_new f (s, t) h =
      table.written_new f (stamp t) s (claimed_true (table.put_new f (stamp t) s).0 h)

  pub true_exists :
      (f : Str) (s : table.State × ℕ)
      → (claim_dynamo f s).0 ≡ ok true
      → table.exists_item f (claim_dynamo f s).1.0 ≡ true
  unfolding claim_dynamo
  true_exists f (s, t) h =
      table.written_exists f (stamp t) s (claimed_true (table.put_new f (stamp t) s).0 h)

  pub false_exists :
      (f : Str) (s : table.State × ℕ)
      → (claim_dynamo f s).0 ≡ ok false
      → table.exists_item f s.0 ≡ true
  unfolding claim_dynamo
  false_exists f (s, t) h =
      table.condition_exists f (stamp t) s (claimed_false (table.put_new f (stamp t) s).0 h)

  pub claim_keeps_items :
      (f g : Str) (s : table.State × ℕ)
      → table.exists_item g s.0 ≡ true
      → table.exists_item g (claim_dynamo f s).1.0 ≡ true
  unfolding claim_dynamo
  claim_keeps_items f g (s, t) h = table.keeps_items f (stamp t) g s h

  -- The DynamoDB store keeps the documented contract of `VersionIndexStore`.
  abbrev pub dynamo_index : VersionIndex
  dynamo_index = record {
    State = table.State × ℕ;
    claim = claim_dynamo;
    seen = λ f s. table.exists_item f s.0;
    claim_true_new = true_new;
    claim_true_seen = true_exists;
    claim_false_seen = false_exists;
    claim_keeps = claim_keeps_items;
  }
