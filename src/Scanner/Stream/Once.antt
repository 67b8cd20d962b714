-- ===== src/Scanner/Stream/Once.antt =====
-- The fingerprints that a streaming run publishes, against the version index.
use ichnos.Base.{
  ℕ, Str, Bool, true, false, List, Option, none, some, Raises, ok, raised, ◌≡◌, refl, All,
  All-append, Bool-cases, inl, inr,
}
use ichnos.Json.{Fields}
use ichnos.Models.{Datetime}
use ichnos.Scanner.{
  Platform, Job, Run, observe, tick, count_responsive, add_version, after_claim, record_fingerprint,
  fingerprinted, record_grab_result, success,
}
use ichnos.Scanner.Stream.{Event, fail, set_targets, stream_discover_and_grab}
use ichnos.Scanner.Stream.Keeps.{Keeps, keeps-stream}

module _ (P : Platform) (job : Job) (start : P.index.State) where
  -- The versions are of fingerprints that the index did not hold at the start, and it forgets nothing.
  pub record IsNew (w : Run P) : Type 0 where
    pub unseen : All (λ v. P.index.seen v.1.fingerprint_id start ≡ false) w.outcome.new_versions
    pub grown : (f : Str) → P.index.seen f start ≡ true → P.index.seen f w.state ≡ true

  unseen_before :
      (w : Run P) (f : Str)
      → IsNew w
      → P.index.seen f w.state ≡ false
      → P.index.seen f start ≡ false
  unseen_before w f n h = elim (Bool-cases (P.index.seen f start)) [
    | inl old ↦ cc (n.grown f old)
    | inr new ↦ new
  ]

  IsNew-claim :
      (at : Datetime) (fp : Str) (payload : Fields) (r : Raises Bool) (w : Run P)
      → (P.index.claim fp w.state).0 ≡ r
      → IsNew w
      → IsNew
          (after_claim P job at fp payload r (record w { state = (P.index.claim fp w.state).1 })).1
  unfolding after_claim add_version
  IsNew-claim at fp payload (ok true) w won n = record {
    unseen =
        All-append _ w.outcome.new_versions _ n.unseen
          (unseen_before w fp n (P.index.claim_true_new fp w.state won), tt);
    grown = λ f h. P.index.claim_keeps fp f w.state (n.grown f h);
  }
  IsNew-claim at fp payload (ok false) w won n = record {
    unseen = n.unseen;
    grown = λ f h. P.index.claim_keeps fp f w.state (n.grown f h);
  }
  IsNew-claim at fp payload (raised e) w won n = record {
    unseen = n.unseen;
    grown = λ f h. P.index.claim_keeps fp f w.state (n.grown f h);
  }

  IsNew-fingerprint :
      (ip : Str) (at : Datetime) (r : Raises (Fields × Str)) (w : Run P)
      → IsNew w
      → IsNew (record_fingerprint P job ip at r w).1
  unfolding record_fingerprint observe
  IsNew-fingerprint ip at (raised e) w n = record { unseen = n.unseen; grown = n.grown }
  IsNew-fingerprint ip at (ok (payload, fp)) w n =
      IsNew-claim at fp payload _ (observe job at ip success (some fp) w) refl
        (record { unseen = n.unseen; grown = n.grown })

  IsNew-record :
      (m : Option Fields) (ip : Str) (w : Run P)
      → IsNew w
      → IsNew (record_grab_result P job m ip w).1
  unfolding record_grab_result
  IsNew-record none ip w n = unfold observe tick in record { unseen = n.unseen; grown = n.grown }
  IsNew-record (some r) ip w n =
      IsNew-fingerprint ip (P.clock w.ticks) (fingerprinted P job r) (tick (count_responsive w))
        (unfold tick count_responsive in record { unseen = n.unseen; grown = n.grown })

  IsNew-Keeps : Keeps P job IsNew
  unfolding observe tick
  IsNew-Keeps = record {
    grab = IsNew-record;
    rst = λ ip w n. record { unseen = n.unseen; grown = n.grown };
  }

  pub IsNew-stream :
      (max_targets : ℕ) (events : List Event) (b : Bool) (w : Run P)
      → IsNew w
      → IsNew (stream_discover_and_grab P job max_targets events b w)
  unfolding fail set_targets
  IsNew-stream n es b w h =
      keeps-stream P job IsNew-Keeps n es b w (λ w h. record { unseen = h.unseen; grown = h.grown })
        (record { unseen = h.unseen; grown = h.grown })
