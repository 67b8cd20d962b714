-- ===== src/Storage/Claims.antt =====
-- Claims of many workers on one version index, in the order in which the index takes them.
mod Tests
use mathlib.Core.Path.{subst}
use ichnos.Base.{
  ℕ, suc, ◌+◌, ◌≤◌, Str, ◌==◌, eq_iff, str_eq_refl, contains, Bool, true, false, not, ◌&&◌, ◌||◌,
  List, [], ◌∷◌, if◌then◌else◌, Raises, ok, raised, ◌≡◌, refl, ap, arith, Bool-cases, inl, inr, All,
}
use ichnos.Storage.{VersionIndex}
use ichnos.Storage.Dynamo.{Table, claim_dynamo, dynamo_index}

abbrev won : Raises Bool → Bool
won (ok true) = true
won _ = false

abbrev pub answered : Raises Bool → Bool
answered (ok b) = true
answered (raised e) = false

module _ (index : VersionIndex) where
  -- How many of the claims of `f` among these return True.
  unfoldable pub winners : Str → List Str → index.State → ℕ
  winners f [] s = 0
  winners f (g ∷ gs) s =
      let rest = winners f gs (index.claim g s).1 in
      if (g == f) && won (index.claim g s).0 then suc rest else rest

  is_won : (r : Raises Bool) → won r ≡ true → r ≡ ok true
  is_won (ok true) h = refl
  is_won (ok false) h = ground (arith, h)
  is_won (raised e) h = ground (arith, h)

  is_lost : (r : Raises Bool) → won r ≡ false → answered r ≡ true → r ≡ ok false
  is_lost (ok true) h k = ground (arith, h)
  is_lost (ok false) h k = refl
  is_lost (raised e) h k = ground (arith, k)

  not_won :
      (f g : Str) (s : index.State)
      → index.seen f s ≡ true
      → ((g == f) && won (index.claim g s).0) ≡ false
  not_won f g s h = elim (Bool-cases ((g == f) && won (index.claim g s).0)) [
    | inl e ↦
        let same : g ≡ f = (eq_iff g f).0 (ground (arith, e)) in
        let fresh = index.claim_true_new g s (is_won (index.claim g s).0 (ground (arith, e))) in
        ground (arith, fresh, h, ap (λ k. index.seen k s) same)
    | inr e ↦ e
  ]

  -- What has been recorded is never won again.
  winners-seen :
      (f : Str) (gs : List Str) (s : index.State) → index.seen f s ≡ true → winners f gs s ≡ 0
  unfolding winners
  winners-seen f [] s h = refl
  winners-seen f (g ∷ gs) s h =
      rw (not_won f g s h) (winners-seen f gs (index.claim g s).1 (index.claim_keeps g f s h))

  seen_after :
      (f g : Str) (s : index.State)
      → ((g == f) && won (index.claim g s).0) ≡ true
      → index.seen f (index.claim g s).1 ≡ true
  seen_after f g s e =
      let same : g ≡ f = (eq_iff g f).0 (ground (arith, e)) in
      subst (λ k. index.seen k (index.claim g s).1 ≡ true) same
        (index.claim_true_seen g s (is_won (index.claim g s).0 (ground (arith, e))))

  winners-le : (f : Str) (gs : List Str) (s : index.State) → winners f gs s ≤ 1
  unfolding winners
  winners-le f [] s = omega arith
  winners-le f (g ∷ gs) s = elim (Bool-cases ((g == f) && won (index.claim g s).0)) [
    | inl e ↦ rw e (omega (arith, winners-seen f gs (index.claim g s).1 (seen_after f g s e)))
    | inr e ↦ rw e (winners-le f gs (index.claim g s).1)
  ]

  -- A claim of a new fingerprint that is answered wins.
  first_wins :
      (f : Str) (s : index.State)
      → index.seen f s ≡ false
      → answered (index.claim f s).0 ≡ true
      → won (index.claim f s).0 ≡ true
  first_wins f s h k = elim (Bool-cases (won (index.claim f s).0)) [
    | inl e ↦ e
    | inr e ↦ ground (arith, h, index.claim_false_seen f s (is_lost (index.claim f s).0 e k))
  ]

  winners-first :
      (f : Str) (gs : List Str) (s : index.State)
      → index.seen f s ≡ false
      → answered (index.claim f s).0 ≡ true
      → winners f (f ∷ gs) s ≡ 1
  unfolding winners
  winners-first f gs s h k =
      let first = first_wins f s h k in
      let both : ((f == f) && won (index.claim f s).0) ≡ true =
        ground (arith, str_eq_refl f, first) in
      rw both (omega (arith, winners-seen f gs (index.claim f s).1 (seen_after f f s both)))

-- On a table whose conditional put behaves as documented, whatever fingerprints the workers claim and in
-- whatever order the table takes the claims: at most one claim of a fingerprint returns True, and none where
-- the table has it; one does where the table does not have it and its first claim does not raise.
pub one_winner :
    (table : Table) (stamp : ℕ → Str) (f : Str) (gs : List Str) (s : table.State × ℕ)
    → (winners (dynamo_index table stamp) f gs s ≤ (if table.exists_item f s.0 then 0 else 1))
      × ((if not (table.exists_item f s.0) && answered (claim_dynamo table stamp f s).0
            then 1
            else 0)
          ≤ winners (dynamo_index table stamp) f (f ∷ gs) s)
one_winner table stamp f gs s =
    let index = dynamo_index table stamp in
    (
      elim (Bool-cases (table.exists_item f s.0)) [
        | inl e ↦ rw (e, winners-seen index f gs s e) (omega arith)
        | inr e ↦ rw e (winners-le index f gs s)
      ],
      elim (Bool-cases (table.exists_item f s.0)) [
        | inl e ↦ rw e (omega arith)
        | inr e ↦ elim (Bool-cases (answered (claim_dynamo table stamp f s).0)) [
          | inl a ↦ rw (e, a, winners-first index f gs s e a) (omega arith)
          | inr a ↦ rw (e, a) (omega arith)
        ]
      ],
    )
