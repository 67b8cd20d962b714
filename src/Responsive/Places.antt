-- ===== src/Responsive/Places.antt =====
-- How far forward a host comes when others are taken out of the list.
use ichnos.Base.{
  ℕ, zero, suc, ◌+◌, ◌≤◌, Str, eq_iff, contains, true, false, not, List, [], ◌∷◌, ◌≡◌, arith, All,
  keep_if, take, Bool-cases, inl, inr,
}
use ichnos.Responsive.{Host, addresses}

pub within :
    (x : Str) (k j : ℕ) (zs : List Str)
    → k ≤ j
    → contains x (take k zs) ≡ true
    → contains x (take j zs) ≡ true
unfolding contains
within x zero j zs le h = ground arith
within x (suc k) zero zs le h = ground (arith, le)
within x (suc k) (suc j) [] le h = ground arith
within x (suc k) (suc j) (z ∷ zs) le h = ground (arith, within x k j zs)

abbrev pub others : List Str → List Host → List Host
others done hosts = keep_if (λ (h : Host). not (contains h.0 done)) hosts

-- Dropping others brings a host forward.
forward :
    (x : Str) (done : List Str) (j : ℕ) (hosts : List Host)
    → contains x done ≡ false
    → contains x (take j (addresses hosts)) ≡ true
    → contains x (take j (addresses (others done hosts))) ≡ true
unfolding contains
forward x done zero hosts e h = h
forward x done (suc j) [] e h = h
forward x done (suc j) ((ip, at) ∷ hosts) e h = elim (Bool-cases (contains ip done)) [
  | inl d ↦ rw d (
      within x j (suc j) (addresses (others done hosts)) (omega arith)
        (forward x done j hosts e (ground (arith, d, e, h, eq_iff x ip))))
  | inr d ↦ rw d (ground (arith, h, forward x done j hosts e))
]

-- A host that is not among the first `n`, which all go, comes at least `n` places forward.
pub skip :
    (x : Str) (done : List Str) (n k j : ℕ) (hosts : List Host)
    → All (λ h. contains h.0 done ≡ true) (take n hosts)
    → contains x done ≡ false
    → k ≤ n + j
    → contains x (take k (addresses hosts)) ≡ true
    → contains x (take j (addresses (others done hosts))) ≡ true
unfolding contains
skip x done zero k j hosts a e le h =
    forward x done j hosts e (within x k j (addresses hosts) (omega (arith, le)) h)
skip x done (suc n) zero j hosts a e le h = ground (arith, h)
skip x done (suc n) (suc k) j [] a e le h = ground (arith, h)
skip x done (suc n) (suc k) j ((ip, at) ∷ hosts) a e le h =
    rw (a.0)
      (skip x done n k j hosts a.1 e (omega (arith, le)) (ground (arith, a.0, e, h, eq_iff x ip)))
