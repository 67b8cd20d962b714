-- ===== src/Responsive/Rounds.antt =====
-- Runs of `refresh` in a row: each walks some hosts from the top of the file and rotates them.
use ichnos.Base.{
  ℕ, zero, suc, ◌+◌, ◌≤◌, Str, str_eq_refl, contains, contains-append, Bool, true, false, not, List,
  [], ◌∷◌, ◌++◌, map, map-append, Option, some, ◌≡◌, refl, arith, All, All-append, keep_if, take,
  length, Bool-cases, inl, inr,
}
use ichnos.Responsive.{
  Host, addresses, write_responsive_file, read_responsive_hosts, advance, advance_responsive_cursor,
  rotate_checked,
}
use ichnos.Responsive.Cursor.{self-contains}
use ichnos.Responsive.Places.{others, within, skip}
use ichnos.Responsive.File.{IsWritable, NoSpace, read-write}

-- One run: how many hosts it walked, and the text of the time at which it ended.
abbrev pub Round : Type 0
Round = ℕ × Str

abbrev pub known : Option Str → List Str
known file = addresses (read_responsive_hosts file)

-- The hosts that a sequence of runs tries, in order.
unfoldable pub tried : List Round → Option Str → List Str
tried [] file = []
tried ((n, stamp) ∷ rounds) file = take n (known file) ++ tried rounds (rotate_checked n stamp file)

abbrev pub total : List Round → ℕ
total [] = 0
total (r ∷ rounds) = r.0 + total rounds

moved : List Str → Str → List Host → List Host
moved done stamp hosts =
    others done hosts
    ++ map (λ (x : Host). (x.0, stamp)) (keep_if (λ (x : Host). contains x.0 done) hosts)

-- The list after one run.
rotated : ℕ → Str → List Host → List Host
rotated zero stamp hosts = hosts
rotated (suc n) stamp [] = []
rotated (suc n) stamp (h ∷ hosts) = moved (take (suc n) (addresses (h ∷ hosts))) stamp (h ∷ hosts)

take-addresses : (n : ℕ) (hosts : List Host) → take n (addresses hosts) ≡ addresses (take n hosts)
take-addresses zero hosts = refl
take-addresses (suc n) [] = refl
take-addresses (suc n) (h ∷ hosts) = rw (take-addresses n hosts) refl

front :
    (x : Str) (j : ℕ) (xs ys : List Str)
    → contains x (take j xs) ≡ true
    → contains x (take j (xs ++ ys)) ≡ true
unfolding contains
front x zero xs ys h = h
front x (suc j) [] ys h = ground (arith, h)
front x (suc j) (z ∷ xs) ys h = ground (arith, h, front x j xs ys)

take-all {ℓ} : {A : Type ℓ} (xs : List A) → take (length xs) xs ≡ xs
take-all [] = refl
take-all (x ∷ xs) = rw (take-all xs) refl

skip-moved :
    (x : Str) (n k j : ℕ) (stamp : Str) (hosts : List Host)
    → k ≤ n + j
    → contains x (take n (addresses hosts)) ≡ false
    → contains x (take k (addresses hosts)) ≡ true
    → contains x (take j (addresses (moved (take n (addresses hosts)) stamp hosts))) ≡ true
unfolding moved
skip-moved x n k j stamp hosts le e h =
    let done = take n (addresses hosts) in
    rw (map-append (λ (z : Host). z.0) (others done hosts)) (
      front x j (addresses (others done hosts)) _ (
        skip x done n k j hosts (rw (take-addresses n hosts) (self-contains (take n hosts))) e le
          h))

none-in-empty : (x : Str) (k : ℕ) → contains x (take k []) ≡ false
unfolding contains
none-in-empty x zero = refl
none-in-empty x (suc k) = refl

-- Where a host stands after a run that did not try it.
rotated-place :
    (x : Str) (n k j : ℕ) (stamp : Str) (hosts : List Host)
    → k ≤ n + j
    → contains x (take n (addresses hosts)) ≡ false
    → contains x (take k (addresses hosts)) ≡ true
    → contains x (take j (addresses (rotated n stamp hosts))) ≡ true
unfolding rotated
rotated-place x zero k j stamp hosts le e h = within x k j (addresses hosts) (omega (arith, le)) h
rotated-place x (suc n) k j stamp [] le e h = ground (arith, h, none-in-empty x k)
rotated-place x (suc n) k j stamp (y ∷ hosts) le e h =
    skip-moved x (suc n) k j stamp (y ∷ hosts) le e h

All-keep {ℓ} :
    {A : Type ℓ} (P : A → Type ℓ) (test : A → Bool) (xs : List A)
    → All P xs
    → All P (keep_if test xs)
All-keep P test [] h = tt
All-keep P test (x ∷ xs) h = elim (Bool-cases (test x)) [
  | inl e ↦ rw e (h.0, All-keep P test xs h.1)
  | inr e ↦ rw e (All-keep P test xs h.1)
]

restamped-IsWritable :
    (stamp : Str) (hosts : List Host)
    → NoSpace stamp
    → All IsWritable hosts
    → All IsWritable (map (λ (x : Host). (x.0, stamp)) hosts)
restamped-IsWritable stamp [] p h = tt
restamped-IsWritable stamp (y ∷ hosts) p h = (
  record {
    first = h.0.first;
    others = h.0.others;
    address = h.0.address;
    ip_plain = h.0.ip_plain;
    time_plain = p;
  },
  restamped-IsWritable stamp hosts p h.1,
)

moved-IsWritable :
    (done : List Str) (stamp : Str) (hosts : List Host)
    → NoSpace stamp
    → All IsWritable hosts
    → All IsWritable (moved done stamp hosts)
unfolding moved
moved-IsWritable done stamp hosts p h =
    All-append IsWritable (others done hosts) _
      (All-keep IsWritable (λ x. not (contains x.0 done)) hosts h)
      (restamped-IsWritable stamp _ p (All-keep IsWritable (λ x. contains x.0 done) hosts h))

rotated-IsWritable :
    (n : ℕ) (stamp : Str) (hosts : List Host)
    → NoSpace stamp
    → All IsWritable hosts
    → All IsWritable (rotated n stamp hosts)
unfolding rotated
rotated-IsWritable zero stamp hosts p h = h
rotated-IsWritable (suc n) stamp [] p h = h
rotated-IsWritable (suc n) stamp (y ∷ hosts) p h =
    moved-IsWritable (take (suc n) (addresses (y ∷ hosts))) stamp (y ∷ hosts) p h

advance-moved :
    (done : List Str) (stamp : Str) (y : Host) (hosts : List Host)
    → contains y.0 done ≡ true
    → advance done stamp (y ∷ hosts) ≡ some (moved done stamp (y ∷ hosts))
unfolding advance moved
advance-moved done stamp y hosts h = rw h refl

rotate_checked-rotated :
    (n : ℕ) (stamp : Str) (hosts : List Host)
    → All IsWritable hosts
    → rotate_checked n stamp (some (write_responsive_file hosts))
      ≡ some (write_responsive_file (rotated n stamp hosts))
unfolding rotated rotate_checked advance_responsive_cursor
rotate_checked-rotated zero stamp hosts h = refl
rotate_checked-rotated (suc n) stamp [] h = rw (rotate_checked, read-write [] tt) refl
rotate_checked-rotated (suc n) stamp (y ∷ hosts) h =
    let done = take (suc n) (addresses (y ∷ hosts)) in
    let found : contains y.0 done ≡ true = unfold contains in rw (str_eq_refl y.0) refl in
    rw
      (
        rotate_checked,
        read-write (y ∷ hosts) h,
        advance_responsive_cursor,
        read-write (y ∷ hosts) h,
        advance-moved done stamp y hosts found,
      )
      refl

-- A host among the first `k` of a file that the runs together walk `k` hosts of is tried.
tried-within :
    (x : Str) (rounds : List Round) (k : ℕ) (hosts : List Host)
    → All IsWritable hosts
    → All (λ r. NoSpace r.1) rounds
    → k ≤ total rounds
    → contains x (take k (addresses hosts)) ≡ true
    → contains x (tried rounds (some (write_responsive_file hosts))) ≡ true
unfolding tried
tried-within x [] zero hosts w p le h = h
tried-within x [] (suc k) hosts w p le h = ground (arith, le)
tried-within x ((n, stamp) ∷ rounds) k hosts w p le h =
    let later = rotated n stamp hosts in
    let goes_on = rotated-IsWritable n stamp hosts p.0 w in
    rw (rotate_checked-rotated n stamp hosts w, read-write hosts w)
      (rw
        (contains-append x (take n (addresses hosts))
          (tried rounds (some (write_responsive_file later))))
        (elim (Bool-cases (contains x (take n (addresses hosts)))) [
          | inl e ↦ rw e refl
          | inr e ↦ ground (
            arith,
            tried-within x rounds (total rounds) later goes_on p.1 (omega arith)
                (rotated-place x n k (total rounds) stamp hosts le e h),
          )
        ]))

-- Runs in a row, of whatever sizes, that together walk at least as many hosts as the file has,
-- starting from a file that was written with fields free of white space and stamping without white
-- space, try every host of the file: no host is starved by those in front of it.
pub every_host_tried :
    (x : Str) (rounds : List Round) (hosts : List Host)
    → All IsWritable hosts
    → All (λ r. NoSpace r.1) rounds
    → length hosts ≤ total rounds
    → contains x (addresses hosts) ≡ true
    → contains x (tried rounds (some (write_responsive_file hosts))) ≡ true
every_host_tried x rounds hosts w p le h =
    tried-within x rounds (length hosts) hosts w p le
      (rw (take-addresses (length hosts) hosts, take-all hosts) h)
