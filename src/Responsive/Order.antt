-- ===== src/Responsive/Order.antt =====
-- The order and the members of the list that `fetch_responsive_hosts` derives.
use ichnos.Base.{
  Str, contains, str_le, str_le_total, str_le_trans, true, List, [], ◌∷◌, map, none, some, ◌≡◌,
  refl, ◌⊎◌, inl, inr, All, Bool-cases,
}
use ichnos.Base.Dict.{lookup}
use ichnos.Base.Sort.{IsSorted, sorted-IsSorted, contains-key-sorted, All-sorted}
use ichnos.Responsive.{Host, addresses, later_of, attempt_of, by_attempt, responsive_hosts}

same-addresses :
    (failures hosts : List Host) → addresses (map (attempt_of failures) hosts) ≡ addresses hosts
same-addresses failures [] = refl
same-addresses failures (h ∷ hosts) = rw (same-addresses failures hosts) refl

-- The pair is in the list.
abbrev pub Among : Host → List Host → Type 0
Among h [] = ⊥
Among h (g ∷ hosts) = (h ≡ g) ⊎ Among h hosts

-- When an address last failed; the empty text, which is before any other, if it never did.
abbrev pub failed_at : List Host → Str → Str
failed_at failures ip = elim (lookup ip failures) [ none ↦ [] | some t ↦ t ]

-- The stamp is the time of a success or of the last failure, whichever is later.
pub record IsLastTry (last_success last_failure : List Host) (h : Host) : Type 0 where
  pub seen : Str
  pub succeeded : Among (h.0, seen) last_success
  pub after_success : str_le seen h.1 ≡ true
  pub after_failure : str_le (failed_at last_failure h.0) h.1 ≡ true
  pub tried : (h.1 ≡ seen) ⊎ (h.1 ≡ failed_at last_failure h.0)

str_le_refl : (s : Str) → str_le s s ≡ true
str_le_refl s = elim (Bool-cases (str_le s s)) [ inl e ↦ e | inr e ↦ str_le_total s s e ]

later_of-bounds :
    (a b : Str)
    → (str_le a (later_of a b) ≡ true)
      × (str_le b (later_of a b) ≡ true)
      × ((later_of a b ≡ a) ⊎ (later_of a b ≡ b))
unfolding later_of
later_of-bounds a b = elim (Bool-cases (str_le b a)) [
  | inl e ↦ rw e (str_le_refl a, e, inl refl)
  | inr e ↦ rw e (str_le_total b a e, str_le_refl b, inr refl)
]

attempts-IsLastTry :
    (whole failures hosts : List Host)
    → ((h : Host) → Among h hosts → Among h whole)
    → All (IsLastTry whole failures) (map (attempt_of failures) hosts)
attempts-IsLastTry whole failures [] within = tt
attempts-IsLastTry whole failures (h ∷ hosts) within =
    let bounds = later_of-bounds h.1 (failed_at failures h.0) in
    (
      record {
        seen = h.1;
        succeeded = within h (inl refl);
        after_success = bounds.0;
        after_failure = bounds.1;
        tried = bounds.2;
      },
      attempts-IsLastTry whole failures hosts (λ g m. within g (inr m)),
    )

-- The list is in the order of its stamps, oldest first. Each stamp is the time of a success of its host or of
-- the host's last failure, and is before neither. The addresses are those with a success, whatever failed.
pub responsive_hosts-order :
    (last_success last_failure : List Host)
    → IsSorted by_attempt (responsive_hosts last_success last_failure)
      × All (IsLastTry last_success last_failure) (responsive_hosts last_success last_failure)
      × ((ip : Str)
          → contains ip (addresses (responsive_hosts last_success last_failure))
            ≡ contains ip (addresses last_success))
unfolding responsive_hosts
responsive_hosts-order last_success last_failure = (
  sorted-IsSorted by_attempt (λ a b. str_le_total a.1 b.1) (λ a b c. str_le_trans a.1 b.1 c.1)
      (map (attempt_of last_failure) last_success),
  All-sorted by_attempt (IsLastTry last_success last_failure)
      (map (attempt_of last_failure) last_success)
      (attempts-IsLastTry last_success last_failure last_success (λ h m. m)),
  λ ip.
      rw
        (
          contains-key-sorted by_attempt (λ (h : Host). h.0) ip
              (map (attempt_of last_failure) last_success),
          same-addresses last_failure last_success,
        )
        refl,
)
