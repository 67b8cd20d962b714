-- ===== src/Cli/JurisdictionList/Delivered.antt =====
-- The jurisdiction list, from the refresh job to the instance that scans.
use ichnos.Base.{
  Str, str_eq_refl, strip, nonempty, file_lines-with_newline, true, false, not, ◌&&◌, List, [], ◌∷◌,
  map, keep_if, All, Option, none, some, ok, ◌≡◌, refl, ap,
}
use ichnos.Base.Dict.{lookup, store, lookup-store}
use ichnos.Blocklist.{write_blocklist_file}
use ichnos.Blocklist.File.{IsEntry, strip-IsEntry, nonempty-IsEntry, lines}
use ichnos.Jurisdiction.Refresh.{Outside, JurisdictionRefreshResult, refresh_jurisdiction_blocklist}
use ichnos.Cli.{starts_with_hash, read_jurisdiction_cidrs}
use ichnos.Cli.Scanning.{
  Files, Config, Station, object, answer_of, exists_file, download_file, pull_jurisdiction,
}
use ichnos.Cli.JurisdictionList.{Store, countries_of, uploaded, refreshed, cmd_jurisdiction_refresh}

-- An entry that is no comment.
abbrev pub IsListed : Str → Type 0
IsListed l = IsEntry l × (starts_with_hash l ≡ false)

entries : (ls : List Str) → All IsListed ls → All IsEntry ls
entries [] h = tt
entries (l ∷ ls) h = (h.0.0, entries ls h.1)

kept :
    (ls : List Str)
    → All IsListed ls
    → map strip (keep_if (λ l. nonempty (strip l) && not (starts_with_hash l)) ls) ≡ ls
kept [] h = refl
kept (l ∷ ls) h =
    rw (strip-IsEntry l h.0.0, nonempty-IsEntry l h.0.0, h.0.1)
      (rw (strip-IsEntry l h.0.0) (ap (λ t. l ∷ t) (kept ls h.1)))

read_jurisdiction_cidrs-write :
    (cidrs : List Str)
    → All IsListed cidrs
    → read_jurisdiction_cidrs (some (write_blocklist_file cidrs)) ≡ cidrs
unfolding read_jurisdiction_cidrs write_blocklist_file
read_jurisdiction_cidrs-write cidrs h =
    rw (file_lines-with_newline cidrs (lines cidrs (entries cidrs h))) (kept cidrs h)

stored :
    (path contents : Str) (files : Files) → lookup path (store path contents files) ≡ some contents
stored path contents files = rw (lookup-store path path contents files, str_eq_refl path) refl

module _ (out : Outside) (config : Config) where
  pull_missing :
      (env : Station) (contents : Str) (files : Files)
      → lookup env.config.jurisdiction_blocklist_path files ≡ none
      → nonempty env.config.jurisdiction_s3_bucket ≡ true
      → env.s3 ≡ object contents
      → pull_jurisdiction env files
        ≡ (ok true, store env.config.jurisdiction_blocklist_path contents files)
  unfolding pull_jurisdiction exists_file download_file
  pull_missing env contents files missing bucket held =
      rw (pull_jurisdiction, exists_file, missing, bucket, held) refl

  -- Where a bucket is set, the refresh returns entries that are no comments and the upload succeeds:
  -- `cmd_jurisdiction_refresh` exits with 0, and its instance, and any new instance that has no list and pulls
  -- the uploaded object, read the refreshed networks back as the jurisdiction list, in order.
  pub jurisdiction_list_delivered :
      (countries : Option Str) (source : Str) (s : Store) (r : JurisdictionRefreshResult)
      → refresh_jurisdiction_blocklist out (countries_of countries) source ≡ ok r
      → All IsListed r.cidrs
      → nonempty config.jurisdiction_s3_bucket ≡ true
      → (env : Station) (files : Files) → lookup config.jurisdiction_blocklist_path files ≡ none
      → let after = cmd_jurisdiction_refresh out config (ok tt) countries source s in
        let pulled =
          pull_jurisdiction (record env { config = config; s3 = answer_of after.1.object }) files in
        (after.0 ≡ ok 0)
        × (read_jurisdiction_cidrs (lookup config.jurisdiction_blocklist_path after.1.files)
            ≡ r.cidrs)
        × (pulled.0 ≡ ok true)
        × (read_jurisdiction_cidrs (lookup config.jurisdiction_blocklist_path pulled.1) ≡ r.cidrs)
  unfolding cmd_jurisdiction_refresh refreshed uploaded
  jurisdiction_list_delivered countries source s r done listed bucket env files missing =
      let path = config.jurisdiction_blocklist_path in
      let contents = write_blocklist_file r.cidrs in
      let back = read_jurisdiction_cidrs-write r.cidrs listed in
      let fetched = λ (text : Str).
        pull_missing (record env { config = config; s3 = object text }) text files missing bucket
          refl in
      rw (cmd_jurisdiction_refresh, done, bucket)
        (
          refl,
          rw (stored path contents s.files) back,
          ap (λ p. p.0) (fetched contents),
          rw (fetched contents) (rw (stored path contents files) back),
        )
