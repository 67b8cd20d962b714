-- ===== src/Cli/Scanning/Excluded.antt =====
-- The block list that the commands rebuild, and what they do with it.
use ichnos.Base.{
  Str, str_eq_refl, Bool, false, List, ◌++◌, map, any, some, ok, ◌>>=◌, ◌≡◌, refl, sym, ap, ◌∙◌,
}
use ichnos.Base.Dict.{lookup, store, lookup-store}
use ichnos.Models.{Exclusion}
use ichnos.Blocklist.{Address, ip_address, is_blocked, read_blocklist_file, write_blocklist_file}
use ichnos.Blocklist.File.{read_blocklist_file-write_blocklist_file}
use ichnos.Blocklist.Layers.{networks, collapsed, build_blocklist, default_bogons}
use ichnos.Blocklist.Layers.Parsed.{networks-IsNetwork}
use ichnos.Blocklist.Layers.Listed.{is_v6, listed, build_blocklist-listed}
use ichnos.Blocklist.Layers.Filed.{IsBuilt, collapsed-IsBuilt}
use ichnos.Cli.{read_jurisdiction_cidrs}
use ichnos.Cli.Scanning.{
  Files, Station, pull_jurisdiction, write_built, merge_layers, unless_failed, rebuild_blocklist,
}

-- The entries of the three layers.
abbrev pub layers : Station → List Exclusion → List Str → Files → List Str
layers env exclusions extra files =
    default_bogons
    ++ ((map (λ (e : Exclusion). e.ip_or_cidr) exclusions ++ extra)
        ++ read_jurisdiction_cidrs (lookup env.config.jurisdiction_blocklist_path files))

module _ (env : Station) (exclusions : List Exclusion) (extra : List Str) (files pulled : Files)
    (found : Bool) (available : pull_jurisdiction env files ≡ (ok found, pulled))
    (one_version : any is_v6 (networks env.parse_v6 (layers env exclusions extra pulled))
      ≡ false) where
  built :
      IsBuilt (collapsed env.print_v6 (networks env.parse_v6 (layers env exclusions extra pulled)))
  built =
      collapsed-IsBuilt env.print_v6 (networks env.parse_v6 (layers env exclusions extra pulled))
        (networks-IsNetwork env.parse_v6 (layers env exclusions extra pulled)) one_version

  rebuilt :
      rebuild_blocklist env (ok exclusions) extra files
      ≡ (ok tt, store env.config.blocklist_path (write_blocklist_file built.cidrs) pulled)
  unfolding rebuild_blocklist unless_failed merge_layers write_built build_blocklist
  rebuilt = rw (available, built.done) refl

  read_back :
      read_blocklist_file (
        lookup env.config.blocklist_path
          (store env.config.blocklist_path (write_blocklist_file built.cidrs) pulled))
      ≡ built.cidrs
  read_back =
      rw
        (
          lookup-store env.config.blocklist_path env.config.blocklist_path
              (write_blocklist_file built.cidrs) pulled,
          str_eq_refl env.config.blocklist_path,
        )
        (read_blocklist_file-write_blocklist_file built.cidrs built.entries)

  answer :
      (ip : Str) (x : Address)
      → ip_address env.parse_v6 ip ≡ some x
      → is_blocked env.parse_v6 ip built.cidrs
        ≡ ok (any (listed env.parse_v6 x) (layers env exclusions extra pulled))
  unfolding build_blocklist
  answer ip x e =
      ap (λ r. r >>= is_blocked env.parse_v6 ip) (sym built.done)
      ∙ build_blocklist-listed env.parse_v6 env.print_v6
          (map (λ (v : Exclusion). v.ip_or_cidr) exclusions ++ extra)
          (read_jurisdiction_cidrs (lookup env.config.jurisdiction_blocklist_path pulled))
          default_bogons one_version ip x e

-- Where the jurisdiction list is there, pulled from S3 or not needed, the exclusion table can be read and
-- no entry is an IPv6 network: `_rebuild_blocklist` returns, and with the file that it leaves `is_blocked`
-- says of any address whether it lies in the network of a built-in range, of an opt-out, of an extra
-- exclusion or of the jurisdiction list, as those stand now; an old block list has no effect.
pub rebuild_blocklist-listed :
    (env : Station) (exclusions : List Exclusion) (extra : List Str) (files pulled : Files)
    (found : Bool)
    → pull_jurisdiction env files ≡ (ok found, pulled)
    → any is_v6 (networks env.parse_v6 (layers env exclusions extra pulled)) ≡ false
    → (ip : Str) (x : Address) → ip_address env.parse_v6 ip ≡ some x
    → ((rebuild_blocklist env (ok exclusions) extra files).0 ≡ ok tt)
      × (is_blocked env.parse_v6 ip (
            read_blocklist_file (
              lookup env.config.blocklist_path
                (rebuild_blocklist env (ok exclusions) extra files).1))
          ≡ ok (any (listed env.parse_v6 x) (layers env exclusions extra pulled)))
rebuild_blocklist-listed env exclusions extra files pulled found available one_version ip x e =
    rw (rebuilt env exclusions extra files pulled found available one_version) (
      refl,
      rw (read_back env exclusions extra files pulled found available one_version)
          (answer env exclusions extra files pulled found available one_version ip x e),
    )
