-- ===== src/Cli/Rebuilding/Tests.antt =====
-- A concrete rebuild whose query is answered.
use ichnos.Base.{Str, codes, List, [], ◌∷◌, ◌++◌, Raises, ok, none, ◌≡◌, refl, All}
use ichnos.Responsive.{Host, refresh_protocol}
use ichnos.Cli.{Settings, refresh_all, cmd_responsive_refresh}
use ichnos.Cli.Rebuilding.Derived.{IsDerived, rebuild_success}

abbrev settings : Settings
settings = record {
  client_id = codes "id";
  client_secret = codes "secret";
  jurisdiction_blocklist = none;
  bogons = [];
}

abbrev path : Str → Str
path protocol = codes "/var/" ++ protocol

abbrev answered : Str → Raises (List Host)
answered protocol = ok ((codes "192.0.2.1", codes "2026-01-01") ∷ [])

exit_zero : (cmd_responsive_refresh path answered settings (ok tt) (codes "ssh" ∷ []) []).0 ≡ ok 0
unfolding cmd_responsive_refresh refresh_all refresh_protocol
exit_zero = refl

rebuild_success_example :
    All
      (IsDerived path answered
        (cmd_responsive_refresh path answered settings (ok tt) (codes "ssh" ∷ []) []).1)
      (codes "ssh" ∷ [])
rebuild_success_example =
    rebuild_success path answered settings (ok tt) (codes "ssh" ∷ []) [] (tt, tt) exit_zero
