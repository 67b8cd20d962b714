-- ===== src/Blocklist/File/Tests.antt =====
-- A concrete block list of one entry.
use ichnos.Base.{codes, is_space, List, [], ◌∷◌, some, ◌≡◌, refl, All, Str}
use ichnos.Blocklist.{read_blocklist_file, write_blocklist_file}
use ichnos.Blocklist.File.{IsEntry, read_blocklist_file-write_blocklist_file}

abbrev cidrs : List Str
cidrs = codes "10.0.0.0/8" ∷ []

cidrs-IsEntry : All IsEntry cidrs
unfolding is_space
cidrs-IsEntry = (
  record {
    first = 49;
    middle = codes "0.0.0.0/";
    last = 56;
    whole = refl;
    first_plain = refl;
    last_plain = refl;
    line = (
      (refl, refl),
      (
        (refl, refl),
        (
          (refl, refl),
          (
            (refl, refl),
            (
              (refl, refl),
              ((refl, refl), ((refl, refl), ((refl, refl), ((refl, refl), ((refl, refl), tt))))),
            ),
          ),
        ),
      ),
    );
  },
  tt,
)

read_blocklist_file-write_blocklist_file_example :
    read_blocklist_file (some (write_blocklist_file cidrs)) ≡ cidrs
read_blocklist_file-write_blocklist_file_example =
    read_blocklist_file-write_blocklist_file cidrs cidrs-IsEntry
