-- ===== src/Json.antt =====
-- The JSON documents that the program reads and writes (the standard library's `json`).
-- A number is held as the text that `json` prints for it. Of `json` the source uses `loads`, which
-- is a parameter of the model where it is called, and `dumps`, which is defined here.
pub mod Print
use ichnos.Base.{Str, codes, ◌==◌, nonempty, Bool, true, false, Option, none, some, if◌then◌else◌}

mutual
  pub data Json : Type 0 where
    null : Json
    bool : Bool → Json
    num : Str → Json
    text : Str → Json
    arr : Items → Json
    obj : Fields → Json

  pub data Items : Type 0 where
    nil : Items
    cons : Json → Items → Items

  pub data Fields : Type 0 where
    end : Fields
    field : Str → Json → Fields → Fields

-- `d.get(key)`, with `none` for a missing key.
unfoldable pub get : Str → Fields → Option Json
get key end = none
get key (field k v fs) = if k == key then some v else get key fs

abbrev zero_texts : Str → Bool
zero_texts t = if t == codes "0" then true else if t == codes "0.0" then true else t == codes "-0.0"

-- `bool(value)`
unfoldable pub truthy : Json → Bool
truthy null = false
truthy (bool b) = b
truthy (num t) = if zero_texts t then false else true
truthy (text t) = nonempty t
truthy (arr nil) = false
truthy (arr (cons _ _)) = true
truthy (obj end) = false
truthy (obj (field _ _ _)) = true
