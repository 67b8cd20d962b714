-- ===== src/Json/Print/Order.antt =====
-- `json.dumps` with sorted keys, and the order of the fields.
use ichnos.Base.{
  Str, ◌==◌, str_le_total, str_le_trans, str_le_antisym, true, false, List, ◌≡◌, refl, ap, ◌∙◌,
  arith, eq_iff,
}
use ichnos.Base.Sort.{sorted, sorted-cons, sorted-swap}
use ichnos.Json.{Json, arr, obj, Items, nil, cons, Fields, end, field}
use ichnos.Json.Print.{Style, dumps, dump_items, dump_fields, braces, brackets, arrange, by_key}

-- The same document, but for the order of the fields of each object.
mutual
  pub data Same : Json → Json → Type 0 where
    itself : (j : Json) → Same j j
    same_arr : (xs ys : Items) → SameItems xs ys → Same (arr xs) (arr ys)
    same_obj : (fs gs : Fields) → SameFields fs gs → Same (obj fs) (obj gs)

  pub data SameItems : Items → Items → Type 0 where
    no_items : SameItems nil nil
    items :
        (x y : Json) (xs ys : Items)
        → Same x y
        → SameItems xs ys
        → SameItems (cons x xs) (cons y ys)

  pub data SameFields : Fields → Fields → Type 0 where
    no_fields : SameFields end end
    fields :
        (k : Str) (v w : Json) (fs gs : Fields)
        → Same v w
        → SameFields fs gs
        → SameFields (field k v fs) (field k w gs)
    swapped :
        (j k : Str) (v w : Json) (fs : Fields)
        → (j == k) ≡ false
        → SameFields (field j v (field k w fs)) (field k w (field j v fs))
    chained : (fs gs hs : Fields) → SameFields fs gs → SameFields gs hs → SameFields fs hs

by_key_total : (p q : Str × Str) → by_key p q ≡ false → by_key q p ≡ true
by_key_total p q h = str_le_total p.0 q.0 h

by_key_trans : (p q r : Str × Str) → by_key p q ≡ true → by_key q r ≡ true → by_key p r ≡ true
by_key_trans p q r h k = str_le_trans p.0 q.0 r.0 h k

by_key-strict : (p q : Str × Str) → (p.0 == q.0) ≡ false → by_key p q ≡ true → by_key q p ≡ true → ⊥
by_key-strict p q e h k = ground (arith, str_le_antisym p.0 q.0 h k, eq_iff p.0 q.0, e)

module _ (st : Style) (keyed : st.sort_keys ≡ true) where
  braces-sorted :
      (ps qs : List (Str × Str)) → sorted by_key ps ≡ sorted by_key qs → braces st ps ≡ braces st qs
  unfolding braces arrange
  braces-sorted ps qs e = rw (keyed, e) refl

  mutual
    unfolding dumps

    -- Documents that differ only in the order of the fields of their objects, at any depth, print alike.
    pub dumps-Same : (a b : Json) → Same a b → dumps st a ≡ dumps st b
    dumps-Same a b (itself j) = refl
    dumps-Same a b (same_arr xs ys h) = ap (λ t. brackets st t) (dump_items-SameItems xs ys h)
    dumps-Same a b (same_obj fs gs h) =
        braces-sorted (dump_fields st fs) (dump_fields st gs) (dump_fields-SameFields fs gs h)

    dump_items-SameItems : (xs ys : Items) → SameItems xs ys → dump_items st xs ≡ dump_items st ys
    dump_items-SameItems xs ys no_items = refl
    dump_items-SameItems xs ys (items x y us vs h k) =
        rw (dumps-Same x y h, dump_items-SameItems us vs k) refl

    dump_fields-SameFields :
        (fs gs : Fields)
        → SameFields fs gs
        → sorted by_key (dump_fields st fs) ≡ sorted by_key (dump_fields st gs)
    dump_fields-SameFields fs gs no_fields = refl
    dump_fields-SameFields fs gs (fields k v w us vs h e) = rw (dumps-Same v w h) (
        sorted-cons by_key by_key_total by_key_trans (k, dumps st w) (dump_fields st us)
          (dump_fields st vs) (dump_fields-SameFields us vs e))
    dump_fields-SameFields fs gs (swapped j k v w us e) =
        sorted-swap by_key by_key_total by_key_trans (j, dumps st v) (k, dumps st w)
          (dump_fields st us) (by_key-strict (j, dumps st v) (k, dumps st w) e)
    dump_fields-SameFields fs gs (chained us vs ws h e) =
        dump_fields-SameFields us vs h ∙ dump_fields-SameFields vs ws e
