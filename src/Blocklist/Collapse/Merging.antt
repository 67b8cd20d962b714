-- ===== src/Blocklist/Collapse/Merging.antt =====
-- The loop that merges networks: its fuel is enough, and it keeps the addresses covered.
use ichnos.Base.{
  ℕ, zero, suc, ◌+◌, ◌≤◌, true, ◌||◌, ◌≡◌, refl, sym, ◌∙◌, arith, Bool-cases, inl, inr, ◌⊎◌, List,
  [], ◌∷◌, map, any, All, Option, none, some, length,
}
use ichnos.Blocklist.Collapse.{Block, same_block, put_back, take_out, supernet, merge}
use ichnos.Blocklist.Collapse.Cover.{covers, IsBlock, covers-merged, supernet-IsBlock}

same_block-path : (b c : Block) → same_block b c ≡ true → b ≡ c
same_block-path (n, p) (m, q) e = grind (arith, e)

values : List (Block × Block) → List Block
values m = map (λ (e : Block × Block). e.1) m

module _ (width : ℕ) where
  Entry : Block × Block → Type 0
  Entry e = (e.0 ≡ supernet width e.1) × IsBlock width e.1

  -- `e` and `rest` divide the dictionary, and `e` has the key.
  record Division (k : Block) (m : List (Block × Block)) (e : Block) (rest : List (Block × Block))
      : Type 0 where
    key : k ≡ supernet width e
    block : IsBlock width e
    others : All Entry rest
    size : length m ≡ suc (length rest)
    cover :
        (a : ℕ)
        → any (covers width a) (values m) ≡ (covers width a e || any (covers width a) (values rest))

  Taken : Block → List (Block × Block) → Option (Block × List (Block × Block)) → Type 0
  Taken k m none = Unit
  Taken k m (some (e, rest)) = Division k m e rest

  Taken-put_back :
      (k : Block) (e : Block × Block) (m : List (Block × Block))
      (o : Option (Block × List (Block × Block)))
      → Entry e
      → Taken k m o
      → Taken k (e ∷ m) (put_back e o)
  unfolding put_back Taken values Entry
  Taken-put_back k e m none v t = tt
  Taken-put_back k e m (some (c, rest)) v d = record {
    key = d.key;
    block = d.block;
    others = (v, d.others);
    size = omega (arith, d.size);
    cover = λ a. ground (arith, d.cover a);
  }

  Taken-take_out : (k : Block) (m : List (Block × Block)) → All Entry m → Taken k m (take_out k m)
  unfolding take_out Taken Entry values
  Taken-take_out k [] v = tt
  Taken-take_out k ((j, b) ∷ m) v = elim (Bool-cases (same_block j k)) [
    | inl e ↦ rw e (record {
      key = sym (same_block-path j k e) ∙ v.0.0;
      block = v.0.1;
      others = v.1;
      size = refl;
      cover = λ a. refl;
    })
    | inr e ↦ rw e (Taken-put_back k (j, b) m (take_out k m) v.0 (Taken-take_out k m v.1))
  ]

  record Found (k : Block) (m : List (Block × Block)) : Type 0 where
    entry : Block
    rest : List (Block × Block)
    found : take_out k m ≡ some (entry, rest)
    division : Division k m entry rest

  take_out_split :
      (k : Block) (m : List (Block × Block)) (o : Option (Block × List (Block × Block)))
      → take_out k m ≡ o
      → Taken k m o
      → (take_out k m ≡ none) ⊎ Found k m
  unfolding Taken
  take_out_split k m none e t = inl e
  take_out_split k m (some (c, rest)) e t =
      inr (record { entry = c; rest = rest; found = e; division = t })

  take_out-cases :
      (k : Block) (m : List (Block × Block)) → All Entry m → (take_out k m ≡ none) ⊎ Found k m
  take_out-cases k m v = take_out_split k m (take_out k m) refl (Taken-take_out k m v)

  Merged : ℕ → List Block → List (Block × Block) → List (Block × Block) → Type 0
  Merged a stack subnets result =
      All Entry result
      × (any (covers width a) (values result)
          ≡ (any (covers width a) stack || any (covers width a) (values subnets)))

  -- Fuel for two rounds for each network on the stack, and one for each in the dictionary.
  Merged-merge :
      (a fuel : ℕ) (stack : List Block) (subnets : List (Block × Block))
      → length stack + length stack + length subnets ≤ fuel
      → All (IsBlock width) stack
      → All Entry subnets
      → Merged a stack subnets (merge width fuel stack subnets)
  unfolding merge Merged Entry values
  Merged-merge a zero [] subnets h v w = (w, refl)
  Merged-merge a zero (b ∷ stack) subnets h v w = ground (arith, h)
  Merged-merge a (suc fuel) [] subnets h v w = (w, refl)
  Merged-merge a (suc fuel) (b ∷ stack) subnets h v w =
      let k = supernet width b in
      elim (take_out-cases k subnets w) [
        | inl e ↦
            let (inside, cover) =
              Merged-merge a fuel stack ((k, b) ∷ subnets) (omega (arith, h)) v.1
                ((refl, v.0), w) in
            rw (e, merge) (inside, ground (arith, cover))
        | inr f ↦
            let d = f.division in
            elim (Bool-cases (same_block f.entry b)) [
              | inl same ↦
                  let (inside, cover) =
                    Merged-merge a fuel stack subnets (omega (arith, h)) v.1 w in
                  rw (f.found, merge, same)
                    (inside, ground (arith, cover, d.cover a, same_block-path f.entry b same))
              | inr apart ↦
                  let (inside, cover) =
                    Merged-merge a fuel (k ∷ stack) f.rest (omega (arith, h, d.size))
                      (supernet-IsBlock width b v.0, v.1) d.others in
                  let union = covers-merged width a b f.entry v.0 d.block apart (sym d.key) in
                  rw (f.found, merge, apart) (inside, ground (arith, cover, d.cover a, union))
            ]
      ]

  -- With the fuel of `collapse_internal`: the networks kept cover what the given ones do.
  pub any-merge :
      (a fuel : ℕ) (stack : List Block)
      → length stack + length stack ≤ fuel
      → All (IsBlock width) stack
      → any (covers width a) (map (λ (e : Block × Block). e.1) (merge width fuel stack []))
        ≡ any (covers width a) stack
  unfolding Merged values
  any-merge a fuel stack h v =
      let (inside, cover) = Merged-merge a fuel stack [] (omega (arith, h)) v tt in
      ground (arith, cover)

  IsBlock-values : (m : List (Block × Block)) → All Entry m → All (IsBlock width) (values m)
  unfolding Entry values
  IsBlock-values [] v = tt
  IsBlock-values (e ∷ m) v = (v.0.1, IsBlock-values m v.1)

  pub IsBlock-merge :
      (fuel : ℕ) (stack : List Block)
      → length stack + length stack ≤ fuel
      → All (IsBlock width) stack
      → All (IsBlock width) (map (λ (e : Block × Block). e.1) (merge width fuel stack []))
  unfolding Merged values
  IsBlock-merge fuel stack h v =
      IsBlock-values (merge width fuel stack [])
        (Merged-merge 0 fuel stack [] (omega (arith, h)) v tt).0
