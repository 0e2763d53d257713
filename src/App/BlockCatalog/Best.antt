-- ===== src/App/BlockCatalog/Best.antt =====
-- Which of the blocks with one canonical key `BlockCatalogService::list` shows.
use gr4_control_plane.Prelude.{
  String, ◌==◌, string_eq, nat_eq, true, false, List, [], ◌∷◌, contains, ◌≢◌, ◌≤◌, All, All-append,
  ◌≡◌, refl, arith, sym, ◌∙◌, Bool-cases, inl, inr, nat_eq,
}
use gr4_control_plane.Prelude.TextOrder.{str_ltb_asymm, str_ltb_trans, str_ltb_connex}
use gr4_control_plane.Prelude.Sorting.{sort, count_if, All-sort, sort-All}
use gr4_control_plane.Domain.Catalog.{BlockDescriptor}
use gr4_control_plane.App.BlockCatalog.{
  canonical_catalog_key, is_better_browse_entry, is_before, CachedCatalog, replace_if_better,
  add_block, add_blocks, catalog_of,
}
use gr4_control_plane.App.BlockCatalog.Browse.{has_key, IsOnce, add_block-IsOnce}

module _ {Double : Type 0} where
  better_asymm :
      (x y : BlockDescriptor Double)
      → is_better_browse_entry x y ≡ true
      → is_better_browse_entry y x ≡ false
  unfolding is_better_browse_entry
  better_asymm x y h = ground (
    arith,
    str_ltb_asymm x.category y.category,
    str_ltb_asymm x.name y.name,
    str_ltb_asymm x.id y.id,
  )

  better_trans :
      (x y z : BlockDescriptor Double)
      → is_better_browse_entry y x ≡ false
      → is_better_browse_entry z y ≡ false
      → is_better_browse_entry z x ≡ false
  unfolding is_better_browse_entry
  better_trans x y z h k = ground (
    arith,
    str_ltb_trans x.category y.category z.category,
    str_ltb_connex x.category y.category,
    str_ltb_connex y.category z.category,
    str_ltb_trans x.name y.name z.name,
    str_ltb_connex x.name y.name,
    str_ltb_connex y.name z.name,
    str_ltb_trans x.id y.id z.id,
  )

  -- No entry with the key of `b` is worse than `b`.
  abbrev pub Covers : BlockDescriptor Double → BlockDescriptor Double → Type 0
  Covers b e =
      canonical_catalog_key e ≡ canonical_catalog_key b → is_better_browse_entry b e ≡ false

  Covers-self : (b : BlockDescriptor Double) → is_better_browse_entry b b ≡ false
  Covers-self b = elim (Bool-cases (is_better_browse_entry b b)) [
    | inr e ↦ e
    | inl e ↦ better_asymm b b e
  ]

  same_key :
      (x y : BlockDescriptor Double)
      → (canonical_catalog_key x == canonical_catalog_key y) ≡ true
      → canonical_catalog_key x ≡ canonical_catalog_key y
  same_key x y h = ground (arith, h)

  other_key :
      (x y : BlockDescriptor Double)
      → (canonical_catalog_key x == canonical_catalog_key y) ≡ false
      → canonical_catalog_key x ≢ canonical_catalog_key y
  other_key x y h e = ground (arith, h, e)

  Covers-replace :
      (b block : BlockDescriptor Double) (es : List (BlockDescriptor Double))
      → All (Covers b) es
      → All (Covers b) (replace_if_better block es)
  unfolding replace_if_better
  Covers-replace b block [] h = tt
  Covers-replace b block (e ∷ es) (p, h) =
      elim (Bool-cases (canonical_catalog_key e == canonical_catalog_key block)) [
        | inr differ ↦ rw differ (p, Covers-replace b block es h)
        | inl same ↦ elim (Bool-cases (is_better_browse_entry block e)) [
          | inr worse ↦ rw (same, worse) (p, h)
          | inl wins ↦
              let covered : Covers b block = λ q.
                better_trans block e b (better_asymm block e wins)
                  (p (same_key e block same ∙ q)) in
              rw (same, wins) (covered, h)
        ]
      ]

  none_with_key :
      (b : BlockDescriptor Double) (es : List (BlockDescriptor Double))
      → count_if (has_key (canonical_catalog_key b)) es ≡ 0
      → All (Covers b) es
  none_with_key b [] h = tt
  none_with_key b (e ∷ es) h =
      elim (Bool-cases (canonical_catalog_key b == canonical_catalog_key e)) [
        | inl same ↦ absurd (ground (arith, h, same))
        | inr differ ↦ (
          λ q. absurd (other_key b e differ (sym q)),
          none_with_key b es (ground (arith, h, differ)),
        )
      ]

  Covers-replaced :
      (block : BlockDescriptor Double) (es : List (BlockDescriptor Double))
      → count_if (has_key (canonical_catalog_key block)) es ≤ 1
      → All (Covers block) (replace_if_better block es)
  unfolding replace_if_better
  Covers-replaced block [] h = tt
  Covers-replaced block (e ∷ es) h =
      elim (Bool-cases (canonical_catalog_key e == canonical_catalog_key block)) [
        | inr differ ↦ rw differ (
          λ q. absurd (other_key e block differ q),
          Covers-replaced block es (ground (arith, h, differ)),
        )
        | inl same ↦
            let alone = none_with_key block es (ground (arith, h, same)) in
            elim (Bool-cases (is_better_browse_entry block e)) [
              | inr worse ↦ rw (same, worse) (λ _. worse, alone)
              | inl wins ↦ rw (same, wins) (λ _. Covers-self block, alone)
            ]
      ]

  -- The key of `b` is among the keys, and no entry that has it is worse than `b`.
  abbrev Seen : BlockDescriptor Double → CachedCatalog Double × List String → Type 0
  Seen b loop =
      (contains loop.1 (canonical_catalog_key b) ≡ true) × All (Covers b) loop.0.browse_blocks

  add_block-Seen :
      (b block : BlockDescriptor Double) (loop : CachedCatalog Double × List String)
      → Seen b loop
      → Seen b (add_block block loop)
  unfolding add_block
  add_block-Seen b block loop (k, h) =
      elim (Bool-cases (contains loop.1 (canonical_catalog_key block))) [
        | inl old ↦ rw old (k, Covers-replace b block loop.0.browse_blocks h)
        | inr new ↦
            let apart : Covers b block = λ q. absurd (ground (arith, q, k, new)) in
            rw new (
              ground (arith, k),
              All-append (Covers b) loop.0.browse_blocks (block ∷ []) h (apart, tt),
            )
      ]

  add_block-new :
      (block : BlockDescriptor Double) (loop : CachedCatalog Double × List String)
      → IsOnce loop
      → Seen block (add_block block loop)
  unfolding add_block
  add_block-new block loop once =
      let number = once (canonical_catalog_key block) in
      elim (Bool-cases (contains loop.1 (canonical_catalog_key block))) [
        | inl old ↦
            rw old (old, Covers-replaced block loop.0.browse_blocks (ground (arith, number, old)))
        | inr new ↦ rw new (
          ground arith,
          All-append (Covers block) loop.0.browse_blocks (block ∷ [])
              (none_with_key block loop.0.browse_blocks (ground (arith, number, new)))
              (λ _. Covers-self block, tt),
        )
      ]

  add_blocks-Seen :
      (b : BlockDescriptor Double) (blocks : List (BlockDescriptor Double))
      (loop : CachedCatalog Double × List String)
      → Seen b loop
      → Seen b (add_blocks blocks loop)
  unfolding add_blocks
  add_blocks-Seen b [] loop h = h
  add_blocks-Seen b (block ∷ rest) loop h =
      add_blocks-Seen b rest (add_block block loop) (add_block-Seen b block loop h)

  add_blocks-new :
      (blocks : List (BlockDescriptor Double)) (loop : CachedCatalog Double × List String)
      → IsOnce loop
      → All (λ b. All (Covers b) (add_blocks blocks loop).0.browse_blocks) blocks
  unfolding add_blocks
  add_blocks-new [] loop once = tt
  add_blocks-new (block ∷ rest) loop once = (
    (add_blocks-Seen block rest (add_block block loop) (add_block-new block loop once)).1,
    add_blocks-new rest (add_block block loop) (add_block-IsOnce block loop once),
  )

  sort_inside :
      (es blocks : List (BlockDescriptor Double))
      → All (λ b. All (Covers b) es) blocks
      → All (λ b. All (Covers b) (sort is_before es)) blocks
  sort_inside es [] h = tt
  sort_inside es (b ∷ blocks) (p, h) = (All-sort (Covers b) is_before es p, sort_inside es blocks h)

  -- No block that the provider gives is better than an entry of the browse list with its canonical
  -- key.
  pub browse-best :
      (provided : List (BlockDescriptor Double))
      → All (λ b. All (Covers b) (catalog_of provided).browse_blocks) provided
  unfolding catalog_of
  browse-best provided =
      let start : CachedCatalog Double × List String =
        (record { browse_blocks = []; exact_blocks = [] }, []) in
      let blocks = sort is_before provided in
      sort-All _ is_before provided (
        sort_inside (add_blocks blocks start).0.browse_blocks blocks
          (add_blocks-new blocks start (λ _. refl)))
