-- ===== src/Heap/MergeForward.antt =====
-- `merge_forward` on the heap: a region is freed that ends at a used chunk, at the top chunk, at
-- the designated victim or at another free chunk.
use unimem.Base.{
  ℕ, ◌+◌, ◌%◌, ◌≤◌, ◌<◌, ◌^◌, ◌≡◌, ◌≢◌, refl, sym, ap, ◌∙◌, arith, ◌⊎◌, inl, inr, true, false,
  Bool-cases, ◌==◌, ltb,
}
use unimem.Word.{add64}
use unimem.Machine.{Ptr, null, State, ok}
use unimem.Chunk.{pinuse, cinuse}
use unimem.Chunk.Head.{IsSize}
use unimem.MallocState.SmallBins.Victim.{with_dv}
use unimem.UniAllocator.{bin_chunk, merge_top, merge_dv, merge_next, merge_forward}
use unimem.Heap.{Blocks, IsTiling, IsChunk, Stock, IsFree, IsStock}
use unimem.Heap.Heads.{chunksize-ok, pinuse-ok, cinuse-ok, top_pinuse-ok, top_cinuse-ok}
use unimem.Heap.Released.{
  IsReleased, Releases, HoldsOnly, HoldsOnly-next, merged-IsReleased, below-IsReleased,
  bin_chunk-Releases,
}
use unimem.Heap.Drop.{IsGrown}
use unimem.Heap.UnlinkLarge.{unlink_chunk-IsStock}
use unimem.Heap.Victim.{IsTiling-with_dv, IsStock-set_dv, IsStock-drop_dv}
use unimem.Heap.Settle.{IsRegion, merged}
use unimem.Heap.Tagging.{framed, framed-runs, framed-IsSettled, freed, freed-runs, freed-IsSettled}
use unimem.Heap.TopMerge.{below, topped, topped-IsTiling, topped-IsStock, merge_top-topped}

-- The region from `q` to `q + m` is about to be freed: the chunk `p` of it is used, the others, if
-- any, are free and not kept any more.
module _ (s : State) (b : Blocks) (k : Stock) (q m p : Ptr) (tiling : IsTiling s b)
    (stock : IsStock s b k q (q + m)) (front : 0 < b.size q) (flag : b.pinuse q ≡ 1)
    (fits : b.size q ≤ m) (words : m % 8 ≡ 0) (holds : HoldsOnly b q m p) where
  front_chunk : IsChunk s b q
  front_chunk = tiling.each q front

  q_ne_null : q ≢ null
  q_ne_null e = omega (arith, e, tiling.least_pos, tiling.least, front_chunk.low)

  m_pos : 0 < m
  m_pos = omega (arith, front_chunk.least, fits)

  not_victim : q ≢ s.dv
  not_victim e = omega (arith, stock.victim, e, q_ne_null, m_pos)

  above : ltb q (q + m) ≡ true
  above = ground (arith, m_pos)

  -- A used chunk is behind.
  module _ (next : 0 < b.size (q + m)) (used : b.cinuse (q + m) ≡ 1) where
    used_region : IsRegion b q m
    used_region = record {
      front = front;
      pinuse = flag;
      behind = next;
      cinuse = used;
      fits = fits;
      words = words;
    }

    free_used : Releases b p (bin_chunk q m (freed s b q m tiling used_region))
    free_used =
        bin_chunk-Releases (freed s b q m tiling used_region) b (merged b q m) k q m p
          (freed-IsSettled s b q m tiling used_region k stock)
          (merged-IsReleased b q m p m_pos holds)

  -- A free chunk is behind.
  module _ (next : 0 < b.size (q + m)) (free : b.cinuse (q + m) ≡ 0) where
    abbrev whole : ℕ
    whole = m + b.size (q + m)

    next_chunk : IsChunk s b (q + m)
    next_chunk = tiling.each (q + m) next

    behind_next : (0 < b.size (q + whole)) × (b.pinuse (q + whole) ≡ 0)
    behind_next =
        let same : q + m + b.size (q + m) ≡ q + whole = omega arith in
        elim next_chunk.next [
          | inl last ↦ absurd (omega (arith, last.1, free))
          | inr there ↦ (rw same at there.0, rw same at (there.1 ∙ free))
        ]

    whole_region : IsRegion b q whole
    whole_region =
        let same : q + m + b.size (q + m) ≡ q + whole = omega arith in
        record {
          front = front;
          pinuse = flag;
          behind = behind_next.0;
          cinuse = rw same at ((next_chunk.between free).0);
          fits = omega (arith, fits);
          words = omega (arith, words, next_chunk.words);
        }

    next-IsFree : IsFree b q (q + m) (q + m)
    next-IsFree = (next, free, inr (omega arith))

    next-IsGrown : (z : Ptr) → z ≡ q + m → IsGrown b q (q + m) q (q + whole) z
    next-IsGrown z is = record {
      others = λ x there ne.
          let least = (tiling.each x there.0).least in
          omega
            (arith, there.2, ne, is, tiling.apart x (q + m) there.0 next, next_chunk.least, least);
      within = λ x there. (there.0, there.1, omega (arith, there.2));
      from = omega (arith, is);
      to = omega (arith, is, next);
    }

    whole-IsReleased : IsReleased b (merged b q whole) p
    whole-IsReleased =
        merged-IsReleased b q whole p (omega (arith, m_pos))
          (HoldsOnly-next s b q m p tiling next free holds)

    whole_limit : whole < 2 ^ 64
    whole_limit = omega (arith, next_chunk.high, front_chunk.low, tiling.limit)

    whole-IsSize : IsSize whole
    whole-IsSize = omega (arith, words, next_chunk.words, whole_limit)

    merge_dv-Releases : q + m ≡ s.dv → Releases b p (merge_dv q m s)
    unfolding merge_dv
    merge_dv-Releases is =
        let s0 = with_dv s null 0 in
        let size : s.dvsize ≡ b.size (q + m) = elim stock.victim [
          | inl absent ↦ absurd (omega (arith, is, absent.0, q_ne_null))
          | inr dv ↦ dv.2 ∙ ap b.size (sym is)
        ] in
        let sum : add64 s.dvsize m ≡ whole = unfold add64 in omega (arith, size, whole_limit) in
        let tiling0 = IsTiling-with_dv s b null 0 tiling in
        let stock0 =
          IsStock-drop_dv s b k q (q + m) q (q + whole) tiling (next-IsGrown s.dv (sym is)) stock in
        let settled = framed-IsSettled s0 b q whole tiling0 whole_region k stock0 behind_next.1 in
        let s1 = framed s0 q whole in
        let view = merged b q whole in
        let kept =
          IsStock-set_dv s1 view k q (q + whole) q settled.tiling refl q_ne_null settled.stock
            settled.loose in
        inl (
          framed (with_dv s q whole) q whole,
          view,
          k,
          rw sum (framed-runs (with_dv s q whole) q whole q_ne_null whole-IsSize),
          (IsTiling-with_dv s1 view q whole settled.tiling, rw settled.size at kept),
          whole-IsReleased,
        )

    merge_next-Releases : q + m ≢ s.dv → Releases b p (merge_next q (q + m) m s)
    unfolding merge_next
    merge_next-Releases ne =
        let (s1, k1, runs, tiling1, stock1, fields) =
          unlink_chunk-IsStock s b k q (q + m) q (q + whole) (q + m) tiling stock next-IsFree ne
            (next-IsGrown (q + m) refl) in
        let sum : add64 m (b.size (q + m)) ≡ whole = unfold add64 in omega (arith, whole_limit) in
        let settled = framed-IsSettled s1 b q whole tiling1 whole_region k1 stock1 behind_next.1 in
        let other : (q == s1.dv) ≡ false =
          rw (ap (λ z. z.dv) fields) (ground (arith, not_victim)) in
        rw
          (
            chunksize-ok s b (q + m) tiling next,
            sum,
            runs,
            framed-runs s1 q whole q_ne_null whole-IsSize,
            other,
          )
          (bin_chunk-Releases (framed s1 q whole) b (merged b q whole) k1 q whole p settled
            whole-IsReleased)

  -- The top chunk is behind.
  merge_top-Releases : q + m ≡ s.top → Releases b p (merge_top q m s)
  merge_top-Releases ends =
      let size : s.topsize + m < 2 ^ 64 = omega (arith, tiling.limit, front_chunk.low, ends) in
      let words' : (s.topsize + m) % 8 ≡ 0 = omega (arith, tiling.words, words) in
      inl (
        topped s q m,
        below b q,
        k,
        merge_top-topped s q m q_ne_null not_victim size words',
        (
          topped-IsTiling s b q m tiling front flag ends words,
          topped-IsStock s b q m tiling front flag ends words k stock,
        ),
        below-IsReleased b q m p
            (λ x pos. let chunk = tiling.each x pos in omega (arith, chunk.high, chunk.least, ends))
            holds,
      )

  -- What is behind the region: the top chunk, or a chunk that takes it to be used.
  pub merge_forward-Releases :
      (q + m ≡ s.top) ⊎ ((0 < b.size (q + m)) × (b.pinuse (q + m) ≡ 1))
      → Releases b p (merge_forward q (q + m) m s)
  unfolding merge_forward
  merge_forward-Releases (inl ends) =
      let pinuse : pinuse (q + m) s ≡ ok 1 s = rw ends (top_pinuse-ok s b tiling) in
      let cinuse : cinuse (q + m) s ≡ ok 0 s = rw ends (top_cinuse-ok s b tiling) in
      let same : (q + m == s.top) ≡ true = ground (arith, ends) in
      rw (above, pinuse, cinuse, same) (merge_top-Releases ends)
  merge_forward-Releases (inr (next, before)) =
      let chunk = tiling.each (q + m) next in
      let pinuse = pinuse-ok s b (q + m) tiling next in
      let cinuse = cinuse-ok s b (q + m) tiling next in
      let not_top : (q + m == s.top) ≡ false = ground (arith, chunk.high, chunk.least) in
      elim (Bool-cases (b.cinuse (q + m) == 0)) [
        | inl e ↦
            let free : b.cinuse (q + m) ≡ 0 = ground (arith, e) in
            elim (Bool-cases (q + m == s.dv)) [
              | inl dv ↦
                  rw (above, pinuse, before, cinuse, free, not_top, dv)
                    (merge_dv-Releases next free (ground (arith, dv)))
              | inr dv ↦
                  rw (above, pinuse, before, cinuse, free, not_top, dv)
                    (merge_next-Releases next free (ground (arith, dv)))
            ]
        | inr e ↦
            let used : b.cinuse (q + m) ≡ 1 = ground (arith, e, chunk.cflag) in
            rw
              (
                above,
                pinuse,
                before,
                cinuse,
                used,
                freed-runs s b q m tiling (used_region next used),
              )
              (free_used next used)
      ]
