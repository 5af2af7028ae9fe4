-- ===== src/Heap/MergeVictim.antt =====
-- `Free` of a chunk behind the designated victim.
use unimem.Base.{
  ℕ, ◌+◌, ◌%◌, ◌≤◌, ◌<◌, ◌^◌, ◌≡◌, ◌≢◌, refl, sym, ap, ◌∙◌, arith, inl, inr, true, ◌==◌, ltb,
}
use unimem.Word.{add64}
use unimem.Machine.{Ptr, null, State, ok}
use unimem.Chunk.{pinuse, cinuse, set_free_with_pinuse}
use unimem.Chunk.Head.{IsSize}
use unimem.MallocState.SmallBins.Victim.{with_dv}
use unimem.UniAllocator.{merge_next, merge_forward}
use unimem.Heap.{Blocks, IsTiling, IsChunk, Stock, IsStock, IsHeap}
use unimem.Heap.Drop.{IsGrown}
use unimem.Heap.UnlinkLarge.{unlink_chunk-IsStock}
use unimem.Heap.Victim.{IsTiling-with_dv, IsStock-set_dv, IsStock-drop_dv}
use unimem.Heap.Settle.{IsRegion, merged}
use unimem.Heap.Tagging.{framed, framed-runs, framed-IsSettled, freed, freed-runs, freed-IsSettled}
use unimem.Heap.TopMerge.{below, topped, topped-IsTiling, topped-IsStock, merge_top-victim}
use unimem.Heap.Heads.{chunk_ne_null, chunksize-ok, top_pinuse-ok, top_cinuse-ok}
use unimem.Heap.Released.{
  IsReleased, Releases, HoldsOnly, HoldsOnly-next, merged-IsReleased, below-IsReleased,
}

-- The used chunk `p` of the size `n` stands behind the designated victim, and what is behind it
-- takes it to be used.
module _ (s : State) (b : Blocks) (k : Stock) (p n : ℕ) (tiling : IsTiling s b)
    (stock : IsStock s b k p (p + n)) (live : 0 < b.size p) (size : b.size p ≡ n)
    (used : b.cinuse p ≡ 1) (victim : 0 < b.size s.dv) (meets : s.dv + b.size s.dv ≡ p)
    (free : b.cinuse s.dv ≡ 0) where
  abbrev pub m : ℕ
  m = n + b.size s.dv

  ends : s.dv + m ≡ p + n
  ends = omega (arith, meets)

  its_chunk : IsChunk s b p
  its_chunk = tiling.each p live

  dv_chunk : IsChunk s b s.dv
  dv_chunk = tiling.each s.dv victim

  dv_ne_null : s.dv ≢ null
  dv_ne_null = chunk_ne_null s b s.dv tiling victim

  dv_pinuse : b.pinuse s.dv ≡ 1
  dv_pinuse = (dv_chunk.between free).1

  m_words : m % 8 ≡ 0
  m_words = omega (arith, its_chunk.words, dv_chunk.words, size)

  holds : HoldsOnly b s.dv m p
  holds = record {
    live = live;
    from = omega (arith, meets);
    to = omega (arith, meets, live, size);
    only = λ x there is low high.
        let ne : x ≢ s.dv = λ e. omega (arith, ap b.cinuse e, is, free) in
        let least = (tiling.each x there).least in
        elim (tiling.apart x p there live) [
          | inl e ↦ e
          | inr far ↦ absurd (
              omega (
                arith,
                far,
                tiling.apart x s.dv there victim,
                ne,
                low,
                high,
                least,
                meets,
                size,
                dv_chunk.least,
              ))
        ];
  }

  -- The region grows by the designated victim.
  dv-IsGrown :
      (t : State) (hi hi' : Ptr)
      → t.dv ≡ s.dv
      → hi' ≡ hi
      → p + n ≤ hi
      → IsGrown b p hi s.dv hi' t.dv
  dv-IsGrown t hi hi' same e past = record {
    others = λ x there ne.
        let least = (tiling.each x there.0).least in
        omega (
          arith,
          there.2,
          ne,
          same,
          e,
          past,
          size,
          tiling.apart x s.dv there.0 victim,
          meets,
          least,
          dv_chunk.least,
        );
    within = λ x there. (there.0, there.1, omega (arith, there.2, meets, e));
    from = omega (arith, same);
    to = omega (arith, same, live, size, meets, e, past);
  }

  -- A used chunk is behind: the designated victim grows.
  module _ (next : 0 < b.size (p + n)) (next_used : b.cinuse (p + n) ≡ 1) where
    pub region : IsRegion b s.dv m
    region = record {
      front = victim;
      pinuse = dv_pinuse;
      behind = rw ends next;
      cinuse = rw ends next_used;
      fits = omega arith;
      words = m_words;
    }

    stock0 : IsStock (with_dv s null 0) b k s.dv (s.dv + m)
    stock0 =
        IsStock-drop_dv s b k p (p + n) s.dv (s.dv + m) tiling
          (dv-IsGrown s (p + n) (s.dv + m) refl ends (omega arith)) stock

    -- The state after the designated victim has taken the chunk in.
    abbrev pub grown_dv : State
    grown_dv = record s {
      dvsize = m;
      mem = (freed (with_dv s null 0) b s.dv m (IsTiling-with_dv s b null 0 tiling) region).mem;
    }

    pub set_free-grown_dv :
        (next_chunk : Ptr)
        → next_chunk ≡ p + n
        → set_free_with_pinuse s.dv m next_chunk (record s { dvsize = m }) ≡ ok tt grown_dv
    set_free-grown_dv z e =
        rw (e ∙ sym ends) (
          freed-runs (record s { dvsize = m }) b s.dv m (IsTiling-with_dv s b s.dv m tiling) region)

    pub grown_dv-IsHeap : IsHeap grown_dv (merged b s.dv m) k
    grown_dv-IsHeap =
        let tiling0 = IsTiling-with_dv s b null 0 tiling in
        let settled = freed-IsSettled (with_dv s null 0) b s.dv m tiling0 region k stock0 in
        let s1 = freed (with_dv s null 0) b s.dv m tiling0 region in
        let view = merged b s.dv m in
        let kept =
          IsStock-set_dv s1 view k s.dv (s.dv + m) s.dv settled.tiling refl dv_ne_null settled.stock
            settled.loose in
        (IsTiling-with_dv s1 view s.dv m settled.tiling, rw settled.size at kept)

    pub grown_dv-IsReleased : IsReleased b (merged b s.dv m) p
    grown_dv-IsReleased = merged-IsReleased b s.dv m p (omega (arith, victim)) holds

  above : ltb s.dv (p + n) ≡ true
  above = ground (arith, meets, live, size)

  -- The top chunk is behind: both go into it.
  pub victim-top : p + n ≡ s.top → Releases b p (merge_forward s.dv (p + n) m s)
  unfolding merge_forward
  victim-top last =
      let pinuse : pinuse (p + n) s ≡ ok 1 s = rw last (top_pinuse-ok s b tiling) in
      let cinuse : cinuse (p + n) s ≡ ok 0 s = rw last (top_cinuse-ok s b tiling) in
      let same : (p + n == s.top) ≡ true = ground (arith, last) in
      let s0 = with_dv s null 0 in
      let tiling0 = IsTiling-with_dv s b null 0 tiling in
      let stock0 =
        IsStock-drop_dv s b k p (p + n) s.dv (s.dv + m) tiling
          (dv-IsGrown s (p + n) (s.dv + m) refl ends (omega arith)) stock in
      let to_top : s.dv + m ≡ s.top = ends ∙ last in
      let limit : s.topsize + m < 2 ^ 64 = omega (arith, tiling.limit, dv_chunk.low, to_top) in
      let words : (s.topsize + m) % 8 ≡ 0 = omega (arith, tiling.words, m_words) in
      rw (above, pinuse, cinuse, same)
        (inl (
          topped s0 s.dv m,
          below b s.dv,
          k,
          merge_top-victim s s.dv m dv_ne_null refl limit words,
          (
            topped-IsTiling s0 b s.dv m tiling0 victim dv_pinuse to_top m_words,
            topped-IsStock s0 b s.dv m tiling0 victim dv_pinuse to_top m_words k stock0,
          ),
          below-IsReleased b s.dv m p
              (λ x pos.
                let chunk = tiling.each x pos in omega (arith, chunk.high, chunk.least, to_top))
              holds,
        ))

  -- Another free chunk is behind: the designated victim takes both in.
  module _ (next : 0 < b.size (p + n)) (next_free : b.cinuse (p + n) ≡ 0) where
    abbrev whole : ℕ
    whole = m + b.size (p + n)

    next_chunk : IsChunk s b (p + n)
    next_chunk = tiling.each (p + n) next

    whole_ends : s.dv + whole ≡ p + n + b.size (p + n)
    whole_ends = omega (arith, ends)

    behind_next : (0 < b.size (s.dv + whole)) × (b.pinuse (s.dv + whole) ≡ 0)
    behind_next = elim next_chunk.next [
      | inl last ↦ absurd (omega (arith, last.1, next_free))
      | inr there ↦ (rw whole_ends there.0, rw whole_ends (there.1 ∙ next_free))
    ]

    whole_region : IsRegion b s.dv whole
    whole_region = record {
      front = victim;
      pinuse = dv_pinuse;
      behind = behind_next.0;
      cinuse = rw whole_ends ((next_chunk.between next_free).0);
      fits = omega arith;
      words = omega (arith, m_words, next_chunk.words);
    }

    next-IsGrown : IsGrown b p (p + n) p (p + n + b.size (p + n)) (p + n)
    next-IsGrown = record {
      others = λ x there ne.
          let least = (tiling.each x there.0).least in
          omega (arith, there.2, ne, tiling.apart x (p + n) there.0 next, next_chunk.least, least);
      within = λ x there. (there.0, there.1, omega (arith, there.2));
      from = omega arith;
      to = omega (arith, next);
    }

    whole-IsReleased : IsReleased b (merged b s.dv whole) p
    whole-IsReleased =
        let here : 0 < b.size (s.dv + m) = rw ends next in
        let is_free : b.cinuse (s.dv + m) ≡ 0 = rw ends next_free in
        let grown = HoldsOnly-next s b s.dv m p tiling here is_free holds in
        let same : b.size (s.dv + m) ≡ b.size (p + n) = ap b.size ends in
        merged-IsReleased b s.dv whole p (omega (arith, victim)) (rw same at grown)

    whole-IsSize : IsSize whole
    whole-IsSize =
        omega (arith, m_words, next_chunk.words, next_chunk.high, dv_chunk.low, tiling.limit, ends)

    pub victim-next : p + n ≢ s.dv → Releases b p (merge_next s.dv (p + n) m s)
    unfolding merge_next
    victim-next ne =
        let (s1, k1, runs, tiling1, stock1, fields) =
          unlink_chunk-IsStock s b k p (p + n) p (p + n + b.size (p + n)) (p + n) tiling stock
            (next, next_free, inr (omega arith)) ne next-IsGrown in
        let dv : s1.dv ≡ s.dv = ap (λ z. z.dv) fields in
        let sum : add64 m (b.size (p + n)) ≡ whole = unfold add64 in omega (arith, whole-IsSize) in
        let s0 = with_dv s1 null 0 in
        let tiling0 = IsTiling-with_dv s1 b null 0 tiling1 in
        let stock0 =
          IsStock-drop_dv s1 b k1 p (p + n + b.size (p + n)) s.dv (s.dv + whole) tiling1
            (dv-IsGrown s1 (p + n + b.size (p + n)) (s.dv + whole) dv whole_ends (omega arith))
            stock1 in
        let settled =
          framed-IsSettled s0 b s.dv whole tiling0 whole_region k1 stock0 behind_next.1 in
        let s2 = framed s0 s.dv whole in
        let view = merged b s.dv whole in
        let kept =
          IsStock-set_dv s2 view k1 s.dv (s.dv + whole) s.dv settled.tiling refl dv_ne_null
            settled.stock settled.loose in
        let same : (s.dv == s1.dv) ≡ true = ground (arith, dv) in
        let final : record (framed s1 s.dv whole) { dvsize = whole } ≡ with_dv s2 s.dv whole =
          ap (λ d. record (framed s1 s.dv whole) { dv = d; dvsize = whole }) dv in
        inl (
          with_dv s2 s.dv whole,
          view,
          k1,
          rw
              (
                chunksize-ok s b (p + n) tiling next,
                sum,
                runs,
                framed-runs s1 s.dv whole dv_ne_null whole-IsSize,
                same,
              )
              (ap (ok tt) final),
          (IsTiling-with_dv s2 view s.dv whole settled.tiling, rw settled.size at kept),
          whole-IsReleased,
        )
