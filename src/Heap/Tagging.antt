-- ===== src/Heap/Tagging.antt =====
-- The header words and the footer of a region are written: the setters of chunk.h.
use unimem.Base.{ℕ, ◌+◌, ◌*◌, ◌/◌, ◌<◌, ◌≡◌, ◌≢◌, refl, sym, ap, ◌∙◌, arith, inl, inr}
use unimem.Machine.{Ptr, null, State, ok}
use unimem.Machine.Returns.{write, load-ok, store-ok}
use unimem.Chunk.{
  head_at, prev_foot_at, clear_pinuse, set_foot, set_size_and_pinuse_of_free_chunk,
  set_free_with_pinuse,
}
use unimem.Chunk.Head.{IsSize, free_word, clear_pinuse-word}
use unimem.Heap.{Blocks, IsTiling, IsChunk, Stock, IsStock}
use unimem.Heap.Keeping.{IsLeast, IsOff, IsStock-write, IsStock-view}
use unimem.Heap.Settle.{
  IsMerged, merged, merged-IsMerged, IsRegion, IsTagged, settled-IsTiling, merged-cases,
}
use unimem.Heap.InsertSmall.{IsLoose}

-- The header and the footer of the free chunk `q` of the size `m`.
abbrev pub framed : State → Ptr → ℕ → State
framed s q m = write (write s (q + head_at) (m + 1)) (q + m + prev_foot_at) m

pub framed-runs :
    (s : State) (q m : ℕ)
    → q ≢ null
    → IsSize m
    → set_size_and_pinuse_of_free_chunk q m s ≡ ok tt (framed s q m)
unfolding set_size_and_pinuse_of_free_chunk set_foot
framed-runs s q m ne size =
    let nn : q + m ≢ null = λ e. ne (omega (arith, e)) in
    rw
      (
        free_word m size,
        store-ok q head_at (m + 1) s ne,
        store-ok (q + m) prev_foot_at m (write s (q + head_at) (m + 1)) nn,
      )
      refl

-- What both ways of freeing a region give: it is one free chunk, which nothing keeps yet.
pub record IsSettled (s' : State) (b' : Blocks) (k : Stock) (q m : ℕ) : Type 0 where
  pub tiling : IsTiling s' b'
  pub stock : IsStock s' b' k q (q + m)
  pub loose : IsLoose b' q (q + m) q
  pub size : b'.size q ≡ m

module _ (s : State) (b : Blocks) (q m : ℕ) (tiling : IsTiling s b) (region : IsRegion b q m) where
  front_chunk : IsChunk s b q
  front_chunk = tiling.each q region.front

  behind_chunk : IsChunk s b (q + m)
  behind_chunk = tiling.each (q + m) region.behind

  least : IsLeast b
  least x pos = (tiling.each x pos).least

  m_pos : 0 < m
  m_pos = omega (arith, region.fits, front_chunk.least)

  m-IsSize : IsSize m
  m-IsSize =
      omega (arith, region.words, behind_chunk.high, front_chunk.low, tiling.limit, tiling.room)

  q_ne_null : q ≢ null
  q_ne_null e = omega (arith, e, tiling.least_pos, tiling.least, front_chunk.low)

  behind_head : s.mem (q + m + head_at) ≡ b.size (q + m) + (2 + b.pinuse (q + m))
  behind_head = omega (arith, behind_chunk.head, region.cinuse)

  -- The words of a free chunk outside of the region are none of those written.
  IsOff-front : IsOff s b q (q + m) (q + head_at)
  IsOff-front = (
    omega (arith, tiling.place, front_chunk.low, front_chunk.high, front_chunk.least),
    λ x free.
        let low = least x free.0 in
        omega (
          arith,
          free.2,
          tiling.apart x q free.0 region.front,
          front_chunk.least,
          region.fits,
          low,
        ),
  )

  IsOff-foot : IsOff s b q (q + m) (q + m + prev_foot_at)
  IsOff-foot = (
    omega (arith, tiling.place, behind_chunk.low, behind_chunk.high, behind_chunk.least),
    λ x free.
        let low = least x free.0 in
        omega (
          arith,
          free.2,
          tiling.apart x q free.0 region.front,
          front_chunk.least,
          region.fits,
          low,
        ),
  )

  IsOff-behind : IsOff s b q (q + m) (q + m + head_at)
  IsOff-behind = (
    omega (arith, tiling.place, behind_chunk.low, behind_chunk.high, behind_chunk.least),
    λ x free.
        let low = least x free.0 in
        let ne : x ≢ q + m = λ e. omega (arith, ap b.cinuse e, free.1, region.cinuse) in
        omega (
          arith,
          free.2,
          ne,
          tiling.apart x q free.0 region.front,
          tiling.apart x (q + m) free.0 region.behind,
          front_chunk.least,
          behind_chunk.least,
          region.fits,
          low,
        ),
  )

  abbrev pub view : Blocks
  view = merged b q m

  is_merged : IsMerged b view q m
  is_merged = merged-IsMerged b q m m_pos

  -- `set_free_with_pinuse`.
  abbrev pub freed : State
  freed = framed (write s (q + m + head_at) (b.size (q + m) + 2)) q m

  pub freed-runs : set_free_with_pinuse q m (q + m) s ≡ ok tt freed
  unfolding set_free_with_pinuse clear_pinuse set_size_and_pinuse_of_free_chunk set_foot
  freed-runs =
      let nn : q + m ≢ null = λ e. q_ne_null (omega (arith, e)) in
      let s1 = write s (q + m + head_at) (b.size (q + m) + 2) in
      let size : IsSize (b.size (q + m)) = omega (
        arith, behind_chunk.words, behind_chunk.high, behind_chunk.low, tiling.limit, tiling.room,
      ) in
      let cleared =
        clear_pinuse-word (b.size (q + m)) (2 + b.pinuse (q + m)) size
          (omega (arith, behind_chunk.pflag)) in
      let flags : (2 + b.pinuse (q + m)) / 2 * 2 ≡ 2 = omega (arith, behind_chunk.pflag) in
      rw
        (
          load-ok (q + m) head_at s nn,
          behind_head,
          cleared,
          flags,
          store-ok (q + m) head_at (b.size (q + m) + 2) s nn,
          free_word m m-IsSize,
          store-ok q head_at (m + 1) s1 q_ne_null,
          store-ok (q + m) prev_foot_at m (write s1 (q + head_at) (m + 1)) nn,
        )
        refl

  module _ (k : Stock) (stock : IsStock s b k q (q + m)) where
    settle : (s' : State) → IsTagged s s' b q m → IsStock s' b k q (q + m) → IsSettled s' view k q m
    settle s' tagged kept =
        let merge = is_merged in
        let cases = merged-cases s s' b view q m tiling region merge tagged in
        record {
          tiling = settled-IsTiling s s' b view q m tiling region merge tagged;
          stock =
              IsStock-view s' b view k q (q + m) q (q + m)
                (λ x free.
                  let size = merge.size_outside x free.2 in
                  (
                    (
                      omega (arith, size, free.0),
                      merge.cinuse_other x (λ e. omega (arith, e, free.2, m_pos)) ∙ free.1,
                      free.2,
                    ),
                    size,
                  ))
                (λ x free.
                  let size = merge.size_outside x free.2 in
                  (
                    omega (arith, size, free.0),
                    sym (merge.cinuse_other x (λ e. omega (arith, e, free.2, m_pos))) ∙ free.1,
                    free.2,
                  ))
                kept;
          loose = record {
            free = (omega (arith, merge.size_front, m_pos), merge.cinuse_front);
            from = omega arith;
            to = omega (arith, m_pos);
            only = λ x pos free ne. elim (cases x pos) [
              | inl e ↦ absurd (ne e)
              | inr old ↦ omega (arith, old)
            ];
          };
          size = merge.size_front;
        }

    -- The chunk behind has its flag cleared already.
    pub framed-IsSettled : b.pinuse (q + m) ≡ 0 → IsSettled (framed s q m) view k q m
    framed-IsSettled flag =
        let tagged : IsTagged s (framed s q m) b q m = record {
          gm = refl;
          top = refl;
          topsize = refl;
          least_addr = refl;
          head = ground (arith, front_chunk.least, region.fits);
          foot = ground arith;
          next_head = ground (arith, behind_head, flag, front_chunk.least, region.fits);
          others = λ w h f n. ground (arith, h, f);
        } in
        settle (framed s q m) tagged (
          IsStock-write (write s (q + head_at) (m + 1)) b k q (q + m) (q + m + prev_foot_at) m
            IsOff-foot least
            (IsStock-write s b k q (q + m) (q + head_at) (m + 1) IsOff-front least stock))

    pub freed-IsSettled : IsSettled freed view k q m
    freed-IsSettled =
        let s1 = write s (q + m + head_at) (b.size (q + m) + 2) in
        let tagged : IsTagged s freed b q m = record {
          gm = refl;
          top = refl;
          topsize = refl;
          least_addr = refl;
          head = ground (arith, front_chunk.least, region.fits);
          foot = ground arith;
          next_head = ground (arith, front_chunk.least, region.fits);
          others = λ w h f n. ground (arith, h, f, n);
        } in
        settle freed tagged (
          IsStock-write (write s1 (q + head_at) (m + 1)) b k q (q + m) (q + m + prev_foot_at) m
            IsOff-foot least
            (IsStock-write s1 b k q (q + m) (q + head_at) (m + 1) IsOff-front least (
              IsStock-write s b k q (q + m) (q + m + head_at) (b.size (q + m) + 2) IsOff-behind
                least stock)))
