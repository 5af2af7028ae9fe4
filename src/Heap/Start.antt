-- ===== src/Heap/Start.antt =====
-- The heap after the first `InitOrExpand`: one top chunk, and no other.
use unimem.Base.{ℕ, suc, ◌+◌, ◌*◌, ◌≤◌, ◌<◌, ◌^◌, ◌≡◌, refl, arith, inl, false, leb, ltb, []}
use unimem.Word.{mul64}
use unimem.Word.Bits.{bit_zero}
use unimem.Machine.{Ptr, null, State}
use unimem.MallocState.Top.{treebin_at}
use unimem.UniAllocator.{chunk_size_for, alloc}
use unimem.UniAllocator.Stuck.{empty-bins}
use unimem.UniAllocator.Init.{
  IsZeroed, IsGrant, started, init_or_expand-started, IsTable-empty, anchored-outside,
}
use unimem.Heap.{Blocks, Stock, IsHeap}

-- A new allocator: zero in the fields that `InitOrExpand` and `Alloc` rely on and in the roots of
-- the trees, and a grant of at most 2 ^ 40 bytes to come.
pub record IsNew (underlying : ℕ → ℕ → Ptr) (s : State) (tbase tsize : ℕ) : Type 0 where
  pub zeroed : IsZeroed s
  pub topsize : s.topsize ≡ 0
  pub roots : (i : ℕ) → i < 32 → s.mem (treebin_at i s) ≡ null
  pub step : mul64 s.increasing_size s.increasing_step ≡ tsize
  pub base : underlying s.calls tsize ≡ tbase
  pub grant : IsGrant s.gm tbase tsize
  pub limit : tsize ≤ 2 ^ 40

abbrev pub no_blocks : Ptr → Blocks
no_blocks tbase = record { base = tbase; size = λ x. 0; cinuse = λ x. 0; pinuse = λ x. 0 }

abbrev pub no_stock : Stock
no_stock = record { bins = λ i. []; sizes = λ i. 0; trees = λ i. [] }

module _ (underlying : ℕ → ℕ → Ptr) (s : State) (tbase tsize : ℕ)
    (new : IsNew underlying s tbase tsize) where
  pub started-IsHeap : IsHeap (started s tbase tsize) (no_blocks tbase) no_stock
  unfolding treebin_at
  started-IsHeap =
      let grant = new.grant in
      let s' = started s tbase tsize in
      (
        record {
          room = omega (arith, grant.room);
          least_pos = omega (arith, grant.ne_null);
          least = omega arith;
          below = omega arith;
          limit = omega (arith, new.limit);
          place = omega (arith, grant.apart, grant.room);
          words = omega (arith, grant.words, grant.room);
          top_head = ground (arith, grant.room);
          each = λ x there. absurd (omega (arith, there));
          apart = λ x y there there'. absurd (omega (arith, there));
        },
        record {
          table = IsTable-empty s' new.zeroed.smallmap;
          forest = record {
            each = λ i low. record {
              low = low;
              map = omega (arith, new.zeroed.treemap);
              marked = rw new.zeroed.treemap (ground (arith, bit_zero i));
              root = ground (
                arith,
                new.roots i low,
                low,
                grant.apart,
                grant.room,
                anchored-outside 32 0 s.gm s.mem (s.gm + 600 + 8 * i),
              );
              rooted = tt;
              distinct = tt;
              outside = tt;
            };
            cross = λ i j p q ne. tt;
          };
          small = λ i x low h. elim h [ ];
          large = λ i x low h. elim h [ ];
          victim = inl (new.zeroed.dv, new.zeroed.dvsize);
          cover = λ x free. absurd (omega (arith, free.0));
        },
      )

  -- The first `Alloc` asks the underlying allocator, and starts again.
  pub alloc-first :
      (fuel bytes : ℕ)
      → 0 < chunk_size_for bytes
      → alloc underlying (suc fuel) bytes s ≡ alloc underlying fuel bytes (started s tbase tsize)
  unfolding alloc
  alloc-first fuel bytes pos =
      let bins = empty-bins bytes s new.zeroed.smallmap new.zeroed.treemap in
      let no_dv : leb (chunk_size_for bytes) s.dvsize ≡ false =
        ground (arith, new.zeroed.dvsize, pos) in
      let no_top : ltb (chunk_size_for bytes) s.topsize ≡ false = ground (arith, new.topsize) in
      let runs =
        init_or_expand-started underlying s tbase tsize new.zeroed new.step new.base new.grant in
      rw (bins, no_dv, no_top, runs) refl
