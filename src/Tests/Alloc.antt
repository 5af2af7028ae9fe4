-- ===== src/Tests/Alloc.antt =====
-- `Alloc`, `Free` and `InitOrExpand` at concrete states.
use unimem.Base.{◌+◌, ◌-◌, ◌^◌, ◌≡◌, refl, arith, update, [], ◌∷◌}
use unimem.Word.{add64, mul64}
use unimem.Machine.{Memory, State, ok, out_of_fuel, ◌>>=◌}
use unimem.Chunk.{max_request, chunk2mem, head_at, pad_request}
use unimem.UniAllocator.{chunk_size_for, init_or_expand, alloc, free}
use unimem.UniAllocator.Bump.{IsBump, alloc_all, blocks, total, Headers, alloc_all-blocks}
use unimem.UniAllocator.Init.{IsZeroed, IsGrant, IsStarted, init_or_expand-IsStarted}
use unimem.UniAllocator.Release.{IsLast, joined, free-joined, alloc-free}
use unimem.UniAllocator.Lifo.{IsReady, free_all, restored, SameUpTo, alloc_all-free_all}
use unimem.UniAllocator.Stuck.{alloc-huge_diverges, alloc-exhausted_diverges}
use unimem.Tests.{grant, fresh}

-- Ready, with nothing but a top chunk.
abbrev ready : State
ready = record fresh {
  top = 2 ^ 20;
  topsize = 2 ^ 20 - 8;
  least_addr = 2 ^ 20;
  mem = update fresh.mem (2 ^ 20 + head_at) (2 ^ 20 - 7);
}

ready-IsBump : IsBump ready
ready-IsBump = record {
  smallmap = refl;
  treemap = refl;
  dvsize = refl;
  top = omega arith;
  words = refl;
  size = omega arith;
}

-- A chunk of 112 bytes in front of the top chunk.
abbrev one_used : State
one_used = record ready {
  top = 2 ^ 20 + 112;
  topsize = 2 ^ 20 - 120;
  mem = update (update fresh.mem (2 ^ 20 + head_at) 115) (2 ^ 20 + 112 + head_at) (2 ^ 20 - 119);
}

one_used-IsLast : IsLast one_used (2 ^ 20) 112
one_used-IsLast = record {
  ne_null = omega arith;
  address = omega arith;
  head = refl;
  next = refl;
  top_head = refl;
  words = refl;
  top_words = refl;
  positive = omega arith;
  size = omega arith;
  not_victim = omega arith;
}

sizes : (chunk_size_for 100 ≡ 112) × (chunk_size_for 1000 ≡ 1008)
unfolding chunk_size_for pad_request add64
sizes = (refl, refl)

alloc_all-blocks_example :
    (s' : State) × (alloc_all grant 1 (100 ∷ 1000 ∷ []) ready
      ≡ ok (blocks (2 ^ 20) (100 ∷ 1000 ∷ [])) s')
    × Headers s'.mem (2 ^ 20) (100 ∷ 1000 ∷ [])
    × (s'.top ≡ 2 ^ 20 + total (100 ∷ 1000 ∷ []))
    × (s'.topsize ≡ 2 ^ 20 - 8 - total (100 ∷ 1000 ∷ []))
alloc_all-blocks_example =
    alloc_all-blocks grant 0 (100 ∷ 1000 ∷ []) ready ready-IsBump (omega arith, (omega arith, tt))
      (omega (arith, sizes))

alloc-free_example :
    (alloc grant 1 100 >>= free) ready
    ≡ ok tt (record ready {
      mem =
          update ready.mem
            (2 ^ 20 + chunk_size_for 100 + head_at)
            (2 ^ 20 - 8 - chunk_size_for 100 + 1);
    })
alloc-free_example =
    alloc-free grant 0 100 ready ready-IsBump (omega arith) (omega arith) refl (omega arith)
      (omega (arith, sizes))

free-joined_example : free (chunk2mem (2 ^ 20)) one_used ≡ ok tt (joined one_used (2 ^ 20) 112)
free-joined_example = free-joined one_used (2 ^ 20) 112 one_used-IsLast

fresh-IsZeroed : IsZeroed fresh
fresh-IsZeroed = record {
  top = refl;
  least = refl;
  smallmap = refl;
  treemap = refl;
  dvsize = refl;
  dv = refl;
}

first-IsGrant : IsGrant (2 ^ 12) (2 ^ 20) (2 ^ 20)
first-IsGrant = record {
  ne_null = omega arith;
  aligned = refl;
  room = omega arith;
  words = refl;
  size = omega arith;
  apart = omega arith;
}

step_size : mul64 (2 ^ 20) 1 ≡ 2 ^ 20
unfolding mul64
step_size = refl

init_or_expand-IsStarted_example :
    (s' : State) × (init_or_expand grant fresh ≡ ok tt s') × IsStarted s' (2 ^ 20) (2 ^ 20)
init_or_expand-IsStarted_example =
    init_or_expand-IsStarted grant fresh (2 ^ 20) (2 ^ 20) fresh-IsZeroed step_size refl
      first-IsGrant

alloc-huge_diverges_example : alloc grant 50 max_request ready ≡ out_of_fuel
alloc-huge_diverges_example =
    alloc-huge_diverges grant 50 max_request ready (omega arith) (omega arith) (omega arith)
      (omega arith)

large_size : chunk_size_for (2 ^ 20) ≡ 2 ^ 20 + 16
unfolding chunk_size_for pad_request add64
large_size = refl

alloc-exhausted_diverges_example : alloc grant 50 (2 ^ 20) ready ≡ out_of_fuel
alloc-exhausted_diverges_example =
    alloc-exhausted_diverges grant 50 (2 ^ 20) ready refl refl (omega arith)
      (omega (arith, large_size)) (omega (arith, large_size))

ready-IsReady : IsReady ready
ready-IsReady = record {
  bump = ready-IsBump;
  victim = omega arith;
  address = omega arith;
  head = refl;
}

alloc_all-free_all_example :
    (m : Memory) × ((alloc_all grant 1 (100 ∷ 1000 ∷ []) >>= free_all) ready
      ≡ ok tt (restored ready m))
    × SameUpTo (2 ^ 20) m ready.mem
alloc_all-free_all_example =
    alloc_all-free_all grant 0 (100 ∷ 1000 ∷ []) ready ready-IsReady
      (omega arith, (omega arith, tt)) (omega (arith, sizes))
