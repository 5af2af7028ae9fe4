-- ===== src/Heap/TakeTop.antt =====
-- `take_top` on the heap: the front of the top chunk becomes a used chunk.
use unimem.Base.{
  ℕ, ◌+◌, ◌-◌, ◌%◌, ◌≤◌, ◌<◌, ◌^◌, ◌≡◌, ◌≢◌, refl, sym, ◌∙◌, arith, ◌⊎◌, inl, inr, true, false,
  Bool-cases, ◌==◌, if◌then◌else◌,
}
use unimem.Word.{sub64}
use unimem.Machine.{Ptr, null, State, ok}
use unimem.Machine.Returns.{write, store-ok}
use unimem.Chunk.{head_at, chunk2mem}
use unimem.Chunk.Head.{IsSize, free_word, inuse_word}
use unimem.MallocState.Top
use unimem.UniAllocator.{take_top}
use unimem.Heap.{Blocks, IsTiling, IsChunk, IsFollowed, Stock, IsStock}
use unimem.Heap.Keeping.{IsLeast, SameKept, IsStock-frame, IsStock-view}
use unimem.Heap.Heads.{top_ne_null}
use unimem.Heap.Allocated.{IsAllocated, Allocates}

-- One more used chunk of the size `n` at `t`.
abbrev pub with_block : Blocks → Ptr → ℕ → Blocks
with_block b t n = record {
  base = b.base;
  size = λ x. if x == t then n else b.size x;
  cinuse = λ x. if x == t then 1 else b.cinuse x;
  pinuse = λ x. if x == t then 1 else b.pinuse x;
}

module _ (s : State) (b : Blocks) (n : ℕ) (tiling : IsTiling s b) (least : 32 ≤ n)
    (words : n % 8 ≡ 0) (fits : n < s.topsize) where
  abbrev pub shrunk : State
  shrunk =
      write
        (write (record s { topsize = s.topsize - n; top = s.top + n }) (s.top + n + head_at)
          (s.topsize - n + 1))
        (s.top + head_at) (n + 3)

  abbrev pub view : Blocks
  view = with_block b s.top n

  below_top : (x : Ptr) → 0 < b.size x → x + b.size x ≤ s.top
  below_top x there = (tiling.each x there).high

  no_block : ¬ (0 < b.size s.top)
  no_block there = omega (arith, below_top s.top there, there)

  other : (x : Ptr) → 0 < b.size x → (x == s.top) ≡ false
  other x there = ground (arith, below_top x there, there)

  old-IsFollowed :
      (x : Ptr)
      → 0 < b.size x
      → IsFollowed s b x
      → ((x + b.size x ≡ s.top + n) × (b.cinuse x ≡ 1))
        ⊎ ((0 < view.size (x + b.size x)) × (view.pinuse (x + b.size x) ≡ b.cinuse x))
  old-IsFollowed x there next = elim next [
    | inl last ↦
        let is : (x + b.size x == s.top) ≡ true = ground (arith, last.0) in
        inr (rw is (omega (arith, least)), rw is (sym last.1))
    | inr (pos, flag) ↦ let ne = other (x + b.size x) pos in inr (rw ne pos, rw ne flag)
  ]

  old-IsChunk : (x : Ptr) → 0 < b.size x → IsChunk shrunk view x
  old-IsChunk x there =
      let chunk = tiling.each x there in
      let ne = other x there in
      record {
        low = chunk.low;
        high = rw ne (omega (arith, chunk.high));
        least = rw ne chunk.least;
        words = rw ne chunk.words;
        cflag = rw ne chunk.cflag;
        pflag = rw ne chunk.pflag;
        head = rw ne (ground (arith, chunk.high, chunk.least, chunk.head));
        next = rw ne (old-IsFollowed x there chunk.next);
        foot = λ free.
            let was_free : b.cinuse x ≡ 0 = rw ne at free in
            rw ne (ground (arith, chunk.high, chunk.foot was_free));
        between = λ free.
            let was_free : b.cinuse x ≡ 0 = rw ne at free in
            let pos : 0 < b.size (x + b.size x) = elim chunk.next [
              | inl last ↦ absurd (omega (arith, last.1, was_free))
              | inr next ↦ next.0
            ] in
            let ne' = other (x + b.size x) pos in rw (ne, ne') (chunk.between was_free);
        back = λ flag.
            let (p, pos, meets, free) = chunk.back (rw ne at flag) in
            let ne' = other p pos in (p, rw ne' pos, rw ne' meets, rw ne' free);
      }

  new-IsChunk : IsChunk shrunk view s.top
  new-IsChunk =
      let is : (s.top == s.top) ≡ true = ground arith in
      record {
        low = tiling.below;
        high = rw is (omega arith);
        least = rw is least;
        words = rw is words;
        cflag = rw is (omega arith);
        pflag = rw is (omega arith);
        head = rw is (ground arith);
        next = rw is (inl (refl, refl));
        foot = λ free. absurd (let used : 1 ≡ 0 = rw is at free in omega (arith, used));
        between = λ free. absurd (let used : 1 ≡ 0 = rw is at free in omega (arith, used));
        back = λ free. absurd (let used : 1 ≡ 0 = rw is at free in omega (arith, used));
      }

  view-cases :
      (x : Ptr)
      → 0 < view.size x
      → ((x ≡ s.top) × (view.size x ≡ n)) ⊎ ((0 < b.size x) × (view.size x ≡ b.size x))
  view-cases x there = elim (Bool-cases (x == s.top)) [
    | inl e ↦ inl (ground (arith, e), rw e refl)
    | inr e ↦ inr (rw e at there, rw e refl)
  ]

  pub shrunk-IsTiling : IsTiling shrunk view
  shrunk-IsTiling = record {
    room = omega (arith, fits);
    least_pos = tiling.least_pos;
    least = tiling.least;
    below = omega (arith, tiling.below);
    limit = omega (arith, tiling.limit, fits);
    place = omega (arith, tiling.place, fits);
    words = omega (arith, tiling.words, words, fits);
    top_head = ground (arith, least);
    each = λ x there. elim (view-cases x there) [
      | inl (is, size) ↦ rw is new-IsChunk
      | inr (pos, size) ↦ old-IsChunk x pos
    ];
    apart = λ x y px py. elim (view-cases x px) [
      | inl (is, size) ↦ elim (view-cases y py) [
        | inl (is', size') ↦ inl (is ∙ sym is')
        | inr (pos', size') ↦ inr (inr (omega (arith, below_top y pos', size', is)))
      ]
      | inr (pos, size) ↦ elim (view-cases y py) [
        | inl (is', size') ↦ inr (inl (omega (arith, below_top x pos, size, is')))
        | inr (pos', size') ↦ rw (size, size') (tiling.apart x y pos pos')
      ]
    ];
  }

  pub shrunk-IsStock : (k : Stock) → IsStock s b k 0 0 → IsStock shrunk view k 0 0
  shrunk-IsStock k stock =
      let least_all : IsLeast b = λ x pos. (tiling.each x pos).least in
      let same : SameKept s shrunk b 0 0 = record {
        gm = refl;
        least = refl;
        smallmap = refl;
        treemap = refl;
        dv = refl;
        dvsize = refl;
        array = λ a from to. ground (arith, tiling.place, tiling.below, fits);
        chunks = λ x a free from to. ground (arith, below_top x free.0);
      } in
      IsStock-view shrunk b view k 0 0 0 0
        (λ x free. let ne = other x free.0 in ((rw ne free.0, rw ne free.1, free.2), rw ne refl))
        (λ x free. elim (Bool-cases (x == s.top)) [
          | inl e ↦ absurd (let used : 1 ≡ 0 = rw e at free.1 in omega (arith, used))
          | inr e ↦ (rw e at free.0, rw e at free.1, free.2)
        ])
        (IsStock-frame s shrunk b k 0 0 least_all same stock)

  shrunk-IsAllocated : IsAllocated b view s.top n
  shrunk-IsAllocated = record {
    new = (omega (arith, least), ground arith, ground arith);
    fresh = λ z live. no_block (omega (arith, live));
    others = λ x z ne live.
        let ne' : (x == s.top) ≡ false = ground (arith, ne) in
        (live.0, rw ne' at live.1, rw ne' at live.2);
    still = λ x z ne live.
        let ne' : (x == s.top) ≡ false = ground (arith, ne) in
        (live.0, rw ne' live.1, rw ne' live.2);
  }

  take_top-shrunk : take_top n s ≡ ok (chunk2mem s.top) shrunk
  unfolding take_top Top.set_size_and_pinuse_of_inuse_chunk sub64
  take_top-shrunk =
      let nn = top_ne_null s b tiling in
      let rest : (s.topsize + 2 ^ 64 - n) % 2 ^ 64 ≡ s.topsize - n =
        omega (arith, fits, tiling.limit, tiling.below) in
      let s1 = record s { topsize = s.topsize - n; top = s.top + n } in
      let nn1 : s.top + n ≢ null = λ e. nn (omega (arith, e)) in
      let rest_size : IsSize (s.topsize - n) =
        omega (arith, tiling.words, words, fits, tiling.limit, tiling.below) in
      let size : IsSize n = omega (arith, words, fits, tiling.limit, tiling.below) in
      rw
        (
          rest,
          free_word (s.topsize - n) rest_size,
          store-ok (s.top + n) head_at (s.topsize - n + 1) s1 nn1,
          inuse_word n size,
          store-ok s.top head_at (n + 3) (write s1 (s.top + n + head_at) (s.topsize - n + 1)) nn,
        )
        refl

  pub take_top-Allocates : (k : Stock) → IsStock s b k 0 0 → Allocates b n (take_top n s)
  take_top-Allocates k stock = inl (
    shrunk,
    view,
    k,
    s.top,
    n,
    take_top-shrunk,
    (shrunk-IsTiling, shrunk-IsStock k stock),
    shrunk-IsAllocated,
    omega arith,
  )
