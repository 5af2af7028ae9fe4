-- ===== src/Heap/TopMerge.antt =====
-- `merge_top` on the heap: the region in front of the top chunk becomes a part of it.
use unimem.Base.{
  ℕ, ◌+◌, ◌%◌, ◌≤◌, ◌<◌, ◌^◌, ◌≡◌, ◌≢◌, refl, ap, arith, ◌⊎◌, inl, inr, Bool, true, false,
  Bool-cases, ◌==◌, ltb, if◌then◌else◌,
}
use unimem.Word.{add64}
use unimem.Machine.{Ptr, null, State, ok, skip, ◌>>◌}
use unimem.Machine.Returns.{write, store-ok}
use unimem.Chunk.{head_at}
use unimem.Chunk.Head.{free_word}
use unimem.MallocState.Top.{should_trim, sys_trim}
use unimem.MallocState.SmallBins.Victim.{with_dv}
use unimem.UniAllocator.{merge_top}
use unimem.Heap.{Blocks, IsTiling, IsChunk, Stock, IsStock}
use unimem.Heap.Keeping.{IsLeast, SameKept, IsStock-frame, IsStock-view}

-- The chunks below `q`.
abbrev pub below : Blocks → Ptr → Blocks
below b q = record b { size = λ x. if ltb x q then b.size x else 0 }

-- The state after the region from `q` to the top chunk has become a part of it.
abbrev pub topped : State → Ptr → ℕ → State
topped s q m =
    write (record s { topsize = s.topsize + m; top = q }) (q + head_at) (s.topsize + m + 1)

module _ (s : State) (b : Blocks) (q m : ℕ) (tiling : IsTiling s b) (front : 0 < b.size q)
    (pinuse : b.pinuse q ≡ 1) (ends : q + m ≡ s.top) (words : m % 8 ≡ 0) where
  front_chunk : IsChunk s b q
  front_chunk = tiling.each q front

  below-cases :
      (x : Ptr)
      → 0 < (below b q).size x
      → (x < q) × (0 < b.size x) × ((below b q).size x ≡ b.size x) × (x + b.size x ≤ q)
  below-cases x pos = elim (Bool-cases (ltb x q)) [
    | inl e ↦
        let there : 0 < b.size x = rw e at pos in
        (
          ground (arith, e),
          there,
          rw e refl,
          ground (arith, e, tiling.apart x q there front, front),
        )
    | inr e ↦ absurd (let none_left : 0 < 0 = rw e at pos in omega (arith, none_left))
  ]

  size_below : (x : Ptr) → x < q → (below b q).size x ≡ b.size x
  size_below x less = let e : ltb x q ≡ true = ground (arith, less) in rw e refl

  module _ (x : Ptr) (less : x < q) (there : 0 < b.size x) (before : x + b.size x ≤ q) where
    chunk : IsChunk s b x
    chunk = tiling.each x there

    below-IsFollowed :
        ((x + b.size x ≡ q) × (b.cinuse x ≡ 1))
        ⊎ ((0 < (below b q).size (x + b.size x)) × (b.pinuse (x + b.size x) ≡ b.cinuse x))
    below-IsFollowed = elim chunk.next [
      | inl last ↦ absurd (omega (arith, last.0, before, ends, front_chunk.high, front_chunk.least))
      | inr (next, flag) ↦ elim (Bool-cases (x + b.size x == q)) [
        | inl e ↦
            let is : x + b.size x ≡ q = ground (arith, e) in
            inl (is, omega (arith, flag, ap b.pinuse is, pinuse))
        | inr e ↦
            let less' : x + b.size x < q = ground (arith, e, before) in
            inr (omega (arith, size_below (x + b.size x) less', next), flag)
      ]
    ]

    below-IsChunk : IsChunk (topped s q m) (below b q) x
    below-IsChunk =
        let same = size_below x less in
        record {
          low = chunk.low;
          high = omega (arith, same, before);
          least = omega (arith, same, chunk.least);
          words = rw same chunk.words;
          cflag = chunk.cflag;
          pflag = chunk.pflag;
          head = rw same (ground (arith, less, chunk.head));
          next = rw same below-IsFollowed;
          foot = λ free. rw same (ground (arith, before, chunk.foot free));
          between = λ free. rw same (chunk.between free);
          back = λ flag.
              let (p, pos, meets, free) = chunk.back flag in
              let same_p = size_below p (omega (arith, pos, meets, less)) in
              (p, omega (arith, same_p, pos), omega (arith, same_p, meets), free);
        }

  pub topped-IsTiling : IsTiling (topped s q m) (below b q)
  topped-IsTiling = record {
    room = omega (arith, tiling.room);
    least_pos = tiling.least_pos;
    least = tiling.least;
    below = front_chunk.low;
    limit = omega (arith, tiling.limit, ends);
    place = omega (arith, tiling.place, ends);
    words = omega (arith, tiling.words, words);
    top_head = ground arith;
    each = λ x pos. let old = below-cases x pos in below-IsChunk x old.0 old.1 old.3;
    apart = λ x y px py.
        let old = below-cases x px in
        let old' = below-cases y py in rw (old.2, old'.2) (tiling.apart x y old.1 old'.1);
  }

  pub topped-IsStock :
      (k : Stock) → IsStock s b k q (q + m) → IsStock (topped s q m) (below b q) k 0 0
  topped-IsStock k stock =
      let s' = topped s q m in
      let least : IsLeast b = λ x pos. (tiling.each x pos).least in
      let same : SameKept s s' b q (q + m) = record {
        gm = refl;
        least = refl;
        smallmap = refl;
        treemap = refl;
        dv = refl;
        dvsize = refl;
        array = λ a from to.
            ground (arith, tiling.place, front_chunk.low, front_chunk.high, front_chunk.least);
        chunks = λ x a free from to.
            let chunk = tiling.each x free.0 in
            ground (
              arith,
              free.2,
              tiling.apart x q free.0 front,
              front_chunk.least,
              chunk.high,
              chunk.least,
              ends,
            );
      } in
      IsStock-view s' b (below b q) k q (q + m) 0 0
        (λ x free.
          let chunk = tiling.each x free.0 in
          let size = size_below x (omega (arith, free.2, chunk.high, chunk.least, ends)) in
          ((omega (arith, size, free.0), free.1, inr (omega arith)), size))
        (λ x free. let old = below-cases x free.0 in (old.1, free.1, inl old.0))
        (IsStock-frame s s' b k q (q + m) least same stock)

trim-skips : (t : Bool) (s : State) → (if t then sys_trim 0 >> skip else skip) s ≡ ok tt s
unfolding sys_trim
trim-skips true s = refl
trim-skips false s = refl

-- The chunk becomes a part of the top chunk; if it is the designated victim, there is none then.
pub merge_top-topped :
    (s : State) (q m : ℕ)
    → q ≢ null
    → q ≢ s.dv
    → s.topsize + m < 2 ^ 64
    → (s.topsize + m) % 8 ≡ 0
    → merge_top q m s ≡ ok tt (topped s q m)
unfolding merge_top should_trim
merge_top-topped s q m nn ne size words =
    let sum : add64 s.topsize m ≡ s.topsize + m = unfold add64 in omega (arith, size) in
    let other : (q == s.dv) ≡ false = ground (arith, ne) in
    rw
      (
        sum,
        free_word (s.topsize + m) (words, size),
        store-ok q head_at (s.topsize + m + 1) (record s { topsize = s.topsize + m; top = q }) nn,
        other,
      )
      (trim-skips (ltb s.trim_check (s.topsize + m)) (topped s q m))

pub merge_top-victim :
    (s : State) (q m : ℕ)
    → q ≢ null
    → q ≡ s.dv
    → s.topsize + m < 2 ^ 64
    → (s.topsize + m) % 8 ≡ 0
    → merge_top q m s ≡ ok tt (topped (with_dv s null 0) q m)
unfolding merge_top should_trim
merge_top-victim s q m nn is size words =
    let sum : add64 s.topsize m ≡ s.topsize + m = unfold add64 in omega (arith, size) in
    let same : (q == s.dv) ≡ true = ground (arith, is) in
    rw
      (
        sum,
        free_word (s.topsize + m) (words, size),
        store-ok q head_at (s.topsize + m + 1) (record s { topsize = s.topsize + m; top = q }) nn,
        same,
      )
      (trim-skips (ltb s.trim_check (s.topsize + m)) (topped (with_dv s null 0) q m))
