-- ===== src/Heap/Settle.antt =====
-- A region between used chunks becomes one free chunk.
use unimem.Base.{
  ℕ, ◌+◌, ◌*◌, ◌%◌, ◌≤◌, ◌<◌, ◌≡◌, ◌≢◌, refl, sym, ap, ◌∙◌, arith, ◌⊎◌, inl, inr, Bool-cases, ◌==◌,
  ltb, if◌then◌else◌, ◌&&◌,
}
use unimem.Machine.{Ptr, State}
use unimem.Chunk.{head_at, prev_foot_at}
use unimem.Heap.{Blocks, IsTiling, IsChunk, IsFollowed}

-- The view `b'` is `b` with the region from `q` to `q + m` as one free chunk.
pub record IsMerged (b b' : Blocks) (q m : ℕ) : Type 0 where
  pub base : b'.base ≡ b.base
  pub size_front : b'.size q ≡ m
  pub size_inside : (x : Ptr) → q < x → x < q + m → b'.size x ≡ 0
  pub size_outside : (x : Ptr) → (x < q) ⊎ (q + m ≤ x) → b'.size x ≡ b.size x
  pub cinuse_front : b'.cinuse q ≡ 0
  pub cinuse_other : (x : Ptr) → x ≢ q → b'.cinuse x ≡ b.cinuse x
  pub pinuse_behind : b'.pinuse (q + m) ≡ 0
  pub pinuse_other : (x : Ptr) → x ≢ q + m → b'.pinuse x ≡ b.pinuse x

abbrev pub merged : Blocks → Ptr → ℕ → Blocks
merged b q m = record b {
  size = λ x. if x == q then m else if ltb q x && ltb x (q + m) then 0 else b.size x;
  cinuse = λ x. if x == q then 0 else b.cinuse x;
  pinuse = λ x. if x == q + m then 0 else b.pinuse x;
}

pub merged-IsMerged : (b : Blocks) (q m : ℕ) → 0 < m → IsMerged b (merged b q m) q m
merged-IsMerged b q m pos = record {
  base = refl;
  size_front = ground arith;
  size_inside = λ x from to. ground arith;
  size_outside = λ x out. ground arith;
  cinuse_front = ground arith;
  cinuse_other = λ x ne. ground arith;
  pinuse_behind = ground arith;
  pinuse_other = λ x ne. ground arith;
}

-- The region begins at a chunk behind a used one, and ends at a used chunk.
pub record IsRegion (b : Blocks) (q m : ℕ) : Type 0 where
  pub front : 0 < b.size q
  pub pinuse : b.pinuse q ≡ 1
  pub behind : 0 < b.size (q + m)
  pub cinuse : b.cinuse (q + m) ≡ 1
  pub fits : b.size q ≤ m
  pub words : m % 8 ≡ 0

-- The memory has the tags of the region, and no other tag has changed.
pub record IsTagged (s s' : State) (b : Blocks) (q m : ℕ) : Type 0 where
  pub gm : s'.gm ≡ s.gm
  pub top : s'.top ≡ s.top
  pub topsize : s'.topsize ≡ s.topsize
  pub least_addr : s'.least_addr ≡ s.least_addr
  pub head : s'.mem (q + head_at) ≡ m + 1
  pub foot : s'.mem (q + m + prev_foot_at) ≡ m
  pub next_head : s'.mem (q + m + head_at) ≡ b.size (q + m) + 2
  pub others :
      (w : Ptr)
      → w ≢ q + head_at
      → w ≢ q + m + prev_foot_at
      → w ≢ q + m + head_at
      → s'.mem w ≡ s.mem w

module _ (s s' : State) (b b' : Blocks) (q m : ℕ) (tiling : IsTiling s b) (region : IsRegion b q m)
    (merge : IsMerged b b' q m) (tagged : IsTagged s s' b q m) where
  -- A chunk of the new view is the region, or an old chunk outside of it.
  abbrev pub IsOld : Ptr → Type 0
  IsOld x = (x ≢ q) × (0 < b.size x) × (b'.size x ≡ b.size x) × ((x + b.size x ≤ q) ⊎ (q + m ≤ x))

  pub merged-cases : (x : Ptr) → 0 < b'.size x → (x ≡ q) ⊎ IsOld x
  merged-cases x pos = elim (Bool-cases (x == q)) [
    | inl e ↦ inl (ground (arith, e))
    | inr e ↦ elim (Bool-cases (ltb q x && ltb x (q + m))) [
      | inl inside ↦ absurd (
          omega (arith, pos, merge.size_inside x (ground (arith, inside)) (ground (arith, inside))))
      | inr out ↦
          let apart : (x < q) ⊎ (q + m ≤ x) = ground (arith, e, out) in
          let same = merge.size_outside x apart in
          let there : 0 < b.size x = omega (arith, pos, same) in
          inr (
            ground (arith, e),
            there,
            same,
            omega (
              arith,
              tiling.apart x q there region.front,
              apart,
              region.front,
              region.fits,
              (tiling.each q region.front).least,
            ),
          )
    ]
  ]

  front_least : 32 ≤ b.size q
  front_least = (tiling.each q region.front).least

  behind_least : 32 ≤ b.size (q + m)
  behind_least = (tiling.each (q + m) region.behind).least

  front_pinuse : b'.pinuse q ≡ 1
  front_pinuse =
      merge.pinuse_other q (λ e. omega (arith, e, region.fits, front_least)) ∙ region.pinuse

  behind_size : b'.size (q + m) ≡ b.size (q + m)
  behind_size = merge.size_outside (q + m) (inr (omega arith))

  behind_cinuse : b'.cinuse (q + m) ≡ 1
  behind_cinuse =
      merge.cinuse_other (q + m) (λ e. omega (arith, e, region.fits, front_least)) ∙ region.cinuse

  front-IsChunk : IsChunk s' b' q
  front-IsChunk =
      let chunk = tiling.each q region.front in
      let behind = tiling.each (q + m) region.behind in
      record {
        low = omega (arith, chunk.low, merge.base);
        high = omega (arith, behind.high, merge.size_front, tagged.top);
        least = omega (arith, chunk.least, region.fits, merge.size_front);
        words = rw merge.size_front region.words;
        cflag = omega (arith, merge.cinuse_front);
        pflag = omega (arith, front_pinuse);
        head = omega (arith, tagged.head, merge.size_front, merge.cinuse_front, front_pinuse);
        next =
            rw (merge.size_front, merge.cinuse_front, merge.pinuse_behind, behind_size)
              (inr (region.behind, refl));
        foot = λ free. rw merge.size_front tagged.foot;
        between = λ free. (rw merge.size_front behind_cinuse, front_pinuse);
        back = λ none_free. absurd (omega (arith, none_free, front_pinuse));
      }

  module _ (x : Ptr) (old : IsOld x) where
    chunk : IsChunk s b x
    chunk = tiling.each x old.1

    same_cinuse : b'.cinuse x ≡ b.cinuse x
    same_cinuse = merge.cinuse_other x old.0

    -- What stands behind an old chunk is in front of the region, its front, or past its end.
    behind_ne : x + b.size x ≢ q + m
    behind_ne e = omega (arith, e, old.3, chunk.least, region.fits, front_least)

    old-IsFollowed : IsFollowed s' b' x
    old-IsFollowed =
        rw (old.2, same_cinuse, tagged.top)
          (elim chunk.next [
            | inl last ↦ inl last
            | inr (there, flag) ↦ inr (
              (elim (Bool-cases (x + b.size x == q)) [
                | inl e ↦
                    let is : x + b.size x ≡ q = ground (arith, e) in
                    rw is (omega (arith, merge.size_front, region.fits, front_least))
                | inr e ↦
                    let out =
                      merge.size_outside (x + b.size x) (ground (arith, e, old.3, chunk.least)) in
                    omega (arith, out, there)
              ]),
              merge.pinuse_other (x + b.size x) behind_ne ∙ flag,
            )
          ])

    module _ (free : b.cinuse x ≡ 0) where
      free_behind : (0 < b.size (x + b.size x)) × (b.pinuse (x + b.size x) ≡ 0)
      free_behind = elim chunk.next [
        | inl last ↦ absurd (omega (arith, last.1, free))
        | inr next ↦ (next.0, next.1 ∙ free)
      ]

      not_front : x + b.size x ≢ q
      not_front e = omega (arith, ap b.pinuse e, free_behind.1, region.pinuse)

      not_behind : x ≢ q + m
      not_behind e = omega (arith, ap b.cinuse e, free, region.cinuse)

      old_foot : s'.mem (x + b.size x + prev_foot_at) ≡ b.size x
      old_foot =
          let y = x + b.size x in
          let near = tiling.apart y q free_behind.0 region.front in
          let far = tiling.apart y (q + m) free_behind.0 region.behind in
          let least = (tiling.each y free_behind.0).least in
          tagged.others (y + prev_foot_at) (λ e. omega (arith, e, near, least, front_least))
            (λ e. behind_ne (omega (arith, e))) (λ e. omega (arith, e, far, least, behind_least))
          ∙ chunk.foot free

      old_between : (b'.cinuse (x + b.size x) ≡ 1) × (b'.pinuse x ≡ 1)
      old_between =
          let sides = chunk.between free in
          (
            merge.cinuse_other (x + b.size x) not_front ∙ sides.0,
            merge.pinuse_other x not_behind ∙ sides.1,
          )

    old_head : s'.mem (x + head_at) ≡ b'.size x + 2 * b'.cinuse x + b'.pinuse x
    old_head = elim (Bool-cases (x == q + m)) [
      | inl e ↦
          let is : x ≡ q + m = ground (arith, e) in
          rw is (omega (arith, tagged.next_head, behind_size, behind_cinuse, merge.pinuse_behind))
      | inr e ↦
          let ne : x ≢ q + m = ground (arith, e) in
          let far = tiling.apart x (q + m) old.1 region.behind in
          let same =
            tagged.others (x + head_at) (λ is. old.0 (omega (arith, is)))
              (λ is. omega (arith, is, far, chunk.least, behind_least))
              (λ is. ne (omega (arith, is))) in
          rw (old.2, same_cinuse, merge.pinuse_other x ne) (same ∙ chunk.head)
    ]

    old_back :
        b'.pinuse x ≡ 0 → (p : Ptr) × (0 < b'.size p) × (p + b'.size p ≡ x) × (b'.cinuse p ≡ 0)
    old_back flag = elim (Bool-cases (x == q + m)) [
      | inl e ↦ (
        q,
        omega (arith, merge.size_front, region.fits, front_least),
        ground (arith, e, merge.size_front),
        merge.cinuse_front,
      )
      | inr e ↦
          let ne : x ≢ q + m = ground (arith, e) in
          let (p, there, ends, free) = chunk.back (sym (merge.pinuse_other x ne) ∙ flag) in
          let far = tiling.apart p (q + m) there region.behind in
          let least = (tiling.each p there).least in
          let not_q : p ≢ q = λ is.
            omega (arith, is, ap b.size is, ends, old.3, ne, region.fits, chunk.least, least) in
          let out =
            merge.size_outside p
              (omega (arith, far, ends, old.3, ne, chunk.least, least, behind_least)) in
          (
            p,
            omega (arith, out, there),
            omega (arith, out, ends),
            merge.cinuse_other p not_q ∙ free,
          )
    ]

    old-IsChunk : IsChunk s' b' x
    old-IsChunk = record {
      low = rw merge.base chunk.low;
      high = rw (old.2, tagged.top) chunk.high;
      least = rw old.2 chunk.least;
      words = rw old.2 chunk.words;
      cflag = rw same_cinuse chunk.cflag;
      pflag = elim (Bool-cases (x == q + m)) [
        | inl e ↦
            let is : x ≡ q + m = ground (arith, e) in rw is (omega (arith, merge.pinuse_behind))
        | inr e ↦ rw (merge.pinuse_other x (ground (arith, e))) chunk.pflag
      ];
      head = old_head;
      next = old-IsFollowed;
      foot = λ free. rw old.2 (old_foot (sym same_cinuse ∙ free));
      between = λ free. rw old.2 (old_between (sym same_cinuse ∙ free));
      back = old_back;
    }

  -- The region settles: the tiling has it as one free chunk.
  pub settled-IsTiling : IsTiling s' b'
  settled-IsTiling = record {
    room = rw tagged.topsize tiling.room;
    least_pos = rw tagged.least_addr tiling.least_pos;
    least = rw (tagged.least_addr, merge.base) tiling.least;
    below = rw (tagged.top, merge.base) tiling.below;
    limit = rw (tagged.top, tagged.topsize, merge.base) tiling.limit;
    place = rw (tagged.top, tagged.topsize, tagged.gm, merge.base) tiling.place;
    words = rw tagged.topsize tiling.words;
    top_head =
        let behind = tiling.each (q + m) region.behind in
        rw (tagged.top, tagged.topsize)
          (tagged.others (s.top + head_at)
              (λ e. omega (arith, e, behind.high, behind_least, region.fits))
              (λ e. omega (arith, e, behind.high, behind_least))
              (λ e. omega (arith, e, behind.high, behind_least))
            ∙ tiling.top_head);
    each = λ x pos. elim (merged-cases x pos) [
      | inl e ↦ rw e front-IsChunk
      | inr old ↦ old-IsChunk x old
    ];
    apart = λ x y px py. elim (merged-cases x px) [
      | inl e ↦ elim (merged-cases y py) [
        | inl e' ↦ inl (e ∙ sym e')
        | inr old' ↦ rw (e, merge.size_front, old'.2) (omega (arith, old'.3))
      ]
      | inr old ↦ elim (merged-cases y py) [
        | inl e' ↦ rw (e', merge.size_front, old.2) (omega (arith, old.3))
        | inr old' ↦ rw (old.2, old'.2) (tiling.apart x y old.1 old'.1)
      ]
    ];
  }
