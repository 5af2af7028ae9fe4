-- ===== src/Heap/Allocated.antt =====
-- What it means that a chunk is allocated, and the two ways: a free chunk is used as a whole, or
-- split.
use unimem.Base.{
  ℕ, ◌+◌, ◌≤◌, ◌<◌, ◌≡◌, ◌≢◌, refl, ap, ◌∙◌, arith, ◌⊎◌, inl, inr, false, Bool-cases, ◌==◌, bit_or,
}
use unimem.Machine.{Ptr, null, State, Run, Action, ok, pure, ◌>>◌, corrupted}
use unimem.Machine.Returns.{write, load-ok, store-ok}
use unimem.Chunk.{head_at, prev_foot_at, chunk2mem, set_size_and_pinuse_of_free_chunk}
use unimem.Chunk.Head.{IsSize, inuse_word, set_pinuse-word}
use unimem.MallocState.Top
use unimem.Heap.{Blocks, IsTiling, IsChunk, Stock, IsStock, IsHeap}
use unimem.Heap.Keeping.{IsLeast, IsOff, IsStock-write, IsStock-view}
use unimem.Heap.Heads.{chunk_ne_null, size-IsSize}
use unimem.Heap.Drop.{IsGrown}
use unimem.Heap.InsertSmall.{IsLoose}
use unimem.Heap.Take.{taken, IsTakenIn, taken-IsTiling}
use unimem.Heap.Carve.{carved, IsCut, IsCarvedIn, carved-IsTiling, carved-cases}
use unimem.Heap.Tagging.{framed, framed-runs}
use unimem.Heap.Released.{IsLive}

-- `b'` has the used chunks of `b`, and `p` of the size `n`, which was not used before.
pub record IsAllocated (b b' : Blocks) (p n : ℕ) : Type 0 where
  pub new : IsLive b' p n
  pub fresh : (z : ℕ) → ¬ IsLive b p z
  pub others : (x z : ℕ) → x ≢ p → IsLive b' x z → IsLive b x z
  pub still : (x z : ℕ) → x ≢ p → IsLive b x z → IsLive b' x z

-- What an allocation of at least `n` bytes leaves: a heap with one more used chunk, or the
-- exception that a second size in a tree brings about.
abbrev pub Allocates : Blocks → ℕ → Run Ptr → Type 0
Allocates b n run =
    ((s' : State) × (b' : Blocks) × (k' : Stock) × (p : Ptr) × (z : ℕ) × (run ≡ ok (chunk2mem p) s')
      × IsHeap s' b' k'
      × IsAllocated b b' p z
      × (n ≤ z))
    ⊎ ((s' : State) × (run ≡ corrupted s'))

-- What keeping a free chunk leaves: a heap over the chunks `b`, or an exception.
abbrev pub Keeps : Blocks → Run (Unit {0}) → Type 0
Keeps b run =
    ((s' : State) × (k' : Stock) × (run ≡ ok tt s') × IsHeap s' b k')
    ⊎ ((s' : State) × (run ≡ corrupted s'))

module _ (s : State) (b : Blocks) (k : Stock) (p : Ptr) (tiling : IsTiling s b) (pos : 0 < b.size p)
    (free : b.cinuse p ≡ 0) where
  abbrev m : ℕ
  m = b.size p

  its_chunk : IsChunk s b p
  its_chunk = tiling.each p pos

  least : IsLeast b
  least x there = (tiling.each x there).least

  behind : (0 < b.size (p + m)) × (b.pinuse (p + m) ≡ 0) × (b.cinuse (p + m) ≡ 1)
  behind = elim its_chunk.next [
    | inl last ↦ absurd (omega (arith, last.1, free))
    | inr next ↦ (next.0, next.1 ∙ free, (its_chunk.between free).0)
  ]

  behind_chunk : IsChunk s b (p + m)
  behind_chunk = tiling.each (p + m) behind.0

  p_ne_null : p ≢ null
  p_ne_null = chunk_ne_null s b p tiling pos

  IsOff-inside : (w : Ptr) → p + 8 ≤ w → w ≤ p + m → IsOff s b p (p + m) w
  IsOff-inside w from to = (
    omega (
      arith, from, to, tiling.place, its_chunk.low, its_chunk.high, behind_chunk.high,
      behind_chunk.least,
    ),
    λ x there.
        omega (
          arith,
          from,
          to,
          there.2,
          tiling.apart x p there.0 pos,
          least x there.0,
          its_chunk.least,
        ),
  )

  IsOff-behind : IsOff s b p (p + m) (p + m + head_at)
  IsOff-behind = (
    omega (arith, tiling.place, its_chunk.low, behind_chunk.high, behind_chunk.least),
    λ x there.
        let ne : x ≢ p + m = λ z. omega (arith, ap b.cinuse z, there.1, behind.2) in
        omega (
          arith,
          there.2,
          ne,
          tiling.apart x p there.0 pos,
          tiling.apart x (p + m) there.0 behind.0,
          least x there.0,
          its_chunk.least,
          behind_chunk.least,
        ),
  )

  -- The state after the whole chunk has been marked as used.
  abbrev pub used_whole : State
  used_whole = write (write s (p + head_at) (m + 3)) (p + m + head_at) (b.size (p + m) + 3)

  pub set_inuse-runs : Top.set_inuse_and_pinuse p m s ≡ ok tt used_whole
  unfolding Top.set_inuse_and_pinuse
  set_inuse-runs =
      let nn : p + m ≢ null = λ z. p_ne_null (omega (arith, z)) in
      let s1 = write s (p + head_at) (m + 3) in
      let h : s1.mem (p + m + head_at) ≡ b.size (p + m) + 2 =
        ground (arith, behind_chunk.head, behind, pos) in
      let word : bit_or (b.size (p + m) + 2) 1 ≡ b.size (p + m) + 3 =
        set_pinuse-word (b.size (p + m)) 2 (size-IsSize s b (p + m) tiling behind.0)
          (omega arith) in
      rw
        (
          inuse_word m (size-IsSize s b p tiling pos),
          store-ok p head_at (m + 3) s p_ne_null,
          load-ok (p + m) head_at s1 nn,
          h,
          word,
          store-ok (p + m) head_at (b.size (p + m) + 3) s1 nn,
        )
        refl

  pub used_whole-IsTiling : IsTiling used_whole (taken b p)
  used_whole-IsTiling =
      let tagged : IsTakenIn s used_whole b p = record {
        gm = refl;
        top = refl;
        topsize = refl;
        least_addr = refl;
        head = ground (arith, pos);
        next_head = ground arith;
        others = λ w h n. ground (arith, h, n);
      } in
      taken-IsTiling s used_whole b p tiling pos free tagged

  pub used_whole-IsStock : IsStock s b k p (p + m) → IsStock used_whole (taken b p) k 0 0
  used_whole-IsStock stock =
      let s1 = write s (p + head_at) (m + 3) in
      let kept =
        IsStock-write s1 b k p (p + m) (p + m + head_at) (b.size (p + m) + 3) IsOff-behind least (
          IsStock-write s b k p (p + m) (p + head_at) (m + 3)
            (IsOff-inside (p + head_at) (omega arith) (omega (arith, its_chunk.least))) least
            stock) in
      IsStock-view used_whole b (taken b p) k p (p + m) 0 0
        (λ x there.
          let other : (x == p) ≡ false = ground (arith, there.2, pos) in
          ((there.0, rw other there.1, inr (omega arith)), refl))
        (λ x there. elim (Bool-cases (x == p)) [
          | inl z ↦ absurd (let used : 1 ≡ 0 = rw z at there.1 in omega (arith, used))
          | inr z ↦
              let was_free : b.cinuse x ≡ 0 = rw z at there.1 in
              (
                there.0,
                was_free,
                ground (arith, z, tiling.apart x p there.0 pos, least x there.0, pos),
              )
        ])
        kept

  pub used_whole-IsAllocated : IsAllocated b (taken b p) p m
  used_whole-IsAllocated = record {
    new = (pos, refl, ground arith);
    fresh = λ z live. omega (arith, live.2, free);
    others = λ x z ne live.
        let other : (x == p) ≡ false = ground (arith, ne) in (live.0, live.1, rw other at live.2);
    still = λ x z ne live.
        let other : (x == p) ≡ false = ground (arith, ne) in (live.0, live.1, rw other live.2);
  }

  -- The chunk is split.
  module _ (n r : ℕ) (cut : IsCut b p n r) where
    abbrev pub view : Blocks
    view = carved b p n r

    same_end : p + n + r ≡ p + m
    same_end = omega (arith, cut.sum)

    -- The states of both orders in which the headers are written.
    abbrev pub front_first : State
    front_first = framed (write s (p + head_at) (n + 3)) (p + n) r

    abbrev pub front_last : State
    front_last = write (framed s (p + n) r) (p + head_at) (n + 3)

    front_first-IsCarvedIn : IsCarvedIn s front_first p n r
    front_first-IsCarvedIn = record {
      gm = refl;
      top = refl;
      topsize = refl;
      least_addr = refl;
      head = ground (arith, cut.front, cut.rest);
      rest_head = ground (arith, cut.rest);
      rest_foot = ground arith;
      others = λ w h q f. ground (arith, h, q, f);
    }

    front_last-IsCarvedIn : IsCarvedIn s front_last p n r
    front_last-IsCarvedIn = record {
      gm = refl;
      top = refl;
      topsize = refl;
      least_addr = refl;
      head = ground arith;
      rest_head = ground (arith, cut.front, cut.rest);
      rest_foot = ground (arith, cut.front, cut.rest);
      others = λ w h q f. ground (arith, h, q, f);
    }

    IsOff-front : IsOff s b p (p + m) (p + head_at)
    IsOff-front = IsOff-inside (p + head_at) (omega arith) (omega (arith, its_chunk.least))

    IsOff-rest : IsOff s b p (p + m) (p + n + head_at)
    IsOff-rest =
        IsOff-inside (p + n + head_at) (omega (arith, cut.front)) (omega (arith, cut.sum, cut.rest))

    IsOff-end : IsOff s b p (p + m) (p + n + r + prev_foot_at)
    IsOff-end =
        IsOff-inside (p + n + r + prev_foot_at) (omega (arith, cut.front)) (omega (arith, cut.sum))

    front_first-kept : IsStock s b k p (p + m) → IsStock front_first b k p (p + m)
    front_first-kept stock =
        let s1 = write s (p + head_at) (n + 3) in
        let s2 = write s1 (p + n + head_at) (r + 1) in
        IsStock-write s2 b k p (p + m) (p + n + r + prev_foot_at) r IsOff-end least (
          IsStock-write s1 b k p (p + m) (p + n + head_at) (r + 1) IsOff-rest least
            (IsStock-write s b k p (p + m) (p + head_at) (n + 3) IsOff-front least stock))

    front_last-kept : IsStock s b k p (p + m) → IsStock front_last b k p (p + m)
    front_last-kept stock =
        let s1 = write s (p + n + head_at) (r + 1) in
        let s2 = write s1 (p + n + r + prev_foot_at) r in
        IsStock-write s2 b k p (p + m) (p + head_at) (n + 3) IsOff-front least (
          IsStock-write s1 b k p (p + m) (p + n + r + prev_foot_at) r IsOff-end least
            (IsStock-write s b k p (p + m) (p + n + head_at) (r + 1) IsOff-rest least stock))

    -- The free chunks outside of the split one are the same.
    carved-kept :
        (s' : State)
        → IsCarvedIn s s' p n r
        → IsStock s' b k p (p + m)
        → IsStock s' view k p (p + m)
    carved-kept s' tagged kept =
        IsStock-view s' b view k p (p + m) p (p + m)
          (λ x there.
            let np : (x == p) ≡ false = ground (arith, there.2, pos) in
            let nr : (x == p + n) ≡ false = ground (arith, there.2, cut.sum, cut.rest) in
            ((rw (np, nr) there.0, rw (np, nr) there.1, there.2), rw (np, nr) refl))
          (λ x there.
            let np : (x == p) ≡ false = ground (arith, there.2, pos) in
            let nr : (x == p + n) ≡ false = ground (arith, there.2, cut.sum, cut.rest) in
            (rw (np, nr) at there.0, rw (np, nr) at there.1, there.2))
          kept

    pub rest-IsLoose : (s' : State) → IsCarvedIn s s' p n r → IsLoose view p (p + m) (p + n)
    rest-IsLoose s' tagged = record {
      free = (ground (arith, cut.front, cut.rest), ground (arith, cut.front));
      from = omega arith;
      to = omega (arith, cut.sum, cut.rest);
      only = λ x there is_free ne. elim (carved-cases s s' b p n r tiling cut tagged x there) [
        | inl z ↦ absurd (ground (arith, z, is_free))
        | inr (inl z) ↦ absurd (ne z)
        | inr (inr old) ↦ omega (arith, old.3, old.1, same_end)
      ];
    }

    pub carved-IsAllocated : IsAllocated b view p n
    carved-IsAllocated = record {
      new = (omega (arith, cut.front), ground arith, ground arith);
      fresh = λ z live. omega (arith, live.2, free);
      others = λ x z ne live.
          let np : (x == p) ≡ false = ground (arith, ne) in
          elim (Bool-cases (x == p + n)) [
            | inl e ↦ absurd (let unused : 0 ≡ 1 = rw (np, e) at live.2 in omega (arith, unused))
            | inr e ↦ (live.0, rw (np, e) at live.1, rw (np, e) at live.2)
          ];
      still = λ x z ne live.
          let np : (x == p) ≡ false = ground (arith, ne) in
          let there : 0 < b.size x = omega (arith, live) in
          let nr : (x == p + n) ≡ false =
            ground (
              arith,
              tiling.apart x p there pos,
              ne,
              least x there,
              cut.front,
              cut.rest,
              cut.sum,
            ) in
          (live.0, rw (np, nr) live.1, rw (np, nr) live.2);
    }

    -- What a split leaves, whatever the order.
    abbrev pub IsSplit : State → Type 0
    IsSplit s' =
        IsTiling s' view
        × IsStock s' view k p (p + m)
        × IsLoose view p (p + m) (p + n)
        × (view.size (p + n) ≡ r)

    pub front_first-IsSplit : IsStock s b k p (p + m) → IsSplit front_first
    front_first-IsSplit stock = (
      carved-IsTiling s front_first b p n r tiling cut front_first-IsCarvedIn,
      carved-kept front_first front_first-IsCarvedIn (front_first-kept stock),
      rest-IsLoose front_first front_first-IsCarvedIn,
      ground (arith, cut.front),
    )

    pub front_last-IsSplit : IsStock s b k p (p + m) → IsSplit front_last
    front_last-IsSplit stock = (
      carved-IsTiling s front_last b p n r tiling cut front_last-IsCarvedIn,
      carved-kept front_last front_last-IsCarvedIn (front_last-kept stock),
      rest-IsLoose front_last front_last-IsCarvedIn,
      ground (arith, cut.front),
    )

    front-runs :
        Top.set_size_and_pinuse_of_inuse_chunk p n s ≡ ok tt (write s (p + head_at) (n + 3))
    unfolding Top.set_size_and_pinuse_of_inuse_chunk
    front-runs =
        let size : IsSize n =
          omega (arith, cut.words, cut.sum, its_chunk.low, its_chunk.high, tiling.limit) in
        rw (inuse_word n size) (store-ok p head_at (n + 3) s p_ne_null)

    rest-runs :
        set_size_and_pinuse_of_free_chunk (p + n) r (write s (p + head_at) (n + 3))
        ≡ ok tt front_first
    rest-runs =
        let size : IsSize r = omega (
          arith, cut.words, cut.sum, its_chunk.words, its_chunk.low, its_chunk.high, tiling.limit,
        ) in
        framed-runs (write s (p + head_at) (n + 3)) (p + n) r (λ z. p_ne_null (omega (arith, z)))
          size

    -- The rest is handed to `keep`, which leaves a heap or throws.
    pub split-Allocates :
        (keep : Ptr → ℕ → Action)
        → IsStock s b k p (p + m)
        → (IsSplit front_first → Keeps view (keep (p + n) r front_first))
        → Allocates b n (
            (do
              Top.set_size_and_pinuse_of_inuse_chunk p n
              set_size_and_pinuse_of_free_chunk (p + n) r
              keep (p + n) r
              pure (chunk2mem p))
              s)
    split-Allocates keep stock keeps =
        rw (front-runs, rest-runs)
          (elim (keeps (front_first-IsSplit stock)) [
            | inl (s', k', runs, heap) ↦
                rw runs (inl (s', view, k', p, n, refl, heap, carved-IsAllocated, omega arith))
            | inr (s', runs) ↦ rw runs (inr (s', refl))
          ])

    -- The same, where the three statements stand in a block of their own.
    pub split_block-Allocates :
        (keep : Ptr → ℕ → Action)
        → IsStock s b k p (p + m)
        → (IsSplit front_first → Keeps view (keep (p + n) r front_first))
        → Allocates b n (
            ((do
              Top.set_size_and_pinuse_of_inuse_chunk p n
              set_size_and_pinuse_of_free_chunk (p + n) r
              keep (p + n) r)
                >> pure (chunk2mem p))
              s)
    split_block-Allocates keep stock keeps =
        rw (front-runs, rest-runs)
          (rw (front-runs, rest-runs) at (split-Allocates keep stock keeps))

  -- The whole chunk is used.
  pub whole-Allocates :
      (n : ℕ)
      → n ≤ m
      → IsStock s b k p (p + m)
      → Allocates b n ((Top.set_inuse_and_pinuse p m >> pure (chunk2mem p)) s)
  whole-Allocates n enough stock = rw set_inuse-runs (
      inl (
        used_whole,
        taken b p,
        k,
        p,
        m,
        refl,
        (used_whole-IsTiling, used_whole-IsStock stock),
        used_whole-IsAllocated,
        enough,
      ))

-- A free chunk that is taken out of the stock is a region of its own.
pub own-IsGrown :
    (s : State) (b : Blocks) (p : Ptr)
    → IsTiling s b
    → 0 < b.size p
    → IsGrown b 0 0 p (p + b.size p) p
own-IsGrown s b p tiling pos = record {
  others = λ x free ne. omega (
    arith,
    ne,
    tiling.apart x p free.0 pos,
    (tiling.each x free.0).least,
    (tiling.each p pos).least,
  );
  within = λ x free. (free.0, free.1, inr (omega arith));
  from = omega arith;
  to = omega (arith, pos);
}
