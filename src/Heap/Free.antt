-- ===== src/Heap/Free.antt =====
-- `Free` on the heap.
use unimem.Base.{
  ℕ, ◌+◌, ◌-◌, ◌<◌, ◌≡◌, ◌≢◌, refl, ap, ◌∙◌, arith, ◌⊎◌, inl, inr, true, false, Bool-cases, ◌==◌,
  ltb, leb, bit_and, Option, none, some, if◌then◌else◌,
}
use unimem.Word.{add64}
use unimem.Machine.{Ptr, null, State, Action, ok, skip, pure, modify, and_then, ◌>>=◌, ◌>>◌}
use unimem.Machine.Returns.{load-ok}
use unimem.Chunk.{head_at, prev_foot_at, inuse_bits, chunk2mem, set_free_with_pinuse}
use unimem.Chunk.Head.{inuse_bits-word}
use unimem.MallocState.Top.{ok_address}
use unimem.UniAllocator.{merge_back, merge_forward, free}
use unimem.Heap.{Blocks, IsTiling, IsChunk, Stock, IsStock, IsHeap}
use unimem.Heap.Keeping.{IsStock-view}
use unimem.Heap.Settle.{merged}
use unimem.Heap.Drop.{IsGrown}
use unimem.Heap.UnlinkLarge.{unlink_chunk-IsStock}
use unimem.Heap.Heads.{
  chunk_ne_null, size-IsSize, flags, few, topsize-IsSize, head_word, chunksize-ok, pinuse-ok,
  cinuse-ok, is_inuse-ok,
}
use unimem.Heap.Released.{IsLive, Releases, HoldsOnly}
use unimem.Heap.MergeForward.{merge_forward-Releases}
use unimem.Heap.MergeVictim.{
  grown_dv, set_free-grown_dv, grown_dv-IsHeap, grown_dv-IsReleased, victim-top, victim-next,
}

-- The consolidation forward, with the chunk behind.
abbrev go_on : Ptr → Option (Ptr × ℕ) → Action
go_on next merged = elim merged [ none ↦ skip | some (p', psize') ↦ merge_forward p' next psize' ]

module _ (s : State) (b : Blocks) (k : Stock) (p n : ℕ) (heap : IsHeap s b k)
    (live : IsLive b p n) where
  tiling : IsTiling s b
  tiling = heap.0

  there : 0 < b.size p
  there = omega (arith, live)

  its_chunk : IsChunk s b p
  its_chunk = tiling.each p there

  -- The used chunk is a region of its own.
  region-IsStock : IsStock s b k p (p + n)
  region-IsStock =
      IsStock-view s b b k 0 0 p (p + n)
        (λ x free.
          let ne : x ≢ p = λ e. omega (arith, ap b.cinuse e, free.1, live) in
          let least = (tiling.each x free.0).least in
          ((free.0, free.1, omega (arith, ne, tiling.apart x p free.0 there, live, least)), refl))
        (λ x free. (free.0, free.1, inr (omega arith))) heap.1

  -- What is behind takes the chunk to be used.
  is_followed : (p + n ≡ s.top) ⊎ ((0 < b.size (p + n)) × (b.pinuse (p + n) ≡ 1))
  is_followed = elim its_chunk.next [
    | inl last ↦ inl (rw live.1 at last.0)
    | inr next ↦ inr (rw live.1 at next.0, rw live.1 at (next.1 ∙ live.2))
  ]

  -- Nothing to merge with in front.
  module _ (before : b.pinuse p ≡ 1) where
    merge_back-none : merge_back p (p + n) n s ≡ ok (some (p, n)) s
    unfolding merge_back
    merge_back-none = rw (pinuse-ok s b p tiling there, before) refl

    own_region : HoldsOnly b p n p
    own_region = record {
      live = there;
      from = omega arith;
      to = omega (arith, live);
      only = λ x pos used low high.
          ground (arith, tiling.apart x p pos there, low, high, live, (tiling.each x pos).least);
    }

    forward-alone : Releases b p (merge_forward p (p + n) n s)
    forward-alone =
        merge_forward-Releases s b k p n p tiling region-IsStock there before (omega (arith, live))
          (rw live.1 at its_chunk.words) own_region is_followed

  -- A free chunk `q` in front.
  module _ (q : Ptr) (pos : 0 < b.size q) (meets : q + b.size q ≡ p) (free_q : b.cinuse q ≡ 0)
      (before : b.pinuse p ≡ 0) where
    abbrev both : ℕ
    both = n + b.size q

    ends : q + both ≡ p + n
    ends = omega (arith, meets)

    q_chunk : IsChunk s b q
    q_chunk = tiling.each q pos

    foot : s.mem (p + prev_foot_at) ≡ b.size q
    foot = rw meets at (q_chunk.foot free_q)

    sum : add64 n (b.size q) ≡ both
    sum = unfold add64 in omega (arith, its_chunk.high, q_chunk.low, tiling.limit, live, meets)

    back : p - b.size q ≡ q
    back = omega (arith, meets)

    good : leb s.least_addr q ≡ true
    good = ground (arith, q_chunk.low, tiling.least)

    both_region : HoldsOnly b q both p
    both_region = record {
      live = there;
      from = omega (arith, meets);
      to = omega (arith, ends, live);
      only = λ x there' used low high.
          let ne : x ≢ q = λ e. omega (arith, ap b.cinuse e, used, free_q) in
          elim (tiling.apart x p there' there) [
            | inl e ↦ e
            | inr far ↦ absurd (
                omega (
                  arith,
                  far,
                  tiling.apart x q there' pos,
                  ne,
                  low,
                  high,
                  (tiling.each x there').least,
                  meets,
                  live,
                  q_chunk.least,
                ))
          ];
    }

    q-IsGrown : IsGrown b p (p + n) q (q + both) q
    q-IsGrown = record {
      others = λ x old ne.
          let least = (tiling.each x old.0).least in
          omega (arith, old.2, ne, tiling.apart x q old.0 pos, meets, least, q_chunk.least);
      within = λ x old. (old.0, old.1, omega (arith, old.2, meets));
      from = omega arith;
      to = omega (arith, pos);
    }

    -- It is in a bin or a tree.
    forward-unlinked :
        q ≢ s.dv
        → (s1 : State) × (merge_back p (p + n) n s ≡ ok (some (q, both)) s1)
          × Releases b p (merge_forward q (p + n) both s1)
    unfolding merge_back ok_address
    forward-unlinked ne =
        let (s1, k1, runs, tiling1, stock1, fields) =
          unlink_chunk-IsStock s b k p (p + n) q (q + both) q tiling region-IsStock
            (pos, free_q, inl (omega (arith, meets, pos))) ne q-IsGrown in
        let other : (q == s.dv) ≡ false = ground (arith, ne) in
        let top : s1.top ≡ s.top = ap (λ z. z.top) fields in
        let next : (q + both ≡ s1.top) ⊎ ((0 < b.size (q + both)) × (b.pinuse (q + both) ≡ 1)) =
          rw (ends, top) is_followed in
        (
          s1,
          rw
              (
                pinuse-ok s b p tiling there,
                before,
                load-ok p prev_foot_at s (chunk_ne_null s b p tiling there),
                foot,
                back,
                good,
                other,
                runs,
                sum,
              )
              refl,
          rw ends at (
              merge_forward-Releases s1 b k1 q both p tiling1 stock1 pos (q_chunk.between free_q).1
                (omega arith) (omega (arith, its_chunk.words, q_chunk.words, live)) both_region
                next),
        )

  -- The designated victim is in front.
  module _ (pos : 0 < b.size s.dv) (meets : s.dv + b.size s.dv ≡ p) (free_dv : b.cinuse s.dv ≡ 0)
      (before : b.pinuse p ≡ 0) where
    abbrev sizes : ℕ
    sizes = n + b.size s.dv

    dv_chunk : IsChunk s b s.dv
    dv_chunk = tiling.each s.dv pos

    victim_foot : s.mem (p + prev_foot_at) ≡ b.size s.dv
    victim_foot = rw meets at (dv_chunk.foot free_dv)

    victim_sum : add64 n (b.size s.dv) ≡ sizes
    victim_sum =
        unfold add64 in omega (arith, its_chunk.high, dv_chunk.low, tiling.limit, live, meets)

    victim_back : p - b.size s.dv ≡ s.dv
    victim_back = omega (arith, meets)

    victim_good : leb s.least_addr s.dv ≡ true
    victim_good = ground (arith, dv_chunk.low, tiling.least)

    -- `merge_back` up to the look at the header behind.
    victim-runs :
        (h : ℕ)
        → s.mem (p + n + head_at) ≡ h
        → merge_back p (p + n) n s
          ≡ (if bit_and h inuse_bits == inuse_bits
                then (do
                  modify λ s. record s { dvsize = sizes }
                  set_free_with_pinuse s.dv sizes (p + n)
                  pure none)
                else pure (some (s.dv, sizes)))
              s
    unfolding merge_back ok_address
    victim-runs h e =
        let same : (s.dv == s.dv) ≡ true = ground arith in
        let nn : p + n ≢ null = λ z. omega (arith, z, live) in
        rw
          (
            pinuse-ok s b p tiling there,
            before,
            load-ok p prev_foot_at s (chunk_ne_null s b p tiling there),
            victim_foot,
            victim_back,
            victim_good,
            same,
            load-ok (p + n) head_at s nn,
            e,
            victim_sum,
          )
          refl

    -- A free chunk is behind.
    victim-forward :
        0 < b.size (p + n)
        → b.pinuse (p + n) ≡ 1
        → b.cinuse (p + n) ≡ 0
        → Releases b p (merge_forward s.dv (p + n) sizes s)
    unfolding merge_forward
    victim-forward next flag free_next =
        let behind = tiling.each (p + n) next in
        let above : ltb s.dv (p + n) ≡ true = ground (arith, meets, live) in
        let not_top : (p + n == s.top) ≡ false = ground (arith, behind.high, behind.least) in
        let not_dv : (p + n == s.dv) ≡ false = ground (arith, meets, live) in
        rw
          (
            above,
            pinuse-ok s b (p + n) tiling next,
            flag,
            cinuse-ok s b (p + n) tiling next,
            free_next,
            not_top,
            not_dv,
          )
          (victim-next s b k p n tiling region-IsStock there live.1 live.2 pos meets free_dv next
            free_next (λ e. omega (arith, e, meets, live)))

    -- A used chunk is behind.
    victim-stop :
        (z : Ptr)
        → 0 < b.size (p + n)
        → b.cinuse (p + n) ≡ 1
        → Releases b p (
            and_then
              (and_then
                (set_free_with_pinuse s.dv sizes (p + n) (record s { dvsize = sizes }))
                (λ _ s'. ok none s'))
              (go_on z))
    victim-stop z next used =
        rw
          (set_free-grown_dv s b k p n tiling region-IsStock there live.1 live.2 pos meets free_dv
            next used (p + n) refl)
          (inl (
            grown_dv s b k p n tiling region-IsStock there live.1 live.2 pos meets free_dv next
                used,
            merged b s.dv sizes,
            k,
            refl,
            grown_dv-IsHeap s b k p n tiling region-IsStock there live.1 live.2 pos meets free_dv
                next used,
            grown_dv-IsReleased s b k p n tiling region-IsStock there live.1 live.2 pos meets
                free_dv next used,
          ))

    victim-after : (z : Ptr) → z ≡ p + n → Releases b p ((merge_back p (p + n) n >>= go_on z) s)
    victim-after z e = elim is_followed [
      | inl last ↦
          let h : s.mem (p + n + head_at) ≡ s.topsize + 1 = rw last tiling.top_head in
          let bits : (bit_and (s.topsize + 1) inuse_bits == inuse_bits) ≡ false =
            rw (inuse_bits-word s.topsize 1 (topsize-IsSize s b tiling) (omega arith)) refl in
          rw (victim-runs (s.topsize + 1) h, bits, e)
            (victim-top s b k p n tiling region-IsStock there live.1 live.2 pos meets free_dv last)
      | inr (next, flag) ↦
          let word = b.size (p + n) + flags s b (p + n) tiling next in
          let behind = tiling.each (p + n) next in
          let h = head_word s b (p + n) tiling next in
          let word_bits =
            inuse_bits-word (b.size (p + n)) (flags s b (p + n) tiling next)
              (size-IsSize s b (p + n) tiling next) (few s b (p + n) tiling next) in
          elim (Bool-cases (b.cinuse (p + n) == 0)) [
            | inl c ↦
                let free_next : b.cinuse (p + n) ≡ 0 = ground (arith, c) in
                let bits : (bit_and word inuse_bits == inuse_bits) ≡ false =
                  ground (arith, word_bits, free_next, flag) in
                rw (victim-runs word h, bits, e) (victim-forward next flag free_next)
            | inr c ↦
                let used : b.cinuse (p + n) ≡ 1 = ground (arith, c, behind.cflag) in
                let bits : (bit_and word inuse_bits == inuse_bits) ≡ true =
                  ground (arith, word_bits, used, flag) in
                rw (victim-runs word h, bits) (victim-stop z next used)
          ]
    ]

  -- What `Free` does after the consolidation backward.
  forward-after : (z : Ptr) → z ≡ p + n → Releases b p ((merge_back p (p + n) n >>= go_on z) s)
  forward-after z e = elim (Bool-cases (b.pinuse p == 0)) [
    | inl flag ↦
        let before : b.pinuse p ≡ 0 = ground (arith, flag) in
        let (q, pos, meets, free_q) = its_chunk.back before in
        elim (Bool-cases (q == s.dv)) [
          | inl e' ↦
              let is : q ≡ s.dv = ground (arith, e') in
              victim-after (rw is at pos) (rw is at meets) (rw is at free_q) before z e
          | inr is ↦
              let ne : q ≢ s.dv = ground (arith, is) in
              let (s1, runs, done) = forward-unlinked q pos meets free_q before ne in
              rw (runs, e) done
        ]
    | inr flag ↦
        let before : b.pinuse p ≡ 1 = ground (arith, flag, its_chunk.pflag) in
        rw (merge_back-none before, e) (forward-alone before)
  ]

  free-merges : (t : Ptr) → t ≢ null → t - 32 ≡ p → Releases b p (free t s)
  unfolding free ok_address
  free-merges t nt at_p =
      let given : (t == 0) ≡ false = ground (arith, nt) in
      let valid : leb s.least_addr p ≡ true = ground (arith, tiling.least, its_chunk.low) in
      let next : t - 32 + b.size p ≡ p + n = omega (arith, at_p, live.1) in
      rw
        (
          given,
          at_p,
          valid,
          is_inuse-ok s b p tiling there live.2,
          chunksize-ok s b p tiling there,
          live.1,
        )
        (forward-after (t - 32 + b.size p) next)

-- `Free` of a used chunk of a heap: it returns and leaves a heap in which the chunk is not used
-- any more and the other used chunks are as before; or it throws `MemoryCorruptedException`.
pub free-IsHeap :
    (s : State) (b : Blocks) (k : Stock) (p n : ℕ)
    → IsHeap s b k
    → IsLive b p n
    → Releases b p (free (chunk2mem p) s)
free-IsHeap s b k p n heap live =
    free-merges s b k p n heap live (chunk2mem p) (λ e. omega (arith, e)) (omega arith)
