-- ===== src/Heap/Take.antt =====
-- A free chunk is used as a whole.
use unimem.Base.{
  ◌+◌, ◌*◌, ◌<◌, ◌≡◌, ◌≢◌, sym, ap, ◌∙◌, arith, inl, inr, Bool-cases, ◌==◌, if◌then◌else◌,
}
use unimem.Machine.{Ptr, State}
use unimem.Chunk.{head_at, prev_foot_at}
use unimem.Heap.{Blocks, IsTiling, IsChunk}

-- The view `b` with the chunk `p` used.
abbrev pub taken : Blocks → Ptr → Blocks
taken b p = record b {
  cinuse = λ x. if x == p then 1 else b.cinuse x;
  pinuse = λ x. if x == p + b.size p then 1 else b.pinuse x;
}

-- The header of the chunk and that behind it are those of a used chunk, and no other tag has
-- changed.
pub record IsTakenIn (s s' : State) (b : Blocks) (p : Ptr) : Type 0 where
  pub gm : s'.gm ≡ s.gm
  pub top : s'.top ≡ s.top
  pub topsize : s'.topsize ≡ s.topsize
  pub least_addr : s'.least_addr ≡ s.least_addr
  pub head : s'.mem (p + head_at) ≡ b.size p + 3
  pub next_head : s'.mem (p + b.size p + head_at) ≡ b.size (p + b.size p) + 3
  pub others : (w : Ptr) → w ≢ p + head_at → w ≢ p + b.size p + head_at → s'.mem w ≡ s.mem w

module _ (s s' : State) (b : Blocks) (p : Ptr) (tiling : IsTiling s b) (pos : 0 < b.size p)
    (free : b.cinuse p ≡ 0) (tagged : IsTakenIn s s' b p) where
  abbrev e : Ptr
  e = p + b.size p

  its_chunk : IsChunk s b p
  its_chunk = tiling.each p pos

  behind : (0 < b.size e) × (b.pinuse e ≡ 0) × (b.cinuse e ≡ 1)
  behind = elim its_chunk.next [
    | inl last ↦ absurd (omega (arith, last.1, free))
    | inr next ↦ (next.0, next.1 ∙ free, (its_chunk.between free).0)
  ]

  cinuse_own : (taken b p).cinuse p ≡ 1
  cinuse_own = ground arith

  cinuse_other : (x : Ptr) → x ≢ p → (taken b p).cinuse x ≡ b.cinuse x
  cinuse_other x ne = ground arith

  pinuse_behind : (taken b p).pinuse e ≡ 1
  pinuse_behind = ground arith

  pinuse_other : (x : Ptr) → x ≢ e → (taken b p).pinuse x ≡ b.pinuse x
  pinuse_other x ne = ground arith

  e_ne : e ≢ p
  e_ne z = omega (arith, z, pos)

  own-IsChunk : IsChunk s' (taken b p) p
  own-IsChunk =
      let before = (its_chunk.between free).1 in
      let flag = pinuse_other p (λ z. e_ne (sym z)) ∙ before in
      record {
        low = its_chunk.low;
        high = rw tagged.top its_chunk.high;
        least = its_chunk.least;
        words = its_chunk.words;
        cflag = omega (arith, cinuse_own);
        pflag = omega (arith, flag);
        head = omega (arith, tagged.head, cinuse_own, flag);
        next = inr (behind.0, pinuse_behind ∙ sym cinuse_own);
        foot = λ z. absurd (omega (arith, z, cinuse_own));
        between = λ z. absurd (omega (arith, z, cinuse_own));
        back = λ z. absurd (omega (arith, z, flag));
      }

  module _ (x : Ptr) (ne : x ≢ p) (there : 0 < b.size x) where
    chunk : IsChunk s b x
    chunk = tiling.each x there

    same_cinuse : (taken b p).cinuse x ≡ b.cinuse x
    same_cinuse = cinuse_other x ne

    -- No other chunk ends where this one does.
    not_end : x + b.size x ≢ e
    not_end z = omega (arith, z, tiling.apart x p there pos, ne, chunk.least, its_chunk.least)

    other_head : s'.mem (x + head_at) ≡ b.size x + 2 * (taken b p).cinuse x + (taken b p).pinuse x
    other_head = elim (Bool-cases (x == e)) [
      | inl z ↦
          let is : x ≡ e = ground (arith, z) in
          rw is (omega (arith, tagged.next_head, cinuse_other e e_ne, behind.2, pinuse_behind))
      | inr z ↦
          let not_e : x ≢ e = ground (arith, z) in
          rw (same_cinuse, pinuse_other x not_e)
            (tagged.others (x + head_at) (λ q. ne (omega (arith, q)))
                (λ q. not_e (omega (arith, q)))
              ∙ chunk.head)
    ]

    module _ (is_free : b.cinuse x ≡ 0) where
      next_there : (0 < b.size (x + b.size x)) × (b.cinuse (x + b.size x) ≡ 1)
      next_there = elim chunk.next [
        | inl last ↦ absurd (omega (arith, last.1, is_free))
        | inr next ↦ (next.0, (chunk.between is_free).0)
      ]

      other_foot : s'.mem (x + b.size x + prev_foot_at) ≡ b.size x
      other_foot =
          let y = x + b.size x in
          let least = (tiling.each y next_there.0).least in
          let far = tiling.apart y p next_there.0 pos in
          let far' = tiling.apart y e next_there.0 behind.0 in
          let least' = (tiling.each e behind.0).least in
          tagged.others (y + prev_foot_at) (λ z. omega (arith, z, far, least, its_chunk.least))
            (λ z. omega (arith, z, far', least, least'))
          ∙ chunk.foot is_free

      other_between : ((taken b p).cinuse (x + b.size x) ≡ 1) × ((taken b p).pinuse x ≡ 1)
      other_between = (
        cinuse_other (x + b.size x) (λ z. omega (arith, ap b.cinuse z, next_there.1, free))
            ∙ next_there.1,
        pinuse_other x (λ z. omega (arith, ap b.cinuse z, is_free, behind.2))
            ∙ (chunk.between is_free).1,
      )

    other_back :
        (taken b p).pinuse x ≡ 0
        → (q : Ptr) × (0 < b.size q) × (q + b.size q ≡ x) × ((taken b p).cinuse q ≡ 0)
    other_back flag = elim (Bool-cases (x == e)) [
      | inl z ↦
          let is : x ≡ e = ground (arith, z) in
          absurd (omega (arith, ap (taken b p).pinuse is, pinuse_behind, flag))
      | inr z ↦
          let not_e : x ≢ e = ground (arith, z) in
          let (q, q_pos, meets, q_free) = chunk.back (sym (pinuse_other x not_e) ∙ flag) in
          let q_ne : q ≢ p = λ is. not_e (sym meets ∙ ap (λ v. v + b.size v) is) in
          (q, q_pos, meets, cinuse_other q q_ne ∙ q_free)
    ]

    other-IsChunk : IsChunk s' (taken b p) x
    other-IsChunk = record {
      low = chunk.low;
      high = rw tagged.top chunk.high;
      least = chunk.least;
      words = chunk.words;
      cflag = rw same_cinuse chunk.cflag;
      pflag = elim (Bool-cases (x == e)) [
        | inl z ↦
            let is : x ≡ e = ground (arith, z) in
            omega (arith, ap (taken b p).pinuse is, pinuse_behind)
        | inr z ↦ rw (pinuse_other x (ground (arith, z))) chunk.pflag
      ];
      head = other_head;
      next =
          rw (tagged.top, same_cinuse)
            (elim chunk.next [
              | inl last ↦ inl last
              | inr next ↦ inr (next.0, pinuse_other (x + b.size x) not_end ∙ next.1)
            ]);
      foot = λ z. other_foot (sym same_cinuse ∙ z);
      between = λ z. other_between (sym same_cinuse ∙ z);
      back = other_back;
    }

  pub taken-IsTiling : IsTiling s' (taken b p)
  taken-IsTiling = record {
    room = rw tagged.topsize tiling.room;
    least_pos = rw tagged.least_addr tiling.least_pos;
    least = rw tagged.least_addr tiling.least;
    below = rw tagged.top tiling.below;
    limit = rw (tagged.top, tagged.topsize) tiling.limit;
    place = rw (tagged.top, tagged.topsize, tagged.gm) tiling.place;
    words = rw tagged.topsize tiling.words;
    top_head =
        let last = tiling.each e behind.0 in
        rw (tagged.top, tagged.topsize)
          (tagged.others (s.top + head_at) (λ z. omega (arith, z, its_chunk.high, pos))
              (λ z. omega (arith, z, last.high, last.least))
            ∙ tiling.top_head);
    each = λ x there. elim (Bool-cases (x == p)) [
      | inl z ↦ let is : x ≡ p = ground (arith, z) in rw is own-IsChunk
      | inr z ↦ other-IsChunk x (ground (arith, z)) there
    ];
    apart = tiling.apart;
  }
