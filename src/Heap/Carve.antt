-- ===== src/Heap/Carve.antt =====
-- A free chunk is split: its front is used, the rest is a free chunk.
use unimem.Base.{
  ℕ, ◌+◌, ◌*◌, ◌%◌, ◌≤◌, ◌<◌, ◌≡◌, ◌≢◌, sym, ap, ◌∙◌, arith, ◌⊎◌, inl, inr, Bool-cases, ◌==◌,
  if◌then◌else◌,
}
use unimem.Machine.{Ptr, State}
use unimem.Chunk.{head_at, prev_foot_at}
use unimem.Heap.{Blocks, IsTiling, IsChunk, IsFollowed, SameOrDisjoint}

-- The view `b` with the front of `p`, of the size `n`, used, and the rest, of the size `r`, free.
abbrev pub carved : Blocks → Ptr → ℕ → ℕ → Blocks
carved b p n r = record b {
  size = λ x. if x == p then n else if x == p + n then r else b.size x;
  cinuse = λ x. if x == p then 1 else if x == p + n then 0 else b.cinuse x;
  pinuse = λ x. if x == p + n then 1 else b.pinuse x;
}

-- The headers and the footer of the two parts are written, and no other tag has changed.
pub record IsCarvedIn (s s' : State) (p : Ptr) (n r : ℕ) : Type 0 where
  pub gm : s'.gm ≡ s.gm
  pub top : s'.top ≡ s.top
  pub topsize : s'.topsize ≡ s.topsize
  pub least_addr : s'.least_addr ≡ s.least_addr
  pub head : s'.mem (p + head_at) ≡ n + 3
  pub rest_head : s'.mem (p + n + head_at) ≡ r + 1
  pub rest_foot : s'.mem (p + n + r + prev_foot_at) ≡ r
  pub others :
      (w : Ptr)
      → w ≢ p + head_at
      → w ≢ p + n + head_at
      → w ≢ p + n + r + prev_foot_at
      → s'.mem w ≡ s.mem w

-- The two parts make up the free chunk `p`.
pub record IsCut (b : Blocks) (p n r : ℕ) : Type 0 where
  pub pos : 0 < b.size p
  pub free : b.cinuse p ≡ 0
  pub sum : n + r ≡ b.size p
  pub front : 32 ≤ n
  pub rest : 32 ≤ r
  pub words : n % 8 ≡ 0

module _ (s s' : State) (b : Blocks) (p n r : ℕ) (tiling : IsTiling s b) (cut : IsCut b p n r)
    (tagged : IsCarvedIn s s' p n r) where
  abbrev view : Blocks
  view = carved b p n r

  its_chunk : IsChunk s b p
  its_chunk = tiling.each p cut.pos

  front_view : (view.size p ≡ n) × (view.cinuse p ≡ 1)
  front_view = (ground arith, ground arith)

  rest_view : (view.size (p + n) ≡ r) × (view.cinuse (p + n) ≡ 0) × (view.pinuse (p + n) ≡ 1)
  rest_view = (ground (arith, cut.front), ground (arith, cut.front), ground arith)

  size_other : (x : Ptr) → x ≢ p → x ≢ p + n → view.size x ≡ b.size x
  size_other x np nr = ground arith

  cinuse_other : (x : Ptr) → x ≢ p → x ≢ p + n → view.cinuse x ≡ b.cinuse x
  cinuse_other x np nr = ground arith

  pinuse_other : (x : Ptr) → x ≢ p + n → view.pinuse x ≡ b.pinuse x
  pinuse_other x nr = ground arith

  same_end : p + n + r ≡ p + b.size p
  same_end = omega (arith, cut.sum)

  behind : (0 < b.size (p + n + r)) × (b.pinuse (p + n + r) ≡ 0) × (b.cinuse (p + n + r) ≡ 1)
  behind = rw same_end (elim its_chunk.next [
    | inl last ↦ absurd (omega (arith, last.1, cut.free))
    | inr next ↦ (next.0, next.1 ∙ cut.free, (its_chunk.between cut.free).0)
  ])

  -- A chunk does not start inside of another one.
  not_rest : (x : Ptr) → 0 < b.size x → x ≢ p + n
  not_rest x there z = omega (
    arith,
    z,
    tiling.apart x p there cut.pos,
    (tiling.each x there).least,
    cut.front,
    cut.rest,
    cut.sum,
  )

  front-IsChunk : IsChunk s' view p
  front-IsChunk =
      let before = (its_chunk.between cut.free).1 in
      let flag = pinuse_other p (λ z. omega (arith, z, cut.front)) ∙ before in
      record {
        low = its_chunk.low;
        high = rw (tagged.top, front_view.0) (omega (arith, its_chunk.high, cut.sum));
        least = rw front_view.0 cut.front;
        words = rw front_view.0 cut.words;
        cflag = omega (arith, front_view.1);
        pflag = omega (arith, flag);
        head = omega (arith, tagged.head, front_view, flag);
        next =
            rw front_view.0
              (inr (omega (arith, rest_view.0, cut.rest), rest_view.2 ∙ sym front_view.1));
        foot = λ z. absurd (omega (arith, z, front_view.1));
        between = λ z. absurd (omega (arith, z, front_view.1));
        back = λ z. absurd (omega (arith, z, flag));
      }

  rest-IsChunk : IsChunk s' view (p + n)
  rest-IsChunk =
      let np : p + n + r ≢ p = λ z. omega (arith, z, cut.front) in
      let nr : p + n + r ≢ p + n = λ z. omega (arith, z, cut.rest) in
      record {
        low = omega (arith, its_chunk.low);
        high = rw (tagged.top, rest_view.0) (omega (arith, its_chunk.high, cut.sum));
        least = rw rest_view.0 cut.rest;
        words = rw rest_view.0 (omega (arith, its_chunk.words, cut.sum, cut.words));
        cflag = omega (arith, rest_view.1);
        pflag = omega (arith, rest_view.2);
        head = omega (arith, tagged.rest_head, rest_view);
        next = rw rest_view.0 (
            inr (
              omega (arith, size_other (p + n + r) np nr, behind.0),
              pinuse_other (p + n + r) nr ∙ behind.1 ∙ sym rest_view.1,
            ));
        foot = λ z. rw rest_view.0 tagged.rest_foot;
        between = λ z. (rw rest_view.0 (cinuse_other (p + n + r) np nr ∙ behind.2), rest_view.2);
        back = λ z. absurd (omega (arith, z, rest_view.2));
      }

  module _ (x : Ptr) (ne : x ≢ p) (there : 0 < b.size x) where
    chunk : IsChunk s b x
    chunk = tiling.each x there

    same_size : view.size x ≡ b.size x
    same_size = size_other x ne (not_rest x there)

    same_cinuse : view.cinuse x ≡ b.cinuse x
    same_cinuse = cinuse_other x ne (not_rest x there)

    same_pinuse : view.pinuse x ≡ b.pinuse x
    same_pinuse = pinuse_other x (not_rest x there)

    far : (x + b.size x ≤ p) ⊎ (p + n + r ≤ x)
    far = omega (arith, tiling.apart x p there cut.pos, ne, cut.sum, chunk.least, its_chunk.least)

    other-IsFollowed : IsFollowed s' view x
    other-IsFollowed =
        rw (tagged.top, same_size, same_cinuse)
          (elim chunk.next [
            | inl last ↦ inl last
            | inr next ↦
                let nr = not_rest (x + b.size x) next.0 in
                inr (
                  (elim (Bool-cases (x + b.size x == p)) [
                    | inl z ↦
                        let is : x + b.size x ≡ p = ground (arith, z) in
                        rw is (omega (arith, front_view.0, cut.front))
                    | inr z ↦
                        omega (arith, size_other (x + b.size x) (ground (arith, z)) nr, next.0)
                  ]),
                  pinuse_other (x + b.size x) nr ∙ next.1,
                )
          ])

    other_head : s'.mem (x + head_at) ≡ view.size x + 2 * view.cinuse x + view.pinuse x
    other_head =
        rw (same_size, same_cinuse, same_pinuse)
          (tagged.others (x + head_at) (λ z. ne (omega (arith, z)))
              (λ z. omega (arith, z, far, chunk.least, cut.front))
              (λ z. omega (arith, z, far, chunk.least, cut.front, cut.rest))
            ∙ chunk.head)

    module _ (is_free : b.cinuse x ≡ 0) where
      next_there : (0 < b.size (x + b.size x)) × (b.cinuse (x + b.size x) ≡ 1)
      next_there = elim chunk.next [
        | inl last ↦ absurd (omega (arith, last.1, is_free))
        | inr next ↦ (next.0, (chunk.between is_free).0)
      ]

      not_p : x + b.size x ≢ p
      not_p z = omega (arith, ap b.cinuse z, next_there.1, cut.free)

      other_foot : s'.mem (x + b.size x + prev_foot_at) ≡ b.size x
      other_foot =
          let y = x + b.size x in
          tagged.others (y + prev_foot_at) (λ z. omega (arith, z, far, chunk.least, cut.rest))
            (λ z. omega (arith, z, far, chunk.least, cut.rest))
            (λ z. omega (arith, z, far, chunk.least, cut.rest, cut.front))
          ∙ chunk.foot is_free

      other_between : (view.cinuse (x + b.size x) ≡ 1) × (view.pinuse x ≡ 1)
      other_between = (
        cinuse_other (x + b.size x) not_p (not_rest (x + b.size x) next_there.0) ∙ next_there.1,
        same_pinuse ∙ (chunk.between is_free).1,
      )

    other_back :
        b.pinuse x ≡ 0 → (q : Ptr) × (0 < view.size q) × (q + view.size q ≡ x) × (view.cinuse q ≡ 0)
    other_back flag =
        let (q, q_pos, meets, q_free) = chunk.back flag in
        elim (Bool-cases (q == p)) [
          | inl z ↦
              let is : q ≡ p = ground (arith, z) in
              let ends : p + b.size p ≡ x = rw is at meets in
              (
                p + n,
                omega (arith, rest_view.0, cut.rest),
                omega (arith, rest_view.0, ends, cut.sum),
                rest_view.1,
              )
          | inr z ↦
              let q_ne : q ≢ p = ground (arith, z) in
              let nr = not_rest q q_pos in
              let size = size_other q q_ne nr in
              (
                q,
                omega (arith, size, q_pos),
                omega (arith, size, meets),
                cinuse_other q q_ne nr ∙ q_free,
              )
        ]

    other-IsChunk : IsChunk s' view x
    other-IsChunk = record {
      low = chunk.low;
      high = rw (tagged.top, same_size) chunk.high;
      least = rw same_size chunk.least;
      words = rw same_size chunk.words;
      cflag = rw same_cinuse chunk.cflag;
      pflag = rw same_pinuse chunk.pflag;
      head = other_head;
      next = other-IsFollowed;
      foot = λ z. rw same_size (other_foot (sym same_cinuse ∙ z));
      between = λ z. rw same_size (other_between (sym same_cinuse ∙ z));
      back = λ z. other_back (sym same_pinuse ∙ z);
    }

  -- A chunk of the view is one of the two parts, or another one.
  pub carved-cases :
      (x : Ptr)
      → 0 < view.size x
      → (x ≡ p)
        ⊎ (x ≡ p + n)
        ⊎ ((x ≢ p)
            × (0 < b.size x)
            × (view.size x ≡ b.size x)
            × ((x + b.size x ≤ p) ⊎ (p + n + r ≤ x)))
  carved-cases x there = elim (Bool-cases (x == p)) [
    | inl z ↦ inl (ground (arith, z))
    | inr z ↦ elim (Bool-cases (x == p + n)) [
      | inl z' ↦ inr (inl (ground (arith, z')))
      | inr z' ↦
          let np : x ≢ p = ground (arith, z) in
          let same = size_other x np (ground (arith, z')) in
          let old : 0 < b.size x = omega (arith, same, there) in
          inr (inr (np, old, same, far x np old))
    ]
  ]

  carved-apart : (x y : Ptr) → 0 < view.size x → 0 < view.size y → SameOrDisjoint view x y
  carved-apart x y px py = elim (carved-cases x px) [
    | inl e ↦ elim (carved-cases y py) [
      | inl e' ↦ inl (e ∙ sym e')
      | inr (inl e') ↦ rw (e, e', front_view.0) (inr (inl (omega arith)))
      | inr (inr o') ↦ rw (e, front_view.0, o'.2) (omega (arith, o'.3))
    ]
    | inr (inl e) ↦ elim (carved-cases y py) [
      | inl e' ↦ rw (e, e', front_view.0) (inr (inr (omega arith)))
      | inr (inl e') ↦ inl (e ∙ sym e')
      | inr (inr o') ↦ rw (e, rest_view.0, o'.2) (omega (arith, o'.3))
    ]
    | inr (inr o) ↦ elim (carved-cases y py) [
      | inl e' ↦ rw (e', front_view.0, o.2) (omega (arith, o.3))
      | inr (inl e') ↦ rw (e', rest_view.0, o.2) (omega (arith, o.3))
      | inr (inr o') ↦ rw (o.2, o'.2) (tiling.apart x y o.1 o'.1)
    ]
  ]

  pub carved-IsTiling : IsTiling s' view
  carved-IsTiling = record {
    room = rw tagged.topsize tiling.room;
    least_pos = rw tagged.least_addr tiling.least_pos;
    least = rw tagged.least_addr tiling.least;
    below = rw tagged.top tiling.below;
    limit = rw (tagged.top, tagged.topsize) tiling.limit;
    place = rw (tagged.top, tagged.topsize, tagged.gm) tiling.place;
    words = rw tagged.topsize tiling.words;
    top_head =
        rw (tagged.top, tagged.topsize)
          (tagged.others (s.top + head_at) (λ z. omega (arith, z, its_chunk.high, cut.pos))
              (λ z. omega (arith, z, its_chunk.high, cut.sum, cut.rest))
              (λ z. omega (arith, z, its_chunk.high, cut.sum))
            ∙ tiling.top_head);
    each = λ x there. elim (carved-cases x there) [
      | inl e ↦ rw e front-IsChunk
      | inr (inl e) ↦ rw e rest-IsChunk
      | inr (inr old) ↦ other-IsChunk x old.0 old.1
    ];
    apart = carved-apart;
  }
