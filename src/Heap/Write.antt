-- ===== src/Heap/Write.antt =====
-- A client's write into a block, on the heap.
use unimem.Base.{ℕ, ◌+◌, ◌≤◌, ◌<◌, ◌≢◌, refl, ap, arith}
use unimem.Machine.{State}
use unimem.Machine.Returns.{write}
use unimem.Heap.{Blocks, Stock, IsHeap, IsTiling-frame}
use unimem.Heap.Keeping.{IsLeast, IsOff, IsStock-write}
use unimem.Heap.Released.{IsLive}

-- A write into a used chunk, behind its header and in front of the next one.
pub write-IsHeap :
    (s : State) (b : Blocks) (k : Stock) (p z a v : ℕ)
    → IsHeap s b k
    → IsLive b p z
    → p + 32 ≤ a
    → a + 8 ≤ p + z
    → IsHeap (write s a v) b k
write-IsHeap s b k p z a v heap live from to =
    let tiling = heap.0 in
    let pos : 0 < b.size p = omega (arith, live) in
    let own = tiling.each p pos in
    let least : IsLeast b = λ x there. (tiling.each x there).least in
    let off : IsOff s b 0 0 a = (
      omega (arith, tiling.place, own.low, own.high, from, to, live),
      λ x there.
          let ne : x ≢ p = λ e. omega (arith, ap b.cinuse e, there.1, live) in
          omega (arith, ne, tiling.apart x p there.0 pos, from, to, live),
    ) in
    (
      IsTiling-frame s (write s a v) b refl refl refl refl (ground (arith, own.high, to, live))
          (λ x there. ground (arith, tiling.apart x p there pos, from, to, live, least x there))
          (λ x there free.
            let ne : x ≢ p = λ e. omega (arith, ap b.cinuse e, free, live) in
            ground (arith, ne, tiling.apart x p there pos, from, to, live))
          tiling,
      IsStock-write s b k 0 0 a v off least heap.1,
    )
