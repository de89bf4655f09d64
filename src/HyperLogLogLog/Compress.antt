-- ===== src/HyperLogLogLog/Compress.antt =====
-- The three compressions, which choose a base and rebase.
use hyperlogloglog.Base.{ℕ, zero, suc, ◌+◌, ◌%◌, ◌^◌, ◌&&◌, ◌||◌, ltb, ◌==◌, if◌then◌else◌}
use hyperlogloglog.PackedMap
use hyperlogloglog.PackedMap.{PackedMap}
use hyperlogloglog.HyperLogLogLog.State.{HyperLogLogLog, type_full, type_increase, bottom, has}
use hyperlogloglog.HyperLogLogLog.Registers.{rebase, iterate}

-- The smallest register and the next one, as `compressFull` seeks them.
pub record Bases : Type 0 where
  pub potential : ℕ
  pub next : ℕ

unfoldable pub lowest_two : ℕ → ℕ → Bases → Bases
lowest_two j r b =
    if ltb r b.potential
    then record { potential = r % 2 ^ 8; next = b.potential }
    else if ltb r b.next
    then record b { next = r % 2 ^ 8 }
    else b

-- The variables of the second loop of `compressFull` that an `iterate` changes: the exceptions
-- and the registers at the potential base, and the next potential base.
pub record Count : Type 0 where
  pub ns : ℕ
  pub below : ℕ
  pub next : ℕ

unfoldable pub count_base : HyperLogLogLog → ℕ → ℕ → ℕ → Count → Count
count_base h potential j r c = record {
  ns = if ltb r potential || ltb (potential + h.max_offset) r then c.ns + 1 else c.ns;
  below = if r == potential then c.below + 1 else c.below;
  next = if ltb potential r && ltb r c.next then r % 2 ^ 8 else c.next;
}

-- The loop over the potential bases: at most 65 of them, as they ascend to 64.
unfoldable pub search_base : ℕ → HyperLogLogLog → ℕ → ℕ → ℕ → ℕ → ℕ
search_base zero h potential below best_ns best = best
search_base (suc fuel) h potential below best_ns best =
    let c =
      iterate (count_base h potential) h (record { ns = 0; below = below; next = 2 ^ h.s_bits }) in
    let better = ltb c.ns best_ns in
    let rest =
      search_base fuel h c.next c.below (if better then c.ns else best_ns)
        (if better then potential else best) in
    if ltb below best_ns && ltb potential (2 ^ h.s_bits) then rest else best

unfoldable pub compress_full : HyperLogLogLog → HyperLogLogLog
compress_full h =
    let top = 2 ^ h.s_bits % 2 ^ 8 in
    let low = iterate lowest_two h (record { potential = top; next = top }) in
    let h' = record h { lower_bound = low.potential } in
    let best = search_base 65 h' low.potential 0 (PackedMap.size h.sparse) h.base in
    if best == h.base then h' else rebase h' best

-- The least register above the base, and the least register.
unfoldable pub raise_base : ℕ → ℕ → ℕ → Bases → Bases
raise_base base j r b = record {
  potential = if ltb base r && ltb r b.potential then r % 2 ^ 8 else b.potential;
  next = if ltb r b.next then r % 2 ^ 8 else b.next;
}

unfoldable pub compress_increase : HyperLogLogLog → HyperLogLogLog
compress_increase h =
    let top = 2 ^ h.s_bits % 2 ^ 8 in
    let b = iterate (raise_base h.base) h (record { potential = top; next = top }) in
    let h' = record h { lower_bound = b.next } in
    let ns =
      iterate
        (λ j r n. n + (if ltb r b.potential || ltb (b.potential + h.max_offset) r then 1 else 0)) h'
        0 in
    if ltb ns (PackedMap.size h.sparse) then rebase h' b.potential else h'

unfoldable pub compress_bottom : HyperLogLogLog → HyperLogLogLog
compress_bottom h =
    let low = iterate (λ j r l. if ltb r l then r % 2 ^ 8 else l) h (2 ^ h.s_bits % 2 ^ 8) in
    let count = iterate (λ j r n. if r == low then (n + 1) % 2 ^ 32 else n) h 0 in
    let h' = record h { lower_bound = low; min_value_count = count } in
    if ltb h.base low then rebase h' low else h'

-- The assertion behind the last test cannot fail with the flags that the constructor accepts.
unfoldable pub compress : HyperLogLogLog → HyperLogLogLog
compress h =
    let h' =
      if has h.flags type_full
      then compress_full h
      else if has h.flags type_increase
      then compress_increase h
      else if h.flags == bottom
      then compress_bottom h
      else h in
    record h' { compress_count = (h'.compress_count + 1) % 2 ^ 32 }
