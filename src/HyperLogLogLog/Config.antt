-- ===== src/HyperLogLogLog/Config.antt =====
-- What a sketch is set up with: no operation changes it, and the constructor accepts it again.
use hyperlogloglog.Base.{
  ℕ, zero, suc, ◌+◌, ◌-◌, ◌%◌, ◌^◌, ◌≡◌, refl, ◌∙◌, arith, Bool, true, false, ◌&&◌, ◌||◌, Option,
  [], ◌∷◌, ltb, leb, ◌==◌, if◌then◌else◌,
}
use hyperlogloglog.Registers.{Stream}
use hyperlogloglog.PackedMap
use hyperlogloglog.HyperLogLogLog.State.{
  HyperLogLogLog, has, type_full, type_increase, when_always, when_append, bottom,
}
use hyperlogloglog.HyperLogLogLog.Registers.{place, rebase_from, rebase, value_at, iterate}
use hyperlogloglog.HyperLogLogLog.Compress.{
  Bases, lowest_two, search_base, raise_base, compress, compress_full, compress_increase,
  compress_bottom,
}
use hyperlogloglog.HyperLogLogLog.Update.{update, add_jr, is_size_increased}
use hyperlogloglog.HyperLogLogLog.Streams.{adds}

pub record SameConfig (h h' : HyperLogLogLog) : Type 0 where
  pub m_bits : h'.m_bits ≡ h.m_bits
  pub s_bits : h'.s_bits ≡ h.s_bits
  pub flags : h'.flags ≡ h.flags

pub SameConfig-trans : {u v w : HyperLogLogLog} → SameConfig u v → SameConfig v w → SameConfig u w
SameConfig-trans s t = record {
  m_bits = t.m_bits ∙ s.m_bits;
  s_bits = t.s_bits ∙ s.s_bits;
  flags = t.flags ∙ s.flags;
}

pub place-SameConfig :
    (h : HyperLogLogLog) (base : ℕ) (idx : Option ℕ) (j r : ℕ) → SameConfig h (place h base idx j r)
unfolding place
place-SameConfig h base idx j r = record {
  m_bits = ground arith;
  s_bits = ground arith;
  flags = ground arith;
}

rebase_from-SameConfig :
    (new_base rounds i : ℕ) (h : HyperLogLogLog) → SameConfig h (rebase_from new_base rounds i h)
unfolding rebase_from
rebase_from-SameConfig new_base zero i h = record { m_bits = refl; s_bits = refl; flags = refl }
rebase_from-SameConfig new_base (suc rounds) i h =
    SameConfig-trans (place-SameConfig h new_base _ i _)
      (rebase_from-SameConfig new_base rounds (i + 1) _)

rebase-SameConfig : (h : HyperLogLogLog) (new_base : ℕ) → SameConfig h (rebase h new_base)
unfolding rebase
rebase-SameConfig h new_base =
    let moved = rebase_from-SameConfig new_base h.m 0 h in
    record { m_bits = moved.m_bits; s_bits = moved.s_bits; flags = moved.flags }

-- A sketch that is rebased where a test says so.
choice-SameConfig :
    {h h₁ h₂ : HyperLogLogLog} (test : Bool)
    → SameConfig h h₁
    → SameConfig h h₂
    → SameConfig h (if test then h₁ else h₂)
choice-SameConfig true s t = s
choice-SameConfig false s t = t

compress_full-SameConfig : (h : HyperLogLogLog) → SameConfig h (compress_full h)
unfolding compress_full
compress_full-SameConfig h =
    let top = 2 ^ h.s_bits % 2 ^ 8 in
    let low : Bases = iterate lowest_two h (record { potential = top; next = top }) in
    let h' : HyperLogLogLog = record h { lower_bound = low.potential } in
    let best = search_base 65 h' low.potential 0 (PackedMap.size h.sparse) h.base in
    let moved = rebase-SameConfig h' best in
    choice-SameConfig {h₁ = h'} {h₂ = rebase h' best} (best == h.base)
      (record { m_bits = refl; s_bits = refl; flags = refl })
      (record { m_bits = moved.m_bits; s_bits = moved.s_bits; flags = moved.flags })

compress_increase-SameConfig : (h : HyperLogLogLog) → SameConfig h (compress_increase h)
unfolding compress_increase
compress_increase-SameConfig h =
    let top = 2 ^ h.s_bits % 2 ^ 8 in
    let b : Bases = iterate (raise_base h.base) h (record { potential = top; next = top }) in
    let h' : HyperLogLogLog = record h { lower_bound = b.next } in
    let ns =
      iterate
        (λ j r n. n + (if ltb r b.potential || ltb (b.potential + h.max_offset) r then 1 else 0)) h'
        0 in
    let moved = rebase-SameConfig h' b.potential in
    choice-SameConfig {h₁ = rebase h' b.potential} {h₂ = h'} (ltb ns (PackedMap.size h.sparse))
      (record { m_bits = moved.m_bits; s_bits = moved.s_bits; flags = moved.flags })
      (record { m_bits = refl; s_bits = refl; flags = refl })

compress_bottom-SameConfig : (h : HyperLogLogLog) → SameConfig h (compress_bottom h)
unfolding compress_bottom
compress_bottom-SameConfig h =
    let low = iterate (λ j r l. if ltb r l then r % 2 ^ 8 else l) h (2 ^ h.s_bits % 2 ^ 8) in
    let count = iterate (λ j r n. if r == low then (n + 1) % 2 ^ 32 else n) h 0 in
    let h' : HyperLogLogLog = record h { lower_bound = low; min_value_count = count } in
    let moved = rebase-SameConfig h' low in
    choice-SameConfig {h₁ = rebase h' low} {h₂ = h'} (ltb h.base low)
      (record { m_bits = moved.m_bits; s_bits = moved.s_bits; flags = moved.flags })
      (record { m_bits = refl; s_bits = refl; flags = refl })

pub compress-SameConfig : (h : HyperLogLogLog) → SameConfig h (compress h)
unfolding compress
compress-SameConfig h =
    let chosen = choice-SameConfig (has h.flags type_full) (compress_full-SameConfig h) (
      choice-SameConfig (has h.flags type_increase) (compress_increase-SameConfig h) (
        choice-SameConfig (h.flags == bottom) (compress_bottom-SameConfig h)
          (record { m_bits = refl; s_bits = refl; flags = refl }))) in
    record { m_bits = chosen.m_bits; s_bits = chosen.s_bits; flags = chosen.flags }

pub update-SameConfig :
    (h : HyperLogLogLog) (j r : ℕ) (idx : Option ℕ) (r0 : ℕ) → SameConfig h (update h j r idx r0)
unfolding update
update-SameConfig h j r idx r0 =
    let h' = place h h.base idx j r in
    let placed = place-SameConfig h h.base idx j r in
    choice-SameConfig
      {h₁ = record h' { min_value_count = (h'.min_value_count + (2 ^ 32 - 1)) % 2 ^ 32 }} {h₂ = h'}
      (r0 == h.lower_bound)
      (record { m_bits = placed.m_bits; s_bits = placed.s_bits; flags = placed.flags }) placed

pub add_jr-SameConfig : (h : HyperLogLogLog) (j r : ℕ) → SameConfig h (add_jr h j r)
unfolding add_jr
add_jr-SameConfig h j r =
    let idx = PackedMap.find h.sparse j in
    let r0 = value_at h h.base j in
    let updated = ltb r0 r in
    let h' = if updated then update h j r idx r0 else h in
    let increased = updated && is_size_increased h r idx in
    let same : SameConfig h h = record { m_bits = refl; s_bits = refl; flags = refl } in
    let kept : SameConfig h h' = choice-SameConfig updated (update-SameConfig h j r idx r0) same in
    choice-SameConfig (leb r h.lower_bound) same (
      choice-SameConfig
        ((updated && has h'.flags when_always)
          || (increased && has h'.flags when_append)
          || (h'.min_value_count == 0 && h'.flags == bottom))
        (SameConfig-trans kept (compress-SameConfig h')) kept)

pub adds-SameConfig : (s : Stream) (h : HyperLogLogLog) → SameConfig h (adds h s)
unfolding adds
adds-SameConfig [] h = record { m_bits = refl; s_bits = refl; flags = refl }
adds-SameConfig ((j, r) ∷ s) h =
    SameConfig-trans (add_jr-SameConfig h j r) (adds-SameConfig s (add_jr h j r))
