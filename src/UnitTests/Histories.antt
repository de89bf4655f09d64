-- ===== src/UnitTests/Histories.antt =====
-- The sketches of a test, which get the same elements.
use hyperlogloglog.Base.{
  ℕ, ◌^◌, ◌≤◌, ◌<◌, ◌≡◌, sym, subst, ap, ap₂, ◌∙◌, arith, List, [], ◌∷◌, Bool, true,
}
use hyperlogloglog.Common.{rho, log2i, fibonacci_hash}
use hyperlogloglog.Common.Log.{log2i-pow}
use hyperlogloglog.Registers.{Stream, max_rank}
use hyperlogloglog.Estimate.{Floats, estimate_list}
use hyperlogloglog.HyperLogLog
use hyperlogloglog.HyperLogLog.{HyperLogLog}
use hyperlogloglog.HyperLogLog.Estimate as VanillaEstimate
use hyperlogloglog.HyperLogLogLog.State.{HyperLogLogLog}
use hyperlogloglog.HyperLogLogLog.Update.{add, add_jr, add_hash, export_registers}
use hyperlogloglog.HyperLogLogLog.Estimate.{estimate, estimate-export_registers}
use hyperlogloglog.HyperLogLogLog.Streams.{
  export_registers_agree, length-export_registers, get_or-export_registers,
}
use hyperlogloglog.Base.Tables.{tabulate, eq-tabulate}
use hyperlogloglog.HyperLogLog.Export as Export
use hyperlogloglog.HyperLogLogLog.History.{History, added}
use hyperlogloglog.HyperLogLogLog.History.Reached.{IsReached, History-IsReached}
use hyperlogloglog.HyperLogLogLog.History.Sizes.{History-new}
use hyperlogloglog.UnitTests.{equals, equals_refl}
use hyperlogloglog.Measure.Represent.{HasRegisters, add_jr-HasRegisters, new-HasRegisters}
use hyperlogloglog.Measure.Hashed.{IsUsable, rho-lt, hash-lt}

-- A HyperLogLog that holds the pairs of `s`.
abbrev pub Holds : ℕ → HyperLogLog → Stream → Type 0
Holds m g s = HasRegisters m (max_rank s) g

pub new-Holds : (m : ℕ) → m < 2 ^ 31 → Holds m (HyperLogLog.new m) []
unfolding max_rank
new-Holds m small = new-HasRegisters m small

pub add_jr-Holds :
    {m : ℕ} {g : HyperLogLog} (s : Stream) (j r : ℕ)
    → Holds m g s
    → j < m
    → r < 64
    → Holds m (HyperLogLog.add_jr g j r) ((j, r) ∷ s)
unfolding max_rank
add_jr-Holds {m} {g} s j r holds hj hr = add_jr-HasRegisters m j r (max_rank s) g holds hj hr

-- The pair of an index and a rank that `add` makes of a hash.
abbrev pub pair_of : ℕ → ℕ → ℕ × ℕ
pair_of m x = (fibonacci_hash x (log2i m), rho x)

module _ (k : ℕ) (pos : 0 < k) (le : k ≤ 64) {A : Type 0} (hash : A → ℕ) (x : A)
    (usable : IsUsable (hash x)) where
  pub add-Holds :
      {g : HyperLogLog} (s : Stream)
      → Holds (2 ^ k) g s
      → Holds (2 ^ k) (HyperLogLog.add g x hash fibonacci_hash) (pair_of (2 ^ k) (hash x) ∷ s)
  unfolding HyperLogLog.add HyperLogLog.add_hash
  add-Holds {g} s holds =
      let r = rho (hash x) in
      subst
        (λ l.
          Holds (2 ^ k) (HyperLogLog.add_jr g (fibonacci_hash (hash x) l) r)
            ((pair_of (2 ^ k) (hash x)) ∷ s))
        (sym holds.log_m)
        (add_jr-Holds s (fibonacci_hash (hash x) (log2i (2 ^ k))) r holds
          (hash-lt (hash x) k pos le) (rho-lt (hash x) usable))

  pub add-History :
      {m_bits flags : ℕ} {h : HyperLogLogLog} {s : Stream}
      → 2 ^ k ≤ 2 ^ 30
      → 0 < m_bits
      → m_bits ≤ 8
      → History (2 ^ k) m_bits flags h s
      → History (2 ^ k) m_bits flags (add h x hash fibonacci_hash) (pair_of (2 ^ k) (hash x) ∷ s)
  unfolding add add_hash
  add-History {m_bits} {flags} {h} {s} small some_bits bits history =
      let (h₀, made) = History-new history in
      let reached = History-IsReached (2 ^ k) m_bits flags small some_bits bits made history in
      let log : h.log_m ≡ log2i (2 ^ k) =
        sym (log2i-pow h.log_m) ∙ ap log2i (sym reached.valid.shape.power ∙ reached.size) in
      let r = rho (hash x) in
      subst
        (λ l.
          History (2 ^ k) m_bits flags (add_jr h (fibonacci_hash (hash x) l) r)
            ((pair_of (2 ^ k) (hash x)) ∷ s))
        (sym log)
        (added (fibonacci_hash (hash x) (log2i (2 ^ k))) r history (hash-lt (hash x) k pos le)
          (rho-lt (hash x) usable))

-- The estimate of the greatest ranks that a stream has at `m` indices.
abbrev pub estimate_of {ℓ} : {F : Type ℓ} → Floats F → ℕ → Stream → F
estimate_of d m s = estimate_list d m (tabulate (max_rank s) m)

-- That estimate is equal to itself, so no NaN.
abbrev pub IsNumber {ℓ} : {F : Type ℓ} → Floats F → (F → F → Bool) → ℕ → Stream → Type 0
IsNumber d eq m s = eq (estimate_of d m s) (estimate_of d m s) ≡ true

-- After each draw the estimate is no NaN.
abbrev pub AreNumbers {ℓ} :
    {F : Type ℓ}
    → Floats F
    → (F → F → Bool)
    → ℕ
    → {A : Type 0} → (A → ℕ × ℕ)
    → List A
    → Stream
    → Type 0
AreNumbers d eq m pair [] s = Unit {0}
AreNumbers d eq m pair (x ∷ xs) s =
    IsNumber d eq m (pair x ∷ s) × AreNumbers d eq m pair xs (pair x ∷ s)

-- What the vanilla sketch exports is the table of the greatest ranks.
pub exported :
    {m : ℕ} {g : HyperLogLog} (s : Stream)
    → Holds m g s
    → HyperLogLog.export_registers g ≡ tabulate (max_rank s) m
exported {m} {g} s holds =
    eq-tabulate (HyperLogLog.export_registers g) (max_rank s) m
      (Export.length-export_registers g ∙ holds.size)
      (λ j p.
        Export.get_or-export_registers j holds.valid (omega (arith, holds.size, p))
        ∙ holds.values j p)

pub estimate-Holds {ℓ} :
    {F : Type ℓ} (d : Floats F) {m : ℕ} {g : HyperLogLog} (s : Stream)
    → Holds m g s
    → VanillaEstimate.estimate d g ≡ estimate_of d m s
estimate-Holds d s holds =
    VanillaEstimate.estimate-export_registers d holds.valid
    ∙ ap₂ (estimate_list d) holds.size (exported s holds)

module _ (m m_bits flags : ℕ) (small : m ≤ 2 ^ 30) (pos : 0 < m_bits) (le : m_bits ≤ 8) where
  pub estimate-History {ℓ} :
      {F : Type ℓ} (d : Floats F) {h : HyperLogLogLog} {s : Stream}
      → History m m_bits flags h s
      → estimate d h ≡ estimate_of d m s
  estimate-History d {h} {s} history =
      let r = History-IsReached m m_bits flags small pos le (History-new history).1 history in
      estimate-export_registers d r.valid
      ∙ ap₂ (estimate_list d) r.size (
          eq-tabulate (export_registers h) (max_rank s) m (length-export_registers h ∙ r.size)
            (λ j p. get_or-export_registers j r.valid (omega (arith, r.size, p)) ∙ r.registers j p))

-- Sketches of the same pairs export the same registers, and have equal estimates.
module _ (m m_bits flags : ℕ) (small : m ≤ 2 ^ 30) (pos : 0 < m_bits) (le : m_bits ≤ 8)
    {h : HyperLogLogLog} {g : HyperLogLog} {s : Stream} (history : History m m_bits flags h s)
    (holds : Holds m g s) where
  pub reached : IsReached m (History-new history).0 h s
  reached = History-IsReached m m_bits flags small pos le (History-new history).1 history

  pub registers_agree : export_registers h ≡ HyperLogLog.export_registers g
  registers_agree =
      export_registers_agree reached.valid holds.valid (reached.size ∙ sym holds.size)
        (λ j p. ground (arith, reached.size, reached.registers j, holds.values j))

  pub equals_agree : equals (export_registers h) (HyperLogLog.export_registers g) ≡ true
  equals_agree =
      ap (λ rs. equals rs (HyperLogLog.export_registers g)) registers_agree
      ∙ equals_refl (HyperLogLog.export_registers g)

  -- Unless the estimate is a NaN, the two are equal.
  pub eq_agree {ℓ} :
      {F : Type ℓ} (d : Floats F) (eq : F → F → Bool)
      → IsNumber d eq m s
      → eq (estimate d h) (VanillaEstimate.estimate d g) ≡ true
  eq_agree d eq number =
      ap₂ eq (estimate-History m m_bits flags small pos le d history) (estimate-Holds d s holds)
      ∙ number
