-- ===== src/Datasketches/Laws.antt =====
-- What the benchmark of DataSketches measures: a sketch of the whole data, in either mode.
use mathlib.Core.List.{append_assoc, append-nil}
use hyperlogloglog.Base.{
  ℕ, ◌/◌, ◌≡◌, subst, refl, sym, some, List, [], ◌∷◌, ◌++◌, length, take, drop, take-append-drop,
}
use hyperlogloglog.Measure.{Mode, query, merge}
use hyperlogloglog.Datasketches.{
  Datum, TargetHllType, SketchType, adds, report, measure_query, measure_merge, measure,
}

-- `Holds xs s`: `s` is a sketch of the stream `xs`. The library's documented behaviour: the sizes
-- that it admits give an empty sketch, an update adds an element, and the union of the sketches of
-- two streams is a sketch of the one after the other.
pub record IsStreamSketch {ℓ} {F : Type ℓ} (t : SketchType F) : Type (ℓ ⊔ 1) where
  pub IsAdmitted : ℕ → Type 0
  pub Holds : List Datum → t.Sketch → Type 0
  pub construct-Holds :
      (log_m : ℕ) (hll_type : TargetHllType)
      → IsAdmitted log_m
      → (s : t.Sketch) × (t.construct_sketch log_m hll_type ≡ some s) × Holds [] s
  pub update-Holds :
      (xs : List Datum) (s : t.Sketch) (x : Datum)
      → Holds xs s
      → Holds (xs ++ (x ∷ [])) (t.update s x)
  pub merge-Holds :
      (log_m : ℕ) (xs ys : List Datum) (a b : t.Sketch)
      → IsAdmitted log_m
      → Holds xs a
      → Holds ys b
      → (s : t.Sketch) × (t.merge_sketches a b log_m ≡ some s) × Holds (xs ++ ys) s

module _ {ℓ} {F : Type ℓ} {t : SketchType F} (laws : IsStreamSketch t) where
  adds-Holds :
      (xs ys : List Datum) (s : t.Sketch) → laws.Holds xs s → laws.Holds (xs ++ ys) (adds t s ys)
  unfolding adds
  adds-Holds xs [] s holds = subst (λ zs. laws.Holds zs s) (sym (append-nil xs)) holds
  adds-Holds xs (y ∷ ys) s holds =
      rw (← append_assoc xs (y ∷ []) ys)
        (adds-Holds (xs ++ (y ∷ [])) ys (t.update s y) (laws.update-Holds xs s y holds))

  -- With a size that is admitted, either mode reports on a sketch of the whole data.
  pub measure-Holds :
      (mode : Mode) (items : List Datum) (log_m : ℕ) (hll_type : TargetHllType)
      → laws.IsAdmitted log_m
      → (s : t.Sketch) × (measure t mode items log_m hll_type ≡ some (report t s))
        × laws.Holds items s
  unfolding measure measure_query measure_merge
  measure-Holds query items log_m hll_type ok =
      let (s, made, holds) = laws.construct-Holds log_m hll_type ok in
      (adds t s items, rw made refl, adds-Holds [] items s holds)
  measure-Holds merge items log_m hll_type ok =
      let n₁ = length items / 2 in
      let (s, made, holds) = laws.construct-Holds log_m hll_type ok in
      let left = adds-Holds [] (take n₁ items) s holds in
      let right = adds-Holds [] (drop n₁ items) s holds in
      let (u, merged, all) = laws.merge-Holds log_m _ _ _ _ ok left right in
      (u, rw (made, merged) refl, subst (λ xs. laws.Holds xs u) (take-append-drop n₁ items) all)
