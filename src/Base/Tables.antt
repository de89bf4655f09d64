-- ===== src/Base/Tables.antt =====
-- Lists as tables of functions.
use hyperlogloglog.Base.{
  ℕ, zero, suc, ◌+◌, ◌<◌, ◌≡◌, refl, sym, ap, ◌∙◌, arith, List, [], ◌∷◌, length, get_or, get_or_ext,
}

-- The values of `g` at the indices below `m`.
unfoldable pub tabulate_from : (ℕ → ℕ) → ℕ → ℕ → List ℕ
tabulate_from g zero j = []
tabulate_from g (suc rounds) j = g j ∷ tabulate_from g rounds (j + 1)

unfoldable pub tabulate : (ℕ → ℕ) → ℕ → List ℕ
tabulate g m = tabulate_from g m 0

pub length-tabulate_from : (g : ℕ → ℕ) (rounds j : ℕ) → length (tabulate_from g rounds j) ≡ rounds
unfolding tabulate_from
length-tabulate_from g zero j = refl
length-tabulate_from g (suc rounds) j = ap suc (length-tabulate_from g rounds (j + 1))

pub get_or-tabulate_from :
    (g : ℕ → ℕ) (rounds j i : ℕ) → i < rounds → get_or (tabulate_from g rounds j) i 0 ≡ g (j + i)
unfolding tabulate_from
get_or-tabulate_from g zero j i h = absurd (omega arith)
get_or-tabulate_from g (suc rounds) j zero h = ap g (omega arith)
get_or-tabulate_from g (suc rounds) j (suc i) h =
    get_or-tabulate_from g rounds (j + 1) i (omega arith) ∙ ap g (omega arith)

-- A list of `m` values is the table of a function that has them.
pub eq-tabulate :
    (xs : List ℕ) (g : ℕ → ℕ) (m : ℕ)
    → length xs ≡ m
    → ((j : ℕ) → j < m → get_or xs j 0 ≡ g j)
    → xs ≡ tabulate g m
unfolding tabulate
eq-tabulate xs g m e h = get_or_ext 0 _ _ (e ∙ sym (length-tabulate_from g m 0)) λ j p.
    h j (omega (arith, e))
    ∙ ap g (omega arith)
    ∙ sym (get_or-tabulate_from g m 0 j (omega (arith, e)))

pub length-tabulate : (g : ℕ → ℕ) (m : ℕ) → length (tabulate g m) ≡ m
unfolding tabulate
length-tabulate g m = length-tabulate_from g m 0

pub get_or-tabulate : (g : ℕ → ℕ) (m j : ℕ) → j < m → get_or (tabulate g m) j 0 ≡ g j
unfolding tabulate
get_or-tabulate g m j p = get_or-tabulate_from g m 0 j p ∙ ap g (omega arith)
