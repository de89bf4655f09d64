-- ===== src/UnitTests/Vectors/Passes.antt =====
-- `test_packed_vector2` of hyperlogloglog/test.cpp passes whatever is drawn.
use hyperlogloglog.Base.{
  ℕ, zero, suc, ◌+◌, ◌-◌, ◌*◌, ◌%◌, ◌^◌, ◌≤◌, ◌<◌, ◌≡◌, refl, subst, ap, ◌∙◌, arith, true, List, [],
  ◌∷◌, ◌++◌, length, get_or, set, length-set, get_or-set, get_or_ext, length-replicate,
  get_or-replicate, length-append,
}
use hyperlogloglog.PackedVector.{PackedVector, get, set_at, append, insert}
use hyperlogloglog.PackedVector.Reference.{
  insert_at, length-insert_at, length-erase_at, get_or-snoc, Edits, created, stored, appended,
  inserted, erased, Agrees, Edits-Agrees,
}
use hyperlogloglog.UnitTests.Vectors.{
  Vectors, start, zeros, equal_from, equal, store_all, append_all, insert_all, erase_all,
  both_equal, sizes_are, Draws, test_packed_vector2, AreElements, AreInsertions, AreErasures,
  AreDrawn,
}

equal_from-same :
    (i : ℕ) (xs : List ℕ) (p : PackedVector)
    → ((k : ℕ) → k < length xs → get p (i + k) ≡ get_or xs k 0)
    → equal_from i xs p ≡ true
unfolding equal_from
equal_from-same i [] p same = refl
equal_from-same i (x ∷ xs) p same =
    let rest =
      equal_from-same (i + 1) xs p λ k h. ap (get p) (omega arith) ∙ same (suc k) (omega arith) in
    let here : get p i ≡ x = ap (get p) (omega arith) ∙ same 0 (omega arith) in
    ground (arith, rest, here)

-- Both vectors hold the `std::vector`.
record AreSame (limit : ℕ) (t : Vectors) (size : ℕ) : Type 0 where
  first : Edits limit 10 t.pv1 t.correct
  second : Edits limit 10 t.pv2 t.correct
  count : length t.correct ≡ size

-- After `i` rounds of the first loop, the second vector holds what was written so far.
record AreStored (limit n i : ℕ) (t : Vectors) : Type 0 where
  first : Edits limit 10 t.pv1 t.correct
  written : List ℕ
  second : Edits limit 10 t.pv2 written
  count : length t.correct ≡ n
  reached : length written ≡ i
  same : (k : ℕ) → k < i → get_or written k 0 ≡ get_or t.correct k 0

module _ (limit : ℕ) (addressable : limit * 10 + 128 ≤ 2 ^ 64) (ints : limit < 2 ^ 31) where
  agrees : {v : PackedVector} {xs : List ℕ} → Edits limit 10 v xs → Agrees limit 10 v xs
  agrees = Edits-Agrees limit 10 (omega arith) (omega arith) addressable ints

  equal-Edits : {v : PackedVector} {xs : List ℕ} → Edits limit 10 v xs → equal xs v ≡ true
  unfolding equal
  equal-Edits {v} {xs} run =
      let after = agrees run in
      ground (
        arith,
        after.size,
        equal_from-same 0 xs v
            λ k h. ap (get v) (omega arith) ∙ after.same k (omega (arith, after.size)),
      )

  both_equal-AreSame : {t : Vectors} {n : ℕ} → AreSame limit t n → both_equal t ≡ true
  unfolding both_equal
  both_equal-AreSame same = ground (arith, equal-Edits same.first, equal-Edits same.second)

  sizes_are-AreSame : {t : Vectors} {n : ℕ} → AreSame limit t n → sizes_are n t ≡ true
  unfolding sizes_are
  sizes_are-AreSame same =
      ground (arith, (agrees same.first).size, (agrees same.second).size, same.count)

  store_all-AreSame :
      {n : ℕ} (i : ℕ) (draws : List ℕ) {t : Vectors}
      → n ≤ limit
      → i + length draws ≡ n
      → AreElements draws
      → AreStored limit n i t
      → AreSame limit (store_all i draws t) n
  unfolding store_all
  store_all-AreSame {n} i [] {t} le e drawn done =
      let whole : done.written ≡ t.correct =
        get_or_ext 0 _ _ (omega (arith, done.reached, done.count, e))
          λ k h. done.same k (omega (arith, done.reached)) in
      record {
        first = done.first;
        second = subst (Edits limit 10 t.pv2) whole done.second;
        count = done.count;
      }
  store_all-AreSame {n} i (x ∷ draws) {t} le e drawn done =
      let cut : x % 2 ^ 10 ≡ x = omega (arith, drawn.0) in
      let at : i < length t.correct = omega (arith, done.count) in
      store_all-AreSame (i + 1) draws le (omega arith) drawn.1 (record {
        first =
            subst (λ y. Edits limit 10 (set_at t.pv1 i x) (set t.correct i y)) cut
              (stored i x done.first at);
        written = done.written ++ x ∷ [];
        second =
            subst (λ y. Edits limit 10 (append t.pv2 x) (done.written ++ y ∷ [])) cut
              (appended x done.second (omega (arith, done.reached)));
        count = length-set t.correct i x ∙ done.count;
        reached = omega (arith, done.reached, length-append done.written (x ∷ []));
        same = λ k h. ground (
          arith,
          done.reached,
          done.same k,
          get_or-snoc done.written x k,
          get_or-set t.correct i k x 0 at,
        );
      })

  append_all-AreSame :
      (draws : List ℕ) {n : ℕ} {t : Vectors}
      → n + length draws ≤ limit
      → AreElements draws
      → AreSame limit t n
      → AreSame limit (append_all draws t) (n + length draws)
  unfolding append_all
  append_all-AreSame [] {n} {t} le drawn same =
      subst (AreSame limit t) {x = n} {y = n + 0} (omega arith) same
  append_all-AreSame (x ∷ draws) {n} {t} le drawn same =
      let cut : x % 2 ^ 10 ≡ x = omega (arith, drawn.0) in
      let room : length t.correct < limit = omega (arith, same.count) in
      let run : (v : PackedVector)
          → Edits limit 10 v t.correct
          → Edits limit 10 (append v x) (t.correct ++ x ∷ []) =
        λ v before.
          subst (λ y. Edits limit 10 (append v x) (t.correct ++ y ∷ [])) cut
            (appended x before room) in
      subst (AreSame limit _) {x = n + 1 + length draws} (omega arith) (
        append_all-AreSame draws {n = n + 1} (omega arith) drawn.1 (record {
          first = run t.pv1 same.first;
          second = run t.pv2 same.second;
          count = omega (arith, same.count, length-append t.correct (x ∷ []));
        }))

  insert_all-AreSame :
      (draws : List (ℕ × ℕ)) {n : ℕ} {t : Vectors}
      → n + length draws ≤ limit
      → AreInsertions n draws
      → AreSame limit t n
      → AreSame limit (insert_all draws t) (n + length draws)
  unfolding insert_all
  insert_all-AreSame [] {n} {t} le drawn same =
      subst (AreSame limit t) {x = n} {y = n + 0} (omega arith) same
  insert_all-AreSame ((j, x) ∷ draws) {n} {t} le drawn same =
      let cut : x % 2 ^ 10 ≡ x = omega (arith, drawn.1) in
      let room : length t.correct < limit = omega (arith, same.count) in
      let at : j ≤ length t.correct = omega (arith, same.count, drawn.0) in
      let run : (v : PackedVector)
          → Edits limit 10 v t.correct
          → Edits limit 10 (insert v j x) (insert_at t.correct j x) =
        λ v before.
          subst (λ y. Edits limit 10 (insert v j x) (insert_at t.correct j y)) cut
            (inserted j x before room at) in
      subst (AreSame limit _) {x = n + 1 + length draws} (omega arith) (
        insert_all-AreSame draws {n = n + 1} (omega arith) drawn.2 (record {
          first = run t.pv1 same.first;
          second = run t.pv2 same.second;
          count = omega (arith, same.count, length-insert_at t.correct j x);
        }))

  erase_all-AreSame :
      (draws : List ℕ) {n : ℕ} {t : Vectors}
      → AreErasures n draws
      → AreSame limit t n
      → AreSame limit (erase_all draws t) (n - length draws)
  unfolding erase_all
  erase_all-AreSame [] {n} {t} drawn same =
      subst (AreSame limit t) {x = n} {y = n - 0} (omega arith) same
  erase_all-AreSame (j ∷ draws) {n} {t} drawn same =
      let at : j < length t.correct = omega (arith, same.count, drawn.0) in
      subst (AreSame limit _) {x = n - 1 - length draws} (omega arith) (
        erase_all-AreSame draws {n = n - 1} drawn.1 (record {
          first = erased j same.first at;
          second = erased j same.second at;
          count = omega (arith, same.count, length-erase_at t.correct j at);
        }))

  zeros-start : (n rounds i : ℕ) → n ≤ limit → i + rounds ≤ n → zeros rounds i (start n) ≡ true
  unfolding zeros start
  zeros-start n zero i le h = refl
  zeros-start n (suc rounds) i le h = ground (
    arith,
    zeros-start n rounds (i + 1) le,
    (agrees (created n le)).size,
    length-replicate {A = ℕ} n 0,
    (agrees (created n le)).same i,
    get_or-replicate {A = ℕ} n i 0,
  )

-- The test case for packed vectors beside a `std::vector`, with n rounds in each loop instead
-- of 1,000 and 3 * n below 2 ^ 31, passes whatever elements of 10 bits and whatever positions
-- below the size are drawn.
pub test_packed_vector2-passes :
    (n : ℕ) (drawn : Draws) → 3 * n < 2 ^ 31 → AreDrawn n drawn → test_packed_vector2 n drawn ≡ true
unfolding test_packed_vector2 start
test_packed_vector2-passes n drawn ints are =
    let limit = 3 * n in
    let room : limit * 10 + 128 ≤ 2 ^ 64 = omega arith in
    let le : n ≤ limit = omega arith in
    let (c₁, c₂, c₃, c₄) = are.counts in
    let t₁ =
      store_all-AreSame limit room ints 0 drawn.written le (omega (arith, c₁)) are.written (record {
        first = created n le;
        written = [];
        second = created 0 (omega arith);
        count = length-replicate n 0;
        reached = refl;
        same = λ k h. absurd (omega arith);
      }) in
    let t₂ : AreSame limit _ (2 * n) =
      subst (AreSame limit _) {x = n + length drawn.appended} (omega (arith, c₂))
        (append_all-AreSame limit room ints drawn.appended (omega (arith, c₂)) are.appended t₁) in
    let t₃ : AreSame limit _ (3 * n) =
      subst (AreSame limit _) {x = 2 * n + length drawn.inserted} (omega (arith, c₃))
        (insert_all-AreSame limit room ints drawn.inserted (omega (arith, c₃)) are.inserted t₂) in
    let t₄ : AreSame limit _ (2 * n) =
      subst (AreSame limit _) {x = 3 * n - length drawn.erased} (omega (arith, c₄))
        (erase_all-AreSame limit room ints drawn.erased are.erased t₃) in
    ground (
      arith,
      (agrees limit room ints (created n le)).size,
      (agrees limit room ints (created 0 (omega arith))).size,
      length-replicate {A = ℕ} n 0,
      zeros-start limit room ints n n 0 le (omega arith),
      both_equal-AreSame limit room ints t₁,
      both_equal-AreSame limit room ints t₂,
      both_equal-AreSame limit room ints t₃,
      both_equal-AreSame limit room ints t₄,
      sizes_are-AreSame limit room ints t₂,
      sizes_are-AreSame limit room ints t₃,
      sizes_are-AreSame limit room ints t₄,
    )
