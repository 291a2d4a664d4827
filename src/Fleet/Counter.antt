-- ===== src/Fleet/Counter.antt =====
-- `collections.Counter` as the reports use it: counting, and the most common keys.
use openagent_control.Prelude.{
  ℕ, zero, suc, ◌+◌, ◌≤◌, String, ◌≡◌, refl, List, [], ◌∷◌, ◌==◌, arith, leb, length, if◌then◌else◌,
}
use openagent_control.Dict.{Dict}

-- One more of a key; keys stand in the order of their first occurrence.
unfoldable pub count_one : String → Dict ℕ → Dict ℕ
count_one k [] = (k, 1) ∷ []
count_one k ((j, n) ∷ d) = if j == k then (j, suc n) ∷ d else (j, n) ∷ count_one k d

unfoldable pub count_all : List String → Dict ℕ → Dict ℕ
unfolding count_one
count_all [] d = d
count_all (k ∷ ks) d = count_all ks (count_one k d)

-- `Counter(keys)`
abbrev pub counter : List String → Dict ℕ
counter ks = count_all ks []

unfoldable pub insert_count : String × ℕ → Dict ℕ → Dict ℕ
insert_count x [] = x ∷ []
insert_count x (y ∷ ys) = if leb y.1 x.1 then x ∷ y ∷ ys else y ∷ insert_count x ys

unfoldable pub sort_counts : Dict ℕ → Dict ℕ
unfolding insert_count
sort_counts [] = []
sort_counts (x ∷ xs) = insert_count x (sort_counts xs)

abbrev pub first : ℕ → Dict ℕ → Dict ℕ
first zero d = []
first (suc n) [] = []
first (suc n) (x ∷ xs) = x ∷ first n xs

-- `most_common(n)`: by falling counts, and in the order of the keys where they are equal
unfoldable pub most_common : ℕ → Dict ℕ → Dict ℕ
unfolding sort_counts
most_common n d = first n (sort_counts d)

abbrev pub total : Dict ℕ → ℕ
total [] = 0
total ((k, n) ∷ d) = n + total d

total-count_one : (k : String) (d : Dict ℕ) → total (count_one k d) ≡ suc (total d)
unfolding count_one
total-count_one k [] = refl
total-count_one k ((j, n) ∷ d) = ground (arith, total-count_one k d)

total-count_all : (ks : List String) (d : Dict ℕ) → total (count_all ks d) ≡ length ks + total d
unfolding count_all
total-count_all [] d = omega arith
total-count_all (k ∷ ks) d = omega (arith, total-count_all ks (count_one k d), total-count_one k d)

-- The counts of a counter add up to the number of the keys counted.
pub total-counter : (ks : List String) → total (counter ks) ≡ length ks
total-counter ks = omega (arith, total-count_all ks [])

total-insert_count : (x : String × ℕ) (d : Dict ℕ) → total (insert_count x d) ≡ x.1 + total d
unfolding insert_count
total-insert_count x [] = refl
total-insert_count x ((j, n) ∷ d) = ground (arith, total-insert_count x d)

total-sort_counts : (d : Dict ℕ) → total (sort_counts d) ≡ total d
unfolding sort_counts
total-sort_counts [] = refl
total-sort_counts ((k, n) ∷ d) =
    omega (arith, total-insert_count (k, n) (sort_counts d), total-sort_counts d)

total-first : (n : ℕ) (d : Dict ℕ) → total (first n d) ≤ total d
total-first zero d = omega arith
total-first (suc n) [] = omega arith
total-first (suc n) ((k, m) ∷ d) = omega (arith, total-first n d)

length-first : (n : ℕ) (d : Dict ℕ) → length (first n d) ≤ n
length-first zero d = omega arith
length-first (suc n) [] = omega arith
length-first (suc n) (x ∷ d) = omega (arith, length-first n d)

-- What a report shows of a counter: no more keys than asked for, and no more than was counted.
pub most_common-counter :
    (n : ℕ) (ks : List String)
    → (length (most_common n (counter ks)) ≤ n) × (total (most_common n (counter ks)) ≤ length ks)
unfolding most_common
most_common-counter n ks = (
  length-first n (sort_counts (counter ks)),
  omega (
    arith,
    total-first n (sort_counts (counter ks)),
    total-sort_counts (counter ks),
    total-counter ks,
  ),
)
