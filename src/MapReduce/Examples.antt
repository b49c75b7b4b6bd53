-- ===== src/MapReduce/Examples.antt =====
-- SimpleMapReduce on a few numbers.
use pymotw.Prelude.{ℕ, ◌≡◌, refl, Bool, true, List, [], ◌∷◌, ◌==◌, map, arith, eq_of_test}
use pymotw.MapReduce.{partition, partition_into, append_value, chain}
use pymotw.MapReduce.Partition.{values_at, values_from, values_at-partition}

-- Each input gives itself under two keys.
abbrev pairs : ℕ → List (ℕ × ℕ)
pairs n = (n, 1) ∷ (0, n) ∷ []

abbrev equal_keys : ℕ → ℕ → Bool
equal_keys a b = a == b

same_own : (a : ℕ) → equal_keys a a ≡ true
same_own a = ground arith

values_at-partition_example :
    values_at equal_keys 0 (partition equal_keys (chain equal_keys (map pairs (3 ∷ 5 ∷ 3 ∷ []))))
    ≡ values_from equal_keys 0 pairs (3 ∷ 5 ∷ 3 ∷ [])
values_at-partition_example =
    values_at-partition equal_keys (λ a b h. eq_of_test a b h) same_own pairs (3 ∷ 5 ∷ 3 ∷ []) 0

abbrev mapped : List (ℕ × ℕ)
mapped = (3, 1) ∷ (0, 3) ∷ (3, 2) ∷ []

partition_run : partition equal_keys mapped ≡ (3, 1 ∷ 2 ∷ []) ∷ (0, 3 ∷ []) ∷ []
unfolding partition partition_into append_value
partition_run = refl
