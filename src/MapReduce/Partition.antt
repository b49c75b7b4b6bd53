-- ===== src/MapReduce/Partition.antt =====
-- What SimpleMapReduce of source/multiprocessing/multiprocessing_mapreduce.py hands to its reduce_func.
use pymotw.Prelude.{
  ◌≡◌, refl, sym, ap, ◌∙◌, Bool, true, false, List, [], ◌∷◌, ◌++◌, if◌then◌else◌, map, arith,
  Bool-cases, inl, inr,
}
use mathlib.Core.List.{append_assoc, append-nil}
use pymotw.MapReduce.{append_value, partition_into, partition, chain}

module _ {K V : Type 0} (same : K → K → Bool) where
  -- What a key has in a dict of lists, and what it has among the pairs.
  unfoldable pub values_at : K → List (K × List V) → List V
  values_at k [] = []
  values_at k ((j, vs) ∷ d) = let rest = values_at k d in if same k j then vs else rest

  unfoldable pub values_of : K → List (K × V) → List V
  values_of k [] = []
  values_of k ((j, v) ∷ ms) = let rest = values_of k ms in if same k j then v ∷ rest else rest

  values_of-append :
      (k : K) (l m : List (K × V)) → values_of k (l ++ m) ≡ values_of k l ++ values_of k m
  unfolding values_of
  values_of-append k [] m = refl
  values_of-append k ((j, v) ∷ l) m = let ih = values_of-append k l m in ground arith

  -- The values that the inputs have for a key, in order.
  unfoldable pub values_from : {A : Type 0} → K → (A → List (K × V)) → List A → List V
  values_from k map_func [] = []
  values_from k map_func (x ∷ xs) = values_of k (map_func x) ++ values_from k map_func xs

  values_of-chain :
      {A : Type 0} (k : K) (map_func : A → List (K × V)) (xs : List A)
      → values_of k (chain same (map map_func xs)) ≡ values_from k map_func xs
  unfolding chain values_from values_of
  values_of-chain k f [] = refl
  values_of-chain k f (x ∷ xs) =
      values_of-append k (f x) (chain same (map f xs))
      ∙ ap (λ l. values_of k (f x) ++ l) (values_of-chain k f xs)

apart :
    {K : Type 0} (same : K → K → Bool)
    → ((a b : K) → same a b ≡ true → a ≡ b)
    → ((a : K) → same a a ≡ true)
    → (i k j : K) → same k j ≡ false
    → same i k ≡ true
    → same i j ≡ false
apart same equal own i k j e a = elim (Bool-cases (same i j)) [
  | inl b ↦ let p = ap (same k) (sym (equal i k a) ∙ equal i j b) in let q = own k in cc
  | inr b ↦ b
]

module _ {K V : Type 0} (same : K → K → Bool) (equal : (a b : K) → same a b ≡ true → a ≡ b)
    (own : (a : K) → same a a ≡ true) where
  values_at-append_value :
      (i k : K) (v : V) (d : List (K × List V))
      → values_at same i (append_value same k v d)
        ≡ (if same i k then values_at same i d ++ (v ∷ []) else values_at same i d)
  unfolding values_at append_value
  values_at-append_value i k v [] = refl
  values_at-append_value i k v ((j, vs) ∷ d) =
      let ih = values_at-append_value i k v d in
      elim (Bool-cases (same k j)) [
        | inl e ↦ let q = ap (same i) (equal k j e) in ground arith
        | inr e ↦ elim (Bool-cases (same i k)) [
          | inl a ↦ let n = apart same equal own i k j e a in ground arith
          | inr a ↦ ground arith
        ]
      ]

  first_value :
      (i k : K) (v : V) (d : List (K × List V)) (ms : List (K × V))
      → (if same i k then values_at same i d ++ (v ∷ []) else values_at same i d)
          ++ values_of same i ms
        ≡ values_at same i d ++ values_of same i ((k, v) ∷ ms)
  unfolding values_of
  first_value i k v d ms =
      let a = append_assoc (values_at same i d) (v ∷ []) (values_of same i ms) in ground arith

  values_at-partition_into :
      (i : K) (d : List (K × List V)) (ms : List (K × V))
      → values_at same i (partition_into same d ms) ≡ values_at same i d ++ values_of same i ms
  unfolding partition_into values_of
  values_at-partition_into i d [] = sym (append-nil _)
  values_at-partition_into i d ((k, v) ∷ ms) =
      values_at-partition_into i (append_value same k v d) ms
      ∙ (ap (λ l. l ++ values_of same i ms) (values_at-append_value i k v d)
          ∙ first_value i k v d ms)

  -- If the test of keys says true for equal keys and only for them, then what the partitioned responses
  -- have for a key are the values that the inputs give for it one by one, in their order.
  pub values_at-partition :
      {A : Type 0} (map_func : A → List (K × V)) (inputs : List A) (k : K)
      → values_at same k (partition same (chain same (map map_func inputs)))
        ≡ values_from same k map_func inputs
  unfolding partition values_at
  values_at-partition f xs k =
      values_at-partition_into k [] (chain same (map f xs)) ∙ values_of-chain same k f xs
