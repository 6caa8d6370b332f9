-- ===== src/UnorderedMap.antt =====
-- `std::unordered_map` as the manager uses it: `find`, `insert` (which keeps an entry that is
-- there), `erase` and iteration from `cbegin`. The order of iteration is the order of the list; it
-- is unspecified in the library, so every statement holds for any order.
use c3qo.Base.{
  ◌≤◌, ◌<◌, ◌≡◌, refl, ◌≢◌, true, Option, none, some, List, [], ◌∷◌, arith, Eq, if◌then◌else◌,
  length,
}

pub beq_self {ℓ} : {K : Type ℓ} ⦃e : Eq K⦄ (k : K) → e.beq k k ≡ true
beq_self ⦃e⦄ k = (e.beq_iff k k).1 refl

module _ {ℓ κ} {K : Type ℓ} {V : Type κ} ⦃e : Eq K⦄ where
  unfoldable pub find : K → List (K × V) → Option V
  find k [] = none
  find k ((j, v) ∷ m) = if e.beq k j then some v else find k m

  unfoldable pub insert : K → V → List (K × V) → List (K × V)
  insert k v m = elim (find k m) [ none ↦ (k, v) ∷ m | some _ ↦ m ]

  unfoldable pub erase : K → List (K × V) → List (K × V)
  erase k [] = []
  erase k ((j, v) ∷ m) = let rest = erase k m in if e.beq k j then rest else (j, v) ∷ rest

  pub find-erase_self : (k : K) (m : List (K × V)) → find k (erase k m) ≡ none
  unfolding find erase
  find-erase_self k [] = refl
  find-erase_self k ((j, v) ∷ m) = ground (arith, find-erase_self k m)

  pub find-erase_ne : (j k : K) (m : List (K × V)) → j ≢ k → find j (erase k m) ≡ find j m
  unfolding find erase
  find-erase_ne j k [] h = refl
  find-erase_ne j k ((i, v) ∷ m) h =
      ground (arith, find-erase_ne j k m h, e.beq_iff j i, e.beq_iff k i)

  pub find-insert_new :
      (j k : K) (v : V) (m : List (K × V))
      → find k m ≡ none
      → find j (insert k v m) ≡ (if e.beq j k then some v else find j m)
  unfolding insert find
  find-insert_new j k v m h = rw (h, insert)

  pub insert_old : (k : K) (v w : V) (m : List (K × V)) → find k m ≡ some w → insert k v m ≡ m
  unfolding insert
  insert_old k v w m h = rw (h, insert)

  pub length-erase-le : (k : K) (m : List (K × V)) → length (erase k m) ≤ length m
  unfolding erase
  length-erase-le k [] = omega arith
  length-erase-le k ((j, v) ∷ m) = ground (arith, length-erase-le k m)

  pub length-erase-lt :
      (k : K) (v : V) (m : List (K × V)) → find k m ≡ some v → length (erase k m) < length m
  unfolding find erase
  length-erase-lt k v [] h = absurd (cc)
  length-erase-lt k v ((j, w) ∷ m) h = ground (arith, length-erase-lt k v m, length-erase-le k m)

  pub find_head : (k : K) (v : V) (m : List (K × V)) → find k ((k, v) ∷ m) ≡ some v
  unfolding find
  find_head k v m = rw (beq_self k)
