-- ===== src/Base/Map/Laws.antt =====
-- Laws of the hash map: what each operation does to a lookup, to the count and to distinctness.
use auth_kit.Base.{
  suc, ◌≤◌, ◌≡◌, refl, Bool, false, none, some, [], ◌∷◌, arith, length, if◌then◌else◌, Bytes, beq,
  beq_iff,
}
use auth_kit.Base.Map.{Map, get, contains_key, insert, remove, retain, IsDistinct, filter_value}

module _ {ℓ} {V : Type ℓ} where
  pub get-insert :
      (k j : Bytes) (v : V) (m : Map V)
      → get j (insert k v m) ≡ (if beq k j then some v else get j m)
  unfolding get insert
  get-insert k j v [] = refl
  get-insert k j v ((i, w) ∷ m) =
      ground (arith, beq_iff k j, beq_iff i k, beq_iff i j, get-insert k j v m)

  pub get-remove :
      (k j : Bytes) (m : Map V)
      → IsDistinct m
      → get j (remove k m) ≡ (if beq k j then none else get j m)
  unfolding get remove
  get-remove k j [] d = ground arith
  get-remove k j ((i, w) ∷ m) d =
      ground (arith, beq_iff k j, beq_iff i k, beq_iff i j, get-remove k j m d.1)

  get-retain-none :
      (p : V → Bool) (k : Bytes) (m : Map V) → get k m ≡ none → get k (retain p m) ≡ none
  unfolding get retain
  get-retain-none p k [] h = refl
  get-retain-none p k ((i, w) ∷ m) h = ground (arith, get-retain-none p k m)

  pub get-retain :
      (p : V → Bool) (k : Bytes) (m : Map V)
      → IsDistinct m
      → get k (retain p m) ≡ filter_value p (get k m)
  unfolding get retain
  get-retain p k [] d = refl
  get-retain p k ((i, w) ∷ m) d =
      ground (arith, beq_iff i k, get-retain p k m d.1, get-retain-none p i m d.0)

  pub contains_key-get : (k : Bytes) (m : Map V) → contains_key k m ≡ false → get k m ≡ none
  unfolding get contains_key
  contains_key-get k [] h = refl
  contains_key-get k ((i, w) ∷ m) h = ground (arith, contains_key-get k m)

  pub get-contains_key : (k : Bytes) (m : Map V) → get k m ≡ none → contains_key k m ≡ false
  unfolding get contains_key
  get-contains_key k [] h = refl
  get-contains_key k ((i, w) ∷ m) h = ground (arith, get-contains_key k m)

  pub insert-IsDistinct : (k : Bytes) (v : V) (m : Map V) → IsDistinct m → IsDistinct (insert k v m)
  unfolding get insert
  insert-IsDistinct k v [] d = (refl, tt)
  insert-IsDistinct k v ((i, w) ∷ m) d =
      ground (arith, insert-IsDistinct k v m d.1, get-insert k i v m, beq_iff k i, beq_iff i k)

  pub remove-IsDistinct : (k : Bytes) (m : Map V) → IsDistinct m → IsDistinct (remove k m)
  unfolding get remove
  remove-IsDistinct k [] d = tt
  remove-IsDistinct k ((i, w) ∷ m) d =
      ground (arith, remove-IsDistinct k m d.1, get-remove k i m d.1, beq_iff k i, beq_iff i k)

  pub retain-IsDistinct : (p : V → Bool) (m : Map V) → IsDistinct m → IsDistinct (retain p m)
  unfolding retain
  retain-IsDistinct p [] d = tt
  retain-IsDistinct p ((i, w) ∷ m) d =
      ground (arith, retain-IsDistinct p m d.1, get-retain-none p i m d.0)

  pub length-insert :
      (k : Bytes) (v : V) (m : Map V)
      → length (insert k v m) ≡ (if contains_key k m then length m else suc (length m))
  unfolding insert contains_key
  length-insert k v [] = refl
  length-insert k v ((i, w) ∷ m) = ground (arith, length-insert k v m)

  pub length-remove-le : (k : Bytes) (m : Map V) → length (remove k m) ≤ length m
  unfolding remove
  length-remove-le k [] = omega arith
  length-remove-le k ((i, w) ∷ m) = ground (arith, length-remove-le k m)

  pub length-retain-le : (p : V → Bool) (m : Map V) → length (retain p m) ≤ length m
  unfolding retain
  length-retain-le p [] = omega arith
  length-retain-le p ((i, w) ∷ m) = ground (arith, length-retain-le p m)
