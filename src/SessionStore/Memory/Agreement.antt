-- ===== src/SessionStore/Memory/Agreement.antt =====
-- src/domain/session_store.rs: when a store agrees with its specification, and what a call leaves of
-- that.
use auth_kit.Base.{
  ℕ, ◌≡◌, refl, ap, sym, ◌∙◌, inl, inr, subst, true, false, Option, none, some, arith,
  if◌then◌else◌, Bytes, beq, Bool-cases,
}
use auth_kit.Base.Int.{ltb_ℤ_iff, ℤ, ◌+ℤ◌, ◌≤ℤ◌}
use auth_kit.Base.Map.{get, insert, filter_value}
use auth_kit.Base.Map.Laws.{get-insert, contains_key-get}
use auth_kit.Base.Outcome.{err, returns}
use auth_kit.SessionStore.{at_capacity, Crates}
use auth_kit.SessionStore.Memory.{
  Entry, InMemorySessionStore, is_live, evict_expired, is_full, binds,
}
use auth_kit.SessionStore.Memory.Invariant.{IsWellFormed, evict_expired-IsDistinct}
use auth_kit.SessionStore.Memory.Live.{
  keys, length-keys, keys-NoDuplicates, keys-All, filter_value-some,
}
use auth_kit.SessionStore.Memory.View.{get-evict_expired}
use auth_kit.SessionStore.Memory.Spec.{
  of_unit, Spec, set_binding, IsLive, IsLiveTo, Allows, refused,
}

-- Store and specification agree on everything that a reading from `before` on can see.
pub record Agrees (ttl : ℤ) (n : ℕ) (before : ℤ) (s : InMemorySessionStore) (a : Spec)
    : Type 0 where
  pub well : IsWellFormed s
  pub lifetime : s.ttl ≡ ttl
  pub ceiling : s.max_entries ≡ n
  pub locked : s.is_poisoned ≡ (if a.usable then false else true)
  pub seen :
      (now : ℤ) (k : Bytes)
      → before ≤ℤ now
      → filter_value (is_live now) (get k s.inner) ≡ filter_value (is_live now) (a.bindings k)

filter_later :
    (t now : ℤ) (o : Option Entry)
    → t ≤ℤ now
    → filter_value (is_live now) (filter_value (is_live t) o) ≡ filter_value (is_live now) o
filter_later t now none h = refl
filter_later t now (some e) h = ground arith

-- What a binding past a reading is to the filter.
filter-IsLiveTo :
    (a : Spec) (now : ℤ) (token session : Bytes)
    → IsLiveTo a now token session
    → (e : Entry) × (filter_value (is_live now) (a.bindings token) ≡ some e)
filter-IsLiveTo a now token session (e, found, same, live) = (e, ground (arith, found, live))

module _ (c : Crates) (ttl : ℤ) (n : ℕ) (before : ℤ) (s : InMemorySessionStore) (a : Spec)
    (g : Agrees ttl n before s a) where
  pub seen-evicted :
      (t now : ℤ) (k : Bytes)
      → before ≤ℤ t
      → t ≤ℤ now
      → filter_value (is_live now) (get k (evict_expired t s.inner))
        ≡ filter_value (is_live now) (a.bindings k)
  seen-evicted t now k first later =
      ap (filter_value (is_live now)) (get-evict_expired t k s.inner g.well.distinct)
      ∙ filter_later t now (get k s.inner) later
      ∙ g.seen now k (omega (arith, first, later))

  pub usable-alive : s.is_poisoned ≡ false → a.usable ≡ true
  usable-alive alive = let l = g.locked in ground (arith, alive, l)

  pub usable-dead : s.is_poisoned ≡ true → a.usable ≡ false
  usable-dead dead = let l = g.locked in ground (arith, dead, l)

  -- A state with the entries that a reading evicts gone agrees with the same specification.
  pub evicted-Agrees :
      (t : ℤ)
      → before ≤ℤ t
      → IsWellFormed (record s { inner = evict_expired t s.inner })
      → Agrees ttl n t (record s { inner = evict_expired t s.inner }) a
  evicted-Agrees t first w = record {
    well = w;
    lifetime = g.lifetime;
    ceiling = g.ceiling;
    locked = g.locked;
    seen = λ now k later. seen-evicted t now k first later;
  }

  pub later-Agrees : (t : ℤ) → before ≤ℤ t → Agrees ttl n t s a
  later-Agrees t first = record {
    well = g.well;
    lifetime = g.lifetime;
    ceiling = g.ceiling;
    locked = g.locked;
    seen = λ now k later. g.seen now k (omega (arith, first, later));
  }

  -- An entry that an eviction leaves is live in the specification.
  evicted-IsLive :
      (t : ℤ) (k : Bytes) (e : Entry)
      → before ≤ℤ t
      → get k (evict_expired t s.inner) ≡ some e
      → IsLive a t k
  evicted-IsLive t k e first found =
      let (_, live) =
        filter_value-some (is_live t) (get k s.inner) e
          (sym (get-evict_expired t k s.inner g.well.distinct) ∙ found) in
      let view : filter_value (is_live t) (a.bindings k) ≡ some e =
        sym (seen-evicted t t k first (omega arith))
        ∙ ap (filter_value (is_live t)) found
        ∙ ground (arith, live) in
      let (there, _) = filter_value-some (is_live t) (a.bindings k) e view in
      (e, there, (ltb_ℤ_iff t e.expires_at).0 live)

  pub full-refused :
      (t t' : ℤ) (token session : Bytes)
      → before ≤ℤ t
      → s.is_poisoned ≡ false
      → is_full s.max_entries token (evict_expired t s.inner) ≡ true
      → Allows c.add ttl n a
          (binds t t' token session)
          (of_unit (returns (err (at_capacity s.max_entries))))
          a
  unfolding is_full
  full-refused t t' token session first alive full =
      let gone : get token (evict_expired t s.inner) ≡ none =
        contains_key-get token (evict_expired t s.inner) (ground arith) in
      let same = g.ceiling in
      let distinct = evict_expired-IsDistinct t s.inner g.well.distinct in
      subst
        (λ l.
          Allows c.add ttl n a (binds t t' token session) (of_unit (returns (err (at_capacity l))))
            a)
        (sym same)
        (refused (usable-alive alive) (ground (arith, full, same)) (keys (evict_expired t s.inner))
          (keys-NoDuplicates (evict_expired t s.inner) distinct)
          (ground (arith, full, same, length-keys (evict_expired t s.inner)))
          (keys-All (IsLive a t) (evict_expired t s.inner) distinct
            λ k e found. evicted-IsLive t k e first found)
          λ other b.
            let (e, found) = filter-IsLiveTo a t token other b in
            let view = seen-evicted t t token first (omega arith) in cc (rw gone at view, found))

  due_lem : (t' deadline : ℤ) → c.add t' s.ttl ≡ some deadline → deadline ≡ t' +ℤ ttl
  due_lem t' deadline sum = c.add_sum t' s.ttl deadline sum ∙ ap (λ l. t' +ℤ l) g.lifetime

  pub sum-lifetime :
      (t' deadline : ℤ) → c.add t' s.ttl ≡ some deadline → c.add t' ttl ≡ some (t' +ℤ ttl)
  sum-lifetime t' deadline sum =
      ap (c.add t') (sym g.lifetime) ∙ sum ∙ ap some (due_lem t' deadline sum)

  pub bound-Agrees :
      (t t' deadline : ℤ) (token session : Bytes)
      → before ≤ℤ t
      → c.add t' s.ttl ≡ some deadline
      → let s' = record s {
        inner =
            insert token
              (record { session_id = session; expires_at = deadline })
              (evict_expired t s.inner);
      } in
        IsWellFormed s'
        → Agrees ttl n t s' (record a {
          bindings =
              set_binding a.bindings token
                (some (record { session_id = session; expires_at = t' +ℤ ttl }));
        })
  bound-Agrees t t' deadline token session first sum w = record {
    well = w;
    lifetime = g.lifetime;
    ceiling = g.ceiling;
    locked = g.locked;
    seen = λ now k later.
        let due = due_lem t' deadline sum in
        ap (filter_value (is_live now)) (
          get-insert token k (record { session_id = session; expires_at = deadline })
            (evict_expired t s.inner))
        ∙ elim (Bool-cases (beq token k)) [
          | inl mine ↦ rw (mine, due) refl
          | inr other ↦ rw other (seen-evicted t now k first later)
        ];
  }
