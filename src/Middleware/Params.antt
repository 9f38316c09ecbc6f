-- ===== src/Middleware/Params.antt =====
-- src/middleware/pkce_state_session.rs: `query_param` and `cookie_value` read back what a client
-- writes.
use auth_kit.Base.{
  ℕ, ◌<◌, ◌≡◌, refl, ap, ◌∙◌, ◌≢◌, Option, none, some, List, [], ◌∷◌, ◌++◌, map, if◌then◌else◌,
  Bytes, beq, All, All-append, All-weaken, arith,
}
use auth_kit.Base.Map.{get}
use auth_kit.Base.Str.{split, split_once, find_map, trim, join}
use auth_kit.Base.Str.Laws.{split-join, split_once_at, IsVisible, trim-visible, trim-space}
use auth_kit.Middleware.{query_pair, query_param, cookie_pair, cookie_value}

-- `name=value`.
abbrev pub show_pair : Bytes × Bytes → Bytes
show_pair (name, value) = name ++ b'=' ∷ value

-- A query string: pairs with `&` between them.
unfoldable pub show_query : List (Bytes × Bytes) → Bytes
show_query ps = join b'&' (map show_pair ps)

show_rest : List (Bytes × Bytes) → List Bytes
show_rest [] = []
show_rest (p ∷ ps) = (32 ∷ show_pair p) ∷ show_rest ps

-- A `Cookie` header as clients write it: pairs with `; ` between them.
unfoldable pub show_cookies : List (Bytes × Bytes) → Bytes
unfolding show_rest
show_cookies [] = []
show_cookies (p ∷ ps) = join b';' (show_pair p ∷ show_rest ps)

-- The separators do not stand in a name or value, nor `=` in a name.
abbrev pub IsQueryPair : Bytes × Bytes → Type 0
IsQueryPair (name, value) = All (λ c. (c ≢ b'&') × (c ≢ b'=')) name × All (λ c. c ≢ b'&') value

abbrev pub IsCookiePair : Bytes × Bytes → Type 0
IsCookiePair (name, value) =
    All (λ c. IsVisible c × (c ≢ b';') × (c ≢ b'=')) name
    × All (λ c. IsVisible c × (c ≢ b';')) value

find_pair :
    (f : Bytes → Option Bytes) (key : Bytes) (ps : List (Bytes × Bytes)) (shown : List Bytes)
    → find_map f shown ≡ get key ps
    → (p : Bytes × Bytes) (s : Bytes) → f s ≡ (if beq p.0 key then some p.1 else none)
    → find_map f (s ∷ shown) ≡ get key (p ∷ ps)
unfolding find_map get
find_pair f key ps shown ih (name, value) s e = ground (arith, ih, e)

query_pair-show :
    (key : Bytes) (p : Bytes × Bytes)
    → IsQueryPair p
    → query_pair key (show_pair p) ≡ (if beq p.0 key then some p.1 else none)
unfolding query_pair
query_pair-show key (name, value) h =
    rw (split_once_at b'=' name value (All-weaken _ _ (λ c k. k.1) name h.0), query_pair) refl

show_pair-query : (p : Bytes × Bytes) → IsQueryPair p → All (λ c. c ≢ b'&') (show_pair p)
show_pair-query (name, value) h =
    All-append _ name (b'=' ∷ value) (All-weaken _ _ (λ c k. k.0) name h.0) (omega arith, h.1)

find_query :
    (key : Bytes) (ps : List (Bytes × Bytes))
    → All IsQueryPair ps
    → find_map (query_pair key) (map show_pair ps) ≡ get key ps
find_query key [] h = unfold find_map get in refl
find_query key (p ∷ ps) h =
    find_pair (query_pair key) key ps (map show_pair ps) (find_query key ps h.1) p (show_pair p)
      (query_pair-show key p h.0)

map-show_pair-query :
    (ps : List (Bytes × Bytes)) → All IsQueryPair ps → All (All (λ c. c ≢ b'&')) (map show_pair ps)
map-show_pair-query [] h = tt
map-show_pair-query (p ∷ ps) h = (show_pair-query p h.0, map-show_pair-query ps h.1)

-- Of a query string written from a list of pairs, `query_param` gives the value of the first pair
-- with the key, and `None` if there is none.
pub query_param-show_query :
    (key : Bytes) (ps : List (Bytes × Bytes))
    → All IsQueryPair ps
    → query_param (show_query ps) key ≡ get key ps
unfolding query_param show_query
query_param-show_query key [] h = unfold join split find_map query_pair split_once get in refl
query_param-show_query key (p ∷ ps) h =
    ap (find_map (query_pair key))
      (split-join b'&' (show_pair p) (map show_pair ps) (map-show_pair-query (p ∷ ps) h))
    ∙ find_query key (p ∷ ps) h

IsCookiePair-IsVisible : (p : Bytes × Bytes) → IsCookiePair p → All IsVisible (show_pair p)
IsCookiePair-IsVisible (name, value) h =
    All-append IsVisible name (b'=' ∷ value) (All-weaken _ _ (λ c k. k.0) name h.0)
      (omega arith, All-weaken _ _ (λ c k. k.0) value h.1)

show_pair-cookie : (p : Bytes × Bytes) → IsCookiePair p → All (λ c. c ≢ b';') (show_pair p)
show_pair-cookie (name, value) h =
    All-append _ name (b'=' ∷ value) (All-weaken _ _ (λ c k. k.1) name h.0)
      (omega arith, All-weaken _ _ (λ c k. k.1) value h.1)

cookie_pair-trimmed :
    (key s : Bytes) (p : Bytes × Bytes)
    → IsCookiePair p
    → trim s ≡ show_pair p
    → cookie_pair key s ≡ (if beq p.0 key then some p.1 else none)
unfolding cookie_pair
cookie_pair-trimmed key s (name, value) h e =
    let name_visible = All-weaken _ IsVisible (λ c k. k.0) name h.0 in
    let value_visible = All-weaken _ IsVisible (λ c k. k.0) value h.1 in
    rw
      (
        e,
        split_once_at b'=' name value (All-weaken _ _ (λ c k. k.2) name h.0),
        cookie_pair,
        trim-visible name name_visible,
        trim-visible value value_visible,
      )
      refl

find_cookies :
    (key : Bytes) (ps : List (Bytes × Bytes))
    → All IsCookiePair ps
    → find_map (cookie_pair key) (show_rest ps) ≡ get key ps
unfolding show_rest
find_cookies key [] h = unfold find_map get in refl
find_cookies key (p ∷ ps) h =
    find_pair (cookie_pair key) key ps (show_rest ps) (find_cookies key ps h.1) p (32 ∷ show_pair p)
      (cookie_pair-trimmed key (32 ∷ show_pair p) p h.0
        (trim-space (show_pair p) (IsCookiePair-IsVisible p h.0)))

show_rest-cookie :
    (ps : List (Bytes × Bytes)) → All IsCookiePair ps → All (All (λ c. c ≢ b';')) (show_rest ps)
unfolding show_rest
show_rest-cookie [] h = tt
show_rest-cookie (p ∷ ps) h = ((omega arith, show_pair-cookie p h.0), show_rest-cookie ps h.1)

-- Of a `Cookie` header written from a list of pairs, `cookie_value` gives the value of the first
-- pair with the key, and `None` if there is none.
pub cookie_value-show_cookies :
    (key : Bytes) (ps : List (Bytes × Bytes))
    → All IsCookiePair ps
    → cookie_value (show_cookies ps) key ≡ get key ps
unfolding cookie_value show_cookies
cookie_value-show_cookies key [] h = unfold split find_map cookie_pair trim split_once get in refl
cookie_value-show_cookies key (p ∷ ps) h =
    ap (find_map (cookie_pair key)) (
      split-join b';' (show_pair p) (show_rest ps)
        (show_pair-cookie p h.0, show_rest-cookie ps h.1))
    ∙ find_pair (cookie_pair key) key ps (show_rest ps) (find_cookies key ps h.1) p (show_pair p) (
        cookie_pair-trimmed key (show_pair p) p h.0
          (trim-visible (show_pair p) (IsCookiePair-IsVisible p h.0)))

-- A byte of a cookie header: visible or a space.
abbrev IsPrintable : ℕ → Type 0
IsPrintable c = (31 < c) × (c < 127)

join-IsPrintable :
    (sep : ℕ) (ps : List Bytes)
    → IsPrintable sep
    → All (All IsPrintable) ps
    → All IsPrintable (join sep ps)
unfolding join
join-IsPrintable sep [] p h = tt
join-IsPrintable sep (a ∷ []) p h = h.0
join-IsPrintable sep (a ∷ b ∷ ps) p h =
    All-append IsPrintable a (sep ∷ join sep (b ∷ ps)) h.0 (p, join-IsPrintable sep (b ∷ ps) p h.1)

show_pair-IsPrintable : (p : Bytes × Bytes) → IsCookiePair p → All IsPrintable (show_pair p)
show_pair-IsPrintable p h =
    All-weaken IsVisible IsPrintable (λ c v. (omega arith, v.1)) (show_pair p)
      (IsCookiePair-IsVisible p h)

show_rest-IsPrintable :
    (ps : List (Bytes × Bytes)) → All IsCookiePair ps → All (All IsPrintable) (show_rest ps)
unfolding show_rest
show_rest-IsPrintable [] h = tt
show_rest-IsPrintable (p ∷ ps) h =
    ((omega arith, show_pair-IsPrintable p h.0), show_rest-IsPrintable ps h.1)

-- Such a header holds nothing but visible characters and spaces.
pub show_cookies-printable :
    (ps : List (Bytes × Bytes))
    → All IsCookiePair ps
    → All (λ c. (31 < c) × (c < 127)) (show_cookies ps)
unfolding show_cookies
show_cookies-printable [] h = tt
show_cookies-printable (p ∷ ps) h =
    join-IsPrintable b';' (show_pair p ∷ show_rest ps) (omega arith)
      (show_pair-IsPrintable p h.0, show_rest-IsPrintable ps h.1)
