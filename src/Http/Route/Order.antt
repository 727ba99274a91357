-- ===== src/Http/Route/Order.antt =====
-- The routes as an unordered map: what does not depend on the order of its entries.
use mathlib.Core.List.{Permᴰ}
use mathlib.Core.Path.{subst}
use simple_server.Prelude.{
  ◌≡◌, ◌≢◌, refl, sym, ap, ◌∙◌, some, [], ◌∷◌, Bytes, All, if◌then◌else◌, arith, Bool-cases, inl,
  inr, Option-cases,
}
use simple_server.Text.Search.{text_eq, text_eq_sound, text_eq_refl}
use simple_server.Text.StringMap.{Map, lookup, insert}
use simple_server.Http.Route.{Regex, insert_new, add_route_handler, query_endpoint_from_map}
use simple_server.Http.Route.Query.{query_endpoint-lookup, query_endpoint-add_route_handler}

module _ {C : Type 0} where
  -- No two entries have the same name.
  abbrev pub Distinct : Map C → Type 0
  Distinct [] = Unit
  Distinct (e ∷ m) = All (λ f. e.0 ≢ f.0) m × Distinct m

  All-Permᴰ : (P : Bytes × C → Type 0) {m n : Map C} → Permᴰ m n → All P m → All P n
  All-Permᴰ P Permᴰ.nil h = tt
  All-Permᴰ P (Permᴰ.cons e d) (h, hs) = (subst P e h, All-Permᴰ P d hs)
  All-Permᴰ P (Permᴰ.swap e f) (h, (k, hs)) = (subst P f k, (subst P e h, hs))
  All-Permᴰ P (Permᴰ.trans d e) h = All-Permᴰ P e (All-Permᴰ P d h)

  Distinct-Permᴰ : {m n : Map C} → Permᴰ m n → Distinct m → Distinct n
  Distinct-Permᴰ Permᴰ.nil h = tt
  Distinct-Permᴰ (Permᴰ.cons {b = b} {l₂ = n} e d) (h, hs) =
      (subst (λ x. All (λ f. x.0 ≢ f.0) n) e (All-Permᴰ _ d h), Distinct-Permᴰ d hs)
  Distinct-Permᴰ (Permᴰ.swap {a = a} {b = b} {b' = b'} {l = l} e f) ((ab, h), (k, hs)) =
      subst (λ x. Distinct (x ∷ b' ∷ l)) f
        (subst (λ x. Distinct (b ∷ x ∷ l)) e ((λ s. ab (sym s), k), (h, hs)))
  Distinct-Permᴰ (Permᴰ.trans d e) h = Distinct-Permᴰ e (Distinct-Permᴰ d h)

  lookup-swap :
      (key : Bytes) (a b : Bytes × C) (l : Map C)
      → a.0 ≢ b.0
      → lookup key (a ∷ b ∷ l) ≡ lookup key (b ∷ a ∷ l)
  unfolding lookup
  lookup-swap key a b l n = ground (arith, n, text_eq_sound a.0 key, text_eq_sound b.0 key)

  -- With distinct names, a search does not depend on the order of the entries.
  pub lookup-Permᴰ :
      {m n : Map C} (key : Bytes) → Permᴰ m n → Distinct m → lookup key m ≡ lookup key n
  unfolding lookup
  lookup-Permᴰ key Permᴰ.nil h = refl
  lookup-Permᴰ key (Permᴰ.cons {a = a} {l₂ = n} e d) (h, hs) =
      ap (λ o. if text_eq a.0 key then some a.1 else o) (lookup-Permᴰ key d hs)
      ∙ ap (λ x. lookup key (x ∷ n)) e
  lookup-Permᴰ key (Permᴰ.swap {a = a} {b = b} {b' = b'} {l = l} e f) ((ab, h), hs) =
      lookup-swap key a b l ab
      ∙ ap (λ x. lookup key (b ∷ x ∷ l)) e
      ∙ ap (λ x. lookup key (x ∷ b' ∷ l)) f
  lookup-Permᴰ key (Permᴰ.trans d e) h =
      lookup-Permᴰ key d h ∙ lookup-Permᴰ key e (Distinct-Permᴰ d h)

  insert-All :
      (P : Bytes × C → Type 0) (key : Bytes) (value : C) (m : Map C)
      → ((v : C) → P (key, v))
      → All P m
      → All P (insert key value m)
  unfolding insert
  insert-All P key value [] h hs = (h value, tt)
  insert-All P key value ((k, v) ∷ m) h (p, hs) = elim (Bool-cases (text_eq k key)) [
    | inl e ↦ rw e (subst (λ j. P (j, value)) (sym (text_eq_sound k key e)) (h value), hs)
    | inr e ↦ rw e (p, insert-All P key value m h hs)
  ]

  insert-Distinct :
      (key : Bytes) (value : C) (m : Map C) → Distinct m → Distinct (insert key value m)
  unfolding insert
  insert-Distinct key value [] h = (tt, tt)
  insert-Distinct key value ((k, v) ∷ m) (h, hs) = elim (Bool-cases (text_eq k key)) [
    | inl e ↦ rw e (h, hs)
    | inr e ↦ rw e (
      insert-All (λ f. k ≢ f.0) key value m
          (λ v s. absurd (ground (arith, sym (text_eq_refl k) ∙ ap (text_eq k) s ∙ e))) h,
      insert-Distinct key value m hs,
    )
  ]

  insert_new-Distinct :
      (key : Bytes) (value : C) (m : Map C) → Distinct m → Distinct (insert_new key value m)
  unfolding insert_new
  insert_new-Distinct key value m h = elim (Option-cases (lookup key m)) [
    | inl e ↦ rw (e, insert_new) (insert-Distinct key value m h)
    | inr (old, e) ↦ rw (e, insert_new) h
  ]

  -- The routes behind a sequence of calls, the last of which comes first.
  abbrev pub added : Map C → Map C
  added [] = []
  added ((url, cb) ∷ calls) = add_route_handler url cb (added calls)

  -- The names of the routes are different, whatever was added.
  pub added-Distinct : (calls : Map C) → Distinct (added calls)
  unfolding add_route_handler
  added-Distinct [] = tt
  added-Distinct ((url, cb) ∷ calls) =
      insert_new-Distinct url cb (insert url cb (added calls))
        (insert-Distinct url cb (added calls) (added-Distinct calls))

lookup-added :
    {C : Type 0} (regex : Regex) (url : Bytes) (calls : Map C)
    → lookup url (added calls) ≡ lookup url calls
unfolding lookup
lookup-added regex url [] = refl
lookup-added regex url ((j, cb) ∷ calls) =
    (query_endpoint-add_route_handler regex j cb (added calls)).1 url
    ∙ ap (λ o. if text_eq j url then some cb else o) (lookup-added regex url calls)

-- In whatever order the map of the added routes is iterated: a URL that is the name of a route is
-- answered by the callback that was added for it last.
pub query_endpoint_any_order :
    {C : Type 0} (regex : Regex) (calls routes : Map C) (url : Bytes) (cb : C)
    → Permᴰ (added calls) routes
    → lookup url calls ≡ some cb
    → query_endpoint_from_map regex url routes ≡ some (url, some cb)
query_endpoint_any_order regex calls routes url cb p h =
    query_endpoint-lookup regex url routes cb
      (sym (lookup-Permᴰ url p (added-Distinct calls)) ∙ lookup-added regex url calls ∙ h)
