-- ===== src/Watching.antt =====
-- What a loop over polled descriptors promises: a bag of watched descriptors, to which connections are
-- added and from which they are dropped. src/tcp_poll_handler.cpp and
-- src/websocket/simple_server_websocket_connection.cpp keep it in a vector.
use simple_server.Prelude.{
  ℕ, ◌≡◌, refl, sym, ap, ◌∙◌, List, [], ◌∷◌, ◌++◌, append_assoc, append-nil, Bag, bag, put,
  take_out,
}

-- A connection is accepted, gets what it is due, or is dropped.
pub data Happening : Type 0 where
  accepted served dropped : ℕ → Happening

pub watch : List Happening → Bag → Bag
watch [] b = b
watch (accepted fd ∷ hs) b = watch hs (put fd b)
watch (served fd ∷ hs) b = watch hs b
watch (dropped fd ∷ hs) b = watch hs (take_out fd b)

pub watch_none : (b : Bag) → watch [] b ≡ b
unfolding watch
watch_none b = refl

pub watch-accepted : (fd : ℕ) (b : Bag) → watch (accepted fd ∷ []) b ≡ put fd b
unfolding watch
watch-accepted fd b = refl

pub watch-served : (fd : ℕ) (b : Bag) → watch (served fd ∷ []) b ≡ b
unfolding watch
watch-served fd b = refl

pub watch-dropped : (fd : ℕ) (b : Bag) → watch (dropped fd ∷ []) b ≡ take_out fd b
unfolding watch
watch-dropped fd b = refl

watch-append : (gs hs : List Happening) (b : Bag) → watch (gs ++ hs) b ≡ watch hs (watch gs b)
unfolding watch
watch-append [] hs b = refl
watch-append (accepted fd ∷ gs) hs b = watch-append gs hs (put fd b)
watch-append (served fd ∷ gs) hs b = watch-append gs hs b
watch-append (dropped fd ∷ gs) hs b = watch-append gs hs (take_out fd b)

-- An implementation says with which of its calls each of these happens.
module _ {C : Type 0} (Emits : Happening → List C → Type 0) where
  pub data Trace : List Happening → List C → Type 0 where
    nothing : Trace [] []
    next :
        {h : Happening} {hs : List Happening} {cs ds : List C}
        → Emits h cs
        → Trace hs ds
        → Trace (h ∷ hs) (cs ++ ds)

  -- The calls are those of some happenings, and these take the one bag to the other.
  abbrev pub Refines : List ℕ → List ℕ → List C → Type 0
  Refines before after calls =
      (hs : List Happening) × Trace hs calls × (bag after ≡ watch hs (bag before))

  Trace-append :
      {gs hs : List Happening} {cs ds : List C}
      → Trace gs cs
      → Trace hs ds
      → Trace (gs ++ hs) (cs ++ ds)
  Trace-append nothing u = u
  Trace-append {hs = hs} {ds = ds} (next {h = h} {hs = gs} {cs = bs} {ds = cs} e t) u =
      rw (append_assoc bs cs ds) (next e (Trace-append t u))

  pub Refines-none : (xs : List ℕ) → Refines xs xs []
  Refines-none xs = ([], nothing, sym (watch_none (bag xs)))

  pub Refines-one :
      {h : Happening} {calls : List C} (before after : List ℕ)
      → Emits h calls
      → bag after ≡ watch (h ∷ []) (bag before)
      → Refines before after calls
  Refines-one {h = h} {calls = calls} before after e step =
      (h ∷ [], rw (sym (append-nil calls)) (next e nothing), step)

  pub Refines-then :
      (xs ys zs : List ℕ) {cs ds : List C}
      → Refines xs ys cs
      → Refines ys zs ds
      → Refines xs zs (cs ++ ds)
  Refines-then xs ys zs (gs, t, e) (hs, u, f) =
      (gs ++ hs, Trace-append t u, f ∙ ap (watch hs) e ∙ sym (watch-append gs hs (bag xs)))
