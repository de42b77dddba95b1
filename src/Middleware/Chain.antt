-- ===== src/Middleware/Chain.antt =====
-- internal/middleware/chain.go: `Chain`. A handler with its stream is any type `H`, and an interceptor
-- makes a handler of a handler.
use nw_lb_go.Base.{◌≡◌, refl, ◌∙◌, List, [], ◌∷◌, Option, none, some}

module _ {ℓ} {H : Type ℓ} where
  abbrev pub pass_through : H → H
  pass_through handler = handler

  unfoldable pub link : (H → H) → (H → H) → H → H
  link outer inner handler = outer (inner handler)

  -- The interceptors that are not nil.
  unfoldable pub live : List (Option (H → H)) → List (H → H)
  live [] = []
  live (none ∷ is) = live is
  live (some i ∷ is) = i ∷ live is

  unfoldable pub reverse_onto : List (H → H) → List (H → H) → List (H → H)
  reverse_onto [] acc = acc
  reverse_onto (i ∷ is) acc = reverse_onto is (i ∷ acc)

  -- The loop from the last but one down to the first.
  unfoldable pub link_all : (H → H) → List (H → H) → H → H
  unfolding link
  link_all chained [] = chained
  link_all chained (i ∷ is) = link_all (link i chained) is

  -- The interceptors from the last to the first.
  unfoldable pub links : List (H → H) → H → H
  unfolding link_all
  links [] = pass_through
  links (last ∷ before) = link_all last before

  unfoldable pub chain : List (Option (H → H)) → H → H
  unfolding links reverse_onto
  chain is = links (reverse_onto (live is) [])

  -- The first interceptor around the second, and so on, around the handler.
  abbrev pub around : List (H → H) → H → H
  around [] h = h
  around (i ∷ is) h = i (around is h)

  abbrev from_inside : List (H → H) → H → H
  from_inside [] h = h
  from_inside (i ∷ is) h = from_inside is (i h)

  link_all-from_inside :
      (c : H → H) (is : List (H → H)) (h : H) → link_all c is h ≡ from_inside is (c h)
  unfolding link_all
  link_all-from_inside c [] h = refl
  link_all-from_inside c (i ∷ is) h = link_all-from_inside (link i c) is h

  from_inside-reverse_onto :
      (is acc : List (H → H)) (h : H)
      → from_inside (reverse_onto is acc) h ≡ from_inside acc (around is h)
  unfolding reverse_onto
  from_inside-reverse_onto [] acc h = refl
  from_inside-reverse_onto (i ∷ is) acc h = from_inside-reverse_onto is (i ∷ acc) h

  links-from_inside : (is : List (H → H)) (h : H) → links is h ≡ from_inside is h
  unfolding links
  links-from_inside [] h = refl
  links-from_inside (last ∷ before) h = link_all-from_inside last before h

  -- `Chain` runs the interceptors that are not nil in the order of its arguments, the first outermost,
  -- each around the rest and the handler innermost; with none it is the handler.
  pub chain-around : (is : List (Option (H → H))) (h : H) → chain is h ≡ around (live is) h
  unfolding chain
  chain-around is h =
      links-from_inside (reverse_onto (live is) []) h ∙ from_inside-reverse_onto (live is) [] h
