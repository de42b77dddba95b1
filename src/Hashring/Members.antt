-- ===== src/Hashring/Members.antt =====
-- internal/hashring/hashring.go: `build` keeps the last member of each id, in the order of the ids.
use nw_lb_go.Base.{
  ◌≡◌, refl, sym, ◌∙◌, ap, inl, inr, Bool, true, false, List, [], ◌∷◌, ◌++◌, Str, str_eq,
  str_eq_refl, str_eq→eq, str_eq_symm, str_lt, str_lt_irrefl, str_lt_trans, str_lt_total, All,
  arith, Bool-cases, not, snoc,
}
use mathlib.Core.List.{append_assoc, append-nil}
use nw_lb_go.Base.Sort.{
  keep, insert_by, sort_by, IsOrder, IsSorted, insert_by-All, sort_by-All, sort_by-IsSorted,
  sort_by_of_IsSorted, keep-All, keep-sort_by,
}
use nw_lb_go.Hashring.Types.{Member, put, uniq_from, member_lt, point_lt}

str_lt-split : (x y z : Str) → str_lt z x ≡ true → str_lt y x ≡ false → str_lt z y ≡ true
str_lt-split x y z p q = elim (Bool-cases (str_lt z y)) [
  | inl e ↦ e
  | inr e ↦ elim (Bool-cases (str_eq z y)) [
    | inl same ↦ cc (p, q, str_eq→eq z y same)
    | inr other ↦ cc (q, str_lt_trans y z x (str_lt_total z y other e) p)
  ]
]

str_lt-asym : (x y : Str) → str_lt x y ≡ true → str_lt y x ≡ false
str_lt-asym x y p = elim (Bool-cases (str_lt y x)) [
  | inl e ↦ cc (str_lt_trans x y x p e, str_lt_irrefl x)
  | inr e ↦ e
]

pub member_lt-IsOrder : IsOrder member_lt
member_lt-IsOrder = record {
  split = λ x y z. str_lt-split x.id y.id z.id;
  asym = λ x y. str_lt-asym x.id y.id;
}

pub point_lt-IsOrder : IsOrder point_lt
point_lt-IsOrder = record {
  split = λ x y z p q. ground (arith, str_lt-split x.owner y.owner z.owner);
  asym = λ x y p. ground (arith, str_lt-asym x.owner y.owner);
}

-- No id stands twice.
abbrev pub Fresh : Str → List Member → Type 0
Fresh id = All (λ y. str_eq id y.id ≡ false)

abbrev pub Distinct : List Member → Type 0
Distinct [] = Unit {0}
Distinct (x ∷ xs) = Fresh x.id xs × Distinct xs

-- Strictly ascending ids.
abbrev pub Ascending : List Member → Type 0
Ascending [] = Unit {0}
Ascending (x ∷ xs) = All (λ y. str_lt x.id y.id ≡ true) xs × Ascending xs

pub lt-ne : (s t : Str) → str_lt s t ≡ true → str_eq s t ≡ false
lt-ne s t h = elim (Bool-cases (str_eq s t)) [
  | inl e ↦ cc (h, str_eq→eq s t e, str_lt_irrefl t)
  | inr e ↦ e
]

insert_by-Distinct :
    (x : Member) (l : List Member) → Fresh x.id l → Distinct l → Distinct (insert_by member_lt x l)
unfolding insert_by
insert_by-Distinct x [] f d = (tt, tt)
insert_by-Distinct x (y ∷ l) f d = elim (Bool-cases (member_lt y x)) [
  | inl e ↦ rw e (
    insert_by-All (λ z. str_eq y.id z.id ≡ false) member_lt x l (str_eq_symm x.id y.id f.0) d.0,
    insert_by-Distinct x l f.1 d.1,
  )
  | inr e ↦ rw e (f, d)
]

sort_by-Distinct : (l : List Member) → Distinct l → Distinct (sort_by member_lt l)
unfolding sort_by
sort_by-Distinct [] d = tt
sort_by-Distinct (x ∷ l) d =
    insert_by-Distinct x (sort_by member_lt l)
      (sort_by-All (λ z. str_eq x.id z.id ≡ false) member_lt l d.0) (sort_by-Distinct l d.1)

put-Fresh :
    (id : Str) (m : Member) (l : List Member)
    → str_eq id m.id ≡ false
    → Fresh id l
    → Fresh id (put m l)
unfolding put
put-Fresh id m [] e f = (e, tt)
put-Fresh id m (x ∷ l) e f = elim (Bool-cases (str_eq x.id m.id)) [
  | inl h ↦ rw h (e, f.1)
  | inr h ↦ rw h (f.0, put-Fresh id m l e f.1)
]

put-Distinct : (m : Member) (l : List Member) → Distinct l → Distinct (put m l)
unfolding put
put-Distinct m [] d = (tt, tt)
put-Distinct m (x ∷ l) d = elim (Bool-cases (str_eq x.id m.id)) [
  | inl h ↦ rw h (fresh_as (str_eq→eq x.id m.id h), d.1)
  | inr h ↦ rw h (put-Fresh x.id m l h d.0, put-Distinct m l d.1)
]
  where
    fresh_as : x.id ≡ m.id → Fresh m.id l
    fresh_as e = rw (← e) d.0

uniq_from-Distinct : (acc ms : List Member) → Distinct acc → Distinct (uniq_from acc ms)
unfolding uniq_from
uniq_from-Distinct acc [] d = d
uniq_from-Distinct acc (m ∷ ms) d = uniq_from-Distinct (put m acc) ms (put-Distinct m acc d)

Distinct→Ascending : (l : List Member) → IsSorted member_lt l → Distinct l → Ascending l
Distinct→Ascending [] s d = tt
Distinct→Ascending (x ∷ l) s d = (strictly x.id l s.0 d.0, Distinct→Ascending l s.1 d.1)
  where
    strictly :
        (id : Str) (l : List Member)
        → All (λ y. str_lt y.id id ≡ false) l
        → Fresh id l
        → All (λ y. str_lt id y.id ≡ true) l
    strictly id [] s f = tt
    strictly id (y ∷ l) s f =
        (str_lt_total y.id id (str_eq_symm id y.id f.0) s.0, strictly id l s.1 f.1)

-- What `build` makes of a membership.
abbrev pub normal : List Member → List Member
normal ms = sort_by member_lt (uniq_from [] ms)

-- The members of a ring stand in strictly ascending order of their ids.
pub normal-Ascending : (ms : List Member) → Ascending (normal ms)
normal-Ascending ms =
    Distinct→Ascending (normal ms) (sort_by-IsSorted member_lt member_lt-IsOrder (uniq_from [] ms))
      (sort_by-Distinct (uniq_from [] ms) (uniq_from-Distinct [] ms tt))

Ascending→IsSorted : (l : List Member) → Ascending l → IsSorted member_lt l
Ascending→IsSorted [] a = tt
Ascending→IsSorted (x ∷ l) a = (weakly x.id l a.0, Ascending→IsSorted l a.1)
  where
    weakly :
        (id : Str) (l : List Member)
        → All (λ y. str_lt id y.id ≡ true) l
        → All (λ y. str_lt y.id id ≡ false) l
    weakly id [] h = tt
    weakly id (y ∷ l) h = (str_lt-asym id y.id h.0, weakly id l h.1)

Ascending→Distinct : (l : List Member) → Ascending l → Distinct l
Ascending→Distinct [] a = tt
Ascending→Distinct (x ∷ l) a = (apart x.id l a.0, Ascending→Distinct l a.1)
  where
    apart : (id : Str) (l : List Member) → All (λ y. str_lt id y.id ≡ true) l → Fresh id l
    apart id [] h = tt
    apart id (y ∷ l) h = (lt-ne id y.id h.0, apart id l h.1)

put-append :
    (m : Member) (l : List Member) → All (λ y. str_eq y.id m.id ≡ false) l → put m l ≡ l ++ m ∷ []
unfolding put
put-append m [] h = refl
put-append m (x ∷ l) h = rw (h.0) (ap (◌∷◌ x) (put-append m l h.1))

Distinct-apart :
    (acc : List Member) (m : Member) (ms : List Member)
    → Distinct (acc ++ m ∷ ms)
    → All (λ y. str_eq y.id m.id ≡ false) acc
Distinct-apart [] m ms d = tt
Distinct-apart (x ∷ acc) m ms d = (at_middle x.id acc d.0, Distinct-apart acc m ms d.1)
  where
    at_middle : (id : Str) (acc : List Member) → Fresh id (acc ++ m ∷ ms) → str_eq id m.id ≡ false
    at_middle id [] f = f.0
    at_middle id (y ∷ acc) f = at_middle id acc f.1

-- A membership with no id twice is kept whole and in order.
uniq_from-append : (acc ms : List Member) → Distinct (acc ++ ms) → uniq_from acc ms ≡ acc ++ ms
unfolding uniq_from
uniq_from-append acc [] d = sym (append-nil acc)
uniq_from-append acc (m ∷ ms) d =
    rw (put-append m acc (Distinct-apart acc m ms d))
      (uniq_from-append (acc ++ m ∷ []) ms (rw append_assoc d) ∙ append_assoc acc (m ∷ []) ms)

pub uniq_from_of_Distinct : (ms : List Member) → Distinct ms → uniq_from [] ms ≡ ms
uniq_from_of_Distinct ms d = uniq_from-append [] ms d

pub normal_of_Ascending : (ms : List Member) → Ascending ms → normal ms ≡ ms
normal_of_Ascending ms a =
    rw (uniq_from_of_Distinct ms (Ascending→Distinct ms a))
      (sort_by_of_IsSorted member_lt member_lt-IsOrder ms (Ascending→IsSorted ms a))

pub keep-Ascending : (p : Member → Bool) (ms : List Member) → Ascending ms → Ascending (keep p ms)
unfolding keep
keep-Ascending p [] a = tt
keep-Ascending p (x ∷ ms) a = elim (Bool-cases (p x)) [
  | inl e ↦ rw e (keep-All (λ y. str_lt x.id y.id ≡ true) p ms a.0, keep-Ascending p ms a.1)
  | inr e ↦ rw e (keep-Ascending p ms a.1)
]

uniq_from-snoc :
    (acc ms : List Member) (m : Member) → uniq_from acc (snoc ms m) ≡ put m (uniq_from acc ms)
unfolding uniq_from
uniq_from-snoc acc [] m = refl
uniq_from-snoc acc (x ∷ ms) m = uniq_from-snoc (put x acc) ms m

keep-put :
    (m : Member) (ms : List Member)
    → keep (λ (x : Member). not (str_eq x.id m.id)) (put m ms)
      ≡ keep (λ (x : Member). not (str_eq x.id m.id)) ms
unfolding keep put
keep-put m [] = rw (str_eq_refl m.id)
keep-put m (x ∷ ms) = ground (arith, keep-put m ms, str_eq_refl m.id)

-- Adding a member and leaving its id out again gives the others.
pub without-added :
    (m : Member) (ms : List Member)
    → Ascending ms
    → keep (λ (x : Member). not (str_eq x.id m.id)) (normal (snoc ms m))
      ≡ keep (λ (x : Member). not (str_eq x.id m.id)) ms
without-added m ms a =
    let other = λ (x : Member). not (str_eq x.id m.id) in
    let all_in : uniq_from [] (snoc ms m) ≡ put m ms =
      uniq_from-snoc [] ms m ∙ ap (put m) (uniq_from_of_Distinct ms (Ascending→Distinct ms a)) in
    keep-sort_by member_lt member_lt-IsOrder other (uniq_from [] (snoc ms m))
    ∙ ap (sort_by member_lt) (ap (keep other) all_in ∙ keep-put m ms)
    ∙ sort_by_of_IsSorted member_lt member_lt-IsOrder (keep other ms)
        (Ascending→IsSorted (keep other ms) (keep-Ascending other ms a))
