-- ===== src/Proxy/Forwarded.antt =====
-- internal/proxy/proxy.go: what `forwardMD` sends upstream under each key.
use nw_lb_go.Base.{
  append_assoc, append_nil, take, str_eq_symm, ◌≡◌, ◌∙◌, sym, ap, refl, Bool, true, false, not,
  ◌||◌, ◌&&◌, if◌then◌else◌, if_elim, Bool-cases, inl, inr, List, [], ◌∷◌, ◌++◌, Str, str_eq,
  str_eq→eq, str_eq_refl, codes, arith,
}
use nw_lb_go.Config.Text.{to_lower}
use nw_lb_go.Middleware.Request.{Context, peer_ip}
use nw_lb_go.Proxy.Forward.{
  Md, forwarded_for_header, among, is_pseudo, md_append, md_get, dropped, copied, copy_md,
  forward_md,
}

-- Whether a name belongs to one hop: the pseudo-headers, which start with a colon, and seven more.
abbrev pub stays_behind : Str → Bool
stays_behind k =
    str_eq (take 1 k) (codes ":")
    || (str_eq k (codes "connection")
        || (str_eq k (codes "te")
            || (str_eq k (codes "trailer")
                || (str_eq k (codes "transfer-encoding")
                    || (str_eq k (codes "upgrade")
                        || (str_eq k (codes "keep-alive")
                            || str_eq k (codes "proxy-authorization")))))))

-- The values that a key has under any spelling, in the order of the visit.
abbrev pub values_under : Str → Md → List Str
values_under k [] = []
values_under k ((j, vals) ∷ md) =
    if str_eq (to_lower j) k then vals ++ values_under k md else values_under k md

md_get-append :
    (k j : Str) (vals : List Str) (md : Md)
    → md_get k (md_append j vals md) ≡ (if str_eq j k then md_get k md ++ vals else md_get k md)
unfolding md_get md_append
md_get-append k j vals [] = ground arith
md_get-append k j vals ((i, old) ∷ md) = elim (Bool-cases (str_eq i j)) [
  | inl same ↦
      let e : str_eq i k ≡ str_eq j k = ap (λ s. str_eq s k) (str_eq→eq i j same) in
      rw (same, e) (ground arith)
  | inr apart ↦ elim (Bool-cases (str_eq i k)) [
    | inr other ↦ rw (apart, other) (md_get-append k j vals md)
    | inl here ↦
        let differs : str_eq j k ≡ false = differ i j k here apart in rw (apart, here, differs) refl
  ]
]
  where
    differ : (i j k : Str) → str_eq i k ≡ true → str_eq i j ≡ false → str_eq j k ≡ false
    differ i j k a b = elim (Bool-cases (str_eq j k)) [
      | inr n ↦ n
      | inl c ↦
          let e : i ≡ j = str_eq→eq i k a ∙ sym (str_eq→eq j k c) in
          let t : str_eq i j ≡ true = rw (← e) (str_eq_refl i) in cc
    ]

md_get-copied :
    (k lk : Str) (vals : List Str) (out : Md)
    → md_get k (copied lk vals out)
      ≡ md_get k out ++ (if dropped k then [] else if str_eq lk k then vals else [])
unfolding copied
md_get-copied k lk vals out =
    let x = md_get k out in
    if_elim (λ o. md_get k o ≡ x ++ (if dropped k then [] else if str_eq lk k then vals else []))
      (dropped lk)
      (λ d. left_out (dropped k) (str_eq lk k) x (λ e. ap dropped (sym (str_eq→eq lk k e)) ∙ d))
      (λ d.
        md_get-append k lk vals out
        ∙ put_in (dropped k) (str_eq lk k) x (λ e. ap dropped (sym (str_eq→eq lk k e)) ∙ d))
  where
    left_out :
        (b e : Bool) (x : List Str)
        → (e ≡ true → b ≡ true)
        → x ≡ x ++ (if b then [] else if e then vals else [])
    left_out true e x h = sym (append_nil x)
    left_out false false x h = sym (append_nil x)
    left_out false true x h = cc (h refl)

    put_in :
        (b e : Bool) (x : List Str)
        → (e ≡ true → b ≡ false)
        → (if e then x ++ vals else x) ≡ x ++ (if b then [] else if e then vals else [])
    put_in true true x h = cc (h refl)
    put_in true false x h = sym (append_nil x)
    put_in false true x h = refl
    put_in false false x h = sym (append_nil x)

md_get-copy :
    (k : Str) (md out : Md)
    → md_get k (copy_md md out) ≡ md_get k out ++ (if dropped k then [] else values_under k md)
unfolding copy_md
md_get-copy k [] out = elim (Bool-cases (dropped k)) [
  | inl d ↦ simp d (sym (append_nil (md_get k out)))
  | inr d ↦ simp d (sym (append_nil (md_get k out)))
]
md_get-copy k ((j, vals) ∷ md) out =
    let lk = to_lower j in
    md_get-copy k md (copied lk vals out)
    ∙ (ap (λ x. x ++ (if dropped k then [] else values_under k md)) (md_get-copied k lk vals out)
        ∙ (append_assoc (md_get k out) (if dropped k then [] else if str_eq lk k then vals else [])
              (if dropped k then [] else values_under k md)
            ∙ ap (md_get k out ++◌) (joined (dropped k) (str_eq lk k))))
  where
    joined :
        (d e : Bool)
        → (if d then [] else if e then vals else []) ++ (if d then [] else values_under k md)
          ≡ (if d then [] else if e then vals ++ values_under k md else values_under k md)
    joined true e = refl
    joined false true = refl
    joined false false = refl

forward_md-values :
    (ctx : Context) (k : Str)
    → md_get k (forward_md ctx)
      ≡ (if dropped k then [] else values_under k ctx.incoming)
        ++ (if str_eq forwarded_for_header k && not (str_eq (peer_ip ctx) [])
            then peer_ip ctx ∷ []
            else [])
unfolding forward_md md_get
forward_md-values ctx k =
    let ip = peer_ip ctx in
    let out = copy_md ctx.incoming [] in
    let base = md_get-copy k ctx.incoming [] in
    if_elim
      (λ o.
        md_get k o
        ≡ (if dropped k then [] else values_under k ctx.incoming)
          ++ (if str_eq forwarded_for_header k && not (str_eq ip []) then ip ∷ [] else []))
      (str_eq ip []) (λ e. base ∙ unknown_peer (str_eq forwarded_for_header k) (str_eq ip []) e)
      (λ e.
        md_get-append k forwarded_for_header (ip ∷ []) out
        ∙ (ap (λ y. if str_eq forwarded_for_header k then y ++ ip ∷ [] else y) base
            ∙ known_peer (str_eq forwarded_for_header k) (str_eq ip []) e))
  where
    x : List Str
    x = if dropped k then [] else values_under k ctx.incoming

    unknown_peer : (m b : Bool) → b ≡ true → x ≡ x ++ (if m && not b then peer_ip ctx ∷ [] else [])
    unknown_peer true true e = sym (append_nil x)
    unknown_peer false b e = sym (append_nil x)
    unknown_peer true false e = cc

    known_peer :
        (m b : Bool)
        → b ≡ false
        → (if m then x ++ peer_ip ctx ∷ [] else x)
          ≡ x ++ (if m && not b then peer_ip ctx ∷ [] else [])
    known_peer true false e = refl
    known_peer false b e = sym (append_nil x)
    known_peer true true e = cc

is_pseudo-take : (k : Str) → is_pseudo k ≡ str_eq (take 1 k) (codes ":")
unfolding is_pseudo str_eq
is_pseudo-take [] = refl
is_pseudo-take (c ∷ s) = ground arith

dropped-stays_behind : (k : Str) → dropped k ≡ stays_behind k
unfolding dropped among
dropped-stays_behind k = rw (is_pseudo-take k) (ground arith)

str_eq_comm : (j k : Str) → str_eq j k ≡ str_eq k j
str_eq_comm j k = elim (Bool-cases (str_eq j k)) [
  | inl same ↦ rw (str_eq→eq j k same) refl
  | inr apart ↦ rw (apart, str_eq_symm j k apart) refl
]

forwarded_for-goes : (k : Str) → str_eq k forwarded_for_header ≡ true → stays_behind k ≡ false
forwarded_for-goes k e =
    ap stays_behind (str_eq→eq k forwarded_for_header e) ∙ (unfold str_eq in refl)

-- What goes upstream under a key in lower case: nothing for a pseudo-header or a header that belongs to
-- the inbound hop; otherwise every value that the inbound metadata has under any spelling of the key,
-- in the order in which the map is visited; and after those, under x-forwarded-for, the address of the
-- caller when it is known.
pub forward_md_lem :
    (ctx : Context) (k : Str)
    → let caller = if str_eq (peer_ip ctx) [] then [] else peer_ip ctx ∷ [] in
      md_get k (forward_md ctx) ≡ (
        if stays_behind k
        then []
        else values_under k ctx.incoming
          ++ (if str_eq k (codes "x-forwarded-for") then caller else []))
forward_md_lem ctx k =
    forward_md-values ctx k
    ∙ rw (dropped-stays_behind k, str_eq_comm forwarded_for_header k)
        (joined (stays_behind k) (str_eq k forwarded_for_header) (str_eq (peer_ip ctx) [])
          (forwarded_for-goes k))
  where
    joined :
        (d m i : Bool)
        → (m ≡ true → d ≡ false)
        → (if d then [] else values_under k ctx.incoming)
            ++ (if m && not i then peer_ip ctx ∷ [] else [])
          ≡ (if d
              then []
              else values_under k ctx.incoming
                ++ (if m then (if i then [] else peer_ip ctx ∷ []) else []))
    joined true true i h = cc (h refl)
    joined true false i h = refl
    joined false false i h = refl
    joined false true true h = refl
    joined false true false h = refl
