-- ===== src/Config/RoundTrip.antt =====
-- internal/config/config.go: `ParseBackends` reads back a list written in its own form, "id=addr,id=addr".
use nw_lb_go.Base.{
  ℕ, ◌+◌, ◌≡◌, ◌∙◌, refl, ap, true, false, ◌==◌, if◌then◌else◌, Bool-cases, inl, inr, List, [], ◌∷◌,
  ◌++◌, map, Str, str_eq, All, All-append,
}
use nw_lb_go.Config.Text.{is_space, trim_left, trim_right, trim_space, split_at, cut}
use nw_lb_go.Config.Types.{Backend, default_weight}
use nw_lb_go.Config.Backends.{
  EntryError, parse_named, parse_cut, parse_entry, parse_fields, parse_backends,
}

abbrev pub Plain : ℕ → Type 0
Plain c = (is_space c ≡ false) × ((c == 44) ≡ false)

-- An id and an address that can be written: neither is empty, neither has a space or a comma, and the id
-- has no "=".
pub record IsWritable (b : Str × Str) : Type 0 where
  pub some_id : str_eq (b.0) [] ≡ false
  pub some_addr : str_eq (b.1) [] ≡ false
  pub plain_id : All Plain (b.0)
  pub plain_addr : All Plain (b.1)
  pub no_equals : All (λ c. (c == 61) ≡ false) (b.0)

abbrev pub entry_text : Str × Str → Str
entry_text b = b.0 ++ 61 ∷ b.1

abbrev pub write_backends : List (Str × Str) → Str
write_backends [] = []
write_backends (b ∷ []) = entry_text b
write_backends (b ∷ c ∷ bs) = entry_text b ++ 44 ∷ write_backends (c ∷ bs)

abbrev pub as_backend : Str × Str → Backend
as_backend b = record { id = b.0; addr = b.1; weight = default_weight }

trim_left-Plain : (s : Str) → All Plain s → trim_left s ≡ s
unfolding trim_left
trim_left-Plain [] h = refl
trim_left-Plain (c ∷ s) h = rw (h.0.0) refl

trim_right-Plain : (s : Str) → All Plain s → trim_right s ≡ s
unfolding trim_right
trim_right-Plain [] h = refl
trim_right-Plain (c ∷ []) h = rw (h.0.0) refl
trim_right-Plain (c ∷ d ∷ s) h = rw (trim_right-Plain (d ∷ s) h.1) refl

trim_space-Plain : (s : Str) → All Plain s → trim_space s ≡ s
unfolding trim_space
trim_space-Plain s h = ap trim_right (trim_left-Plain s h) ∙ trim_right-Plain s h

cut-entry :
    (id addr : Str) → All (λ c. (c == 61) ≡ false) id → cut 61 (id ++ 61 ∷ addr) ≡ (id, addr, true)
unfolding cut
cut-entry [] addr h = refl
cut-entry (c ∷ id) addr h = rw (h.0, cut-entry id addr h.1) refl

split_at-Plain : (s : Str) → All Plain s → split_at 44 s ≡ s ∷ []
unfolding split_at
split_at-Plain [] h = refl
split_at-Plain (c ∷ s) h = rw (split_at-Plain s h.1, h.0.1) refl

split_at-some : (s : Str) → (f : Str) × (fs : List Str) × (split_at 44 s ≡ f ∷ fs)
unfolding split_at
split_at-some [] = ([], [], refl)
split_at-some (c ∷ s) =
    let (f, fs, e) = split_at-some s in
    elim (Bool-cases (c == 44)) [
      | inl h ↦ ([], f ∷ fs, rw (e, h) refl)
      | inr h ↦ (c ∷ f, fs, rw (e, h) refl)
    ]

split_at-comma : (s rest : Str) → All Plain s → split_at 44 (s ++ 44 ∷ rest) ≡ s ∷ split_at 44 rest
unfolding split_at
split_at-comma [] rest h = (let (f, fs, e) = split_at-some rest in rw e refl)
split_at-comma (c ∷ s) rest h = rw (split_at-comma s rest h.1, h.0.1) refl

entry_text-Plain : (b : Str × Str) → IsWritable b → All Plain (entry_text b)
entry_text-Plain b w = All-append Plain (b.0) (61 ∷ b.1) w.plain_id ((refl, refl), w.plain_addr)

entry_text-some : (b : Str × Str) → str_eq (entry_text b) [] ≡ false
unfolding str_eq
entry_text-some ([], addr) = refl
entry_text-some (c ∷ id, addr) = refl

parse_entry-written :
    (i : ℕ) (b : Str × Str) → IsWritable b → parse_entry i (entry_text b) ≡ (as_backend b ∷ [], [])
unfolding parse_entry parse_cut parse_named
parse_entry-written i b w =
    let plain = trim_space-Plain (entry_text b) (entry_text-Plain b w) in
    ap (λ f. if str_eq f [] then ([], []) else parse_cut i f (cut 61 f)) plain
    ∙ rw
        (
          entry_text-some b,
          cut-entry (b.0) (b.1) w.no_equals,
          trim_space-Plain (b.0) w.plain_id,
          trim_space-Plain (b.1) w.plain_addr,
          w.some_id,
          w.some_addr,
        )
        refl

fields_one :
    (i : ℕ) (b : Str × Str) (fs : List Str) (cs : List Backend)
    → IsWritable b
    → parse_fields (i + 1) fs ≡ (cs, [])
    → parse_fields i (entry_text b ∷ fs) ≡ (as_backend b ∷ cs, [])
unfolding parse_fields
fields_one i b fs cs w e = rw (parse_entry-written i b w, e) refl

parse_fields-written :
    (i : ℕ) (bs : List (Str × Str))
    → All IsWritable bs
    → parse_fields i (split_at 44 (write_backends bs)) ≡ (map as_backend bs, [])
parse_fields-written i [] h =
    unfold split_at parse_entry parse_fields trim_space trim_left trim_right str_eq in refl
parse_fields-written i (b ∷ []) h =
    ap (parse_fields i) (split_at-Plain (entry_text b) (entry_text-Plain b h.0))
    ∙ fields_one i b [] [] h.0 (unfold parse_fields in refl)
parse_fields-written i (b ∷ c ∷ bs) h =
    ap (parse_fields i)
      (split_at-comma (entry_text b) (write_backends (c ∷ bs)) (entry_text-Plain b h.0))
    ∙ fields_one i b (split_at 44 (write_backends (c ∷ bs))) (map as_backend (c ∷ bs)) h.0
        (parse_fields-written (i + 1) (c ∷ bs) h.1)

-- Reading back what was written: a list of backends whose ids and addresses are not empty and have no
-- space or comma, and whose ids have no "=", is parsed from its text without an error, in order, each
-- with its own address, even one that has a "=", and the default weight.
pub parse_backends-write :
    (bs : List (Str × Str))
    → All IsWritable bs
    → parse_backends (write_backends bs) ≡ (map as_backend bs, [])
unfolding parse_backends
parse_backends-write bs h = ap settle (parse_fields-written 0 bs h)
  where
    settle : List Backend × List EntryError → List Backend × List EntryError
    settle r = elim (r.1) [ [] ↦ (r.0, []) | e ∷ rest ↦ ([], e ∷ rest) ]
