-- ===== src/Hashring/Preference.antt =====
-- internal/hashring/hashring.go: the preference order that `GetN` returns.
use nw_lb_go.Base.{
  ℕ, zero, suc, ◌+◌, ◌%◌, ◌≤◌, ◌<◌, ◌≡◌, refl, ◌⊎◌, inl, inr, true, false, List, [], ◌∷◌, Str,
  str_eq, str_eq→eq, str_eq_refl, arith, Bool-cases, length, ◌==◌, snoc, get_or, length-snoc,
  ==_iff,
}
use native.Mathlib.Decide.{dec_lt}
use nw_lb_go.Hashring.Types.{Snapshot}
use nw_lb_go.Hashring.Ring.{contains, get_n_loop}

-- No string stands twice.
abbrev pub Unique : List Str → Type 0
Unique [] = Unit {0}
Unique (x ∷ xs) = (contains xs x ≡ false) × Unique xs

contains-snoc_old :
    (xs : List Str) (x s : Str) → contains xs s ≡ true → contains (snoc xs x) s ≡ true
unfolding contains
contains-snoc_old [] x s h = cc
contains-snoc_old (y ∷ xs) x s h = ground (arith, contains-snoc_old xs x s)

contains-snoc_new : (xs : List Str) (x : Str) → contains (snoc xs x) x ≡ true
unfolding contains
contains-snoc_new [] x = rw (str_eq_refl x)
contains-snoc_new (y ∷ xs) x = ground (arith, contains-snoc_new xs x)

contains-snoc_none :
    (xs : List Str) (x s : Str)
    → contains xs s ≡ false
    → str_eq x s ≡ false
    → contains (snoc xs x) s ≡ false
unfolding contains
contains-snoc_none [] x s h n = ground arith
contains-snoc_none (y ∷ xs) x s h n = ground (arith, contains-snoc_none xs x s)

snoc-Unique : (xs : List Str) (x : Str) → Unique xs → contains xs x ≡ false → Unique (snoc xs x)
unfolding contains
snoc-Unique [] x u n = (refl, tt)
snoc-Unique (y ∷ xs) x u n = elim (Bool-cases (str_eq x y)) [
  | inl same ↦ cc (n, str_eq→eq x y same, str_eq_refl y)
  | inr apart ↦ (contains-snoc_none xs x y u.0 apart, snoc-Unique xs x u.1 (ground arith))
]

-- What one walk leaves: the owners are unique and no more than asked for.
pub record Walked (s : Snapshot) (n start k i : ℕ) (out res : List Str) : Type 0 where
  pub unique : Unique res
  pub bounded : length res ≤ n
  -- The walk stops early only with `n` owners; otherwise it has passed every position.
  pub complete :
      (j : ℕ)
      → i ≤ j
      → j < i + k
      → (length res ≡ n)
        ⊎ (contains res (get_or s.owners ((start + j) % length s.hashes) []) ≡ true)
  pub extends : (x : Str) → contains out x ≡ true → contains res x ≡ true

module _ (s : Snapshot) (n start : ℕ) where
  abbrev owner_at : ℕ → Str
  owner_at i = get_or s.owners ((start + i) % length s.hashes) []

  later :
      (k i : ℕ) (out out' res : List Str)
      → contains res (owner_at i) ≡ true
      → ((x : Str) → contains out x ≡ true → contains out' x ≡ true)
      → Walked s n start k (i + 1) out' res
      → Walked s n start (suc k) i out res
  later k i out out' res here grows w = record {
    unique = w.unique;
    bounded = w.bounded;
    complete = λ j a b. at_or_later j a b (dec_lt i j);
    extends = λ x h. w.extends x (grows x h);
  }
    where
      at_or_later :
          (j : ℕ)
          → i ≤ j
          → j < i + suc k
          → Dec (i < j)
          → (length res ≡ n) ⊎ (contains res (owner_at j) ≡ true)
      at_or_later j a b (yes p) = w.complete j (omega arith) (omega arith)
      at_or_later j a b (no p) = let e : i ≡ j = omega arith in inr (rw (← e) here)

  pub get_n_loop-Walked :
      (k i : ℕ) (out : List Str)
      → Unique out
      → length out < n
      → Walked s n start k i out (get_n_loop s n start k i out)
  unfolding get_n_loop
  get_n_loop-Walked zero i out u small = record {
    unique = u;
    bounded = omega arith;
    complete = λ j a b. absurd (omega arith);
    extends = λ x h. h;
  }
  get_n_loop-Walked (suc k) i out u small = elim (Bool-cases (contains out (owner_at i))) [
    | inl old ↦
        let w = get_n_loop-Walked k (i + 1) out u small in
        rw old (later k i out out _ (w.extends (owner_at i) old) (λ x h. h) w)
    | inr new ↦
        let longer = snoc out (owner_at i) in
        let uniq = snoc-Unique out (owner_at i) u new in
        let size = length-snoc out (owner_at i) in
        elim (Bool-cases (length longer == n)) [
          | inl full ↦
              rw (new, full)
                (record {
                  unique = uniq;
                  bounded = omega (arith, (==_iff (length longer) n).0 full);
                  complete = λ j a b. inl ((==_iff (length longer) n).0 full);
                  extends = λ x h. contains-snoc_old out (owner_at i) x h;
                })
          | inr room ↦
              let w = get_n_loop-Walked k (i + 1) longer uniq (ground (arith, size)) in
              rw (new, room)
                (later k i out longer _
                  (w.extends (owner_at i) (contains-snoc_new out (owner_at i)))
                  (λ x h. contains-snoc_old out (owner_at i) x h) w)
        ]
  ]
