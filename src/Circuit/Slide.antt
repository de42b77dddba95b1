-- ===== src/Circuit/Slide.antt =====
-- internal/circuit/circuit.go: the ring of buckets refines a queue that slides, oldest bucket first.
use nw_lb_go.Base.{
  ℕ, zero, suc, ◌+◌, ◌-◌, ◌%◌, ◌≤◌, ◌<◌, ◌≡◌, refl, sym, ◌∙◌, ap, ◌⊎◌, inl, inr, List, [], ◌∷◌,
  ◌++◌, Bool, length, get_or, set, take, drop, replicate, length-append, length-take, length-drop,
  true, arith,
}
use Prim.Native.Nat.add
use mathlib.Core.List.{append_assoc, append-nil}
use native.Mathlib.Nat.{mod-eq_of_lt, div-eq_of_lt}
use native.Mathlib.Decide.{dec_lt}
use nw_lb_go.Circuit.Types.{Bucket, empty_bucket, Breaker}
use nw_lb_go.Circuit.Window.{
  clear_locked, retire_next, retire, advance_locked, count_locked, count_in,
}
use nw_lb_go.Circuit.WindowLaws.{
  IsWindow, retire_next-IsWindow, advance_locked-IsWindow, rounds, is_early, advance_cases,
}

-- The buckets from the oldest to the one being filled.
abbrev pub view : Breaker → List Bucket
view b = drop (suc b.idx) b.buckets ++ take (suc b.idx) b.buckets

-- The oldest bucket leaves, and an empty one comes in.
abbrev pub slide_one : List Bucket → List Bucket
slide_one [] = []
slide_one (k ∷ ks) = ks ++ empty_bucket ∷ []

pub slide : ℕ → List Bucket → List Bucket
slide zero ks = ks
slide (suc n) ks = slide n (slide_one ks)

module _ (v : Bucket) where
  drop-set : (ks : List Bucket) (i : ℕ) → drop (suc i) (set ks i v) ≡ drop (suc i) ks
  drop-set [] i = refl
  drop-set (k ∷ ks) zero = refl
  drop-set (k ∷ ks) (suc i) = drop-set ks i

  take-set :
      (ks : List Bucket) (i : ℕ) → i < length ks → take (suc i) (set ks i v) ≡ take i ks ++ v ∷ []
  take-set [] i h = elim h [ ]
  take-set (k ∷ ks) zero h = refl
  take-set (k ∷ ks) (suc i) h = ap (◌∷◌ k) (take-set ks i (omega arith))

drop-get_or :
    (ks : List Bucket) (i : ℕ)
    → i < length ks
    → drop i ks ≡ get_or ks i empty_bucket ∷ drop (suc i) ks
drop-get_or [] i h = elim h [ ]
drop-get_or (k ∷ ks) zero h = refl
drop-get_or (k ∷ ks) (suc i) h = drop-get_or ks i (omega arith)

drop_all : (ks : List Bucket) → drop (length ks) ks ≡ []
drop_all [] = refl
drop_all (k ∷ ks) = drop_all ks

take_all : (ks : List Bucket) → take (length ks) ks ≡ ks
take_all [] = refl
take_all (k ∷ ks) = ap (◌∷◌ k) (take_all ks)

-- One step of the ring, at the index of the next bucket.
slide_at :
    (ks : List Bucket) (i : ℕ)
    → suc i < length ks
    → slide_one (drop (suc i) ks ++ take (suc i) ks)
      ≡ drop (suc (suc i)) (set ks (suc i) empty_bucket)
        ++ take (suc (suc i)) (set ks (suc i) empty_bucket)
slide_at ks i h =
    rw
      (
        drop-set empty_bucket ks (suc i),
        take-set empty_bucket ks (suc i) h,
        drop-get_or ks (suc i) h,
      )
      (append_assoc (drop (suc (suc i)) ks) (take (suc i) ks) (empty_bucket ∷ []))

slide_wrap :
    (ks : List Bucket) (i : ℕ)
    → suc i ≡ length ks
    → slide_one (drop (suc i) ks ++ take (suc i) ks)
      ≡ drop 1 (set ks 0 empty_bucket) ++ take 1 (set ks 0 empty_bucket)
slide_wrap [] i h = absurd (omega arith)
slide_wrap (k ∷ ks) i h = let e : i ≡ length ks = omega arith in rw (e, drop_all ks, take_all ks)

next_index :
    (i n : ℕ) → i < n → ((suc i < n) × ((i + 1) % n ≡ suc i)) ⊎ ((suc i ≡ n) × ((i + 1) % n ≡ 0))
next_index i n h = elim (dec_lt (suc i) n) [
  | yes inside ↦ inl (inside, grind (arith, mod-eq_of_lt))
  | no at_end ↦ inr (omega arith, grind arith)
]

view-retire_next : (b : Breaker) → IsWindow b → view (retire_next b) ≡ slide_one (view b)
unfolding retire_next
view-retire_next b w = elim (next_index b.idx (length b.buckets) w.in_range) [
  | inl (inside, e) ↦ rw e (sym (slide_at b.buckets b.idx inside))
  | inr (at_end, e) ↦ rw e (sym (slide_wrap b.buckets b.idx at_end))
]

view-retire : (n : ℕ) (b : Breaker) → IsWindow b → view (retire n b) ≡ slide n (view b)
unfolding retire slide
view-retire zero b w = refl
view-retire (suc n) b w =
    view-retire n (retire_next b) (retire_next-IsWindow b w) ∙ ap (slide n) (view-retire_next b w)

slide-append :
    (xs ys : List Bucket) → slide (length xs) (xs ++ ys) ≡ ys ++ replicate (length xs) empty_bucket
unfolding slide
slide-append [] ys = sym (append-nil ys)
slide-append (x ∷ xs) ys =
    ap (slide (length xs)) (append_assoc xs ys (empty_bucket ∷ []))
    ∙ slide-append xs (ys ++ empty_bucket ∷ [])
    ∙ append_assoc ys (empty_bucket ∷ []) (replicate (length xs) empty_bucket)

replicate-append_one :
    (n : ℕ) → replicate n empty_bucket ++ empty_bucket ∷ [] ≡ replicate (suc n) empty_bucket
replicate-append_one zero = refl
replicate-append_one (suc n) = ap (◌∷◌ empty_bucket) (replicate-append_one n)

slide-replicate : (k n : ℕ) → slide k (replicate n empty_bucket) ≡ replicate n empty_bucket
unfolding slide
slide-replicate zero n = refl
slide-replicate (suc k) zero = slide-replicate k zero
slide-replicate (suc k) (suc n) = ap (slide k) (replicate-append_one n) ∙ slide-replicate k (suc n)

slide-slide : (m k : ℕ) (ks : List Bucket) → slide (m + k) ks ≡ slide k (slide m ks)
unfolding slide
slide-slide zero k ks = rw (add.zero k)
slide-slide (suc m) k ks = rw (add.suc m k) (slide-slide m k (slide_one ks))

-- A slide past the whole window empties it.
slide_all :
    (n : ℕ) (ks : List Bucket) → length ks ≤ n → slide n ks ≡ replicate (length ks) empty_bucket
slide_all n ks h =
    let m = length ks in
    let e : n ≡ m + (n - m) = omega arith in
    let all_out : slide m ks ≡ replicate m empty_bucket =
      ap (slide m) (sym (append-nil ks)) ∙ slide-append ks [] in
    ap (λ k. slide k ks) e
    ∙ slide-slide m (n - m) ks
    ∙ ap (slide (n - m)) all_out
    ∙ slide-replicate (n - m) m

view-clear_locked :
    (b : Breaker) (now : ℕ)
    → IsWindow b
    → view (clear_locked b now) ≡ replicate (length b.buckets) empty_bucket
unfolding clear_locked
view-clear_locked b now w = cleared (length b.buckets) (omega (arith, w.in_range))
  where
    cleared :
        (n : ℕ)
        → 0 < n
        → drop 1 (replicate n empty_bucket) ++ take 1 (replicate n empty_bucket)
          ≡ replicate n empty_bucket
    cleared zero h = elim h [ ]
    cleared (suc n) h = replicate-append_one n

length-view : (b : Breaker) → length (view b) ≡ length b.buckets
length-view b = omega (
  arith,
  length-append (drop (suc b.idx) b.buckets) (take (suc b.idx) b.buckets),
  length-drop (suc b.idx) b.buckets,
  length-take (suc b.idx) b.buckets,
)

rounds_early : (b : Breaker) (now : ℕ) → 0 < b.bucket_dur → is_early b now ≡ true → rounds b now ≡ 0
rounds_early b now wide e = div-eq_of_lt (ground arith)

-- What the buckets become when `now` is reached: the window slides by one for each whole bucket that
-- has passed since the newest one began, however many that are.
pub view-advance_locked :
    (b : Breaker) (now : ℕ)
    → IsWindow b
    → view (advance_locked b now) ≡ slide (rounds b now) (view b)
view-advance_locked b now w =
    advance_cases (λ c. view c ≡ slide (rounds b now) (view b)) b now
      (λ e. rw (rounds_early b now w.wide e) (unfold slide in refl))
      (λ _ gone.
        view-clear_locked b now w
        ∙ ap (λ n. replicate n empty_bucket) (sym (length-view b))
        ∙ sym (slide_all (rounds b now) (view b) (rw (length-view b) gone)))
      (λ _ _. view-retire (rounds b now) b w)

-- An outcome goes into the newest bucket.
abbrev pub on_last : Bool → List Bucket → List Bucket
on_last failed [] = []
on_last failed (k ∷ []) = count_in failed k ∷ []
on_last failed (k ∷ l ∷ ks) = k ∷ on_last failed (l ∷ ks)

on_last-append :
    (failed : Bool) (ks : List Bucket) (k : Bucket)
    → on_last failed (ks ++ k ∷ []) ≡ ks ++ count_in failed k ∷ []
on_last-append failed [] k = refl
on_last-append failed (j ∷ []) k = refl
on_last-append failed (j ∷ l ∷ ks) k = ap (◌∷◌ j) (on_last-append failed (l ∷ ks) k)

take-suc :
    (ks : List Bucket) (i : ℕ)
    → i < length ks
    → take (suc i) ks ≡ take i ks ++ get_or ks i empty_bucket ∷ []
take-suc [] i h = elim h [ ]
take-suc (k ∷ ks) zero h = refl
take-suc (k ∷ ks) (suc i) h = ap (◌∷◌ k) (take-suc ks i (omega arith))

view-count_locked :
    (b : Breaker) (failed : Bool)
    → IsWindow b
    → view (count_locked b failed) ≡ on_last failed (view b)
unfolding count_locked
view-count_locked b failed w =
    let k = get_or b.buckets b.idx empty_bucket in
    let older = drop (suc b.idx) b.buckets in
    let before = take b.idx b.buckets in
    rw
      (
        drop-set (count_in failed k) b.buckets b.idx,
        take-set (count_in failed k) b.buckets b.idx w.in_range,
      )
      (sym (append_assoc older before (count_in failed k ∷ []))
        ∙ sym (on_last-append failed (older ++ before) k)
        ∙ ap (on_last failed) (
            append_assoc older before (k ∷ [])
            ∙ ap (λ t. older ++ t) (sym (take-suc b.buckets b.idx w.in_range))))

-- The ring of buckets of a well-formed window is a queue: to count an outcome at `now` slides it by the buckets that have
-- passed and adds the outcome to the newest one. Nothing else of it changes, whatever the index at
-- which the ring stands.
pub window_slides :
    (b : Breaker) (failed : Bool) (now : ℕ)
    → IsWindow b
    → view (count_locked (advance_locked b now) failed)
      ≡ on_last failed (slide (rounds b now) (view b))
window_slides b failed now w =
    view-count_locked (advance_locked b now) failed (advance_locked-IsWindow b now w)
    ∙ ap (on_last failed) (view-advance_locked b now w)
