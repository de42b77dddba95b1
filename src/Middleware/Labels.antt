-- ===== src/Middleware/Labels.antt =====
-- internal/middleware/metrics.go: `boundedLabels`, whose three looks at the shared state may interleave.
use nw_lb_go.Base.{
  ℕ, suc, leb, Bool, false, ◌||◌, if◌then◌else◌, List, [], ◌∷◌, Str, str_eq, codes, set, get_or,
  replicate, ℤ, pos, ltb_ℤ, pos_part,
}

abbrev pub max_method_labels : ℕ
max_method_labels = 1024

abbrev pub other_method : Str
other_method = codes "other"

-- `seen` and `n` of `boundedLabels`.
pub record Labels : Type 0 where
  pub max : ℕ
  pub n : ℕ
  pub seen : List Str

unfoldable pub new_bounded_labels : ℤ → Labels
new_bounded_labels max = record {
  max = if ltb_ℤ max (pos 1) then max_method_labels else pos_part max;
  n = 0;
  seen = [];
}

unfoldable pub has_label : Str → List Str → Bool
has_label name [] = false
has_label name (x ∷ xs) = str_eq x name || has_label name xs

-- Where a call of `label` stands: before it loads `seen`, before it loads `n`, before `LoadOrStore`, before
-- it adds to `n`, or done with its result. `idle` has not called yet.
pub data At : Type 0 where
  idle : At
  looks : Str → At
  checks : Str → At
  stores : Str → At
  counts : Str → At
  gave : Str → At

-- The next atomic operation of one call.
unfoldable pub advance : At → Labels → Labels × At
unfolding has_label
advance idle b = (b, idle)
advance (looks name) b = (b, if has_label name b.seen then gave name else checks name)
advance (checks name) b = (b, if leb b.max b.n then gave other_method else stores name)
advance (stores name) b =
    if has_label name b.seen
    then (b, gave name)
    else (record b { seen = name ∷ b.seen }, counts name)
advance (counts name) b = (record b { n = suc b.n }, gave name)
advance (gave r) b = (b, gave r)

-- `label` by itself.
unfoldable pub label : Labels → Str → Labels × At
unfolding advance
label b name =
    let (b1, a1) = advance (looks name) b in
    let (b2, a2) = advance a1 b1 in let (b3, a3) = advance a2 b2 in advance a3 b3

-- As many callers as may run at the same time.
pub record System : Type 0 where
  pub labels : Labels
  pub callers : List At

-- A caller takes the next operation of its call, or begins a call when it has none under way.
pub data Move : Type 0 where
  moves : ℕ → Move
  begins : ℕ → Str → Move

unfoldable pub begun : Str → At → At
begun name idle = looks name
begun name (gave r) = looks name
begun name a = a

unfoldable pub step : Move → System → System
unfolding advance begun
step (moves i) s =
    let (b, a) = advance (get_or s.callers i idle) s.labels in
    record { labels = b; callers = set s.callers i a }
step (begins i name) s = record s {
  callers = set s.callers i (begun name (get_or s.callers i idle));
}

unfoldable pub run : List Move → System → System
unfolding step
run [] s = s
run (m ∷ ms) s = run ms (step m s)

unfoldable pub new_system : ℤ → ℕ → System
unfolding new_bounded_labels
new_system max callers = record {
  labels = new_bounded_labels max;
  callers = replicate callers idle;
}
