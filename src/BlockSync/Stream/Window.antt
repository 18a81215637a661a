-- ===== src/BlockSync/Stream/Window.antt =====
-- src/rds/block_sync.c, `rds_recent_error_push` and `rds_recent_error_clear`: the ring of the last
-- fifty results and its running sum.
use mpxcast.Prelude.{
  ℕ, zero, suc, ◌+◌, ◌-◌, ◌%◌, ◌≤◌, ◌<◌, ◌≡◌, refl, sym, ap, ◌∙◌, subst, Bool, true, false, List,
  [], ◌∷◌, ◌++◌, append-nil, append_assoc, arith, ◌==◌, if◌then◌else◌, length, get_or, set, drop,
  replicate, length-append, length-set, length-drop, u64, of_bool,
}
use mpxcast.BlockSync.Stream.{BlockStream, recent_error_push, recent_error_clear}

-- How many of the results are errors.
unfoldable pub count_errors : List Bool → ℕ
count_errors [] = 0
count_errors (x ∷ xs) = of_bool x + count_errors xs

-- The last `n` results of a history, the oldest first.
abbrev pub last : ℕ → List Bool → List Bool
last n xs = drop (length xs - n) xs

count_errors-append :
    (xs ys : List Bool) → count_errors (xs ++ ys) ≡ count_errors xs + count_errors ys
unfolding count_errors
count_errors-append [] ys = omega arith
count_errors-append (x ∷ xs) ys = omega (arith, count_errors-append xs ys)

-- How the ring holds a history: before it is full, in order from the start; then with the oldest
-- result at `pos`.
pub data Holds (ring : List Bool) (pos count : ℕ) (history : List Bool) : Type 0 where
  filling :
      (free : List Bool)
      → ring ≡ history ++ free
      → length ring ≡ 50
      → length history < 50
      → pos ≡ length history
      → count ≡ length history
      → Holds ring pos count history
  full :
      (newer older : List Bool)
      → ring ≡ newer ++ older
      → history ≡ older ++ newer
      → length ring ≡ 50
      → pos ≡ length newer
      → pos < 50
      → count ≡ 50
      → Holds ring pos count history

set_middle :
    (xs ys : List Bool) (x y : Bool) (i : ℕ)
    → i ≡ length xs
    → set (xs ++ (x ∷ ys)) i y ≡ xs ++ (y ∷ ys)
set_middle [] ys x y zero e = refl
set_middle [] ys x y (suc i) e = absurd (omega arith)
set_middle (z ∷ xs) ys x y zero e = absurd (omega arith)
set_middle (z ∷ xs) ys x y (suc i) e = ap (λ r. z ∷ r) (set_middle xs ys x y i (omega arith))

get_middle :
    (xs ys : List Bool) (x : Bool) (i : ℕ) → i ≡ length xs → get_or (xs ++ (x ∷ ys)) i false ≡ x
get_middle [] ys x zero e = refl
get_middle [] ys x (suc i) e = absurd (omega arith)
get_middle (z ∷ xs) ys x zero e = absurd (omega arith)
get_middle (z ∷ xs) ys x (suc i) e = get_middle xs ys x i (omega arith)

-- The window after one more result: the oldest goes once there are fifty.
abbrev slide : List Bool → Bool → List Bool
slide w x = drop (length w + 1 - 50) w ++ (x ∷ [])

length-drop-append :
    (xs ys : List Bool) (n : ℕ) → n ≤ length xs → drop n (xs ++ ys) ≡ drop n xs ++ ys
length-drop-append xs ys zero h = refl
length-drop-append [] ys (suc n) h = absurd (omega arith)
length-drop-append (x ∷ xs) ys (suc n) h = length-drop-append xs ys n (omega arith)

drop-drop : (m n : ℕ) (xs : List Bool) → drop m (drop n xs) ≡ drop (n + m) xs
drop-drop m zero xs = ap (λ k. drop k xs) {x = m} {y = 0 + m} (omega arith)
drop-drop zero (suc n) [] = ap (λ k. drop k []) {x = suc n} {y = suc n + 0} (omega arith)
drop-drop (suc m) (suc n) [] =
    ap (λ k. drop k []) {x = suc (n + suc m)} {y = suc n + suc m} (omega arith)
drop-drop m (suc n) (x ∷ xs) =
    drop-drop m n xs ∙ ap (λ k. drop k (x ∷ xs)) {x = suc (n + m)} {y = suc n + m} (omega arith)

last-append : (h : List Bool) (x : Bool) → last 50 (h ++ (x ∷ [])) ≡ slide (last 50 h) x
last-append h x =
    ap (λ k. drop k (h ++ (x ∷ []))) {x = length (h ++ (x ∷ [])) - 50}
      {y = (length h - 50) + (length (last 50 h) + 1 - 50)}
      (omega (arith, length-append h (x ∷ []), length-drop (length h - 50) h))
    ∙ length-drop-append h (x ∷ []) ((length h - 50) + (length (last 50 h) + 1 - 50))
        (omega (arith, length-drop (length h - 50) h))
    ∙ ap (λ r. r ++ (x ∷ [])) (sym (drop-drop (length (last 50 h) + 1 - 50) (length h - 50) h))

slide_all : (w : List Bool) (x : Bool) → length w < 50 → slide w x ≡ w ++ (x ∷ [])
slide_all w x h = ap (λ n. drop n w ++ (x ∷ [])) {x = length w + 1 - 50} {y = 0} (omega arith)

slide_full : (o : Bool) (w : List Bool) (x : Bool) → length w ≡ 49 → slide (o ∷ w) x ≡ w ++ (x ∷ [])
slide_full o w x h =
    ap (λ n. drop n (o ∷ w) ++ (x ∷ [])) {x = length (o ∷ w) + 1 - 50} {y = 1} (omega arith)

-- `rds_recent_error_push` on the ring: the window slides.
module _ (ring : List Bool) (pos count : ℕ) (w : List Bool) (x : Bool) where
  abbrev next_count : ℕ
  next_count = if count == 50 then count else u64 (count + 1)

  Holds-push :
      Holds ring pos count w → Holds (set ring pos x) (u64 (pos + 1) % 50) next_count (slide w x)
  Holds-push (filling [] er el short ep ec) =
      absurd (omega (arith, ap length er, length-append w []))
  Holds-push (filling (z ∷ []) er el short ep ec) =
      let n : length w ≡ 49 = omega (arith, ap length er, length-append w (z ∷ [])) in
      full [] (w ++ (x ∷ [])) (ap (λ r. set r pos x) er ∙ set_middle w [] z x pos ep)
        (slide_all w x short ∙ sym (append-nil (w ++ (x ∷ [])))) (length-set ring pos x ∙ el)
        (omega arith) (omega arith) (ground arith)
  Holds-push (filling (z ∷ y ∷ free) er el short ep ec) =
      let n = length-append w (z ∷ y ∷ free) in
      let n' = length-append w (x ∷ []) in
      let same = slide_all w x short in
      let size : length (slide w x) ≡ length w + 1 = ap length same ∙ n' in
      let room : length w + 1 < 50 = omega (arith, ap length er) in
      filling (y ∷ free)
        (ap (λ r. set r pos x) er
          ∙ set_middle w (y ∷ free) z x pos ep
          ∙ sym (append_assoc w (x ∷ []) (y ∷ free))
          ∙ ap (λ r. r ++ (y ∷ free)) (sym same))
        (length-set ring pos x ∙ el) (omega arith) (omega arith) (ground arith)
  Holds-push (full newer [] er eh el ep small ec) =
      absurd (omega (arith, ap length er, length-append newer []))
  Holds-push (full newer (o ∷ []) er eh el ep small ec) =
      let n : length newer ≡ 49 = omega (arith, ap length er, length-append newer (o ∷ [])) in
      full [] (newer ++ (x ∷ [])) (ap (λ r. set r pos x) er ∙ set_middle newer [] o x pos ep)
        (ap (λ r. slide r x) eh ∙ slide_full o newer x n ∙ sym (append-nil (newer ++ (x ∷ []))))
        (length-set ring pos x ∙ el) (omega arith) (omega arith) (ground arith)
  Holds-push (full newer (o ∷ p ∷ older) er eh el ep small ec) =
      let n = length-append newer (o ∷ p ∷ older) in
      let n' = length-append newer (x ∷ []) in
      let size : length (p ∷ older ++ newer) ≡ 49 =
        omega (arith, ap length er, length-append (p ∷ older) newer) in
      full (newer ++ (x ∷ [])) (p ∷ older)
        (ap (λ r. set r pos x) er
          ∙ set_middle newer (p ∷ older) o x pos ep
          ∙ sym (append_assoc newer (x ∷ []) (p ∷ older)))
        (ap (λ r. slide r x) eh
          ∙ slide_full o ((p ∷ older) ++ newer) x size
          ∙ append_assoc (p ∷ older) newer (x ∷ []))
        (length-set ring pos x ∙ el) (omega (arith, ap length er)) (omega (arith, ap length er))
        (ground arith)

count_errors-le : (xs : List Bool) → count_errors xs ≤ length xs
unfolding count_errors
count_errors-le [] = omega arith
count_errors-le (true ∷ xs) = omega (arith, count_errors-le xs)
count_errors-le (false ∷ xs) = omega (arith, count_errors-le xs)

count_errors_one : (x : Bool) → count_errors (x ∷ []) ≡ of_bool x
unfolding count_errors
count_errors_one x = omega arith

length-Holds :
    {ring : List Bool} {pos count : ℕ} {w : List Bool} → Holds ring pos count w → length w ≤ 50
length-Holds (filling free er el short ep ec) = omega arith
length-Holds (full newer older er eh el ep small ec) =
    omega (arith, ap length er, ap length eh, length-append newer older, length-append older newer)

-- What leaves the window is what the ring has at `pos`.
abbrev leaving : List Bool → ℕ → ℕ → ℕ
leaving ring pos count = if count == 50 then of_bool (get_or ring pos false) else 0

Holds-leaving :
    (ring : List Bool) (pos count : ℕ) (w : List Bool) (x : Bool)
    → Holds ring pos count w
    → count_errors (slide w x) + leaving ring pos count ≡ count_errors w + of_bool x
Holds-leaving ring pos count w x (filling free er el short ep ec) =
    let kept : leaving ring pos count ≡ 0 = ground arith in
    omega (
      arith,
      kept,
      ap count_errors (slide_all w x short),
      count_errors-append w (x ∷ []),
      count_errors_one x,
    )
Holds-leaving ring pos count w x (full newer [] er eh el ep small ec) =
    absurd (omega (arith, ap length er, length-append newer []))
Holds-leaving ring pos count w x (full newer (o ∷ older) er eh el ep small ec) =
    let gone : leaving ring pos count ≡ of_bool o =
      ground (arith, ap (λ r. get_or r pos false) er, get_middle newer older o pos) in
    let size : length (older ++ newer) ≡ 49 =
      omega (arith, ap length er, length-append newer (o ∷ older), length-append older newer) in
    omega (
      arith,
      gone,
      ap (λ r. count_errors (slide r x)) eh,
      ap count_errors eh,
      ap count_errors (slide_full o (older ++ newer) x size),
      count_errors-append (older ++ newer) (x ∷ []),
      count_errors_one x,
      count_errors_cons o (older ++ newer),
    )
  where
    count_errors_cons :
        (y : Bool) (ys : List Bool) → count_errors (y ∷ ys) ≡ of_bool y + count_errors ys
    count_errors_cons y ys =
        count_errors-append (y ∷ []) ys ∙ ap (λ n. n + count_errors ys) (count_errors_one y)

-- The state after the results of `history`, oldest first, since the ring was cleared.
pub record RecentErrors {F : Type 0} (state : BlockStream F) (history : List Bool) : Type 0 where
  pub held :
      Holds state.recent_block_errors state.recent_block_errors_pos state.recent_block_errors_count
        (last 50 history)
  pub summed : state.recent_block_error_sum ≡ count_errors (last 50 history)

module _ {F : Type 0} (state : BlockStream F) where
  pub recent_error_clear-RecentErrors : RecentErrors (recent_error_clear state) []
  unfolding recent_error_clear count_errors
  recent_error_clear-RecentErrors = record {
    held = filling (replicate 50 false) refl refl (omega arith) refl refl;
    summed = refl;
  }

  pub recent_error_push-RecentErrors :
      (history : List Bool) (x : Bool)
      → RecentErrors state history
      → RecentErrors (recent_error_push state x) (history ++ (x ∷ []))
  unfolding recent_error_push
  recent_error_push-RecentErrors history x h = record {
    held =
        subst
          (Holds (set ring pos x) (u64 (pos + 1) % 50)
            (next_count ring pos count (last 50 history) x))
          (sym (last-append history x)) (Holds-push ring pos count (last 50 history) x h.held);
    summed = ground (
      arith,
      ap count_errors (last-append history x),
      Holds-leaving ring pos count (last 50 history) x h.held,
      count_errors-le (last 50 history),
      length-Holds h.held,
    );
  }
    where
      open state use {
        recent_block_errors as ring, recent_block_errors_pos as pos,
        recent_block_errors_count as count,
      }

-- A result without an error does not raise the sum.
pub recent_error_push-le :
    {F : Type 0} (s : BlockStream F) (history : List Bool)
    → RecentErrors s history
    → (recent_error_push s false).recent_block_error_sum ≤ s.recent_block_error_sum
recent_error_push-le s history r = omega (
  arith,
  (recent_error_push-RecentErrors s history false r).summed,
  r.summed,
  ap count_errors (last-append history false),
  Holds-leaving s.recent_block_errors s.recent_block_errors_pos s.recent_block_errors_count
      (last 50 history) false r.held,
)

-- `rds_recent_error_push`, once for each result.
unfoldable pub push_all : {F : Type 0} → BlockStream F → List Bool → BlockStream F
push_all state [] = state
push_all state (x ∷ xs) = push_all (recent_error_push state x) xs

push_all-RecentErrors :
    {F : Type 0} (xs : List Bool) (state : BlockStream F) (history : List Bool)
    → RecentErrors state history
    → RecentErrors (push_all state xs) (history ++ xs)
unfolding push_all
push_all-RecentErrors [] state history h = subst (RecentErrors state) (sym (append-nil history)) h
push_all-RecentErrors (x ∷ xs) state history h =
    subst (RecentErrors (push_all (recent_error_push state x) xs))
      (append_assoc history (x ∷ []) xs)
      (push_all-RecentErrors xs (recent_error_push state x) (history ++ (x ∷ []))
        (recent_error_push-RecentErrors state history x h))

-- Whatever results are pushed after the ring was cleared, the running sum is the number of errors
-- among the last fifty of them (among all of them, while they are fewer).
pub recent_error_sum_of_window :
    {F : Type 0} (state : BlockStream F) (results : List Bool)
    → (push_all (recent_error_clear state) results).recent_block_error_sum
      ≡ count_errors (last 50 results)
recent_error_sum_of_window state results =
    (push_all-RecentErrors results (recent_error_clear state) []
      (recent_error_clear-RecentErrors state)).summed
