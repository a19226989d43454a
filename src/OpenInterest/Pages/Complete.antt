-- ===== src/OpenInterest/Pages/Complete.antt =====
-- internal/openinterest/{hist,lsratio_hist}.go: paging back reaches every point of the window.
use mathlib.Core.List.{append_assoc, append-nil}
use chomo_syncer_go.Base.{
  ltb, leb, ltb→lt, leb→le, ltb_false→le, Bool-cases, nat_eq, length, drop, length-append, text_eq,
  millisecond, second, ℕ, zero, suc, ◌+◌, ◌-◌, ◌*◌, ◌/◌, ◌≤◌, ◌<◌, max, ◌≡◌, refl, sym, ap, subst,
  ◌∙◌, ◌⊎◌, inl, inr, Bool, true, false, List, [], ◌∷◌, ◌++◌, arith,
}
use chomo_syncer_go.OpenInterest.Pages.{
  Point, Reply, points, Ended, finished, Limits, HistJob, start_label, max_pages, limit_for,
  after_page, on_reply, page_loop, page_back, gather, ratio_series,
}
use chomo_syncer_go.OpenInterest.Pages.Window.{
  Spaced, between, last_n, between-Spaced_from, between-le, between_none, length-le-window,
  nil_of_length, window_parts, length-drop,
}

needed-le-pages : (n k m : ℕ) → 0 < k → k ≤ m → n ≤ (n / k + 1) * m
needed-le-pages n k m h le = grind arith

page-le-pages : (n k m : ℕ) → m ≤ (n / k + 1) * m
page-le-pages n k m = grind arith

one_and : (n : ℕ) → n + 3 ≡ suc (suc (n + 1))
one_and n = omega arith

start_label_lem : (j : HistJob) → start_label j ≡ j.since + 300 * second
unfolding start_label
start_label_lem j = refl

max_pages_lem : (l : Limits) (n : ℕ) → max_pages l n ≡ n / max (l.max_limit - l.margin) 1 + 3
unfolding max_pages
max_pages_lem l n = refl

-- What is to show of a handler of pages for an invariant of its state and of the points that it was
-- given.
module _ {F : Type 0} {S : Type 0} (l : Limits) (start : ℕ) (history : List (Point F))
    (reply : ℕ → ℕ → ℕ → ℕ → Reply F) (handle : S → List (Point F) → S × Bool)
    (P : S → List (Point F) → Type 0) (positive : 0 < l.max_limit) (margin : 0 < l.margin)
    (after_zero : 0 < start) (spaced : Spaced 0 history)
    (honest : (n end limit : ℕ)
      → reply n start end limit ≡ points (last_n limit (between start end history)))
    (keep : (s : S) (out page : List (Point F))
      → P s out
      → ((handle s page).1 ≡ false) × P (handle s page).0 (page ++ out)) where
  abbrev pub Done : S × Ended → List (Point F) → Type 0
  Done r out = (r.1 ≡ finished) × P r.0 out

  after_page-Done :
      (limit : ℕ) (p : Point F) (n : ℕ) (r : S × Bool) (go : ℕ → ℕ → S → S × Ended)
      (out : List (Point F))
      → r.1 ≡ false
      → (n < limit → P r.0 out)
      → (limit ≤ n → p.label - millisecond < start → P r.0 out)
      → (limit ≤ n
          → start ≤ p.label - millisecond
          → Done
              (go
                (p.label - millisecond)
                (limit_for l ((p.label - start) / (300 * second) + 1))
                r.0)
              out)
      → Done (after_page l start limit p n r go) out
  unfolding after_page
  after_page-Done limit p n (s, true) go out e short low more = absurd (cc e)
  after_page-Done limit p n (s, false) go out e short low more = elim (Bool-cases (ltb n limit)) [
    | inl y ↦ rw y (refl, short (ltb→lt _ _ y))
    | inr f ↦ rw f (elim (Bool-cases (ltb (p.label - millisecond) start)) [
      | inl y ↦ rw y (refl, low (ltb_false→le _ _ f) (ltb→lt _ _ y))
      | inr g ↦ rw g (more (ltb_false→le _ _ f) (ltb_false→le _ _ g))
    ])
  ]

  -- One page of the window that is left: it ends the paging, or leaves a shorter window to the
  -- next.
  on_reply-Done :
      (limit end : ℕ) (s : S) (out page : List (Point F)) (go : ℕ → ℕ → S → S × Ended)
      → 0 < limit
      → drop (length (between start end history) - limit) (between start end history) ≡ page
      → P s out
      → ((p : Point F) (qs : List (Point F)) (s' : S)
          → limit ≤ length (between start end history)
          → start ≤ p.label
          → p.label ≤ end
          → length (between start (p.label - millisecond) history)
            ≡ length (between start end history) - limit
          → P s' ((p ∷ qs) ++ out)
          → Done
              (go (p.label - millisecond) (limit_for l ((p.label - start) / (300 * second) + 1)) s')
              (between start (p.label - millisecond) history ++ ((p ∷ qs) ++ out)))
      → Done (on_reply l start handle limit s (points page) go) (between start end history ++ out)
  unfolding on_reply
  on_reply-Done limit end s out [] go h e k next =
      let m : ℕ = length (between start end history) - limit in
      let nothing : between start end history ≡ [] =
        nil_of_length (between start end history)
          (omega (arith, h, ap length e, length-drop m (between start end history))) in
      (refl, subst (λ ps. P s (ps ++ out)) (sym nothing) k)
  on_reply-Done limit end s out (p ∷ qs) go h e k next =
      let (low, high, parts, size) =
        window_parts start end limit history p qs after_zero spaced e in
      let before : List (Point F) = between start (p.label - millisecond) history in
      let count : length (between start end history) ≡ length before + length (p ∷ qs) =
        ap length parts ∙ length-append before (p ∷ qs) in
      let (sound, k') = keep s out (p ∷ qs) k in
      let whole : before ≡ [] → P (handle s (p ∷ qs)).0 (between start end history ++ out) =
        λ none_before.
          subst (λ ps. P (handle s (p ∷ qs)).0 (ps ++ out))
            (sym (parts ∙ ap (λ ps. ps ++ p ∷ qs) none_before)) k' in
      after_page-Done limit p (length (p ∷ qs)) (handle s (p ∷ qs)) go
        (between start end history ++ out) sound
        (λ short. whole (nil_of_length before (omega (arith, short, size, count))))
        (λ full none_left. whole (between_none start (p.label - millisecond) history none_left))
        (λ full some_left.
          subst
            (Done (
              go (p.label - millisecond) (limit_for l ((p.label - start) / (300 * second) + 1))
                (handle s (p ∷ qs)).0))
            (sym (append_assoc before (p ∷ qs) out) ∙ ap (λ ps. ps ++ out) (sym parts))
            (next p qs (handle s (p ∷ qs)).0 (omega (arith, full, size)) low high
              (omega (arith, full, size, count)) k'))

  limit_for_enough :
      (n count : ℕ) → count ≤ n + l.margin → (count ≤ limit_for l n) ⊎ (limit_for l n ≡ l.max_limit)
  unfolding limit_for
  limit_for_enough n count h = elim (Bool-cases (leb (n + l.margin) l.max_limit)) [
    | inl room ↦ inl (omega (arith, h, leb→le _ _ room))
    | inr capped ↦ inr (ground (arith, capped))
  ]

  limit_for_pos : (n : ℕ) → 0 < limit_for l n
  unfolding limit_for
  limit_for_pos n = omega (arith, positive, margin)

  -- The limit that the next request computes has room for the points before a label.
  earlier_enough :
      (label : ℕ)
      → start ≤ label
      → length (between start (label - millisecond) history)
        ≤ (label - start) / (300 * second) + 1 + l.margin
  earlier_enough label low = omega (
    arith,
    low,
    length-le-window start (label - millisecond) (between start (label - millisecond) history)
        (between-Spaced_from 0 start (label - millisecond) history spaced)
        (between-le start (label - millisecond) history),
  )

  fewer :
      (fuel count limit : ℕ)
      → (count ≤ limit) ⊎ (limit ≡ l.max_limit)
      → count ≤ suc fuel * l.max_limit
      → count - limit ≤ fuel * l.max_limit
  fewer fuel count limit (inl h) few = omega (arith, h)
  fewer fuel count limit (inr h) few = grind (arith, h, few)

  -- The paging reaches the start: enough pages are left for the points of the window.
  page_loop-Done :
      (fuel n end limit : ℕ) (s : S) (out : List (Point F))
      → 0 < limit
      → (length (between start end history) ≤ limit) ⊎ (limit ≡ l.max_limit)
      → length (between start end history) ≤ fuel * l.max_limit
      → P s out
      → Done
          (page_loop l start reply handle (suc fuel) n end limit s)
          (between start end history ++ out)
  unfolding page_loop
  page_loop-Done zero n end limit s out h enough few k = rw (honest n end limit) (
      on_reply-Done limit end s out _ _ h refl k
        (λ p qs s' full low high size k'. absurd (omega (arith, h, full, few))))
  page_loop-Done (suc fuel) n end limit s out h enough few k = rw (honest n end limit) (
      on_reply-Done limit end s out _ _ h refl k (λ p qs s' full low high size k'.
        let earlier : ℕ = (p.label - start) / (300 * second) + 1 in
        page_loop-Done fuel (suc n) (p.label - millisecond) (limit_for l earlier) s'
          ((p ∷ qs) ++ out) (limit_for_pos earlier)
          (limit_for_enough earlier (length (between start (p.label - millisecond) history))
            (earlier_enough p.label low))
          (omega (arith, size, fewer fuel (length (between start end history)) limit enough few))
          k'))

  pages_enough :
      (needed count : ℕ)
      → count ≤ needed + l.max_limit
      → count - limit_for l needed ≤ (needed / max (l.max_limit - l.margin) 1 + 1) * l.max_limit
  unfolding limit_for
  pages_enough needed count h =
      let k : ℕ = max (l.max_limit - l.margin) 1 in
      let le : k ≤ l.max_limit = omega (arith, positive) in
      let pos_k : 0 < k = omega arith in
      omega (
        arith,
        h,
        margin,
        needed-le-pages needed k l.max_limit pos_k le,
        page-le-pages needed k l.max_limit,
      )

  -- From the first page on. Between the plan of the job and this moment up to a page of bars may
  -- have closed.
  pub page_back-Done :
      (j : HistJob) (now : ℕ) (s : S)
      → start ≡ start_label j
      → (now - j.since) / (300 * second) ≤ j.needed + l.max_limit
      → P s []
      → Done (page_back l reply handle j now s) (between start now history)
  unfolding page_back page_loop
  page_back-Done j now s at enough k =
      let size : length (between start now history) ≤ j.needed + l.max_limit = omega (
        arith,
        at ∙ start_label_lem j,
        enough,
        length-le-window start now (between start now history)
            (between-Spaced_from 0 start now history spaced) (between-le start now history),
      ) in
      let pages : ℕ = j.needed / max (l.max_limit - l.margin) 1 + 1 in
      rw
        (
          sym at,
          max_pages_lem l j.needed,
          one_and (j.needed / max (l.max_limit - l.margin) 1),
          honest 0 now (limit_for l j.needed),
        )
        (subst
          (Done (
            on_reply l start handle (limit_for l j.needed) s
              (points (last_n (limit_for l j.needed) (between start now history)))
              (λ end' limit' s'. page_loop l start reply handle (suc pages) 1 end' limit' s')))
          (append-nil (between start now history))
          (on_reply-Done (limit_for l j.needed) now s [] _ _ (limit_for_pos j.needed) refl k
            (λ p qs s' full low high left k'.
              let earlier : ℕ = (p.label - start) / (300 * second) + 1 in
              page_loop-Done pages 1 (p.label - millisecond) (limit_for l earlier) s'
                ((p ∷ qs) ++ []) (limit_for_pos earlier)
                (limit_for_enough earlier (length (between start (p.label - millisecond) history))
                  (earlier_enough p.label low))
                (omega
                  (arith, left, pages_enough j.needed (length (between start now history)) size))
                k')))

pair_path {ℓ κ} :
    {A : Type ℓ} {B : Type κ} {r : A × B} {a : A} {b : B} → r.1 ≡ b → r.0 ≡ a → r ≡ (a, b)
pair_path p q = λ i. (q i, p i)

-- The series of a ratio is complete: whatever bars an exchange that answers with the newest points
-- of the requested window holds, where their labels rise by at least a bar, whatever the settings,
-- and where no more bars have closed since the plan of the job than a page holds, `pageBack` ends
-- without an error within its pages, with all points from the label of the first bar wanted up to
-- now, in order and each once.
pub ratio_series-between :
    {F : Type 0} (l : Limits) (j : HistJob) (now : ℕ) (history : List (Point F))
    (reply : ℕ → ℕ → ℕ → ℕ → Reply F)
    → 0 < l.max_limit
    → 0 < l.margin
    → Spaced 0 history
    → (now - j.since) / (300 * second) ≤ j.needed + l.max_limit
    → ((n end limit : ℕ)
        → reply n (start_label j) end limit
          ≡ points (last_n limit (between (start_label j) end history)))
    → ratio_series l reply j now ≡ (between (start_label j) now history, finished)
unfolding ratio_series gather start_label
ratio_series-between l j now history reply positive margin spaced enough honest =
    let (done, same) =
      page_back-Done l (start_label j) history reply gather (λ s out. s ≡ out) positive margin
        (omega arith) spaced honest (λ s out page e. (refl, ap (λ ps. page ++ ps) e)) j now [] refl
        enough refl in
    pair_path done same
