-- ===== src/Review/Paging.antt =====
-- The pages of an answer that comes in pages: `fetch_all_pages` of
-- automation/review_dispatcher_v1/model_legacy_v1.py.
use mathlib.Core.List.{append_assoc}
use multiverse_research.Prelude.{
  ℕ, suc, zero, ◌+◌, ◌≤◌, ◌<◌, ◌≡◌, ◌↔◌, refl, false, if◌then◌else◌, List, [], ◌++◌, length, ltb,
  ltb→lt, lt→ltb, inl, inr, Bool-cases, subst, sym, ◌∙◌, ap, arith,
}
use multiverse_research.Prelude.Value.{Value, Fields}
use multiverse_research.Prelude.Checked.{passed, Checked-cases, passed-inj}
use multiverse_research.Review.Shapes.{page_of, fetch_from, fetch_all_pages}

-- What the pages from one on hold together: full pages, and a last one that is not full.
pub data Gathers (fetch : ℕ → Value) : ℕ → ℕ → List Fields → Type 0 where
  last_page :
      {page : ℕ} {batch : List Fields}
      → page_of (fetch page) ≡ passed batch
      → length batch < 100
      → Gathers fetch page 1 batch
  full_page :
      {page count : ℕ} {batch rest : List Fields}
      → page_of (fetch page) ≡ passed batch
      → 100 ≤ length batch
      → Gathers fetch (page + 1) count rest
      → Gathers fetch page (suc count) (batch ++ rest)

module _ (fetch : ℕ → Value) where
  -- One step of the loop.
  fetch_from-step :
      (left page : ℕ) (items batch : List Fields)
      → page_of (fetch page) ≡ passed batch
      → fetch_from fetch (suc left) page items ≡ (
          if ltb (length batch) 100
          then passed (items ++ batch)
          else fetch_from fetch left (page + 1) (items ++ batch))
  unfolding fetch_from
  fetch_from-step left page items batch e = rw (e, fetch_from) refl

  fetch_from-Gathers :
      (left page : ℕ) (items found : List Fields)
      → fetch_from fetch left page items ≡ passed found
      → (count : ℕ) × (rest : List Fields) × (found ≡ items ++ rest)
        × (count ≤ left)
        × Gathers fetch page count rest
  unfolding fetch_from
  fetch_from-Gathers zero page items found h = cc
  fetch_from-Gathers (suc left) page items found h = elim (Checked-cases (page_of (fetch page))) [
    | inl (f, e) ↦ cc (rw (e, fetch_from) at h)
    | inr (batch, e) ↦
        let step = fetch_from-step left page items batch e in
        elim (Bool-cases (ltb (length batch) 100)) [
          | inl short ↦ (
            1,
            batch,
            passed-inj (sym h ∙ rw short at step),
            omega arith,
            last_page e (ltb→lt _ _ short),
          )
          | inr full ↦
              let (count, rest, whole, fits, more) =
                fetch_from-Gathers left (page + 1) (items ++ batch) found
                  (sym (rw full at step) ∙ h) in
              (
                suc count,
                batch ++ rest,
                whole ∙ append_assoc items batch _,
                omega arith,
                full_page e (ground arith) more,
              )
        ]
  ]

  Gathers-fetch_from :
      (left page count : ℕ) (items rest : List Fields)
      → Gathers fetch page count rest
      → count ≤ left
      → fetch_from fetch left page items ≡ passed (items ++ rest)
  Gathers-fetch_from zero page count items rest (last_page e short) fits = absurd (omega arith)
  Gathers-fetch_from (suc left) page count items rest (last_page e short) fits =
      fetch_from-step left page items rest e
      ∙ ap
          (λ b.
            if b then passed (items ++ rest) else fetch_from fetch left (page + 1) (items ++ rest))
          (lt→ltb _ _ short)
  Gathers-fetch_from zero page count items rest (full_page e full more) fits = absurd (omega arith)
  Gathers-fetch_from (suc left) page count items rest
        (full_page {batch} {rest = others} e full more) fits =
      let full_batch : ltb (length batch) 100 ≡ false = ground arith in
      fetch_from-step left page items batch e
      ∙ ap
          (λ b.
            if b
            then passed (items ++ batch)
            else fetch_from fetch left (page + 1) (items ++ batch))
          full_batch
      ∙ Gathers-fetch_from left (page + 1) _ (items ++ batch) others more (omega arith)
      ∙ ap passed (append_assoc items batch others)

-- All pages are answered together exactly if they are lists of objects, each before the last is
-- full, the last is not, and no more pages are asked for than allowed.
pub fetch_all_pages-Gathers :
    (fetch : ℕ → Value) (max_pages : ℕ) (items : List Fields)
    → (fetch_all_pages fetch max_pages ≡ passed items)
      ↔ ((count : ℕ) × (count ≤ max_pages) × Gathers fetch 1 count items)
unfolding fetch_all_pages
fetch_all_pages-Gathers fetch max_pages items = (
  λ h.
      let (count, rest, whole, fits, found) = fetch_from-Gathers fetch max_pages 1 [] items h in
      (count, fits, subst (Gathers fetch 1 count) (sym whole) found),
  λ found. Gathers-fetch_from fetch max_pages 1 found.0 [] items found.2 found.1,
)
