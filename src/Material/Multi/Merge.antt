-- ===== src/Material/Multi/Merge.antt =====
-- material/multi.go: what the merged result counts, in whatever order the backends answer.
use mathlib.Core.List.{Perm, Permᴰ}
use mathlib.Core.Logic.{∥∥₁_elim}
use mathlib.Core.HLevel.{hedberg}
use native.Mathlib.Decide.{ℕ_discrete}
use Prim.Native.Nat.{min}
use aigo.Base.{
  if◌then◌else◌, ℕ, ◌+◌, ◌%◌, ◌^◌, ◌<◌, ◌≡◌, refl, sym, ap, ap₂, ◌∙◌, String, Option, none, some,
  List, [], ◌∷◌, length, length-append, length-take, ltb, arith,
}
use aigo.Base.Int.{pos}
use aigo.Errors.{Error}
use aigo.Material.{Request, Item, SearchResult, Searcher}
use aigo.Material.Multi.{
  Tokens, Reply, Gathered, add_answer, gather, nothing_gathered, ask_backend, answers_of,
  search_multi, multi_result, capped, decode_pagination,
}

-- A sum over a list.
abbrev pub sum_of {ℓ} : {A : Type ℓ} → (A → ℕ) → List A → ℕ
sum_of f [] = 0
sum_of f (x ∷ xs) = f x + sum_of f xs

sum_of-permᴰ {ℓ} :
    {A : Type ℓ} (f : A → ℕ) {xs ys : List A} → Permᴰ xs ys → sum_of f xs ≡ sum_of f ys
sum_of-permᴰ f Permᴰ.nil = refl
sum_of-permᴰ f (Permᴰ.cons e p) = ap₂ ◌+◌ (ap f e) (sum_of-permᴰ f p)
sum_of-permᴰ f (Permᴰ.swap {a = a} {b = b} {l = l} e g) = omega (arith, ap f e, ap f g)
sum_of-permᴰ f (Permᴰ.trans p q) = sum_of-permᴰ f p ∙ sum_of-permᴰ f q

sum_of_perm {ℓ} : {A : Type ℓ} (f : A → ℕ) (xs ys : List A) → Perm xs ys → sum_of f xs ≡ sum_of f ys
sum_of_perm f xs ys p = ∥∥₁_elim p (hedberg ℕ_discrete _ _) (sum_of-permᴰ f)

-- What one answer adds: an error, or its items and its total.
abbrev failed : Option Error → ℕ
failed none = 0
failed (some e) = 1

abbrev if_ok : ℕ → Option Error → ℕ
if_ok n none = n
if_ok n (some e) = 0

abbrev items_in : Reply → ℕ
items_in a = if_ok (length a.result.items) a.failure

abbrev total_in : Reply → ℕ
total_in a = if_ok a.result.total a.failure

length-gather-errors :
    (g : Gathered) (xs : List Reply)
    → length (gather g xs).errors ≡ length g.errors + sum_of (λ (a : Reply). failed a.failure) xs
unfolding gather add_answer
length-gather-errors g [] = omega arith
length-gather-errors g (a ∷ xs) =
    length-gather-errors (add_answer g a.result a.source a.failure) xs
    ∙ one g a.result a.source a.failure (sum_of (λ (x : Reply). failed x.failure) xs)
  where
    one :
        (g : Gathered) (r : SearchResult) (s : String) (o : Option Error) (n : ℕ)
        → length (add_answer g r s o).errors + n ≡ length g.errors + (failed o + n)
    one g r s none n = omega arith
    one g r s (some e) n =
        omega (arith, length-append g.errors (record { source = s; error = e } ∷ []))

length-gather-items :
    (g : Gathered) (xs : List Reply)
    → length (gather g xs).items ≡ length g.items + sum_of items_in xs
unfolding gather add_answer
length-gather-items g [] = omega arith
length-gather-items g (a ∷ xs) =
    length-gather-items (add_answer g a.result a.source a.failure) xs
    ∙ one g a.result a.source a.failure (sum_of items_in xs)
  where
    one :
        (g : Gathered) (r : SearchResult) (s : String) (o : Option Error) (n : ℕ)
        → length (add_answer g r s o).items + n ≡ length g.items + (if_ok (length r.items) o + n)
    one g r s none n = omega (arith, length-append g.items r.items)
    one g r s (some e) n = omega arith

add_answer-bound :
    (g : Gathered) (r : SearchResult) (s : String) (o : Option Error)
    → g.total < 2 ^ 64
    → (add_answer g r s o).total < 2 ^ 64
unfolding add_answer
add_answer-bound g r s none h = omega arith
add_answer-bound g r s (some e) h = h

add_answer-total :
    (g : Gathered) (r : SearchResult) (s : String) (o : Option Error) (n : ℕ)
    → ((add_answer g r s o).total + n) % 2 ^ 64 ≡ (g.total + (if_ok r.total o + n)) % 2 ^ 64
unfolding add_answer
add_answer-total g r s none n = omega arith
add_answer-total g r s (some e) n = omega arith

gather-total :
    (g : Gathered) (xs : List Reply)
    → g.total < 2 ^ 64
    → (gather g xs).total ≡ (g.total + sum_of total_in xs) % 2 ^ 64
unfolding gather
gather-total g [] h = omega arith
gather-total g (a ∷ xs) h =
    gather-total (add_answer g a.result a.source a.failure) xs
      (add_answer-bound g a.result a.source a.failure h)
    ∙ add_answer-total g a.result a.source a.failure (sum_of total_in xs)

-- What the answers of the backends to a request add up to.
module _ (tokens : Tokens) (req : Request) where
  abbrev answer : Searcher → Reply
  answer b = ask_backend (decode_pagination tokens req.next_token) req b

  abbrev pub errors_of : List Searcher → ℕ
  errors_of = sum_of (λ b. failed (answer b).failure)

  abbrev pub items_of : List Searcher → ℕ
  items_of = sum_of (λ b. items_in (answer b))

  abbrev pub totals_of : List Searcher → ℕ
  totals_of = sum_of (λ b. total_in (answer b))

  abbrev answers : List Searcher → List Reply
  answers bs = answers_of (decode_pagination tokens req.next_token) req bs

  sum_of-answers :
      (f : Reply → ℕ) (bs : List Searcher) → sum_of f (answers bs) ≡ sum_of (λ b. f (answer b)) bs
  unfolding answers_of
  sum_of-answers f [] = refl
  sum_of-answers f (b ∷ bs) = ap (λ n. f (answer b) + n) (sum_of-answers f bs)

  from_zero : (n m : ℕ) → n ≡ m → 0 + n ≡ m
  from_zero n m e = omega (arith, e)

  length-capped :
      (n : ℕ) (items : List Item)
      → length (capped (pos n) items) ≡ (if ltb 0 n then min n (length items) else length items)
  unfolding capped
  length-capped n items = ground (arith, length-take n items)

  -- With `MaxResults` n, the merged result has an error for each backend that failed, the sum of the totals
  -- of the others, wrapped to 64 bits, and xs many items xs the others gave, or n if n is positive and
  -- smaller.
  pub search_multi-counts :
      (bs : List Searcher) (n : ℕ)
      → req.max_results ≡ pos n
      → (length (search_multi tokens bs req).errors ≡ errors_of bs)
        × ((search_multi tokens bs req).total ≡ totals_of bs % 2 ^ 64)
        × (length (search_multi tokens bs req).items
            ≡ (if ltb 0 n then min n (items_of bs) else items_of bs))
  unfolding search_multi multi_result
  search_multi-counts bs n max = (
    length-gather-errors nothing_gathered (answers bs)
        ∙ from_zero _ _ (sum_of-answers (λ (a : Reply). failed a.failure) bs),
    gather-total nothing_gathered (answers bs) (omega arith)
        ∙ ap (λ k. k % 2 ^ 64) (from_zero _ _ (sum_of-answers total_in bs)),
    ap (λ m. length (capped m (gather nothing_gathered (answers bs)).items)) max
        ∙ length-capped n _
        ∙ ap (λ k. if ltb 0 n then min n k else k)
            (length-gather-items nothing_gathered (answers bs)
              ∙ from_zero _ _ (sum_of-answers items_in bs)),
  )

  -- The number of errors, the total and the number of items do not depend on the order in which the
  -- backends answer.
  pub search_multi-perm :
      (bs cs : List Searcher) (n : ℕ)
      → req.max_results ≡ pos n
      → Perm bs cs
      → (length (search_multi tokens bs req).errors ≡ length (search_multi tokens cs req).errors)
        × ((search_multi tokens bs req).total ≡ (search_multi tokens cs req).total)
        × (length (search_multi tokens bs req).items ≡ length (search_multi tokens cs req).items)
  search_multi-perm bs cs n max p =
      let l = search_multi-counts bs n max in
      let r = search_multi-counts cs n max in
      (
        l.0 ∙ sum_of_perm _ bs cs p ∙ sym r.0,
        l.1 ∙ ap (λ k. k % 2 ^ 64) (sum_of_perm _ bs cs p) ∙ sym r.1,
        l.2 ∙ ap (λ k. if ltb 0 n then min n k else k) (sum_of_perm _ bs cs p) ∙ sym r.2,
      )
