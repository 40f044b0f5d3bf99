-- ===== src/Web/Pagination/Pages.antt =====
-- web/pagination.py: every page is within the list, and the pages together are the list.
use pos_pay.Base.{
  ℕ, zero, suc, ◌+◌, ◌-◌, ◌*◌, ◌≤◌, ◌<◌, min, max, List, [], ◌∷◌, ◌++◌, length, length-take,
  length-drop, take, drop, ◌≡◌, refl, ap, sym, subst, ◌∙◌, arith,
}
use native.Mathlib.Nat.{div-add-mod, mod-lt, mul_comm}
use pos_pay.Web.Pagination.{ceil_div, Page, total_pages, end_index, paginate}

-- The rows from an offset on, at most so many.
abbrev pub window : {A : Type 0} → List A → ℕ → ℕ → List A
window rows limit offset = take limit (drop offset rows)

pub record IsWithin {A : Type 0} (p : Page A) (rows : List A) : Type 0 where
  pub first : 1 ≤ p.page
  pub last : p.page ≤ total_pages p
  pub size : length p.items ≤ p.page_size
  pub items : p.items ≡ window rows p.page_size ((p.page - 1) * p.page_size)
  pub shown : length p.items + (p.page - 1) * p.page_size ≡ end_index p

mul_mono : (a b s : ℕ) → a ≤ b → a * s ≤ b * s
mul_mono zero b s le = omega arith
mul_mono (suc a) zero s le = absurd (omega (arith, le))
mul_mono (suc a) (suc b) s le = omega (arith, mul_mono a b s (omega (arith, le)))

-- The pages before the last one are full.
offset_within :
    (page count size : ℕ)
    → 0 < size
    → page ≤ max 1 (ceil_div count size)
    → (page - 1) * size ≤ count
offset_within zero count size positive le = omega arith
offset_within (suc zero) count size positive le = omega arith
offset_within (suc (suc k)) count size positive le =
    let q = ceil_div count size in
    let whole = div-add-mod (count + (size - 1)) size in
    let some_pages : suc (suc k) ≤ q = omega (arith, le) in
    subst (λ m. m * size ≤ count) (sym (pred_suc k))
      (omega (arith, mul_mono (suc (suc k)) q size some_pages, mul_comm size q, whole, positive))
  where
    pred_suc : (k : ℕ) → suc (suc k) - 1 ≡ suc k
    pred_suc k = omega arith

length-window :
    {A : Type 0} (rows : List A) (size page : ℕ)
    → 0 < page
    → (page - 1) * size ≤ length rows
    → length (window rows size ((page - 1) * size)) + (page - 1) * size
      ≡ min (page * size) (length rows)
length-window rows size zero positive within = absurd (omega (arith, positive))
length-window rows size (suc k) positive within = omega (
  arith,
  length-take size (drop ((suc k - 1) * size) rows),
  length-drop ((suc k - 1) * size) rows,
  ap (λ m. m * size) (pred_suc k),
  within,
)
  where
    pred_suc : (k : ℕ) → suc k - 1 ≡ k
    pred_suc k = omega arith

-- t
pub page-IsWithin :
    {A : Type 0} (page size : ℕ) (rows : List A)
    → 0 < size
    → IsWithin (paginate page (length rows) (window rows) size) rows
unfolding paginate total_pages end_index
page-IsWithin page size rows positive =
    let q = max 1 (ceil_div (length rows) size) in
    let at = min (max 1 page) q in
    let within = offset_within at (length rows) size positive (omega arith) in
    record {
      first = omega arith;
      last = omega arith;
      size = omega (arith, length-take size (drop ((at - 1) * size) rows));
      items = refl;
      shown = length-window rows size at (omega arith) within;
    }

-- The items of the first so many pages.
abbrev pub all_pages : {A : Type 0} → ℕ → ℕ → List A → List A
all_pages zero size rows = []
all_pages (suc k) size rows =
    all_pages k size rows ++ (paginate (suc k) (length rows) (window rows) size).items

zero_plus : (m : ℕ) → m ≡ 0 + m
zero_plus m = omega arith

suc_plus : (n m : ℕ) → suc (n + m) ≡ suc n + m
suc_plus n m = omega arith

abbrev none_of : (A : Type 0) → List A
none_of A = []

take_nil : {A : Type 0} (n : ℕ) → take n (none_of A) ≡ none_of A
take_nil zero = refl
take_nil (suc n) = refl

take-drop :
    {A : Type 0} (n m : ℕ) (rows : List A) → take n rows ++ take m (drop n rows) ≡ take (n + m) rows
take-drop zero m rows = ap (λ k. take k rows) (zero_plus m)
take-drop (suc n) m [] = take_nil m ∙ sym (take_nil (suc n + m))
take-drop (suc n) m (x ∷ rows) =
    ap (λ l. x ∷ l) (take-drop n m rows) ∙ ap (λ k. take k (x ∷ rows)) (suc_plus n m)

take_whole : {A : Type 0} (n : ℕ) (rows : List A) → length rows ≤ n → take n rows ≡ rows
take_whole zero [] le = refl
take_whole zero (x ∷ rows) le = absurd (omega (arith, le))
take_whole (suc n) [] le = refl
take_whole (suc n) (x ∷ rows) le = ap (λ l. x ∷ l) (take_whole n rows (omega (arith, le)))

-- No page up to the last is clamped.
items-window :
    {A : Type 0} (k size : ℕ) (rows : List A)
    → suc k ≤ max 1 (ceil_div (length rows) size)
    → (paginate (suc k) (length rows) (window rows) size).items ≡ take size (drop (k * size) rows)
unfolding paginate
items-window k size rows le =
    ap (λ p. take size (drop (p * size) rows)) (as_asked (ceil_div (length rows) size) le)
  where
    as_asked : (q : ℕ) → suc k ≤ max 1 q → min (max 1 (suc k)) (max 1 q) - 1 ≡ k
    as_asked q le = omega (arith, le)

all_pages-take :
    {A : Type 0} (k size : ℕ) (rows : List A)
    → k ≤ max 1 (ceil_div (length rows) size)
    → all_pages k size rows ≡ take (k * size) rows
all_pages-take zero size rows le = ap (λ n. take n rows) (nothing size)
  where
    nothing : (size : ℕ) → 0 ≡ 0 * size
    nothing size = omega arith
all_pages-take (suc k) size rows le =
    ap (λ l. l ++ (paginate (suc k) (length rows) (window rows) size).items)
      (all_pages-take k size rows (omega (arith, le)))
    ∙ ap (λ l. take (k * size) rows ++ l) (items-window k size rows le)
    ∙ take-drop (k * size) size rows
    ∙ ap (λ n. take n rows) (one_more k size)
  where
    one_more : (k size : ℕ) → k * size + size ≡ suc k * size
    one_more k size = omega arith

-- The pages are the list: for a positive page size, the items of the pages from the first to the
-- last, one after the other, are the rows, each once and in their order.
pub pages_are_the_list :
    {A : Type 0} (size : ℕ) (rows : List A)
    → 0 < size
    → all_pages (max 1 (ceil_div (length rows) size)) size rows ≡ rows
pages_are_the_list size rows positive =
    let q = ceil_div (length rows) size in
    all_pages-take (max 1 q) size rows (omega arith)
    ∙ take_whole (max 1 q * size) rows (
        omega (
          arith,
          div-add-mod (length rows + (size - 1)) size,
          mod-lt (length rows + (size - 1)) positive,
          mul_comm size q,
          mul_mono q (max 1 q) size (omega arith),
          positive,
        ))
