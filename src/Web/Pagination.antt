-- ===== src/Web/Pagination.antt =====
-- web/pagination.py: one page of a list.
pub mod Pages
use pos_pay.Base.{ℕ, suc, ◌+◌, ◌-◌, ◌*◌, ◌/◌, min, max, Bool, List, ◌==◌, ltb, if◌then◌else◌}

-- `math.ceil(count / size)`, of a positive size.
abbrev pub ceil_div : ℕ → ℕ → ℕ
ceil_div count size = (count + (size - 1)) / size

pub record Page (A : Type 0) : Type 0 where
  pub items : List A
  pub page : ℕ
  pub page_size : ℕ
  pub total_count : ℕ

module _ {A : Type 0} (p : Page A) where
  unfoldable pub total_pages : ℕ
  total_pages = max 1 (ceil_div p.total_count p.page_size)

  unfoldable pub start_index : ℕ
  start_index = if p.total_count == 0 then 0 else (p.page - 1) * p.page_size + 1

  unfoldable pub end_index : ℕ
  end_index = min (p.page * p.page_size) p.total_count

  unfoldable pub has_prev : Bool
  has_prev = ltb 1 p.page

  unfoldable pub has_next : Bool
  has_next = ltb p.page total_pages

-- `count_fn()` and `list_fn(limit=…, offset=…)` are given; a page below 1 is asked for as 0.
unfoldable pub paginate : {A : Type 0} → ℕ → ℕ → (ℕ → ℕ → List A) → ℕ → Page A
paginate page total_count list_fn page_size =
    let page = min (max 1 page) (max 1 (ceil_div total_count page_size)) in
    record {
      items = list_fn page_size ((page - 1) * page_size);
      page = page;
      page_size = page_size;
      total_count = total_count;
    }
