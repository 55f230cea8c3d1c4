-- ===== src/Users/Listing.antt =====
-- `list_users` of app/services/user_service.py: the filters, the number of rows and the pages.
use zhiwei_backend.Prelude.{
  ℕ, ◌*◌, ◌≤◌, ◌≡◌, refl, sym, ap, ◌∙◌, Bool, true, false, not, ◌&&◌, List, [], ◌∷◌, suc, Option,
  none, some, String, str_eq, arith, length,
}
use zhiwei_backend.Prelude.Rows.{select, count}
use zhiwei_backend.Prelude.Rows.Laws.{length-select}
use zhiwei_backend.Prelude.Rows.Pages.{
  order_by, count-order_by, order_by-Sorted, Sorted, page_of, pages, pages-page_of, take_all,
}
use zhiwei_backend.Users.Table.{User, UserTable, Role, role_value, user_id}

-- `UserListQuery`; `page` is 1 at least there.
pub record UserListQuery : Type 0 where
  pub username : Option String
  pub role : Option Role
  pub is_active : Option Bool
  pub page : ℕ
  pub size : ℕ

abbrev username_is : Option String → User → Bool
username_is none u = true
username_is (some n) u = str_eq u.username n

abbrev role_is : Option Role → User → Bool
role_is none u = true
role_is (some r) u = str_eq u.role (role_value r)

abbrev same_bool : Bool → Bool → Bool
same_bool b true = b
same_bool b false = not b

abbrev active_is : Option Bool → User → Bool
active_is none u = true
active_is (some b) u = same_bool u.is_active b

-- the `where` clauses of the rows and of their number
abbrev pub selected : UserListQuery → User → Bool
selected query u =
    username_is query.username u && (role_is query.role u && active_is query.is_active u)

unfoldable pub list_users : UserListQuery → UserTable → List User × ℕ
list_users query t = (
  page_of query.page query.size (order_by user_id (select (selected query) t.rows)),
  count (selected query) t.rows,
)

-- The rows of pages 1 to n.
abbrev pub first_pages : ℕ → UserListQuery → UserTable → List User
first_pages n query t = pages (λ page. (list_users (record query { page = page }) t).0) n

count-true : {A : Type 0} (xs : List A) → count (λ x. true) xs ≡ length xs
count-true [] = refl
count-true (x ∷ xs) = ap suc (count-true xs)

-- The pages of a query, from the first on, are the users that it selects, in the order of their keys
-- and each exactly once, as soon as the pages have room for the number that comes with each page.
pub list_users-pages :
    (query : UserListQuery) (n : ℕ) (t : UserTable)
    → (list_users query t).1 ≤ n * query.size
    → Sorted user_id (first_pages n query t)
      × (length (first_pages n query t) ≡ (list_users query t).1)
      × ((p : User → Bool)
          → count p (first_pages n query t) ≡ count p (select (selected query) t.rows))
unfolding list_users
list_users-pages query n t room =
    let sorted = order_by user_id (select (selected query) t.rows) in
    let size : length sorted ≡ count (selected query) t.rows =
      sym (count-true sorted)
      ∙ count-order_by user_id (λ u. true) (select (selected query) t.rows)
      ∙ count-true (select (selected query) t.rows)
      ∙ length-select (selected query) t.rows in
    let all : first_pages n query t ≡ sorted =
      pages-page_of n query.size sorted
      ∙ take_all (n * query.size) sorted (omega (arith, size, room)) in
    rw all (
      order_by-Sorted user_id (select (selected query) t.rows),
      size,
      λ p. count-order_by user_id p (select (selected query) t.rows),
    )
