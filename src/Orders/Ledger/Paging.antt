-- ===== src/Orders/Ledger/Paging.antt =====
-- What `list` returns.
use shelfwise.Prelude.{
  ℕ, zero, suc, ◌≤◌, ◌<◌, min, ◌≡◌, refl, inl, inr, ◌⊎◌, Bool-cases, String, Option, List, [], ◌∷◌,
  length, leb, ltb, ℤ, pos, negsuc, arith, sym, subst, ap, ◌++◌,
}
use mathlib.Core.List.{Perm}
use shelfwise.Prelude.Sort.{sort, length-sort, sort-perm, IsSorted, Ordering, sort-IsSorted}
use shelfwise.Prelude.Results.{ok, err, Error}
use shelfwise.Orders.Shipments.{Order}
use shelfwise.Orders.Ledger.{Orders, orders_of, take, page_size, is_newer, all, validate_limit}

is_newer-Ordering : Ordering is_newer
is_newer-Ordering = record {
  total = λ a b h. ground (arith, h);
  trans = λ a b c h k. ground (arith, h, k);
}

-- What `take` leaves.
abbrev pub drop {ℓ} : {A : Type ℓ} → ℕ → List A → List A
drop zero xs = xs
drop (suc n) [] = []
drop (suc n) (x ∷ xs) = drop n xs

take-drop : (n : ℕ) (xs : List Order) → take n xs ++ drop n xs ≡ xs
take-drop zero xs = refl
take-drop (suc n) [] = refl
take-drop (suc n) (x ∷ xs) = ap (λ ys. x ∷ ys) (take-drop n xs)

length-take : (n : ℕ) (xs : List Order) → length (take n xs) ≡ min n (length xs)
length-take zero xs = omega arith
length-take (suc n) [] = omega arith
length-take (suc n) (x ∷ xs) = omega (arith, length-take n xs)

-- A limit that the ledger refuses.
abbrev pub IsRefused : ℕ → Type 0
IsRefused n = (n ≡ 0) ⊎ (500 < n)

-- A page of the orders that are there: with the others after it, it is all of them, the newest
-- first, and it is as long as the limit allows.
pub record IsPage (limit : ℕ) (orders page : List Order) : Type 0 where
  pub others : List Order
  pub all_orders : Perm (page ++ others) orders
  pub newest_first : IsSorted is_newer (page ++ others)
  pub size : length page ≡ min limit (length orders)

take-IsPage : (n : ℕ) (orders : List Order) → IsPage n orders (take n (sort is_newer orders))
take-IsPage n orders =
    let sorted = sort is_newer orders in
    let whole = sym (take-drop n sorted) in
    record {
      others = drop n sorted;
      all_orders = subst (λ (xs : List Order). Perm xs orders) whole (sort-perm is_newer orders);
      newest_first =
          subst (λ (xs : List Order). IsSorted is_newer xs) whole
            (sort-IsSorted is_newer is_newer-Ordering orders);
      size = ground (arith, length-take n sorted, length-sort is_newer orders);
    }

-- `list` raises exactly on a limit below 1 or above 500. Otherwise it returns orders of the tenant
-- and domain, as many as there are and the limit allows, the newest first, and none that it leaves
-- out is newer than one of them.
pub list_is_bounded :
    (tenant : String) (domain : Option String) (limit : ℤ) (l : Orders)
    → ((all tenant domain limit l ≡ err Error.value_error) × IsRefused (page_size limit))
      ⊎ ((1 ≤ page_size limit)
          × (page_size limit ≤ 500)
          × ((page : List Order) × ((all tenant domain limit l ≡ ok page)
                × IsPage (page_size limit) (orders_of tenant domain l) page)))
unfolding all validate_limit
list_is_bounded tenant domain (negsuc n) l = inl (refl, inl refl)
list_is_bounded tenant domain (pos n) l =
    let orders = orders_of tenant domain l in
    elim (Bool-cases (leb n 0)) [
      | inl low ↦ inl (rw low refl, inl (ground (arith, low)))
      | inr some_ ↦ elim (Bool-cases (ltb 500 n)) [
        | inl high ↦ inl (rw (some_, high) refl, inr (ground (arith, high)))
        | inr fits ↦ inr (
          ground (arith, some_),
          ground (arith, fits),
          (take n (sort is_newer orders), (rw (some_, fits) refl, take-IsPage n orders)),
        )
      ]
    ]
