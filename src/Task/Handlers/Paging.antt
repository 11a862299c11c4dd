-- ===== src/Task/Handlers/Paging.antt =====
-- The pages of `tasks/list` of governance/handlers.rs.
use thoughtgate.Base.{
  ℕ, zero, suc, ◌+◌, ◌-◌, ◌*◌, ◌≤◌, ◌<◌, ltb, String, Option, none, some, List, [], ◌∷◌, ◌++◌, map,
  ◌≡◌, refl, sym, ap, ◌∙◌, arith, get_or, length, take, drop, length-take, Bool-cases, inl, inr,
  usize_end,
}
use thoughtgate.Base.Dict.{lookup}
use thoughtgate.Task.Types.{Task, TaskId, Principal}
use thoughtgate.Task.Methods.{rate_limit_key}
use thoughtgate.Task.Store.State.{TaskStore}
use thoughtgate.Task.Store.Queries.{list_for_principal, page, found, newest_first}
use thoughtgate.Task.Handlers.{
  Sep1686TaskListEntry, TasksListResponse, Cursors, page_size, list_entry, offset_of, page_of,
  handle_tasks_list,
}

module _ {ℓ} {A : Type ℓ} where
  take-drop : (n : ℕ) (xs : List A) → take n xs ++ drop n xs ≡ xs
  take-drop zero xs = refl
  take-drop (suc n) [] = refl
  take-drop (suc n) (x ∷ xs) = ap (λ l. x ∷ l) (take-drop n xs)

  drop-nil : (n : ℕ) → drop {A = A} n [] ≡ []
  drop-nil zero = refl
  drop-nil (suc n) = refl

  drop-drop : (m n : ℕ) (xs : List A) → drop n (drop m xs) ≡ drop (m + n) xs
  drop-drop zero n xs = ap (λ k. drop k xs) (omega arith)
  drop-drop (suc m) n [] = drop-nil n ∙ sym (drop-nil (suc m + n))
  drop-drop (suc m) n (x ∷ xs) =
      let e : suc (m + n) ≡ suc m + n = omega arith in
      drop-drop m n xs ∙ ap (λ k. drop k (x ∷ xs)) e

  length-drop : (n : ℕ) (xs : List A) → length (drop n xs) ≡ length xs - n
  length-drop zero xs = omega arith
  length-drop (suc n) [] = omega arith
  length-drop (suc n) (x ∷ xs) = omega (arith, length-drop n xs)

  take-take : (n m : ℕ) (xs : List A) → n ≤ m → take n (take m xs) ≡ take n xs
  take-take zero m xs h = refl
  take-take (suc n) zero xs h = ground arith
  take-take (suc n) (suc m) [] h = refl
  take-take (suc n) (suc m) (x ∷ xs) h = ap (λ l. x ∷ l) (take-take n m xs (omega arith))

  take-all : (n : ℕ) (xs : List A) → length xs ≤ n → take n xs ≡ xs
  take-all zero [] h = refl
  take-all zero (x ∷ xs) h = ground arith
  take-all (suc n) [] h = refl
  take-all (suc n) (x ∷ xs) h = ap (λ l. x ∷ l) (take-all n xs (omega arith))

  take-nil : (n : ℕ) → take {A = A} n [] ≡ []
  take-nil zero = refl
  take-nil (suc n) = refl

  append-nil : (xs : List A) → xs ++ [] ≡ xs
  append-nil [] = refl
  append-nil (x ∷ xs) = ap (λ l. x ∷ l) (append-nil xs)

map-append {ℓ κ} :
    {A : Type ℓ} {B : Type κ} (f : A → B) (xs ys : List A) → map f (xs ++ ys) ≡ map f xs ++ map f ys
map-append f [] ys = refl
map-append f (x ∷ xs) ys = ap (λ l. f x ∷ l) (map-append f xs ys)

abbrev pub listed : TaskStore → Option (List TaskId) → List Task
listed s none = []
listed s (some ids) = newest_first (found ids s.tasks)

-- All tasks of a principal, the newest first.
abbrev pub tasks_of : Principal → TaskStore → List Task
tasks_of p s = listed s (lookup (rate_limit_key p) s.by_principal)

page-listed :
    (offset limit : ℕ) (s : TaskStore) (o : Option (List TaskId))
    → page offset limit s o ≡ take limit (drop offset (listed s o))
unfolding page
page-listed offset limit s none = sym (ap (take limit) (drop-nil offset) ∙ take-nil limit)
page-listed offset limit s (some ids) = refl

list_for_principal-tasks_of :
    (p : Principal) (offset limit : ℕ) (s : TaskStore)
    → list_for_principal p offset limit s ≡ take limit (drop offset (tasks_of p s))
unfolding list_for_principal
list_for_principal-tasks_of p offset limit s = page-listed offset limit s _

abbrev pub next :
    (Option String → List Sep1686TaskListEntry) → Option String → List Sep1686TaskListEntry
next rest none = []
next rest (some c) = rest (some c)

-- The entries that an agent reads who follows the cursors for at most so many pages.
unfoldable pub follow :
    Cursors → Principal → TaskStore → ℕ → Option String → List Sep1686TaskListEntry
follow u p s zero cursor = []
follow u p s (suc n) cursor =
    let r = handle_tasks_list u cursor p s in r.tasks ++ next (follow u p s n) r.next_cursor

-- A page, and what follows it.
page_of-next :
    (u : Cursors) (offset : ℕ) (xs : List Task) (rest : Option String → List Sep1686TaskListEntry)
    → (page_size < length xs
        → rest (some (u.print (offset + page_size))) ≡ map list_entry (drop page_size xs))
    → let r = page_of u offset (take (page_size + 1) xs) in
      r.tasks ++ next rest r.next_cursor ≡ map list_entry xs
unfolding page_of
page_of-next u offset xs rest h =
    elim (Bool-cases (ltb page_size (length (take (page_size + 1) xs)))) [
      | inl more ↦
          rw
            (
              more,
              h (ground (arith, length-take (page_size + 1) xs)),
              take-take page_size (page_size + 1) xs (omega arith),
            )
            (sym (map-append list_entry (take page_size xs) (drop page_size xs))
              ∙ ap (map list_entry) (take-drop page_size xs))
      | inr last ↦
          rw
            (
              last,
              take-take page_size (page_size + 1) xs (omega arith),
              take-all page_size xs (ground (arith, length-take (page_size + 1) xs)),
            )
            (append-nil (map list_entry xs))
    ]

follow-from :
    (u : Cursors) (p : Principal) (s : TaskStore) (n offset : ℕ) (cursor : Option String)
    → ((k : ℕ) → k < usize_end → u.parse (u.print k) ≡ some k)
    → length (tasks_of p s) < usize_end
    → offset_of u cursor ≡ offset
    → length (drop offset (tasks_of p s)) ≤ page_size * n
    → follow u p s n cursor ≡ map list_entry (drop offset (tasks_of p s))
unfolding follow handle_tasks_list
follow-from u p s zero offset cursor law small at enough =
    ap (map list_entry) (take-all 0 (drop offset (tasks_of p s)) (omega arith))
follow-from u p s (suc n) offset cursor law small at enough =
    let all = tasks_of p s in
    let same =
      ap (λ o. page_of u o (list_for_principal p o (page_size + 1) s)) at
      ∙ ap (page_of u offset) (list_for_principal-tasks_of p offset (page_size + 1) s) in
    ap (λ (r : TasksListResponse). r.tasks ++ next (follow u p s n) r.next_cursor) same
    ∙ page_of-next u offset (drop offset all) (follow u p s n) λ more.
      follow-from u p s n (offset + page_size) (some (u.print (offset + page_size))) law small
        (ap (λ o. get_or o 0)
          (law (offset + page_size) (omega (arith, length-drop offset all, small, more))))
        (omega (arith, length-drop offset all, length-drop (offset + page_size) all, enough))
      ∙ ap (map list_entry) (sym (drop-drop offset page_size all))

-- Where a number is read back as it was printed, and a principal has fewer tasks than a `usize` counts:
-- an agent that follows the cursors from the start gets, page by page, exactly the entries of the
-- principal's tasks, if it reads as many pages as they take.
pub follow-tasks_of :
    (u : Cursors) (p : Principal) (s : TaskStore) (n : ℕ)
    → ((k : ℕ) → k < usize_end → u.parse (u.print k) ≡ some k)
    → length (tasks_of p s) < usize_end
    → length (tasks_of p s) ≤ page_size * n
    → follow u p s n none ≡ map list_entry (tasks_of p s)
follow-tasks_of u p s n law small enough = follow-from u p s n 0 none law small refl enough
