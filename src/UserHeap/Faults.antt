-- ===== src/UserHeap/Faults.antt =====
-- Where uheap.c goes wrong: sizes that wrap, dead entries that are never used again, and a block
-- that is merged to the left only.
use fos_simple_os.Prelude.{
  ℕ, suc, zero, ◌+◌, ◌-◌, ◌<◌, ◌≡◌, refl, ap, ◌∙◌, List, [], ◌∷◌, ◌++◌, Bool, true, false, Option,
  none, some, arith, length, get_elem?, set, if◌then◌else◌, ◌==◌, ◌&&◌, leb, page_size,
}
use native.Mathlib.Nat.{zero-add, suc-add}
use fos_simple_os.UserHeap.{
  Space, Heap, Call, returned, overrun, dead, whole, num_pages, user_heap_start, malloc, free,
  search, improves, find, place, finish, set_up, merge_left, merge_right, release,
}

-- `k` dead entries before an array.
unfoldable pub buried : ℕ → List Space → List Space
buried zero l = l
buried (suc k) l = dead ∷ buried k l

search-buried :
    (k req i m : ℕ) (index : Option ℕ) (l : List Space)
    → search req i m index (buried k l) ≡ search req (k + i) m index l
unfolding search improves buried
search-buried zero req i m index l = rw zero-add
search-buried (suc k) req i m index l =
    search-buried k req (i + 1) m index l ∙ ap (λ n. search req n m index l) (omega arith)

abbrev moved : ℕ → Option (ℕ × Space) → Option (ℕ × Space)
moved k none = none
moved k (some (i, sp)) = some (k + i, sp)

moved-zero : (r : Option (ℕ × Space)) → r ≡ moved 0 r
moved-zero none = refl
moved-zero (some (i, sp)) = rw zero-add

moved-suc :
    (k : ℕ) (r : Option (ℕ × Space))
    → (elim (moved k r) [ none ↦ none | some (i, x) ↦ some (i + 1, x) ]) ≡ moved (suc k) r
moved-suc k none = refl
moved-suc k (some (i, sp)) = ap (λ (n : ℕ). some (n, sp)) (omega arith)

find-buried :
    (p : Space → Bool) (k : ℕ) (l : List Space)
    → p dead ≡ false
    → find p (buried k l) ≡ moved k (find p l)
unfolding find buried
find-buried p zero l d = moved-zero (find p l)
find-buried p (suc k) l d = rw (d, find-buried p k l d) (moved-suc k (find p l))

set-buried :
    (k i : ℕ) (new : Space) (l : List Space) → set (buried k l) (k + i) new ≡ buried k (set l i new)
unfolding buried
set-buried zero i new l = rw zero-add
set-buried (suc k) i new l =
    ap (λ (n : ℕ). set (dead ∷ buried k l) n new) (suc-add k i)
    ∙ ap (λ t. dead ∷ t) (set-buried k i new l)

buried-dead : (k : ℕ) (l : List Space) → buried k (dead ∷ l) ≡ buried (suc k) l
unfolding buried
buried-dead zero l = refl
buried-dead (suc k) l = ap (λ t. dead ∷ t) (buried-dead k l)

append-buried : (k : ℕ) (l r : List Space) → buried k l ++ r ≡ buried k (l ++ r)
unfolding buried
append-buried zero l r = refl
append-buried (suc k) l r = ap (λ t. dead ∷ t) (append-buried k l r)

length-buried : (k : ℕ) (l : List Space) → length (buried k l) ≡ k + length l
unfolding buried
length-buried zero l = omega arith
length-buried (suc k) l = omega (arith, length-buried k l)

get_elem?-buried : (k : ℕ) (sp : Space) (l : List Space) → get_elem? (buried k (sp ∷ l)) k ≡ some sp
unfolding buried
get_elem?-buried zero sp l = refl
get_elem?-buried (suc k) sp l = get_elem?-buried k sp l

set_up-buried :
    (k : ℕ) (sp : Space) (l : List Space) → set_up (buried k (sp ∷ l)) ≡ buried k (sp ∷ l)
unfolding set_up buried
set_up-buried zero sp l = refl
set_up-buried (suc k) sp l = refl

-- The heap with all pages free and `k` dead entries, and the two parts that one page splits it into.
unfoldable pub drained : ℕ → List Space
unfolding buried
drained k = buried k (whole ∷ [])

abbrev first_page : Space
first_page = record {
  str_address = user_heap_start;
  end_address = user_heap_start + page_size;
  pages = 1;
  is_free = false;
}

abbrev other_pages : Space
other_pages = record whole { str_address = user_heap_start + page_size; pages = num_pages - 1 }

search-drained : (k : ℕ) → (search 1 0 (num_pages + 1) none (drained k)).1 ≡ some k
unfolding search improves drained
search-drained k =
    ap (λ r. r.1) (search-buried k 1 0 (num_pages + 1) none (whole ∷ []))
    ∙ ap (λ (n : ℕ). some n) (omega arith)

place-drained :
    (k : ℕ) (calls : List Call)
    → place (record { spaces = drained k; calls = calls }) (drained k) 1 k whole ≡ (
        if leb num_pages (k + 1)
        then overrun
        else returned user_heap_start (record {
          spaces = buried k (first_page ∷ other_pages ∷ []);
          calls = Call.allocate_mem user_heap_start page_size ∷ calls;
        }))
unfolding place drained
place-drained k calls =
    let at_k : set (drained k) k first_page ≡ buried k (first_page ∷ []) =
      ap (λ (n : ℕ). set (drained k) n first_page) (omega arith)
      ∙ set-buried k 0 first_page (whole ∷ []) in
    rw (length-buried k (whole ∷ []), at_k, append-buried k (first_page ∷ []) (other_pages ∷ []))

malloc-drained :
    (k : ℕ) (calls : List Call)
    → malloc (record { spaces = drained k; calls = calls }) page_size ≡ (
        if leb num_pages (k + 1)
        then overrun
        else returned user_heap_start (record {
          spaces = buried k (first_page ∷ other_pages ∷ []);
          calls = Call.allocate_mem user_heap_start page_size ∷ calls;
        }))
unfolding malloc drained
malloc-drained k calls =
    let l = drained k in
    let h : Heap = record { spaces = l; calls = calls } in
    ap (λ s. finish h s 1 (search 1 0 (num_pages + 1) none s).1) (set_up-buried k whole [])
    ∙ ap (finish h l 1) (search-drained k)
    ∙ rw (get_elem?-buried k whole [], finish) (place-drained k calls)

abbrev split_pages : ℕ → List Space
split_pages k = buried k (first_page ∷ other_pages ∷ [])

merge_left-split :
    (k : ℕ) → merge_left (split_pages k) k first_page ≡ (split_pages k, first_page, false)
unfolding merge_left drained
merge_left-split k = rw (
  find-buried (λ sp. sp.is_free && (first_page.str_address == sp.end_address)) k
      (first_page ∷ other_pages ∷ []) refl,
  merge_left,
)

merge_right-split :
    (k : ℕ) → merge_right (split_pages k) k first_page ≡ (drained (suc k), dead, true)
unfolding merge_right drained
merge_right-split k =
    rw
      (
        find-buried (λ sp. sp.is_free && (first_page.end_address == sp.str_address)) k
            (first_page ∷ other_pages ∷ []) refl,
        merge_right,
      )
      (ap (λ l. (l, dead, true)) entries)
  where
    entries : set (set (split_pages k) (k + 1) whole) k dead ≡ drained (suc k)
    entries =
        ap (λ l. set l k dead) (set-buried k 1 whole (first_page ∷ other_pages ∷ []))
        ∙ ap (λ (n : ℕ). set (buried k (first_page ∷ whole ∷ [])) n dead) (omega arith)
        ∙ set-buried k 0 dead (first_page ∷ whole ∷ [])
        ∙ buried-dead k (whole ∷ [])

release-split : (k : ℕ) → release (split_pages k) k first_page ≡ drained (suc k)
unfolding release drained
release-split k = rw (merge_left-split k, merge_right-split k)

free-split :
    (k : ℕ) (calls : List Call)
    → free (record { spaces = split_pages k; calls = calls }) user_heap_start
      ≡ returned 0 (record {
        spaces = drained (suc k);
        calls = Call.free_mem user_heap_start page_size ∷ calls;
      })
unfolding free drained
free-split k calls = rw (found, free) (rw (release-split k))
  where
    found : find (λ sp. sp.str_address == user_heap_start) (split_pages k) ≡ some (k, first_page)
    found =
        find-buried (λ sp. sp.str_address == user_heap_start) k (first_page ∷ other_pages ∷ []) refl
        ∙ ap (λ (n : ℕ). some (n, first_page)) (omega arith)

-- The array that tracks the blocks grows though nothing stays allocated: in the heap with all
-- pages free, a round of `malloc` of one page and `free` of it leaves one dead entry more.
pub round_leaks :
    (k : ℕ) (calls : List Call)
    → suc k < num_pages
    → (h1 : Heap) × (h2 : Heap) × (malloc (record { spaces = drained k; calls = calls }) page_size
        ≡ returned user_heap_start h1)
      × (free h1 user_heap_start ≡ returned 0 h2)
      × (h2.spaces ≡ drained (suc k))
round_leaks k calls lt =
    let calls1 = Call.allocate_mem user_heap_start page_size ∷ calls in
    (
      record { spaces = split_pages k; calls = calls1 },
      record { spaces = drained (suc k); calls = Call.free_mem user_heap_start page_size ∷ calls1 },
      malloc-drained k calls ∙ rw below refl,
      free-split k calls1,
      refl,
    )
  where
    below : leb num_pages (k + 1) ≡ false
    below = ground arith

-- With `num_pages - 1` dead entries, though all pages are free, `malloc` of one page writes behind
-- the array.
pub drained_overruns :
    (k : ℕ) (calls : List Call)
    → suc k ≡ num_pages
    → malloc (record { spaces = drained k; calls = calls }) page_size ≡ overrun
drained_overruns k calls e = malloc-drained k calls ∙ rw full refl
  where
    full : leb num_pages (k + 1) ≡ true
    full = ground arith
