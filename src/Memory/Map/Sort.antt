-- ===== src/Memory/Map/Sort.antt =====
-- machine/src/memory.rs: the insertion sort of the memory map sorts, and keeps every entry.
use bare_metal_blasterball.Base.{
  ℕ, zero, suc, ◌+◌, ◌-◌, ◌≡◌, refl, sym, ap, ◌∙◌, Bool, true, false, inl, inr, List, [], ◌∷◌,
  if◌then◌else◌, arith, length, get_or, set, Bool-cases,
}
use bare_metal_blasterball.Memory.Map.Regions.{MemRegion, empty_region, is_empty}
use bare_metal_blasterball.Memory.Map.Defs.{is_less, insert_key, sort_from, sort}

-- The array with the entries below an index in descending order of the index, and those from it on.
abbrev revapp : List MemRegion → List MemRegion → List MemRegion
revapp [] zs = zs
revapp (r ∷ rs) zs = revapp rs (r ∷ zs)

get_or-revapp :
    (rs zs : List MemRegion) (i k : ℕ) (d : MemRegion)
    → i ≡ length rs + k
    → get_or (revapp rs zs) i d ≡ get_or zs k d
get_or-revapp [] zs i k d e = ap (λ t. get_or zs t d) (omega (arith, e))
get_or-revapp (r ∷ rs) zs i k d e = get_or-revapp rs (r ∷ zs) i (suc k) d (omega (arith, e))

set-revapp :
    (rs zs : List MemRegion) (i k : ℕ) (v : MemRegion)
    → i ≡ length rs + k
    → set (revapp rs zs) i v ≡ revapp rs (set zs k v)
set-revapp [] zs i k v e = ap (λ t. set zs t v) (omega (arith, e))
set-revapp (r ∷ rs) zs i k v e = set-revapp rs (r ∷ zs) i (suc k) v (omega (arith, e))

abbrev ins : MemRegion → List MemRegion → List MemRegion
ins key [] = key ∷ []
ins key (r ∷ rs) = if is_less key r then r ∷ ins key rs else key ∷ r ∷ rs

-- The inner loop inserts the key among the entries before it, from behind.
insert_key-revapp :
    (key : MemRegion) (rs : List MemRegion) (y : MemRegion) (post : List MemRegion) (j : ℕ)
    → j ≡ length rs
    → insert_key key j (revapp rs (y ∷ post)) ≡ revapp (ins key rs) post
unfolding insert_key
insert_key-revapp key [] y post zero e = refl
insert_key-revapp key [] y post (suc j) e = absurd (omega (arith, e))
insert_key-revapp key (r ∷ rs) y post zero e = absurd (omega (arith, e))
insert_key-revapp key (r ∷ rs) y post (suc j) e =
    let here = get_or-revapp rs (r ∷ y ∷ post) j 0 empty_region (omega (arith, e)) in
    let write : (v : MemRegion)
        → set (revapp rs (r ∷ y ∷ post)) (suc j) v ≡ revapp rs (r ∷ v ∷ post) =
      λ v. set-revapp rs (r ∷ y ∷ post) (suc j) 1 v (omega (arith, e)) in
    elim (Bool-cases (is_less key r)) [
      | inl l ↦ rw (here, l, write r) (insert_key-revapp key rs r (r ∷ post) j (omega (arith, e)))
      | inr l ↦ rw (here, l) (write key)
    ]

abbrev isort : List MemRegion → List MemRegion → List MemRegion
isort [] rs = rs
isort (z ∷ zs) rs = isort zs (ins z rs)

length-ins : (key : MemRegion) (rs : List MemRegion) → length (ins key rs) ≡ suc (length rs)
length-ins key [] = refl
length-ins key (r ∷ rs) = elim (Bool-cases (is_less key r)) [
  | inl l ↦ rw l (ap suc (length-ins key rs))
  | inr l ↦ rw l
]

sort_from-revapp :
    (zs rs : List MemRegion) (i : ℕ)
    → i ≡ length rs
    → sort_from (length zs) i (revapp rs zs) ≡ revapp (isort zs rs) []
unfolding sort_from
sort_from-revapp [] rs i e = refl
sort_from-revapp (z ∷ zs) rs i e =
    let here = get_or-revapp rs (z ∷ zs) i 0 empty_region (omega (arith, e)) in
    ap (λ k. sort_from (length zs) (suc i) (insert_key k i (revapp rs (z ∷ zs)))) here
    ∙ ap (λ a. sort_from (length zs) (suc i) a) (insert_key-revapp z rs z zs i e)
    ∙ (sort_from-revapp zs (ins z rs) (suc i) (ap suc e ∙ sym (length-ins z rs)))

sort-revapp : (z : MemRegion) (zs : List MemRegion) → sort (z ∷ zs) ≡ revapp (isort zs (z ∷ [])) []
unfolding sort
sort-revapp z zs =
    let rounds : length (z ∷ zs) - 1 ≡ length zs = omega arith in
    ap (λ n. sort_from n 1 (z ∷ zs)) rounds ∙ sort_from-revapp zs (z ∷ []) 1 refl

-- No entry comes before the one ahead of it.
abbrev pub Sorted : List MemRegion → Type 0
Sorted [] = Unit
Sorted (x ∷ []) = Unit
Sorted (x ∷ y ∷ ys) = (is_less y x ≡ false) × Sorted (y ∷ ys)

-- The same of a list that runs backwards.
abbrev Backwards : List MemRegion → Type 0
Backwards [] = Unit
Backwards (x ∷ []) = Unit
Backwards (x ∷ y ∷ ys) = (is_less x y ≡ false) × Backwards (y ∷ ys)

is_less_asym : (a b : MemRegion) → is_less a b ≡ true → is_less b a ≡ false
unfolding is_less is_empty
is_less_asym a b h = ground arith

ins_after :
    (key x r : MemRegion) (rs : List MemRegion)
    → is_less key x ≡ true
    → Backwards (x ∷ r ∷ rs)
    → Backwards (ins key (r ∷ rs))
    → Backwards (x ∷ ins key (r ∷ rs))
ins_after key x r rs l (p, b) s = elim (Bool-cases (is_less key r)) [
  | inl t ↦ rw t (p, rw t at s)
  | inr t ↦ rw t (is_less_asym key x l, rw t at s)
]

ins-Backwards : (key : MemRegion) (rs : List MemRegion) → Backwards rs → Backwards (ins key rs)
ins-Backwards key [] b = tt
ins-Backwards key (x ∷ []) b = elim (Bool-cases (is_less key x)) [
  | inl l ↦ rw l (is_less_asym key x l, tt)
  | inr l ↦ rw l (l, tt)
]
ins-Backwards key (x ∷ r ∷ rs) b = elim (Bool-cases (is_less key x)) [
  | inl l ↦ rw l (ins_after key x r rs l b (ins-Backwards key (r ∷ rs) b.1))
  | inr l ↦ rw l (l, b)
]

isort-Backwards : (zs rs : List MemRegion) → Backwards rs → Backwards (isort zs rs)
isort-Backwards [] rs b = b
isort-Backwards (z ∷ zs) rs b = isort-Backwards zs (ins z rs) (ins-Backwards z rs b)

revapp-Sorted :
    (r : MemRegion) (rs zs : List MemRegion)
    → Backwards (r ∷ rs)
    → Sorted (r ∷ zs)
    → Sorted (revapp (r ∷ rs) zs)
revapp-Sorted r [] zs b s = s
revapp-Sorted r (q ∷ rs) zs (p, b) s = revapp-Sorted q rs (r ∷ zs) b (p, s)

Backwards-Sorted : (rs : List MemRegion) → Backwards rs → Sorted (revapp rs [])
Backwards-Sorted [] b = tt
Backwards-Sorted (r ∷ rs) b = revapp-Sorted r rs [] b tt

-- The number of entries that a test holds of.
abbrev pub count : (MemRegion → Bool) → List MemRegion → ℕ
count p [] = 0
count p (x ∷ xs) = (if p x then 1 else 0) + count p xs

count-ins :
    (p : MemRegion → Bool) (key : MemRegion) (rs : List MemRegion)
    → count p (ins key rs) ≡ (if p key then 1 else 0) + count p rs
count-ins p key [] = refl
count-ins p key (r ∷ rs) = elim (Bool-cases (is_less key r)) [
  | inl l ↦ rw l (omega (arith, count-ins p key rs))
  | inr l ↦ rw l
]

count-isort :
    (p : MemRegion → Bool) (zs rs : List MemRegion)
    → count p (isort zs rs) ≡ count p zs + count p rs
count-isort p [] rs = omega arith
count-isort p (z ∷ zs) rs = omega (arith, count-isort p zs (ins z rs), count-ins p z rs)

count-revapp :
    (p : MemRegion → Bool) (rs zs : List MemRegion)
    → count p (revapp rs zs) ≡ count p rs + count p zs
count-revapp p [] zs = omega arith
count-revapp p (r ∷ rs) zs = omega (arith, count-revapp p rs (r ∷ zs))

-- After the sort of any array, no entry comes before the one ahead of it.
pub sort-Sorted : (a : List MemRegion) → Sorted (sort a)
unfolding sort
sort-Sorted [] = tt
sort-Sorted (z ∷ zs) =
    rw (sort-revapp z zs) (Backwards-Sorted (isort zs (z ∷ [])) (isort-Backwards zs (z ∷ []) tt))

-- The sort neither loses nor repeats an entry: any test holds of as many entries after as before.
pub count-sort : (p : MemRegion → Bool) (a : List MemRegion) → count p (sort a) ≡ count p a
unfolding sort
count-sort p [] = refl
count-sort p (z ∷ zs) =
    rw (sort-revapp z zs)
      (omega (arith, count-revapp p (isort zs (z ∷ [])) [], count-isort p zs (z ∷ [])))

-- The sort of any array is ordered: no entry comes before the one ahead of it. It neither loses nor
-- repeats an entry: any test holds of as many entries after as before.
pub sort_lem :
    (a : List MemRegion) → Sorted (sort a) × ((p : MemRegion → Bool) → count p (sort a) ≡ count p a)
sort_lem a = (sort-Sorted a, λ p. count-sort p a)
