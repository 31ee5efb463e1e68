-- ===== src/MemKv/SortedList.antt =====
-- A sorted list of entries, which behaves as the skip list is to.
use kubebrain.Base.{
  ◌≡◌, refl, sym, subst, ◌∙◌, List, [], ◌∷◌, none, some, Bool, true, false, if◌then◌else◌, Ordering,
  All, All-map, arith, Bool-cases, inl, inr,
}
use kubebrain.Base.Bytes.{
  Bytes, cmp, equal, equal→eq, equal_refl, cmp_refl, cmp-eq→eq, cmp-lt_trans,
}
use kubebrain.Storage.{Entry}
use kubebrain.MemKv.{SkipList, same_ordering, IsSorted, find}

abbrev is_before : Bytes → Bytes → Bool
is_before key j = same_ordering (cmp key j) Ordering.lt

unfoldable pub insert_sorted : Bytes → Bytes → List Entry → List Entry
insert_sorted key val [] = (key, val) ∷ []
insert_sorted key val ((j, w) ∷ entries) =
    let rest = insert_sorted key val entries in
    if equal key j
    then (key, val) ∷ entries
    else if is_before key j
    then (key, val) ∷ (j, w) ∷ entries
    else (j, w) ∷ rest

unfoldable pub remove_first : Bytes → List Entry → List Entry
remove_first key [] = []
remove_first key ((j, w) ∷ entries) =
    let rest = remove_first key entries in if equal j key then entries else (j, w) ∷ rest

pub cmp_flip : (a b : Bytes) → cmp a b ≡ Ordering.gt → cmp b a ≡ Ordering.lt
unfolding cmp
cmp_flip [] [] h = ground arith
cmp_flip [] (y ∷ b) h = ground arith
cmp_flip (x ∷ a) [] h = refl
cmp_flip (x ∷ a) (y ∷ b) h = ground (arith, cmp_flip a b)

-- Keys that compare as different are not equal.
apart : (a b : Bytes) → cmp a b ≡ Ordering.lt → equal a b ≡ false
apart a b h = elim (Bool-cases (equal a b)) [
  | inr other ↦ other
  | inl same ↦
      absurd
        (ground (arith, h, subst (λ c. cmp a c ≡ Ordering.eq) (equal→eq a b same) (cmp_refl a)))
]

apart_flip : (a b : Bytes) → cmp a b ≡ Ordering.lt → equal b a ≡ false
apart_flip a b h = elim (Bool-cases (equal b a)) [
  | inr other ↦ other
  | inl same ↦
      absurd
        (ground (arith, h, subst (λ c. cmp c b ≡ Ordering.eq) (equal→eq b a same) (cmp_refl b)))
]

before-lt : (key j : Bytes) → is_before key j ≡ true → cmp key j ≡ Ordering.lt
before-lt key j h = ordering (cmp key j) h
  where
    ordering : (o : Ordering) → same_ordering o Ordering.lt ≡ true → o ≡ Ordering.lt
    ordering Ordering.lt e = refl
    ordering Ordering.eq e = absurd (cc)
    ordering Ordering.gt e = absurd (cc)

after-lt : (key j : Bytes) → equal key j ≡ false → is_before key j ≡ false → cmp j key ≡ Ordering.lt
after-lt key j e h = ordering (cmp key j) refl h
  where
    ordering :
        (o : Ordering)
        → cmp key j ≡ o
        → same_ordering o Ordering.lt ≡ false
        → cmp j key ≡ Ordering.lt
    ordering Ordering.lt is f = absurd (cc)
    ordering Ordering.eq is f =
        absurd
          (ground (arith, e, subst (λ k. equal key k ≡ true) (cmp-eq→eq key j is) (equal_refl key)))
    ordering Ordering.gt is f = cmp_flip key j is

equal_sym_false : (x y : Bytes) → equal x y ≡ false → equal y x ≡ false
unfolding equal
equal_sym_false [] [] e = e
equal_sym_false [] (q ∷ y) e = refl
equal_sym_false (p ∷ x) [] e = refl
equal_sym_false (p ∷ x) (q ∷ y) e = ground (arith, e, equal_sym_false x y)

-- Two keys that differ are not both equal to a third.
not_both :
    {A : Type 0} (i key j : Bytes) (a b c : A)
    → equal i key ≡ false
    → (if equal i j then a else if equal key j then b else c)
      ≡ (if equal key j then b else if equal i j then a else c)
not_both i key j a b c h = elim (Bool-cases (equal i j)) [
  | inr other ↦ ground (arith, other)
  | inl same ↦
      let differs : equal key j ≡ false =
        subst (λ k. equal key k ≡ false) (equal→eq i j same) (equal_sym_false i key h) in
      ground (arith, same, differs)
]

shadowed :
    {A : Type 0} (key i j : Bytes) (a b c : A)
    → equal key i ≡ true
    → (if equal key j then a else c) ≡ (if equal key j then a else if equal i j then b else c)
shadowed key i j a b c h = elim (Bool-cases (equal key j)) [
  | inl same ↦ ground (arith, same)
  | inr other ↦
      let differs : equal i j ≡ false = subst (λ k. equal k j ≡ false) (equal→eq key i h) other in
      ground (arith, other, differs)
]

pub find-insert_sorted :
    (key val : Bytes) (entries : List Entry) (j : Bytes)
    → find j (insert_sorted key val entries) ≡ (if equal key j then some val else find j entries)
unfolding insert_sorted
find-insert_sorted key val [] j = refl
find-insert_sorted key val ((i, w) ∷ entries) j = elim (Bool-cases (equal key i)) [
  | inl same ↦ rw same (shadowed key i j _ _ _ same)
  | inr other ↦ elim (Bool-cases (is_before key i)) [
    | inl before ↦ rw (other, before) refl
    | inr after ↦
        rw (other, after, find-insert_sorted key val entries j)
          (not_both i key j _ _ _ (equal_sym_false key i other))
  ]
]

All-insert_sorted :
    (P : Entry → Type 0) (key val : Bytes) (entries : List Entry)
    → P (key, val)
    → All P entries
    → All P (insert_sorted key val entries)
unfolding insert_sorted
All-insert_sorted P key val [] p h = (p, tt)
All-insert_sorted P key val ((i, w) ∷ entries) p h = elim (Bool-cases (equal key i)) [
  | inl same ↦ rw same (p, h.1)
  | inr other ↦ elim (Bool-cases (is_before key i)) [
    | inl before ↦ rw (other, before) (p, h)
    | inr after ↦ rw (other, after) (h.0, All-insert_sorted P key val entries p h.1)
  ]
]

pub insert_sorted-IsSorted :
    (key val : Bytes) (entries : List Entry)
    → IsSorted entries
    → IsSorted (insert_sorted key val entries)
unfolding insert_sorted
insert_sorted-IsSorted key val [] h = (tt, tt)
insert_sorted-IsSorted key val ((i, w) ∷ entries) h = elim (Bool-cases (equal key i)) [
  | inl same ↦ rw same (
    subst (λ k. All (λ (y : Entry). cmp k y.0 ≡ Ordering.lt) entries) (sym (equal→eq key i same))
        h.0,
    h.1,
  )
  | inr other ↦ elim (Bool-cases (is_before key i)) [
    | inl before ↦
        let lt = before-lt key i before in
        rw (other, before)
          ((lt, All-map entries (λ y later. cmp-lt_trans key i y.0 lt later) h.0), h)
    | inr after ↦
        rw (other, after)
          (
            All-insert_sorted (λ y. cmp i y.0 ≡ Ordering.lt) key val entries
                (after-lt key i other after) h.0,
            insert_sorted-IsSorted key val entries h.1,
          )
  ]
]

All-remove_first :
    (P : Entry → Type 0) (key : Bytes) (entries : List Entry)
    → All P entries
    → All P (remove_first key entries)
unfolding remove_first
All-remove_first P key [] h = tt
All-remove_first P key ((i, w) ∷ entries) h = elim (Bool-cases (equal i key)) [
  | inl same ↦ rw same h.1
  | inr other ↦ rw other (h.0, All-remove_first _ key entries h.1)
]

pub remove_first-IsSorted :
    (key : Bytes) (entries : List Entry) → IsSorted entries → IsSorted (remove_first key entries)
unfolding remove_first
remove_first-IsSorted key [] h = tt
remove_first-IsSorted key ((i, w) ∷ entries) h = elim (Bool-cases (equal i key)) [
  | inl same ↦ rw same h.1
  | inr other ↦ rw other (All-remove_first _ key entries h.0, remove_first-IsSorted key entries h.1)
]

find-after :
    (key : Bytes) (entries : List Entry)
    → All (λ y. cmp key y.0 ≡ Ordering.lt) entries
    → find key entries ≡ none
find-after key [] h = refl
find-after key ((i, w) ∷ entries) h = rw (apart_flip key i h.0) (find-after key entries h.1)

removed :
    (key i w : Bytes) (entries : List Entry) (j : Bytes)
    → equal i key ≡ true
    → All (λ y. cmp i y.0 ≡ Ordering.lt) entries
    → find j entries ≡ (if equal key j then none else if equal i j then some w else find j entries)
removed key i w entries j same later = elim (Bool-cases (equal key j)) [
  | inl hit ↦ rw hit (
      find-after j entries (
        subst (λ (k : Bytes). All (λ (y : Entry). cmp k y.0 ≡ Ordering.lt) entries)
          (equal→eq i key same ∙ equal→eq key j hit) later))
  | inr miss ↦
      let differs : equal i j ≡ false =
        subst (λ k. equal k j ≡ false) (sym (equal→eq i key same)) miss in
      ground (arith, miss, differs)
]

pub find-remove_first :
    (key : Bytes) (entries : List Entry) (j : Bytes)
    → IsSorted entries
    → find j (remove_first key entries) ≡ (if equal key j then none else find j entries)
unfolding remove_first
find-remove_first key [] j h = ground arith
find-remove_first key ((i, w) ∷ entries) j h = elim (Bool-cases (equal i key)) [
  | inl same ↦ rw same (removed key i w entries j same h.0)
  | inr other ↦ rw (other, find-remove_first key entries j h.1) (not_both i key j _ _ _ other)
]

-- The sorted lists as a skip list.
abbrev pub sorted_list : SkipList
sorted_list = record {
  List' = (entries : List Entry) × IsSorted entries;
  get = λ l key. find key l.0;
  set = λ key val l. (insert_sorted key val l.0, insert_sorted-IsSorted key val l.0 l.1);
  remove = λ key l. (remove_first key l.0, remove_first-IsSorted key l.0 l.1);
  get-set = λ key val l j. find-insert_sorted key val l.0 j;
  get-remove = λ key l j. find-remove_first key l.0 j l.1;
  elements = λ l. l.0;
  elements-IsSorted = λ l. l.1;
  elements-get = λ l key. refl;
}
