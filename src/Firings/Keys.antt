-- ===== src/Firings/Keys.antt =====
-- A JavaScript `Set` of texts keeps each text once, at its first insertion.
use ai.Common.{
  ◌+◌, ◌≤◌, ◌≡◌, ◌↔◌, refl, sym, ◌∙◌, ap, String, Bool, true, false, ◌&&◌, ◌||◌, not, List, [], ◌∷◌,
  arith, ◌==◌, str_eq, eq_iff, eq_refl, length, length-keep-le, keep, every, Bool-cases, &&-split,
  and_false, inl, inr,
}
use ai.Firings.{mem}

abbrev pub remove : String → List String → List String
remove k = keep (λ j. not (str_eq j k))

-- The elements of `new Set(keys)`, in order.
unfoldable pub distinct : List String → List String
distinct [] = []
distinct (k ∷ ks) = k ∷ remove k (distinct ks)

abbrev pub Subset : List String → List String → Type 0
Subset xs ys = (k : String) → mem k xs ≡ true → mem k ys ≡ true

abbrev NoDup : List String → Type 0
NoDup [] = Unit {0}
NoDup (x ∷ xs) = (mem x xs ≡ false) × NoDup xs

mem-remove :
    (k x : String) (ys : List String) → mem k (remove x ys) ≡ (mem k ys && not (str_eq k x))
mem-remove k x [] = refl
mem-remove k x (y ∷ ys) = ground (arith, eq_iff y x, eq_iff y k, eq_iff k x, mem-remove k x ys)

mem-distinct : (k : String) (ks : List String) → mem k (distinct ks) ≡ mem k ks
unfolding distinct
mem-distinct k [] = refl
mem-distinct k (j ∷ ks) =
    rw (mem-remove k j (distinct ks), mem-distinct k ks) (ground (arith, eq_iff j k, eq_iff k j))

mem-false-remove :
    (k x : String) (ys : List String) → mem k ys ≡ false → mem k (remove x ys) ≡ false
mem-false-remove k x ys h = rw (mem-remove, h) refl

NoDup-remove : (x : String) (ys : List String) → NoDup ys → NoDup (remove x ys)
NoDup-remove x [] h = tt
NoDup-remove x (y ∷ ys) h = elim (Bool-cases (str_eq y x)) [
  | inl e ↦ rw e (NoDup-remove x ys h.1)
  | inr e ↦ rw e (mem-false-remove y x ys h.0, NoDup-remove x ys h.1)
]

distinct-NoDup : (ks : List String) → NoDup (distinct ks)
unfolding distinct
distinct-NoDup [] = tt
distinct-NoDup (k ∷ ks) = (
  rw (mem-remove, eq_refl k) (and_false (mem k (distinct ks))),
  NoDup-remove k _ (distinct-NoDup ks),
)

length-remove :
    (x : String) (ys : List String) → mem x ys ≡ true → length (remove x ys) + 1 ≤ length ys
length-remove x [] h = cc
length-remove x (y ∷ ys) h = elim (Bool-cases (str_eq y x)) [
  | inl e ↦ rw e (omega (arith, length-keep-le (λ j. not (str_eq j x)) ys))
  | inr e ↦ rw e (omega (arith, length-remove x ys (ap (λ b. b || mem x ys) (sym e) ∙ h)))
]

-- A list without repetitions is no longer than a list that holds its elements.
length-Subset : (xs ys : List String) → NoDup xs → Subset xs ys → length xs ≤ length ys
length-Subset [] ys n s = omega arith
length-Subset (x ∷ xs) ys n s =
    omega (arith, length-remove x ys there, length-Subset xs (remove x ys) n.1 rest)
  where
    there : mem x ys ≡ true
    there = s x (rw (eq_refl x) refl)

    rest : Subset xs (remove x ys)
    rest k h = elim (Bool-cases (str_eq k x)) [
      | inl e ↦ cc (h, n.0, (eq_iff k x).0 e)
      | inr e ↦ rw (mem-remove, e, s k (later k h)) refl
    ]
      where
        later : (k : String) → mem k xs ≡ true → (str_eq x k || mem k xs) ≡ true
        later k h = rw h (or_true (str_eq x k))
          where
            or_true : (b : Bool) → (b || true) ≡ true
            or_true true = refl
            or_true false = refl

-- A list without repetitions that is as long as one holding its elements holds all of that one.
full-Subset : (xs ys : List String) → NoDup xs → Subset xs ys → length ys ≤ length xs → Subset ys xs
full-Subset xs ys n s l k h = elim (Bool-cases (mem k xs)) [
  | inl m ↦ m
  | inr m ↦
      absurd (omega (arith, length-remove k ys h, length-Subset xs (remove k ys) n (others m)))
]
  where
    others : mem k xs ≡ false → Subset xs (remove k ys)
    others m j i = elim (Bool-cases (str_eq j k)) [
      | inl e ↦ cc (i, m, (eq_iff j k).0 e)
      | inr e ↦ rw (mem-remove, e, s j i) refl
    ]

every-Subset : (xs ys : List String) → (every (λ k. mem k ys) xs ≡ true) ↔ Subset xs ys
every-Subset xs ys = (to xs, from xs)
  where
    to : (xs : List String) → every (λ k. mem k ys) xs ≡ true → Subset xs ys
    to [] h k m = cc
    to (x ∷ xs) h k m =
        let parts = &&-split (mem x ys) _ h in
        elim (Bool-cases (str_eq x k)) [
          | inl e ↦ ap (λ j. mem j ys) (sym ((eq_iff x k).0 e)) ∙ parts.0
          | inr e ↦ to xs parts.1 k (ap (λ b. b || mem k xs) (sym e) ∙ m)
        ]

    from : (xs : List String) → Subset xs ys → every (λ k. mem k ys) xs ≡ true
    from [] s = refl
    from (x ∷ xs) s = rw (s x (rw (eq_refl x) refl)) (from xs (λ k m. s k (later k m)))
      where
        later : (k : String) → mem k xs ≡ true → (str_eq x k || mem k xs) ≡ true
        later k h = rw h (or_true (str_eq x k))
          where
            or_true : (b : Bool) → (b || true) ≡ true
            or_true true = refl
            or_true false = refl

-- Two sets are told apart by their sizes and by the elements of one alone.
pub same_size_every :
    (open_keys derived : List String)
    → (((length (distinct open_keys) == length (distinct derived)) ≡ true)
        × (every (λ k. mem k (distinct open_keys)) (distinct derived) ≡ true))
      ↔ ((k : String) → mem k derived ≡ mem k open_keys)
same_size_every open_keys derived = (to, from)
  where
    both : (a b : Bool) → (a ≡ true → b ≡ true) → (b ≡ true → a ≡ true) → a ≡ b
    both true b f g = sym (f refl)
    both false true f g = g refl
    both false false f g = refl

    to :
        ((length (distinct open_keys) == length (distinct derived)) ≡ true)
          × (every (λ k. mem k (distinct open_keys)) (distinct derived) ≡ true)
        → (k : String) → mem k derived ≡ mem k open_keys
    to h k =
        let sub = (every-Subset (distinct derived) (distinct open_keys)).0 h.1 in
        let sup =
          full-Subset (distinct derived) (distinct open_keys) (distinct-NoDup derived) sub
            (ground (arith, h.0)) in
        sym (mem-distinct k derived) ∙ both _ _ (sub k) (sup k) ∙ mem-distinct k open_keys

    from :
        ((k : String) → mem k derived ≡ mem k open_keys)
        → ((length (distinct open_keys) == length (distinct derived)) ≡ true)
          × (every (λ k. mem k (distinct open_keys)) (distinct derived) ≡ true)
    from f = (
      ground (
        arith,
        length-Subset _ _ (distinct-NoDup derived) sub,
        length-Subset _ _ (distinct-NoDup open_keys) sup,
      ),
      (every-Subset (distinct derived) (distinct open_keys)).1 sub,
    )
      where
        sub : Subset (distinct derived) (distinct open_keys)
        sub k m = mem-distinct k open_keys ∙ sym (f k) ∙ sym (mem-distinct k derived) ∙ m

        sup : Subset (distinct open_keys) (distinct derived)
        sup k m = mem-distinct k derived ∙ f k ∙ sym (mem-distinct k open_keys) ∙ m
