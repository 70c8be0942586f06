-- ===== src/Watcher/Tail.antt =====
-- `readGrownPrefix` of apps/collector/src/watcher/tailer.ts.
use ai.Common.{
  ℕ, zero, suc, ◌≤◌, ◌≡◌, ap, ◌∙◌, false, ◌&&◌, ◌||◌, not, Option, none, some, List, [], ◌∷◌, ◌++◌,
  arith, ltb, ◌==◌, if◌then◌else◌, length, take, drop, All, Bool-cases, inl, inr,
}
use ai.Watcher.{last_index_of, past_newline, nothing_new, read_grown_prefix}

-- No newline.
abbrev pub IsPartial : List ℕ → Type 0
IsPartial = All (λ x. (x == 0x0a) ≡ false)

abbrev pub end_of : Option ℕ → ℕ
end_of none = 0
end_of (some i) = suc i

-- The bytes of the complete lines.
unfoldable pub complete : List ℕ → ℕ
complete bytes = end_of (last_index_of 0x0a bytes)

complete_cons :
    (x : ℕ) (xs : List ℕ)
    → complete (x ∷ xs)
      ≡ (if ltb 0 (complete xs) then suc (complete xs) else if x == 0x0a then 1 else 0)
unfolding complete last_index_of
complete_cons x xs = by_index (last_index_of 0x0a xs)
  where
    by_index :
        (o : Option ℕ)
        → (elim (elim o as (λ _. Option ℕ) [
          | some i ↦ some (suc i)
          | none ↦ if x == 0x0a then some 0 else none
        ])
            as (λ _. ℕ) [ none ↦ 0 | some i ↦ suc i ])
          ≡ (if ltb 0 (elim o as (λ _. ℕ) [ none ↦ 0 | some i ↦ suc i ])
              then suc (elim o as (λ _. ℕ) [ none ↦ 0 | some i ↦ suc i ])
              else if x == 0x0a
              then 1
              else 0)
    by_index (some i) = ground arith
    by_index none = elim (Bool-cases (x == 0x0a)) [ inl e ↦ rw e | inr e ↦ rw e ]

-- Nothing after the complete lines holds a newline.
complete-IsPartial : (bytes : List ℕ) (n : ℕ) → complete bytes ≤ n → IsPartial (drop n bytes)
complete-IsPartial [] zero h = tt
complete-IsPartial [] (suc n) h = tt
complete-IsPartial (x ∷ xs) zero h = (
  ground (arith, complete_cons x xs),
  complete-IsPartial xs zero (ground (arith, complete_cons x xs)),
)
complete-IsPartial (x ∷ xs) (suc n) h = complete-IsPartial xs n (ground (arith, complete_cons x xs))

complete-le-length : (bytes : List ℕ) → complete bytes ≤ length bytes
complete-le-length [] = unfold complete in unfold last_index_of in omega arith
complete-le-length (x ∷ xs) = ground (arith, complete_cons x xs, complete-le-length xs)

-- A read yields the complete lines of the whole file if there are any and the file was cut short or a
-- line was completed beyond the cursor, and nothing otherwise. The new cursor is the end of what was
-- yielded; without a yield it is the old one, or 0 for a file that was cut short.
pub read_grown_prefix_lem :
    (bytes : List ℕ) (from_offset : ℕ)
    → let r = read_grown_prefix bytes from_offset in
      (r.reset ≡ ltb (length bytes) from_offset)
      × (r.grew ≡ (ltb 0 (complete bytes) && (r.reset || ltb from_offset (complete bytes))))
      × (r.text ≡ (if r.grew then take (complete bytes) bytes else []))
      × (r.new_offset ≡ (if r.grew then complete bytes else if r.reset then 0 else from_offset))
unfolding read_grown_prefix complete
read_grown_prefix_lem bytes from_offset =
    by_index (last_index_of 0x0a bytes) (complete-le-length bytes)
  where
    by_index :
        (o : Option ℕ) (_ : end_of o ≤ length bytes)
        → let r =
            if not (ltb (length bytes) from_offset) && (length bytes == from_offset)
            then nothing_new from_offset (ltb (length bytes) from_offset)
            else past_newline bytes from_offset (ltb (length bytes) from_offset) o in
          (r.reset ≡ ltb (length bytes) from_offset)
          × (r.grew ≡ (ltb 0 (end_of o) && (r.reset || ltb from_offset (end_of o))))
          × (r.text ≡ (if r.grew then take (end_of o) bytes else []))
          × (r.new_offset ≡ (if r.grew then end_of o else if r.reset then 0 else from_offset))
    by_index none h = (ground arith, ground arith, ground arith, ground arith)
    by_index (some i) h = (ground arith, ground arith, ground arith, ground arith)

-- Whatever the cursor, no line is complete beyond the new one, and a second read of the same file finds
-- nothing.
pub read_grown_prefix_drains :
    (bytes : List ℕ) (from_offset : ℕ)
    → let r = read_grown_prefix bytes from_offset in
      IsPartial (drop r.new_offset bytes) × ((read_grown_prefix bytes r.new_offset).grew ≡ false)
read_grown_prefix_drains bytes from_offset =
    let l = read_grown_prefix_lem bytes from_offset in
    let n = (read_grown_prefix bytes from_offset).new_offset in
    let again = read_grown_prefix_lem bytes n in
    (
      complete-IsPartial bytes n (ground (arith, l.0, l.1, l.3)),
      again.1 ∙ ground (arith, l.0, l.1, l.3, again.0, complete-le-length bytes),
    )

-- The complete lines end in a newline.
pub complete-ends :
    (bytes : List ℕ) (n : ℕ)
    → complete bytes ≡ suc n
    → take (suc n) bytes ≡ take n bytes ++ 0x0a ∷ []
complete-ends [] n h = absurd (omega (arith, no_line h))
  where
    no_line : complete [] ≡ suc n → (0 ≡ suc n)
    no_line h = unfold complete in unfold last_index_of in h
complete-ends (x ∷ xs) zero h = ap (λ y. y ∷ []) (ground (arith, complete_cons x xs, h))
complete-ends (x ∷ xs) (suc n) h =
    ap (λ ys. x ∷ ys) (complete-ends xs n (ground (arith, complete_cons x xs, h)))
