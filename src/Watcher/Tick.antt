-- ===== src/Watcher/Tick.antt =====
-- `discover` and `tickOnce` of apps/collector/src/watcher/file-watcher.ts.
use ai.Common.{
  ◌≡◌, refl, sym, ap, ◌∙◌, String, string_Eq, eq_iff, eq_refl, str_eq, Bool, true, false, ◌||◌,
  List, [], ◌∷◌, ◌++◌, if◌then◌else◌, any, All, All-append, All-imp, Bool-cases, inl, inr,
}
use ai.Queue.{Store}
use ai.Watcher.{Connector, World, report, Globbed, seen_key, found_in, discover, tick_once}
use ai.Watcher.Capture.{kept_cursor, caught-file_cursors}
use ai.Watcher.Isolation.{key, Distinct, Captured, Captured-from, capture_all-Captured}

-- A file whose key was not seen.
abbrev New : List String → Connector × String → Type 0
New seen f = any (str_eq (key f)) seen ≡ false

abbrev Seen : List String → Connector × String → Type 0
Seen seen f = any (str_eq (key f)) seen ≡ true

any-cons :
    (k j : String) (seen : List String)
    → any (str_eq k) (j ∷ seen) ≡ false
    → (str_eq k j ≡ false) × (any (str_eq k) seen ≡ false)
any-cons k j seen h = elim (Bool-cases (str_eq k j)) [
  | inl e ↦ absurd (cc (rw e at h))
  | inr e ↦ (e, ap (λ b. b || any (str_eq k) seen) (sym e) ∙ h)
]

turned_back :
    (f : Connector × String) (fs : List (Connector × String))
    → All (λ (g : Connector × String). str_eq (key g) (key f) ≡ false) fs
    → All (λ (g : Connector × String). str_eq (key f) (key g) ≡ false) fs
turned_back f fs h = All-imp _ _ fs (λ g e. flip g e) h
  where
    flip :
        (g : Connector × String) → str_eq (key g) (key f) ≡ false → str_eq (key f) (key g) ≡ false
    flip g e = elim (Bool-cases (str_eq (key f) (key g))) [
      | inl m ↦ absurd (cc (e, (eq_iff (key g) (key f)).1 (sym ((eq_iff (key f) (key g)).0 m))))
      | inr m ↦ m
    ]

-- What a search of paths finds: files not seen before and of different keys, all seen after.
abbrev Fresh : List String → List (Connector × String) × List String → Type 0
Fresh seen out =
    All (New seen) out.0
    × Distinct out.0
    × All (Seen out.1) out.0
    × ((k : String) → any (str_eq k) seen ≡ true → any (str_eq k) out.1 ≡ true)

found_in-Fresh : (c : Connector) (paths seen : List String) → Fresh seen (found_in c paths seen)
unfolding found_in
found_in-Fresh c [] seen = (tt, tt, tt, λ k h. h)
found_in-Fresh c (path ∷ paths) seen = elim (Bool-cases (any (str_eq (seen_key c.id path)) seen)) [
  | inl e ↦ rw e (found_in-Fresh c paths seen)
  | inr e ↦
      let ih = found_in-Fresh c paths (seen_key c.id path ∷ seen) in
      rw e (
        (e, All-imp _ (New seen) _ (λ g n. (any-cons (key g) (seen_key c.id path) seen n).1) ih.0),
        (
          turned_back (c, path) _
              (All-imp _ _ _ (λ g n. (any-cons (key g) (seen_key c.id path) seen n).0) ih.0),
          ih.1,
        ),
        (ih.3 (seen_key c.id path) (rw (eq_refl (seen_key c.id path)) refl), ih.2),
        λ k h. ih.3 k (rw h (or_true (str_eq k (seen_key c.id path)))),
      )
]
  where
    or_true : (b : Bool) → (b || true) ≡ true
    or_true true = refl
    or_true false = refl

Distinct-append :
    (seen : List String) (xs ys : List (Connector × String))
    → Distinct xs
    → Distinct ys
    → All (Seen seen) xs
    → All (New seen) ys
    → Distinct (xs ++ ys)
Distinct-append seen [] ys dx dy sx ny = dy
Distinct-append seen (x ∷ xs) ys dx dy sx ny = (
  All-append _ xs ys dx.0 (All-imp (New seen) _ ys (λ y n. unlike y n) ny),
  Distinct-append seen xs ys dx.1 dy sx.1 ny,
)
  where
    unlike : (y : Connector × String) → New seen y → str_eq (key x) (key y) ≡ false
    unlike y n = elim (Bool-cases (str_eq (key x) (key y))) [
      | inl e ↦ absurd (cc (n, sx.0, ap (λ k. any (str_eq k) seen) ((eq_iff (key x) (key y)).0 e)))
      | inr e ↦ e
    ]

module _ (w : World) (globs : Connector → Globbed) where
  discover-Distinct :
      (cs : List Connector) (seen : List String) (s : Store)
      → All (New seen) (discover w globs cs seen s).0 × Distinct (discover w globs cs seen s).0
  unfolding discover
  discover-Distinct [] seen s = (tt, tt)
  discover-Distinct (c ∷ cs) seen s =
      let own = found_in c (globs c).matches seen in
      let fresh = found_in-Fresh c (globs c).matches seen in
      let ih = discover-Distinct cs own.1 (if (globs c).throws then report w c s else s) in
      (
        All-append _ own.0 _ fresh.0
            (All-imp (New own.1) (New seen) _ (λ g n. earlier own.1 g (fresh.3 (key g)) n) ih.0),
        Distinct-append own.1 own.0 _ fresh.1 ih.1 fresh.2 ih.0,
      )
    where
      earlier :
          (later : List String) (g : Connector × String)
          → (any (str_eq (key g)) seen ≡ true → any (str_eq (key g)) later ≡ true)
          → New later g
          → New seen g
      earlier later g k n = elim (Bool-cases (any (str_eq (key g)) seen)) [
        | inl e ↦ absurd (cc (n, k e))
        | inr e ↦ e
      ]

  discover-file_cursors :
      (cs : List Connector) (seen : List String) (s : Store)
      → (discover w globs cs seen s).1.file_cursors ≡ s.file_cursors
  unfolding discover
  discover-file_cursors [] seen s = refl
  discover-file_cursors (c ∷ cs) seen s =
      discover-file_cursors cs (found_in c (globs c).matches seen).1
        (if (globs c).throws then report w c s else s)
      ∙ reported (globs c).throws
    where
      reported : (b : Bool) → (if b then report w c s else s).file_cursors ≡ s.file_cursors
      reported true = caught-file_cursors w c s
      reported false = refl

  -- In a tick every discovered file is captured as if it were alone, whatever the globs and the other
  -- files do: its cursor moves by its own contents, its own cursor and its own parser, and the records
  -- that its cursor moves past are on the queue.
  pub tick_once-Captured :
      (connectors : List Connector) (s : Store)
      → All (Captured w s (tick_once w globs connectors s)) (discover w globs connectors [] s).0
  unfolding tick_once
  tick_once-Captured connectors s =
      let found = discover w globs connectors [] s in
      All-imp _ _ found.0
        (λ f c.
          Captured-from w s found.1 _ f
            (kept_cursor f.0.id f.1 s found.1 (discover-file_cursors connectors [] s)) c)
        (capture_all-Captured w found.0 found.1 (discover-Distinct connectors [] s).1)
