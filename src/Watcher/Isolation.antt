-- ===== src/Watcher/Isolation.antt =====
-- The loop of `tickOnce` of apps/collector/src/watcher/file-watcher.ts over the discovered files.
use ai.Common.{
  ◌≡◌, refl, sym, ap, subst, ◌∙◌, String, string_Eq, eq_iff, eq_refl, str_eq, true, false, ◌&&◌,
  List, [], ◌∷◌, if◌then◌else◌, All, All-imp, Bool-cases, &&-split, inl, inr,
}
use ai.Queue.{Store}
use ai.Queue.Memory.{get_cursor}
use ai.Watcher.{Parsed, Connector, World, caught, capture_file, capture_all, seen_key}
use ai.Watcher.Capture.{cursor_after, get_cursor-capture}
use ai.Watcher.Queued.{has_row, records_of, capture_file-Queues, capture_all-kept}

abbrev pub key : Connector × String → String
key f = seen_key f.0.id f.1

-- No two files have one key.
abbrev pub Distinct : List (Connector × String) → Type 0
Distinct [] = Unit {0}
Distinct (f ∷ fs) =
    All (λ (g : Connector × String). str_eq (key f) (key g) ≡ false) fs × Distinct fs

-- Files of different keys have different cursors.
apart :
    (f g : Connector × String)
    → str_eq (key f) (key g) ≡ false
    → (str_eq f.0.id g.0.id && str_eq f.1 g.1) ≡ false
apart f g h = elim (Bool-cases (str_eq f.0.id g.0.id && str_eq f.1 g.1)) [
  | inl e ↦
      let parts = &&-split _ _ e in
      absurd (
        cc (
          h,
          (eq_iff (key f) (key g)).1
              (λ i. seen_key ((eq_iff f.0.id g.0.id).0 parts.0 i) ((eq_iff f.1 g.1).0 parts.1 i)),
        ))
  | inr e ↦ e
]

pub turned :
    (f : Connector × String) (fs : List (Connector × String))
    → All (λ (g : Connector × String). str_eq (key f) (key g) ≡ false) fs
    → All (λ (g : Connector × String). str_eq (key g) (key f) ≡ false) fs
turned f fs h = All-imp _ _ fs (λ g e. flip g e) h
  where
    flip :
        (g : Connector × String) → str_eq (key f) (key g) ≡ false → str_eq (key g) (key f) ≡ false
    flip g e = elim (Bool-cases (str_eq (key g) (key f))) [
      | inl m ↦ absurd (cc (e, (eq_iff (key f) (key g)).1 (sym ((eq_iff (key g) (key f)).0 m))))
      | inr m ↦ m
    ]

module _ (w : World) where
  -- A file that is not among those captured keeps its cursor.
  capture_all-others :
      (g : Connector × String) (files : List (Connector × String)) (s : Store)
      → All (λ (f : Connector × String). str_eq (key f) (key g) ≡ false) files
      → get_cursor g.0.id g.1 (capture_all w files s) ≡ get_cursor g.0.id g.1 s
  unfolding capture_all
  capture_all-others g [] s h = refl
  capture_all-others g (f ∷ files) s h =
      capture_all-others g files (caught w f.0 s (capture_file w f.0 f.1 s)) h.1
      ∙ get_cursor-capture w f.0 g.0 f.1 g.1 s
      ∙ ap
          (λ b.
            if b then cursor_after w f.0 f.1 (get_cursor f.0.id f.1 s) else get_cursor g.0.id g.1 s)
          (apart f g h.0)

  -- What is promised of a captured file, from its cursor before.
  abbrev pub Captured : Store → Store → Connector × String → Type 0
  Captured s u f =
      (get_cursor f.0.id f.1 u ≡ cursor_after w f.0 f.1 (get_cursor f.0.id f.1 s))
      × All (λ (r : Parsed). has_row u r ≡ true) (records_of w f.0 f.1 (get_cursor f.0.id f.1 s))

  pub Captured-from :
      (s t u : Store) (g : Connector × String)
      → get_cursor g.0.id g.1 t ≡ get_cursor g.0.id g.1 s
      → Captured t u g
      → Captured s u g
  Captured-from s t u g e c =
      subst
        (λ x.
          (get_cursor g.0.id g.1 u ≡ cursor_after w g.0 g.1 x)
          × All (λ (r : Parsed). has_row u r ≡ true) (records_of w g.0 g.1 x))
        e c

  pub capture_all-Captured :
      (files : List (Connector × String)) (s : Store)
      → Distinct files
      → All (Captured s (capture_all w files s)) files
  unfolding capture_all
  capture_all-Captured [] s d = tt
  capture_all-Captured (f ∷ files) s d =
      let t = caught w f.0 s (capture_file w f.0 f.1 s) in
      (
        (
          capture_all-others f files t (turned f files d.0)
              ∙ get_cursor-capture w f.0 f.0 f.1 f.1 s
              ∙ ap
                  (λ b.
                    if b && str_eq f.1 f.1
                    then cursor_after w f.0 f.1 (get_cursor f.0.id f.1 s)
                    else get_cursor f.0.id f.1 s)
                  (eq_refl f.0.id)
              ∙ ap
                  (λ b.
                    if b
                    then cursor_after w f.0 f.1 (get_cursor f.0.id f.1 s)
                    else get_cursor f.0.id f.1 s)
                  (eq_refl f.1),
          All-imp _ _ _ (λ r h. capture_all-kept w files t r h) (capture_file-Queues w f.0 f.1 s).1,
        ),
        both files d.0 (capture_all-Captured files t d.1),
      )
    where
      both :
          (fs : List (Connector × String))
          → All (λ (g : Connector × String). str_eq (key f) (key g) ≡ false) fs
          → All
              (Captured
                (caught w f.0 s (capture_file w f.0 f.1 s))
                (capture_all w files (caught w f.0 s (capture_file w f.0 f.1 s))))
              fs
          → All (Captured s (capture_all w files (caught w f.0 s (capture_file w f.0 f.1 s)))) fs
      both [] h c = tt
      both (g ∷ fs) h c = (
        Captured-from s _ _ g
            (get_cursor-capture w f.0 g.0 f.1 g.1 s
              ∙ ap
                  (λ b.
                    if b
                    then cursor_after w f.0 f.1 (get_cursor f.0.id f.1 s)
                    else get_cursor g.0.id g.1 s)
                  (apart f g h.0))
            c.0,
        both fs h.1 c.1,
      )
