-- ===== src/Quality/Git.antt =====
-- The git confidence of each session in packages/shared/src/data-quality.ts.
use ai.Common.{
  ℕ, suc, ◌+◌, ◌≡◌, refl, sym, subst, ◌∙◌, String, str_eq, Bool, false, ◌&&◌, Option, none, some,
  List, [], ◌∷◌, arith, inl, inr, eq_iff, eq_refl, Bool-cases, if◌then◌else◌, length, any, In, here,
  there, lookup, insert, string_Eq, lookup-insert, ap,
}
use ai.Quality.{
  SessionQualityRow, GitBucket, confirmed_link, heuristic_link, no_link, GitLinkageRow, Buckets,
  bucket_eq, in_bucket, start_buckets, link_bucket, link_at, link_all,
}

-- Some link of the session has the status.
abbrev pub linked_as : String → String → List GitLinkageRow → Bool
linked_as status id links =
    any (λ (l : GitLinkageRow). str_eq l.session_id id && str_eq l.status status) links

-- The best of the links, on top of the bucket so far.
abbrev pub best : GitBucket → String → List GitLinkageRow → GitBucket
best confirmed_link id links = confirmed_link
best heuristic_link id links =
    if linked_as "confirmed" id links then confirmed_link else heuristic_link
best no_link id links =
    if linked_as "confirmed" id links
    then confirmed_link
    else if linked_as "suggested" id links
    then heuristic_link
    else no_link

apart : str_eq "confirmed" "suggested" ≡ false
apart = refl

best_after :
    (b : GitBucket) (id : String) (l : GitLinkageRow) (links : List GitLinkageRow)
    → best (if str_eq l.session_id id then link_bucket l.status b else b) id links
      ≡ best b id (l ∷ links)
best_after confirmed_link id l links = elim (Bool-cases (str_eq l.session_id id)) [
  | inl e ↦ rw e refl
  | inr e ↦ rw e refl
]
best_after heuristic_link id l links = ground (arith, eq_iff l.session_id id)
best_after no_link id l links = ground (arith, eq_iff l.session_id id)

lookup-link_at :
    (id : String) (l : GitLinkageRow) (m : Buckets) (b : GitBucket)
    → lookup id m ≡ some b
    → lookup id (link_at l (lookup l.session_id m) m)
      ≡ some (if str_eq l.session_id id then link_bucket l.status b else b)
lookup-link_at id l m b h = elim (Bool-cases (str_eq l.session_id id)) [
  | inl e ↦
      let same : lookup l.session_id m ≡ some b =
        subst (λ k. lookup k m ≡ some b) (sym ((eq_iff l.session_id id).0 e)) h in
      rw (same, lookup-insert l.session_id id (link_bucket l.status b) m, e) refl
  | inr e ↦ rw e (other e (lookup l.session_id m))
]
  where
    other :
        str_eq l.session_id id ≡ false → (o : Option GitBucket) → lookup id (link_at l o m) ≡ some b
    other e none = h
    other e (some w) = rw (lookup-insert l.session_id id (link_bucket l.status w) m, e) h

lookup-link_all :
    (id : String) (links : List GitLinkageRow) (m : Buckets) (b : GitBucket)
    → lookup id m ≡ some b
    → lookup id (link_all links m) ≡ some (best b id links)
unfolding link_all
lookup-link_all id [] m b h = h ∙ ap some (best_nothing b)
  where
    best_nothing : (x : GitBucket) → x ≡ best x id []
    best_nothing confirmed_link = refl
    best_nothing heuristic_link = refl
    best_nothing no_link = refl
lookup-link_all id (l ∷ links) m b h =
    lookup-link_all id links (link_at l (lookup l.session_id m) m)
      (if str_eq l.session_id id then link_bucket l.status b else b) (lookup-link_at id l m b h)
    ∙ ap some (best_after b id l links)

start_kept :
    (id : String) (sessions : List SessionQualityRow) (m : Buckets)
    → lookup id m ≡ some no_link
    → lookup id (start_buckets sessions m) ≡ some no_link
unfolding start_buckets
start_kept id [] m h = h
start_kept id (s ∷ sessions) m h = start_kept id sessions (insert s.session_id no_link m) inserted
  where
    inserted : lookup id (insert s.session_id no_link m) ≡ some no_link
    inserted = elim (Bool-cases (str_eq s.session_id id)) [
      | inl e ↦ rw (lookup-insert s.session_id id no_link m, e) refl
      | inr e ↦ rw (lookup-insert s.session_id id no_link m, e) h
    ]

lookup-start_buckets :
    (s : SessionQualityRow) (sessions : List SessionQualityRow) (m : Buckets)
    → In s sessions
    → lookup s.session_id (start_buckets sessions m) ≡ some no_link
unfolding start_buckets
lookup-start_buckets s [] m i = elim i [ ]
lookup-start_buckets s (_ ∷ sessions) m here =
    start_kept s.session_id sessions (insert s.session_id no_link m)
      (rw (lookup-insert s.session_id s.session_id no_link m, eq_refl s.session_id) refl)
lookup-start_buckets s (q ∷ sessions) m (there i) =
    lookup-start_buckets s sessions (insert q.session_id no_link m) i

-- Each session of the window is in one bucket, by the best of its links and whatever their order: among
-- the confirmed ones if some link of it is confirmed, else among the heuristic ones if some link is
-- suggested, else among those without a link.
pub lookup-link_all-start_buckets :
    (sessions : List SessionQualityRow) (links : List GitLinkageRow) (s : SessionQualityRow)
    → In s sessions
    → lookup s.session_id (link_all links (start_buckets sessions []))
      ≡ some (
          if linked_as "confirmed" s.session_id links
          then confirmed_link
          else if linked_as "suggested" s.session_id links
          then heuristic_link
          else no_link)
lookup-link_all-start_buckets sessions links s i =
    lookup-link_all s.session_id links (start_buckets sessions []) no_link
      (lookup-start_buckets s sessions [] i)

length-insert :
    (k : String) (w : GitBucket) (m : Buckets) (v : GitBucket)
    → lookup k m ≡ some v
    → length (insert k w m) ≡ length m
unfolding lookup insert
length-insert k w [] v h = cc
length-insert k w (p ∷ m) v h = elim (Bool-cases (str_eq p.0 k)) [
  | inl e ↦ rw e refl
  | inr e ↦ rw e (ap suc (length-insert k w m v (rw e at h)))
]

length-link_all : (links : List GitLinkageRow) (m : Buckets) → length (link_all links m) ≡ length m
unfolding link_all
length-link_all [] m = refl
length-link_all (l ∷ links) m =
    length-link_all links (link_at l (lookup l.session_id m) m)
    ∙ by_row (lookup l.session_id m) refl
  where
    by_row : (o : Option GitBucket) → lookup l.session_id m ≡ o → length (link_at l o m) ≡ length m
    by_row none e = refl
    by_row (some b) e = length-insert l.session_id (link_bucket l.status b) m b e

in_bucket_total :
    (m : Buckets)
    → in_bucket confirmed_link m + in_bucket heuristic_link m + in_bucket no_link m ≡ length m
in_bucket_total [] = omega arith
in_bucket_total (p ∷ m) = by_bucket p.1 (in_bucket_total m)
  where
    one : GitBucket → GitBucket → ℕ
    one x b = if bucket_eq x b then 1 else 0

    by_bucket :
        (x : GitBucket)
        → in_bucket confirmed_link m + in_bucket heuristic_link m + in_bucket no_link m ≡ length m
        → (one x confirmed_link + in_bucket confirmed_link m)
            + (one x heuristic_link + in_bucket heuristic_link m)
            + (one x no_link + in_bucket no_link m)
          ≡ suc (length m)
    by_bucket confirmed_link h = omega arith
    by_bucket heuristic_link h = omega arith
    by_bucket no_link h = omega arith

-- Every distinct session is counted in one of the three buckets.
pub git_total :
    (links : List GitLinkageRow) (m : Buckets)
    → in_bucket confirmed_link (link_all links m)
        + in_bucket heuristic_link (link_all links m)
        + in_bucket no_link (link_all links m)
      ≡ length m
git_total links m = in_bucket_total (link_all links m) ∙ length-link_all links m
