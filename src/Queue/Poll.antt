-- ===== src/Queue/Poll.antt =====
-- The change memory of polled units and the file cursors of queue-store.ts.
use ai.Common.{
  ℕ, ◌≡◌, sym, ap, ◌∙◌, String, not, some, ◌&&◌, str_eq, eq_iff, eq_refl, if◌then◌else◌, Bool-cases,
  inl, inr, lookup-insert, string_Eq, pair_Eq,
}
use ai.Queue.{Store}
use ai.Queue.Memory.{hash_differs, poll_changed, poll_commit, get_cursor, save_cursor}

-- With a digest that tells contents apart, a unit counts as changed after a commit exactly when its
-- content is another one than that committed; every other unit is judged as before.
pub poll_changed-poll_commit :
    (sha256 : String → String) (now : ℕ) (c d key k content new : String) (s : Store)
    → ((a b : String) → sha256 a ≡ sha256 b → a ≡ b)
    → poll_changed sha256 d k new (poll_commit sha256 now c key content s) ≡ (
        if str_eq c d && str_eq key k
        then not (str_eq content new)
        else poll_changed sha256 d k new s)
unfolding poll_changed poll_commit
poll_changed-poll_commit sha256 now c d key k content new s inj =
    ap (λ o. hash_differs o (sha256 new)) (lookup-insert (c, key) (d, k) _ s.poll_state)
    ∙ elim (Bool-cases (str_eq c d && str_eq key k)) [ inl e ↦ rw e (ap not same) | inr e ↦ rw e ]
  where
    same : str_eq (sha256 content) (sha256 new) ≡ str_eq content new
    same = elim (Bool-cases (str_eq content new)) [
      | inl e ↦ rw ((eq_iff content new).0 e, eq_refl (sha256 new), eq_refl new)
      | inr e ↦ elim (Bool-cases (str_eq (sha256 content) (sha256 new))) [
        | inl h ↦ absurd (cc ((eq_iff content new).1 (inj content new ((eq_iff _ _).0 h)), e))
        | inr h ↦ h ∙ sym e
      ]
    ]

-- A saved cursor is read back, and every other file keeps its own.
pub get_cursor-save_cursor :
    (now : ℕ) (c d path p : String) (byte_offset size : ℕ) (s : Store)
    → get_cursor d p (save_cursor now c path byte_offset size s) ≡ (
        if str_eq c d && str_eq path p
        then some (record { byte_offset = byte_offset; size = size; updated_at = now })
        else get_cursor d p s)
unfolding get_cursor save_cursor
get_cursor-save_cursor now c d path p byte_offset size s = lookup-insert (c, path) (d, p) _ _
