-- ===== src/Queue/Errors.antt =====
-- The latest error of each connector in queue-store.ts: what `recordConnectorError` keeps, and what
-- `clearConnectorError` forgets.
use ai.Common.{
  ℕ, ◌+◌, ◌≤◌, ◌≡◌, refl, ap, ◌∙◌, String, false, Option, none, some, List, [], ◌∷◌, ◌++◌, arith,
  ltb, str_eq, eq_refl, if◌then◌else◌, length, take, length-append, length-take-le, Bool-cases, inl,
  inr, lookup, lookup-insert, lookup-erase, string_Eq,
}
use ai.Queue.{Store, ConnectorErrorRecord}
use ai.Queue.Memory.{bound_message, next_count, record_connector_error, clear_connector_error}

abbrev pub error_of : String → Store → Option ConnectorErrorRecord
error_of connector s = lookup connector s.connector_errors

-- A kept message fits the bound, is the message itself where that fits, and is not cut again.
pub bound_message_bounds :
    (message : List ℕ)
    → (length (bound_message message) ≤ 500)
      × (bound_message (bound_message message) ≡ bound_message message)
unfolding bound_message
bound_message_bounds message = elim (Bool-cases (ltb 500 (length message))) [
  | inl e ↦ rw e (short, rw (not_over _ short))
  | inr e ↦ rw e (ground arith, rw e)
]
  where
    short : length (take 499 message ++ 0x2026 ∷ []) ≤ 500
    short =
        omega (arith, length-append (take 499 message) (0x2026 ∷ []), length-take-le 499 message)

    not_over : (xs : List ℕ) → length xs ≤ 500 → ltb 500 (length xs) ≡ false
    not_over xs h = ground arith

-- After a failure is recorded, the connector's record holds the newest message, bounded, and its
-- instant, and counts one more failure; the records of the other connectors are as they were.
pub error_of-record_connector_error :
    (connector d : String) (message : List ℕ) (at : ℕ) (s : Store)
    → error_of d (record_connector_error connector message at s) ≡ (
        if str_eq connector d
        then some (record {
          message = bound_message message;
          at = at;
          errors = next_count (error_of connector s);
        })
        else error_of d s)
unfolding record_connector_error
error_of-record_connector_error connector d message at s = lookup-insert connector d _ _

pub error_of-clear_connector_error :
    (connector d : String) (s : Store)
    → error_of d (clear_connector_error connector s)
      ≡ (if str_eq connector d then none else error_of d s)
unfolding clear_connector_error
error_of-clear_connector_error connector d s = lookup-erase connector d _

-- Any number of failures in a row, as messages with their instants.
unfoldable pub fail_often : String → List (List ℕ × ℕ) → Store → Store
fail_often connector [] s = s
fail_often connector ((message, at) ∷ rest) s =
    fail_often connector rest (record_connector_error connector message at s)

abbrev pub failures : Option ConnectorErrorRecord → ℕ
failures none = 0
failures (some r) = r.errors

failures-record :
    (connector : String) (message : List ℕ) (at : ℕ) (s : Store)
    → failures (error_of connector (record_connector_error connector message at s))
      ≡ failures (error_of connector s) + 1
failures-record connector message at s =
    rw (error_of-record_connector_error connector connector message at s, eq_refl connector)
      (one_more (error_of connector s))
  where
    one_more : (o : Option ConnectorErrorRecord) → next_count o ≡ failures o + 1
    one_more none = omega arith
    one_more (some r) = refl

failures-fail_often :
    (connector : String) (fs : List (List ℕ × ℕ)) (s : Store)
    → failures (error_of connector (fail_often connector fs s))
      ≡ failures (error_of connector s) + length fs
unfolding fail_often
failures-fail_often connector [] s = omega arith
failures-fail_often connector ((message, at) ∷ rest) s = omega (
  arith,
  failures-fail_often connector rest (record_connector_error connector message at s),
  failures-record connector message at s,
)

-- The count is that of the current fault: after a success clears it, it counts the failures since.
pub failures-since_clear :
    (connector : String) (fs : List (List ℕ × ℕ)) (s : Store)
    → failures (error_of connector (fail_often connector fs (clear_connector_error connector s)))
      ≡ length fs
failures-since_clear connector fs s =
    failures-fail_often connector fs (clear_connector_error connector s)
    ∙ ap (λ o. failures o + length fs)
        (error_of-clear_connector_error connector connector s
          ∙ ap (λ b. if b then none else error_of connector s) (eq_refl connector))
    ∙ zero_add (length fs)
  where
    zero_add : (n : ℕ) → 0 + n ≡ n
    zero_add n = omega arith
