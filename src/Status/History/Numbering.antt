-- ===== src/Status/History/Numbering.antt =====
-- The history holds the latest ten entries, numbered from 1 in the order they were recorded.
use opm_operator.Prelude.{
  ℕ, zero, suc, ◌^◌, ◌<◌, ◌≤◌, ◌≡◌, refl, sym, ap, inl, inr, List, [], ◌∷◌, arith, length, take,
  ltb, Bool-cases,
}
use opm_operator.Prelude.Int64.{pos, max_int64}
use opm_operator.Status.History.{
  HistoryEntry, max_history_entries, max_sequence, next_sequence, record_history_entry,
}

-- The history after a list of records, the latest first.
abbrev pub record_all : List HistoryEntry → List HistoryEntry
record_all [] = []
record_all (e ∷ es) = record_history_entry (record_all es) e

-- Every entry with its place in the order of recording, from 1.
abbrev pub numbered : List HistoryEntry → List HistoryEntry
numbered [] = []
numbered (e ∷ es) = record e { sequence = pos (suc (length es)) } ∷ numbered es

length-take_le : (n : ℕ) (xs : List HistoryEntry) → length xs ≤ n → take n xs ≡ xs
length-take_le zero [] h = refl
length-take_le zero (x ∷ xs) h = absurd (omega (h, arith))
length-take_le (suc n) [] h = refl
length-take_le (suc n) (x ∷ xs) h = ap (λ t. x ∷ t) (length-take_le n xs (omega (h, arith)))

take-take :
    (n : ℕ) (x : HistoryEntry) (xs : List HistoryEntry) → take n (x ∷ take n xs) ≡ take n (x ∷ xs)
take-take zero x xs = refl
take-take (suc n) x xs = ap (λ t. x ∷ t) (take-within n xs)
  where
    take-within : (n : ℕ) (xs : List HistoryEntry) → take n (take (suc n) xs) ≡ take n xs
    take-within zero xs = refl
    take-within (suc n) [] = refl
    take-within (suc n) (x ∷ xs) = ap (λ t. x ∷ t) (take-within n xs)

-- No sequence among the first `k` numbered entries is above the number of entries.
max_sequence-numbered :
    (k m : ℕ) (es : List HistoryEntry)
    → length es ≤ m
    → max_sequence (pos m) (take k (numbered es)) ≡ pos m
unfolding max_sequence
max_sequence-numbered zero m es h = refl
max_sequence-numbered (suc k) m [] h = refl
max_sequence-numbered (suc k) m (e ∷ es) h =
    ground (arith, max_sequence-numbered k m es (omega (h, arith)))

next_sequence-numbered :
    (es : List HistoryEntry)
    → length es < max_int64
    → next_sequence (take max_history_entries (numbered es)) ≡ pos (suc (length es))
unfolding next_sequence max_sequence
next_sequence-numbered [] h = refl
next_sequence-numbered (e ∷ es) h =
    ground (arith, max_sequence-numbered 9 (suc (length es)) es (omega arith))

record_lem :
    (history : List HistoryEntry) (e : HistoryEntry)
    → record_history_entry history e
      ≡ take max_history_entries (record e { sequence = next_sequence history } ∷ history)
unfolding record_history_entry
record_lem history e =
    let longer = record e { sequence = next_sequence history } ∷ history in
    elim (Bool-cases (ltb 10 (length longer))) [
      | inl t ↦ rw t
      | inr f ↦ rw f (sym (length-take_le 10 longer (ground (arith, f))))
    ]

-- Over any list of fewer than 2^63 records the history is the latest ten entries in order, each
-- with its number in the order of recording as its sequence.
pub record_all_lem :
    (es : List HistoryEntry)
    → length es < 2 ^ 63
    → record_all es ≡ take max_history_entries (numbered es)
record_all_lem [] h = refl
record_all_lem (e ∷ es) h =
    let small : length es < max_int64 = omega (arith, h) in
    let before = record_all_lem es (omega (arith, h)) in
    rw (before, record_lem, next_sequence-numbered es small)
      (take-take max_history_entries (record e { sequence = pos (suc (length es)) }) (numbered es))
