-- ===== src/Status/History.antt =====
-- internal/status/history.go: the bounded history of a status. A time is a parameter, `now`.
pub mod Numbering
use opm_operator.Prelude.{
  ℕ, String, Bool, true, false, List, [], ◌∷◌, take, length, ltb, if◌then◌else◌, is_empty,
}
use opm_operator.Prelude.Int64.{ℤ, pos, inc64, ltb_ℤ}
use opm_operator.Status.Digests.{DigestSet}

pub record HistoryEntry : Type 0 where
  pub sequence : ℤ
  pub action : String
  pub phase : String
  pub started_at : ℕ
  pub finished_at : ℕ
  pub source_digest : String
  pub config_digest : String
  pub render_digest : String
  pub inventory_digest : String
  pub inventory_count : ℤ
  pub message : String

-- NewSuccessEntry
unfoldable pub new_success_entry :
    (now : ℕ) → (action phase : String) → DigestSet → (inventory_count : ℤ) → HistoryEntry
new_success_entry now action phase digests count = record {
  sequence = pos 0;
  action = action;
  phase = phase;
  started_at = now;
  finished_at = now;
  source_digest = digests.source;
  config_digest = digests.config;
  render_digest = digests.render;
  inventory_digest = digests.inventory;
  inventory_count = count;
  message = "";
}

-- NewFailureEntry
unfoldable pub new_failure_entry : (now : ℕ) → (action message : String) → DigestSet → HistoryEntry
new_failure_entry now action message digests = record {
  sequence = pos 0;
  action = action;
  phase = "";
  started_at = now;
  finished_at = now;
  source_digest = digests.source;
  config_digest = digests.config;
  render_digest = digests.render;
  inventory_digest = digests.inventory;
  inventory_count = pos 0;
  message = message;
}

abbrev pub max_history_entries : ℕ
max_history_entries = 10

-- The loop of nextSequence: the largest sequence, starting from `max`.
unfoldable pub max_sequence : (max : ℤ) → List HistoryEntry → ℤ
max_sequence max [] = max
max_sequence max (e ∷ es) = max_sequence (if ltb_ℤ max e.sequence then e.sequence else max) es

-- nextSequence
unfoldable pub next_sequence : List HistoryEntry → ℤ
unfolding max_sequence
next_sequence history = if is_empty history then pos 1 else inc64 (max_sequence (pos 0) history)

-- recordHistoryEntry
unfoldable pub record_history_entry : List HistoryEntry → HistoryEntry → List HistoryEntry
unfolding next_sequence
record_history_entry history entry =
    let longer = record entry { sequence = next_sequence history } ∷ history in
    if ltb max_history_entries (length longer) then take max_history_entries longer else longer
